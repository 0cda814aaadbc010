-- ===== src/Cpu/Aggregator.antt =====
-- `CCpuAggregator` of de_databus/de_cpu_aggregator.cpp. The two maps are association lists in key
-- order. The text of a description is kept as the parts that it is put together from.
use droneengage_common.Common.{
  ℕ, ◌-◌, ◌*◌, ◌%◌, Bool, true, false, not, ◌&&◌, ◌||◌, Option, none, some, String, str_eq, [], ◌∷◌,
  leb, ltb, if◌then◌else◌,
}
use droneengage_common.Common.Assoc.{Assoc, lookup, insert}
use droneengage_common.Common.Int.{ℤ, pos, negsuc, u64_mod, to_u64, ltb_ℤ, eqb_ℤ}
use droneengage_common.Common.Float.{FloatOps}
use droneengage_common.Json.{Json, string, at, is_number, get_int}
use droneengage_common.Cpu.Config.{CpuMonitorConfig}
use droneengage_common.Cpu.Monitor.{CpuBusyState, free, super_busy, seconds_ms}

-- CPU_BOARD_STATE_FREE and CPU_BOARD_STATE_SUPER_BUSY of messages.hpp.
abbrev pub board_state_free : ℤ
board_state_free = pos 0

abbrev pub board_state_super_busy : ℤ
board_state_super_busy = pos 1

abbrev pub board_remove_after_ms : ℕ
board_remove_after_ms = 60000

-- `pu` is -1 when the module did not report it.
pub record ModuleReport : Type 0 where
  pub u : ℤ
  pub pu : ℤ
  pub s : ℤ
  pub seen_at_ms : ℕ

abbrev pub Modules : Type 0
Modules = Assoc ModuleReport

abbrev pub Boards : Type 0
Boards = Assoc Modules

pub record CpuAggregator : Type 0 where
  pub config : CpuMonitorConfig
  pub boards : Boards
  pub unit_state : CpuBusyState
  pub unit_usage : ℤ
  pub clock_started : Bool
  pub last_summary_ms : ℕ

unfoldable pub init : CpuMonitorConfig → CpuAggregator
init config = record {
  config = config;
  boards = [];
  unit_state = free;
  unit_usage = pos 0;
  clock_started = false;
  last_summary_ms = 0;
}

-- Keeps the reports and the unit's state, and drops the timers.
unfoldable pub configure : CpuMonitorConfig → CpuAggregator → CpuAggregator
configure config a = record a { config = config; clock_started = false; last_summary_ms = 0 }

-- `m_boards[board_id]`, an empty map when there is none.
unfoldable pub modules_of : String → Boards → Modules
unfolding lookup
modules_of board m = elim (lookup board m) [ none ↦ [] | some modules ↦ modules ]

unfoldable pub store_report :
    CpuAggregator → String → Option (String × ModuleReport) → CpuAggregator × Bool
store_report a module_id none = (a, false)
store_report a module_id (some (board, entry)) = (
  record a { boards = insert board (insert module_id entry (modules_of board a.boards)) a.boards },
  true,
)

module _ {F : Type 0} ⦃o : FloatOps F⦄ where
  -- A report's fields as `onReport` requires them: the board, and what is stored for the module.
  unfoldable pub read_pu : Option (Json F) → ℤ
  read_pu none = negsuc 0
  read_pu (some v) = if is_number v then get_int v else negsuc 0

  unfoldable pub read_fields :
      Option (Json F)
      → Option (Json F)
      → Option (Json F)
      → Option (Json F)
      → ℕ
      → Option (String × ModuleReport)
  unfolding read_pu
  read_fields (some (string board)) (some u) (some s) pu now =
      if not (is_number u) || not (is_number s)
      then none
      else if str_eq board ""
      then none
      else some (board, record { u = get_int u; pu = read_pu pu; s = get_int s; seen_at_ms = now })
  read_fields _ _ _ _ _ = none

  unfoldable pub read_report : Json F → ℕ → Option (String × ModuleReport)
  unfolding read_fields
  read_report report now =
      read_fields (at "bd" report) (at "u" report) (at "s" report) (at "pu" report) now

  unfoldable pub on_report : CpuAggregator → String → Json F → ℕ → CpuAggregator × Bool
  unfolding store_report
  on_report a module_id report now = store_report a module_id (read_report report now)

-- `3ULL * static_cast<uint64_t>(report_s) * 1000ULL`
unfoldable pub stale_window_ms : CpuMonitorConfig → ℕ
stale_window_ms c = 3 * to_u64 c.report_s * 1000 % u64_mod

unfoldable pub is_fresh : CpuMonitorConfig → ℕ → ModuleReport → Bool
is_fresh c now r = leb r.seen_at_ms now && leb (now - r.seen_at_ms) (stale_window_ms c)

unfoldable pub board_is_fresh : CpuMonitorConfig → ℕ → Modules → Bool
unfolding is_fresh
board_is_fresh c now [] = false
board_is_fresh c now ((m, r) ∷ ms) = is_fresh c now r || board_is_fresh c now ms

-- The variables of the loop of `computeBoardStats`.
pub record BoardStats : Type 0 where
  pub u : ℤ
  pub s : ℤ
  pub newest_ms : ℕ
  pub saw_fresh : Bool
  pub stale_max_u : ℤ

unfoldable pub max_ℤ : ℤ → ℤ → ℤ
max_ℤ a b = if ltb_ℤ a b then b else a

unfoldable pub stats_step : CpuMonitorConfig → ℕ → BoardStats → ModuleReport → BoardStats
unfolding is_fresh
stats_step c now b r =
    let newest = if ltb b.newest_ms r.seen_at_ms then r.seen_at_ms else b.newest_ms in
    let stale = max_ℤ b.stale_max_u r.u in
    if is_fresh c now r
    then record {
      u = max_ℤ b.u r.u;
      s = (if eqb_ℤ r.s board_state_super_busy then board_state_super_busy else b.s);
      newest_ms = newest;
      saw_fresh = true;
      stale_max_u = stale;
    }
    else record b { newest_ms = newest; stale_max_u = stale }

unfoldable pub stats_loop : CpuMonitorConfig → ℕ → BoardStats → Modules → BoardStats
unfolding stats_step
stats_loop c now b [] = b
stats_loop c now b ((m, r) ∷ ms) = stats_loop c now (stats_step c now b r) ms

abbrev pub no_stats : BoardStats
no_stats = record {
  u = pos 0;
  s = board_state_free;
  newest_ms = 0;
  saw_fresh = false;
  stale_max_u = pos 0;
}

unfoldable pub compute_board_stats : CpuMonitorConfig → ℕ → Modules → BoardStats
unfolding stats_loop
compute_board_stats c now modules =
    let b = stats_loop c now no_stats modules in
    if b.saw_fresh then b else record b { u = b.stale_max_u }

-- The test that drops a board in `tick`.
unfoldable pub is_silent : CpuMonitorConfig → ℕ → Modules → Bool
unfolding compute_board_stats
is_silent c now modules =
    let newest = (compute_board_stats c now modules).newest_ms in
    leb newest now && ltb board_remove_after_ms (now - newest)

-- The boards that are kept, the unit's usage, and whether some fresh board is busy.
pub record Fold : Type 0 where
  pub kept : Boards
  pub usage : ℤ
  pub any_busy : Bool

unfoldable pub fold_boards : CpuMonitorConfig → ℕ → ℤ → Bool → Boards → Fold
fold_boards c now usage busy [] = record { kept = []; usage = usage; any_busy = busy }
fold_boards c now usage busy ((board, modules) ∷ bs) = elim (is_silent c now modules) [
  | true ↦ fold_boards c now usage busy bs
  | false ↦
      let b = compute_board_stats c now modules in
      let rest =
        fold_boards c now (max_ℤ usage b.u) (eqb_ℤ b.s board_state_super_busy || busy) bs in
      record rest { kept = (board, modules) ∷ rest.kept }
]

-- The bits of `UnitCpuEvent`.
pub record Events : Type 0 where
  pub became_super_busy : Bool
  pub became_free : Bool
  pub summary_due : Bool

abbrev pub is_busy : CpuBusyState → Bool
is_busy free = false
is_busy super_busy = true

-- `summary_s > 0 && now >= last && now - last >= summary_s * 1000`
unfoldable pub summary_is_due : CpuMonitorConfig → ℕ → ℕ → Bool
unfolding seconds_ms
summary_is_due c last now =
    ltb_ℤ (pos 0) c.summary_s && (leb last now && leb (seconds_ms c.summary_s) (now - last))

unfoldable pub tick : CpuAggregator → ℕ → CpuAggregator × Events
tick a now =
    let last = if a.clock_started then a.last_summary_ms else now in
    let f = fold_boards a.config now (pos 0) false a.boards in
    let due = summary_is_due a.config last now in
    (
      record {
        config = a.config;
        boards = f.kept;
        unit_state = (if f.any_busy then super_busy else free);
        unit_usage = f.usage;
        clock_started = true;
        last_summary_ms = (if due then now else last);
      },
      record {
        became_super_busy = f.any_busy && not (is_busy a.unit_state);
        became_free = not f.any_busy && is_busy a.unit_state;
        summary_due = due;
      },
    )
