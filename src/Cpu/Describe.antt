-- ===== src/Cpu/Describe.antt =====
-- The payloads that `CCpuAggregator` builds: `buildCpuDetailJson`, `deBuildUnitCpuWarning` and
-- `deBuildUnitCpuSummary` of de_databus/de_cpu_aggregator.cpp, as records of their fields.
use droneengage_common.Common.{
  ℕ, Bool, not, ◌||◌, Option, none, some, String, List, [], ◌∷◌, if◌then◌else◌, length,
}
use droneengage_common.Common.Int.{ℤ, pos, negsuc, ltb_ℤ, eqb_ℤ}
use droneengage_common.Cpu.Config.{CpuMonitorConfig}
use droneengage_common.Cpu.Aggregator.{
  CpuAggregator, Modules, Boards, compute_board_stats, board_is_fresh, is_busy,
  board_state_super_busy, board_state_free,
}

pub record BoardDetail : Type 0 where
  pub id : String
  pub u : ℤ
  pub s : ℤ
  pub stale : Bool
  pub modules : List (String × ℤ)

pub record CpuDetail : Type 0 where
  pub u : ℤ
  pub s : ℤ
  pub boards : List BoardDetail

-- The modules that reported `pu`.
unfoldable pub module_loads : Modules → List (String × ℤ)
module_loads [] = []
module_loads ((m, r) ∷ ms) =
    let rest = module_loads ms in if ltb_ℤ r.pu (pos 0) then rest else (m, r.pu) ∷ rest

unfoldable pub board_details : CpuMonitorConfig → ℕ → Boards → List BoardDetail
unfolding compute_board_stats board_is_fresh module_loads
board_details c now [] = []
board_details c now ((board, modules) ∷ bs) =
    let b = compute_board_stats c now modules in
    record {
      id = board;
      u = b.u;
      s = b.s;
      stale = not (board_is_fresh c now modules);
      modules = module_loads modules;
    }
    ∷ board_details c now bs

unfoldable pub build_cpu_detail : CpuAggregator → ℕ → CpuDetail
unfolding board_details
build_cpu_detail a now = record {
  u = a.unit_usage;
  s = (if is_busy a.unit_state then board_state_super_busy else board_state_free);
  boards = board_details a.config now a.boards;
}

-- The variables of the loop of `deBuildUnitCpuWarning`; the empty name stands for none.
pub record Busiest : Type 0 where
  pub board : String
  pub board_u : ℤ
  pub module_id : String
  pub module_pu : ℤ

abbrev pub nobody : Busiest
nobody = record { board = ""; board_u = negsuc 0; module_id = ""; module_pu = negsuc 0 }

unfoldable pub busiest_module : Busiest → Modules → Busiest
busiest_module b [] = b
busiest_module b ((m, r) ∷ ms) =
    busiest_module
      (if ltb_ℤ b.module_pu r.pu then record b { module_id = m; module_pu = r.pu } else b) ms

unfoldable pub busiest_step : CpuMonitorConfig → ℕ → Busiest → String → Modules → Busiest
unfolding busiest_module
busiest_step c now b board modules =
    let st = compute_board_stats c now modules in
    if not (eqb_ℤ st.s board_state_super_busy) || ltb_ℤ st.u b.board_u
    then b
    else busiest_module (record b { board = board; board_u = st.u }) modules

unfoldable pub busiest_loop : CpuMonitorConfig → ℕ → Busiest → Boards → Busiest
busiest_loop c now b [] = b
busiest_loop c now b ((board, modules) ∷ bs) =
    busiest_loop c now (busiest_step c now b board modules) bs

-- What a warning says: the notification type, the message id, the unit's usage, the busiest board
-- and module that the description names, and the detail.
pub record Warning : Type 0 where
  pub notification_type : ℕ
  pub message_id : ℕ
  pub usage : ℤ
  pub names : Option Busiest
  pub detail : CpuDetail

unfoldable pub build_unit_cpu_warning : CpuAggregator → Bool → ℕ → Warning
unfolding busiest_loop build_cpu_detail
build_unit_cpu_warning a became_super_busy now = record {
  notification_type = (if became_super_busy then 4 else 5);
  message_id = (if became_super_busy then 1 else 2);
  usage = a.unit_usage;
  names = (if became_super_busy then some (busiest_loop a.config now nobody a.boards) else none);
  detail = build_cpu_detail a now;
}

-- The busiest board of a summary: the first of those with the highest usage.
unfoldable pub summary_loop : CpuMonitorConfig → ℕ → String × ℤ → Boards → String × ℤ
unfolding compute_board_stats
summary_loop c now best [] = best
summary_loop c now (name, u) ((board, modules) ∷ bs) =
    let st = compute_board_stats c now modules in
    summary_loop c now (if ltb_ℤ u st.u then (board, st.u) else (name, u)) bs

pub record Summary : Type 0 where
  pub notification_type : ℕ
  pub message_id : ℕ
  pub usage : ℤ
  pub board_count : ℕ
  pub busiest : String × ℤ
  pub detail : CpuDetail

unfoldable pub build_unit_cpu_summary : CpuAggregator → ℕ → Summary
unfolding summary_loop build_cpu_detail
build_unit_cpu_summary a now = record {
  notification_type = 6;
  message_id = 3;
  usage = a.unit_usage;
  board_count = length a.boards;
  busiest = summary_loop a.config now ("", negsuc 0) a.boards;
  detail = build_cpu_detail a now;
}
