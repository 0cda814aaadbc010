-- ===== src/Cpu/Unit.antt =====
-- `tick` and `onReport` of de_databus/de_cpu_aggregator.cpp: the state of the whole unit.
use droneengage_common.Common.{
  ℕ, ◌+◌, ltb, sym, ◌^◌, ◌≤◌, ◌≡◌, refl, ap, ◌∙◌, Bool, true, false, not, ◌&&◌, ◌||◌, Option, none,
  some, String, str_eq, eq_iff, [], ◌∷◌, arith, if◌then◌else◌, Bool-cases, inl, inr,
}
use droneengage_common.Common.Assoc.{lookup, insert, lookup-insert, is_some}
use droneengage_common.Common.Int.{ℤ, pos, negsuc, eqb_ℤ, ◌<ℤ◌}
use droneengage_common.Common.Float.{FloatOps}
use droneengage_common.Json.{Json}
use droneengage_common.Cpu.Config.{CpuMonitorConfig}
use droneengage_common.Cpu.Monitor.{seconds_ms}
use droneengage_common.Cpu.Aggregator.{
  BoardStats, no_stats, stats_loop, stats_step, CpuAggregator, ModuleReport, Modules, Boards, Fold,
  Events, compute_board_stats, is_silent, is_busy, fold_boards, summary_is_due, tick, modules_of,
  read_report, store_report, on_report, stale_window_ms, board_state_super_busy,
  board_remove_after_ms, max_ℤ,
}
use droneengage_common.Cpu.Board.{reports_busy, compute_board_stats_lem, not_silent_of_busy}

module _ (c : CpuMonitorConfig) (now : ℕ) where
  -- Some board has a fresh report that says SUPER_BUSY.
  pub unit_busy : Boards → Bool
  unit_busy [] = false
  unit_busy ((board, modules) ∷ bs) = reports_busy c now modules || unit_busy bs

  module _ (board : String) (modules : Modules) (bs : Boards) (usage : ℤ) (busy : Bool) where
    fold_silent :
        is_silent c now modules ≡ true
        → fold_boards c now usage busy ((board, modules) ∷ bs) ≡ fold_boards c now usage busy bs
    unfolding fold_boards
    fold_silent e = rw (e, fold_boards)

    abbrev later : Fold
    later =
        fold_boards c now (max_ℤ usage (compute_board_stats c now modules).u)
          (eqb_ℤ (compute_board_stats c now modules).s board_state_super_busy || busy) bs

    fold_loud :
        is_silent c now modules ≡ false
        → fold_boards c now usage busy ((board, modules) ∷ bs)
          ≡ record later { kept = (board, modules) ∷ later.kept }
    unfolding fold_boards
    fold_loud e = rw (e, fold_boards)

  fold_boards-busy :
      (bs : Boards) (usage : ℤ) (busy : Bool)
      → stale_window_ms c ≤ board_remove_after_ms
      → (fold_boards c now usage busy bs).any_busy ≡ busy || unit_busy bs
  unfolding unit_busy
  fold_boards-busy [] usage busy w = unfold fold_boards in ground arith
  fold_boards-busy ((board, modules) ∷ bs) usage busy w =
      elim (Bool-cases (is_silent c now modules)) [
        | inl e ↦
            rw (fold_silent board modules bs usage busy e, fold_boards-busy bs usage busy w)
              (ground (arith, e, not_silent_of_busy c now modules w))
        | inr e ↦
            rw
              (
                fold_loud board modules bs usage busy e,
                fold_boards-busy bs (max_ℤ usage (compute_board_stats c now modules).u)
                    (eqb_ℤ (compute_board_stats c now modules).s board_state_super_busy || busy) w,
                (compute_board_stats_lem c now modules).0,
              )
              (ground arith)
      ]

  -- A second pass over the boards that are kept finds what the first one found.
  fold_boards-kept :
      (bs : Boards) (usage : ℤ) (busy : Bool)
      → fold_boards c now usage busy (fold_boards c now usage busy bs).kept
        ≡ fold_boards c now usage busy bs
  fold_boards-kept [] usage busy = unfold fold_boards in refl
  fold_boards-kept ((board, modules) ∷ bs) usage busy =
      elim (Bool-cases (is_silent c now modules)) [
        | inl e ↦ rw (fold_silent board modules bs usage busy e) (fold_boards-kept bs usage busy)
        | inr e ↦
            let again = later board modules bs usage busy in
            let ih =
              fold_boards-kept bs (max_ℤ usage (compute_board_stats c now modules).u)
                (eqb_ℤ (compute_board_stats c now modules).s board_state_super_busy || busy) in
            rw (fold_loud board modules bs usage busy e) (
              fold_loud board modules again.kept usage busy e
              ∙ ap (λ (f : Fold). record f { kept = (board, modules) ∷ f.kept }) ih)
      ]

  -- Every report came in more than 60000 ms ago.
  abbrev pub unheard : Modules → Bool
  unheard [] = true
  unheard ((m, r) ∷ ms) = ltb (r.seen_at_ms + 60000) now && unheard ms

  newest-stats_loop :
      (ms : Modules) (b : BoardStats)
      → ltb ((stats_loop c now b ms).newest_ms + 60000) now
        ≡ (ltb (b.newest_ms + 60000) now && unheard ms)
  unfolding stats_loop
  newest-stats_loop [] b = ground arith
  newest-stats_loop ((m, r) ∷ ms) b =
      ground (arith, newest-stats_loop ms (stats_step c now b r), step)
    where
      step :
          ltb ((stats_step c now b r).newest_ms + 60000) now
          ≡ (ltb (b.newest_ms + 60000) now && ltb (r.seen_at_ms + 60000) now)
      step = unfold stats_step in ground arith

  is_silent-unheard : (ms : Modules) → is_silent c now ms ≡ (ltb 60000 now && unheard ms)
  unfolding is_silent compute_board_stats
  is_silent-unheard ms = ground (arith, newest-stats_loop ms no_stats)

  -- The boards that were heard of in the last minute, with their reports and in their order. A board without reports
  -- counts as heard of at time 0.
  pub loud : Boards → Boards
  loud [] = []
  loud ((board, modules) ∷ bs) =
      if ltb 60000 now && unheard modules then loud bs else (board, modules) ∷ loud bs

  kept-fold_boards :
      (bs : Boards) (usage : ℤ) (busy : Bool) → (fold_boards c now usage busy bs).kept ≡ loud bs
  unfolding loud
  kept-fold_boards [] usage busy = unfold fold_boards in refl
  kept-fold_boards ((board, modules) ∷ bs) usage busy =
      elim (Bool-cases (is_silent c now modules)) [
        | inl e ↦
            rw (fold_silent board modules bs usage busy e, sym (is_silent-unheard modules) ∙ e)
              (kept-fold_boards bs usage busy)
        | inr e ↦
            rw (fold_loud board modules bs usage busy e, sym (is_silent-unheard modules) ∙ e)
              (ap (◌∷◌ (board, modules)) (kept-fold_boards bs _ _))
      ]

-- After a tick the unit is SUPER_BUSY exactly if a board has a fresh report that says so; stale
-- boards never make it busy. Exactly the boards whose reports all came in more than 60000 ms ago are gone; a board without
-- reports counts as heard of at time 0. The stale window is a minute at most.
pub tick_state :
    (a : CpuAggregator) (now : ℕ)
    → stale_window_ms a.config ≤ board_remove_after_ms
    → (is_busy (tick a now).0.unit_state ≡ unit_busy a.config now a.boards)
      × ((tick a now).0.boards ≡ loud a.config now a.boards)
unfolding tick
tick_state a now w = (
  ground (arith, fold_boards-busy a.config now a.boards (pos 0) false w),
  kept-fold_boards a.config now a.boards (pos 0) false,
)

-- A tick reports a switch exactly where the unit's state changes, and in the direction of the change.
pub tick_edge :
    (a : CpuAggregator) (now : ℕ)
    → ((tick a now).1.became_super_busy
        ≡ not (is_busy a.unit_state) && is_busy (tick a now).0.unit_state)
      × ((tick a now).1.became_free
          ≡ is_busy a.unit_state && not (is_busy (tick a now).0.unit_state))
unfolding tick
tick_edge a now = (ground arith, ground arith)

abbrev pub no_events : Events
no_events = record { became_super_busy = false; became_free = false; summary_due = false }

summary_not_due_again :
    (c : CpuMonitorConfig) (last now : ℕ)
    → c.summary_s <ℤ pos (2 ^ 31)
    → summary_is_due c (if summary_is_due c last now then now else last) now ≡ false
summary_not_due_again c last now small = elim (Bool-cases (summary_is_due c last now)) [
  | inl e ↦ rw e (just_now c.summary_s refl)
  | inr e ↦ rw e e
]
  where
    just_now : (s : ℤ) → c.summary_s ≡ s → summary_is_due c now now ≡ false
    just_now (pos n) e = unfold summary_is_due seconds_ms in ground (arith, e, small)
    just_now (negsuc n) e = unfold summary_is_due seconds_ms in ground (arith, e, small)

-- A second tick at the same time changes nothing and reports nothing, if `summary_s` is an `int`.
pub tick_again :
    (a : CpuAggregator) (now : ℕ)
    → a.config.summary_s <ℤ pos (2 ^ 31)
    → tick (tick a now).0 now ≡ ((tick a now).0, no_events)
unfolding tick
tick_again a now small =
    let last = if a.clock_started then a.last_summary_ms else now in
    ground (
      arith,
      fold_boards-kept a.config now a.boards (pos 0) false,
      summary_not_due_again a.config last now small,
    )

modules_of-insert :
    (m : Boards) (k j : String) (v : Modules)
    → modules_of j (insert k v m) ≡ (if str_eq k j then v else modules_of j m)
unfolding modules_of
modules_of-insert m k j v = rw (lookup-insert k j v m, modules_of) (ground arith)

-- What is stored for a board and a module after a report, by what the report holds.
abbrev pub report_after :
    CpuAggregator → String → Option (String × ModuleReport) → String → String → Option ModuleReport
report_after a module_id none board m = lookup m (modules_of board a.boards)
report_after a module_id (some (b, entry)) board m =
    if str_eq b board && str_eq module_id m
    then some entry
    else lookup m (modules_of board a.boards)

lookup-store_report :
    (a : CpuAggregator) (module_id : String) (r : Option (String × ModuleReport)) (board m : String)
    → lookup m (modules_of board (store_report a module_id r).0.boards)
      ≡ report_after a module_id r board m
unfolding store_report
lookup-store_report a module_id none board m = refl
lookup-store_report a module_id (some (b, entry)) board m =
    rw (modules_of-insert a.boards b board _)
      (ground (arith, eq_iff b board, lookup-insert module_id m entry (modules_of b a.boards)))

module _ {F : Type 0} ⦃o : FloatOps F⦄ where
  -- A report that has what it must have becomes the report of its board and module, and every other
  -- report stays; any other report changes nothing. `onReport` returns true in the first case only.
  pub lookup-on_report :
      (a : CpuAggregator) (module_id : String) (report : Json F) (now : ℕ) (board m : String)
      → (lookup m (modules_of board (on_report a module_id report now).0.boards)
          ≡ report_after a module_id (read_report report now) board m)
        × ((on_report a module_id report now).1 ≡ is_some (read_report report now))
  unfolding on_report
  lookup-on_report a module_id report now board m = (
    lookup-store_report a module_id (read_report report now) board m,
    flag (read_report report now),
  )
    where
      flag : (r : Option (String × ModuleReport)) → (store_report a module_id r).1 ≡ is_some r
      flag none = refl
      flag (some r) = refl
