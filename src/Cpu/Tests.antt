-- ===== src/Cpu/Tests.antt =====
-- The theorems on the CPU monitor and the aggregator at concrete configurations and reports, with
-- `double` as numbers of three decimal places.
use droneengage_common.Common.{
  ℕ, ◌+◌, ◌≤◌, ◌≡◌, ◌⊎◌, refl, true, false, not, ◌&&◌, some, [], ◌∷◌, arith, if◌then◌else◌,
}
use droneengage_common.Common.Int.{ℤ, pos, eqb_ℤ}
use droneengage_common.Common.Float.{FloatOps, milli}
use droneengage_common.Cpu.Config.{default_config}
use droneengage_common.Cpu.Monitor.{
  CpuMonitor, free, super_busy, unchanged, became_super_busy, became_free, idle, seconds_ms,
  held_ms, presses_busy, presses_free,
}
use droneengage_common.Cpu.Hysteresis.{Since, run, switch_is_sustained, held_pressure_switches}
use droneengage_common.Cpu.Aggregator.{
  CpuAggregator, ModuleReport, Modules, compute_board_stats, board_state_super_busy, board_is_fresh,
  stale_window_ms, board_remove_after_ms, is_fresh, is_busy, tick,
}
use droneengage_common.Cpu.Describe.{build_unit_cpu_warning}
use droneengage_common.Cpu.Board.{fresh_usage, any_usage, reports_busy, compute_board_stats_lem}
use droneengage_common.Cpu.Unit.{unit_busy, loud, tick_state, tick_edge}
use droneengage_common.Cpu.Naming.{IsBusyReport, warning_names_foreign_module}

instance abbrev decimals : FloatOps ℤ
decimals = milli

abbrev monitor : CpuMonitor ℤ
monitor = record {
  config = default_config;
  state = free;
  have_sample = true;
  prev = record { total = 0; idle_all = 0 };
  last_usage = pos 0;
  pending_dir = idle;
  pending_since_ms = 0;
}

-- 95 % at 1000 ms, at 3000 ms and at 6000 ms.
switch_is_sustained_example :
    ((run monitor ((pos 95000, 6000) ∷ (pos 95000, 3000) ∷ (pos 95000, 1000) ∷ [])).0 ≡ unchanged)
    ⊎ (((run monitor ((pos 95000, 6000) ∷ (pos 95000, 3000) ∷ (pos 95000, 1000) ∷ [])).0
          ≡ became_super_busy)
        × ((t0 : ℕ) × Since
              (presses_busy default_config)
              ((pos 95000, 6000) ∷ (pos 95000, 3000) ∷ (pos 95000, 1000) ∷ [])
              t0
            × (seconds_ms (pos 5) ≤ held_ms 6000 t0)))
    ⊎ (((run monitor ((pos 95000, 6000) ∷ (pos 95000, 3000) ∷ (pos 95000, 1000) ∷ [])).0
          ≡ became_free)
        × ((t0 : ℕ) × Since
              (presses_free default_config)
              ((pos 95000, 6000) ∷ (pos 95000, 3000) ∷ (pos 95000, 1000) ∷ [])
              t0
            × (seconds_ms (pos 5) ≤ held_ms 6000 t0)))
switch_is_sustained_example =
    switch_is_sustained monitor ((pos 95000, 3000) ∷ (pos 95000, 1000) ∷ []) (pos 95000) 6000 refl

within : held_ms 3000 1000 + 1 ≤ seconds_ms (pos 5)
unfolding held_ms seconds_ms
within = omega arith

sustained : seconds_ms (pos 5) ≤ held_ms 6000 1000
unfolding held_ms seconds_ms
sustained = omega arith

held_pressure_switches_example :
    ((run monitor ((pos 95000, 6000) ∷ (pos 95000, 3000) ∷ (pos 95000, 1000) ∷ [])).0
      ≡ became_super_busy)
    × ((run monitor ((pos 95000, 6000) ∷ (pos 95000, 3000) ∷ (pos 95000, 1000) ∷ [])).1.state
        ≡ super_busy)
held_pressure_switches_example =
    held_pressure_switches monitor (pos 95000) (pos 95000) 1000 6000 ((pos 95000, 3000) ∷ []) refl
      refl refl ((refl, omega (arith, within)), tt) refl sustained

-- A module that reports 95 % and SUPER_BUSY, and one that reports 40 % later.
abbrev busy_report : ModuleReport
busy_report = record { u = pos 95; pu = pos 80; s = pos 1; seen_at_ms = 1000 }

abbrev busier_report : ModuleReport
busier_report = record { u = pos 97; pu = pos 50; s = pos 1; seen_at_ms = 1500 }

abbrev calm_report : ModuleReport
calm_report = record { u = pos 40; pu = pos 10; s = pos 0; seen_at_ms = 2000 }

abbrev modules : Modules
modules = ("camera", busy_report) ∷ ("fcb", calm_report) ∷ []

compute_board_stats_lem_example :
    (eqb_ℤ (compute_board_stats default_config 3000 modules).s board_state_super_busy
      ≡ reports_busy default_config 3000 modules)
    × ((compute_board_stats default_config 3000 modules).u ≡ (
        if board_is_fresh default_config 3000 modules
        then fresh_usage default_config 3000 modules
        else any_usage default_config 3000 modules))
compute_board_stats_lem_example = compute_board_stats_lem default_config 3000 modules

small_window : stale_window_ms default_config ≤ board_remove_after_ms
unfolding stale_window_ms
small_window = omega arith

abbrev unit_of : CpuAggregator
unit_of = record {
  config = default_config;
  boards = ("main", modules) ∷ [];
  unit_state = free;
  unit_usage = pos 0;
  clock_started = true;
  last_summary_ms = 0;
}

tick_state_example :
    (is_busy (tick unit_of 3000).0.unit_state
      ≡ unit_busy default_config 3000 (("main", modules) ∷ []))
    × ((tick unit_of 3000).0.boards ≡ loud default_config 3000 (("main", modules) ∷ []))
tick_state_example = tick_state unit_of 3000 small_window

tick_edge_example :
    ((tick unit_of 3000).1.became_super_busy
      ≡ not false && is_busy (tick unit_of 3000).0.unit_state)
    × ((tick unit_of 3000).1.became_free ≡ false && not (is_busy (tick unit_of 3000).0.unit_state))
tick_edge_example = tick_edge unit_of 3000

-- Two busy boards.
abbrev two_boards : CpuAggregator
two_boards = record unit_of {
  boards = ("b1", ("camera", busy_report) ∷ []) ∷ ("b2", ("tracker", busier_report) ∷ []) ∷ [];
}

busy_report-IsBusyReport : IsBusyReport default_config 3000 busy_report
unfolding is_fresh stale_window_ms
busy_report-IsBusyReport = record {
  fresh = refl;
  busy = refl;
  usage = omega arith;
  load = omega arith;
}

busier_report-IsBusyReport : IsBusyReport default_config 3000 busier_report
unfolding is_fresh stale_window_ms
busier_report-IsBusyReport = record {
  fresh = refl;
  busy = refl;
  usage = omega arith;
  load = omega arith;
}

warning_names_foreign_module_example :
    (build_unit_cpu_warning two_boards true 3000).names
    ≡ some (record { board = "b2"; board_u = pos 97; module_id = "camera"; module_pu = pos 80 })
warning_names_foreign_module_example =
    warning_names_foreign_module two_boards 3000 "b1" "b2" "camera" "tracker" busy_report
      busier_report refl busy_report-IsBusyReport busier_report-IsBusyReport (omega arith)
      (omega arith)
