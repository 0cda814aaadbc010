-- ===== src/Cpu/Naming.antt =====
-- What the warning of de_databus/de_cpu_aggregator.cpp names when several boards are busy.
use droneengage_common.Common.{ℕ, ◌≡◌, true, String, [], ◌∷◌, arith, some, if◌then◌else◌}
use droneengage_common.Common.Int.{pos, ◌≤ℤ◌, ltb_ℤ}
use droneengage_common.Cpu.Config.{CpuMonitorConfig}
use droneengage_common.Cpu.Aggregator.{
  CpuAggregator, ModuleReport, is_fresh, compute_board_stats, board_state_super_busy, max_ℤ,
}
use droneengage_common.Cpu.Describe.{
  Busiest, nobody, busiest_loop, busiest_step, build_unit_cpu_warning,
}

-- A fresh report that says SUPER_BUSY, with a usage and a load that are not negative.
pub record IsBusyReport (c : CpuMonitorConfig) (now : ℕ) (r : ModuleReport) : Type 0 where
  pub fresh : is_fresh c now r ≡ true
  pub busy : r.s ≡ board_state_super_busy
  pub usage : pos 0 ≤ℤ r.u
  pub load : pos 0 ≤ℤ r.pu

-- A board with one such report is busy, at the report's usage.
one_report :
    (c : CpuMonitorConfig) (now : ℕ) (m : String) (r : ModuleReport)
    → IsBusyReport c now r
    → ((compute_board_stats c now ((m, r) ∷ [])).s ≡ board_state_super_busy)
      × ((compute_board_stats c now ((m, r) ∷ [])).u ≡ r.u)
unfolding compute_board_stats max_ℤ
one_report c now m r b = (ground (arith, b), ground (arith, b))

module _ (c : CpuMonitorConfig) (now : ℕ) (m : String) (r : ModuleReport)
    (busy : IsBusyReport c now r) where
  -- A busy board whose usage is not below the best so far takes its place, and its module takes the
  -- place of the module so far only if it has the higher load.
  takes_over :
      (b : Busiest) (board : String)
      → b.board_u ≤ℤ r.u
      → busiest_step c now b board ((m, r) ∷ []) ≡ (
          if ltb_ℤ b.module_pu r.pu
          then record { board = board; board_u = r.u; module_id = m; module_pu = r.pu }
          else record b { board = board; board_u = r.u })
  unfolding busiest_step
  takes_over b board h =
      rw ((one_report c now m r busy).0, (one_report c now m r busy).1) (ground arith)

-- Two busy boards with a module each: where the second has the usage that is not lower, and the
-- module of the first the load that is not lower, the warning names the second board with the module
-- of the first.
pub warning_names_foreign_module :
    (a : CpuAggregator) (now : ℕ) (first second m1 m2 : String) (r1 r2 : ModuleReport)
    → a.boards ≡ (first, (m1, r1) ∷ []) ∷ (second, (m2, r2) ∷ []) ∷ []
    → IsBusyReport a.config now r1
    → IsBusyReport a.config now r2
    → r1.u ≤ℤ r2.u
    → r2.pu ≤ℤ r1.pu
    → (build_unit_cpu_warning a true now).names
      ≡ some (record { board = second; board_u = r2.u; module_id = m1; module_pu = r1.pu })
unfolding build_unit_cpu_warning busiest_loop
warning_names_foreign_module a now first second m1 m2 r1 r2 e b1 b2 u pu = rw e (
    ground (
      arith,
      b1,
      b2,
      takes_over a.config now m1 r1 b1 nobody first,
      takes_over a.config now m2 r2 b2
          (record { board = first; board_u = r1.u; module_id = m1; module_pu = r1.pu }) second,
    ))
