-- ===== src/Health/Tests.antt =====
-- The monitor of de_databus/de_module_health.cpp at concrete readings, with `double` as numbers of three decimal
-- places.
use droneengage_common.Common.{
  ℕ, ◌≤◌, ◌≡◌, refl, Option, none, some, List, [], ◌∷◌, ◌++◌, arith, All, length, ◌⊎◌,
}
use droneengage_common.Common.Int.{ℤ, pos}
use droneengage_common.Common.Float.{FloatOps, milli}
use droneengage_common.Health.Monitor.{
  ProcStatus, HealthSample, new_monitor, whole, sample, warning, configure, HealthMonitor,
}
use droneengage_common.Health.Window.{
  IsOrder, IsBelow, IsReached, readings, last_readings, run, sample-run,
}

instance abbrev decimals : FloatOps ℤ
decimals = milli

decimals-IsOrder : IsOrder decimals
decimals-IsOrder = record {
  weaken = λ a b e. ground (arith, e);
  linear = λ a b e. ground (arith, e);
  transitive = λ a b c e f. ground (arith, e, f);
}

-- A window of two readings.
abbrev monitor : HealthMonitor ℤ
monitor = configure (pos 500000) (pos 20000) 2 new_monitor

abbrev memory : ℕ → ProcStatus
memory kb = record { rss_kb = kb; vmpeak_kb = kb; vmswap_kb = 0; threads = pos 4 }

abbrev samples : List (ℕ × Option ProcStatus)
samples = (1000000, some (memory 4096)) ∷ (31000000, none) ∷ (61000000, some (memory 2048)) ∷ []

-- The first reading, the largest, has left the window.
peak_ages_out :
    (sample 91000000 (some (memory 1024)) (run samples monitor)).1.history
    ≡ last_readings 2 (readings samples ++ readings ((91000000, some (memory 1024)) ∷ []))
unfolding sample run configure
peak_ages_out = refl

sample-run_example :
    (h : HealthSample ℤ) × ((sample 91000000 (some (memory 1024)) (run samples monitor)).0 ≡ some h)
    × All (IsBelow h.peak_rss_mb) (
        last_readings monitor.history_samples
          (readings samples ++ readings ((91000000, some (memory 1024)) ∷ [])))
    × ((h.peak_rss_mb ≡ whole 0)
        ⊎ IsReached h.peak_rss_mb (
            last_readings monitor.history_samples
              (readings samples ++ readings ((91000000, some (memory 1024)) ∷ []))))
    × (h.status ≡ warning
        → monitor.history_samples
          ≤ length
              (readings {F = ℤ} samples ++ readings {F = ℤ} ((91000000, some (memory 1024)) ∷ [])))
unfolding configure
sample-run_example = sample-run decimals-IsOrder samples 91000000 (memory 1024) monitor refl
