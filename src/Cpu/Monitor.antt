-- ===== src/Cpu/Monitor.antt =====
-- `CCpuMonitor` and the usage formulas of de_databus/de_cpu_monitor.cpp.
use droneengage_common.Common.{
  ℕ, ◌+◌, ◌-◌, ◌*◌, ◌%◌, Bool, true, false, Option, none, some, leb, ltb, ◌==◌, if◌then◌else◌,
}
use droneengage_common.Common.Int.{ℤ, pos, negsuc, u64_mod, to_u64, leb_ℤ}
use droneengage_common.Common.Float.{FloatOps}
use droneengage_common.Cpu.Config.{CpuMonitorConfig}

pub data CpuBusyState : Type 0 where
  free super_busy : CpuBusyState

pub data CpuTransition : Type 0 where
  unchanged became_super_busy became_free : CpuTransition

-- `m_pending_dir`: 0, +1 and -1.
pub data Pending : Type 0 where
  idle toward_busy toward_free : Pending

pub record CpuTimes : Type 0 where
  pub total : ℕ
  pub idle_all : ℕ

pub record CpuMonitor (F : Type 0) : Type 0 where
  pub config : CpuMonitorConfig
  pub state : CpuBusyState
  pub have_sample : Bool
  pub prev : CpuTimes
  pub last_usage : F
  pub pending_dir : Pending
  pub pending_since_ms : ℕ

abbrev pub same_dir : Pending → Pending → Bool
same_dir idle idle = true
same_dir toward_busy toward_busy = true
same_dir toward_free toward_free = true
same_dir _ _ = false

-- `static_cast<uint64_t>(sustain_s) * 1000ULL`
unfoldable pub seconds_ms : ℤ → ℕ
seconds_ms s = to_u64 s * 1000 % u64_mod

-- `(now >= since) ? (now - since) : 0`
unfoldable pub held_ms : ℕ → ℕ → ℕ
held_ms now since = if leb since now then now - since else 0

-- The subtraction of the idle ticks is one of `uint64_t`.
unfoldable pub busy_delta : CpuTimes → CpuTimes → ℕ
busy_delta prev cur =
    let total_delta = cur.total - prev.total in
    let idle_delta = (cur.idle_all + u64_mod - prev.idle_all) % u64_mod in
    if leb idle_delta total_delta then total_delta - idle_delta else 0

module _ {F : Type 0} ⦃o : FloatOps F⦄ where
  unfoldable pub init : CpuMonitorConfig → CpuMonitor F
  init config = record {
    config = config;
    state = free;
    have_sample = false;
    prev = record { total = 0; idle_all = 0 };
    last_usage = o.of_int (negsuc 0);
    pending_dir = idle;
    pending_since_ms = 0;
  }

  -- Applies a new config; keeps the state and drops a pending timer.
  unfoldable pub configure : CpuMonitorConfig → CpuMonitor F → CpuMonitor F
  configure config m = record m { config = config; pending_dir = idle; pending_since_ms = 0 }

  -- `deCpuUsagePercent`: -1 when the total did not advance.
  unfoldable pub cpu_usage_percent : CpuTimes → CpuTimes → F
  unfolding busy_delta
  cpu_usage_percent prev cur =
      if leb cur.total prev.total
      then o.of_int (negsuc 0)
      else o.div (o.mul (o.of_int (pos 100)) (o.of_int (pos (busy_delta prev cur))))
          (o.of_int (pos (cur.total - prev.total)))

  -- `deProcessCpuUsagePercent`
  unfoldable pub process_cpu_usage_percent : (prev cur elapsed_ms : ℕ) → ℤ → F
  process_cpu_usage_percent prev cur elapsed_ms ticks_per_second =
      if elapsed_ms == 0
      then o.of_int (negsuc 0)
      else if leb_ℤ ticks_per_second (pos 0)
      then o.of_int (negsuc 0)
      else if leb cur prev
      then o.of_int (negsuc 0)
      else o.div
          (o.mul (o.of_int (pos 100))
            (o.div (o.of_int (pos (cur - prev))) (o.of_int ticks_per_second)))
          (o.div (o.of_int (pos elapsed_ms)) (o.of_int (pos 1000)))

  -- `usage >= super_busy_percent` and `usage <= free_percent`.
  abbrev pub presses_busy : CpuMonitorConfig → F → Bool
  presses_busy c usage = o.le (o.of_int c.super_busy_percent) usage

  abbrev pub presses_free : CpuMonitorConfig → F → Bool
  presses_free c usage = o.le usage (o.of_int c.free_percent)

  -- Which side presses on the state, if any.
  unfoldable pub wanted : CpuMonitorConfig → CpuBusyState → F → Pending
  wanted c free usage = if presses_busy c usage then toward_busy else idle
  wanted c super_busy usage = if presses_free c usage then toward_free else idle

  abbrev pub idle_monitor : CpuMonitor F → CpuMonitor F
  idle_monitor m = record m { pending_dir = idle; pending_since_ms = 0 }

  -- A side presses: start its window, wait, or switch.
  unfoldable pub press : CpuMonitor F → Pending → ℕ → CpuTransition × CpuMonitor F
  unfolding held_ms seconds_ms
  press m idle now = (unchanged, idle_monitor m)
  press m toward_busy now =
      if same_dir m.pending_dir toward_busy
      then (if ltb (held_ms now m.pending_since_ms) (seconds_ms m.config.sustain_s)
          then (unchanged, m)
          else (
            became_super_busy,
            record m { state = super_busy; pending_dir = idle; pending_since_ms = 0 },
          ))
      else (unchanged, record m { pending_dir = toward_busy; pending_since_ms = now })
  press m toward_free now =
      if same_dir m.pending_dir toward_free
      then (if ltb (held_ms now m.pending_since_ms) (seconds_ms m.config.sustain_s)
          then (unchanged, m)
          else (became_free, record m { state = free; pending_dir = idle; pending_since_ms = 0 }))
      else (unchanged, record m { pending_dir = toward_free; pending_since_ms = now })

  unfoldable pub on_usage : CpuMonitor F → F → ℕ → CpuTransition × CpuMonitor F
  unfolding wanted press
  on_usage m usage now = press m (wanted m.config m.state usage) now

  unfoldable pub update_from_times : CpuMonitor F → CpuTimes → ℕ → CpuTransition × CpuMonitor F
  unfolding on_usage cpu_usage_percent
  update_from_times m cur now =
      if m.have_sample
      then (let usage = cpu_usage_percent m.prev cur in
          if o.lt usage (o.of_int (pos 0))
          then (unchanged, m)
          else on_usage (record m { prev = cur; last_usage = usage }) usage now)
      else (unchanged, record m { prev = cur; have_sample = true })

  -- `update`, given what `deParseProcStatCpu` makes of the text.
  unfoldable pub update : CpuMonitor F → Option CpuTimes → ℕ → CpuTransition × CpuMonitor F
  unfolding update_from_times
  update m none now = (unchanged, m)
  update m (some cur) now = update_from_times m cur now
