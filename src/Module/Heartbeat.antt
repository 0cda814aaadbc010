-- ===== src/Module/Heartbeat.antt =====
-- `healthHeartbeatLoop` of de_databus/de_module.cpp: a round a second.
use droneengage_common.Common.{ℕ, ◌+◌, Option, none, some, leb, if◌then◌else◌}
use droneengage_common.Common.Float.{FloatOps}
use droneengage_common.Health.Monitor.{HealthMonitor, ProcStatus}
use droneengage_common.Module.State.{Module}
use droneengage_common.Module.Report.{CpuReport, Reporter, Sample, cpu_report_tick}
use droneengage_common.Module.Facade.{send_cpu_status, send_memory_status}

abbrev pub module_health_interval_sec : ℕ
module_health_interval_sec = 30

-- What the thread has: the seconds since the last memory report, its two monitors, and the module.
pub record HealthThread (F : Type 0) : Type 0 where
  pub seconds : ℕ
  pub reporter : Reporter F
  pub monitor : HealthMonitor F
  pub sender : Module F

-- What a second brings: a sample of the processor, the memory of the process and the clock.
pub record Second : Type 0 where
  pub cpu_sample : Sample
  pub memory : Option ProcStatus
  pub now_usec : ℕ

module _ {F : Type 0} ⦃o : FloatOps F⦄ where
  unfoldable pub send_report : Option CpuReport → Module F → Module F
  unfolding send_cpu_status
  send_report none m = m
  send_report (some r) m = send_cpu_status r m

  unfoldable pub report_cpu : Second → HealthThread F → HealthThread F
  unfolding cpu_report_tick send_report
  report_cpu s h =
      if h.reporter.config.enabled
      then (let (report, reporter) = cpu_report_tick s.cpu_sample h.reporter in
          record h { reporter = reporter; sender = send_report report h.sender })
      else h

  unfoldable pub report_memory : Second → HealthThread F → HealthThread F
  unfolding send_memory_status
  report_memory s h =
      if leb module_health_interval_sec (h.seconds + 1)
      then (let (monitor, m) = send_memory_status "" s.now_usec s.memory (h.monitor, h.sender) in
          record h { seconds = 0; monitor = monitor; sender = m })
      else record h { seconds = h.seconds + 1 }

  unfoldable pub heartbeat : Second → HealthThread F → HealthThread F
  unfolding report_cpu report_memory
  heartbeat s h = report_memory s (report_cpu s h)
