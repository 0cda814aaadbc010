-- ===== src/Module/Report.antt =====
-- `cpuReportTick` of de_databus/de_module.cpp: one sample of the health thread. The texts of /proc are given as what
-- is read of them.
use droneengage_common.Common.{
  ℕ, ◌-◌, Bool, true, ◌&&◌, ◌||◌, Option, none, some, String, ltb, leb, ◌==◌, if◌then◌else◌,
}
use droneengage_common.Common.Int.{ℤ, pos}
use droneengage_common.Common.Float.{FloatOps}
use droneengage_common.Cpu.Config.{CpuMonitorConfig}
use droneengage_common.Cpu.Monitor.{
  CpuMonitor, CpuTimes, CpuTransition, unchanged, became_super_busy, became_free, CpuBusyState,
  update_from_times, process_cpu_usage_percent, seconds_ms,
}

-- CPU_REPORT_EVENT_*
pub data ReportEvent : Type 0 where
  periodic to_super_busy to_free : ReportEvent

-- The arguments of `sendCpuStatus`.
pub record CpuReport : Type 0 where
  pub board_id : String
  pub board_usage : ℤ
  pub process_usage : ℤ
  pub board_state : CpuBusyState
  pub event : ReportEvent

-- The members for the reports, which only the health thread uses. The times of the process are its ticks.
pub record Reporter (F : Type 0) : Type 0 where
  pub config : CpuMonitorConfig
  pub monitor : CpuMonitor F
  pub prev_proc_times : ℕ
  pub prev_proc_ms : ℕ
  pub have_prev_proc : Bool
  pub last_cpu_report_ms : ℕ
  pub clock_ticks_per_s : ℤ
  pub board_id : String

-- A second of the health thread: what /proc/stat and /proc/self/stat hold, where they can be read, and the time.
pub record Sample : Type 0 where
  pub cpu : Option CpuTimes
  pub process : Option ℕ
  pub now_ms : ℕ

-- The periodic report is due.
unfoldable pub is_due : (report_s : ℤ) (last now : ℕ) → Bool
unfolding seconds_ms
is_due report_s last now = last == 0 || (leb last now && leb (seconds_ms report_s) (now - last))

unfoldable pub report_event : CpuTransition → Bool → Option ReportEvent
report_event became_super_busy due = some to_super_busy
report_event became_free due = some to_free
report_event unchanged due = if due then some periodic else none

module _ {F : Type 0} ⦃o : FloatOps F⦄ where
  abbrev rounded : F → ℤ
  rounded x = o.to_int (o.add x o.half)

  -- The use of the processor by the process, where it can be told.
  unfoldable pub process_usage : Option ℕ → ℕ → Reporter F → ℤ
  unfolding process_cpu_usage_percent
  process_usage none now r = pos 0
  process_usage (some ticks) now r =
      if r.have_prev_proc && ltb r.prev_proc_ms now
      then (let percent =
            process_cpu_usage_percent r.prev_proc_times ticks (now - r.prev_proc_ms)
              r.clock_ticks_per_s in
          if o.le (o.of_int (pos 0)) percent then rounded percent else pos 0)
      else pos 0

  unfoldable pub keep_process : Option ℕ → ℕ → Reporter F → Reporter F
  keep_process none now r = r
  keep_process (some ticks) now r = record r {
    prev_proc_times = ticks;
    prev_proc_ms = now;
    have_prev_proc = true;
  }

  unfoldable pub make_report :
      Option ReportEvent → ℤ → ℕ → Reporter F → Option CpuReport × Reporter F
  make_report none usage now r = (none, r)
  make_report (some event) usage now r = (
    some (record {
      board_id = r.board_id;
      board_usage = rounded r.monitor.last_usage;
      process_usage = usage;
      board_state = r.monitor.state;
      event = event;
    }),
    record r { last_cpu_report_ms = now },
  )

  -- After the monitor was updated.
  unfoldable pub after_update :
      CpuTransition → Option ℕ → ℕ → Reporter F → Option CpuReport × Reporter F
  unfolding process_usage keep_process make_report report_event is_due
  after_update transition process now r =
      if o.lt r.monitor.last_usage (o.of_int (pos 0))
      then (none, r)
      else make_report (report_event transition (is_due r.config.report_s r.last_cpu_report_ms now))
          (process_usage process now r) now (keep_process process now r)

  unfoldable pub report_tick :
      Option CpuTimes → Option ℕ → ℕ → Reporter F → Option CpuReport × Reporter F
  unfolding update_from_times after_update
  report_tick none process now r = (none, r)
  report_tick (some times) process now r =
      let (transition, monitor) = update_from_times r.monitor times now in
      after_update transition process now (record r { monitor = monitor })

  unfoldable pub cpu_report_tick : Sample → Reporter F → Option CpuReport × Reporter F
  unfolding report_tick
  cpu_report_tick s r = report_tick s.cpu s.process s.now_ms r
