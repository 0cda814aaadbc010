-- ===== src/Module/Facade.antt =====
-- `CFacade_Base` of de_databus/de_facade_base.cpp, and `deBuildCpuStatusJson` of de_cpu_monitor.cpp. The numbers of
-- the health states are the constants of de_databus/messages.hpp.
use droneengage_common.Common.{
  ℕ, Bool, true, false, Option, none, some, String, [], ◌∷◌, if◌then◌else◌,
}
use droneengage_common.Common.Int.{ℤ, pos, ltb_ℤ}
use droneengage_common.Common.Float.{FloatOps}
use droneengage_common.Json.{Json, null, boolean, integer, unsigned, float, string}
use droneengage_common.Cpu.Monitor.{CpuBusyState, free, super_busy}
use droneengage_common.Health.Monitor.{
  HealthMonitor, HealthSample, ProcStatus, Trend, stable, up, down, Status, ok, warning, critical,
  configure, sample,
}
use droneengage_common.Module.Message.{number}
use droneengage_common.Config.Merge.{assign_all}
use droneengage_common.Module.Message.Kind
use droneengage_common.Module.State.{Module, send_jmsg}
use droneengage_common.Module.Report.{ReportEvent, periodic, to_super_busy, to_free, CpuReport}

abbrev clamp_pct : ℤ → ℤ
clamp_pct v = if ltb_ℤ v (pos 0) then pos 0 else if ltb_ℤ (pos 100) v then pos 100 else v

abbrev trend_number : Trend → ℕ
trend_number stable = 0
trend_number up = 1
trend_number down = 2

abbrev status_number : Status → ℕ
status_number ok = 0
status_number warning = 1
status_number critical = 2

abbrev state_number : CpuBusyState → ℕ
state_number free = 0
state_number super_busy = 1

abbrev event_number : ReportEvent → ℕ
event_number periodic = 0
event_number to_super_busy = 1
event_number to_free = 2

module _ {F : Type 0} where
  unfoldable pub build_cpu_status : CpuReport → Json F
  unfolding assign_all
  build_cpu_status r = assign_all null (
      ("bd", string r.board_id)
      ∷ ("u", integer (clamp_pct r.board_usage))
      ∷ ("pu", integer (clamp_pct r.process_usage))
      ∷ ("s", number (state_number r.board_state))
      ∷ ("ev", number (event_number r.event))
      ∷ [])

  unfoldable pub send_cpu_status : CpuReport → Module F → Module F
  unfolding build_cpu_status send_jmsg
  send_cpu_status r m = send_jmsg "" (build_cpu_status r) (pos Kind.module_cpu_status) true m

  unfoldable pub request_id : String → Module F → Module F
  unfolding assign_all send_jmsg
  request_id target m =
      send_jmsg target (assign_all null (("C", number Kind.id) ∷ [])) (pos Kind.remote_execute) true
        m

  unfoldable pub send_error_message :
      String → (error info notification : ℤ) → String → Module F → Module F
  unfolding assign_all send_jmsg
  send_error_message target error info notification description m =
      send_jmsg target
        (assign_all null (
          ("EN", integer error)
          ∷ ("IT", integer info)
          ∷ ("NT", integer notification)
          ∷ ("DS", string description)
          ∷ []))
        (pos Kind.error) false m

  unfoldable pub send_config_template : String → String → Json F → Bool → Module F → Module F
  unfolding assign_all send_jmsg
  send_config_template target key template reply m =
      send_jmsg target
        (assign_all null
          (("a", number 0) ∷ ("b", template) ∷ ("k", string key) ∷ ("R", boolean reply) ∷ []))
        (pos Kind.config_status) false m

  unfoldable pub health_message : String → HealthSample F → Json F
  unfolding assign_all
  health_message key h = assign_all null (
      ("a", number 0)
      ∷ ("k", string key)
      ∷ ("rs", float h.rss_mb)
      ∷ ("pk", float h.peak_rss_mb)
      ∷ ("sw", float h.vmswap_mb)
      ∷ ("th", integer h.threads)
      ∷ ("sl", float h.slope_mb_h)
      ∷ ("tr", number (trend_number h.trend))
      ∷ ("hs", number (status_number h.status))
      ∷ ("up", unsigned h.uptime_sec)
      ∷ [])

  unfoldable pub send_health : String → Option (HealthSample F) → Module F → Module F
  unfolding health_message send_jmsg
  send_health target none m = m
  send_health target (some h) m =
      send_jmsg target (health_message m.module_key h) (pos Kind.module_health_status) false m

module _ {F : Type 0} ⦃o : FloatOps F⦄ where
  -- `sendMemoryStatus`, with the monitor that it samples.
  unfoldable pub send_memory_status :
      String → ℕ → Option ProcStatus → HealthMonitor F × Module F → HealthMonitor F × Module F
  unfolding sample send_health
  send_memory_status target now p (monitor, m) =
      let (result, t) = sample now p monitor in (t, send_health target result m)

  -- The window is of 40 samples, by default.
  unfoldable pub configure_memory_status : F → F → HealthMonitor F → HealthMonitor F
  unfolding configure
  configure_memory_status max_rss max_growth monitor = configure max_rss max_growth 40 monitor
