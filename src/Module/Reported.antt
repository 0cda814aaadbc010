-- ===== src/Module/Reported.antt =====
-- The CPU reports of a run of the health thread in de_databus/de_module.cpp.
use droneengage_common.Common.{
  ℕ, ◌+◌, ◌≤◌, ◌≡◌, refl, sym, ap, ◌∙◌, subst, ◌⊎◌, Bool, true, false, Option, none, some, List, [],
  ◌∷◌, arith, if_rule,
}
use droneengage_common.Common.Int.{ℤ, pos}
use droneengage_common.Common.Float.{FloatOps}
use droneengage_common.Cpu.Config.{CpuMonitorConfig}
use droneengage_common.Cpu.Monitor.{
  CpuMonitor, CpuTimes, CpuTransition, unchanged, CpuBusyState, free, super_busy, update_from_times,
  on_usage, cpu_usage_percent, seconds_ms,
}
use droneengage_common.Cpu.Hysteresis.{edge, on_usage-edge}
use droneengage_common.Module.Report.{
  ReportEvent, periodic, CpuReport, Reporter, Sample, is_due, report_event, process_usage,
  keep_process, make_report, after_update, report_tick, cpu_report_tick,
}

-- The reports with their times, the last first.
abbrev pub Log : Type 0
Log = List (ℕ × CpuReport)

unfoldable pub log_report : ℕ → Option CpuReport → Log → Log
log_report now none log = log
log_report now (some p) log = (now, p) ∷ log

-- The last report tells the state of the board; before the first one it is free.
abbrev pub IsCurrent : Log → CpuBusyState → Type 0
IsCurrent [] state = state ≡ free
IsCurrent ((t, p) ∷ log) state = p.board_state ≡ state

abbrev pub IsStamped : Log → ℕ → Type 0
IsStamped [] last = last ≡ 0
IsStamped ((t, p) ∷ log) last = last ≡ t

abbrev pub IsDueAfter : CpuMonitorConfig → ℕ → ReportEvent → Log → Type 0
IsDueAfter c t event [] = Unit
IsDueAfter c t event ((t0, q) ∷ log) =
    event ≡ periodic → (t0 ≡ 0) ⊎ (t0 + seconds_ms c.report_s ≤ t)

-- A periodic report comes an interval after the report before it, of whichever kind, at the earliest.
abbrev pub IsSpaced : CpuMonitorConfig → Log → Type 0
IsSpaced c [] = Unit
IsSpaced c ((t, p) ∷ log) = IsDueAfter c t p.event log × IsSpaced c log

edge_refl : (s : CpuBusyState) → edge s s ≡ unchanged
edge_refl free = refl
edge_refl super_busy = refl

edge_unchanged : (s t : CpuBusyState) → edge s t ≡ unchanged → s ≡ t
edge_unchanged free free e = refl
edge_unchanged free super_busy e = absurd (ground arith)
edge_unchanged super_busy free e = absurd (ground arith)
edge_unchanged super_busy super_busy e = refl

-- A report that is periodic was due.
due_after :
    (c : CpuMonitorConfig) (transition : CpuTransition) (last now : ℕ) (event : ReportEvent)
    → report_event transition (is_due c.report_s last now) ≡ some event
    → event ≡ periodic
    → (last ≡ 0) ⊎ (last + seconds_ms c.report_s ≤ now)
unfolding report_event is_due
due_after c transition last now event e p = ground (arith, e, p)

due_log :
    (c : CpuMonitorConfig) (now last : ℕ) (event : ReportEvent) (log : Log)
    → IsStamped log last
    → (event ≡ periodic → (last ≡ 0) ⊎ (last + seconds_ms c.report_s ≤ now))
    → IsDueAfter c now event log
due_log c now last event [] stamped due = tt
due_log c now last event ((t, q) ∷ log) stamped due =
    λ e. subst (λ x. (x ≡ 0) ⊎ (x + seconds_ms c.report_s ≤ now)) stamped (due e)

silent :
    (transition : CpuTransition) (due : Bool)
    → report_event transition due ≡ none
    → transition ≡ unchanged
unfolding report_event
silent transition due e = ground (arith, e)

module _ {F : Type 0} ⦃o : FloatOps F⦄ where
  last_usage-on_usage :
      (m : CpuMonitor F) (u : F) (t : ℕ) → (on_usage m u t).1.last_usage ≡ m.last_usage
  unfolding on_usage
  last_usage-on_usage m u t = ground arith

  abbrev IsEdge : CpuMonitor F → CpuTransition × CpuMonitor F → Type 0
  IsEdge m r =
      (r.0 ≡ edge m.state r.1.state)
      × (o.lt r.1.last_usage (o.of_int (pos 0)) ≡ true → r.1.state ≡ m.state)

  -- What the monitor reports is the edge of its state, and its state stays where the use is not known.
  update_from_times-IsEdge :
      (m : CpuMonitor F) (times : CpuTimes) (now : ℕ) → IsEdge m (update_from_times m times now)
  unfolding update_from_times
  update_from_times-IsEdge m times now =
      let u : F = cpu_usage_percent m.prev times in
      let t = record m { prev = times; last_usage = u } in
      if_rule (IsEdge m) m.have_sample _ _
        (λ e.
          if_rule (IsEdge m) (o.lt u (o.of_int (pos 0))) _ _
            (λ f. (sym (edge_refl m.state), λ x. refl))
            (λ f. (
              on_usage-edge t u now,
              λ x.
                  let z : false ≡ true =
                    sym f
                    ∙ ap (λ v. o.lt v (o.of_int (pos 0))) (sym (last_usage-on_usage t u now))
                    ∙ x in
                  cc,
            )))
        (λ e. (sym (edge_refl m.state), λ x. refl))

  -- The reports of a run of the health thread so far.
  pub record IsReported (c : CpuMonitorConfig) (log : Log) (r : Reporter F) : Type 0 where
    pub configured : r.config ≡ c
    pub current : IsCurrent log r.monitor.state
    pub stamped : IsStamped log r.last_cpu_report_ms
    pub spaced : IsSpaced c log

  unfoldable pub run : List Sample → Log → Reporter F → Log × Reporter F
  unfolding cpu_report_tick log_report
  run [] log r = (log, r)
  run (s ∷ samples) log r =
      let (report, t) = cpu_report_tick s r in run samples (log_report s.now_ms report log) t

  keep_process-same :
      (process : Option ℕ) (now : ℕ) (r : Reporter F)
      → ((keep_process process now r).config ≡ r.config)
        × ((keep_process process now r).monitor ≡ r.monitor)
        × ((keep_process process now r).last_cpu_report_ms ≡ r.last_cpu_report_ms)
  unfolding keep_process
  keep_process-same none now r = (refl, refl, refl)
  keep_process-same (some ticks) now r = (refl, refl, refl)

  module _ (c : CpuMonitorConfig) (log : Log) (r : Reporter F) (transition : CpuTransition)
      (monitor : CpuMonitor F) (process : Option ℕ) (now : ℕ) (h : IsReported c log r)
      (moved : IsEdge r.monitor (transition, monitor)) where
    abbrev updated : Reporter F
    updated = record r { monitor = monitor }

    abbrev IsKept : Option CpuReport × Reporter F → Type 0
    IsKept t = IsReported c (log_report now t.0 log) t.1

    make_report-IsKept :
        (event : Option ReportEvent) (usage : ℤ)
        → report_event transition (is_due r.config.report_s r.last_cpu_report_ms now) ≡ event
        → IsKept (make_report event usage now (keep_process process now updated))
    unfolding make_report log_report
    make_report-IsKept none usage e =
        let (same, mon, last) = keep_process-same process now updated in
        let state : r.monitor.state ≡ monitor.state =
          edge_unchanged r.monitor.state monitor.state (sym moved.0 ∙ silent transition _ e) in
        record {
          configured = same ∙ h.configured;
          current = subst (IsCurrent log) (state ∙ sym (ap (λ m. m.state) mon)) h.current;
          stamped = subst (IsStamped log) (sym last) h.stamped;
          spaced = h.spaced;
        }
    make_report-IsKept (some event) usage e =
        let (same, mon, last) = keep_process-same process now updated in
        record {
          configured = same ∙ h.configured;
          current = refl;
          stamped = refl;
          spaced = (
            due_log c now r.last_cpu_report_ms event log h.stamped (
                due_after c transition r.last_cpu_report_ms now event (
                  ap (λ d. report_event transition (is_due d.report_s r.last_cpu_report_ms now))
                    (sym h.configured)
                  ∙ e)),
            h.spaced,
          );
        }

    after_update-IsKept : IsKept (after_update transition process now updated)
    unfolding after_update
    after_update-IsKept =
        if_rule IsKept (o.lt monitor.last_usage (o.of_int (pos 0))) _ _
          (λ e.
            unfold log_report in
            record {
              configured = h.configured;
              current = subst (IsCurrent log) (sym (moved.1 e)) h.current;
              stamped = h.stamped;
              spaced = h.spaced;
            })
          (λ e. make_report-IsKept _ (process_usage process now updated) refl)

  report_tick-IsReported :
      (c : CpuMonitorConfig) (log : Log) (r : Reporter F) (cpu : Option CpuTimes)
      (process : Option ℕ) (now : ℕ)
      → IsReported c log r
      → IsReported c
          (log_report now (report_tick cpu process now r).0 log)
          (report_tick cpu process now r).1
  unfolding report_tick
  report_tick-IsReported c log r none process now h = unfold log_report in h
  report_tick-IsReported c log r (some times) process now h =
      after_update-IsKept c log r (update_from_times r.monitor times now).0
        (update_from_times r.monitor times now).1 process now h
        (update_from_times-IsEdge r.monitor times now)

  -- After any run of the health thread that starts from a free board with nothing reported: the last report tells the
  -- state of the board, so that each switch has been reported at once (and before the first report the board is free), and a
  -- periodic report never comes sooner than `report_s` after the report before it, unless that one was made at time 0.
  pub run-IsReported :
      (c : CpuMonitorConfig) (samples : List Sample) (log : Log) (r : Reporter F)
      → IsReported c log r
      → IsReported c (run samples log r).0 (run samples log r).1
  unfolding run cpu_report_tick
  run-IsReported c [] log r h = h
  run-IsReported c (s ∷ samples) log r h =
      run-IsReported c samples _ _ (report_tick-IsReported c log r s.cpu s.process s.now_ms h)
