-- ===== src/Sla/Evaluate.antt =====
-- `evaluate_sla` and `finalize_sla` of backend/app/sla.py.
use the_vc_brain.Prelude.{
  ℕ, Bool, true, false, Option, none, some, List, [], String, if◌then◌else◌, ℤ, pos, leb, leb_ℤ,
  pos_part, is_some,
}
use the_vc_brain.Time.{DateTime, aware, as_utc, seconds_from}
use the_vc_brain.Models.{Attainment, pending, met, breached, Opportunity, Deadline}
use the_vc_brain.Sla.{
  at_risk_window, current_stage, parse_deadlines, deadline_of, SlaStatus, not_started, paused,
  status_met, status_breached, at_risk, on_track, AlertLevel, no_alert, paused_alert, warning,
  breach, SlaInput, SlaReport, or_pending, truthy, or_now,
}

-- the report of a clock that was never started
unfoldable pub unstarted : SlaInput → SlaReport
unstarted input = record {
  received_at = none;
  decision_due_at = none;
  stage_deadlines = [];
  owner = input.sla_owner;
  pause_reason = input.sla_pause_reason;
  stage = none;
  status = not_started;
  attainment = or_pending input.sla_attainment;
  remaining_seconds = none;
  stage_remaining_seconds = none;
  elapsed_seconds = none;
  alert = false;
  alert_level = no_alert;
}

-- the last two branches of the chain
abbrev by_window : ℤ → SlaStatus × AlertLevel
by_window remaining =
    if leb_ℤ remaining (pos 0)
    then (status_breached, breach)
    else if leb_ℤ remaining (pos at_risk_window)
    then (at_risk, warning)
    else (on_track, no_alert)

-- `sla_attainment in {"met", "breached"}`, else by the time left
abbrev by_attainment : Option Attainment → ℤ → SlaStatus × AlertLevel
by_attainment none remaining = by_window remaining
by_attainment (some pending) remaining = by_window remaining
by_attainment (some met) remaining = (status_met, no_alert)
by_attainment (some breached) remaining = (status_breached, breach)

-- the chain of `if`s on the pause reason, the attainment and the seconds left
unfoldable pub classify : Option String → Option Attainment → ℤ → SlaStatus × AlertLevel
classify pause_reason attainment remaining =
    if truthy pause_reason then (paused, paused_alert) else by_attainment attainment remaining

-- `status in {"at_risk", "breached"}`
abbrev pub alerts : SlaStatus → Bool
alerts at_risk = true
alerts status_breached = true
alerts _ = false

abbrev stage_due_of : Option String → List (String × ℕ) → Option ℕ
stage_due_of none deadlines = none
stage_due_of (some stage) deadlines = deadline_of stage deadlines

abbrev seconds_to : ℕ → Option ℕ → Option ℤ
seconds_to current none = none
seconds_to current (some due) = some (seconds_from current due)

-- the report of a clock that was started at `received` and is due at `due`
unfoldable pub started_report : SlaInput → ℕ → ℕ → ℕ → List (String × ℕ) → SlaReport
unfolding classify
started_report input received due current deadlines =
    let stage = current_stage input.lifecycle_state in
    let remaining = seconds_from current due in
    let verdict = classify input.sla_pause_reason input.sla_attainment remaining in
    record {
      received_at = some received;
      decision_due_at = some due;
      stage_deadlines = deadlines;
      owner = input.sla_owner;
      pause_reason = input.sla_pause_reason;
      stage = stage;
      status = verdict.0;
      attainment = or_pending input.sla_attainment;
      remaining_seconds = some remaining;
      stage_remaining_seconds = seconds_to current (stage_due_of stage deadlines);
      elapsed_seconds = some (pos_part (seconds_from received current));
      alert = alerts verdict.0;
      alert_level = verdict.1;
    }

abbrev or_no_deadlines : Option (List (String × Deadline)) → List (String × Deadline)
or_no_deadlines none = []
or_no_deadlines (some d) = d

-- `now` is the argument, or the wall clock where the caller gives none.
abbrev evaluate_at : SlaInput → Option DateTime → Option DateTime → DateTime → SlaReport
evaluate_at input none due now = unstarted input
evaluate_at input (some received) none now = unstarted input
evaluate_at input (some received) (some due) now =
    started_report input (as_utc received) (as_utc due) (as_utc now)
      (parse_deadlines (or_no_deadlines input.stage_deadlines))

unfoldable pub evaluate_sla : SlaInput → DateTime → SlaReport
unfolding unstarted started_report parse_deadlines current_stage deadline_of
evaluate_sla input now = evaluate_at input input.received_at input.decision_due_at now

-- `due is not None and decided <= _as_utc(due)`
abbrev attained : Option DateTime → ℕ → Attainment
attained none decided = breached
attained (some due) decided = if leb decided (as_utc due) then met else breached

abbrev pub input_of : Opportunity → Option Attainment → SlaInput
input_of opportunity attainment = record {
  lifecycle_state = some opportunity.lifecycle_state;
  received_at = opportunity.received_at;
  decision_due_at = opportunity.decision_due_at;
  stage_deadlines = some opportunity.stage_deadlines;
  sla_owner = opportunity.sla_owner;
  sla_pause_reason = opportunity.sla_pause_reason;
  sla_attainment = attainment;
}

-- the call with no timestamps, where the clock was never started
abbrev input_unstarted : Opportunity → SlaInput
input_unstarted opportunity = record (input_of opportunity (some opportunity.sla_attainment)) {
  received_at = none;
  decision_due_at = none;
  stage_deadlines = none;
}

unfoldable pub finalize_sla : Opportunity → Option DateTime → ℕ → Opportunity × SlaReport
unfolding evaluate_sla
finalize_sla opportunity decided_at now =
    let decided = as_utc (or_now decided_at now) in
    let attainment = attained opportunity.decision_due_at decided in
    if is_some opportunity.received_at
    then (
      record opportunity { sla_attainment = attainment; sla_decided_at = some (aware decided) },
      evaluate_sla (input_of opportunity (some attainment)) (aware decided),
    )
    else (opportunity, evaluate_sla (input_unstarted opportunity) (or_now decided_at now))
