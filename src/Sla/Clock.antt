-- ===== src/Sla/Clock.antt =====
-- What the decision clock of backend/app/sla.py promises.
use the_vc_brain.Prelude.{
  ℕ, ◌+◌, ◌*◌, ◌≤◌, ◌<◌, ◌≡◌, ◌⊎◌, ◌↔◌, true, false, Option, none, some, String, arith, ℤ,
  if◌then◌else◌, leb,
}
use the_vc_brain.Time.{DateTime, aware, as_utc, second, seconds_from, seconds_from-le}
use the_vc_brain.Models.{Attainment, pending, met, breached, Opportunity}
use the_vc_brain.Sla.{
  initialize_sla, paused, status_met, status_breached, at_risk, on_track, warning, breach, SlaInput,
  truthy,
}
use the_vc_brain.Sla.Evaluate.{evaluate_sla, finalize_sla, classify, alerts, input_of}

-- A second start changes nothing: whatever time it is given, the deal keeps the clock that the first
-- one gave it.
initialize_sla-once :
    (o : Opportunity) (first second_start : Option DateTime) (now later : ℕ)
    → initialize_sla (initialize_sla o first now) second_start later ≡ initialize_sla o first now
unfolding initialize_sla
initialize_sla-once o first second_start now later = ground arith

-- A deal whose clock runs, with no pause and no attainment yet, at `now`.
abbrev pub Running : SlaInput → DateTime → DateTime → Type 0
Running input start due =
    (input.received_at ≡ some start)
    × (input.decision_due_at ≡ some due)
    × (truthy input.sla_pause_reason ≡ false)
    × ((input.sla_attainment ≡ none) ⊎ (input.sla_attainment ≡ some pending))

status_of_Running :
    (input : SlaInput) (start due now : DateTime)
    → Running input start due
    → (evaluate_sla input now).status
      ≡ (classify none none (seconds_from (as_utc now) (as_utc due))).0
unfolding evaluate_sla classify
status_of_Running input start due now h = ground arith

classify_window :
    (remaining : ℕ × ℕ)
    → let (now, due) = remaining in
      let status = (classify none none (seconds_from now due)).0 in
      ((status ≡ status_breached) ↔ (due < now + second))
      × ((status ≡ at_risk) ↔ ((now + second ≤ due) × (due < now + 7201 * second)))
      × ((status ≡ on_track) ↔ (now + 7201 * second ≤ due))
unfolding classify
classify_window (now, due) = ground (arith, seconds_from-le now due 0, seconds_from-le now due 7200)

-- While a deal waits for its decision, its status is the time left, counted in whole seconds: it is
-- breached from less than one second before the due moment on, at risk from less than two hours
-- and one second before it, and on track until then.
pub Running-status :
    (input : SlaInput) (start due now : DateTime)
    → Running input start due
    → let status = (evaluate_sla input now).status in
      ((status ≡ status_breached) ↔ (as_utc due < as_utc now + second))
      × ((status ≡ at_risk)
          ↔ ((as_utc now + second ≤ as_utc due) × (as_utc due < as_utc now + 7201 * second)))
      × ((status ≡ on_track) ↔ (as_utc now + 7201 * second ≤ as_utc due))
Running-status input start due now h =
    rw (status_of_Running input start due now h) (classify_window (as_utc now, as_utc due))

classify_alert :
    (pause : Option String) (attainment : Option Attainment) (remaining : ℤ)
    → let (status, level) = classify pause attainment remaining in
      (alerts status ≡ true) ↔ ((level ≡ warning) ⊎ (level ≡ breach))
unfolding classify
classify_alert pause attainment remaining = ground arith

-- The alert flag and the alert level agree: for every input the report raises an alert exactly when
-- its level is a warning or a breach.
evaluate_sla-alert :
    (input : SlaInput) (now : DateTime)
    → let report = evaluate_sla input now in
      (report.alert ≡ true) ↔ ((report.alert_level ≡ warning) ⊎ (report.alert_level ≡ breach))
unfolding evaluate_sla classify
evaluate_sla-alert input now = ground arith

-- A decision on a deal whose clock runs is recorded as met exactly when it falls no later than the
-- due moment, else as breached; the moment is stored, and the report that is returned carries the
-- attainment, with the same verdict as its status unless the clock is paused.
pub finalize_sla_lem :
    (o : Opportunity) (start due : DateTime) (decided : DateTime) (now : ℕ)
    → o.received_at ≡ some start
    → o.decision_due_at ≡ some due
    → let (o', report) = finalize_sla o (some decided) now in
      ((o'.sla_attainment ≡ met) ↔ (as_utc decided ≤ as_utc due))
      × ((o'.sla_attainment ≡ breached) ↔ (as_utc due < as_utc decided))
      × (o'.sla_decided_at ≡ some (aware (as_utc decided)))
      × (report.attainment ≡ o'.sla_attainment)
      × (report.status ≡ (
          if truthy o.sla_pause_reason
          then paused
          else if leb (as_utc decided) (as_utc due)
          then status_met
          else status_breached))
unfolding finalize_sla classify
finalize_sla_lem o start due decided now hr hd = ground arith

-- In the last second before the due moment the live report of an unpaused, undecided deal already
-- says breached, while a decision at that very moment is recorded as met.
pub early_breach :
    (o : Opportunity) (start due now : DateTime) (clock : ℕ)
    → Running (input_of o (some o.sla_attainment)) start due
    → as_utc now ≤ as_utc due
    → as_utc due < as_utc now + second
    → ((evaluate_sla (input_of o (some o.sla_attainment)) now).status ≡ status_breached)
      × ((finalize_sla o (some now) clock).0.sla_attainment ≡ met)
early_breach o start due now clock h early late = (
  (Running-status (input_of o (some o.sla_attainment)) start due now h).0.1 late,
  (finalize_sla_lem o start due now clock h.0 h.1).0.1 early,
)
