-- ===== src/Sla.antt =====
-- backend/app/sla.py: the 24-hour decision clock. Instants are microseconds; the clock `now` is an
-- argument. The text that `isoformat` writes is its calendar fields, Time/Iso.antt.

pub mod Evaluate
pub mod Clock
use the_vc_brain.Prelude.{
  ℕ, ◌+◌, ◌*◌, Bool, true, false, Option, none, some, List, [], ◌∷◌, String, str_eq, find,
  if◌then◌else◌, ℤ, pos, negsuc, leb, leb_ℤ, ltb_ℤ, is_some, ◌||◌,
}
use the_vc_brain.Time.{DateTime, naive, aware, as_utc, second, minutes, hours, seconds_from}
use the_vc_brain.Time.Iso.{isoformat, fromisoformat}
use the_vc_brain.Lifecycle.{
  Stage, discovered, interesting, investigating, contacted, received, triage, screening, diligence,
  memo_ready, hold, approved, closed,
}
use the_vc_brain.Models.{
  Deadline, moment, timestamp, iso_text, malformed_text, other, Attainment, pending, met, breached,
  Opportunity,
}

-- SLA_STAGE_BUDGETS, in the dictionary's order
abbrev pub stage_budgets : List (String × ℕ)
stage_budgets =
    ("triage", minutes 30)
    ∷ ("screening", hours 3)
    ∷ ("diligence", hours 14)
    ∷ ("memo", hours 4)
    ∷ ("human_decision", hours 2 + minutes 30)
    ∷ []

abbrev pub sum_budgets : List (String × ℕ) → ℕ
sum_budgets [] = 0
sum_budgets ((stage, budget) ∷ rest) = budget + sum_budgets rest

abbrev pub total_budget : ℕ
total_budget = sum_budgets stage_budgets

abbrev pub at_risk_window : ℕ
at_risk_window = 7200

-- the loop of `build_stage_deadlines` over the cursor
unfoldable pub deadlines_from : ℕ → List (String × ℕ) → List (String × Deadline)
deadlines_from cursor [] = []
deadlines_from cursor ((stage, budget) ∷ rest) =
    (stage, iso_text (isoformat (cursor + budget))) ∷ deadlines_from (cursor + budget) rest

unfoldable pub build_stage_deadlines : DateTime → List (String × Deadline)
unfolding deadlines_from
build_stage_deadlines received_at = deadlines_from (as_utc received_at) stage_budgets

abbrev pub or_now : Option DateTime → ℕ → DateTime
or_now none now = aware now
or_now (some t) now = t

unfoldable pub initialize_sla : Opportunity → Option DateTime → ℕ → Opportunity
unfolding build_stage_deadlines
initialize_sla opportunity received_at now =
    let started = as_utc (or_now received_at now) in
    if is_some opportunity.received_at then opportunity else record opportunity {
      received_at = some (aware started);
      decision_due_at = some (aware (started + total_budget));
      stage_deadlines = build_stage_deadlines (aware started);
      sla_attainment = pending;
    }

-- microseconds from the first day of year 1 to 1970
abbrev unix_epoch : ℕ
unix_epoch = 62135596800 * second

abbrev as_utc_if : Option DateTime → Option ℕ
as_utc_if none = none
as_utc_if (some t) = some (as_utc t)

unfoldable pub parse_deadline : Deadline → Option ℕ
parse_deadline (moment t) = some (as_utc t)
parse_deadline (timestamp t) = some (unix_epoch + t)
parse_deadline (iso_text t) = as_utc_if (fromisoformat t)
parse_deadline malformed_text = none
parse_deadline other = none

-- The SLA stage of a lifecycle state; none maps to "memo".
unfoldable pub current_stage : Option Stage → Option String
current_stage none = none
current_stage (some received) = some "triage"
current_stage (some triage) = some "triage"
current_stage (some screening) = some "screening"
current_stage (some diligence) = some "diligence"
current_stage (some memo_ready) = some "human_decision"
current_stage (some hold) = some "human_decision"
current_stage (some approved) = some "human_decision"
current_stage (some closed) = some "human_decision"
current_stage (some discovered) = none
current_stage (some interesting) = none
current_stage (some investigating) = none
current_stage (some contacted) = none

-- the comprehension over the stored deadlines, which drops what cannot be parsed
unfoldable pub parse_deadlines : List (String × Deadline) → List (String × ℕ)
unfolding parse_deadline
parse_deadlines [] = []
parse_deadlines ((name, raw) ∷ rest) =
    let parsed = parse_deadlines rest in
    elim (parse_deadline raw) [ none ↦ parsed | some t ↦ (name, t) ∷ parsed ]

unfoldable pub deadline_of : String → List (String × ℕ) → Option ℕ
deadline_of stage [] = none
deadline_of stage ((name, t) ∷ rest) = if str_eq name stage then some t else deadline_of stage rest

pub data SlaStatus : Type 0 where
  not_started paused status_met status_breached at_risk on_track : SlaStatus

pub data AlertLevel : Type 0 where
  no_alert paused_alert warning breach : AlertLevel

-- The keyword arguments of `evaluate_sla`, but for `now`.
pub record SlaInput : Type 0 where
  pub lifecycle_state : Option Stage
  pub received_at : Option DateTime
  pub decision_due_at : Option DateTime
  pub stage_deadlines : Option (List (String × Deadline))
  pub sla_owner : Option String
  pub sla_pause_reason : Option String
  pub sla_attainment : Option Attainment

-- The dictionary that `evaluate_sla` returns.
pub record SlaReport : Type 0 where
  pub received_at : Option ℕ
  pub decision_due_at : Option ℕ
  pub stage_deadlines : List (String × ℕ)
  pub owner : Option String
  pub pause_reason : Option String
  pub stage : Option String
  pub status : SlaStatus
  pub attainment : Attainment
  pub remaining_seconds : Option ℤ
  pub stage_remaining_seconds : Option ℤ
  pub elapsed_seconds : Option ℕ
  pub alert : Bool
  pub alert_level : AlertLevel

abbrev pub or_pending : Option Attainment → Attainment
or_pending none = pending
or_pending (some a) = a

-- a non-empty text
abbrev pub truthy : Option String → Bool
truthy none = false
truthy (some s) = if str_eq s "" then false else true
