-- ===== src/Opportunity.antt =====
-- backend/app/opportunity_service.py: finding or creating a deal and moving it along its lifecycle.
-- A session's rows are the store; the clock `now` is an argument.
pub mod Create
pub mod Replay
pub mod Audit
pub mod Registry
use Prim.Native.String.{◌++◌ as join}
use the_vc_brain.Prelude.{
  ℕ, ◌+◌, ◌^◌, Bool, false, Option, none, some, List, [], ◌∷◌, ◌++◌, String, str_eq, ◌==◌, ◌&&◌,
  if◌then◌else◌, any, update_where, ℤ, pos, leb_ℤ, ltb_ℤ, not, is_some,
}
use the_vc_brain.Lifecycle.{Stage, received, is_valid_transition, advance_reason, ◌is◌}
use the_vc_brain.Models.{Opportunity, DecisionEvent, Outcome, Store, Metadata}
use the_vc_brain.Sla.{initialize_sla}

pub data Fault : Type 0 where
  invalid_transition : Stage → Stage → Fault
  unsupported_domain : String → Fault
  negative_horizon bad_confidence malformed_number : Fault

pub data Result (A : Type 0) : Type 0 where
  ok : A → Result A
  raised : Fault → Result A

-- The row of an object that was changed in the session.
abbrev pub save : Opportunity → List Opportunity → List Opportunity
save o = update_where (λ (r : Opportunity). r.id == o.id) (λ (r : Opportunity). o)

-- `DecisionEvent(...)`, with the next unused id
abbrev pub new_event :
    ℕ → Store → Opportunity → Stage → Stage → String → String → Metadata → DecisionEvent
new_event now store o prior new actor reason metadata = record {
  id = store.next_id;
  opportunity_id = o.id;
  prior_state = prior;
  new_state = new;
  actor = actor;
  idempotency_key = none;
  reason = reason;
  sla_metadata = metadata;
  created_at = now;
}

-- `session.add(event)`
abbrev pub add_event : Store → DecisionEvent → Store
add_event store event = record store {
  events = store.events ++ event ∷ [];
  next_id = store.next_id + 1;
}

-- `reason or advance_reason(prior_state, new_state)`
abbrev reason_or : String → Stage → Stage → String
reason_or reason prior new = if str_eq reason "" then advance_reason prior new "" else reason

-- `if new_state == "received": initialize_sla(opportunity)`; a row that changes is stamped.
abbrev pub receive : ℕ → Opportunity → Stage → Opportunity
receive now o new =
    if new is received
    then if is_some o.received_at
      then o
      else record (initialize_sla o none now) { updated_at = some now }
    else o

-- What a call returns when the move is allowed: a move to the same stage answers an event that is
-- not stored.
unfoldable pub transitioned :
    ℕ → Store → Opportunity → Stage → String → String → Store × Opportunity × DecisionEvent
transitioned now store o new actor reason =
    let prior = o.lifecycle_state in
    let started = receive now o new in
    let moved = record started { lifecycle_state = new; updated_at = some now } in
    let event = new_event now store o prior new actor (reason_or reason prior new) [] in
    if prior is new
    then (
      record store { opportunities = save started store.opportunities },
      started,
      record event { reason = join "(no-op) " event.reason },
    )
    else (
      record (add_event store event) { opportunities = save moved store.opportunities },
      moved,
      event,
    )

unfoldable pub transition_opportunity :
    ℕ → Store → Opportunity → Stage → String → String → Result (Store × Opportunity × DecisionEvent)
unfolding transitioned
transition_opportunity now store o new actor reason =
    if is_valid_transition o.lifecycle_state new
    then ok (transitioned now store o new actor reason)
    else raised (invalid_transition o.lifecycle_state new)

-- `record_channel_touch`
unfoldable pub record_channel_touch :
    ℕ → Store → ℕ → String → String → Option String → Option String → Metadata → Store
record_channel_touch now store opportunity_id channel touch_type source_query source_ref metadata =
    record store {
      touches =
          store.touches
          ++ record {
            id = store.next_id;
            opportunity_id = opportunity_id;
            channel = channel;
            touch_type = touch_type;
            source_query = source_query;
            source_ref = source_ref;
            occurred_at = now;
            touch_metadata = metadata;
          }
            ∷ [];
      next_id = store.next_id + 1;
    }

-- OUTCOME_DOMAINS
abbrev pub outcome_domains : List String
outcome_domains = "sourcing" ∷ "process" ∷ "decision" ∷ "longitudinal" ∷ []

abbrev negative : Option ℤ → Bool
negative none = false
negative (some days) = ltb_ℤ days (pos 0)

-- 1.0
abbrev pub one : ℤ
one = pos (2 ^ 1074)

-- The row that is appended carries the arguments; its id is given here.
unfoldable pub record_opportunity_outcome : Store → Outcome → Result Store
record_opportunity_outcome store outcome =
    if not (any (λ (d : String). str_eq d outcome.outcome_domain) outcome_domains)
    then raised (unsupported_domain outcome.outcome_domain)
    else if negative outcome.horizon_days
    then raised negative_horizon
    else if not (leb_ℤ (pos 0) outcome.confidence && leb_ℤ outcome.confidence one)
    then raised bad_confidence
    else ok (record store {
      outcomes = store.outcomes ++ record outcome { id = store.next_id } ∷ [];
      next_id = store.next_id + 1;
    })
