-- ===== src/Decision.antt =====
-- backend/app/api/routes/candidates.py: a human's decision on a deal. The session's tables are the
-- record `Desk`, the clock `now` and Python's `str.strip` are arguments. The row lock of the query
-- on the deal has no counterpart, since a run here is one request; a UUID in a JSON value is a number,
-- and an instant in one is its microseconds.
pub mod Replay
pub mod Recorded
pub mod Audited
pub mod Outcomes
use Prim.Native.String.{count, ◌++◌ as join}
use the_vc_brain.Prelude.{
  ℕ, ◌+◌, Bool, true, false, Option, none, some, List, [], ◌∷◌, ◌++◌, String, str_eq, ◌==◌, ◌&&◌,
  ◌||◌, not, if◌then◌else◌, find, any, keep, update_where, leb, ltb,
}
use the_vc_brain.Time.{aware}
use the_vc_brain.Lifecycle.{Stage, approved, hold, closed, key, is_valid_transition, ◌is◌}
use the_vc_brain.Models.{
  Person, Opportunity, DecisionEvent, Founder, Store, Metadata, Value, null, text, number, texts,
  Attainment, pending, met, breached,
}
use the_vc_brain.Sla.{
  SlaStatus, not_started, paused, status_met, status_breached, at_risk, on_track, SlaReport,
}
use the_vc_brain.Sla.Evaluate.{finalize_sla}
use the_vc_brain.Pipeline.{InvestmentMemo}
use the_vc_brain.Opportunity.{save, add_event}
use the_vc_brain.Identity.{person}
use the_vc_brain.Http.{Reply, responded, refused}

pub data ProposalAction : Type 0 where
  invest hold_proposed investigate decline_proposed : ProposalAction

pub data ProposalStatus : Type 0 where
  draft approved_proposal overridden : ProposalStatus

-- The columns of a proposal that the decision reads and writes.
pub record DecisionProposal : Type 0 where
  pub id : ℕ
  pub opportunity_id : ℕ
  pub action : ProposalAction
  pub override_reason : Option String
  pub status : ProposalStatus
  pub created_at : ℕ

pub record Desk : Type 0 where
  pub persons : List Person
  pub store : Store
  pub memos : List InvestmentMemo
  pub proposals : List DecisionProposal

-- DecisionAction
pub data DecisionAction : Type 0 where
  proceed hold_deal decline : DecisionAction

abbrev pub action_text : DecisionAction → String
action_text proceed = "proceed"
action_text hold_deal = "hold"
action_text decline = "decline"

-- The length bounds of the model are pydantic's and are not repeated here.
pub record CandidateDecisionRequest : Type 0 where
  pub opportunity_id : ℕ
  pub action : DecisionAction
  pub reason : String

pub record CandidateDecisionResponse : Type 0 where
  pub event_id : ℕ
  pub prior_state : Stage
  pub new_state : Stage
  pub action : DecisionAction
  pub reason : String
  pub created_at : ℕ

abbrev pub decision_state_for_action : DecisionAction → Stage
decision_state_for_action proceed = approved
decision_state_for_action hold_deal = hold
decision_state_for_action decline = closed

abbrev pub proposed_action : DecisionAction → ProposalAction
proposed_action proceed = invest
proposed_action hold_deal = hold_proposed
proposed_action decline = decline_proposed

abbrev pub proposal_text : ProposalAction → String
proposal_text invest = "invest"
proposal_text hold_proposed = "hold"
proposal_text investigate = "investigate"
proposal_text decline_proposed = "decline"

abbrev attainment_text : Attainment → String
attainment_text pending = "pending"
attainment_text met = "met"
attainment_text breached = "breached"

abbrev status_text : SlaStatus → String
status_text not_started = "not_started"
status_text paused = "paused"
status_text status_met = "met"
status_text status_breached = "breached"
status_text at_risk = "at_risk"
status_text on_track = "on_track"

-- the deal of the request, if the candidate is a founder of it
abbrev pub linked : Store → ℕ → ℕ → Option Opportunity
linked store opportunity_id person_id =
    if any (λ (f : Founder). f.opportunity_id == opportunity_id && f.person_id == person_id)
      store.founders
    then find (λ (o : Opportunity). o.id == opportunity_id) store.opportunities
    else none

abbrev pub has_key : String → Option String → Bool
has_key wanted none = false
has_key wanted (some other) = str_eq other wanted

-- the event of the key, which is a unique column
abbrev pub event_of : String → List DecisionEvent → Option DecisionEvent
event_of wanted = find (λ (e : DecisionEvent). has_key wanted e.idempotency_key)

-- `sla_metadata.get("action") == action`
abbrev pub is_action : DecisionAction → Option Value → Bool
is_action action (some (text t)) = str_eq t (action_text action)
is_action action _ = false

abbrev pub entry : String → Metadata → Option Value
entry name [] = none
entry name ((field, value) ∷ rest) = if str_eq field name then some value else entry name rest

-- `ORDER BY created_at DESC LIMIT 1`; of rows of one moment the first is taken
abbrev pub later_memo : InvestmentMemo → Option InvestmentMemo → InvestmentMemo
later_memo m none = m
later_memo m (some n) = if leb n.created_at m.created_at then m else n

abbrev pub newest_memo : List InvestmentMemo → Option InvestmentMemo
newest_memo [] = none
newest_memo (m ∷ rest) = some (later_memo m (newest_memo rest))

abbrev pub is_validated : ℕ → InvestmentMemo → Bool
is_validated opportunity_id m = m.opportunity_id == opportunity_id && str_eq m.status "succeeded"

unfoldable pub latest_memo : List InvestmentMemo → ℕ → Option InvestmentMemo
latest_memo memos opportunity_id = newest_memo (keep (is_validated opportunity_id) memos)

abbrev later_proposal : DecisionProposal → Option DecisionProposal → DecisionProposal
later_proposal p none = p
later_proposal p (some q) = if leb q.created_at p.created_at then p else q

abbrev newest_proposal : List DecisionProposal → Option DecisionProposal
newest_proposal [] = none
newest_proposal (p ∷ rest) = some (later_proposal p (newest_proposal rest))

unfoldable pub latest_proposal : List DecisionProposal → ℕ → Option DecisionProposal
latest_proposal proposals opportunity_id =
    newest_proposal (keep (λ (p : DecisionProposal). p.opportunity_id == opportunity_id) proposals)

abbrev pub proposal_id : Option DecisionProposal → Value
proposal_id none = null
proposal_id (some p) = number p.id

-- the assignments to the proposal
abbrev pub settled_proposal : DecisionAction → String → DecisionProposal → DecisionProposal
settled_proposal action reason p =
    let same = str_eq (proposal_text (proposed_action action)) (proposal_text p.action) in
    record p {
      override_reason = if same then none else some reason;
      action = proposed_action action;
      status = if same || str_eq reason "" then approved_proposal else overridden;
    }

abbrev pub settle :
    DecisionAction
    → String
    → Option DecisionProposal
    → List DecisionProposal
    → List DecisionProposal
settle action reason none proposals = proposals
settle action reason (some p) proposals =
    update_where (λ (q : DecisionProposal). q.id == p.id) (settled_proposal action reason) proposals

abbrev pub decision_metadata :
    ℕ → DecisionAction → InvestmentMemo → SlaReport → Option DecisionProposal → Metadata
decision_metadata now action memo sla proposal =
    ("action", text (action_text action))
    ∷ ("source", text "decision-floating-dock")
    ∷ ("memo_id", number memo.id)
    ∷ ("claim_ids", texts memo.claim_ids)
    ∷ ("assessment_ids", texts memo.assessment_ids)
    ∷ ("thesis_version", text memo.thesis_version)
    ∷ ("sla_attainment", text (attainment_text sla.attainment))
    ∷ ("sla_status", text (status_text sla.status))
    ∷ ("decision_at", number now)
    ∷ ("proposal_id", proposal_id proposal)
    ∷ []

abbrev pub response : DecisionEvent → DecisionAction → String → CandidateDecisionResponse
response e action reason = record {
  event_id = e.id;
  prior_state = e.prior_state;
  new_state = e.new_state;
  action = action;
  reason = reason;
  created_at = e.created_at;
}

abbrev pub Answer : Type 0
Answer = Reply CandidateDecisionResponse × Desk

module _ (strip : String → String) (now : ℕ) (desk : Desk) (payload : CandidateDecisionRequest)
    (idempotency_key : String) where
  -- the event that is stored
  abbrev pub decision_event : Opportunity → InvestmentMemo → DecisionEvent
  decision_event o memo = record {
    id = desk.store.next_id;
    opportunity_id = o.id;
    prior_state = o.lifecycle_state;
    new_state = decision_state_for_action payload.action;
    actor = "vc-ui:unattributed";
    idempotency_key = some idempotency_key;
    reason = strip payload.reason;
    sla_metadata =
        decision_metadata now payload.action memo (finalize_sla o (some (aware now)) now).1
          (latest_proposal desk.proposals o.id);
    created_at = now;
  }

  -- the deal with its final attainment, at its new state
  abbrev pub decided_deal : Opportunity → Opportunity
  decided_deal o = record (finalize_sla o (some (aware now)) now).0 {
    lifecycle_state = decision_state_for_action payload.action;
    updated_at = some now;
  }

  unfoldable pub decided : Opportunity → InvestmentMemo → Answer
  decided o memo =
      let event = decision_event o memo in
      (
        responded (response event payload.action (strip payload.reason)),
        record desk {
          store = record (add_event desk.store event) {
            opportunities = save (decided_deal o) desk.store.opportunities;
          };
          proposals =
              settle payload.action (strip payload.reason) (latest_proposal desk.proposals o.id)
                desk.proposals;
        },
      )

  unfoldable pub with_memo : Opportunity → Option InvestmentMemo → Answer
  unfolding decided
  with_memo o none = (refused 409 "A validated memo is required before deciding", desk)
  with_memo o (some memo) = decided o memo

  -- the event of the key is of another deal, action or reason
  abbrev pub conflicts : Opportunity → DecisionEvent → Bool
  conflicts o e =
      not (e.opportunity_id == o.id)
      || not (is_action payload.action (entry "action" e.sla_metadata))
      || not (str_eq e.reason (strip payload.reason))

  unfoldable pub with_existing : Opportunity → Option DecisionEvent → Answer
  unfolding with_memo
  with_existing o (some e) =
      if conflicts o e
      then (refused 409 "Idempotency-Key was already used for another decision", desk)
      else (responded (response e payload.action (strip payload.reason)), desk)
  with_existing o none =
      let new_state = decision_state_for_action payload.action in
      if not (is_valid_transition o.lifecycle_state new_state) || o.lifecycle_state is new_state
      then (
        refused 409 (
            join "Decision is not allowed from lifecycle state '"
              (join (key o.lifecycle_state) "'")),
        desk,
      )
      else with_memo o (latest_memo desk.memos o.id)

  unfoldable pub with_opportunity : Option Opportunity → Answer
  unfolding with_existing
  with_opportunity none = (refused 409 "Candidate is not linked to this opportunity", desk)
  with_opportunity (some o) =
      if ltb (count (strip payload.reason)) 3
      then (refused 422 "Decision reason must be at least 3 characters", desk)
      else with_existing o (event_of idempotency_key desk.store.events)

  unfoldable pub with_person : Option Person → Answer
  unfolding with_opportunity
  with_person none = (refused 404 "Candidate not found", desk)
  with_person (some p) =
      if not p.canonical
      then (refused 404 "Candidate not found", desk)
      else with_opportunity (linked desk.store payload.opportunity_id p.id)

unfoldable pub record_candidate_decision :
    (String → String) → ℕ → Desk → ℕ → CandidateDecisionRequest → String → Answer
unfolding with_person
record_candidate_decision strip now desk candidate_id payload header =
    let idempotency_key = strip header in
    if not (leb 1 (count idempotency_key) && leb (count idempotency_key) 128)
    then (refused 422 "Idempotency-Key must be 1-128 characters", desk)
    else with_person strip now desk payload idempotency_key (person desk.persons candidate_id)
