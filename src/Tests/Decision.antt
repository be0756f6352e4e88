-- ===== src/Tests/Decision.antt =====
-- A deal at its memo, a founder who may be contacted and a drafted message, for the theorems on the
-- routes of backend/app/api/routes/candidates.py.
use the_vc_brain.Prelude.{
  ℕ, List, ◌≡◌, refl, true, none, some, [], ◌∷◌, String, All, any, all, ◌&&◌, ◌^◌, str_eq,
}
use the_vc_brain.Time.{aware}
use the_vc_brain.Lifecycle.{memo_ready, is_valid_transition}
use the_vc_brain.Models.{Person, Opportunity, Store, inbound_kind, pending}
use the_vc_brain.Pipeline.{InvestmentMemo}
use the_vc_brain.Opportunity.Replay.{IsAudited}
use the_vc_brain.Http.{responded}
use the_vc_brain.Proposal.{
  assessed, collect, market_axis, axes, Assessment, ProposalInput, names, build_decision_proposal,
}
use the_vc_brain.Proposal.Invest.{is_bullish, build_decision_proposal-invest}
use the_vc_brain.Proposal.Ready.{build_decision_proposal-ready}
use the_vc_brain.Decision.{
  invest, draft, Desk, CandidateDecisionRequest, CandidateDecisionResponse, proceed, response,
  decision_event, record_candidate_decision, latest_memo,
}
use the_vc_brain.Decision.Outcomes.{HowEnded, record_candidate_decision-HowEnded}
use the_vc_brain.Decision.Replay.{record_candidate_decision-again}
use the_vc_brain.Decision.Audited.{Keyed, record_candidate_decision-IsAudited}
use the_vc_brain.Outreach.{
  OutreachMessage, drafted, sent, contact_block_reason, transition_provider_state,
}
use the_vc_brain.Outreach.Routes.{
  approved_message, requested_message, action_response, approve_outreach, request_outreach_send,
}
use the_vc_brain.Outreach.Approval.{
  IsConsented, start, onward, approves, requests, Reachable-Consented, drafted_to_sent,
}

abbrev pub ada : Person
ada = record {
  id = 7;
  stable_id = "p7";
  display_name = some "Ada";
  email = some "ada@x";
  handles = none;
  consent_state = "pending";
  privacy_legal_basis = none;
  privacy_notice_version = none;
  privacy_purposes = [];
  privacy_provider_policy_version = none;
  privacy_retention_days = none;
  privacy_residency = none;
  superseded_by_id = none;
  canonical = true;
  merged_at = none;
  created_at = 1;
}

abbrev deal : Opportunity
deal = record {
  id = 3;
  organization_id = none;
  company_name = "Acme";
  source_kind = inbound_kind;
  lifecycle_state = memo_ready;
  thesis_version = none;
  received_at = some (aware 1);
  decision_due_at = some (aware 100);
  stage_deadlines = [];
  sla_owner = none;
  sla_pause_reason = none;
  sla_attainment = pending;
  sla_decided_at = none;
  created_at = 1;
  updated_at = none;
}

abbrev pub store : Store
store = record {
  opportunities = deal ∷ [];
  founders = record { opportunity_id = 3; person_id = 7; role = "founder" } ∷ [];
  organizations = [];
  touches = [];
  outcomes = [];
  events = [];
  next_id = 10;
}

abbrev memo : InvestmentMemo
memo = record {
  id = 5;
  opportunity_id = 3;
  thesis_version = "v1";
  status = "succeeded";
  claim_ids = [];
  assessment_ids = [];
  created_at = 2;
}

abbrev desk : Desk
desk = record { persons = ada ∷ []; store = store; memos = memo ∷ []; proposals = [] }

abbrev strip : String → String
strip text = text

abbrev request : CandidateDecisionRequest
request = record { opportunity_id = 3; action = proceed; reason = "strong team" }

record_candidate_decision-HowEnded_example :
    HowEnded strip 50 desk 7 request "k1" (record_candidate_decision strip 50 desk 7 request "k1")
record_candidate_decision-HowEnded_example =
    record_candidate_decision-HowEnded strip 50 desk 7 request "k1"

abbrev answer : CandidateDecisionResponse
answer = response (decision_event strip 50 desk request "k1" deal memo) proceed "strong team"

abbrev next : Desk
next = (record_candidate_decision strip 50 desk 7 request "k1").1

answered : record_candidate_decision strip 50 desk 7 request "k1" ≡ (responded answer, next)
unfolding record_candidate_decision is_valid_transition latest_memo
answered = refl

record_candidate_decision-again_example :
    record_candidate_decision strip 60 next 7 request "k1" ≡ (responded answer, next)
record_candidate_decision-again_example =
    record_candidate_decision-again strip 50 60 desk 7 request "k1" answer next answered

keyed : Keyed store.opportunities
keyed = (tt, tt)

audited : IsAudited store
audited = ((memo_ready, refl), tt)

record_candidate_decision-IsAudited_example :
    IsAudited (record_candidate_decision strip 50 desk 7 request "k1").1.store
record_candidate_decision-IsAudited_example =
    record_candidate_decision-IsAudited strip 50 desk 7 request "k1" keyed audited

abbrev drafted_mail : OutreachMessage
drafted_mail = record {
  id = 1;
  person_id = 7;
  recipient_email = some "ada@x";
  status = drafted;
  approved_by = none;
  approved_at = none;
  requested_at = none;
  sent_at = none;
  provider_message_id = none;
  failure_reason = none;
}

Reachable-Consented_example :
    All IsConsented
      (request_outreach_send 6
        (approve_outreach strip 5 (ada ∷ []) (drafted_mail ∷ []) 7 1 "vc").1
        7
        1).1
Reachable-Consented_example =
    Reachable-Consented (onward (onward start (approves strip 5 7 1 "vc")) (requests 6 7 1))
      (tt, tt)

free : contact_block_reason (some "ada@x") "pending" ≡ none
unfolding contact_block_reason
free = refl

drafted_to_sent_example :
    (let after_approval = approved_message 5 "vc" drafted_mail in
      let after_request = requested_message 6 after_approval in
      (approve_outreach strip 5 (ada ∷ []) (drafted_mail ∷ []) 7 1 "vc" ≡ (
        responded (
            action_response after_approval
              "Draft approved; sending still requires an explicit request."),
        after_approval ∷ [],
      ))
      × (request_outreach_send 6 (after_approval ∷ []) 7 1 ≡ (
        responded (
            action_response after_request
              "Send requested; status changes to sent only after provider confirmation."),
        after_request ∷ [],
      ))
      × ((sent_message : OutreachMessage) × (transition_provider_state 7 after_request sent none
              none
            ≡ some sent_message)
          × (sent_message.status ≡ sent)
          × (sent_message.approved_at ≡ some 5)
          × (sent_message.requested_at ≡ some 6)
          × (sent_message.sent_at ≡ some 7)))
drafted_to_sent_example =
    drafted_to_sent strip 5 6 7 (ada ∷ []) ada drafted_mail "vc" refl free refl

abbrev assessment : ℕ → String → Assessment
assessment id axis = record {
  id = id;
  axis = axis;
  rating = "bullish";
  confidence = 2 ^ 1074;
  unknowns = [];
}

abbrev input : ProposalInput
input = record {
  assessments = assessment 1 "Founder" ∷ assessment 2 "Market" ∷ assessment 3 "Idea-Market" ∷ [];
  claim_ids = "c1" ∷ [];
  thesis_version = none;
  memo_status = "succeeded";
  memo_model_version = none;
  rubric_versions = [];
  action = none;
  override_reason = none;
  status = draft;
}

abbrev first_or_0 : List ℕ → ℕ
first_or_0 [] = 0
first_or_0 (x ∷ xs) = x

build_decision_proposal-ready_example :
    str_eq (build_decision_proposal strip first_or_0 input).readiness_status "ready" ≡ (
      all (λ axis. any (names strip axis) input.assessments) axes
      && str_eq input.memo_status "succeeded")
build_decision_proposal-ready_example =
    build_decision_proposal-ready strip (λ a b. refl) first_or_0 input

proposed : (build_decision_proposal strip first_or_0 input).action ≡ invest
unfolding build_decision_proposal
proposed = refl

build_decision_proposal-invest_example :
    (a : Assessment) × (assessed market_axis (collect strip input.assessments []) ≡ some a)
    × (is_bullish strip a ≡ true)
build_decision_proposal-invest_example =
    build_decision_proposal-invest strip first_or_0 input refl proposed market_axis
