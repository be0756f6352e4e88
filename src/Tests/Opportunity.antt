-- ===== src/Tests/Opportunity.antt =====
-- A store on which the theorems about backend/app/opportunity_service.py are applied.
use the_vc_brain.Prelude.{leb, ◌≡◌, refl, none, some, arith, [], ◌∷◌, true, false, ◌⊎◌}
use the_vc_brain.Lifecycle.{discovered, received, triage, is_valid_transition}
use the_vc_brain.Models.{
  Opportunity, DecisionEvent, inbound_kind, outbound_kind, Person, pending, Store,
}
use the_vc_brain.Opportunity.{transitioned, transition_opportunity, ok, raised, invalid_transition}
use the_vc_brain.Opportunity.Create.{Request, get_or_create_opportunity}
use the_vc_brain.Opportunity.Registry.{get_or_create_opportunity-once}
use the_vc_brain.Opportunity.Replay.{IsAudited, IsCurrent}
use the_vc_brain.Opportunity.Audit.{
  IsTransitioned, transition_opportunity_lem, transition_opportunity-IsAudited,
}

abbrev pub deal : Opportunity
deal = record {
  id = 1;
  organization_id = none;
  company_name = "Acme";
  source_kind = inbound_kind;
  lifecycle_state = received;
  thesis_version = none;
  received_at = none;
  decision_due_at = none;
  stage_deadlines = [];
  sla_owner = none;
  sla_pause_reason = none;
  sla_attainment = pending;
  sla_decided_at = none;
  created_at = 0;
  updated_at = none;
}

abbrev pub store : Store
store = record {
  opportunities = deal ∷ [];
  founders = [];
  organizations = [];
  touches = [];
  outcomes = [];
  events = [];
  next_id = 2;
}

transition_opportunity_lem_example :
    ((is_valid_transition received triage ≡ false)
      × (transition_opportunity 5 store deal triage "pipeline" ""
          ≡ raised (invalid_transition received triage)))
    ⊎ ((is_valid_transition received triage ≡ true)
        × ((result : Store × Opportunity × DecisionEvent) × (transition_opportunity 5 store deal
                triage "pipeline" ""
              ≡ ok result)
            × IsTransitioned 5 store deal triage result))
transition_opportunity_lem_example = transition_opportunity_lem 5 store deal triage "pipeline" ""

moved :
    transition_opportunity 5 store deal triage "pipeline" ""
    ≡ ok (transitioned 5 store deal triage "pipeline" "")
unfolding transition_opportunity is_valid_transition
moved = refl

audited : IsAudited store
audited = ((received, refl), tt)

current : IsCurrent store deal
current = ((λ e. refl), tt)

transition_opportunity-IsAudited_example :
    IsAudited (transitioned 5 store deal triage "pipeline" "").0
transition_opportunity-IsAudited_example =
    transition_opportunity-IsAudited 5 store deal triage "pipeline" "" audited current moved

abbrev person : Person
person = record {
  id = 7;
  stable_id = "p7";
  display_name = none;
  email = none;
  handles = none;
  consent_state = "pending";
  privacy_legal_basis = none;
  privacy_notice_version = none;
  privacy_purposes = [];
  privacy_provider_policy_version = none;
  privacy_retention_days = none;
  privacy_residency = none;
  superseded_by_id = none;
  canonical = true;
  merged_at = none;
  created_at = 1;
}

abbrev request : Request
request = record {
  source_kind = outbound_kind;
  lifecycle_state = discovered;
  company_name = some "Acme";
  channel = some "tavily_search";
  touch_type = "discovery";
  source_query = none;
  source_ref = none;
}

get_or_create_opportunity-once_example :
    let (o, s) =
      get_or_create_opportunity (λ name. name) (λ name. name) leb 5 store person request in
    let (o', s') = get_or_create_opportunity (λ name. name) (λ name. name) leb 6 s person request in
    (o' ≡ o) × (s'.opportunities ≡ s.opportunities) × (s'.founders ≡ s.founders)
get_or_create_opportunity-once_example =
    get_or_create_opportunity-once (λ name. name) (λ name. name) leb 5 6 store person request
      request (omega arith, tt)
