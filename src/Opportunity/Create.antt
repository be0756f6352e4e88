-- ===== src/Opportunity/Create.antt =====
-- The part of backend/app/opportunity_service.py that finds and creates deals. The key of a company
-- name, `organization_stable_id` (case folding and MD5), and the trimming of a name are parameters:
-- the code only compares the one and stores the other.
use the_vc_brain.Prelude.{
  ℕ, ◌+◌, Bool, true, false, Option, none, some, List, [], ◌∷◌, ◌++◌, String, str_eq, ◌==◌, ◌&&◌,
  if◌then◌else◌, find, any, keep, ltb,
}
use the_vc_brain.Lifecycle.{Stage, received}
use the_vc_brain.Models.{
  Opportunity, Founder, Organization, Person, Store, SourceKind, outbound_kind, inbound_kind,
  pending,
}
use the_vc_brain.Sla.{initialize_sla}
use the_vc_brain.Opportunity.{save, record_channel_touch}

-- the links of a person to the deal
abbrev pub is_founder : ℕ → ℕ → List Founder → Bool
is_founder person_id opportunity_id =
    any (λ (f : Founder). f.person_id == person_id && f.opportunity_id == opportunity_id)

-- `ORDER BY created_at DESC LIMIT 1`. Which of two rows that are equally new the database takes is
-- not specified: `prefers` says so for their ids, in any way.
module _ (prefers : ℕ → ℕ → Bool) where
  abbrev pub comes_first : Opportunity → Opportunity → Bool
  comes_first o p =
      if o.created_at == p.created_at then prefers o.id p.id else ltb p.created_at o.created_at

  abbrev pub newer : Opportunity → Option Opportunity → Opportunity
  newer o none = o
  newer o (some p) = if comes_first o p then o else p

  unfoldable pub newest : List Opportunity → Option Opportunity
  newest [] = none
  newest (o ∷ rest) = some (newer o (newest rest))

  unfoldable pub latest_opportunity : Store → ℕ → Option Opportunity
  unfolding newest
  latest_opportunity store person_id =
      newest
        (keep (λ (o : Opportunity). is_founder person_id o.id store.founders) store.opportunities)

-- `company_name or person.display_name or person.stable_id`
abbrev pub or_name : Option String → String → String
or_name none default = default
or_name (some name) default = if str_eq name "" then default else name

abbrev pub resolved_name : Option String → Person → String
resolved_name company_name person =
    or_name company_name (or_name person.display_name person.stable_id)

-- `if channel is not None: record_channel_touch(...)`
abbrev pub touch_if : ℕ → Store → ℕ → Option String → String → Option String → Option String → Store
touch_if now store opportunity_id none touch_type source_query source_ref = store
touch_if now store opportunity_id (some channel) touch_type source_query source_ref =
    record_channel_touch now store opportunity_id channel touch_type source_query source_ref []

-- The keyword arguments of `get_or_create_opportunity`.
pub record Request : Type 0 where
  pub source_kind : SourceKind
  pub lifecycle_state : Stage
  pub company_name : Option String
  pub channel : Option String
  pub touch_type : String
  pub source_query : Option String
  pub source_ref : Option String

module _ (organization_stable_id : String → String) (strip : String → String)
    (prefers : ℕ → ℕ → Bool) where
  abbrev pub existing_or_new : String → Store → Option Organization → Organization × Store
  existing_or_new name store (some organization) = (organization, store)
  existing_or_new name store none =
      let organization : Organization = record {
        id = store.next_id;
        stable_id = organization_stable_id name;
        name = strip name;
        org_type = "company";
      } in
      (
        organization,
        record store {
          organizations = store.organizations ++ organization ∷ [];
          next_id = store.next_id + 1;
        },
      )

  unfoldable pub get_or_create_organization : Store → String → Organization × Store
  get_or_create_organization store name = existing_or_new name store (
      find (λ (g : Organization). str_eq g.stable_id (organization_stable_id name))
        store.organizations)

  -- a new row and the link of its founder
  unfoldable pub add_opportunity :
      ℕ → Store → Person → String → SourceKind → Stage → Option String → Opportunity × Store
  unfolding get_or_create_organization
  add_opportunity now store person name kind state thesis_version =
      let (organization, store') = get_or_create_organization store name in
      let o : Opportunity = record {
        id = store'.next_id;
        organization_id = some organization.id;
        company_name = name;
        source_kind = kind;
        lifecycle_state = state;
        thesis_version = thesis_version;
        received_at = none;
        decision_due_at = none;
        stage_deadlines = [];
        sla_owner = none;
        sla_pause_reason = none;
        sla_attainment = pending;
        sla_decided_at = none;
        created_at = now;
        updated_at = some now;
      } in
      (
        o,
        record store' {
          opportunities = store'.opportunities ++ o ∷ [];
          founders =
              store'.founders
              ++ record { opportunity_id = o.id; person_id = person.id; role = "founder" } ∷ [];
          next_id = store'.next_id + 1;
        },
      )

  abbrev pub found_or_new : ℕ → Store → Person → Request → Option Opportunity → Opportunity × Store
  found_or_new now store person q (some o) =
      (o, touch_if now store o.id q.channel q.touch_type q.source_query q.source_ref)
  found_or_new now store person q none =
      let (o, store') =
        add_opportunity now store person (resolved_name q.company_name person) q.source_kind
          q.lifecycle_state none in
      (o, touch_if now store' o.id q.channel q.touch_type q.source_query q.source_ref)

  unfoldable pub get_or_create_opportunity : ℕ → Store → Person → Request → Opportunity × Store
  unfolding add_opportunity record_channel_touch latest_opportunity
  get_or_create_opportunity now store person q =
      found_or_new now store person q (latest_opportunity prefers store person.id)

  unfoldable pub create_inbound_opportunity :
      ℕ → Store → Person → Option String → Option String → Opportunity × Store
  unfolding add_opportunity
  create_inbound_opportunity now store person company_name thesis_version =
      let (o, store') =
        add_opportunity now store person (resolved_name company_name person) inbound_kind received
          thesis_version in
      let started = initialize_sla o none now in
      (started, record store' { opportunities = save started store'.opportunities })

abbrev is_inbound_kind : SourceKind → Bool
is_inbound_kind inbound_kind = true
is_inbound_kind outbound_kind = false

unfoldable pub has_inbound_opportunity : Store → ℕ → Bool
has_inbound_opportunity store person_id =
    any
      (λ (o : Opportunity).
        is_inbound_kind o.source_kind && is_founder person_id o.id store.founders)
      store.opportunities
