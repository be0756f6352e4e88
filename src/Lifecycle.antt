-- ===== src/Lifecycle.antt =====
-- backend/app/lifecycle.py: the versioned table of deal stages and the transition test.
-- The stage is a column with a check constraint of the twelve names (backend/app/db/models.py),
-- so it is an enumeration here; `key` gives the name that the source stores and compares.
pub mod Keys
pub mod Graph
pub mod Paths
use the_vc_brain.Prelude.{
  String, Bool, true, false, Option, none, some, List, [], ◌∷◌, map, str_eq, any, find,
  if◌then◌else◌,
}
use Prim.Native.String.{◌++◌}

pub data Stage : Type 0 where
  discovered interesting investigating contacted received triage screening diligence : Stage
  memo_ready hold approved closed : Stage

abbrev pub key : Stage → String
key discovered = "discovered"
key interesting = "interesting"
key investigating = "investigating"
key contacted = "contacted"
key received = "received"
key triage = "triage"
key screening = "screening"
key diligence = "diligence"
key memo_ready = "memo_ready"
key hold = "hold"
key approved = "approved"
key closed = "closed"

-- `==` and `!=` on stage names
infix 50 ◌is◌
abbrev pub ◌is◌ : Stage → Stage → Bool
a is b = str_eq (key a) (key b)

pub data Lane : Type 0 where
  outbound inbound decision terminal : Lane

pub record LifecycleDefinition : Type 0 where
  pub stage : Stage
  pub label : String
  pub lane : Lane
  pub entry_requirements : List String
  pub exit_requirements : List String
  pub actors : List String
  pub transitions : List Stage

abbrev discovered_definition : LifecycleDefinition
discovered_definition = record {
  stage = discovered;
  label = "Discovered";
  lane = outbound;
  entry_requirements =
      "Canonical person identity exists" ∷ "At least one source signal is stored" ∷ [];
  exit_requirements = "Signal composite crosses the configured threshold" ∷ [];
  actors = "pipeline:auto" ∷ [];
  transitions = interesting ∷ closed ∷ [];
}

abbrev interesting_definition : LifecycleDefinition
interesting_definition = record {
  stage = interesting;
  label = "Interesting";
  lane = outbound;
  entry_requirements = "Signal threshold has been crossed" ∷ [];
  exit_requirements = "Investigation budget is available" ∷ [];
  actors = "pipeline:auto" ∷ [];
  transitions = investigating ∷ closed ∷ [];
}

abbrev investigating_definition : LifecycleDefinition
investigating_definition = record {
  stage = investigating;
  label = "Investigating";
  lane = outbound;
  entry_requirements = "Opportunity is linked to a canonical founder" ∷ [];
  exit_requirements = "Research, Founder Score, and processing jobs are queued" ∷ [];
  actors = "pipeline:auto" ∷ [];
  transitions = contacted ∷ received ∷ closed ∷ [];
}

abbrev contacted_definition : LifecycleDefinition
contacted_definition = record {
  stage = contacted;
  label = "Contacted";
  lane = outbound;
  entry_requirements = "A reviewable outreach draft exists" ∷ [];
  exit_requirements = "Provider-confirmed contact or founder submission exists" ∷ [];
  actors = "pipeline:auto" ∷ "human" ∷ [];
  transitions = received ∷ closed ∷ [];
}

abbrev received_definition : LifecycleDefinition
received_definition = record {
  stage = received;
  label = "Received";
  lane = inbound;
  entry_requirements = "Validated inbound submission or confirmed founder response exists" ∷ [];
  exit_requirements = "Scoped processing claims exist" ∷ [];
  actors = "pipeline:auto" ∷ [];
  transitions = triage ∷ closed ∷ [];
}

abbrev triage_definition : LifecycleDefinition
triage_definition = record {
  stage = triage;
  label = "Triage";
  lane = inbound;
  entry_requirements = "Received opportunity has scoped accepted claims" ∷ [];
  exit_requirements = "Person-level Founder Score exists" ∷ [];
  actors = "pipeline:auto" ∷ [];
  transitions = screening ∷ closed ∷ [];
}

abbrev screening_definition : LifecycleDefinition
screening_definition = record {
  stage = screening;
  label = "Screening";
  lane = inbound;
  entry_requirements = "Triage output and Founder Score exist" ∷ [];
  exit_requirements = "Founder, Market, and Idea-Market assessments exist" ∷ [];
  actors = "pipeline:auto" ∷ [];
  transitions = diligence ∷ closed ∷ [];
}

abbrev diligence_definition : LifecycleDefinition
diligence_definition = record {
  stage = diligence;
  label = "Diligence";
  lane = inbound;
  entry_requirements = "Three opportunity axes are persisted" ∷ [];
  exit_requirements = "A validated succeeded memo exists" ∷ [];
  actors = "pipeline:auto" ∷ "human" ∷ [];
  transitions = memo_ready ∷ closed ∷ [];
}

abbrev memo_ready_definition : LifecycleDefinition
memo_ready_definition = record {
  stage = memo_ready;
  label = "Memo ready";
  lane = decision;
  entry_requirements = "Validated succeeded memo exists" ∷ [];
  exit_requirements = "Human decision is recorded with a reason" ∷ [];
  actors = "pipeline:auto" ∷ "human" ∷ [];
  transitions = hold ∷ approved ∷ closed ∷ [];
}

abbrev hold_definition : LifecycleDefinition
hold_definition = record {
  stage = hold;
  label = "On hold";
  lane = decision;
  entry_requirements = "Human hold decision includes a reason" ∷ [];
  exit_requirements = "Human resumes or closes the opportunity" ∷ [];
  actors = "human" ∷ [];
  transitions = approved ∷ closed ∷ [];
}

abbrev approved_definition : LifecycleDefinition
approved_definition = record {
  stage = approved;
  label = "Approved";
  lane = terminal;
  entry_requirements = "Human proceed decision references the memo and evidence" ∷ [];
  exit_requirements = [];
  actors = "human" ∷ [];
  transitions = [];
}

abbrev closed_definition : LifecycleDefinition
closed_definition = record {
  stage = closed;
  label = "Closed";
  lane = terminal;
  entry_requirements = "Human decline or explicit system timeout has a reason" ∷ [];
  exit_requirements = [];
  actors = "human" ∷ "pipeline:auto" ∷ [];
  transitions = [];
}

abbrev pub definitions : List LifecycleDefinition
definitions =
    discovered_definition ∷ interesting_definition ∷ investigating_definition ∷ contacted_definition
    ∷ received_definition ∷ triage_definition ∷ screening_definition ∷ diligence_definition
    ∷ memo_ready_definition ∷ hold_definition ∷ approved_definition ∷ closed_definition ∷ []

-- STAGES
abbrev pub stages : List Stage
stages = map (λ (d : LifecycleDefinition). d.stage) definitions

-- TRANSITIONS.get(stage, ()): the table is keyed by the definitions' keys.
abbrev or_empty : Option LifecycleDefinition → List Stage
or_empty none = []
or_empty (some d) = d.transitions

unfoldable pub transitions_from : Stage → List Stage
transitions_from stage = or_empty (find (λ (d : LifecycleDefinition). d.stage is stage) definitions)

unfoldable pub is_valid_transition : Stage → Stage → Bool
unfolding transitions_from
is_valid_transition prior new =
    if prior is new then true else any (λ s. s is new) (transitions_from prior)

-- `definition.lane == "outbound"`
abbrev is_outbound_lane : Lane → Bool
is_outbound_lane outbound = true
is_outbound_lane _ = false

-- `definition.lane in {"inbound", "decision", "terminal"}`
abbrev is_inbound_lane : Lane → Bool
is_inbound_lane inbound = true
is_inbound_lane decision = true
is_inbound_lane terminal = true
is_inbound_lane _ = false

-- membership in _OUTBOUND_STAGES and _INBOUND_STAGES
unfoldable pub is_outbound : Stage → Bool
is_outbound stage =
    any (λ (d : LifecycleDefinition). if is_outbound_lane d.lane then d.stage is stage else false)
      definitions

unfoldable pub is_inbound : Stage → Bool
is_inbound stage =
    any (λ (d : LifecycleDefinition). if is_inbound_lane d.lane then d.stage is stage else false)
      definitions

-- `status == "succeeded"`
unfoldable pub is_memo_ready : String → Bool
is_memo_ready status = str_eq status "succeeded"

-- `reason_labels.get(new, labels.get(new, new))`: the seven reasons, else the stage's label.
abbrev base_reason : Stage → String
base_reason interesting = "Signal crossed interesting threshold"
base_reason investigating = "Investigation started"
base_reason contacted = "Outreach contact stage"
base_reason received = "Inbound application received"
base_reason memo_ready = "Investment memo generated"
base_reason approved = "Investment approved"
base_reason closed = "Opportunity closed"
base_reason discovered = discovered_definition.label
base_reason triage = triage_definition.label
base_reason screening = screening_definition.label
base_reason diligence = diligence_definition.label
base_reason hold = hold_definition.label

unfoldable pub advance_reason : Stage → Stage → String → String
advance_reason prior new detail =
    if str_eq detail "" then base_reason new else base_reason new ++ (" — " ++ detail)
