-- ===== src/Models.antt =====
-- Rows of backend/app/db/models.py that the modelled components read and write. A UUID is a
-- number, since it is only compared. A column with a check constraint is an enumeration. Columns
-- that no modelled operation reads are left out: what they are is said at each record.
use the_vc_brain.Prelude.{ℕ, ℤ, Bool, String, Option, List}
use the_vc_brain.Time.{DateTime}
use the_vc_brain.Time.Iso.{IsoText}
use the_vc_brain.Lifecycle.{Stage}

-- A value of a JSON metadata column, as far as the modelled code writes one.
pub data Value : Type 0 where
  null : Value
  text : String → Value
  number : ℕ → Value
  texts : List String → Value

abbrev pub Metadata : Type 0
Metadata = List (String × Value)

-- A value under `stage_deadlines`: a `datetime`, a number (kept in microseconds since 1970), a text
-- of the form of an ISO date and time, a text of another form, or anything else.
pub data Deadline : Type 0 where
  moment : DateTime → Deadline
  timestamp : ℕ → Deadline
  iso_text : IsoText → Deadline
  malformed_text : Deadline
  other : Deadline

pub data Attainment : Type 0 where
  pending met breached : Attainment

pub data SourceKind : Type 0 where
  outbound_kind inbound_kind : SourceKind

-- `created_at` and `updated_at` come from TimestampMixin.
pub record Opportunity : Type 0 where
  pub id : ℕ
  pub organization_id : Option ℕ
  pub company_name : String
  pub source_kind : SourceKind
  pub lifecycle_state : Stage
  pub thesis_version : Option String
  pub received_at : Option DateTime
  pub decision_due_at : Option DateTime
  pub stage_deadlines : List (String × Deadline)
  pub sla_owner : Option String
  pub sla_pause_reason : Option String
  pub sla_attainment : Attainment
  pub sla_decided_at : Option DateTime
  pub created_at : ℕ
  pub updated_at : Option ℕ

pub record DecisionEvent : Type 0 where
  pub id : ℕ
  pub opportunity_id : ℕ
  pub prior_state : Stage
  pub new_state : Stage
  pub actor : String
  pub idempotency_key : Option String
  pub reason : String
  pub sla_metadata : Metadata
  pub created_at : ℕ

pub record Founder : Type 0 where
  pub opportunity_id : ℕ
  pub person_id : ℕ
  pub role : String

pub record Organization : Type 0 where
  pub id : ℕ
  pub stable_id : String
  pub name : String
  pub org_type : String

pub record ChannelTouch : Type 0 where
  pub id : ℕ
  pub opportunity_id : ℕ
  pub channel : String
  pub touch_type : String
  pub source_query : Option String
  pub source_ref : Option String
  pub occurred_at : ℕ
  pub touch_metadata : Metadata

-- `confidence` is a float; it is counted in units of 2 ^ -1074 like the priorities of the queue.
pub record Outcome : Type 0 where
  pub id : ℕ
  pub opportunity_id : ℕ
  pub outcome_domain : String
  pub outcome_type : String
  pub source_type : String
  pub observed_at : ℕ
  pub outcome_value : Metadata
  pub source_ref : Option String
  pub horizon_days : Option ℤ
  pub censoring : String
  pub confidence : ℤ
  pub provenance : Metadata

-- The columns of a person that these operations read; the others are left out. `handles` is a JSON
-- object with distinct keys.
pub record Person : Type 0 where
  pub id : ℕ
  pub stable_id : String
  pub display_name : Option String
  pub email : Option String
  pub handles : Option (List (String × String))
  pub consent_state : String
  pub privacy_legal_basis : Option String
  pub privacy_notice_version : Option String
  pub privacy_purposes : List (String × String)
  pub privacy_provider_policy_version : Option String
  pub privacy_retention_days : Option ℤ
  pub privacy_residency : Option String
  pub superseded_by_id : Option ℕ
  pub canonical : Bool
  pub merged_at : Option ℕ
  pub created_at : ℕ

-- The tables. A new row gets the next unused id, as `uuid4` gives one that no row has.
pub record Store : Type 0 where
  pub opportunities : List Opportunity
  pub founders : List Founder
  pub organizations : List Organization
  pub touches : List ChannelTouch
  pub outcomes : List Outcome
  pub events : List DecisionEvent
  pub next_id : ℕ
