-- ===== src/Pipeline.antt =====
-- backend/app/agents/lifecycle_job.py: what the advancement job reads. The tables of scores, claims
-- and memos are read only here. PostgreSQL's LIKE and Python's float formatting and float product
-- are arguments where they are used.
pub mod Steps
pub mod Spending
pub mod Run
pub mod Trail
pub mod Decisions
use Prim.Native.String.{◌++◌ as join}
use the_vc_brain.Prelude.{
  ℕ, ◌-◌, Bool, true, false, Option, none, some, List, [], ◌∷◌, String, str_eq, ◌==◌, ◌&&◌, ℤ, pos,
  if◌then◌else◌, any, find, keep, take, length, leb, ltb, not,
}
use the_vc_brain.Time.{DateTime, as_utc, minutes}
use the_vc_brain.Lifecycle.{approved, closed, ◌is◌}
use the_vc_brain.Models.{Opportunity, DecisionEvent, Founder, Store}

-- Rows of the three tables, with the columns that the job reads. A float is counted in units
-- of 2 ^ -1074; one that is infinite in a text is a number past all others.

-- A value of a JSON object: null, a number, a text, or one of the other kinds.
pub data Json : Type 0 where
  json_null : Json
  json_number : ℤ → Json
  json_text : String → Json
  json_other : Json

-- What `float` makes of a text: it raises ValueError, or answers nan or another float.
pub data Parsed : Type 0 where
  malformed not_a_number : Parsed
  finite : ℤ → Parsed

pub record ScoreSnapshot : Type 0 where
  pub subject_id : ℕ
  pub subject_type : String
  pub rubric_version : String
  pub components : List (String × Json)
  pub created_at : ℕ

pub record Claim : Type 0 where
  pub id : ℕ
  pub observation_ids : List ℕ
  pub subject_id : Option ℕ
  pub opportunity_id : Option ℕ
  pub predicate : String
  pub status : String
  pub valid_time_start : ℕ
  pub valid_time_end : Option ℕ
  pub supersession_id : Option ℕ
  pub created_at : ℕ

pub record InvestmentMemo : Type 0 where
  pub id : ℕ
  pub opportunity_id : ℕ
  pub thesis_version : String
  pub status : String
  pub claim_ids : List String
  pub assessment_ids : List String
  pub created_at : ℕ

pub record Evidence : Type 0 where
  pub scores : List ScoreSnapshot
  pub claims : List Claim
  pub memos : List InvestmentMemo

-- The settings that the job reads.
pub record Settings : Type 0 where
  pub signal_threshold : ℤ
  pub contact_threshold : ℤ
  pub pipeline_stuck_after_minutes : ℕ
  pub pipeline_batch_size : ℕ

abbrev pub max_retries : ℕ
max_retries = 3

abbrev pub investigation_agent_calls : ℕ
investigation_agent_calls = 5

abbrev pub founder_score_agent_calls : ℕ
founder_score_agent_calls = 5

abbrev pub research_agent_calls : ℕ
research_agent_calls = 3

-- a nullable column that equals a value
abbrev pub equals : Option ℕ → ℕ → Bool
equals none n = false
equals (some m) n = m == n

abbrev pub is_null : Option ℕ → Bool
is_null none = true
is_null (some n) = false

unfoldable pub has_opportunity_axes : Evidence → ℕ → Bool
has_opportunity_axes evidence opportunity_id =
    any
      (λ (s : ScoreSnapshot).
        s.subject_id == opportunity_id
        && str_eq s.subject_type "opportunity"
        && str_eq s.rubric_version "opportunity-axes-v1")
      evidence.scores

unfoldable pub has_memo : Evidence → ℕ → Bool
has_memo evidence opportunity_id =
    any (λ (m : InvestmentMemo). m.opportunity_id == opportunity_id && str_eq m.status "succeeded")
      evidence.memos

unfoldable pub has_founder_score : Evidence → ℕ → Bool
has_founder_score evidence person_id =
    any
      (λ (s : ScoreSnapshot).
        s.subject_id == person_id
        && str_eq s.subject_type "person"
        && str_eq s.rubric_version "founder-agent-v1")
      evidence.scores

unfoldable pub has_scoped_claims : Evidence → ℕ → ℕ → Bool
has_scoped_claims evidence person_id opportunity_id =
    any
      (λ (c : Claim).
        equals c.subject_id person_id
        && equals c.opportunity_id opportunity_id
        && str_eq c.status "supported"
        && is_null c.supersession_id)
      evidence.claims

-- `ORDER BY created_at DESC LIMIT 1`
abbrev pub later_score : ScoreSnapshot → Option ScoreSnapshot → ScoreSnapshot
later_score s none = s
later_score s (some t) = if leb t.created_at s.created_at then s else t

abbrev pub newest_score : List ScoreSnapshot → Option ScoreSnapshot
newest_score [] = none
newest_score (s ∷ rest) = some (later_score s (newest_score rest))

unfoldable pub latest_score : Evidence → ℕ → String → Option ScoreSnapshot
latest_score evidence person_id rubric = newest_score (
    keep (λ (s : ScoreSnapshot). s.subject_id == person_id && str_eq s.rubric_version rubric)
      evidence.scores)

-- `float(str(components.get(name, 0.0)))`; `parse_float` is `float` on a text. The text of a number
-- is read back as that number; "None", "True" and the texts of lists and objects are refused.
abbrev pub float_of : (String → Parsed) → Json → Parsed
float_of parse_float json_null = malformed
float_of parse_float (json_number value) = finite value
float_of parse_float (json_text text) = parse_float text
float_of parse_float json_other = malformed

abbrev pub component : (String → Parsed) → String → List (String × Json) → Parsed
component parse_float name [] = finite (pos 0)
component parse_float name ((key, value) ∷ rest) =
    if str_eq key name then float_of parse_float value else component parse_float name rest

-- `datetime.now(UTC) - timedelta(minutes=...)`
abbrev pub cutoff : Settings → ℕ → ℕ
cutoff settings now = now - minutes settings.pipeline_stuck_after_minutes

-- `opp.updated_at and opp.updated_at > cutoff`
abbrev pub updated_after : Option ℕ → ℕ → Bool
updated_after none t = false
updated_after (some u) t = ltb t u

module _ (like : String → String → Bool) where
  -- the number of the deal's events of the pipeline whose reason is like "%retry%"
  unfoldable pub count_retries : Store → ℕ → ℕ
  count_retries store opportunity_id = length (
      keep
        (λ (e : DecisionEvent).
          e.opportunity_id == opportunity_id
          && str_eq e.actor "pipeline:auto"
          && like "%retry%" e.reason)
        store.events)

  unfoldable pub has_recent_pipeline_event : Store → ℕ → String → ℕ → Bool
  has_recent_pipeline_event store opportunity_id reason_fragment since =
      any
        (λ (e : DecisionEvent).
          e.opportunity_id == opportunity_id
          && str_eq e.actor "pipeline:auto"
          && like (join "%" (join reason_fragment "%")) e.reason
          && leb since e.created_at)
        store.events

-- the person of the deal: its first founder
unfoldable pub person_of : Store → ℕ → Option ℕ
person_of store opportunity_id =
    elim (find (λ (f : Founder). f.opportunity_id == opportunity_id) store.founders) [
      | none ↦ none
      | some f ↦ some f.person_id
    ]

-- The order of the batch: the due moment with nulls last, the creation, the id.
abbrev pub by_number : ℕ → ℕ → Bool → Bool
by_number m n tie = if ltb m n then true else if ltb n m then false else tie

abbrev pub by_due : Option DateTime → Option DateTime → Bool → Bool
by_due none none tie = tie
by_due none (some d) tie = false
by_due (some d) none tie = true
by_due (some d) (some e) tie = by_number (as_utc d) (as_utc e) tie

abbrev pub precedes : Opportunity → Opportunity → Bool
precedes o p =
    by_due o.decision_due_at p.decision_due_at
      (by_number o.created_at p.created_at (by_number o.id p.id false))

abbrev pub insert : Opportunity → List Opportunity → List Opportunity
insert o [] = o ∷ []
insert o (p ∷ rest) = let more = insert o rest in if precedes p o then p ∷ more else o ∷ p ∷ rest

abbrev pub sort : List Opportunity → List Opportunity
sort [] = []
sort (o ∷ rest) = insert o (sort rest)

-- The batch: unfinished deals that no other worker has locked, the urgent ones first.
unfoldable pub batch : Settings → (ℕ → Bool) → Store → List Opportunity
batch settings locked store = take settings.pipeline_batch_size (
    sort (
      keep
        (λ (o : Opportunity).
          not (o.lifecycle_state is approved)
          && not (o.lifecycle_state is closed)
          && not (locked o.id))
        store.opportunities))
