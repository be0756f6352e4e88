-- ===== src/Identity.antt =====
-- backend/app/identity/merge.py: two rows of one human become one. The tables are passed and
-- returned; the clock `now` is an argument. The session's identity map gives one object for one id,
-- so a row is changed in the table, also when both ids are the same.
pub mod Matchers
pub mod Resolve
pub mod Review
pub mod Merged
pub mod Handles
pub mod Supersession
pub mod Sound
pub mod Urls
pub mod Reviewed
pub mod Evidence
pub mod Alike
pub mod Addresses
pub mod Automatic
use Prim.Native.String.{count}
use the_vc_brain.Prelude.{
  ℕ, ◌<◌, Bool, true, false, Option, none, some, List, [], ◌∷◌, ◌++◌, String, str_eq, ◌==◌, ◌&&◌,
  ◌||◌, not, if◌then◌else◌, find, any, keep, update_where, ltb, ℤ,
}
use the_vc_brain.Models.{Person, Founder}
use the_vc_brain.Pipeline.{ScoreSnapshot, equals}
use the_vc_brain.Sla.{truthy}

-- Rows of three more tables, with the columns that these operations read.
pub record Observation : Type 0 where
  pub id : ℕ
  pub subject_id : Option ℕ
  pub predicate : String
  pub object_value : String

pub record Relationship : Type 0 where
  pub id : ℕ
  pub person_a_id : ℕ
  pub person_b_id : ℕ
  pub relationship_type : String

-- `confidence` is a float, counted in units of 2 ^ -1074.
pub record PersonMatch : Type 0 where
  pub id : ℕ
  pub person_a_id : ℕ
  pub person_b_id : ℕ
  pub confidence : ℕ
  pub reasons : List String
  pub status : String
  pub resolved_by : Option String
  pub resolved_at : Option ℕ

pub record People : Type 0 where
  pub persons : List Person
  pub observations : List Observation
  pub relationships : List Relationship
  pub scores : List ScoreSnapshot
  pub founders : List Founder
  pub matches : List PersonMatch
  pub next_id : ℕ

-- A ValueError for a missing person, the database's IntegrityError for a founder row whose primary
-- key exists, and SQLAlchemy's MultipleResultsFound.
pub data Failure : Type 0 where
  person_not_found duplicate_founder multiple_results invalid_url : Failure

pub data Attempt (A : Type 0) : Type 0 where
  returned : A → Attempt A
  threw : Failure → Attempt A

-- the next statement, unless an exception was raised
abbrev pub and_then : {A B : Type 0} → Attempt A → (A → Attempt B) → Attempt B
and_then (returned a) next = next a
and_then (threw failure) next = threw failure

-- `session.get(Person, id)`
abbrev pub person : List Person → ℕ → Option Person
person persons id = find (λ (p : Person). p.id == id) persons

-- 1. `dict(canonical.handles or {})`, and the handles of the duplicate whose source is not there
abbrev pub handles_of : Option (List (String × String)) → List (String × String)
handles_of none = []
handles_of (some handles) = handles

abbrev pub has_source : String → List (String × String) → Bool
has_source source handles = any (λ (h : String × String). str_eq h.0 source) handles

unfoldable pub merge_handles :
    List (String × String) → List (String × String) → List (String × String)
merge_handles merged [] = merged
merge_handles merged ((source, handle) ∷ rest) =
    merge_handles (if has_source source merged then merged else merged ++ (source, handle) ∷ [])
      rest

-- 2. and 3.
abbrev pub text_length : Option String → ℕ
text_length none = 0
text_length (some text) = count text

abbrev pub merge_name : Option String → Option String → Option String
merge_name mine theirs =
    if not (truthy mine) && truthy theirs
    then theirs
    else if truthy mine && (truthy theirs && ltb (text_length mine) (text_length theirs))
    then theirs
    else mine

abbrev pub merge_email : Option String → Option String → Option String
merge_email mine theirs = if not (truthy mine) && truthy theirs then theirs else mine

-- the canonical row after 1. to 3.
abbrev pub enriched : Person → Person → Person
enriched canonical duplicate = record canonical {
  handles = some (merge_handles (handles_of canonical.handles) (handles_of duplicate.handles));
  display_name = merge_name canonical.display_name duplicate.display_name;
  email = merge_email canonical.email duplicate.email;
}

-- the row of the duplicate after 8.
abbrev pub superseded : ℕ → ℕ → Person → Person
superseded now canonical_id duplicate = record duplicate {
  canonical = false;
  superseded_by_id = some canonical_id;
  merged_at = some now;
}

-- 4. to 7. `UPDATE ... SET column = canonical_id WHERE column = duplicate_id`
abbrev pub moved_observations : ℕ → ℕ → List Observation → List Observation
moved_observations canonical_id duplicate_id =
    update_where (λ (o : Observation). equals o.subject_id duplicate_id)
      (λ (o : Observation). record o { subject_id = some canonical_id })

abbrev pub moved_a : ℕ → ℕ → List Relationship → List Relationship
moved_a canonical_id duplicate_id =
    update_where (λ (r : Relationship). r.person_a_id == duplicate_id)
      (λ (r : Relationship). record r { person_a_id = canonical_id })

abbrev pub moved_b : ℕ → ℕ → List Relationship → List Relationship
moved_b canonical_id duplicate_id =
    update_where (λ (r : Relationship). r.person_b_id == duplicate_id)
      (λ (r : Relationship). record r { person_b_id = canonical_id })

abbrev pub is_self : ℕ → Relationship → Bool
is_self id r = r.person_a_id == id && r.person_b_id == id

abbrev pub moved_relationships : ℕ → ℕ → List Relationship → List Relationship
moved_relationships canonical_id duplicate_id rows =
    keep (λ (r : Relationship). not (is_self canonical_id r))
      (moved_b canonical_id duplicate_id (moved_a canonical_id duplicate_id rows))

abbrev pub moved_scores : ℕ → ℕ → List ScoreSnapshot → List ScoreSnapshot
moved_scores canonical_id duplicate_id =
    update_where (λ (s : ScoreSnapshot). s.subject_id == duplicate_id)
      (λ (s : ScoreSnapshot). record s { subject_id = canonical_id })

abbrev pub moved_founders : ℕ → ℕ → List Founder → List Founder
moved_founders canonical_id duplicate_id =
    update_where (λ (f : Founder). f.person_id == duplicate_id)
      (λ (f : Founder). record f { person_id = canonical_id })

-- the primary key of `opportunity_founders`
abbrev pub same_key : Founder → Founder → Bool
same_key f g = f.opportunity_id == g.opportunity_id && f.person_id == g.person_id

abbrev pub repeats_key : List Founder → Bool
repeats_key [] = false
repeats_key (f ∷ rest) = any (same_key f) rest || repeats_key rest

-- both changed rows of persons
abbrev pub merged_rows : ℕ → ℕ → ℕ → Person → List Person → List Person
merged_rows now canonical_id duplicate_id duplicate persons =
    update_where (λ (p : Person). p.id == duplicate_id) (superseded now canonical_id)
      (update_where (λ (p : Person). p.id == canonical_id) (λ (p : Person). enriched p duplicate)
        persons)

unfoldable pub merged : ℕ → People → ℕ → ℕ → Person → People
merged now people canonical_id duplicate_id duplicate = record people {
  persons = merged_rows now canonical_id duplicate_id duplicate people.persons;
  observations = moved_observations canonical_id duplicate_id people.observations;
  relationships = moved_relationships canonical_id duplicate_id people.relationships;
  scores = moved_scores canonical_id duplicate_id people.scores;
  founders = moved_founders canonical_id duplicate_id people.founders;
}

unfoldable pub merge_found : ℕ → People → ℕ → ℕ → Option Person → Option Person → Attempt People
unfolding merged
merge_found now people canonical_id duplicate_id none found = threw person_not_found
merge_found now people canonical_id duplicate_id (some canonical) none = threw person_not_found
merge_found now people canonical_id duplicate_id (some canonical) (some duplicate) =
    if not duplicate.canonical
    then returned people
    else if repeats_key (moved_founders canonical_id duplicate_id people.founders)
    then threw duplicate_founder
    else returned (merged now people canonical_id duplicate_id duplicate)

-- The tables after the call; the row that it returns is the canonical's. The confidence and the
-- reasons are only logged.
unfoldable pub merge_persons : ℕ → People → ℕ → ℕ → Attempt People
unfolding merge_found
merge_persons now people canonical_id duplicate_id =
    merge_found now people canonical_id duplicate_id (person people.persons canonical_id)
      (person people.persons duplicate_id)
