-- ===== src/Identity/Merged.antt =====
-- What `merge_persons` of backend/app/identity/merge.py leaves behind.
use the_vc_brain.Prelude.{
  ℕ, ◌≡◌, ◌≢◌, ◌⊎◌, inl, inr, refl, Bool, true, false, Option, none, some, List, ◌==◌, Bool-cases,
  Option-cases, All, All-update_where, All-keep, update_where-clears, length, length-update_where,
  subst, arith, not,
}
use the_vc_brain.Models.{Person, Founder}
use the_vc_brain.Pipeline.{ScoreSnapshot, equals}
use the_vc_brain.Identity.{
  Observation, Relationship, People, Attempt, returned, threw, person_not_found, duplicate_founder,
  person, moved_b, moved_relationships, moved_founders, is_self, repeats_key, merged, merge_found,
  merge_persons,
}

-- The ways in which a call ends.
pub data HowMerged (now : ℕ) (people : People) (canonical_id duplicate_id : ℕ)
    : Attempt People → Type 0 where
  missing :
      (person people.persons canonical_id ≡ none) ⊎ (person people.persons duplicate_id ≡ none)
      → HowMerged now people canonical_id duplicate_id (threw person_not_found)
  already :
      (canonical duplicate : Person)
      → person people.persons canonical_id ≡ some canonical
      → person people.persons duplicate_id ≡ some duplicate
      → duplicate.canonical ≡ false
      → HowMerged now people canonical_id duplicate_id (returned people)
  clashes :
      (canonical duplicate : Person)
      → person people.persons canonical_id ≡ some canonical
      → person people.persons duplicate_id ≡ some duplicate
      → duplicate.canonical ≡ true
      → repeats_key (moved_founders canonical_id duplicate_id people.founders) ≡ true
      → HowMerged now people canonical_id duplicate_id (threw duplicate_founder)
  done :
      (canonical duplicate : Person)
      → person people.persons canonical_id ≡ some canonical
      → person people.persons duplicate_id ≡ some duplicate
      → duplicate.canonical ≡ true
      → repeats_key (moved_founders canonical_id duplicate_id people.founders) ≡ false
      → HowMerged now people canonical_id duplicate_id
          (returned (merged now people canonical_id duplicate_id duplicate))

-- A call of `merge_persons` ends in one of four ways, each with its condition: a ValueError when one
-- of the persons is missing; the tables as they were when the duplicate is no longer canonical; an
-- IntegrityError when both are founders of one deal; and else the merged tables.
pub merge_persons-HowMerged :
    (now : ℕ) (people : People) (canonical_id duplicate_id : ℕ)
    → HowMerged now people canonical_id duplicate_id
        (merge_persons now people canonical_id duplicate_id)
unfolding merge_persons
merge_persons-HowMerged now people canonical_id duplicate_id =
    elim (Option-cases (person people.persons canonical_id)) [
      | inl e ↦ rw (merge_persons, e, merge_found) (missing (inl e))
      | inr (c, e) ↦ elim (Option-cases (person people.persons duplicate_id)) [
        | inl g ↦ rw (merge_persons, e, g, merge_found) (missing (inr g))
        | inr (d, g) ↦ elim (Bool-cases d.canonical) [
          | inr k ↦ rw (merge_persons, e, g, merge_found, k) (already c d e g k)
          | inl k ↦
              elim (Bool-cases
                (repeats_key (moved_founders canonical_id duplicate_id people.founders))) [
                  | inl r ↦ rw (merge_persons, e, g, merge_found, k, r) (clashes c d e g k r)
                  | inr r ↦ rw (merge_persons, e, g, merge_found, k, r) (done c d e g k r)
                ]
        ]
      ]
    ]

not-true : (b : Bool) → not b ≡ true → b ≡ false
not-true false e = refl
not-true true e = cc e

-- the person is there and canonical
abbrev pub is_canonical : Option Person → Bool
is_canonical none = false
is_canonical (some p) = p.canonical

module _ (now canonical_id duplicate_id : ℕ) (apart : canonical_id ≢ duplicate_id) where
  differs : (canonical_id == duplicate_id) ≡ false
  differs = ground arith

  -- no row of the five tables names the duplicate any more
  pub record IsReassigned (people next : People) : Type 0 where
    pub observations :
        All (λ (o : Observation). equals o.subject_id duplicate_id ≡ false) next.observations
    pub relationships :
        All
          (λ (r : Relationship).
            ((r.person_a_id == duplicate_id) ≡ false)
            × ((r.person_b_id == duplicate_id) ≡ false)
            × (is_self canonical_id r ≡ false))
          next.relationships
    pub scores : All (λ (s : ScoreSnapshot). (s.subject_id == duplicate_id) ≡ false) next.scores
    pub founders : All (λ (f : Founder). (f.person_id == duplicate_id) ≡ false) next.founders
    pub founder_keys : repeats_key next.founders ≡ false
    pub observations_kept : length next.observations ≡ length people.observations
    pub scores_kept : length next.scores ≡ length people.scores
    pub founders_kept : length next.founders ≡ length people.founders

  b_moved :
      (rows : List Relationship)
      → All (λ (r : Relationship). (r.person_a_id == duplicate_id) ≡ false) rows
      → All
          (λ (r : Relationship).
            ((r.person_a_id == duplicate_id) ≡ false) × ((r.person_b_id == duplicate_id) ≡ false))
          (moved_b canonical_id duplicate_id rows)
  b_moved rows =
      All-update_where (λ (r : Relationship). (r.person_a_id == duplicate_id) ≡ false)
        (λ (r : Relationship).
          ((r.person_a_id == duplicate_id) ≡ false) × ((r.person_b_id == duplicate_id) ≡ false))
        _ _ (λ r e h. (h, differs)) (λ r e h. (h, e)) rows

  relationships_moved :
      (rows : List Relationship)
      → All
          (λ (r : Relationship).
            ((r.person_a_id == duplicate_id) ≡ false)
            × ((r.person_b_id == duplicate_id) ≡ false)
            × (is_self canonical_id r ≡ false))
          (moved_relationships canonical_id duplicate_id rows)
  relationships_moved rows =
      All-keep
        (λ (r : Relationship).
          ((r.person_a_id == duplicate_id) ≡ false) × ((r.person_b_id == duplicate_id) ≡ false))
        (λ (r : Relationship).
          ((r.person_a_id == duplicate_id) ≡ false)
          × ((r.person_b_id == duplicate_id) ≡ false)
          × (is_self canonical_id r ≡ false))
        _ (λ r e h. (h.0, h.1, not-true _ e)) _
        (b_moved _ (
          update_where-clears (λ (r : Relationship). r.person_a_id == duplicate_id)
            (λ (r : Relationship). record r { person_a_id = canonical_id }) (λ r. differs) rows))

  merged-IsReassigned :
      (people : People) (duplicate : Person)
      → repeats_key (moved_founders canonical_id duplicate_id people.founders) ≡ false
      → IsReassigned people (merged now people canonical_id duplicate_id duplicate)
  unfolding merged
  merged-IsReassigned people duplicate keys = record {
    observations =
        update_where-clears names_observation observation_to (λ o. differs) people.observations;
    relationships = relationships_moved people.relationships;
    scores = update_where-clears names_score score_to (λ s. differs) people.scores;
    founders = update_where-clears names_founder founder_to (λ f. differs) people.founders;
    founder_keys = keys;
    observations_kept = length-update_where names_observation observation_to people.observations;
    scores_kept = length-update_where names_score score_to people.scores;
    founders_kept = length-update_where names_founder founder_to people.founders;
  }
    where
      names_observation : Observation → Bool
      names_observation o = equals o.subject_id duplicate_id

      observation_to : Observation → Observation
      observation_to o = record o { subject_id = some canonical_id }

      names_score : ScoreSnapshot → Bool
      names_score s = s.subject_id == duplicate_id

      score_to : ScoreSnapshot → ScoreSnapshot
      score_to s = record s { subject_id = canonical_id }

      names_founder : Founder → Bool
      names_founder f = f.person_id == duplicate_id

      founder_to : Founder → Founder
      founder_to f = record f { person_id = canonical_id }

  HowMerged-IsReassigned :
      (people next : People) (r : Attempt People)
      → HowMerged now people canonical_id duplicate_id r
      → is_canonical (person people.persons duplicate_id) ≡ true
      → r ≡ returned next
      → IsReassigned people next
  HowMerged-IsReassigned people next r (missing h) k e = cc e
  HowMerged-IsReassigned people next r (already c d found_c found_d h) k e = cc (k, found_d, h)
  HowMerged-IsReassigned people next r (clashes c d found_c found_d h keys) k e = cc e
  HowMerged-IsReassigned people next r (done c d found_c found_d h keys) k e =
      subst (λ x. IsReassigned people x) (cc e) (merged-IsReassigned people d keys)

  -- A merge of two different persons whose duplicate is still canonical, when it returns, leaves no
  -- observation, relationship, score or founder row that names the duplicate and no relationship of
  -- the canonical person with itself; it loses no observation, score or founder row, and no two
  -- founder rows have one key.
  pub merge_persons-IsReassigned :
      (people next : People)
      → is_canonical (person people.persons duplicate_id) ≡ true
      → merge_persons now people canonical_id duplicate_id ≡ returned next
      → IsReassigned people next
  merge_persons-IsReassigned people next k e =
      HowMerged-IsReassigned people next _
        (merge_persons-HowMerged now people canonical_id duplicate_id) k e
