-- ===== src/Tests/Identity.antt =====
-- Two rows of one human and a third person, for the theorems on backend/app/identity.
use the_vc_brain.Prelude.{
  ◌↔◌, ℕ, ◌≡◌, inl, inr, refl, Bool, true, false, none, some, List, [], ◌∷◌, ◌==◌, String, str_eq,
  if◌then◌else◌, All, All-map, any, arith, length, keep, ◌≤◌, Bool-cases, ==_refl, ◌||◌, ◌*◌, ◌^◌,
}
use the_vc_brain.Models.{Person}
use the_vc_brain.Identity.{Observation, PersonMatch, People, merge_persons, merged}
use the_vc_brain.Identity.Matchers.{
  Texts, Signals, confidence_of, should_auto_merge, probable, by_name, corroborating_signals,
  linkedin_name_match, exact_match, url_match, name_similarity, full, extract_signals,
  get_observation, match_confidence,
}
use the_vc_brain.Identity.Resolve.{resolve_identities, same_pair, is_pending_of}
use the_vc_brain.Identity.Review.{approve_match, reject_match}
use the_vc_brain.Identity.Merged.{IsReassigned, merge_persons-IsReassigned}
use the_vc_brain.Identity.Handles.{IsMerged, merge_persons-IsMerged}
use the_vc_brain.Identity.Supersession.{IsSuperseding}
use the_vc_brain.Identity.Sound.{IsSound, IsSafe, resolve_identities-IsSafe}
use the_vc_brain.Identity.Reviewed.{approve_match-IsSound}
use the_vc_brain.Identity.Automatic.{IsSure, match_confidence-IsSure}
use the_vc_brain.Identity.Evidence.{empty_slug-auto_merge}

abbrev row : ℕ → String → List (String × String) → ℕ → Person
row id name handles created_at = record {
  id = id;
  stable_id = name;
  display_name = some name;
  email = none;
  handles = some handles;
  consent_state = "pending";
  privacy_legal_basis = none;
  privacy_notice_version = none;
  privacy_purposes = [];
  privacy_provider_policy_version = none;
  privacy_retention_days = none;
  privacy_residency = none;
  superseded_by_id = none;
  canonical = true;
  merged_at = none;
  created_at = created_at;
}

abbrev ada : Person
ada = row 1 "Ada" (("github", "ada") ∷ []) 10

abbrev ada_again : Person
ada_again = row 2 "Ada L." (("github", "adal") ∷ ("x", "ada") ∷ []) 20

abbrev observed : ℕ → ℕ → String → String → Observation
observed id subject predicate value = record {
  id = id;
  subject_id = some subject;
  predicate = predicate;
  object_value = value;
}

abbrev a_match : PersonMatch
a_match = record {
  id = 4;
  person_a_id = 1;
  person_b_id = 2;
  confidence = 0;
  reasons = [];
  status = "pending";
  resolved_by = none;
  resolved_at = none;
}

abbrev people : People
people = record {
  persons = ada ∷ ada_again ∷ [];
  observations =
      observed 1 1 "email" "ada@x"
      ∷ observed 2 2 "email" "ada@x"
      ∷ observed 3 2 "company" "Acme"
      ∷ [];
  relationships =
      record { id = 1; person_a_id = 1; person_b_id = 2; relationship_type = "peer" } ∷ [];
  scores =
      record {
        subject_id = 2;
        subject_type = "person";
        rubric_version = "signal-v1";
        components = [];
        created_at = 1;
      }
      ∷ [];
  founders = record { opportunity_id = 9; person_id = 2; role = "founder" } ∷ [];
  matches = a_match ∷ [];
  next_id = 5;
}

abbrev texts : Texts
texts = record {
  strip = λ text. text;
  lower = λ text. text;
  words = λ text. text ∷ [];
  first_part = λ separator text. text;
  last_part = λ separator text. "";
  prefix = λ n text. text;
  suffix = λ n text. text;
  rstrip_slash = λ text. text;
  dashes_to_spaces = λ text. text;
  contains = λ needle text. if str_eq needle "" then true else str_eq needle text;
  urlparse = λ url. some (url, "");
  without_accents = λ text. text;
  token_sort_ratio = λ a b. if str_eq a b then 100 * 2 ^ 1074 else 0;
}

apart : ¬ (◌≡◌ {A = ℕ} 1 2)
apart e = omega (arith, e)

merge_persons-IsReassigned_example :
    IsReassigned 30 1 2 apart people (merged 30 people 1 2 ada_again)
unfolding merge_persons
merge_persons-IsReassigned_example =
    merge_persons-IsReassigned 30 1 2 apart people (merged 30 people 1 2 ada_again) refl refl

merge_persons-IsMerged_example : IsMerged 30 1 2 apart people (merged 30 people 1 2 ada_again)
unfolding merge_persons
merge_persons-IsMerged_example =
    merge_persons-IsMerged 30 1 2 apart people (merged 30 people 1 2 ada_again) refl refl

superseding : IsSuperseding people.persons
superseding i = elim (Bool-cases (1 == i)) [
  | inl e ↦ rw e (inl (refl, refl))
  | inr e ↦ elim (Bool-cases (2 == i)) [
    | inl g ↦ rw (e, g) (inl (refl, refl))
    | inr g ↦ rw (e, g) tt
  ]
]

one_pending : (p : PersonMatch → Bool) (m : PersonMatch) → length (keep p (m ∷ [])) ≤ 1
one_pending p m = elim (Bool-cases (p m)) [
  | inl e ↦ rw e (omega arith)
  | inr e ↦ rw e (omega arith)
]

sound : IsSound people
sound = record {
  superseding = superseding;
  sorted = (omega arith, tt);
  once = λ a b. one_pending (is_pending_of a b) a_match;
}

same_itself : (x : ℕ × ℕ) → same_pair x x ≡ true
same_itself (a, b) = rw (==_refl a, ==_refl b)

or_true : (b : Bool) → (b || true) ≡ true
or_true true = refl
or_true false = refl

self_member : (pairs : List (ℕ × ℕ)) → All (λ x. any (same_pair x) pairs ≡ true) pairs
self_member [] = tt
self_member (pair ∷ pairs) =
    (rw (same_itself pair), All-map _ _ (λ x e. rw (e, or_true)) pairs (self_member pairs))

resolve_identities-IsSafe_example : IsSafe (resolve_identities texts 30 (λ pairs. pairs) people)
resolve_identities-IsSafe_example =
    resolve_identities-IsSafe texts 30 (λ pairs. pairs) self_member people sound

approve_match-IsSound_example :
    IsSound (approve_match 30 people 4).1 × IsSound (reject_match 30 people 4).1
approve_match-IsSound_example = approve_match-IsSound 30 people 4 sound

abbrev signals : Signals
signals = record {
  email = none;
  twitter_handle = none;
  blog_url = none;
  website_url = none;
  display_name = some "Ada";
  location = none;
  company = none;
  linkedin_url = some "linkedin.com/in/";
  github_login = none;
}

contains_empty : (text : String) → texts.contains "" text ≡ true
contains_empty text = refl

empty_slug-auto_merge_example : should_auto_merge probable ≡ true
unfolding name_similarity confidence_of by_name corroborating_signals linkedin_name_match
    exact_match url_match
empty_slug-auto_merge_example =
    empty_slug-auto_merge texts contains_empty signals signals
      (probable, "name_fuzzy" ∷ "linkedin_name_match" ∷ []) refl refl refl refl refl

match_confidence-IsSure_example :
    (should_auto_merge full ≡ true)
    ↔ IsSure texts
        (extract_signals texts people.observations)
        (extract_signals texts people.observations)
unfolding match_confidence confidence_of exact_match extract_signals get_observation
match_confidence-IsSure_example =
    match_confidence-IsSure texts people.observations people.observations (full, "email_exact" ∷ [])
      refl
