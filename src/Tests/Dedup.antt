-- ===== src/Tests/Dedup.antt =====
-- Two claims of one person that say the same, for the theorem on backend/app/processing/dedup.py.
use the_vc_brain.Prelude.{ℕ, ◌≡◌, refl, Option, none, some, List, [], ◌∷◌, ℤ}
use the_vc_brain.Pipeline.{Claim}
use the_vc_brain.Dedup.{deduplicate_claims, duplicate_threshold}

abbrev claim : ℕ → ℕ → Claim
claim id created_at = record {
  id = id;
  observation_ids = id ∷ [];
  subject_id = some 7;
  opportunity_id = none;
  predicate = "company";
  status = "supported";
  valid_time_start = created_at;
  valid_time_end = none;
  supersession_id = none;
  created_at = created_at;
}

abbrev claims : List Claim
claims = claim 1 10 ∷ claim 2 20 ∷ []

abbrev embedding : ℕ → Option ℕ
embedding id = some id

abbrev cosine : ℕ → ℕ → ℤ
cosine a b = duplicate_threshold

one_is_superseded : (deduplicate_claims embedding cosine claims 7).1 ≡ 1
unfolding deduplicate_claims
one_is_superseded = refl
