-- ===== src/Dedup.antt =====
-- backend/app/processing/dedup.py: near-duplicate claims of a person are superseded by newer ones. The
-- table of claims is passed and returned. The embedding of an observation and the cosine of two
-- embeddings, which is computed in floats, are arguments; a cosine is counted in units of 2 ^ -1074.
pub mod Merged
use the_vc_brain.Prelude.{
  ℕ, ◌+◌, ◌*◌, ◌^◌, Bool, true, false, Option, none, some, List, [], ◌∷◌, String, str_eq, ◌==◌,
  ◌&&◌, ◌||◌, not, if◌then◌else◌, any, keep, update_where, length, leb, ltb, ℤ, pos, leb_ℤ,
}
use the_vc_brain.Pipeline.{Claim, equals, is_null}

-- 0.92
abbrev pub duplicate_threshold : ℤ
duplicate_threshold = pos (8286623314361713 * 2 ^ 1021)

-- `ORDER BY created_at DESC`
abbrev pub insert_newest : Claim → List Claim → List Claim
insert_newest c [] = c ∷ []
insert_newest c (d ∷ rest) =
    let more = insert_newest c rest in
    if leb d.created_at c.created_at then c ∷ d ∷ rest else d ∷ more

abbrev pub newest_first : List Claim → List Claim
newest_first [] = []
newest_first (c ∷ rest) = insert_newest c (newest_first rest)

unfoldable pub live_claims : List Claim → ℕ → List Claim
live_claims claims person_id =
    newest_first
      (keep (λ (c : Claim). equals c.subject_id person_id && is_null c.supersession_id) claims)

-- The table, the ids of `superseded` and the counter.
pub record Pass : Type 0 where
  pub claims : List Claim
  pub superseded : List ℕ
  pub deduplicated : ℕ

abbrev pub is_superseded : Claim → Pass → Bool
is_superseded c p = any (λ id. c.id == id) p.superseded

abbrev pub same_opportunity : Option ℕ → Option ℕ → Bool
same_opportunity none none = true
same_opportunity none (some b) = false
same_opportunity (some a) none = false
same_opportunity (some a) (some b) = a == b

-- the assignments to the older claim
abbrev pub replaced_by : Claim → Claim → Claim
replaced_by a b = record b { supersession_id = some a.id; valid_time_end = some a.valid_time_start }

unfoldable pub supersede : Claim → Claim → Pass → Pass
supersede a b p = record {
  claims = update_where (λ (c : Claim). c.id == b.id) (replaced_by a) p.claims;
  superseded = b.id ∷ p.superseded;
  deduplicated = p.deduplicated + 1;
}

module _ {Vector : Type 0} (embedding : ℕ → Option Vector) (cosine : Vector → Vector → ℤ) where
  -- `claim_embeddings.get(claim.id)`; an observation without a vector, or with an empty one, has none
  abbrev pub first_embedding : List ℕ → Option Vector
  first_embedding [] = none
  first_embedding (id ∷ rest) = embedding id

  abbrev pub is_near : Vector → Option Vector → Bool
  is_near u none = false
  is_near u (some v) = leb_ℤ duplicate_threshold (cosine u v)

  -- the guards of the inner loop
  abbrev pub is_duplicate : Claim → Vector → Claim → Pass → Bool
  is_duplicate a u b p =
      not (is_superseded b p)
      && str_eq b.predicate a.predicate
      && same_opportunity b.opportunity_id a.opportunity_id
      && is_near u (first_embedding b.observation_ids)

  unfoldable pub compare_with : Claim → Vector → List Claim → Pass → Pass
  unfolding supersede
  compare_with a u [] p = p
  compare_with a u (b ∷ rest) p =
      compare_with a u rest (if is_duplicate a u b p then supersede a b p else p)

  abbrev pub compare_if : Claim → Option Vector → List Claim → Pass → Pass
  compare_if a none rest p = p
  compare_if a (some u) rest p = compare_with a u rest p

  unfoldable pub compare_all : List Claim → Pass → Pass
  unfolding compare_with
  compare_all [] p = p
  compare_all (a ∷ rest) p =
      compare_all rest
        (if is_superseded a p then p else compare_if a (first_embedding a.observation_ids) rest p)

  -- the table afterwards and the number that is returned
  unfoldable pub deduplicate_claims : List Claim → ℕ → List Claim × ℕ
  unfolding compare_all live_claims
  deduplicate_claims claims person_id =
      let live = live_claims claims person_id in
      let start : Pass = record { claims = claims; superseded = []; deduplicated = 0 } in
      let pass = compare_all live start in
      if ltb (length live) 2 then (claims, 0) else (pass.claims, pass.deduplicated)
