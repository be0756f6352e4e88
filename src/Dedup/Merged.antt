-- ===== src/Dedup/Merged.antt =====
-- What backend/app/processing/dedup.py may do to the claims of a person.
use the_vc_brain.Prelude.{
  ℕ, ◌≡◌, true, false, Option, none, some, List, [], ◌∷◌, str_eq, ◌==◌, All, ◌≤◌, ℤ, ◌⊎◌,
}
use the_vc_brain.Pipeline.{Claim}
use the_vc_brain.Dedup.{Pass, is_superseded, same_opportunity, supersede}

-- the claim comes before another one: another id, and created no earlier
abbrev pub Precedes : Claim → Claim → Type 0
Precedes a c = ((a.id == c.id) ≡ false) × (c.created_at ≤ a.created_at)

abbrev Apart : Claim → List Claim → Type 0
Apart a rows = All (Precedes a) rows

abbrev Ordered : List Claim → Type 0
Ordered [] = Unit
Ordered (c ∷ rows) = Apart c rows × Ordered rows

-- the id is a primary key
abbrev pub Keyed : List Claim → Type 0
Keyed [] = Unit
Keyed (c ∷ rows) = All (λ (d : Claim). (c.id == d.id) ≡ false) rows × Keyed rows

-- the older claim `b` may give way to `a`: neither is superseded, and they state the same predicate of
-- the same deal; both are eligible
pub record Fits (Eligible : Claim → Type 0) (a b : Claim) (p : Pass) : Type 0 where
  pub newer_eligible : Eligible a
  pub older_eligible : Eligible b
  pub newer_live : is_superseded a p ≡ false
  pub older_live : is_superseded b p ≡ false
  pub predicate : str_eq b.predicate a.predicate ≡ true
  pub no_later : b.created_at ≤ a.created_at
  pub opportunity : same_opportunity b.opportunity_id a.opportunity_id ≡ true

abbrev pub Pair : Type 0
Pair = Claim × Claim

-- the pairs of a newer and an older claim that were merged, the last one first
pub data Merges (Eligible : Claim → Type 0) (start : Pass) : List Pair → Pass → Type 0 where
  begin : Merges Eligible start [] start
  merge :
      (pairs : List Pair) (p : Pass) (a b : Claim)
      → Merges Eligible start pairs p
      → Fits Eligible a b p
      → Merges Eligible start ((a, b) ∷ pairs) (supersede a b p)

-- The newer claims that stay live and are not among the claims to come.
abbrev IsKept : Pass → List Claim → Pair → Type 0
IsKept p rows x = (is_superseded x.0 p ≡ false) × Apart x.0 rows

abbrev IsAhead : Pass → List Claim → List Claim → Pair → Type 0
IsAhead p rows rest x = IsKept p rows x × Apart x.0 rest

module _ {Vector : Type 0} (embedding : ℕ → Option Vector) (cosine : Vector → Vector → ℤ)
    (Eligible : Claim → Type 0) (start : Pass) where
  -- what a loop leaves: merges from the start, whose newer claims are all kept
  abbrev IsReached : List Claim → Pass → Type 0
  IsReached rows q = (pairs : List Pair) × Merges Eligible start pairs q × All (IsKept q rows) pairs

abbrev pub Listed : Claim → List Claim → Type 0
Listed c [] = ⊥
Listed c (d ∷ rows) = (c ≡ d) ⊎ Listed c rows

-- a row of the table that is of the person and that no other claim has replaced
pub record IsLive (claims : List Claim) (person_id : ℕ) (c : Claim) : Type 0 where
  pub listed : Listed c claims
  pub subject : c.subject_id ≡ some person_id
  pub current : c.supersession_id ≡ none
