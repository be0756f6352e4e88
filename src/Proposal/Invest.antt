-- ===== src/Proposal/Invest.antt =====
-- When a proposal of backend/app/decision_proposal.py is to invest.
use the_vc_brain.Prelude.{
  ℕ, ◌+◌, ◌≡◌, inl, inr, refl, Bool, true, false, Option, none, some, List, [], ◌∷◌, ◌++◌, ◌==◌,
  String, str_eq, ◌&&◌, if◌then◌else◌, Bool-cases, any, all, is_some, length, length-append, suc,
  sym, ◌∙◌, ap, arith, ==_iff,
}
use the_vc_brain.Decision.{invest, hold_proposed, investigate}
use the_vc_brain.Proposal.{
  Axis, founder_axis, market_axis, idea_market_axis, axes, same_axis, Assessment, ByAxis, assessed,
  ProposalInput, canonical_among, add_assessment, collect, ratings, action_of,
  build_decision_proposal,
}
use the_vc_brain.Proposal.Ready.{assessed-append, or_false}

abbrev bit : Bool → ℕ
bit test = if test then 1 else 0

abbrev has : Axis → ByAxis → Bool
has axis by_axis = is_some (assessed axis by_axis)

-- an entry for each axis that is assessed, and no other
abbrev IsFull : ByAxis → Type 0
IsFull by_axis =
    length by_axis
    ≡ bit (has founder_axis by_axis)
      + bit (has market_axis by_axis)
      + bit (has idea_market_axis by_axis)

append-IsFull :
    (other : Axis) (a : Assessment) (by_axis : ByAxis)
    → has other by_axis ≡ false
    → IsFull by_axis
    → IsFull (by_axis ++ (other, a) ∷ [])
append-IsFull founder_axis a by_axis e h =
    let before = rw e at h in
    rw
      (
        length-append by_axis ((founder_axis, a) ∷ []),
        assessed-append founder_axis founder_axis by_axis a,
        assessed-append market_axis founder_axis by_axis a,
        assessed-append idea_market_axis founder_axis by_axis a,
        e,
        or_false,
        or_false,
      )
      (omega (arith, before))
append-IsFull market_axis a by_axis e h =
    let before = rw e at h in
    rw
      (
        length-append by_axis ((market_axis, a) ∷ []),
        assessed-append founder_axis market_axis by_axis a,
        assessed-append market_axis market_axis by_axis a,
        assessed-append idea_market_axis market_axis by_axis a,
        e,
        or_false,
        or_false,
      )
      (omega (arith, before))
append-IsFull idea_market_axis a by_axis e h =
    let before = rw e at h in
    rw
      (
        length-append by_axis ((idea_market_axis, a) ∷ []),
        assessed-append founder_axis idea_market_axis by_axis a,
        assessed-append market_axis idea_market_axis by_axis a,
        assessed-append idea_market_axis idea_market_axis by_axis a,
        e,
        or_false,
        or_false,
      )
      (omega (arith, before))

module _ (casefold : String → String) where
  add_assessment-IsFull :
      (found : Option Axis) (a : Assessment) (by_axis : ByAxis)
      → IsFull by_axis
      → IsFull (add_assessment casefold found a by_axis)
  add_assessment-IsFull none a by_axis h = h
  add_assessment-IsFull (some axis) a by_axis h = elim (Bool-cases (has axis by_axis)) [
    | inl e ↦ rw e h
    | inr e ↦ rw e (append-IsFull axis a by_axis e h)
  ]

  collect-IsFull :
      (assessments : List Assessment) (by_axis : ByAxis)
      → IsFull by_axis
      → IsFull (collect casefold assessments by_axis)
  unfolding collect
  collect-IsFull [] by_axis h = h
  collect-IsFull (a ∷ rest) by_axis h =
      collect-IsFull rest _ (add_assessment-IsFull (canonical_among casefold axes a) a by_axis h)

  length-ratings : (by_axis : ByAxis) → length (ratings casefold by_axis) ≡ length by_axis
  length-ratings [] = refl
  length-ratings (x ∷ rest) = ap suc (length-ratings rest)

  all_three : (f m i : Bool) → bit f + bit m + bit i ≡ 3 → (f ≡ true) × (m ≡ true) × (i ≡ true)
  all_three true true true e = (refl, refl, refl)
  all_three true true false e = absurd (omega (arith, e))
  all_three true false true e = absurd (omega (arith, e))
  all_three true false false e = absurd (omega (arith, e))
  all_three false true true e = absurd (omega (arith, e))
  all_three false true false e = absurd (omega (arith, e))
  all_three false false true e = absurd (omega (arith, e))
  all_three false false false e = absurd (omega (arith, e))

  abbrev pub is_bullish : Assessment → Bool
  is_bullish a = str_eq (casefold a.rating) "bullish"

  bullish_at :
      (axis : Axis) (by_axis : ByAxis)
      → has axis by_axis ≡ true
      → all (λ r. str_eq r "bullish") (ratings casefold by_axis) ≡ true
      → (a : Assessment) × (assessed axis by_axis ≡ some a) × (is_bullish a ≡ true)
  bullish_at axis [] e h = cc e
  bullish_at axis ((x, b) ∷ rest) e h =
      let (here, later) = both (is_bullish b) _ h in
      elim (Bool-cases (same_axis x axis)) [
        | inl t ↦ rw t (b, refl, here)
        | inr t ↦ rw t (bullish_at axis rest (rw t at e) later)
      ]
    where
      both : (p q : Bool) → (p && q) ≡ true → (p ≡ true) × (q ≡ true)
      both true true e = (refl, refl)
      both true false e = cc e
      both false q e = cc e

  three_bullish :
      (by_axis : ByAxis)
      → IsFull by_axis
      → (length (ratings casefold by_axis) == 3
          && all (λ r. str_eq r "bullish") (ratings casefold by_axis))
        ≡ true
      → (axis : Axis) → (a : Assessment) × (assessed axis by_axis ≡ some a) × (is_bullish a ≡ true)
  three_bullish by_axis full e axis = elim (Bool-cases (length (ratings casefold by_axis) == 3)) [
    | inr t ↦ cc (rw t at e)
    | inl t ↦
        let count : length (ratings casefold by_axis) ≡ 3 = (==_iff _ 3).0 t in
        let sum : bit (has founder_axis by_axis)
              + bit (has market_axis by_axis)
              + bit (has idea_market_axis by_axis)
            ≡ 3 =
          sym full ∙ sym (length-ratings by_axis) ∙ count in
        let (f, m, i) = all_three _ _ _ sum in
        bullish_at axis by_axis (present axis f m i) (rw t at e)
  ]
    where
      present :
          (x : Axis)
          → has founder_axis by_axis ≡ true
          → has market_axis by_axis ≡ true
          → has idea_market_axis by_axis ≡ true
          → has x by_axis ≡ true
      present founder_axis f m i = f
      present market_axis f m i = m
      present idea_market_axis f m i = i

  -- A proposal for which the caller names no action is to invest only if, for each of the three axes,
  -- the assessment that it takes for the axis is there and is bullish up to case.
  pub build_decision_proposal-invest :
      (mean : List ℕ → ℕ) (input : ProposalInput)
      → input.action ≡ none
      → (build_decision_proposal casefold mean input).action ≡ invest
      → (axis : Axis)
      → (a : Assessment) × (assessed axis (collect casefold input.assessments []) ≡ some a)
        × (is_bullish a ≡ true)
  unfolding build_decision_proposal action_of
  build_decision_proposal-invest mean input unnamed e axis =
      let by_axis = collect casefold input.assessments [] in
      let rated = ratings casefold by_axis in
      elim (Bool-cases (any (str_eq "bearish") rated)) [
        | inl b ↦ absurd (held (rw (unnamed, b) at e))
        | inr b ↦ elim (Bool-cases (length rated == 3 && all (λ r. str_eq r "bullish") rated)) [
          | inl t ↦ three_bullish by_axis (collect-IsFull input.assessments [] refl) t axis
          | inr t ↦ absurd (probed (rw (unnamed, b, t) at e))
        ]
      ]
    where
      held : hold_proposed ≡ invest → ⊥
      held q = cc q

      probed : investigate ≡ invest → ⊥
      probed q = cc q
