-- ===== src/Proposal/Ready.antt =====
-- When a proposal of backend/app/decision_proposal.py is ready.
use the_vc_brain.Prelude.{
  ℕ, ◌≡◌, inl, inr, refl, Bool, true, false, Option, none, some, List, [], ◌∷◌, ◌++◌, String,
  str_eq, eq_iff, ◌&&◌, ◌||◌, Bool-cases, any, all, is_some, sym, ◌∙◌, ap, subst,
}
use the_vc_brain.Proposal.{
  Axis, founder_axis, market_axis, idea_market_axis, axis_text, axes, same_axis, Assessment, ByAxis,
  assessed, ProposalInput, names, canonical_among, add_assessment, collect, readiness,
  readiness_blockers_of, build_decision_proposal,
}

pub assessed-append :
    (axis other : Axis) (by_axis : ByAxis) (a : Assessment)
    → is_some (assessed axis (by_axis ++ (other, a) ∷ []))
      ≡ (is_some (assessed axis by_axis) || same_axis other axis)
assessed-append axis other [] a = elim (Bool-cases (same_axis other axis)) [
  | inl e ↦ rw e
  | inr e ↦ rw e
]
assessed-append axis other ((x, b) ∷ by_axis) a = elim (Bool-cases (same_axis x axis)) [
  | inl e ↦ rw e
  | inr e ↦ rw e (assessed-append axis other by_axis a)
]

same_axis_comm : (a b : Axis) → same_axis a b ≡ same_axis b a
same_axis_comm founder_axis founder_axis = refl
same_axis_comm founder_axis market_axis = refl
same_axis_comm founder_axis idea_market_axis = refl
same_axis_comm market_axis founder_axis = refl
same_axis_comm market_axis market_axis = refl
same_axis_comm market_axis idea_market_axis = refl
same_axis_comm idea_market_axis founder_axis = refl
same_axis_comm idea_market_axis market_axis = refl
same_axis_comm idea_market_axis idea_market_axis = refl

same_axis_eq : (a b : Axis) → same_axis a b ≡ true → a ≡ b
same_axis_eq founder_axis founder_axis e = refl
same_axis_eq market_axis market_axis e = refl
same_axis_eq idea_market_axis idea_market_axis e = refl
same_axis_eq _ _ e = cc e

or_assoc : (a b c : Bool) → ((a || b) || c) ≡ (a || (b || c))
or_assoc true b c = refl
or_assoc false b c = refl

pub or_false : (a : Bool) → (a || false) ≡ a
or_false true = refl
or_false false = refl

module _ (casefold : String → String)
    (separate : (a b : Axis)
      → str_eq (casefold (axis_text a)) (casefold (axis_text b)) ≡ same_axis a b) where
  names-same :
      (x y : Axis) (a : Assessment) → names casefold x a ≡ true → names casefold y a ≡ same_axis y x
  names-same x y a e =
      let same : casefold (axis_text x) ≡ casefold a.axis = (eq_iff _ _).0 e in
      rw (← same) (separate y x)

  abbrev covers : Axis → Option Axis → Bool
  covers axis none = false
  covers axis (some other) = same_axis other axis

  canonical-names :
      (axis : Axis) (a : Assessment)
      → covers axis (canonical_among casefold axes a) ≡ names casefold axis a
  canonical-names axis a = elim (Bool-cases (names casefold founder_axis a)) [
    | inl f ↦ rw f (same_axis_comm founder_axis axis ∙ sym (names-same founder_axis axis a f))
    | inr f ↦ elim (Bool-cases (names casefold market_axis a)) [
      | inl m ↦ rw (f, m) (same_axis_comm market_axis axis ∙ sym (names-same market_axis axis a m))
      | inr m ↦ elim (Bool-cases (names casefold idea_market_axis a)) [
        | inl i ↦
            rw (f, m, i)
              (same_axis_comm idea_market_axis axis ∙ sym (names-same idea_market_axis axis a i))
        | inr i ↦ rw (f, m, i) (sym (nothing axis f m i))
      ]
    ]
  ]
    where
      nothing :
          (x : Axis)
          → names casefold founder_axis a ≡ false
          → names casefold market_axis a ≡ false
          → names casefold idea_market_axis a ≡ false
          → names casefold x a ≡ false
      nothing founder_axis f m i = f
      nothing market_axis f m i = m
      nothing idea_market_axis f m i = i

  add_assessment-assessed :
      (axis : Axis) (found : Option Axis) (a : Assessment) (by_axis : ByAxis)
      → is_some (assessed axis (add_assessment casefold found a by_axis))
        ≡ (is_some (assessed axis by_axis) || covers axis found)
  add_assessment-assessed axis none a by_axis = sym (or_false _)
  add_assessment-assessed axis (some other) a by_axis =
      elim (Bool-cases (is_some (assessed other by_axis))) [
        | inr e ↦ rw e (assessed-append axis other by_axis a)
        | inl e ↦ elim (Bool-cases (same_axis other axis)) [
          | inl s ↦
              let there : is_some (assessed axis by_axis) ≡ true =
                subst (λ x. is_some (assessed x by_axis) ≡ true) (same_axis_eq other axis s) e in
              rw (e, there)
          | inr s ↦ rw (e, s) (sym (or_false _))
        ]
      ]

  collect-assessed :
      (axis : Axis) (assessments : List Assessment) (by_axis : ByAxis)
      → is_some (assessed axis (collect casefold assessments by_axis))
        ≡ (is_some (assessed axis by_axis) || any (names casefold axis) assessments)
  unfolding collect
  collect-assessed axis [] by_axis = sym (or_false _)
  collect-assessed axis (a ∷ rest) by_axis =
      collect-assessed axis rest _
      ∙ ap (λ t. t || any (names casefold axis) rest)
          (add_assessment-assessed axis (canonical_among casefold axes a) a by_axis
            ∙ ap (λ t. is_some (assessed axis by_axis) || t) (canonical-names axis a))
      ∙ or_assoc (is_some (assessed axis by_axis)) _ _

  blocked : (xs : List String) (x : String) → str_eq (readiness (xs ++ x ∷ [])) "ready" ≡ false
  blocked [] x = refl
  blocked (y ∷ xs) x = refl

  -- When casefolding keeps the names of the three axes apart, a proposal is ready exactly when each
  -- axis has an assessment whose axis is its name up to case, and the memo succeeded.
  pub build_decision_proposal-ready :
      (mean : List ℕ → ℕ) (input : ProposalInput)
      → str_eq (build_decision_proposal casefold mean input).readiness_status "ready" ≡ (
          all (λ axis. any (names casefold axis) input.assessments) axes
          && str_eq input.memo_status "succeeded")
  unfolding build_decision_proposal readiness_blockers_of
  build_decision_proposal-ready mean input =
      let by_axis = collect casefold input.assessments [] in
      let has = λ (axis : Axis). collect-assessed axis input.assessments [] in
      elim (Bool-cases (any (names casefold founder_axis) input.assessments)) [
        | inr f ↦ rw (has founder_axis, f)
        | inl f ↦ elim (Bool-cases (any (names casefold market_axis) input.assessments)) [
          | inr m ↦ rw (has founder_axis, f, has market_axis, m)
          | inl m ↦ elim (Bool-cases (any (names casefold idea_market_axis) input.assessments)) [
            | inr i ↦ rw (has founder_axis, f, has market_axis, m, has idea_market_axis, i)
            | inl i ↦ elim (Bool-cases (str_eq input.memo_status "succeeded")) [
              | inl k ↦ rw (has founder_axis, f, has market_axis, m, has idea_market_axis, i, k)
              | inr k ↦ rw (has founder_axis, f, has market_axis, m, has idea_market_axis, i, k)
            ]
          ]
        ]
      ]
