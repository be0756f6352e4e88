-- ===== src/Identity/Alike.antt =====
-- When the tests of backend/app/identity/matchers.py find two texts, addresses or names the same.
use the_vc_brain.Prelude.{
  ℕ, ◌*◌, ◌^◌, ◌≤◌, ◌≡◌, ◌≢◌, ◌↔◌, inl, inr, refl, Bool, true, false, Option, none, some, String,
  str_eq, eq_iff, ◌&&◌, Bool-cases, leb, arith, sym, ◌∙◌, subst,
}
use the_vc_brain.Sla.{truthy}
use the_vc_brain.Identity.{Attempt, returned, threw, and_then}
use the_vc_brain.Identity.Matchers.{
  Texts, name_threshold, exact_match, normalize_url, url_match, name_similarity,
}

leb-le : (m n : ℕ) → leb m n ≡ true → m ≤ n
leb-le m n e = ground arith

le-leb : (m n : ℕ) → m ≤ n → leb m n ≡ true
le-leb m n h = ground arith

pub differs : (a b : String) → str_eq a b ≡ false → a ≢ b
differs a b e h = cc ((eq_iff a b).1 h)

pub named-truthy : (text : String) → text ≢ "" → truthy (some text) ≡ true
named-truthy text n = elim (Bool-cases (str_eq text "")) [
  | inl e ↦ absurd (n ((eq_iff text "").0 e))
  | inr e ↦ rw e
]

pub truthy-named : (text : String) → truthy (some text) ≡ true → text ≢ ""
truthy-named text e = elim (Bool-cases (str_eq text "")) [
  | inl h ↦ cc (rw h at e)
  | inr h ↦ differs text "" h
]

both : (a b : Bool) → (a && b) ≡ true → (a ≡ true) × (b ≡ true)
both true true e = (refl, refl)
both true false e = cc e
both false b e = cc e

module _ (texts : Texts) where
  -- Two texts that are not empty, and that are the same when they are trimmed and in lower case.
  pub record Same (a b : Option String) : Type 0 where
    pub left : String
    pub right : String
    pub is_left : a ≡ some left
    pub is_right : b ≡ some right
    pub left_named : left ≢ ""
    pub right_named : right ≢ ""
    pub alike : texts.lower (texts.strip left) ≡ texts.lower (texts.strip right)

  -- Two addresses that are not empty and have one normalized form.
  pub record SameSite (a b : Option String) : Type 0 where
    pub left : String
    pub right : String
    pub is_left : a ≡ some left
    pub is_right : b ≡ some right
    pub left_named : left ≢ ""
    pub right_named : right ≢ ""
    pub site : String
    pub left_site : normalize_url texts left ≡ returned site
    pub right_site : normalize_url texts right ≡ returned site

  -- Two names that are not empty and of which `token_sort_ratio` is at least 90.
  pub record Alike (a b : Option String) : Type 0 where
    pub left : String
    pub right : String
    pub is_left : a ≡ some left
    pub is_right : b ≡ some right
    pub left_named : left ≢ ""
    pub right_named : right ≢ ""
    pub ratio :
        90 * 2 ^ 1074
        ≤ texts.token_sort_ratio
            (texts.lower (texts.without_accents left))
            (texts.lower (texts.without_accents right))

  pub exact_match-Same : (a b : Option String) → (exact_match texts a b ≡ true) ↔ Same a b
  unfolding exact_match
  exact_match-Same none b = (λ e. cc e, λ h. cc (h.is_left))
  exact_match-Same (some x) none =
      (λ e. cc (both (truthy (some x)) false e).1, λ h. cc (h.is_right))
  exact_match-Same (some x) (some y) = (
    λ e.
        let (named_x, rest) = both _ _ e in
        let (named_y, same) = both _ _ rest in
        record {
          left = x;
          right = y;
          is_left = refl;
          is_right = refl;
          left_named = truthy-named x named_x;
          right_named = truthy-named y named_y;
          alike = (eq_iff _ _).0 same;
        },
    λ h.
        let left : h.left ≡ x = cc (h.is_left) in
        let right : h.right ≡ y = cc (h.is_right) in
        let named_x = named-truthy x (subst (λ t. t ≢ "") left h.left_named) in
        let named_y = named-truthy y (subst (λ t. t ≢ "") right h.right_named) in
        let same : texts.lower (texts.strip x) ≡ texts.lower (texts.strip y) =
          rw (← left, ← right) h.alike in
        rw (named_x, named_y, (eq_iff _ _).1 same),
  )

  unnamed : (a b : Option String) → (truthy a && truthy b) ≡ false → name_similarity texts a b ≡ 0
  unfolding name_similarity
  unnamed a b e = rw e

  pub name_similarity-Alike :
      (a b : Option String) → (leb name_threshold (name_similarity texts a b) ≡ true) ↔ Alike a b
  unfolding name_similarity
  name_similarity-Alike none b = (λ e. cc e, λ h. cc (h.is_left))
  name_similarity-Alike (some x) none = (λ e. absurd (low e), λ h. cc (h.is_right))
    where
      low : leb name_threshold (name_similarity texts (some x) none) ≡ true → ⊥
      low e = elim (Bool-cases (truthy (some x))) [
        | inl t ↦ cc (rw t at e)
        | inr t ↦ cc (rw t at e)
      ]
  name_similarity-Alike (some x) (some y) = (to, from)
    where
      to :
          leb name_threshold (name_similarity texts (some x) (some y)) ≡ true
          → Alike (some x) (some y)
      to e = elim (Bool-cases (truthy (some x) && truthy (some y))) [
        | inr t ↦ cc (rw t at e)
        | inl t ↦
            let (named_x, named_y) = both _ _ t in
            record {
              left = x;
              right = y;
              is_left = refl;
              is_right = refl;
              left_named = truthy-named x named_x;
              right_named = truthy-named y named_y;
              ratio = leb-le _ _ (rw t at e);
            }
      ]

      from :
          Alike (some x) (some y)
          → leb name_threshold (name_similarity texts (some x) (some y)) ≡ true
      from h =
          let left : h.left ≡ x = cc (h.is_left) in
          let right : h.right ≡ y = cc (h.is_right) in
          let named_x = named-truthy x (subst (λ t. t ≢ "") left h.left_named) in
          let named_y = named-truthy y (subst (λ t. t ≢ "") right h.right_named) in
          rw (named_x, named_y, ← left, ← right) (le-leb _ _ h.ratio)

  from_sites :
      (x y : String) (r t : Attempt String) (same : Bool)
      → normalize_url texts x ≡ r
      → normalize_url texts y ≡ t
      → x ≢ ""
      → y ≢ ""
      → and_then r (λ (u : String). and_then t (λ (v : String). returned (str_eq u v)))
        ≡ returned same
      → (same ≡ true) ↔ SameSite (some x) (some y)
  from_sites x y (threw failure) t same e f n m g = cc g
  from_sites x y (returned u) (threw failure) same e f n m g = cc g
  from_sites x y (returned u) (returned v) same e f n m g =
      let answer : str_eq u v ≡ same = cc g in
      (
        λ h.
            let equal : u ≡ v = (eq_iff u v).0 (answer ∙ h) in
            record {
              left = x;
              right = y;
              is_left = refl;
              is_right = refl;
              left_named = n;
              right_named = m;
              site = u;
              left_site = e;
              right_site = rw equal f;
            },
        λ h.
            let left : h.left ≡ x = cc (h.is_left) in
            let right : h.right ≡ y = cc (h.is_right) in
            let first : u ≡ h.site = cc (e, h.left_site, left) in
            let second : v ≡ h.site = cc (f, h.right_site, right) in
            sym answer ∙ (eq_iff u v).1 (first ∙ sym second),
      )

  unmatched :
      (a b : Option String) (same : Bool)
      → (truthy a && truthy b) ≡ false
      → url_match texts a b ≡ returned same
      → same ≡ false
  unfolding url_match
  unmatched a b same t e = sym (cc (rw t at e))

  pub url_match-SameSite :
      (a b : Option String) (same : Bool)
      → url_match texts a b ≡ returned same
      → (same ≡ true) ↔ SameSite a b
  unfolding url_match
  url_match-SameSite none b same e =
      (λ h. cc (unmatched none b same refl e, h), λ h. cc (h.is_left))
  url_match-SameSite (some x) none same e = (λ h. absurd (never h), λ h. cc (h.is_right))
    where
      never : same ≡ true → ⊥
      never h = elim (Bool-cases (truthy (some x))) [
        | inl t ↦ cc (rw t at e, h)
        | inr t ↦ cc (rw t at e, h)
      ]
  url_match-SameSite (some x) (some y) same e =
      elim (Bool-cases (truthy (some x) && truthy (some y))) [
        | inl t ↦
            let (named_x, named_y) = both _ _ t in
            from_sites x y _ _ same refl refl (truthy-named x named_x) (truthy-named y named_y)
              (rw t at e)
        | inr t ↦ (λ h. cc (rw t at e, h), λ h. absurd (unnamed_site t h))
      ]
    where
      unnamed_site : (truthy (some x) && truthy (some y)) ≡ false → SameSite (some x) (some y) → ⊥
      unnamed_site t h =
          let left : h.left ≡ x = cc (h.is_left) in
          let right : h.right ≡ y = cc (h.is_right) in
          let named_x = named-truthy x (subst (λ t. t ≢ "") left h.left_named) in
          let named_y = named-truthy y (subst (λ t. t ≢ "") right h.right_named) in
          cc (rw (named_x, named_y) at t)
