-- ===== src/Prelude/Rows.antt =====
-- Tables as lists of rows: what an UPDATE, a DELETE and a lookup by key keep.
use the_vc_brain.Prelude.Core.{
  ℕ, ◌≡◌, ◌≢◌, refl, Bool, true, false, some, List, [], ◌∷◌, ◌==◌, Bool-cases, inl, inr, find, keep,
  update_where, All, sym, arith,
}

module _ {ℓ} {A : Type ℓ} where
  pub All-update_where {κ} :
      (P Q : A → Type κ) (p : A → Bool) (f : A → A)
      → ((x : A) → p x ≡ true → P x → Q (f x))
      → ((x : A) → p x ≡ false → P x → Q x)
      → (xs : List A) → All P xs
      → All Q (update_where p f xs)
  All-update_where P Q p f hit miss [] h = h
  All-update_where P Q p f hit miss (x ∷ xs) h = elim (Bool-cases (p x)) [
    | inl e ↦ rw e (hit x e h.0, All-update_where P Q p f hit miss xs h.1)
    | inr e ↦ rw e (miss x e h.0, All-update_where P Q p f hit miss xs h.1)
  ]

  pub All-keep {κ} :
      (P Q : A → Type κ) (p : A → Bool)
      → ((x : A) → p x ≡ true → P x → Q x)
      → (xs : List A) → All P xs
      → All Q (keep p xs)
  All-keep P Q p hit [] h = h
  All-keep P Q p hit (x ∷ xs) h = elim (Bool-cases (p x)) [
    | inl e ↦ rw e (hit x e h.0, All-keep P Q p hit xs h.1)
    | inr e ↦ rw e (All-keep P Q p hit xs h.1)
  ]

  pub All-map {κ} : (P Q : A → Type κ) → ((x : A) → P x → Q x) → (xs : List A) → All P xs → All Q xs
  All-map P Q f [] h = h
  All-map P Q f (x ∷ xs) h = (f x h.0, All-map P Q f xs h.1)

  pub All-find {κ} :
      (P : A → Type κ) (p : A → Bool) (xs : List A) {x : A}
      → All P xs
      → find p xs ≡ some x
      → P x × (p x ≡ true)
  All-find P p [] h e = cc e
  All-find P p (y ∷ ys) {x} h e = elim (Bool-cases (p y)) [
    | inl t ↦ let same : y ≡ x = cc (rw t at e) in (rw (sym same) h.0, rw (sym same) t)
    | inr t ↦ All-find P p ys h.1 (rw t at e)
  ]

  pub find-passes : (p : A → Bool) (xs : List A) {x : A} → find p xs ≡ some x → p x ≡ true
  find-passes p [] e = cc e
  find-passes p (y ∷ ys) {x} e = elim (Bool-cases (p y)) [
    | inl t ↦ let same : y ≡ x = cc (rw t at e) in rw (sym same) t
    | inr t ↦ find-passes p ys (rw t at e)
  ]

  -- a test that the new value fails, no row passes afterwards
  pub update_where-clears :
      (p : A → Bool) (f : A → A)
      → ((x : A) → p (f x) ≡ false)
      → (xs : List A) → All (λ (x : A). p x ≡ false) (update_where p f xs)
  update_where-clears p f h [] = tt
  update_where-clears p f h (x ∷ xs) = elim (Bool-cases (p x)) [
    | inl e ↦ rw e (h x, update_where-clears p f h xs)
    | inr e ↦ rw e (e, update_where-clears p f h xs)
  ]

module _ {ℓ} {A : Type ℓ} (key : A → ℕ) (f : A → A) (same : (x : A) → key (f x) ≡ key x) where
  pub find-update_where :
      (i : ℕ) (xs : List A) {x : A}
      → find (λ y. key y == i) xs ≡ some x
      → find (λ y. key y == i) (update_where (λ y. key y == i) f xs) ≡ some (f x)
  find-update_where i [] e = cc e
  find-update_where i (y ∷ ys) {x} e = elim (Bool-cases (key y == i)) [
    | inl t ↦ let found : y ≡ x = cc (rw t at e) in rw (t, same y, t, found)
    | inr t ↦ rw (t, t) (find-update_where i ys (rw t at e))
  ]

  pub find-update_where-other :
      (i j : ℕ)
      → i ≢ j
      → (xs : List A)
      → find (λ y. key y == i) (update_where (λ y. key y == j) f xs) ≡ find (λ y. key y == i) xs
  find-update_where-other i j h [] = refl
  find-update_where-other i j h (y ∷ ys) = elim (Bool-cases (key y == j)) [
    | inl t ↦
        let other : (key y == i) ≡ false = ground arith in
        rw (t, same y, other) (find-update_where-other i j h ys)
    | inr t ↦ rw (t, find-update_where-other i j h ys)
  ]

module _ {ℓ} {A : Type ℓ} (key : A → ℕ) where
  -- the row that is saved under its key is found there
  pub find-save :
      (i : ℕ) (xs : List A) {x : A} (x' : A)
      → find (λ y. key y == i) xs ≡ some x
      → key x' ≡ i
      → find (λ y. key y == i) (update_where (λ y. key y == key x') (λ y. x') xs) ≡ some x'
  find-save i [] x' e k = cc e
  find-save i (y ∷ ys) x' e k = elim (Bool-cases (key y == i)) [
    | inl t ↦
        let own : (key y == key x') ≡ true = ground arith in
        let here : (key x' == i) ≡ true = ground arith in rw (own, here)
    | inr t ↦
        let other : (key y == key x') ≡ false = ground arith in
        rw (other, t) (find-save i ys x' (rw t at e) k)
  ]
