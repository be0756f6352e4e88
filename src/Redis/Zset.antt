-- ===== src/Redis/Zset.antt =====
-- Sorted sets as lists in ascending order of score, each member once: the documented commands run on
-- them, which shows that the laws of the interface to Redis can hold.
use mathlib.Core.Logic.{ite}
use the_vc_brain.Prelude.{
  ℕ, zero, suc, ◌<◌, ◌≡◌, ◌≢◌, refl, ◌⊎◌, inl, inr, Option, none, some, List, [], ◌∷◌, ℤ, ◌≤ℤ◌,
  leb_ℤ, length, All, take, drop, if◌then◌else◌, arith,
}

module _ {T : Type 0} (same : Discrete T) where
  abbrev pub lookup : T → List (T × ℤ) → Option ℤ
  lookup t [] = none
  lookup t ((u, s) ∷ l) = ite (same t u) (some s) (lookup t l)

  abbrev pub remove : T → List (T × ℤ) → List (T × ℤ)
  remove t [] = []
  remove t ((u, s) ∷ l) = let rest = remove t l in ite (same t u) rest ((u, s) ∷ rest)

  abbrev pub insert : T × ℤ → List (T × ℤ) → List (T × ℤ)
  insert e [] = e ∷ []
  insert e (f ∷ l) = let rest = insert e l in if leb_ℤ e.1 f.1 then e ∷ f ∷ l else f ∷ rest

  abbrev pub AtLeast : ℤ → List (T × ℤ) → Type 0
  AtLeast s l = All (λ (e : T × ℤ). s ≤ℤ e.1) l

  -- ascending, and no member twice
  abbrev pub IsZset : List (T × ℤ) → Type 0
  IsZset [] = Unit
  IsZset ((t, s) ∷ l) = (lookup t l ≡ none) × AtLeast s l × IsZset l

  pub lookup-remove_self : (t : T) (l : List (T × ℤ)) → lookup t (remove t l) ≡ none
  lookup-remove_self t [] = refl
  lookup-remove_self t ((u, s) ∷ l) = ground (arith, lookup-remove_self t l)

  pub lookup-remove_ne : (t u : T) (l : List (T × ℤ)) → u ≢ t → lookup u (remove t l) ≡ lookup u l
  lookup-remove_ne t u [] n = refl
  lookup-remove_ne t u ((v, s) ∷ l) n = ground (arith, lookup-remove_ne t u l n)

  pub lookup-insert_self :
      (t : T) (s : ℤ) (l : List (T × ℤ)) → lookup t l ≡ none → lookup t (insert (t, s) l) ≡ some s
  lookup-insert_self t s [] h = ground arith
  lookup-insert_self t s ((u, w) ∷ l) h = ground (arith, lookup-insert_self t s l)

  pub lookup-insert_ne :
      (t u : T) (s : ℤ) (l : List (T × ℤ)) → u ≢ t → lookup u (insert (t, s) l) ≡ lookup u l
  lookup-insert_ne t u s [] n = ground arith
  lookup-insert_ne t u s ((v, w) ∷ l) n = ground (arith, lookup-insert_ne t u s l n)

  AtLeast-remove : (s : ℤ) (t : T) (l : List (T × ℤ)) → AtLeast s l → AtLeast s (remove t l)
  AtLeast-remove s t [] h = tt
  AtLeast-remove s t ((u, w) ∷ l) h = ground (arith, AtLeast-remove s t l h.1)

  AtLeast-insert :
      (s : ℤ) (e : T × ℤ) (l : List (T × ℤ)) → s ≤ℤ e.1 → AtLeast s l → AtLeast s (insert e l)
  AtLeast-insert s e [] le h = (le, tt)
  AtLeast-insert s e (f ∷ l) le h = ground (arith, AtLeast-insert s e l le h.1)

  AtLeast-le : (s w : ℤ) (l : List (T × ℤ)) → s ≤ℤ w → AtLeast w l → AtLeast s l
  AtLeast-le s w [] le h = tt
  AtLeast-le s w (e ∷ l) le h = (omega arith, AtLeast-le s w l le h.1)

  pub remove-IsZset : (t : T) (l : List (T × ℤ)) → IsZset l → IsZset (remove t l)
  remove-IsZset t [] h = tt
  remove-IsZset t ((u, s) ∷ l) h =
      ground (arith, remove-IsZset t l h.2, AtLeast-remove s t l h.1, lookup-remove_ne t u l)

  pub insert-IsZset :
      (t : T) (s : ℤ) (l : List (T × ℤ)) → lookup t l ≡ none → IsZset l → IsZset (insert (t, s) l)
  insert-IsZset t s [] n h = (refl, tt, tt)
  insert-IsZset t s ((u, w) ∷ l) n h = ground (
    arith,
    insert-IsZset t s l,
    AtLeast-insert w (t, s) l,
    AtLeast-le s w l,
    lookup-insert_ne t u s l,
  )

  pub drop-IsZset : (n : ℕ) (l : List (T × ℤ)) → IsZset l → IsZset (drop n l)
  drop-IsZset zero l h = h
  drop-IsZset (suc n) [] h = tt
  drop-IsZset (suc n) (e ∷ l) h = drop-IsZset n l h.2

  abbrev pub In : T → List (T × ℤ) → Type 0
  In t [] = ⊥
  In t ((u, s) ∷ l) = (t ≡ u) ⊎ In t l

  lookup_at_least :
      (t : T) (s w : ℤ) (l : List (T × ℤ)) → AtLeast w l → lookup t l ≡ some s → w ≤ℤ s
  lookup_at_least t s w [] a h = cc
  lookup_at_least t s w ((u, v) ∷ l) a h = ground (arith, lookup_at_least t s w l a.1)

  lookup_All_cons :
      (u : T) (w : ℤ) (l m : List (T × ℤ))
      → lookup u m ≡ none
      → All (λ (e : T × ℤ). lookup e.0 m ≡ some e.1) l
      → All (λ (e : T × ℤ). lookup e.0 ((u, w) ∷ m) ≡ some e.1) l
  lookup_All_cons u w [] m n h = tt
  lookup_All_cons u w ((t, s) ∷ l) m n h = ground (arith, lookup_All_cons u w l m n h.1)

  pub lookup-take :
      (n : ℕ) (l : List (T × ℤ))
      → IsZset l
      → All (λ (e : T × ℤ). lookup e.0 l ≡ some e.1) (take n l)
  lookup-take zero l h = tt
  lookup-take (suc n) [] h = tt
  lookup-take (suc n) ((u, w) ∷ l) h =
      (ground arith, lookup_All_cons u w (take n l) l h.0 (lookup-take n l h.2))

  lookup-drop :
      (n : ℕ) (t : T) (s : ℤ) (l : List (T × ℤ))
      → IsZset l
      → lookup t (drop n l) ≡ some s
      → lookup t l ≡ some s
  lookup-drop zero t s l h e = e
  lookup-drop (suc n) t s [] h e = e
  lookup-drop (suc n) t s ((u, w) ∷ l) h e = ground (arith, lookup-drop n t s l h.2 e)

  take_le :
      (n : ℕ) (t : T) (s : ℤ) (l : List (T × ℤ))
      → IsZset l
      → lookup t (drop n l) ≡ some s
      → All (λ (e : T × ℤ). e.1 ≤ℤ s) (take n l)
  take_le zero t s l h e = tt
  take_le (suc n) t s [] h e = tt
  take_le (suc n) t s ((u, w) ∷ l) h e =
      (lookup_at_least t s w l h.1 (lookup-drop n t s l h.2 e), take_le n t s l h.2 e)

  pub drop_least :
      (n : ℕ) (t : T) (s : ℤ) (l : List (T × ℤ))
      → IsZset l
      → lookup t (drop n l) ≡ some s
      → (lookup t l ≡ some s) × All (λ (e : T × ℤ). e.1 ≤ℤ s) (take n l)
  drop_least n t s l h e = (lookup-drop n t s l h e, take_le n t s l h e)

  pub drop_keeps :
      (n : ℕ) (t : T) (s : ℤ) (l : List (T × ℤ))
      → lookup t l ≡ some s
      → In t (take n l) ⊎ (lookup t (drop n l) ≡ some s)
  drop_keeps zero t s l e = inr e
  drop_keeps (suc n) t s [] e = inr e
  drop_keeps (suc n) t s ((u, w) ∷ l) e = elim (same t u) [
    | yes p ↦ inl (inl p)
    | no q ↦ elim (drop_keeps n t s l (ground arith)) [ inl i ↦ inl (inr i) | inr k ↦ inr k ]
  ]

  abbrev pub Ascending : List (T × ℤ) → Type 0
  Ascending [] = Unit
  Ascending ((t, s) ∷ l) = All (λ (e : T × ℤ). s ≤ℤ e.1) l × Ascending l

  AtLeast-take : (n : ℕ) (s : ℤ) (l : List (T × ℤ)) → AtLeast s l → AtLeast s (take n l)
  AtLeast-take zero s l h = tt
  AtLeast-take (suc n) s [] h = tt
  AtLeast-take (suc n) s (e ∷ l) h = (h.0, AtLeast-take n s l h.1)

  pub take-Ascending : (n : ℕ) (l : List (T × ℤ)) → IsZset l → Ascending (take n l)
  take-Ascending zero l h = tt
  take-Ascending (suc n) [] h = tt
  take-Ascending (suc n) ((u, w) ∷ l) h = (AtLeast-take n w l h.1, take-Ascending n l h.2)

  pub drop_short :
      (n : ℕ) (l : List (T × ℤ)) → length (take n l) < n → (t : T) → lookup t (drop n l) ≡ none
  drop_short zero l h t = absurd (omega arith)
  drop_short (suc n) [] h t = refl
  drop_short (suc n) (e ∷ l) h t = drop_short n l (omega arith) t
