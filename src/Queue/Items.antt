-- ===== src/Queue/Items.antt =====
-- Lists of popped tasks: priorities that fall, and lanes one below the other.
use the_vc_brain.Prelude.{
  ℕ, suc, ◌≤◌, ◌≡◌, refl, ◌⊎◌, inl, inr, List, [], ◌∷◌, ◌++◌, map, All, All-append, length,
  neg_part, sym, ◌∙◌, ap,
}
use the_vc_brain.Time.{negate}
use the_vc_brain.Redis.{Task, Key, Entry}
use the_vc_brain.Queue.{lane, with_priority}
use the_vc_brain.Queue.Lanes.{negate-neg_part, InKeys}

abbrev pub Item : Type 0
Item = Task × ℕ

-- priorities that never rise
abbrev pub Descending : List Item → Type 0
Descending [] = Unit
Descending (x ∷ l) = All (λ (y : Item). y.1 ≤ x.1) l × Descending l

-- the task stands among the items
abbrev pub Among : Task → List Item → Type 0
Among t [] = ⊥
Among t (x ∷ l) = (t ≡ x.0) ⊎ Among t l

pub Descending-append :
    (xs ys : List Item)
    → Descending xs
    → Descending ys
    → All (λ (x : Item). All (λ (y : Item). y.1 ≤ x.1) ys) xs
    → Descending (xs ++ ys)
Descending-append [] ys dx dy h = dy
Descending-append (x ∷ xs) ys dx dy h =
    (All-append (λ (y : Item). y.1 ≤ x.1) xs ys dx.0 h.0, Descending-append xs ys dx.1 dy h.1)

pub Among-append : (t : Task) (xs ys : List Item) → Among t xs ⊎ Among t ys → Among t (xs ++ ys)
Among-append t [] ys (inl h) = absurd h
Among-append t [] ys (inr h) = h
Among-append t (x ∷ xs) ys (inl (inl e)) = inl e
Among-append t (x ∷ xs) ys (inl (inr h)) = inr (Among-append t xs ys (inl h))
Among-append t (x ∷ xs) ys (inr h) = inr (Among-append t xs ys (inr h))

pub length-map : (es : List Entry) → length (map with_priority es) ≡ length es
length-map [] = refl
length-map (e ∷ es) = ap suc (length-map es)

-- every item's priority belongs to the lane
abbrev pub InLane : Key → List Item → Type 0
InLane k l = All (λ (x : Item). lane x.1 ≡ k) l

-- every item is at least as urgent as anything in the lanes
abbrev pub Above : List Key → List Item → Type 0
Above ks l = All (λ (x : Item). All (λ (k : Key). (q : ℕ) → lane q ≡ k → q ≤ x.1) ks) l

pub Above-tail : (k : Key) (ks : List Key) (l : List Item) → Above (k ∷ ks) l → Above ks l
Above-tail k ks [] h = tt
Above-tail k ks (x ∷ l) h = (h.0.1, Above-tail k ks l h.1)

pub Above-next :
    (k : Key) (ks : List Key) (l : List Item)
    → All (λ (j : Key). (p q : ℕ) → lane p ≡ k → lane q ≡ j → q ≤ p) ks
    → InLane k l
    → Above ks l
Above-next k ks [] f h = tt
Above-next k ks (x ∷ l) f h = (each ks f, Above-next k ks l f h.1)
  where
    each :
        (js : List Key)
        → All (λ (j : Key). (p q : ℕ) → lane p ≡ k → lane q ≡ j → q ≤ p) js
        → All (λ (j : Key). (q : ℕ) → lane q ≡ j → q ≤ x.1) js
    each [] f = tt
    each (j ∷ js) f = ((λ q e. f.0 x.1 q h.0 e), each js f.1)

pub Above-lane :
    (k : Key) (ks : List Key) (xs ys : List Item)
    → Above (k ∷ ks) xs
    → InLane k ys
    → All (λ (x : Item). All (λ (y : Item). y.1 ≤ x.1) ys) xs
Above-lane k ks [] ys a l = tt
Above-lane k ks (x ∷ xs) ys a l = (each ys l, Above-lane k ks xs ys a.1 l)
  where
    each : (zs : List Item) → InLane k zs → All (λ (y : Item). y.1 ≤ x.1) zs
    each [] h = tt
    each (z ∷ zs) h = (a.0.0 z.1 h.0, each zs h.1)

-- A task of a later lane is below every item of this one.
pub below_lane :
    (k : Key) (ks : List Key) (j : Key) (q : ℕ)
    → All (λ (i : Key). (p q : ℕ) → lane p ≡ k → lane q ≡ i → q ≤ p) ks
    → InKeys j ks
    → lane q ≡ j
    → (items : List Item) → InLane k items
    → All (λ (x : Item). q ≤ x.1) items
below_lane k ks j q f i l [] m = tt
below_lane k ks j q f i l (x ∷ items) m = (pick ks f i, below_lane k ks j q f i l items m.1)
  where
    pick :
        (js : List Key)
        → All (λ (i : Key). (p q : ℕ) → lane p ≡ k → lane q ≡ i → q ≤ p) js
        → InKeys j js
        → q ≤ x.1
    pick [] f h = elim h [ ]
    pick (_ ∷ js) f (inl e) = f.0 x.1 q m.0 (l ∙ e)
    pick (_ ∷ js) f (inr h) = pick js f.1 h

pub negate-injective : (p q : ℕ) → negate p ≡ negate q → p ≡ q
negate-injective p q e = sym (negate-neg_part p) ∙ ap neg_part e ∙ negate-neg_part q
