-- ===== src/Queue/Kept.antt =====
-- `pop_top_with_priority` of backend/app/collectors/queue.py loses no task and invents none.
use the_vc_brain.Prelude.{
  ℕ, ◌-◌, ◌≡◌, ◌⊎◌, inl, inr, some, List, [], ◌∷◌, ◌++◌, map, All, All-append, length, leb,
  Bool-cases, sym, ◌∙◌, subst,
}
use the_vc_brain.Redis.{Task, Key, Redis, Entry, In}
use the_vc_brain.Redis.Memory.{Key-discrete}
use the_vc_brain.Queue.{lanes, with_priority, pop_lanes, pop_top_with_priority}
use the_vc_brain.Queue.Items.{Item, Among, Among-append}
use the_vc_brain.Queue.Lanes.{Held}

module _ (server : Redis) where
  open server use {
    State, zscore, zpopmin, zpopmin-length, zpopmin-short, zpopmin-popped, zpopmin-Ascending,
    zpopmin-least, zpopmin-keeps, zpopmin-others,
  }

  Among-popped : (t : Task) (es : List Entry) → In t es → Among t (map with_priority es)
  Among-popped t [] h = elim h [ ]
  Among-popped t (e ∷ es) (inl p) = inl p
  Among-popped t (e ∷ es) (inr h) = inr (Among-popped t es h)

  -- Popping from a lane loses no task.
  popped_or_Held :
      (r : State) (k : Key) (m : ℕ) (t : Task)
      → Held server r t
      → Among t (map with_priority (zpopmin r k m).0) ⊎ Held server (zpopmin r k m).1 t
  popped_or_Held r k m t (j, s, e) = elim (Key-discrete j k) [
    | yes p ↦ elim (zpopmin-keeps r k m t s (subst (λ i. zscore r i t ≡ some s) p e)) [
      | inl i ↦ inl (Among-popped t (zpopmin r k m).0 i)
      | inr f ↦ inr (k, s, f)
    ]
    | no d ↦ inr (j, s, zpopmin-others r k j m t d ∙ e)
  ]

  pop_lanes-kept :
      (ks : List Key) (r : State) (n : ℕ) (tasks : List Item) (t : Task)
      → Among t tasks ⊎ Held server r t
      → let (result, r') = pop_lanes server ks r n tasks in Among t result ⊎ Held server r' t
  unfolding pop_lanes
  pop_lanes-kept [] r n tasks t h = h
  pop_lanes-kept (k ∷ ks) r n tasks t h = elim (Bool-cases (leb n (length tasks))) [
    | inl full ↦ rw full h
    | inr free ↦ rw free (
        pop_lanes-kept ks (zpopmin r k (n - length tasks)).1 n
          (tasks ++ map with_priority (zpopmin r k (n - length tasks)).0) t (moved h))
  ]
    where
      moved :
          Among t tasks ⊎ Held server r t
          → Among t (tasks ++ map with_priority (zpopmin r k (n - length tasks)).0)
            ⊎ Held server (zpopmin r k (n - length tasks)).1 t
      moved (inl a) = inl (Among-append t tasks _ (inl a))
      moved (inr held) = elim (popped_or_Held r k (n - length tasks) t held) [
        | inl a ↦ inl (Among-append t tasks _ (inr a))
        | inr b ↦ inr b
      ]

  module _ (origin : State) where
    abbrev From : List Item → Type 0
    From items = All (λ (x : Item). Held server origin x.0) items

    From-popped :
        (r : State) (k : Key) (es : List Entry)
        → ((t : Task) → Held server r t → Held server origin t)
        → All (λ (e : Entry). zscore r k e.0 ≡ some e.1) es
        → From (map with_priority es)
    From-popped r k [] back h = tt
    From-popped r k (e ∷ es) back h = (back e.0 (k, e.1, h.0), From-popped r k es back h.1)

    Held-before :
        (r : State) (k : Key) (m : ℕ) (t : Task) → Held server (zpopmin r k m).1 t → Held server r t
    Held-before r k m t (j, s, e) = elim (Key-discrete j k) [
      | yes p ↦ (
        k,
        s,
        (zpopmin-least r k m t s (subst (λ i. zscore (zpopmin r k m).1 i t ≡ some s) p e)).0,
      )
      | no d ↦ (j, s, sym (zpopmin-others r k j m t d) ∙ e)
    ]

    pop_lanes-From :
        (ks : List Key) (r : State) (n : ℕ) (tasks : List Item)
        → ((t : Task) → Held server r t → Held server origin t)
        → From tasks
        → From (pop_lanes server ks r n tasks).0
    unfolding pop_lanes
    pop_lanes-From [] r n tasks back h = h
    pop_lanes-From (k ∷ ks) r n tasks back h = elim (Bool-cases (leb n (length tasks))) [
      | inl full ↦ rw full h
      | inr free ↦ rw free (
          pop_lanes-From ks (zpopmin r k (n - length tasks)).1 n
            (tasks ++ map with_priority (zpopmin r k (n - length tasks)).0)
            (λ t b. back t (Held-before r k (n - length tasks) t b))
            (All-append (λ (x : Item). Held server origin x.0) tasks _ h
              (From-popped r k (zpopmin r k (n - length tasks)).0 back
                (zpopmin-popped r k (n - length tasks)))))
    ]

  -- A call neither loses nor invents a task: one that waited is returned or still waits, and every
  -- returned task waited before.
  pub pop_top_with_priority-kept :
      (r : State) (n : ℕ) (t : Task)
      → Held server r t
      → let (result, r') = pop_top_with_priority server r n in
        (Among t result ⊎ Held server r' t) × All (λ (x : Item). Held server r x.0) result
  unfolding pop_top_with_priority
  pop_top_with_priority-kept r n t h =
      (pop_lanes-kept lanes r n [] t (inr h), pop_lanes-From r lanes r n [] (λ t h. h) tt)
