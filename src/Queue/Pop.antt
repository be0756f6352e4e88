-- ===== src/Queue/Pop.antt =====
-- `pop_top_with_priority` of backend/app/collectors/queue.py takes the most urgent tasks.
use the_vc_brain.Prelude.{
  ℕ, ◌+◌, ◌-◌, ◌≤◌, ◌<◌, ◌≡◌, ◌≢◌, ◌⊎◌, inl, inr, none, some, List, [], ◌∷◌, ◌++◌, map, All,
  All-append, length, length-append, Option-cases, arith, ℤ, neg_part, ◌≤ℤ◌, leb, Bool-cases, sym,
  ◌∙◌, ap, subst, true, false,
}
use the_vc_brain.Time.{negate}
use the_vc_brain.Redis.{Task, Key, Redis, Entry, Ascending}
use the_vc_brain.Redis.Memory.{Key-discrete}
use the_vc_brain.Queue.{lane, lanes, with_priority, pop_lanes, pop_top_with_priority}
use the_vc_brain.Queue.Items.{
  Item, Descending, Descending-append, length-map, InLane, Above, Above-tail, Above-next,
  Above-lane, below_lane, negate-injective,
}
use the_vc_brain.Queue.Lanes.{
  negate-neg_part, negate-le, Falling, lanes-Falling, IsLaned, InKeys, lane-lanes,
}

module _ (server : Redis) where
  open server use {
    State, zscore, zpopmin, zpopmin-length, zpopmin-short, zpopmin-popped, zpopmin-Ascending,
    zpopmin-least, zpopmin-keeps, zpopmin-others,
  }

  -- the popped scores are minus priorities of the lane
  abbrev FromLane : Key → List Entry → Type 0
  FromLane k es = All (λ (e : Entry). (p : ℕ) × (e.1 ≡ negate p) × (lane p ≡ k)) es

  popped_from :
      (r : State) (k : Key) (es : List Entry)
      → IsLaned server r
      → All (λ (e : Entry). zscore r k e.0 ≡ some e.1) es
      → FromLane k es
  popped_from r k [] h a = tt
  popped_from r k (e ∷ es) h a = (h k e.0 e.1 a.0, popped_from r k es h a.1)

  InLane-popped : (k : Key) (es : List Entry) → FromLane k es → InLane k (map with_priority es)
  InLane-popped k [] h = tt
  InLane-popped k (e ∷ es) ((p, s, l), h) = (rw (s, negate-neg_part p) l, InLane-popped k es h)

  Descending-popped :
      (k : Key) (es : List Entry) → FromLane k es → Ascending es → Descending (map with_priority es)
  Descending-popped k [] h a = tt
  Descending-popped k (e ∷ es) ((p, s, l), h) a = (each es h a.0, Descending-popped k es h a.1)
    where
      each :
          (fs : List Entry)
          → FromLane k fs
          → All (λ (f : Entry). e.1 ≤ℤ f.1) fs
          → All (λ (y : Item). y.1 ≤ neg_part e.1) (map with_priority fs)
      each [] h b = tt
      each (f ∷ fs) ((q, u, m), h) b = (
        rw (s, u, negate-neg_part p, negate-neg_part q) (negate-le p q (rw (← s, ← u) b.0)),
        each fs h b.1,
      )

  zpopmin-IsLaned :
      (r : State) (k : Key) (n : ℕ) → IsLaned server r → IsLaned server (zpopmin r k n).1
  zpopmin-IsLaned r k n h j t s e = elim (Key-discrete j k) [
    | yes p ↦
        h j t s (
          rw p (zpopmin-least r k n t s (subst (λ x. zscore (zpopmin r k n).1 x t ≡ some s) p e)).0)
    | no q ↦ h j t s (sym (zpopmin-others r k j n t q) ∙ e)
  ]

  -- Whatever still waits is at most as urgent as each of the tasks.
  abbrev pub IsUrgent : State → List Item → Type 0
  IsUrgent r tasks =
      (j : Key) (t : Task) (q : ℕ)
      → zscore r j t ≡ some (negate q)
      → All (λ (x : Item). q ≤ x.1) tasks

  -- With room left, only the lanes to come can hold anything.
  abbrev Spent : List Key → State → List Item → ℕ → Type 0
  Spent ks r tasks n = length tasks < n → (j : Key) (t : Task) → InKeys j ks ⊎ (zscore r j t ≡ none)

  -- What holds of the loop before it looks at the lanes `ks`.
  record Loop (ks : List Key) (r : State) (n : ℕ) (tasks : List Item) : Type 0 where
    within : length tasks ≤ n
    descending : Descending tasks
    above : Above ks tasks
    laned : IsLaned server r
    urgent : IsUrgent r tasks
    spent : Spent ks r tasks n

  least_priority :
      (r : State) (k : Key) (n : ℕ) (t : Task) (q : ℕ) (es : List Entry)
      → FromLane k es
      → All (λ (e : Entry). e.1 ≤ℤ negate q) es
      → All (λ (x : Item). q ≤ x.1) (map with_priority es)
  least_priority r k n t q [] f h = tt
  least_priority r k n t q (e ∷ es) ((p, s, l), f) h =
      (rw (s, negate-neg_part p) (negate-le p q (rw (← s) h.0)), least_priority r k n t q es f h.1)

  module _ (r : State) (k : Key) (ks : List Key) (n : ℕ) (tasks : List Item) where
    abbrev room : ℕ
    room = n - length tasks

    abbrev results : List Entry
    results = (zpopmin r k room).0

    abbrev after : State
    after = (zpopmin r k room).1

    module _ (falls : Falling (k ∷ ks)) (h : Loop (k ∷ ks) r n tasks)
        (free : length tasks < n) where
      fresh : FromLane k results
      fresh = popped_from r k results h.laned (zpopmin-popped r k room)

      after-length : length (tasks ++ map with_priority results) ≡ length tasks + length results
      after-length =
          length-append tasks (map with_priority results)
          ∙ ap (λ m. length tasks + m) (length-map results)

      after-Spent : Spent ks after (tasks ++ map with_priority results) n
      after-Spent less j t = elim (Key-discrete j k) [
        | yes p ↦ inr (
            subst (λ i. zscore after i t ≡ none) (sym p)
              (zpopmin-short r k room (omega (arith, after-length)) t))
        | no d ↦ elim (h.spent free j t) [
          | inl (inl e) ↦ absurd (d e)
          | inl (inr i) ↦ inl i
          | inr e ↦ inr (zpopmin-others r k j room t d ∙ e)
        ]
      ]

      -- A task of a later lane is below all that was popped.
      later :
          (j : Key) (t : Task) (q : ℕ)
          → j ≢ k
          → zscore r j t ≡ some (negate q)
          → All (λ (x : Item). q ≤ x.1) (map with_priority results)
      later j t q d e =
          let (p, s, l) = h.laned j t (negate q) e in
          elim (h.spent free j t) [
            | inl (inl i) ↦ absurd (d i)
            | inl (inr i) ↦
                below_lane k ks j q falls.0 i (rw (negate-injective q p s) l)
                  (map with_priority results) (InLane-popped k results fresh)
            | inr i ↦ cc
          ]

      after-IsUrgent : IsUrgent after (tasks ++ map with_priority results)
      after-IsUrgent j t q e = elim (Key-discrete j k) [
        | yes p ↦
            let (old, least) =
              zpopmin-least r k room t (negate q)
                (subst (λ i. zscore after i t ≡ some (negate q)) p e) in
            All-append (λ (x : Item). q ≤ x.1) tasks (map with_priority results)
              (h.urgent k t q old) (least_priority r k room t q results fresh least)
        | no d ↦
            let old = sym (zpopmin-others r k j room t d) ∙ e in
            All-append (λ (x : Item). q ≤ x.1) tasks (map with_priority results)
              (h.urgent j t q old) (later j t q d old)
      ]

      after-Loop : Loop ks after n (tasks ++ map with_priority results)
      after-Loop = record {
        within = omega (arith, after-length, zpopmin-length r k room);
        descending =
            Descending-append tasks (map with_priority results) h.descending
              (Descending-popped k results fresh (zpopmin-Ascending r k room))
              (Above-lane k ks tasks (map with_priority results) h.above
                (InLane-popped k results fresh));
        above =
            All-append _ tasks (map with_priority results) (Above-tail k ks tasks h.above)
              (Above-next k ks (map with_priority results) falls.0 (InLane-popped k results fresh));
        laned = zpopmin-IsLaned r k room h.laned;
        urgent = after-IsUrgent;
        spent = after-Spent;
      }

  -- What a call returns from a state whose scores respect the lanes.
  pub record Popped (n : ℕ) (result : List Item × State) : Type 0 where
    pub within : length result.0 ≤ n
    pub descending : Descending result.0
    pub laned : IsLaned server result.1
    pub urgent : IsUrgent result.1 result.0
    pub exhausted : (length result.0 ≡ n) ⊎ ((k : Key) (t : Task) → zscore result.1 k t ≡ none)

  ended :
      (ks : List Key) (r : State) (n : ℕ) (tasks : List Item)
      → Loop ks r n tasks
      → (length tasks < n → (k : Key) (t : Task) → zscore r k t ≡ none)
      → Popped n (tasks, r)
  ended ks r n tasks h empty = record {
    within = h.within;
    descending = h.descending;
    laned = h.laned;
    urgent = h.urgent;
    exhausted = elim (Bool-cases (leb n (length tasks))) [
      | inl full ↦ inl (ground (arith, h.within))
      | inr free ↦ inr (empty (ground arith))
    ];
  }

  nothing_left :
      (r : State) (n : ℕ) (tasks : List Item)
      → Loop [] r n tasks
      → length tasks < n
      → (k : Key) (t : Task) → zscore r k t ≡ none
  nothing_left r n tasks h less k t = elim (h.spent less k t) [ inl i ↦ absurd i | inr e ↦ e ]

  pop_lanes-Popped :
      (ks : List Key) (r : State) (n : ℕ) (tasks : List Item)
      → Falling ks
      → Loop ks r n tasks
      → Popped n (pop_lanes server ks r n tasks)
  unfolding pop_lanes
  pop_lanes-Popped [] r n tasks f h = ended [] r n tasks h (nothing_left r n tasks h)
  pop_lanes-Popped (k ∷ ks) r n tasks f h = elim (Bool-cases (leb n (length tasks))) [
    | inl full ↦ rw full (ended (k ∷ ks) r n tasks h (λ less. absurd (full_not_less full less)))
    | inr free ↦ rw free (
        pop_lanes-Popped ks (after r k ks n tasks) n
          (tasks ++ map with_priority (results r k ks n tasks)) f.1
          (after-Loop r k ks n tasks f h (free_less free)))
  ]
    where
      full_not_less : leb n (length tasks) ≡ true → length tasks < n → ⊥
      full_not_less full less = ground arith

      free_less : leb n (length tasks) ≡ false → length tasks < n
      free_less free = ground arith

  start-Loop : (r : State) (n : ℕ) → IsLaned server r → Loop lanes r n []
  start-Loop r n h = record {
    within = omega arith;
    descending = tt;
    above = tt;
    laned = h;
    urgent = λ j t q e. tt;
    spent = λ less j t. in_lanes j t (Option-cases (zscore r j t));
  }
    where
      in_lanes :
          (j : Key) (t : Task)
          → (zscore r j t ≡ none) ⊎ ((s : ℤ) × (zscore r j t ≡ some s))
          → InKeys j lanes ⊎ (zscore r j t ≡ none)
      in_lanes j t (inl e) = inr e
      in_lanes j t (inr (s, e)) =
          let (p, eq, l) = h j t s e in inl (subst (λ i. InKeys i lanes) l (lane-lanes p))

  -- From a queue whose scores respect the lanes, a call returns at most n tasks by falling priority;
  -- nothing that it leaves is more urgent than any of them; it returns fewer than n only when it
  -- leaves nothing; and the scores still respect the lanes.
  pub pop_top_with_priority-Popped :
      (r : State) (n : ℕ) → IsLaned server r → Popped n (pop_top_with_priority server r n)
  unfolding pop_top_with_priority
  pop_top_with_priority-Popped r n h =
      pop_lanes-Popped lanes r n [] lanes-Falling (start-Loop r n h)
