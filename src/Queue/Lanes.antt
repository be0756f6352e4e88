-- ===== src/Queue/Lanes.antt =====
-- The lanes of backend/app/collectors/queue.py: what `enqueue` keeps of them.
use the_vc_brain.Prelude.{
  ℕ, zero, suc, ◌≤◌, ◌≡◌, refl, ◌⊎◌, inl, inr, some, List, [], ◌∷◌, All, arith, ℤ, neg_part, ◌≤ℤ◌,
  sym, ◌∙◌,
}
use the_vc_brain.Time.{negate}
use the_vc_brain.Redis.{Task, Key, high, normal, low, Redis}
use the_vc_brain.Redis.Memory.{Key-discrete}
use the_vc_brain.Queue.{lane, lanes, enqueue}

pub negate-neg_part : (p : ℕ) → neg_part (negate p) ≡ p
negate-neg_part zero = refl
negate-neg_part (suc p) = refl

pub negate-le : (p q : ℕ) → negate p ≤ℤ negate q → q ≤ p
negate-le zero zero h = omega arith
negate-le zero (suc q) h = omega arith
negate-le (suc p) zero h = omega arith
negate-le (suc p) (suc q) h = omega arith

-- The earlier lanes hold the higher priorities.
abbrev pub Falling : List Key → Type 0
Falling [] = Unit
Falling (k ∷ ks) = All (λ (j : Key). (p q : ℕ) → lane p ≡ k → lane q ≡ j → q ≤ p) ks × Falling ks

high_above_normal : (p q : ℕ) → lane p ≡ high → lane q ≡ normal → q ≤ p
unfolding lane
high_above_normal p q h k = ground arith

high_above_low : (p q : ℕ) → lane p ≡ high → lane q ≡ low → q ≤ p
unfolding lane
high_above_low p q h k = ground arith

normal_above_low : (p q : ℕ) → lane p ≡ normal → lane q ≡ low → q ≤ p
unfolding lane
normal_above_low p q h k = ground arith

pub lanes-Falling : Falling lanes
lanes-Falling = ((high_above_normal, (high_above_low, tt)), ((normal_above_low, tt), (tt, tt)))

-- the key is one of the list
abbrev pub InKeys : Key → List Key → Type 0
InKeys j [] = ⊥
InKeys j (k ∷ ks) = (j ≡ k) ⊎ InKeys j ks

pub lane-lanes : (p : ℕ) → InKeys (lane p) lanes
unfolding lane
lane-lanes p = ground arith

module _ (server : Redis) where
  open server use {State, same_task, zscore, zadd, zscore-zadd_self, zscore-zadd_ne}

  -- Every score of a set is minus a priority of its lane.
  abbrev pub IsLaned : State → Type 0
  IsLaned r =
      (k : Key) (t : Task) (s : ℤ) → zscore r k t ≡ some s → (p : ℕ) × (s ≡ negate p) × (lane p ≡ k)

  -- The task waits in some lane.
  abbrev pub Held : State → Task → Type 0
  Held r t = (k : Key) × (s : ℤ) × (zscore r k t ≡ some s)

  -- Enqueueing keeps every set's scores within its lane.
  pub enqueue-IsLaned :
      (r : State) (task : Task) (priority : ℕ)
      → IsLaned r
      → IsLaned (enqueue server r task priority)
  unfolding enqueue
  enqueue-IsLaned r task priority h k t s e = elim (Key-discrete k (lane priority)) [
    | yes p ↦ elim (same_task t task) [
      | yes q ↦ (priority, cc (zscore-zadd_self r (lane priority) task (negate priority)), sym p)
      | no n ↦
          h k t s (sym (zscore-zadd_ne r (lane priority) k task t (negate priority) (inr n)) ∙ e)
    ]
    | no n ↦ h k t s (sym (zscore-zadd_ne r (lane priority) k task t (negate priority) (inl n)) ∙ e)
  ]

  -- The enqueued task waits.
  pub enqueue-Held_self :
      (r : State) (task : Task) (priority : ℕ) → Held (enqueue server r task priority) task
  unfolding enqueue
  enqueue-Held_self r task priority =
      (lane priority, negate priority, zscore-zadd_self r (lane priority) task (negate priority))

  -- Every task that waited still waits.
  pub enqueue-Held :
      (r : State) (task t : Task) (priority : ℕ)
      → Held r t
      → Held (enqueue server r task priority) t
  unfolding enqueue
  enqueue-Held r task t priority h = kept h
    where
      kept : Held r t → Held (enqueue server r task priority) t
      kept (k, s, e) = elim (same_task t task) [
        | yes q ↦ rw q (
          lane priority,
          negate priority,
          zscore-zadd_self r (lane priority) task (negate priority),
        )
        | no n ↦ (k, s, zscore-zadd_ne r (lane priority) k task t (negate priority) (inr n) ∙ e)
      ]
