-- ===== src/Dispatcher/Conservation.antt =====
-- The dispatcher of backend/app/collectors/jobs.py loses no task and never overspends.
use the_vc_brain.Prelude.{
  ℕ, ◌+◌, ◌≡◌, refl, ◌⊎◌, inl, inr, Bool, Option, none, some, List, [], ◌∷◌, ◌++◌, ℤ, pos, negsuc,
  leb_ℤ, Bool-cases, ap, ◌∙◌, ◌&&◌,
}
use the_vc_brain.Redis.{Task, Key, tavily_budget, Redis}
use the_vc_brain.Queue.{tenth, enqueue, pop_top_with_priority, decrement_budget}
use the_vc_brain.Queue.Lanes.{Held, enqueue-Held, enqueue-Held_self}
use the_vc_brain.Queue.Items.{Item, Among}
use the_vc_brain.Queue.Kept.{pop_top_with_priority-kept}
use the_vc_brain.Dispatcher.{
  ArqCall, arq_call, is_tavily, Dispatch, charge, refund, send, dispatch_one, dispatch_all,
  dispatcher_job,
}

-- the call is among the calls
abbrev pub IsCalled : ArqCall → List ArqCall → Type 0
IsCalled c [] = ⊥
IsCalled c (d ∷ ds) = (c ≡ d) ⊎ IsCalled c ds

IsCalled-append :
    (c : ArqCall) (cs ds : List ArqCall) → IsCalled c cs ⊎ IsCalled c ds → IsCalled c (cs ++ ds)
IsCalled-append c [] ds (inl h) = absurd h
IsCalled-append c [] ds (inr h) = h
IsCalled-append c (d ∷ cs) ds (inl (inl e)) = inl e
IsCalled-append c (d ∷ cs) ds (inl (inr h)) = inr (IsCalled-append c cs ds (inl h))
IsCalled-append c (d ∷ cs) ds (inr h) = inr (IsCalled-append c cs ds (inr h))

module _ (server : Redis) (accepts : ℕ → Bool) where
  open server use {State, get, decrby, decrby-absent, decrby-present, zscore-set}

  -- The task is with the pool, or waits in the queue.
  abbrev pub IsKept : Dispatch server accepts → Task → Type 0
  IsKept d t = IsCalled (arq_call t) d.calls ⊎ Held server d.redis t

  -- a decrement touches no sorted set
  decrement_Held :
      (r : State) (k : Key) (v : ℤ) (t : Task)
      → Held server r t
      → Held server (decrement_budget server r k v).0 t
  unfolding decrement_budget
  decrement_Held r k v t (j, s, e) = split (get r k) refl
    where
      split : (o : Option ℤ) → get r k ≡ o → Held server (decrby r k v) t
      split none g = (j, s, rw (decrby-absent r k v g) (zscore-set r k j _ t ∙ e))
      split (some w) g = (j, s, rw (decrby-present r k v w g) (zscore-set r k j _ t ∙ e))

  charge-IsKept :
      (task t : Task) (d : Dispatch server accepts)
      → IsKept d t
      → IsKept (charge server accepts task d) t
  unfolding charge
  charge-IsKept task t d h = elim (Bool-cases (is_tavily task)) [
    | inl e ↦
        rw e (elim h [
          | inl c ↦ inl c
          | inr w ↦ inr (decrement_Held d.redis tavily_budget (pos 1) t w)
        ])
    | inr e ↦ rw e h
  ]

  refund-IsKept :
      (task t : Task) (d : Dispatch server accepts)
      → IsKept d t
      → IsKept (refund server accepts task d) t
  unfolding refund
  refund-IsKept task t d h = elim (Bool-cases (is_tavily task)) [
    | inl e ↦ rw e (elim h [
      | inl c ↦ inl c
      | inr w ↦ inr (decrement_Held d.redis tavily_budget (negsuc 0) t w)
    ])
    | inr e ↦ rw e h
  ]

  -- Sending keeps what was kept, and its own task.
  send-IsKept :
      (task t : Task) (p : ℕ) (d : Dispatch server accepts)
      → IsKept d t ⊎ (t ≡ task)
      → IsKept (send server accepts task p d) t
  unfolding send
  send-IsKept task t p d h = elim (Bool-cases (accepts d.tried)) [
    | inl e ↦ rw e (called h)
    | inr e ↦ rw e (refund-IsKept task t (failing d) (queued h))
  ]
    where
      failing : Dispatch server accepts → Dispatch server accepts
      failing d = record d {
        redis = enqueue server d.redis task p;
        failed = d.failed + 1;
        tried = d.tried + 1;
      }

      called :
          IsKept d t ⊎ (t ≡ task)
          → IsCalled (arq_call t) (d.calls ++ arq_call task ∷ []) ⊎ Held server d.redis t
      called (inl (inl c)) = inl (IsCalled-append (arq_call t) d.calls _ (inl c))
      called (inl (inr w)) = inr w
      called (inr e) = inl (IsCalled-append (arq_call t) d.calls _ (inr (inl (ap arq_call e))))

      queued : IsKept d t ⊎ (t ≡ task) → IsKept (failing d) t
      queued (inl (inl c)) = inl c
      queued (inl (inr w)) = inr (enqueue-Held server d.redis task t p w)
      queued (inr e) = inr (rw e (enqueue-Held_self server d.redis task p))

  dispatch_one-IsKept :
      (task t : Task) (p : ℕ) (d : Dispatch server accepts)
      → IsKept d t ⊎ (t ≡ task)
      → IsKept (dispatch_one server accepts task p d) t
  unfolding dispatch_one
  dispatch_one-IsKept task t p d h =
      elim (Bool-cases (is_tavily task && leb_ℤ d.tavily_remaining (pos 0))) [
        | inl e ↦ rw e (deferred h)
        | inr e ↦ rw e (send-IsKept task t p (charge server accepts task d) (charged h))
      ]
    where
      deferred :
          IsKept d t ⊎ (t ≡ task)
          → IsCalled (arq_call t) d.calls ⊎ Held server (enqueue server d.redis task tenth) t
      deferred (inl (inl c)) = inl c
      deferred (inl (inr w)) = inr (enqueue-Held server d.redis task t tenth w)
      deferred (inr e) = inr (rw e (enqueue-Held_self server d.redis task tenth))

      charged : IsKept d t ⊎ (t ≡ task) → IsKept (charge server accepts task d) t ⊎ (t ≡ task)
      charged (inl k) = inl (charge-IsKept task t d k)
      charged (inr e) = inr e

  dispatch_all-IsKept :
      (tasks : List Item) (t : Task) (d : Dispatch server accepts)
      → IsKept d t ⊎ Among t tasks
      → IsKept (dispatch_all server accepts tasks d) t
  unfolding dispatch_all
  dispatch_all-IsKept [] t d (inl k) = k
  dispatch_all-IsKept [] t d (inr a) = absurd a
  dispatch_all-IsKept ((task, p) ∷ rest) t d h =
      dispatch_all-IsKept rest t (dispatch_one server accepts task p d) (next h)
    where
      next :
          IsKept d t ⊎ Among t ((task, p) ∷ rest)
          → IsKept (dispatch_one server accepts task p d) t ⊎ Among t rest
      next (inl k) = inl (dispatch_one-IsKept task t p d (inl k))
      next (inr (inl e)) = inl (dispatch_one-IsKept task t p d (inr e))
      next (inr (inr a)) = inr a

  -- The dispatcher loses no task: whichever calls of the pool fail and however small the budget, a
  -- task that waited has been handed to the pool or waits still.
  pub dispatcher_job-IsKept :
      (r : State) (concurrency : ℕ) (t : Task)
      → Held server r t
      → IsKept (dispatcher_job server accepts r concurrency) t
  unfolding dispatcher_job
  dispatcher_job-IsKept r concurrency t h =
      dispatch_all-IsKept (pop_top_with_priority server r concurrency).0 t _
        (elim ((pop_top_with_priority-kept server r concurrency t h).0) [
          | inl a ↦ inr a
          | inr w ↦ inl (inr w)
        ])
