-- ===== src/Dispatcher/Budget.antt =====
-- The Tavily budget in the dispatcher of backend/app/collectors/jobs.py.
use the_vc_brain.Prelude.{
  ℕ, ◌+◌, ◌≡◌, refl, Bool, true, false, List, [], ◌∷◌, ◌++◌, ℤ, pos, negsuc, pos_part, neg_part,
  sub_ℕ, ◌-ℤ◌, ◌≤ℤ◌, leb_ℤ, arith, int_laws, Bool-cases, ap, ◌∙◌, ◌&&◌, inl, inr, length,
  length-append, leb, ◌-◌,
}
use the_vc_brain.Time.{negate}
use the_vc_brain.Redis.{Task, Key, tavily_budget, agent_budget, Redis}
use the_vc_brain.Queue.{
  tenth, lane, enqueue, pop_lanes, pop_top_with_priority, get_budget_remaining, decrement_budget,
  budget_or_zero, lanes,
}
use the_vc_brain.Queue.Items.{Item}
use the_vc_brain.Queue.Counters.{decrement_budget_lem}
use the_vc_brain.Dispatcher.{
  arq_call, is_tavily, Dispatch, charge, refund, send, dispatch_one, dispatch_all, dispatcher_job,
}

-- v + n
abbrev pub plus : ℤ → ℕ → ℤ
plus v n = sub_ℕ (pos_part v + n) (neg_part v)

positive : (v : ℤ) → leb_ℤ v (pos 0) ≡ false → pos 1 ≤ℤ v
positive v h = ground arith

plus_parts :
    (v : ℤ) (n : ℕ) → pos_part (plus v n) + neg_part v ≡ neg_part (plus v n) + pos_part v + n
plus_parts v n = ground arith

and_false : {a b : Bool} → a ≡ true → a && b ≡ false → b ≡ false
and_false p q = ground arith

length-snoc {ℓ} : {A : Type ℓ} (xs : List A) (x : A) → length (xs ++ x ∷ []) ≡ length xs + 1
length-snoc xs x = length-append xs (x ∷ [])

module _ (server : Redis) (accepts : ℕ → Bool) (start : ℤ) where
  open server use {State, get, get-zadd, get-zpopmin}

  abbrev remaining : State → ℤ
  remaining r = get_budget_remaining server r tavily_budget

  -- The local counter is the budget in Redis, is not negative, has not grown, and what was charged
  -- is at most the number of calls that went through.
  pub record IsCharged (d : Dispatch server accepts) : Type 0 where
    pub balanced : get_budget_remaining server d.redis tavily_budget ≡ d.tavily_remaining
    pub solvent : pos 0 ≤ℤ d.tavily_remaining
    pub shrinks : d.tavily_remaining ≤ℤ start
    pub accounted : start ≤ℤ plus d.tavily_remaining d.enqueued
    pub counted : d.enqueued ≡ length d.calls

  enqueue-remaining :
      (r : State) (t : Task) (p : ℕ) → remaining (enqueue server r t p) ≡ remaining r
  unfolding get_budget_remaining enqueue
  enqueue-remaining r t p = rw (get-zadd r (lane p) tavily_budget t (negate p))

  decrement-remaining :
      (r : State) (v : ℤ)
      → remaining (decrement_budget server r tavily_budget v).0 ≡ remaining r -ℤ v
  decrement-remaining r v =
      let (answer, left, others) =
        decrement_budget_lem server r tavily_budget agent_budget v (λ e. cc e) in
      left ∙ answer

  back : (a : ℤ) → a -ℤ pos 1 -ℤ negsuc 0 ≡ a
  back a = omega int_laws

  -- A call that goes through is paid for, and one that fails is refunded.
  send-IsCharged :
      (task : Task) (p : ℕ) (d : Dispatch server accepts)
      → IsCharged d
      → (is_tavily task ≡ true → leb_ℤ d.tavily_remaining (pos 0) ≡ false)
      → IsCharged (send server accepts task p (charge server accepts task d))
  unfolding send charge refund
  send-IsCharged task p d h rich = elim (Bool-cases (is_tavily task)) [
    | inl e ↦ elim (Bool-cases (accepts d.tried)) [
      | inl a ↦
          rw (e, a)
            record {
              balanced = decrement-remaining d.redis (pos 1) ∙ ap (λ v. v -ℤ pos 1) h.balanced;
              solvent = omega (int_laws, positive d.tavily_remaining (rich e));
              shrinks = omega (int_laws, h.shrinks);
              accounted = omega (int_laws, h.accounted, plus_parts);
              counted = omega (arith, h.counted, length-snoc d.calls (arq_call task));
            }
      | inr a ↦
          rw (e, a)
            record {
              balanced =
                  decrement-remaining _ (negsuc 0)
                  ∙ ap (λ v. v -ℤ negsuc 0)
                      (enqueue-remaining _ task p
                        ∙ decrement-remaining d.redis (pos 1)
                        ∙ ap (λ v. v -ℤ pos 1) h.balanced);
              solvent = omega (int_laws, h.solvent);
              shrinks = omega (int_laws, h.shrinks);
              accounted = omega (int_laws, h.accounted, plus_parts);
              counted = h.counted;
            }
    ]
    | inr e ↦ elim (Bool-cases (accepts d.tried)) [
      | inl a ↦
          rw (e, a)
            record {
              balanced = h.balanced;
              solvent = h.solvent;
              shrinks = h.shrinks;
              accounted = omega (int_laws, h.accounted, plus_parts);
              counted = omega (arith, h.counted, length-snoc d.calls (arq_call task));
            }
      | inr a ↦
          rw (e, a)
            record {
              balanced = enqueue-remaining d.redis task p ∙ h.balanced;
              solvent = h.solvent;
              shrinks = h.shrinks;
              accounted = h.accounted;
              counted = h.counted;
            }
    ]
  ]

  dispatch_one-IsCharged :
      (task : Task) (p : ℕ) (d : Dispatch server accepts)
      → IsCharged d
      → IsCharged (dispatch_one server accepts task p d)
  unfolding dispatch_one
  dispatch_one-IsCharged task p d h =
      elim (Bool-cases (is_tavily task && leb_ℤ d.tavily_remaining (pos 0))) [
        | inl e ↦ rw e record {
          balanced = enqueue-remaining d.redis task tenth ∙ h.balanced;
          solvent = h.solvent;
          shrinks = h.shrinks;
          accounted = h.accounted;
          counted = h.counted;
        }
        | inr e ↦ rw e (send-IsCharged task p d h (λ a. and_false a e))
      ]

  dispatch_all-IsCharged :
      (tasks : List Item) (d : Dispatch server accepts)
      → IsCharged d
      → IsCharged (dispatch_all server accepts tasks d)
  unfolding dispatch_all
  dispatch_all-IsCharged [] d h = h
  dispatch_all-IsCharged ((task, p) ∷ rest) d h =
      dispatch_all-IsCharged rest (dispatch_one server accepts task p d)
        (dispatch_one-IsCharged task p d h)

module _ (server : Redis) where
  open server use {State, get, get-zpopmin}

  get-pop_lanes :
      (ks : List Key) (r : State) (n : ℕ) (items : List Item)
      → get (pop_lanes server ks r n items).1 tavily_budget ≡ get r tavily_budget
  unfolding pop_lanes
  get-pop_lanes [] r n items = refl
  get-pop_lanes (k ∷ ks) r n items = elim (Bool-cases (leb n (length items))) [
    | inl e ↦ rw e
    | inr e ↦ rw e (get-pop_lanes ks _ n _ ∙ get-zpopmin r k tavily_budget (n - length items))
  ]

  -- The dispatcher never overspends: from a budget that is not negative, whichever calls fail, the
  -- budget that it leaves in Redis is its local count, is not negative and has not grown, every unit
  -- that is gone paid for a call of the pool, and the reported count is the number of calls.
  pub dispatcher_job-IsCharged :
      (accepts : ℕ → Bool) (r : State) (concurrency : ℕ)
      → pos 0 ≤ℤ get_budget_remaining server r tavily_budget
      → IsCharged server accepts
          (get_budget_remaining server r tavily_budget)
          (dispatcher_job server accepts r concurrency)
  unfolding dispatcher_job get_budget_remaining pop_top_with_priority
  dispatcher_job-IsCharged accepts r concurrency h =
      dispatch_all-IsCharged server accepts (get_budget_remaining server r tavily_budget)
        (pop_top_with_priority server r concurrency).0 _
        (record {
          balanced = ap budget_or_zero (get-pop_lanes lanes r concurrency []);
          solvent = h;
          shrinks = omega arith;
          accounted = omega (arith, plus_parts);
          counted = refl;
        })
