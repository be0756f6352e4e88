-- ===== src/Queue/Counters.antt =====
-- The counters of backend/app/collectors/queue.py: call budgets and page trackers.
use the_vc_brain.Prelude.{
  ℕ, suc, ◌+◌, ◌≤◌, ◌≡◌, ◌≢◌, refl, inl, inr, Option, none, some, [], ◌∷◌, String, arith, ℤ, pos,
  ◌-ℤ◌, ◌-◌, subst, leb, ◌∙◌, ap, Bool-cases, if◌then◌else◌, pos_part,
}
use the_vc_brain.Time.{negate}
use the_vc_brain.Redis.{Task, Key, page_of, Redis}
use the_vc_brain.Queue.{
  lane, enqueue, budget_or_zero, get_budget_remaining, decrement_budget, initialize_budget,
  next_page, reserved, conflicted, reserve_page, get_discovery_page, roll_back_if,
  rollback_discovery_page,
}

next_page_range :
    (current : ℕ) → (page : ℕ) × (next_page (pos current) ≡ pos page) × (1 ≤ page) × (page ≤ 10)
unfolding next_page
next_page_range current = elim (Bool-cases (leb (current + 1) 10)) [
  | inl e ↦ (current + 1, rw e, omega arith, ground arith)
  | inr e ↦ (1, rw e, omega arith, omega arith)
]

module _ (server : Redis) where
  open server use {
    State, zscore, get, set, zscore-zadd_self, zscore-zadd_ne, get-set_self, get-set_ne,
    set_nx-absent, set_nx-present, decrby-absent, decrby-present,
  }

  -- Enqueueing a task again replaces its entry only within one lane: at priorities of two lanes the
  -- task stands in both, with both scores.
  pub enqueue-two_lanes :
      (r : State) (t : Task) (p q : ℕ)
      → lane p ≢ lane q
      → let r' = enqueue server (enqueue server r t p) t q in
        (zscore r' (lane p) t ≡ some (negate p)) × (zscore r' (lane q) t ≡ some (negate q))
  unfolding enqueue
  enqueue-two_lanes r t p q d = (
    zscore-zadd_ne _ (lane q) (lane p) t t (negate q) (inl d)
        ∙ zscore-zadd_self r (lane p) t (negate p),
    zscore-zadd_self _ (lane q) t (negate q),
  )

  -- A restart never replenishes a budget: an initialisation keeps the value that the budget has,
  -- one that does not exist starts at the monthly limit, and a second initialisation, with whatever
  -- limit, changes nothing.
  initialize_budget_lem :
      (r : State) (budget : Key) (limit other : ℕ)
      → let r' = initialize_budget server r budget limit in
        (get r' budget ≡ some (elim (get r budget) [ none ↦ pos limit | some v ↦ v ]))
        × (initialize_budget server r' budget other ≡ r')
  unfolding initialize_budget
  initialize_budget_lem r budget limit other = split (get r budget) refl
    where
      split :
          (o : Option ℤ)
          → get r budget ≡ o
          → let r' = initialize_budget server r budget limit in
            (get r' budget ≡ some (elim o [ none ↦ pos limit | some v ↦ v ]))
            × (initialize_budget server r' budget other ≡ r')
      split none e = rw (set_nx-absent r budget (pos limit) e) (
        get-set_self r budget (pos limit),
        set_nx-present _ budget (pos other) (pos limit) (get-set_self r budget (pos limit)),
      )
      split (some v) e =
          rw (set_nx-present r budget (pos limit) v e) (e, set_nx-present r budget (pos other) v e)

  -- A decrement answers the remaining budget less the amount, that is what remains, and no other
  -- counter changes.
  pub decrement_budget_lem :
      (r : State) (budget other : Key) (amount : ℤ)
      → other ≢ budget
      → let (r', answer) = decrement_budget server r budget amount in
        (answer ≡ get_budget_remaining server r budget -ℤ amount)
        × (get_budget_remaining server r' budget ≡ answer)
        × (get r' other ≡ get r other)
  unfolding decrement_budget get_budget_remaining
  decrement_budget_lem r budget other amount d = split (get r budget) refl
    where
      split :
          (o : Option ℤ)
          → get r budget ≡ o
          → let (r', answer) = decrement_budget server r budget amount in
            (answer ≡ get_budget_remaining server r budget -ℤ amount)
            × (get_budget_remaining server r' budget ≡ answer)
            × (get r' other ≡ get r other)
      split none e =
          rw (e, decrby-absent r budget amount e)
            (rw (get-set_self r budget (pos 0 -ℤ amount))
              (refl, refl, get-set_ne r budget other _ d))
      split (some v) e =
          rw (e, decrby-present r budget amount v e)
            (rw (get-set_self r budget (v -ℤ amount)) (refl, refl, get-set_ne r budget other _ d))

  -- The tracker of the query stands at a page from 0 to 10.
  abbrev pub IsTracked : State → Key → ℕ → Type 0
  IsTracked r key current = (budget_or_zero (get r key) ≡ pos current) × (current ≤ 10)

  -- the page after this one, from 1 to 10 in turn
  abbrev pub following : ℕ → ℕ
  following current = if leb (current + 1) 10 then current + 1 else 1

  reserve-page_of :
      (r : State) (key : Key) (attempts current : ℕ)
      → IsTracked r key current
      → reserve_page server (suc attempts) r key []
        ≡ reserved (pos (following current)) (set r key (pos (following current)))
  unfolding reserve_page
  reserve-page_of r key attempts current h = rw h.0 (ground arith)

  IsTracked-after :
      (r : State) (key : Key) (page : ℕ) → page ≤ 10 → IsTracked (set r key (pos page)) key page
  IsTracked-after r key page h = (rw (get-set_self r key (pos page)), h)

  following-le : (current : ℕ) → following current ≤ 10
  following-le current = ground arith

  following-ne : (current : ℕ) → following current ≢ current
  following-ne current = ground arith

  -- From a tracker that stands between 0 and 10, a reservation with no interference takes the
  -- following page, from 1 to 10, and moves the tracker to it. A worker that meets that reservation
  -- between its own read and write tries again and takes another page. After three such meetings the
  -- call fails.
  get_discovery_page_lem :
      (r a b c : State) (source query : String) (current : ℕ)
      → IsTracked r (page_of source query) current
      → let page = following current in
        let r' = set r (page_of source query) (pos page) in
        (get_discovery_page server r source query [] ≡ reserved (pos page) r')
        × (1 ≤ page)
        × (page ≤ 10)
        × IsTracked r' (page_of source query) page
        × (get_discovery_page server r source query (some r' ∷ [])
            ≡ reserved
                (pos (following page))
                (set r' (page_of source query) (pos (following page))))
        × (following page ≢ page)
        × (get_discovery_page server r source query (some a ∷ some b ∷ some c ∷ []) ≡ conflicted c)
  unfolding get_discovery_page reserve_page
  get_discovery_page_lem r a b c source query current h = (
    reserve-page_of r (page_of source query) 2 current h,
    ground arith,
    following-le current,
    IsTracked-after r (page_of source query) (following current) (following-le current),
    reserve-page_of _ (page_of source query) 1 (following current)
        (IsTracked-after r (page_of source query) (following current) (following-le current)),
    following-ne (following current),
    refl,
  )

  rolled_back :
      (r : State) (source query : String) (page : ℕ)
      → IsTracked r (page_of source query) page
      → rollback_discovery_page server r source query (pos page) []
        ≡ set r (page_of source query) (pos (pos_part (pos page -ℤ pos 1)))
  unfolding rollback_discovery_page roll_back_if
  rolled_back r source query page h = rw h.0 (ground arith)

  following_back :
      (current : ℕ) → following (pos_part (pos (following current) -ℤ pos 1)) ≡ following current
  unfolding ◌-ℤ◌
  following_back current = ground arith

  back-le : (current : ℕ) → pos_part (pos (following current) -ℤ pos 1) ≤ 10
  unfolding ◌-ℤ◌
  back-le current = ground arith

  -- A page whose provider call failed is given back: a reservation takes the page that follows the one
  -- at which the tracker stands, from 1 to 10 in turn, and moves the tracker to it; a rollback of
  -- that page moves the tracker one page back; and the next reservation takes the same page again and
  -- moves the tracker to it. The tracker stands between 0 and 10 before, and nobody interferes. A
  -- rollback of a page at which the tracker does not stand changes nothing.
  pub rollback_retries :
      (r : State) (source query : String) (current other : ℕ)
      → IsTracked r (page_of source query) current
      → other ≢ current
      → let page = if leb (current + 1) 10 then current + 1 else 1 in
        let key = page_of source query in
        ((r' : State) × (r'' : State) × (get_discovery_page server r source query []
            ≡ reserved (pos page) r')
          × IsTracked r' key page
          × IsTracked (rollback_discovery_page server r' source query (pos page) []) key (page - 1)
          × (get_discovery_page server
                (rollback_discovery_page server r' source query (pos page) [])
                source
                query
                []
              ≡ reserved (pos page) r'')
          × IsTracked r'' key page)
        × (rollback_discovery_page server r source query (pos other) [] ≡ r)
  rollback_retries r source query current other h d = (again, left)
    where
      key : Key
      key = page_of source query

      page : ℕ
      page = following current

      r' : State
      r' = set r key (pos page)

      tracked : IsTracked r' key page
      tracked = IsTracked-after r key page (following-le current)

      back : ℕ
      back = pos_part (pos page -ℤ pos 1)

      back_one : back ≡ page - 1
      back_one = unfold ◌-ℤ◌ in ground arith

      returned : State
      returned = set r' key (pos back)

      retried :
          reserve_page server 3 returned key [] ≡ reserved (pos page) (set returned key (pos page))
      retried =
          reserve-page_of returned key 2 back (IsTracked-after r' key back (back-le current))
          ∙ ap (λ (p : ℕ). reserved (pos p) (set returned key (pos p))) (following_back current)

      again :
          (x : State) × (y : State) × (get_discovery_page server r source query []
            ≡ reserved (pos page) x)
          × IsTracked x key page
          × IsTracked (rollback_discovery_page server x source query (pos page) []) key (page - 1)
          × (get_discovery_page server
                (rollback_discovery_page server x source query (pos page) [])
                source
                query
                []
              ≡ reserved (pos page) y)
          × IsTracked y key page
      again = (
        r',
        set returned key (pos page),
        (unfold get_discovery_page in reserve-page_of r key 2 current h),
        tracked,
        rw (rolled_back r' source query page tracked) (
            subst (λ n. IsTracked returned key n) back_one
              (IsTracked-after r' key back (back-le current))),
        rw (rolled_back r' source query page tracked) (unfold get_discovery_page in retried),
        IsTracked-after returned key page (following-le current),
      )

      left : rollback_discovery_page server r source query (pos other) [] ≡ r
      left = unfold rollback_discovery_page roll_back_if in rw h.0 (ground arith)
