-- ===== src/Queue.antt =====
-- backend/app/collectors/queue.py: the priority queue of collection tasks, the two call budgets and
-- the page trackers, over the interface to Redis.
-- A priority is a float that is not negative; every finite one is a multiple of 2 ^ -1074, and is
-- counted here in that unit, so its comparisons are exact.
pub mod Lanes
pub mod Items
pub mod Pop
pub mod Kept
pub mod Counters
use the_vc_brain.Prelude.{
  ℕ, zero, suc, ◌+◌, ◌-◌, ◌*◌, ◌^◌, Option, none, some, List, [], ◌∷◌, ◌++◌, map, String, leb,
  length, ◌&&◌, if◌then◌else◌, ℤ, pos, negsuc, pos_part, neg_part, leb_ℤ, ◌-ℤ◌,
}
use the_vc_brain.Time.{negate}
use the_vc_brain.Redis.{Task, Key, high, normal, low, page_of, Redis, Entry}

-- 1.0
abbrev pub unit : ℕ
unit = 2 ^ 1074

-- the double nearest to 0.1
abbrev pub tenth : ℕ
tenth = 3602879701896397 * 2 ^ 1019

-- `_lane`, and the key of the lane in `_QUEUE_KEYS`
unfoldable pub lane : ℕ → Key
lane priority = if leb (10 * unit) priority then high else if leb unit priority then normal else low

abbrev pub lanes : List Key
lanes = high ∷ normal ∷ low ∷ []

abbrev pub budget_or_zero : Option ℤ → ℤ
budget_or_zero none = pos 0
budget_or_zero (some v) = v

-- a popped member with its priority, `(json.loads(member), -float(score))`
abbrev pub with_priority : Entry → Task × ℕ
with_priority (t, score) = (t, neg_part score)

-- What an attempt at a page meets between WATCH and EXEC: nothing, or another client that has
-- changed the key and left this state.
abbrev pub Interference : Type 0 → Type 0
Interference S = List (Option S)

pub data Reservation (S : Type 0) : Type 0 where
  reserved : ℤ → S → Reservation S
  conflicted : S → Reservation S

abbrev pub max_discovery_page : ℕ
max_discovery_page = 10

-- `page = current + 1`, and 1 past the last page
unfoldable pub next_page : ℤ → ℤ
next_page (negsuc zero) = pos 0
next_page (negsuc (suc n)) = negsuc n
next_page (pos current) = if leb (current + 1) max_discovery_page then pos (current + 1) else pos 1

module _ (server : Redis) where
  open server use {State, zadd, zpopmin, zrange, zcard, delete, get, set, set_nx, decrby}

  unfoldable pub enqueue : State → Task → ℕ → State
  unfolding lane
  enqueue r task priority = zadd r (lane priority) task (negate priority)

  -- the loop over the lanes, with the tasks found so far
  unfoldable pub pop_lanes : List Key → State → ℕ → List (Task × ℕ) → List (Task × ℕ) × State
  pop_lanes [] r n tasks = (tasks, r)
  pop_lanes (key ∷ rest) r n tasks =
      let (results, r') = zpopmin r key (n - length tasks) in
      let more = pop_lanes rest r' n (tasks ++ map with_priority results) in
      if leb n (length tasks) then (tasks, r) else more

  unfoldable pub pop_top_with_priority : State → ℕ → List (Task × ℕ) × State
  unfolding pop_lanes
  pop_top_with_priority r n = pop_lanes lanes r n []

  unfoldable pub pop_top : State → ℕ → List Task × State
  unfolding pop_top_with_priority
  pop_top r n =
      let (tasks, r') = pop_top_with_priority r n in (map (λ (e : Task × ℕ). e.0) tasks, r')

  unfoldable pub peek_lanes : List Key → State → ℕ → List Task → List Task
  peek_lanes [] r n tasks = tasks
  peek_lanes (key ∷ rest) r n tasks =
      let results = zrange r key (n - length tasks) in
      let more = peek_lanes rest r n (tasks ++ map (λ (e : Entry). e.0) results) in
      if leb n (length tasks) then tasks else more

  unfoldable pub peek : State → ℕ → List Task
  unfolding peek_lanes
  peek r n = peek_lanes lanes r n []

  unfoldable pub queue_depth : State → List (Key × ℕ)
  queue_depth r = map (λ (k : Key). (k, zcard r k)) lanes

  unfoldable pub clear_lanes : List Key → State → State
  clear_lanes [] r = r
  clear_lanes (key ∷ rest) r = clear_lanes rest (delete r key)

  unfoldable pub clear_all : State → State
  unfolding clear_lanes
  clear_all r = clear_lanes lanes r

  -- `int(val) if val else 0`
  unfoldable pub get_budget_remaining : State → Key → ℤ
  get_budget_remaining r budget = budget_or_zero (get r budget)

  -- the new state, and the new value that DECRBY answers
  unfoldable pub decrement_budget : State → Key → ℤ → State × ℤ
  decrement_budget r budget amount =
      let r' = decrby r budget amount in (r', budget_or_zero (get r' budget))

  unfoldable pub reset_budget : State → Key → ℕ → State
  reset_budget r budget monthly_limit = set r budget (pos monthly_limit)

  unfoldable pub initialize_budget : State → Key → ℕ → State
  initialize_budget r budget monthly_limit = set_nx r budget (pos monthly_limit)

  -- the attempts that are left
  unfoldable pub reserve_page : ℕ → State → Key → Interference State → Reservation State
  unfolding next_page
  reserve_page zero r key others = conflicted r
  reserve_page (suc attempts) r key [] =
      let page = next_page (budget_or_zero (get r key)) in reserved page (set r key page)
  reserve_page (suc attempts) r key (none ∷ others) =
      let page = next_page (budget_or_zero (get r key)) in reserved page (set r key page)
  reserve_page (suc attempts) r key (some r' ∷ others) = reserve_page attempts r' key others

  unfoldable pub get_discovery_page :
      State → String → String → Interference State → Reservation State
  unfolding reserve_page
  get_discovery_page r source query others = reserve_page 3 r (page_of source query) others

  -- `current != page` returns, else the tracker goes back by one, to 0 at least
  unfoldable pub roll_back_if : State → Key → ℤ → ℤ → State
  roll_back_if r key current page =
      if leb_ℤ current page && leb_ℤ page current
      then set r key (pos (pos_part (page -ℤ pos 1)))
      else r

  unfoldable pub roll_back : ℕ → State → Key → ℤ → Interference State → State
  unfolding roll_back_if
  roll_back zero r key page others = r
  roll_back (suc attempts) r key page [] = roll_back_if r key (budget_or_zero (get r key)) page
  roll_back (suc attempts) r key page (none ∷ others) =
      roll_back_if r key (budget_or_zero (get r key)) page
  roll_back (suc attempts) r key page (some r' ∷ others) = roll_back attempts r' key page others

  unfoldable pub rollback_discovery_page : State → String → String → ℤ → Interference State → State
  unfolding roll_back
  rollback_discovery_page r source query page others =
      roll_back 3 r (page_of source query) page others

  unfoldable pub reset_discovery_page : State → String → String → State
  reset_discovery_page r source query = set r (page_of source query) (pos 0)
