-- ===== src/Redis.antt =====
-- The Redis commands that backend/app/collectors/queue.py sends, as an interface: Redis is not part
-- of the repository. The laws are its documented behaviour on one server, which runs one command at
-- a time. A sorted set orders its members by score, and a member stands in it once.
-- The members of the code's sets are JSON texts of tasks with sorted keys, so equal texts are equal
-- tasks, and a member is the task itself.
mod Zset
pub mod Memory
use the_vc_brain.Prelude.{
  ℕ, ◌≤◌, ◌<◌, ◌≡◌, ◌≢◌, ◌⊎◌, Option, none, some, List, String, ℤ, pos, ◌-ℤ◌, ◌≤ℤ◌, length, All,
  Bool, [], ◌∷◌, ◌++◌,
}

-- A task dictionary of the collection queue; an absent key is `none`.
pub record Task : Type 0 where
  pub job_type : Option String
  pub source : Option String
  pub query : Option String
  pub person_id : Option ℕ
  pub opportunity_id : Option ℕ
  pub handle : Option String
  pub depth : Option String
  pub job_id : Option ℕ
  pub snapshot_id : Option ℕ
  pub company_name : Option String
  pub founder_evidence : Option String

-- The keys of the module: the three lanes of `_QUEUE_KEYS`, the two budgets and the page trackers.
pub data Key : Type 0 where
  high normal low : Key
  tavily_budget agent_budget : Key
  page_of : String → String → Key

abbrev pub Entry : Type 0
Entry = Task × ℤ

-- the task stands in the list
abbrev pub In : Task → List Entry → Type 0
In t [] = ⊥
In t ((u, s) ∷ l) = (t ≡ u) ⊎ In t l

-- ascending scores
abbrev pub Ascending : List Entry → Type 0
Ascending [] = Unit
Ascending ((t, s) ∷ l) = All (λ (e : Entry). s ≤ℤ e.1) l × Ascending l

pub record Redis : Type 1 where
  pub State : Type 0
  pub same_task : Discrete Task
  -- ZSCORE key task
  pub zscore : State → Key → Task → Option ℤ
  -- ZADD key score task
  pub zadd : State → Key → Task → ℤ → State
  -- ZPOPMIN key count
  pub zpopmin : State → Key → ℕ → List Entry × State
  -- ZRANGE key 0 count-1 WITHSCORES
  pub zrange : State → Key → ℕ → List Entry
  -- ZCARD key, DEL key
  pub zcard : State → Key → ℕ
  pub delete : State → Key → State
  -- GET of a key that holds an integer
  pub get : State → Key → Option ℤ
  -- SET, SET NX and DECRBY
  pub set : State → Key → ℤ → State
  pub set_nx : State → Key → ℤ → State
  pub decrby : State → Key → ℤ → State
  -- ZADD sets the member's score and leaves the other members and keys alone.
  pub zscore-zadd_self :
      (r : State) (k : Key) (t : Task) (s : ℤ) → zscore (zadd r k t s) k t ≡ some s
  pub zscore-zadd_ne :
      (r : State) (k j : Key) (t u : Task) (s : ℤ)
      → (j ≢ k) ⊎ (u ≢ t)
      → zscore (zadd r k t s) j u ≡ zscore r j u
  pub get-zadd : (r : State) (k j : Key) (t : Task) (s : ℤ) → get (zadd r k t s) j ≡ get r j
  -- ZPOPMIN takes members with the smallest scores, at most so many, and fewer only if none is left.
  pub zpopmin-length : (r : State) (k : Key) (n : ℕ) → length (zpopmin r k n).0 ≤ n
  pub zpopmin-short :
      (r : State) (k : Key) (n : ℕ)
      → length (zpopmin r k n).0 < n
      → (t : Task) → zscore (zpopmin r k n).1 k t ≡ none
  pub zpopmin-popped :
      (r : State) (k : Key) (n : ℕ)
      → All (λ (e : Entry). zscore r k e.0 ≡ some e.1) (zpopmin r k n).0
  pub zpopmin-Ascending : (r : State) (k : Key) (n : ℕ) → Ascending (zpopmin r k n).0
  pub zpopmin-least :
      (r : State) (k : Key) (n : ℕ) (t : Task) (s : ℤ)
      → zscore (zpopmin r k n).1 k t ≡ some s
      → (zscore r k t ≡ some s) × All (λ (e : Entry). e.1 ≤ℤ s) (zpopmin r k n).0
  pub zpopmin-keeps :
      (r : State) (k : Key) (n : ℕ) (t : Task) (s : ℤ)
      → zscore r k t ≡ some s
      → In t (zpopmin r k n).0 ⊎ (zscore (zpopmin r k n).1 k t ≡ some s)
  pub zpopmin-others :
      (r : State) (k j : Key) (n : ℕ) (t : Task)
      → j ≢ k
      → zscore (zpopmin r k n).1 j t ≡ zscore r j t
  pub get-zpopmin : (r : State) (k j : Key) (n : ℕ) → get (zpopmin r k n).1 j ≡ get r j
  -- ZRANGE reads what ZPOPMIN would take.
  pub zrange-zpopmin : (r : State) (k : Key) (n : ℕ) → zrange r k n ≡ (zpopmin r k n).0
  pub zcard-zrange : (r : State) (k : Key) → length (zrange r k (zcard r k)) ≡ zcard r k
  pub zscore-delete_self : (r : State) (k : Key) (t : Task) → zscore (delete r k) k t ≡ none
  pub zscore-delete_ne :
      (r : State) (k j : Key) (t : Task) → j ≢ k → zscore (delete r k) j t ≡ zscore r j t
  -- The counters.
  pub get-set_self : (r : State) (k : Key) (v : ℤ) → get (set r k v) k ≡ some v
  pub get-set_ne : (r : State) (k j : Key) (v : ℤ) → j ≢ k → get (set r k v) j ≡ get r j
  pub zscore-set :
      (r : State) (k j : Key) (v : ℤ) (t : Task) → zscore (set r k v) j t ≡ zscore r j t
  pub set_nx-absent : (r : State) (k : Key) (v : ℤ) → get r k ≡ none → set_nx r k v ≡ set r k v
  pub set_nx-present : (r : State) (k : Key) (v w : ℤ) → get r k ≡ some w → set_nx r k v ≡ r
  pub decrby-absent :
      (r : State) (k : Key) (v : ℤ) → get r k ≡ none → decrby r k v ≡ set r k (pos 0 -ℤ v)
  pub decrby-present :
      (r : State) (k : Key) (v w : ℤ) → get r k ≡ some w → decrby r k v ≡ set r k (w -ℤ v)
