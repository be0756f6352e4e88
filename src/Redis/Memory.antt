-- ===== src/Redis/Memory.antt =====
-- The interface of the_vc_brain.Redis met by sorted lists and a table of counters.
use mathlib.Core.Logic.{ite, if_pos, if_neg}
use native.Mathlib.Decide.{ℕ_discrete}
use the_vc_brain.Prelude.{
  ℕ, ◌<◌, ◌≡◌, ◌≢◌, refl, ◌∙◌, ◌⊎◌, inl, inr, Option, none, some, List, [], ℤ, pos, ◌≤ℤ◌, ◌-ℤ◌,
  length, All, take, drop, Bool-cases, String, str_eq, eq_iff, false, length-take-le, ap,
  take-length,
}
use the_vc_brain.Redis.{Task, Key, Redis, In}
use the_vc_brain.Redis.Zset.{
  lookup, remove, insert, IsZset, lookup-remove_self, lookup-remove_ne, lookup-insert_self,
  lookup-insert_ne, remove-IsZset, insert-IsZset, drop-IsZset, lookup-take, drop_least, drop_keeps,
  take-Ascending, drop_short,
}

pub ne_of_false : (s t : String) → str_eq s t ≡ false → s ≢ t
ne_of_false s t n p = cc ((eq_iff s t).1 p)

unfoldable pub String-discrete : Discrete String
String-discrete s t = elim (Bool-cases (str_eq s t)) [
  | inl e ↦ yes ((eq_iff s t).0 e)
  | inr n ↦ no (ne_of_false s t n)
]

unfoldable pub Task-discrete : Discrete Task
unfolding String-discrete
Task-discrete = hlevel (String-discrete, ℕ_discrete)

unfoldable pub Key-discrete : Discrete Key
unfolding String-discrete
Key-discrete = hlevel String-discrete

abbrev pub Zset : Type 0
Zset = (entries : List (Task × ℤ)) × IsZset Task-discrete entries

pub record Memory : Type 0 where
  pub sets : Key → Zset
  pub counters : Key → Option ℤ

module _ {V : Type 0} where
  abbrev pub update : (Key → V) → Key → V → Key → V
  update f k v j = ite (Key-discrete j k) v (f j)

  pub update_self : (f : Key → V) (k : Key) (v : V) → update f k v k ≡ v
  update_self f k v = if_pos _ refl v (f k)

  pub update_ne : (f : Key → V) (k j : Key) (v : V) → j ≢ k → update f k v j ≡ f j
  update_ne f k j v n = if_neg _ n v (f j)

abbrev pub zadd_set : Zset → Task → ℤ → Zset
zadd_set z t s = (
  insert Task-discrete (t, s) (remove Task-discrete t z.0),
  insert-IsZset Task-discrete t s (remove Task-discrete t z.0)
      (lookup-remove_self Task-discrete t z.0) (remove-IsZset Task-discrete t z.0 z.1),
)

abbrev pub zpop_set : Zset → ℕ → Zset
zpop_set z n = (drop n z.0, drop-IsZset Task-discrete n z.0 z.1)

abbrev pub zscore : Memory → Key → Task → Option ℤ
zscore m k t = lookup Task-discrete t (m.sets k).0

abbrev pub zadd : Memory → Key → Task → ℤ → Memory
zadd m k t s = record m { sets = update m.sets k (zadd_set (m.sets k) t s) }

abbrev pub zpopmin : Memory → Key → ℕ → List (Task × ℤ) × Memory
zpopmin m k n = (take n (m.sets k).0, record m { sets = update m.sets k (zpop_set (m.sets k) n) })

abbrev pub set : Memory → Key → ℤ → Memory
set m k v = record m { counters = update m.counters k (some v) }

abbrev pub if_absent : Option ℤ → Memory → Memory → Memory
if_absent none a b = a
if_absent (some v) a b = b

abbrev pub or_zero : Option ℤ → ℤ
or_zero none = pos 0
or_zero (some v) = v

zadd_same :
    (m : Memory) (k : Key) (t : Task) (s : ℤ) → (zadd m k t s).sets k ≡ zadd_set (m.sets k) t s
zadd_same m k t s = update_self m.sets k _

zadd_other : (m : Memory) (k j : Key) (t : Task) (s : ℤ) → j ≢ k → (zadd m k t s).sets j ≡ m.sets j
zadd_other m k j t s n = update_ne m.sets k j _ n

zpop_same : (m : Memory) (k : Key) (n : ℕ) → (zpopmin m k n).1.sets k ≡ zpop_set (m.sets k) n
zpop_same m k n = update_self m.sets k _

pub zscore-zadd_self :
    (m : Memory) (k : Key) (t : Task) (s : ℤ) → zscore (zadd m k t s) k t ≡ some s
zscore-zadd_self m k t s = rw (zadd_same m k t s) (
    lookup-insert_self Task-discrete t s (remove Task-discrete t (m.sets k).0)
      (lookup-remove_self Task-discrete t (m.sets k).0))

zscore-zadd_task :
    (m : Memory) (k : Key) (t u : Task) (s : ℤ) → u ≢ t → zscore (zadd m k t s) k u ≡ zscore m k u
zscore-zadd_task m k t u s n = rw (zadd_same m k t s) (
    lookup-insert_ne Task-discrete t u s (remove Task-discrete t (m.sets k).0) n
    ∙ lookup-remove_ne Task-discrete t u (m.sets k).0 n)

pub zscore-zadd_ne :
    (m : Memory) (k j : Key) (t u : Task) (s : ℤ)
    → (j ≢ k) ⊎ (u ≢ t)
    → zscore (zadd m k t s) j u ≡ zscore m j u
zscore-zadd_ne m k j t u s (inl n) = rw (zadd_other m k j t s n)
zscore-zadd_ne m k j t u s (inr n) = elim (Key-discrete j k) [
  | yes p ↦ rw p (zscore-zadd_task m k t u s n)
  | no q ↦ rw (zadd_other m k j t s q)
]

pub zpopmin-short :
    (m : Memory) (k : Key) (n : ℕ)
    → length (zpopmin m k n).0 < n
    → (t : Task) → zscore (zpopmin m k n).1 k t ≡ none
zpopmin-short m k n h t = rw (zpop_same m k n) (drop_short Task-discrete n (m.sets k).0 h t)

pub zpopmin-least :
    (m : Memory) (k : Key) (n : ℕ) (t : Task) (s : ℤ)
    → zscore (zpopmin m k n).1 k t ≡ some s
    → (zscore m k t ≡ some s) × All (λ (e : Task × ℤ). e.1 ≤ℤ s) (zpopmin m k n).0
zpopmin-least m k n t s h =
    drop_least Task-discrete n t s (m.sets k).0 (m.sets k).1 (rw (zpop_same m k n) at h)

pub zpopmin-keeps :
    (m : Memory) (k : Key) (n : ℕ) (t : Task) (s : ℤ)
    → zscore m k t ≡ some s
    → In t (zpopmin m k n).0 ⊎ (zscore (zpopmin m k n).1 k t ≡ some s)
zpopmin-keeps m k n t s h = rw (zpop_same m k n) (drop_keeps Task-discrete n t s (m.sets k).0 h)

pub zpopmin-others :
    (m : Memory) (k j : Key) (n : ℕ) (t : Task)
    → j ≢ k
    → zscore (zpopmin m k n).1 j t ≡ zscore m j t
zpopmin-others m k j n t d = rw (update_ne m.sets k j (zpop_set (m.sets k) n) d)

abbrev pub delete : Memory → Key → Memory
delete m k = record m { sets = update m.sets k ([], tt) }

pub zscore-delete_self : (m : Memory) (k : Key) (t : Task) → zscore (delete m k) k t ≡ none
zscore-delete_self m k t = rw (update_self m.sets k ([], tt))

pub zscore-delete_ne :
    (m : Memory) (k j : Key) (t : Task) → j ≢ k → zscore (delete m k) j t ≡ zscore m j t
zscore-delete_ne m k j t n = rw (update_ne m.sets k j ([], tt) n)

unfoldable pub memory_redis : Redis
unfolding Task-discrete Key-discrete
memory_redis = record {
  State = Memory;
  same_task = Task-discrete;
  zscore = zscore;
  zadd = zadd;
  zpopmin = zpopmin;
  zrange = λ m k n. take n (m.sets k).0;
  zcard = λ m k. length (m.sets k).0;
  delete = delete;
  get = λ m k. m.counters k;
  set = set;
  set_nx = λ m k v. if_absent (m.counters k) (set m k v) m;
  decrby = λ m k v. set m k (or_zero (m.counters k) -ℤ v);
  zscore-zadd_self = zscore-zadd_self;
  zscore-zadd_ne = zscore-zadd_ne;
  get-zadd = λ m k j t s. refl;
  zpopmin-length = λ m k n. length-take-le n (m.sets k).0;
  zpopmin-short = zpopmin-short;
  zpopmin-popped = λ m k n. lookup-take Task-discrete n (m.sets k).0 (m.sets k).1;
  zpopmin-Ascending = λ m k n. take-Ascending Task-discrete n (m.sets k).0 (m.sets k).1;
  zpopmin-least = zpopmin-least;
  zpopmin-keeps = zpopmin-keeps;
  zpopmin-others = zpopmin-others;
  get-zpopmin = λ m k j n. refl;
  zrange-zpopmin = λ m k n. refl;
  zcard-zrange = λ m k. ap length (take-length (m.sets k).0);
  zscore-delete_self = zscore-delete_self;
  zscore-delete_ne = zscore-delete_ne;
  get-set_self = λ m k v. update_self m.counters k (some v);
  get-set_ne = λ m k j v n. update_ne m.counters k j (some v) n;
  zscore-set = λ m k j v t. refl;
  set_nx-absent = λ m k v h. rw h;
  set_nx-present = λ m k v w h. rw h;
  decrby-absent = λ m k v h. rw h;
  decrby-present = λ m k v w h. rw h;
}

abbrev pub empty : Memory
empty = record { sets = λ k. ([], tt); counters = λ k. none }
