-- ===== src/Tests/Queue.antt =====
-- Queues on which the theorems about backend/app/collectors/queue.py are applied.
use the_vc_brain.Prelude.{◌*◌, ◌≡◌, ◌≢◌, none, some, [], ◌⊎◌, pos, refl, All, arith}
use the_vc_brain.Time.{negate}
use the_vc_brain.Redis.{Task, Key, page_of}
use the_vc_brain.Redis.Memory.{memory_redis, empty}
use the_vc_brain.Queue.{
  unit, lane, enqueue, pop_top_with_priority, reserved, get_discovery_page, rollback_discovery_page,
}
use the_vc_brain.Queue.Lanes.{IsLaned, Held, enqueue-IsLaned, enqueue-Held_self}
use the_vc_brain.Queue.Items.{Item, Among}
use the_vc_brain.Queue.Pop.{Popped, pop_top_with_priority-Popped}
use the_vc_brain.Queue.Kept.{pop_top_with_priority-kept}
use the_vc_brain.Queue.Counters.{enqueue-two_lanes, rollback_retries, IsTracked}

abbrev pub scan : Task
scan = record {
  job_type = some "discover";
  source = some "tavily_search";
  query = some "founders in Berlin";
  person_id = none;
  opportunity_id = none;
  handle = none;
  depth = none;
  job_id = none;
  snapshot_id = none;
  company_name = none;
  founder_evidence = none;
}

abbrev pub score : Task
score = record scan { job_type = some "score_candidate"; source = none; person_id = some 3 }

-- the empty memory, as a state of the interface
unfoldable pub at_start : memory_redis.State
unfolding memory_redis
at_start = empty

pub at_start-IsLaned : IsLaned memory_redis at_start
unfolding memory_redis at_start
at_start-IsLaned k t s e = absurd (cc e)

abbrev pub one_task : memory_redis.State
one_task = enqueue memory_redis at_start scan (2 * unit)

pub one_task-IsLaned : IsLaned memory_redis one_task
one_task-IsLaned = enqueue-IsLaned memory_redis at_start scan (2 * unit) at_start-IsLaned

pub one_task-Held : Held memory_redis one_task scan
one_task-Held = enqueue-Held_self memory_redis at_start scan (2 * unit)

lanes_apart : lane (2 * unit) ≢ lane (12 * unit)
unfolding lane
lanes_apart e = cc e

abbrev pub tracker : Key
tracker = page_of "tavily_search" "founders in Berlin"

untracked : IsTracked memory_redis at_start tracker 0
unfolding memory_redis at_start
untracked = (refl, omega arith)

pop_top_with_priority-Popped_example :
    Popped memory_redis 5 (pop_top_with_priority memory_redis one_task 5)
pop_top_with_priority-Popped_example =
    pop_top_with_priority-Popped memory_redis one_task 5 one_task-IsLaned

pop_top_with_priority-kept_example :
    let (result, r') = pop_top_with_priority memory_redis one_task 5 in
    (Among scan result ⊎ Held memory_redis r' scan)
    × All (λ (x : Item). Held memory_redis one_task x.0) result
pop_top_with_priority-kept_example =
    pop_top_with_priority-kept memory_redis one_task 5 scan one_task-Held

enqueue-two_lanes_example :
    let r' = enqueue memory_redis one_task scan (12 * unit) in
    (memory_redis.zscore r' (lane (2 * unit)) scan ≡ some (negate (2 * unit)))
    × (memory_redis.zscore r' (lane (12 * unit)) scan ≡ some (negate (12 * unit)))
enqueue-two_lanes_example =
    enqueue-two_lanes memory_redis at_start scan (2 * unit) (12 * unit) lanes_apart

rollback_retries_example :
    ((x y : memory_redis.State) × (get_discovery_page memory_redis at_start "tavily_search"
          "founders in Berlin" []
        ≡ reserved (pos 1) x)
      × IsTracked memory_redis x tracker 1
      × IsTracked memory_redis
          (rollback_discovery_page memory_redis x "tavily_search" "founders in Berlin" (pos 1) [])
          tracker
          0
      × (get_discovery_page memory_redis
            (rollback_discovery_page memory_redis x "tavily_search" "founders in Berlin" (pos 1) [])
            "tavily_search"
            "founders in Berlin"
            []
          ≡ reserved (pos 1) y)
      × IsTracked memory_redis y tracker 1)
    × (rollback_discovery_page memory_redis at_start "tavily_search" "founders in Berlin" (pos 4) []
        ≡ at_start)
rollback_retries_example =
    rollback_retries memory_redis at_start "tavily_search" "founders in Berlin" 0 4 untracked
      (λ e. cc e)
