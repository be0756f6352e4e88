-- ===== src/Tests/Dispatcher.antt =====
-- A queue and a budget on which the theorems about the dispatcher of backend/app/collectors/jobs.py
-- are applied.
use the_vc_brain.Prelude.{Bool, ℕ, pos, ◌≤ℤ◌, ◌*◌, ◌==◌, arith}
use the_vc_brain.Redis.{tavily_budget}
use the_vc_brain.Redis.Memory.{memory_redis}
use the_vc_brain.Queue.{unit, enqueue, reset_budget, get_budget_remaining}
use the_vc_brain.Dispatcher.{dispatcher_job}
use the_vc_brain.Dispatcher.Conservation.{IsKept, dispatcher_job-IsKept}
use the_vc_brain.Dispatcher.Budget.{IsCharged, dispatcher_job-IsCharged}
use the_vc_brain.Queue.Lanes.{enqueue-Held}
use the_vc_brain.Tests.Queue.{scan, score, one_task, one_task-Held}

-- every call of the pool but the first one fails
abbrev accepts : ℕ → Bool
accepts n = n == 0

abbrev two_tasks : memory_redis.State
two_tasks = enqueue memory_redis one_task score (12 * unit)

abbrev funded : memory_redis.State
funded = reset_budget memory_redis two_tasks tavily_budget 3

solvent : pos 0 ≤ℤ get_budget_remaining memory_redis funded tavily_budget
unfolding get_budget_remaining reset_budget
solvent = rw (memory_redis.get-set_self two_tasks tavily_budget (pos 3)) (omega arith)

dispatcher_job-IsKept_example :
    IsKept memory_redis accepts (dispatcher_job memory_redis accepts two_tasks 5) scan
dispatcher_job-IsKept_example =
    dispatcher_job-IsKept memory_redis accepts two_tasks 5 scan
      (enqueue-Held memory_redis one_task score scan (12 * unit) one_task-Held)

dispatcher_job-IsCharged_example :
    IsCharged memory_redis accepts
      (get_budget_remaining memory_redis funded tavily_budget)
      (dispatcher_job memory_redis accepts funded 5)
dispatcher_job-IsCharged_example = dispatcher_job-IsCharged memory_redis accepts funded 5 solvent
