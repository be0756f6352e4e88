-- ===== src/Tests/Submission.antt =====
-- An empty ledger and an empty queue, for the theorem on the routes that start jobs.
use the_vc_brain.Prelude.{some, [], ◌∷◌}
use the_vc_brain.Redis.Memory.{memory_redis}
use the_vc_brain.Submission.{
  blank_task, person_task, memo_task, trigger_identity_resolve, score_candidate_route,
  process_candidate_route, generate_candidate_memo,
}
use the_vc_brain.Submission.Backed.{HowSubmitted, routes-HowSubmitted}
use the_vc_brain.Tests.Decision.{ada, store}
use the_vc_brain.Tests.Queue.{at_start}

routes-HowSubmitted_example :
    HowSubmitted memory_redis 30 4
      (some "down")
      (λ id. record blank_task { job_type = some "resolve_identities"; job_id = some id })
      []
      at_start
      (trigger_identity_resolve memory_redis 30 4 (some "down") [] at_start)
    × HowSubmitted memory_redis 30 4
        (some "down")
        (person_task "score_candidate" 7)
        []
        at_start
        (score_candidate_route memory_redis 30 4 (some "down") (ada ∷ []) 7 [] at_start)
    × HowSubmitted memory_redis 30 4
        (some "down")
        (person_task "process_candidate" 7)
        []
        at_start
        (process_candidate_route memory_redis 30 4 (some "down") (ada ∷ []) 7 [] at_start)
    × HowSubmitted memory_redis 30 4
        (some "down")
        (memo_task 7 3)
        []
        at_start
        (generate_candidate_memo memory_redis 30 4 (some "down") (ada ∷ []) store 7 3 [] at_start)
routes-HowSubmitted_example =
    routes-HowSubmitted memory_redis 30 4 (some "down") (ada ∷ []) store 7 3 [] at_start
