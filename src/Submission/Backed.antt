-- ===== src/Submission/Backed.antt =====
-- A job that a route of backend/app/api/routes starts is queued or failed.
use the_vc_brain.Prelude.{
  ℕ, ◌≡◌, inl, inr, refl, Bool, true, false, Option, none, some, List, [], ◌∷◌, ◌++◌, String, ◌==◌,
  ==_refl, Bool-cases, any, find-save, is_some, subst,
}
use the_vc_brain.Models.{Person, Store}
use the_vc_brain.Redis.{Task, Redis}
use the_vc_brain.Queue.{enqueue}
use the_vc_brain.Queue.Lanes.{Held, enqueue-Held_self}
use the_vc_brain.JobLedger.{JobRun, get_job, updated, update_job, create_job}
use the_vc_brain.Identity.{person}
use the_vc_brain.Identity.Handles.{found-id}
use the_vc_brain.Decision.{linked}
use the_vc_brain.Http.{responded, refused, unhandled}
use the_vc_brain.Submission.{
  queue_failed, Submitted, queue_or_fail, submit, trigger_identity_resolve, person_task, guarded,
  for_person, score_candidate_route, process_candidate_route, memo_task, generate_candidate_memo,
  blank_task,
}

get_job-append :
    (id : ℕ) (jobs : List JobRun) (job : JobRun)
    → any (λ (r : JobRun). r.id == id) jobs ≡ false
    → (job.id == id) ≡ true
    → get_job id (jobs ++ job ∷ []) ≡ some job
get_job-append id [] job n e = rw e
get_job-append id (r ∷ jobs) job n e = elim (Bool-cases (r.id == id)) [
  | inl t ↦ cc (rw t at n)
  | inr t ↦ rw t (get_job-append id jobs job (rw t at n) e)
]

module _ (server : Redis) (now fresh : ℕ) (failure : Option String) where
  open server use {State}

  -- How a route ends, with the task that it queues for the id of its job.
  pub data HowSubmitted (task : ℕ → Task) (jobs : List JobRun) (redis : State)
      : Submitted server now fresh failure → Type 0 where
    rejected :
        (status_code : ℕ) (detail : String)
        → HowSubmitted task jobs redis (refused status_code detail, jobs, redis)
    taken : HowSubmitted task jobs redis (unhandled, jobs, redis)
    queued :
        (ledger : List JobRun) (after : State) (job : JobRun)
        → get_job fresh ledger ≡ some job
        → job.status ≡ "queued"
        → Held server after (task fresh)
        → failure ≡ none
        → HowSubmitted task jobs redis (responded fresh, ledger, after)
    failed :
        (detail last_error : String) (ledger : List JobRun) (job : JobRun)
        → get_job fresh ledger ≡ some job
        → job.status ≡ "failed"
        → job.last_error ≡ some last_error
        → job.finished_at ≡ some now
        → failure ≡ some last_error
        → HowSubmitted task jobs redis (refused 503 detail, ledger, redis)

  queue_or_fail-HowSubmitted :
      (found : Option String) (task : ℕ → Task) (priority : ℕ) (detail : String)
      (jobs ledger : List JobRun) (redis : State) (job : JobRun)
      → get_job fresh ledger ≡ some job
      → job.id ≡ fresh
      → job.status ≡ "queued"
      → failure ≡ found
      → HowSubmitted task jobs redis
          (queue_or_fail server now fresh failure found task priority detail ledger redis job)
  unfolding update_job
  queue_or_fail-HowSubmitted none task priority detail jobs ledger redis job e i s f = rw i (
      queued ledger (enqueue server redis (task fresh) priority) job e s
        (enqueue-Held_self server redis (task fresh) priority) f)
  queue_or_fail-HowSubmitted (some last_error) task priority detail jobs ledger redis job e i s f =
      let after = updated now (queue_failed last_error) job in
      rw (i, e)
        (failed detail last_error _ after (find-save (λ (r : JobRun). r.id) fresh ledger after e i)
          refl refl refl f)

  submit-HowSubmitted :
      (job_type : String) (task : ℕ → Task) (priority : ℕ) (detail : String) (jobs : List JobRun)
      (redis : State)
      → HowSubmitted task jobs redis
          (submit server now fresh failure job_type task priority detail jobs redis)
  unfolding submit create_job
  submit-HowSubmitted job_type task priority detail jobs redis =
      elim (Bool-cases (any (λ (r : JobRun). r.id == fresh) jobs)) [
        | inl t ↦ rw t taken
        | inr t ↦ rw t (
            queue_or_fail-HowSubmitted failure task priority detail jobs _ redis _
              (get_job-append fresh jobs _ t (==_refl fresh)) refl refl refl)
      ]

  guarded-HowSubmitted :
      (test : Bool) (status_code : ℕ) (detail : String) (next : Submitted server now fresh failure)
      (task : ℕ → Task) (jobs : List JobRun) (redis : State)
      → HowSubmitted task jobs redis next
      → HowSubmitted task jobs redis
          (guarded server now fresh failure test status_code detail next jobs redis)
  guarded-HowSubmitted true status_code detail next task jobs redis h = h
  guarded-HowSubmitted false status_code detail next task jobs redis h = rejected status_code detail

  for_person-HowSubmitted :
      (persons : List Person) (candidate_id : ℕ) (found : Option Person)
      (queue : ℕ → Submitted server now fresh failure) (task : ℕ → ℕ → Task) (jobs : List JobRun)
      (redis : State)
      → person persons candidate_id ≡ found
      → ((id : ℕ) → HowSubmitted (task id) jobs redis (queue id))
      → HowSubmitted
          (task candidate_id)
          jobs
          redis
          (for_person server now fresh failure found queue jobs redis)
  for_person-HowSubmitted persons candidate_id none queue task jobs redis e h = rejected _ _
  for_person-HowSubmitted persons candidate_id (some p) queue task jobs redis e h =
      let id = found-id persons candidate_id e in
      guarded-HowSubmitted p.canonical _ _ (queue p.id) (task candidate_id) jobs redis
        (subst (λ i. HowSubmitted (task i) jobs redis (queue p.id)) id (h p.id))

  -- Each of the four routes that start a job for the identity resolution, a score, a processing run or a
  -- memo ends in one of four ways: it is refused and changes neither the ledger nor Redis; the database
  -- refuses the id and nothing changes; the call of Redis goes through, it answers the id of a job that is
  -- queued in the ledger, and the job's task waits in Redis; or the call raises, it answers 503, Redis is as it was, and the job is failed and
  -- finished in the ledger with the text of that exception.
  pub routes-HowSubmitted :
      (persons : List Person) (store : Store) (candidate_id opportunity_id : ℕ) (jobs : List JobRun)
      (redis : State)
      → HowSubmitted
          (λ id. record blank_task { job_type = some "resolve_identities"; job_id = some id })
          jobs
          redis
          (trigger_identity_resolve server now fresh failure jobs redis)
        × HowSubmitted
            (person_task "score_candidate" candidate_id)
            jobs
            redis
            (score_candidate_route server now fresh failure persons candidate_id jobs redis)
        × HowSubmitted
            (person_task "process_candidate" candidate_id)
            jobs
            redis
            (process_candidate_route server now fresh failure persons candidate_id jobs redis)
        × HowSubmitted (memo_task candidate_id opportunity_id) jobs redis (
            generate_candidate_memo server now fresh failure persons store candidate_id
              opportunity_id jobs redis)
  unfolding trigger_identity_resolve score_candidate_route process_candidate_route
      generate_candidate_memo
  routes-HowSubmitted persons store candidate_id opportunity_id jobs redis = (
    submit-HowSubmitted _ _ _ _ jobs redis,
    for_person-HowSubmitted persons candidate_id _ _ (person_task "score_candidate") jobs redis refl
        (λ id. submit-HowSubmitted _ _ _ _ jobs redis),
    for_person-HowSubmitted persons candidate_id _ _ (person_task "process_candidate") jobs redis
        refl (λ id. submit-HowSubmitted _ _ _ _ jobs redis),
    for_person-HowSubmitted persons candidate_id _ _ (λ id. memo_task id opportunity_id) jobs redis
        refl
        (λ id.
          guarded-HowSubmitted (is_some (linked store opportunity_id id)) _ _ _ _ jobs redis
            (submit-HowSubmitted _ _ _ _ jobs redis)),
  )
