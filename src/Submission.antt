-- ===== src/Submission.antt =====
-- The routes of backend/app/api/routes/collection.py and candidates.py that start a job of one
-- person or of the identity resolution: a row of the ledger is committed, then its task is queued. The
-- arguments are the ledger and Redis, the next unused id `fresh`, the clock `now`, and `failure`, the
-- text of the exception where the call of Redis raises one and changes nothing.
pub mod Backed
use Prim.Native.String.{◌++◌ as join}
use the_vc_brain.Prelude.{
  ℕ, ◌*◌, Bool, true, false, Option, none, some, List, [], ◌∷◌, String, not, if◌then◌else◌, is_some,
}
use the_vc_brain.Models.{Person, Store, Value, text}
use the_vc_brain.Redis.{Task, Redis}
use the_vc_brain.Queue.{unit, enqueue}
use the_vc_brain.JobLedger.{JobRun, JobUpdate, update_job, create_job}
use the_vc_brain.Identity.{person}
use the_vc_brain.Decision.{linked}
use the_vc_brain.Http.{Reply, responded, refused, unhandled}

abbrev pub blank_task : Task
blank_task = record {
  job_type = none;
  source = none;
  query = none;
  person_id = none;
  opportunity_id = none;
  handle = none;
  depth = none;
  job_id = none;
  snapshot_id = none;
  company_name = none;
  founder_evidence = none;
}

-- the keyword arguments of `update_job` in the except clause
abbrev pub queue_failed : String → JobUpdate
queue_failed last_error = record {
  status = "failed";
  phase = "queue";
  attempt = none;
  progress = none;
  last_error = some last_error;
  clear_error = false;
  result = some (("error", text "queue_failed") ∷ []);
}

-- the task of a route for one person
abbrev pub person_task : String → ℕ → ℕ → Task
person_task job_type person_id id = record blank_task {
  job_type = some job_type;
  person_id = some person_id;
  job_id = some id;
}

abbrev pub memo_task : ℕ → ℕ → ℕ → Task
memo_task person_id opportunity_id id = record (person_task "generate_memo" person_id id) {
  opportunity_id = some opportunity_id;
}

module _ (server : Redis) (now fresh : ℕ) (failure : Option String) where
  open server use {State}

  -- the reply with the id of the job, the ledger and Redis
  abbrev pub Submitted : Type 0
  Submitted = Reply ℕ × List JobRun × State

  abbrev pub queue_or_fail :
      Option String → (ℕ → Task) → ℕ → String → List JobRun → State → JobRun → Submitted
  queue_or_fail none task priority detail jobs redis job =
      (responded job.id, jobs, enqueue server redis (task job.id) priority)
  queue_or_fail (some last_error) task priority detail jobs redis job =
      (refused 503 detail, (update_job now jobs (some job.id) (queue_failed last_error)).0, redis)

  abbrev pub submit_created :
      Option (List JobRun × JobRun) → (ℕ → Task) → ℕ → String → List JobRun → State → Submitted
  submit_created none task priority detail jobs redis = (unhandled, jobs, redis)
  submit_created (some (jobs, job)) task priority detail before redis =
      queue_or_fail failure task priority detail jobs redis job

  -- what the routes do after their checks
  unfoldable pub submit : String → (ℕ → Task) → ℕ → String → List JobRun → State → Submitted
  submit job_type task priority detail jobs redis =
      submit_created (create_job jobs job_type none fresh) task priority detail jobs redis

  unfoldable pub trigger_identity_resolve : List JobRun → State → Submitted
  unfolding submit
  trigger_identity_resolve jobs redis =
      submit "resolve_identities"
        (λ id. record blank_task { job_type = some "resolve_identities"; job_id = some id })
        (10 * unit) "Unable to queue identity resolution" jobs redis

  -- a check that the routes make before they queue
  abbrev pub guarded : Bool → ℕ → String → Submitted → List JobRun → State → Submitted
  guarded true status_code detail queued jobs redis = queued
  guarded false status_code detail queued jobs redis = (refused status_code detail, jobs, redis)

  abbrev pub for_person : Option Person → (ℕ → Submitted) → List JobRun → State → Submitted
  for_person none queue jobs redis = (refused 404 "Candidate not found", jobs, redis)
  for_person (some p) queue jobs redis =
      guarded p.canonical 404 "Candidate not found" (queue p.id) jobs redis

  unfoldable pub score_candidate_route : List Person → ℕ → List JobRun → State → Submitted
  unfolding submit
  score_candidate_route persons candidate_id jobs redis =
      for_person (person persons candidate_id)
        (λ id.
          submit "score_candidate" (person_task "score_candidate" id) (10 * unit)
            "Unable to queue scoring job" jobs redis)
        jobs redis

  unfoldable pub process_candidate_route : List Person → ℕ → List JobRun → State → Submitted
  unfolding submit
  process_candidate_route persons candidate_id jobs redis =
      for_person (person persons candidate_id)
        (λ id.
          submit "process_candidate" (person_task "process_candidate" id) (5 * unit)
            "Unable to queue processing job" jobs redis)
        jobs redis

  unfoldable pub generate_candidate_memo :
      List Person → Store → ℕ → ℕ → List JobRun → State → Submitted
  unfolding submit
  generate_candidate_memo persons store candidate_id opportunity_id jobs redis =
      for_person (person persons candidate_id)
        (λ id.
          guarded (is_some (linked store opportunity_id id)) 409
            "Candidate is not linked to this opportunity"
            (submit "generate_memo" (memo_task id opportunity_id) (10 * unit)
              "Unable to queue memo job" jobs redis)
            jobs redis)
        jobs redis
