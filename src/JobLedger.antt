-- ===== src/JobLedger.antt =====
-- backend/app/job_ledger.py: the durable record of asynchronous jobs. The table of runs is passed
-- and returned; the clock `now` is an argument. An id that comes as a text is given by its parse:
-- `none` is a text that is no UUID.
pub mod Bounds
use the_vc_brain.Prelude.{
  ℕ, ◌+◌, ◌^◌, Bool, true, false, Option, none, some, List, [], ◌∷◌, ◌++◌, String, str_eq, ◌==◌,
  ◌||◌, if◌then◌else◌, find, any, update_where, ℤ, pos, pos_part, leb_ℤ, is_some,
}
use the_vc_brain.Models.{Metadata}

-- `progress` is a float, counted in units of 2 ^ -1074.
pub record JobRun : Type 0 where
  pub id : ℕ
  pub job_type : String
  pub status : String
  pub phase : String
  pub attempt : ℤ
  pub progress : ℤ
  pub last_error : Option String
  pub result : Option Metadata
  pub cancel_requested : Bool
  pub started_at : Option ℕ
  pub finished_at : Option ℕ

-- 1.0
abbrev pub whole : ℤ
whole = pos (2 ^ 1074)

-- `max(0.0, min(1.0, progress))`
abbrev pub clamp : ℤ → ℤ
clamp progress = if leb_ℤ whole progress then whole else pos (pos_part progress)

-- `max(0, attempt)`
abbrev pub at_least_0 : ℤ → ℤ
at_least_0 attempt = pos (pos_part attempt)

-- The keyword arguments of `update_job`.
pub record JobUpdate : Type 0 where
  pub status : String
  pub phase : String
  pub attempt : Option ℤ
  pub progress : Option ℤ
  pub last_error : Option String
  pub clear_error : Bool
  pub result : Option Metadata

abbrev or_else {ℓ} : {A : Type ℓ} → Option A → A → A
or_else none a = a
or_else (some b) a = b

abbrev or_kept {ℓ} : {A : Type ℓ} → Option A → Option A → Option A
or_kept none a = a
or_kept (some b) a = some b

abbrev pub clamped : Option ℤ → ℤ → ℤ
clamped none old = old
clamped (some progress) old = clamp progress

abbrev pub counted : Option ℤ → ℤ → ℤ
counted none old = old
counted (some attempt) old = at_least_0 attempt

-- `status in {"succeeded", "failed", "cancelled"}`
abbrev pub is_finished : String → Bool
is_finished status =
    str_eq status "succeeded" || str_eq status "failed" || str_eq status "cancelled"

-- the assignments of `update_job` to the row
unfoldable pub updated : ℕ → JobUpdate → JobRun → JobRun
updated now u job = record job {
  status = u.status;
  phase = u.phase;
  attempt = counted u.attempt job.attempt;
  progress = if str_eq u.status "succeeded" then whole else clamped u.progress job.progress;
  last_error = if u.clear_error then none else or_kept u.last_error job.last_error;
  result = or_kept u.result job.result;
  started_at =
      if str_eq u.status "running" then some (or_else job.started_at now) else job.started_at;
  finished_at = if is_finished u.status then some now else job.finished_at;
}

abbrev pub save_job : JobRun → List JobRun → List JobRun
save_job job = update_where (λ (r : JobRun). r.id == job.id) (λ (r : JobRun). job)

-- `session.get(JobRun, id)`
abbrev pub get_job : ℕ → List JobRun → Option JobRun
get_job id = find (λ (r : JobRun). r.id == id)

abbrev pub update_found : ℕ → JobUpdate → List JobRun → Option JobRun → List JobRun × Option JobRun
update_found now u jobs none = (jobs, none)
update_found now u jobs (some job) = let job' = updated now u job in (save_job job' jobs, some job')

unfoldable pub update_job : ℕ → List JobRun → Option ℕ → JobUpdate → List JobRun × Option JobRun
unfolding updated
update_job now jobs none u = (jobs, none)
update_job now jobs (some id) u = update_found now u jobs (get_job id jobs)

-- `status in {"succeeded", "cancelled"}`
abbrev pub is_settled : String → Bool
is_settled status = str_eq status "succeeded" || str_eq status "cancelled"

-- `max(1, (job.attempt or 0) + 1)`
abbrev pub next_attempt : ℤ → ℤ
next_attempt attempt = pos (pos_part attempt + 1)

-- what `start_job` asks of `update_job`
abbrev pub starting : String → JobRun → JobUpdate
starting phase job = record {
  status = "running";
  phase = phase;
  attempt = some (next_attempt job.attempt);
  progress = none;
  last_error = none;
  clear_error = true;
  result = none;
}

abbrev pub start_found : ℕ → String → List JobRun → Option JobRun → List JobRun × Option JobRun
start_found now phase jobs none = (jobs, none)
start_found now phase jobs (some job) =
    if is_settled job.status
    then (jobs, some job)
    else update_job now jobs (some job.id) (starting phase job)

unfoldable pub start_job : ℕ → List JobRun → Option ℕ → String → List JobRun × Option JobRun
unfolding update_job
start_job now jobs none phase = (jobs, none)
start_job now jobs (some id) phase = start_found now phase jobs (get_job id jobs)

-- `create_job`; a given id that a row has is the database's error, `none`.
unfoldable pub create_job : List JobRun → String → Option ℕ → ℕ → Option (List JobRun × JobRun)
create_job jobs job_type job_id fresh =
    let id = or_else job_id fresh in
    let job : JobRun = record {
      id = id;
      job_type = job_type;
      status = "queued";
      phase = "queued";
      attempt = pos 0;
      progress = pos 0;
      last_error = none;
      result = none;
      cancel_requested = false;
      started_at = none;
      finished_at = none;
    } in
    if any (λ (r : JobRun). r.id == id) jobs then none else some (jobs ++ job ∷ [], job)
