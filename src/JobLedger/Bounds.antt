-- ===== src/JobLedger/Bounds.antt =====
-- What the job ledger of backend/app/job_ledger.py keeps.
use the_vc_brain.Prelude.{
  ℕ, ◌≡◌, refl, ◌⊎◌, inl, inr, true, false, Option, none, some, List, [], ◌∷◌, String, ◌==◌, ==_iff,
  if◌then◌else◌, pos, ◌≤ℤ◌, All, arith, Bool-cases, Option-cases, sym, subst,
}
use the_vc_brain.JobLedger.{
  JobRun, JobUpdate, whole, updated, save_job, get_job, update_job, start_job, starting, is_settled,
  next_attempt,
}

-- The progress lies between 0 and 1, and the attempt is not negative.
abbrev pub IsBounded : JobRun → Type 0
IsBounded job = (pos 0 ≤ℤ job.progress) × (job.progress ≤ℤ whole) × (pos 0 ≤ℤ job.attempt)

updated-IsBounded :
    (now : ℕ) (u : JobUpdate) (job : JobRun) → IsBounded job → IsBounded (updated now u job)
unfolding updated
updated-IsBounded now u job h = ground arith

save_job-All :
    (P : JobRun → Type 0) (job : JobRun) (jobs : List JobRun)
    → P job
    → All P jobs
    → All P (save_job job jobs)
save_job-All P job [] p h = tt
save_job-All P job (r ∷ jobs) p h =
    (row (Bool-cases (r.id == job.id)), save_job-All P job jobs p h.1)
  where
    row :
        ((r.id == job.id) ≡ true) ⊎ ((r.id == job.id) ≡ false)
        → P (if r.id == job.id then job else r)
    row (inl e) = rw e p
    row (inr e) = rw e h.0

found-All :
    (P : JobRun → Type 0) (id : ℕ) (jobs : List JobRun) (job : JobRun)
    → All P jobs
    → get_job id jobs ≡ some job
    → P job
found-All P id [] job h e = cc e
found-All P id (r ∷ jobs) job h e = elim (Bool-cases (r.id == id)) [
  | inl same ↦ subst P (picked (rw same at e)) h.0
  | inr apart ↦ found-All P id jobs job h.1 (rw apart at e)
]
  where
    picked : some r ≡ some job → r ≡ job
    picked q = cc

found-id : (id : ℕ) (jobs : List JobRun) (job : JobRun) → get_job id jobs ≡ some job → job.id ≡ id
found-id id [] job e = cc e
found-id id (r ∷ jobs) job e = elim (Bool-cases (r.id == id)) [
  | inl same ↦ subst (λ (j : JobRun). j.id ≡ id) (picked (rw same at e)) ((==_iff r.id id).0 same)
  | inr apart ↦ found-id id jobs job (rw apart at e)
]
  where
    picked : some r ≡ some job → r ≡ job
    picked q = cc

-- Whatever an update asks for, every run keeps a progress between 0 and 1 and an attempt that is not
-- negative.
pub update_job-IsBounded :
    (now : ℕ) (jobs : List JobRun) (job_id : Option ℕ) (u : JobUpdate)
    → All IsBounded jobs
    → All IsBounded (update_job now jobs job_id u).0
unfolding update_job
update_job-IsBounded now jobs none u h = h
update_job-IsBounded now jobs (some id) u h = elim (Option-cases (get_job id jobs)) [
  | inl e ↦ rw (update_job, e) h
  | inr (job, e) ↦
      rw (update_job, e)
        (save_job-All IsBounded (updated now u job) jobs
          (updated-IsBounded now u job (found-All IsBounded id jobs job h e)) h)
]

-- Starting a known run: one that has succeeded or was cancelled is left as it is, however often its
-- job is delivered. Any other is saved as running, with one more attempt than it had, no error, a
-- start time, which an earlier start keeps, and its progress unchanged.
start_job_lem :
    (now id : ℕ) (jobs : List JobRun) (phase : String) (job : JobRun)
    → get_job id jobs ≡ some job
    → ((is_settled job.status ≡ true) × (start_job now jobs (some id) phase ≡ (jobs, some job)))
      ⊎ ((is_settled job.status ≡ false)
          × ((job' : JobRun) × (start_job now jobs (some id) phase
                ≡ (save_job job' jobs, some job'))
              × (job'.status ≡ "running")
              × (job'.attempt ≡ next_attempt job.attempt)
              × (job'.last_error ≡ none)
              × (job'.started_at ≡ some (elim job.started_at [ none ↦ now | some t ↦ t ]))
              × (job'.progress ≡ job.progress)))
unfolding start_job update_job updated
start_job_lem now id jobs phase job found = elim (Bool-cases (is_settled job.status)) [
  | inl e ↦ inl (e, rw (start_job, found, e))
  | inr e ↦ inr (
    e,
    (
      updated now (starting phase job) job,
      rw (start_job, found, e, update_job, again),
      refl,
      refl,
      refl,
      clock job.started_at refl,
      refl,
    ),
  )
]
  where
    again : get_job job.id jobs ≡ some job
    again = subst (λ (i : ℕ). get_job i jobs ≡ some job) (sym (found-id id jobs job found)) found

    clock :
        (o : Option ℕ)
        → job.started_at ≡ o
        → (updated now (starting phase job) job).started_at
          ≡ some (elim o [ none ↦ now | some t ↦ t ])
    clock none e = rw e
    clock (some t) e = rw e
