-- ===== src/Lib.antt =====
-- The backend of The VC Brain: the deal lifecycle, its decision clock, the opportunity records, the
-- collection queue with its budgets, the dispatcher that feeds the worker pool, the job that advances
-- the pipeline, and the records of jobs, outreach and the outbox.
--
-- Parts and files (paths from the repository's root):
--   Lifecycle: backend/app/lifecycle.py. The stages, the table of definitions and the tests on it
--     are the definitions of the same names; Keys, Graph and Paths see the table as a diagram.
--   Sla: backend/app/sla.py. Sla.antt has the budgets, deadlines and `initialize_sla`, Sla/Evaluate
--     `evaluate_sla` and `finalize_sla`; Sla/Clock has the theorems.
--   Models: the rows of backend/app/db/models.py that these parts read and write, and the store of
--     a session, which the operations take and return.
--   Opportunity: backend/app/opportunity_service.py. Opportunity.antt has the transition, the touch
--     and the outcome, Opportunity/Create the lookup and creation of deals; Replay, Audit and
--     Registry have the theorems. An error that Python raises is a value of `Result`.
--   Http: what a route answers. Identity: backend/app/identity. Identity.antt is merge.py,
--     Identity/Matchers matchers.py, Identity/Resolve resolve.py, Identity/Review the two routes
--     of backend/app/api/routes/collection.py that review a match; Merged, Handles, Supersession,
--     Sound, Reviewed, Urls, Alike, Addresses, Automatic and Evidence have the theorems. A session's
--     tables are the record `People`.
--   Decision: `record_candidate_decision` of backend/app/api/routes/candidates.py over the tables of a
--     `Desk`; Recorded, Outcomes, Replay and Audited have the theorems. Outreach/Routes has the routes of that
--     file that approve a message and request its sending, Outreach/Approval their theorems.
--   Proposal: backend/app/decision_proposal.py; Proposal/Ready and Proposal/Invest have
--     the theorems.
--   Dedup: backend/app/processing/dedup.py; Dedup/Merged sees a run as a sequence of merges.
--   Submission: the routes of backend/app/api/routes/collection.py and candidates.py that commit a job
--     and queue its task; Submission/Backed has the theorem.
--   Privacy: backend/app/privacy.py and backend/app/source_policy.py; Privacy/Gates and
--     Privacy/Sources have the theorems.
--   Uploads: backend/app/uploads.py; Uploads/Stream and Uploads/Pages have the theorems.
--   Redis: the commands of Redis that the queue sends, as an interface with their documented
--     behaviour; Redis/Memory is an implementation by sorted lists that meets it.
--   Queue: backend/app/collectors/queue.py over that interface; Lanes, Items, Pop, Kept and
--     Counters have the theorems. The Tavily and the agent budget are one definition at two keys.
--   Dispatcher: `dispatcher_job` and `enqueue_arq_job` of backend/app/collectors/jobs.py over the
--     queue; Conservation and Budget have the theorems.
--   Pipeline: `advance_pipeline_job` of backend/app/agents/lifecycle_job.py. Pipeline.antt has the
--     tables that it reads and the batch, Pipeline/Steps the branches of its loop and the run;
--     Spending, Run, Trail and Decisions have the theorems.
--   JobLedger: backend/app/job_ledger.py. Outreach: backend/app/outreach_delivery.py. Outbox:
--     `dispatch_pending_outbox` of backend/app/outbox.py. Each has one child with its theorems.
--   Time, Prelude: instants, the calendar in Time/Iso, and the shared helpers. Tests: concrete inputs for the theorems.
--
-- How the parts interact: a transition consults the lifecycle table and starts the clock of a deal
-- that is received; the pipeline moves deals by transitions, spends the agent budget and queues
-- tasks; the dispatcher pops tasks, charges the budget, hands the tasks to the pool, and
-- queues a task again that the pool refuses.
--
-- Numbers: an instant is a count of microseconds from the first day of year 1. A priority or a
-- confidence is a float that is compared and negated only, and is counted in units of 2 ^ -1074,
-- which is exact. A UUID is a number, and a new row takes the next unused one. Loops over
-- lists are structural; the optimistic transactions on a page try three times, as the code does, and
-- an attempt that another client disturbs is an entry of a list of interferences.
--
-- Not modelled: logging, the web layer, the network collectors and the agents. The package arq is
-- an argument that says which calls go through. PostgreSQL's LIKE,
-- Python's float product, the reading of a float from a text, float formatting, `urlparse`, which may
-- raise, the choice of the database between rows that are equally new, the hash of a company name and the trimming of texts
-- are arguments.
pub mod Prelude
pub mod Time
pub mod Lifecycle
pub mod Models
pub mod Http
pub mod Identity
pub mod Sla
pub mod Opportunity
pub mod Redis
pub mod Queue
pub mod Dispatcher
pub mod Pipeline
pub mod Decision
pub mod Proposal
pub mod Dedup
pub mod JobLedger
pub mod Privacy
pub mod Uploads
pub mod Submission
pub mod Outreach
pub mod Outbox
pub mod Tests
