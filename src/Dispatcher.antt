-- ===== src/Dispatcher.antt =====
-- `dispatcher_job` and `enqueue_arq_job` of backend/app/collectors/jobs.py: the cron job that moves
-- tasks from the priority queue to the worker pool, within the Tavily budget.
-- The pool is the package arq: an argument says of each call, by its number, whether it goes through.
pub mod Conservation
pub mod Budget
use the_vc_brain.Prelude.{
  ℕ, zero, suc, ◌+◌, Bool, true, false, Option, none, some, List, [], ◌∷◌, ◌++◌, String, str_eq, ℤ,
  pos, negsuc, ◌-ℤ◌, leb_ℤ, if◌then◌else◌, ◌&&◌,
}
use the_vc_brain.Redis.{Task, Key, tavily_budget, Redis}
use the_vc_brain.Queue.{
  tenth, enqueue, pop_top_with_priority, queue_depth, get_budget_remaining, decrement_budget,
}

-- A job of the pool with its positional arguments; "" for an absent id is `none`.
pub data ArqCall : Type 0 where
  discover_job : String → String → Option ℕ → ArqCall
  resolve_identities_job : Option ℕ → ArqCall
  research_candidate_job : Option ℕ → Option ℕ → Option ℕ → ArqCall
  fetch_candidate_avatar_job : Option ℕ → Option ℕ → ArqCall
  score_candidate_job : Option ℕ → Option ℕ → ArqCall
  generate_memo_job : Option ℕ → Option ℕ → Option ℕ → ArqCall
  process_candidate_job : Option ℕ → Option ℕ → ArqCall
  process_inbound_pitch_job :
      Option ℕ → Option ℕ → Option ℕ → String → Option String → Option ℕ → ArqCall
  contact_outbound_job : Option ℕ → ArqCall
  collect_job : Option ℕ → String → String → String → Option ℕ → ArqCall

-- `task.get(key, default)`
abbrev pub or_text : String → Option String → String
or_text default none = default
or_text default (some s) = s

unfoldable pub arq_call : Task → ArqCall
arq_call task =
    let job_type = or_text "collect" task.job_type in
    if str_eq job_type "discover"
    then discover_job (or_text "" task.query) (or_text "" task.source) task.job_id
    else if str_eq job_type "resolve_identities"
    then resolve_identities_job task.job_id
    else if str_eq job_type "research_candidate"
    then research_candidate_job task.person_id task.opportunity_id task.job_id
    else if str_eq job_type "fetch_candidate_avatar"
    then fetch_candidate_avatar_job task.person_id task.job_id
    else if str_eq job_type "score_candidate"
    then score_candidate_job task.person_id task.job_id
    else if str_eq job_type "generate_memo"
    then generate_memo_job task.person_id task.opportunity_id task.job_id
    else if str_eq job_type "process_candidate"
    then process_candidate_job task.person_id task.job_id
    else if str_eq job_type "process_inbound_pitch"
    then process_inbound_pitch_job task.person_id task.snapshot_id task.opportunity_id
        (or_text "" task.company_name) task.founder_evidence task.job_id
    else if str_eq job_type "contact_outbound"
    then contact_outbound_job task.person_id
    else collect_job task.person_id (or_text "" task.source) (or_text "deep" task.depth)
        (or_text "" task.handle) task.job_id

-- `task.get("source", "") == "tavily_search"`
abbrev pub is_tavily : Task → Bool
is_tavily task = str_eq (or_text "" task.source) "tavily_search"

module _ (server : Redis) (accepts : ℕ → Bool) where
  open server use {State}

  -- The state of the job's loop: Redis, the pool's calls so far, the local counters, and the
  -- number of calls of the pool that were tried.
  pub record Dispatch : Type 0 where
    pub redis : State
    pub calls : List ArqCall
    pub tavily_remaining : ℤ
    pub enqueued : ℕ
    pub failed : ℕ
    pub tried : ℕ

  -- the charge before the call
  unfoldable pub charge : Task → Dispatch → Dispatch
  charge task d =
      if is_tavily task
      then record d {
        redis = (decrement_budget server d.redis tavily_budget (pos 1)).0;
        tavily_remaining = d.tavily_remaining -ℤ pos 1;
      }
      else d

  -- the refund after a failed call, `decrement_tavily_budget(redis, amount=-1)`
  unfoldable pub refund : Task → Dispatch → Dispatch
  refund task d =
      if is_tavily task
      then record d {
        redis = (decrement_budget server d.redis tavily_budget (negsuc 0)).0;
        tavily_remaining = d.tavily_remaining -ℤ negsuc 0;
      }
      else d

  -- the `try`: the call goes through, or the task is queued again at its own priority
  unfoldable pub send : Task → ℕ → Dispatch → Dispatch
  unfolding refund arq_call
  send task priority d =
      if accepts d.tried
      then record d {
        calls = d.calls ++ arq_call task ∷ [];
        enqueued = d.enqueued + 1;
        tried = d.tried + 1;
      }
      else refund task (record d {
        redis = enqueue server d.redis task priority;
        failed = d.failed + 1;
        tried = d.tried + 1;
      })

  -- one turn of the loop
  unfoldable pub dispatch_one : Task → ℕ → Dispatch → Dispatch
  unfolding charge send
  dispatch_one task priority d =
      if is_tavily task && leb_ℤ d.tavily_remaining (pos 0)
      then record d { redis = enqueue server d.redis task tenth }
      else send task priority (charge task d)

  unfoldable pub dispatch_all : List (Task × ℕ) → Dispatch → Dispatch
  dispatch_all [] d = d
  dispatch_all ((task, priority) ∷ rest) d = dispatch_all rest (dispatch_one task priority d)

  -- the whole job, from a Redis state and the setting `collection_concurrency`
  unfoldable pub dispatcher_job : State → ℕ → Dispatch
  unfolding dispatch_all
  dispatcher_job r concurrency =
      let tavily_remaining = get_budget_remaining server r tavily_budget in
      let (tasks, r') = pop_top_with_priority server r concurrency in
      dispatch_all tasks (record {
        redis = r';
        calls = [];
        tavily_remaining = tavily_remaining;
        enqueued = 0;
        failed = 0;
        tried = 0;
      })
