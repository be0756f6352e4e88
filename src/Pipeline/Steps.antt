-- ===== src/Pipeline/Steps.antt =====
-- `advance_pipeline_job` of backend/app/agents/lifecycle_job.py, one function for each branch of its
-- loop. Only Redis, the deals and the events change; an error of a transition ends the job.
use the_vc_brain.Prelude.{
  ℕ, ◌+◌, ◌*◌, Bool, Option, none, some, List, [], ◌∷◌, String, ◌&&◌, not, ℤ, pos, if◌then◌else◌,
  leb, leb_ℤ, ltb_ℤ,
}
use the_vc_brain.Lifecycle.{
  Stage, discovered, interesting, investigating, contacted, received, triage, screening, diligence,
  memo_ready, hold, approved, closed,
}
use the_vc_brain.Models.{Opportunity, Store, Metadata, text, number, texts}
use the_vc_brain.Redis.{Task, agent_budget, Redis}
use the_vc_brain.Queue.{unit, enqueue, get_budget_remaining, decrement_budget}
use the_vc_brain.Opportunity.{
  Result, ok, raised, malformed_number, save, new_event, add_event, transition_opportunity,
}
use the_vc_brain.Pipeline.{
  Evidence, Settings, max_retries, investigation_agent_calls, founder_score_agent_calls,
  research_agent_calls, has_opportunity_axes, has_memo, has_founder_score, has_scoped_claims,
  Parsed, malformed, not_a_number, finite, latest_score, component, cutoff, updated_after,
  count_retries, has_recent_pipeline_event, person_of, batch,
}

-- Text that Python and PostgreSQL make: LIKE, `str` of a number, `float` on a text, the
-- float product by 100, and the
-- two reasons that show a score and its threshold.
pub record Formats : Type 0 where
  pub like : String → String → Bool
  pub retry_reason : ℕ → String
  pub parse_float : String → Parsed
  pub times_100 : ℤ → ℤ
  pub signal_reason : ℤ → ℤ → String
  pub contact_reason : ℤ → ℤ → String

abbrev pub job : String → ℕ → Option ℕ → Task
job job_type person_id opportunity_id = record {
  job_type = some job_type;
  source = none;
  query = none;
  person_id = some person_id;
  opportunity_id = opportunity_id;
  handle = none;
  depth = none;
  job_id = none;
  snapshot_id = none;
  company_name = none;
  founder_evidence = none;
}

-- priority=10.0
abbrev pub ten : ℕ
ten = 10 * unit

module _ (server : Redis) where
  open server use {State}

  -- The session, Redis, and the counters of the run.
  pub record Pipeline : Type 0 where
    pub store : Store
    pub redis : State
    pub transitions : ℕ
    pub stuck_closed : ℕ
    pub budget_exhausted : ℕ
    pub needs_attention : ℕ

  abbrev pub spend : ℕ → Pipeline → Pipeline
  spend calls p = record p { redis = (decrement_budget server p.redis agent_budget (pos calls)).0 }

  abbrev pub push : Task → Pipeline → Pipeline
  push task p = record p { redis = enqueue server p.redis task ten }

  abbrev pub budget : Pipeline → ℤ
  budget p = get_budget_remaining server p.redis agent_budget

  abbrev pub exhausted : Pipeline → Pipeline
  exhausted p = record p {
    budget_exhausted = p.budget_exhausted + 1;
    needs_attention = p.needs_attention + 1;
  }

  abbrev pub unattended : Pipeline → Pipeline
  unattended p = record p { needs_attention = p.needs_attention + 1 }

  abbrev pub queue_investigation_jobs : ℕ → ℕ → Pipeline → Pipeline
  queue_investigation_jobs person_id opportunity_id p =
      push (job "process_candidate" person_id none) (
        push (job "score_candidate" person_id none)
          (push (job "research_candidate" person_id (some opportunity_id)) p))

  module _ (formats : Formats) (settings : Settings) (evidence : Evidence) (now : ℕ) where
    -- the deal moves, and a counter grows
    abbrev pub moved :
        Stage → String → (Pipeline → Pipeline) → Opportunity → Pipeline → Result Pipeline
    moved new reason count opp p =
        elim (transition_opportunity now p.store opp new "pipeline:auto" reason) [
          | ok (store, o, event) ↦ ok (count (record p { store = store }))
          | raised fault ↦ raised fault
        ]

    abbrev pub one_transition : Pipeline → Pipeline
    one_transition p = record p { transitions = p.transitions + 1 }

    abbrev pub one_closed : Pipeline → Pipeline
    one_closed p = record p { stuck_closed = p.stuck_closed + 1 }

    -- an event that leaves the deal at its stage
    abbrev pub noted : Opportunity → String → Metadata → Pipeline → Pipeline
    noted opp reason metadata p = record p {
      store = add_event p.store (
          new_event now p.store opp opp.lifecycle_state opp.lifecycle_state "pipeline:auto" reason
            metadata);
    }

    -- `opp.updated_at = datetime.now(UTC)`
    abbrev pub touched : Opportunity → Pipeline → Pipeline
    touched opp p = record p {
      store = record p.store {
        opportunities = save (record opp { updated_at = some now }) p.store.opportunities;
      };
    }

    -- the signal score against its threshold; no comparison with nan holds
    unfoldable pub by_signal : Parsed → Opportunity → Pipeline → Result Pipeline
    by_signal malformed opp p = raised malformed_number
    by_signal not_a_number opp p = ok p
    by_signal (finite composite) opp p =
        if leb_ℤ settings.signal_threshold composite
        then moved interesting (formats.signal_reason composite settings.signal_threshold)
            one_transition opp p
        else ok p

    unfoldable pub from_discovered : Opportunity → ℕ → Pipeline → Result Pipeline
    unfolding by_signal
    from_discovered opp person_id p = elim (latest_score evidence person_id "signal-v1") [
      | none ↦ ok p
      | some score ↦ by_signal (component formats.parse_float "composite" score.components) opp p
    ]

    unfoldable pub from_interesting : Opportunity → ℕ → Pipeline → Result Pipeline
    from_interesting opp person_id p =
        if has_opportunity_axes evidence opp.id
        then ok p
        else if ltb_ℤ (budget p) (pos investigation_agent_calls)
        then ok (exhausted p)
        else moved investigating "Investigation started — research, scoring, and processing queued"
            (λ (q : Pipeline). queue_investigation_jobs person_id opp.id (one_transition q)) opp
            (spend investigation_agent_calls p)

    -- `investigating` without axes, past the stuck interval
    unfoldable pub retried : Opportunity → ℕ → Pipeline → Result Pipeline
    retried opp person_id p =
        let retries = count_retries formats.like p.store opp.id in
        if leb max_retries retries
        then moved closed "Pipeline timeout after 3 retries" one_closed opp p
        else if ltb_ℤ (budget p) (pos investigation_agent_calls)
        then ok (exhausted p)
        else ok (
            touched opp (
              noted opp (formats.retry_reason (retries + 1)) (("retry", number (retries + 1)) ∷ [])
                (queue_investigation_jobs person_id opp.id (spend investigation_agent_calls p))))

    -- `investigating` with axes: an outreach draft for a high score
    unfoldable pub by_founder_score : Parsed → Opportunity → ℕ → Pipeline → Result Pipeline
    by_founder_score malformed opp person_id p = raised malformed_number
    by_founder_score not_a_number opp person_id p = ok p
    by_founder_score (finite value) opp person_id p =
        let composite = formats.times_100 value in
        if leb_ℤ (formats.times_100 settings.contact_threshold) composite
        then if leb_ℤ (budget p) (pos 0)
          then ok (exhausted p)
          else ok (
              push (job "contact_outbound" person_id none) (
                touched opp (
                  noted opp (formats.contact_reason composite settings.contact_threshold)
                    (("outreach_status", text "drafted") ∷ []) (spend 1 p))))
        else ok p

    unfoldable pub drafted : Opportunity → ℕ → Pipeline → Result Pipeline
    unfolding by_founder_score
    drafted opp person_id p = elim (latest_score evidence person_id "founder-agent-v1") [
      | none ↦ ok p
      | some score ↦
          by_founder_score (component formats.parse_float "founder" score.components) opp person_id
            p
    ]

    unfoldable pub from_investigating : Opportunity → ℕ → Pipeline → Result Pipeline
    unfolding retried drafted
    from_investigating opp person_id p =
        if has_opportunity_axes evidence opp.id
        then drafted opp person_id p
        else if updated_after opp.updated_at (cutoff settings now)
        then ok p
        else retried opp person_id p

    -- The branches that wait for an output: its job is queued once in the stuck interval, if the
    -- budget has the calls. `enough` is the test of the branch on the budget.
    unfoldable pub awaited :
        Bool → ℕ → Task → String → String → String → Opportunity → Pipeline → Pipeline
    awaited enough calls task reason stage missing opp p =
        let recently_queued =
          has_recent_pipeline_event formats.like p.store opp.id reason (cutoff settings now) in
        if enough && not recently_queued
        then noted opp reason
            (("pipeline_stage", text stage) ∷ ("missing_outputs", texts (missing ∷ [])) ∷ [])
            (push task (spend calls p))
        else if enough
        then p
        else unattended p

    unfoldable pub from_received : Opportunity → ℕ → Pipeline → Result Pipeline
    unfolding awaited
    from_received opp person_id p =
        if has_scoped_claims evidence person_id opp.id
        then moved triage "Scoped inbound processing completed" one_transition opp p
        else ok (
            awaited (ltb_ℤ (pos 0) (budget p)) 1 (job "process_candidate" person_id none)
              "Inbound processing queued" "received" "scoped_claims" opp p)

    unfoldable pub from_triage : Opportunity → ℕ → Pipeline → Result Pipeline
    unfolding awaited
    from_triage opp person_id p =
        if has_founder_score evidence person_id
        then moved screening "Triage output and Founder Score completed" one_transition opp p
        else ok (
            awaited (leb_ℤ (pos founder_score_agent_calls) (budget p)) founder_score_agent_calls
              (job "score_candidate" person_id none) "Founder Score queued" "triage" "founder_score"
              opp p)

    unfoldable pub from_screening : Opportunity → ℕ → Pipeline → Result Pipeline
    unfolding awaited
    from_screening opp person_id p =
        if has_opportunity_axes evidence opp.id
        then moved diligence "Three opportunity axes completed" one_transition opp p
        else ok (
            awaited (leb_ℤ (pos research_agent_calls) (budget p)) research_agent_calls
              (job "research_candidate" person_id (some opp.id)) "Opportunity research queued"
              "screening" "opportunity_axes" opp p)

    unfoldable pub from_diligence : Opportunity → ℕ → Pipeline → Result Pipeline
    unfolding awaited
    from_diligence opp person_id p =
        if has_memo evidence opp.id
        then moved memo_ready "Validated investment memo generated" one_transition opp p
        else ok (
            awaited (ltb_ℤ (pos 0) (budget p)) 1 (job "generate_memo" person_id (some opp.id))
              "Memo generation queued" "diligence" "succeeded_memo" opp p)

    -- the chain on the stage
    unfoldable pub by_stage : Stage → Opportunity → ℕ → Pipeline → Result Pipeline
    by_stage discovered = from_discovered
    by_stage interesting = from_interesting
    by_stage investigating = from_investigating
    by_stage contacted = λ opp person_id p. ok p
    by_stage received = from_received
    by_stage triage = from_triage
    by_stage screening = from_screening
    by_stage diligence = from_diligence
    by_stage memo_ready = λ opp person_id p. ok p
    by_stage hold = λ opp person_id p. ok p
    by_stage approved = λ opp person_id p. ok p
    by_stage closed = λ opp person_id p. ok p

    unfoldable pub advance_one : Opportunity → Pipeline → Result Pipeline
    unfolding by_stage
    advance_one opp p = elim (person_of p.store opp.id) [
      | none ↦ ok p
      | some person_id ↦ by_stage opp.lifecycle_state opp person_id p
    ]

    unfoldable pub advance_all : List Opportunity → Pipeline → Result Pipeline
    advance_all [] p = ok p
    advance_all (opp ∷ rest) p = elim (advance_one opp p) [
      | ok q ↦ advance_all rest q
      | raised fault ↦ raised fault
    ]

    -- the whole run over the store and Redis, with the rows that other workers have locked
    unfoldable pub advance_pipeline_job : (ℕ → Bool) → Store → State → Result Pipeline
    unfolding advance_all
    advance_pipeline_job locked store redis = advance_all (batch settings locked store) (record {
      store = store;
      redis = redis;
      transitions = 0;
      stuck_closed = 0;
      budget_exhausted = 0;
      needs_attention = 0;
    })
