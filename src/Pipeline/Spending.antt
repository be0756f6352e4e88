-- ===== src/Pipeline/Spending.antt =====
-- The agent budget in `advance_pipeline_job` of backend/app/agents/lifecycle_job.py, and that the job
-- does not fail on scores that are numbers.
use the_vc_brain.Prelude.{
  ℕ, ◌≡◌, ◌≢◌, refl, inl, inr, true, false, none, some, String, ℤ, pos, ◌-ℤ◌, ◌≤ℤ◌, leb_ℤ, ltb_ℤ,
  leb, arith, int_laws, Bool-cases, Option-cases, ◌∙◌,
}
use the_vc_brain.Time.{negate}
use the_vc_brain.Lifecycle.{
  Stage, discovered, interesting, investigating, closed, is_valid_transition,
}
use the_vc_brain.Models.{Opportunity, Store}
use the_vc_brain.Redis.{Task, tavily_budget, agent_budget, Redis}
use the_vc_brain.Queue.{lane, enqueue, get_budget_remaining}
use the_vc_brain.Queue.Counters.{decrement_budget_lem}
use the_vc_brain.Opportunity.{Result, ok, transitioned, transition_opportunity}
use the_vc_brain.Pipeline.{
  Parsed, malformed, not_a_number, finite, ScoreSnapshot, Evidence, Settings, has_opportunity_axes,
  latest_score, component, count_retries,
}
use the_vc_brain.Pipeline.Steps.{
  Formats, job, ten, Pipeline, spend, push, budget, queue_investigation_jobs, moved, one_transition,
  one_closed, by_signal, by_founder_score, from_discovered, from_interesting, retried, drafted,
}

pub not_less : (v : ℤ) (n : ℕ) → ltb_ℤ v (pos n) ≡ false → pos n ≤ℤ v
not_less v n h = ground arith

pub not_empty : (v : ℤ) → leb_ℤ v (pos 0) ≡ false → pos 1 ≤ℤ v
not_empty v h = ground arith

module _ (server : Redis) where
  open server use {State, get-zadd}

  -- The budget is not negative, and no more than before.
  abbrev pub IsSpent : Pipeline server → Pipeline server → Type 0
  IsSpent p q = (pos 0 ≤ℤ budget server q) × (budget server q ≤ℤ budget server p)

  -- The step succeeds with a budget that is spent soundly.
  abbrev pub Ends : Pipeline server → Result (Pipeline server) → Type 0
  Ends p r = (q : Pipeline server) × (r ≡ ok q) × IsSpent p q

  pub spend-budget :
      (calls : ℕ) (p : Pipeline server)
      → budget server (spend server calls p) ≡ budget server p -ℤ pos calls
  spend-budget calls p =
      let (answer, left, others) =
        decrement_budget_lem server p.redis agent_budget tavily_budget (pos calls) (λ e. cc e) in
      left ∙ answer

  pub push-budget :
      (task : Task) (p : Pipeline server) → budget server (push server task p) ≡ budget server p
  unfolding get_budget_remaining enqueue
  push-budget task p = rw (get-zadd p.redis (lane ten) agent_budget task (negate ten))

  -- what a step spent
  pub IsSpent-by :
      (calls : ℕ) (p q : Pipeline server)
      → pos calls ≤ℤ budget server p
      → budget server q ≡ budget server p -ℤ pos calls
      → IsSpent p q
  IsSpent-by calls p q enough e = rw e (omega (int_laws, enough), omega int_laws)

  pub stays :
      (p q : Pipeline server)
      → pos 0 ≤ℤ budget server p
      → budget server q ≡ budget server p
      → IsSpent p q
  stays p q h e = rw e (h, omega int_laws)

  investigation-budget :
      (person_id opportunity_id : ℕ) (p : Pipeline server)
      → budget server (queue_investigation_jobs server person_id opportunity_id p) ≡ budget server p
  investigation-budget person_id opportunity_id p =
      let researched = push server (job "research_candidate" person_id (some opportunity_id)) p in
      let scored = push server (job "score_candidate" person_id none) researched in
      push-budget (job "process_candidate" person_id none) scored
      ∙ push-budget (job "score_candidate" person_id none) researched
      ∙ push-budget (job "research_candidate" person_id (some opportunity_id)) p

  module _ (formats : Formats) (settings : Settings) (evidence : Evidence) (now : ℕ) where
    moved_lem :
        (new : Stage) (reason : String) (count : Pipeline server → Pipeline server)
        (opp : Opportunity) (p : Pipeline server)
        → is_valid_transition opp.lifecycle_state new ≡ true
        → (s : Store) × (moved server formats settings evidence now new reason count opp p
            ≡ ok (count (record p { store = s })))
    unfolding transition_opportunity
    moved_lem new reason count opp p valid =
        ((transitioned now p.store opp new "pipeline:auto" reason).0, rw (moved, valid))

    -- a move whose counter leaves Redis alone
    pub moved-Ends :
        (new : Stage) (reason : String) (count : Pipeline server → Pipeline server)
        (opp : Opportunity) (p : Pipeline server)
        → is_valid_transition opp.lifecycle_state new ≡ true
        → pos 0 ≤ℤ budget server p
        → ((q : Pipeline server) → budget server (count q) ≡ budget server q)
        → Ends p (moved server formats settings evidence now new reason count opp p)
    moved-Ends new reason count opp p valid h same =
        let (s, e) = moved_lem new reason count opp p valid in
        (
          count (record p { store = s }),
          e,
          stays p (count (record p { store = s })) h (same (record p { store = s })),
        )

    pub ended : (p q : Pipeline server) → IsSpent p q → Ends p (ok q)
    ended p q h = (q, refl, h)

    -- The two scores that the job reads of a person are numbers, or texts of numbers.
    pub record IsReadable : Type 0 where
      pub signal :
          (person_id : ℕ) (score : ScoreSnapshot)
          → latest_score evidence person_id "signal-v1" ≡ some score
          → component formats.parse_float "composite" score.components ≢ malformed
      pub founder :
          (person_id : ℕ) (score : ScoreSnapshot)
          → latest_score evidence person_id "founder-agent-v1" ≡ some score
          → component formats.parse_float "founder" score.components ≢ malformed

    by_signal-Ends :
        (parsed : Parsed) (opp : Opportunity) (p : Pipeline server)
        → parsed ≢ malformed
        → opp.lifecycle_state ≡ discovered
        → pos 0 ≤ℤ budget server p
        → Ends p (by_signal server formats settings evidence now parsed opp p)
    unfolding by_signal is_valid_transition
    by_signal-Ends malformed opp p n stage h = absurd (n refl)
    by_signal-Ends not_a_number opp p n stage h = ended p p (stays p p h refl)
    by_signal-Ends (finite composite) opp p n stage h =
        elim (Bool-cases (leb_ℤ settings.signal_threshold composite)) [
          | inl c ↦
              rw (by_signal, c)
                (moved-Ends interesting _ (one_transition server formats settings evidence now) opp
                  p (rw stage) h (λ q. refl))
          | inr c ↦ rw (by_signal, c) (ended p p (stays p p h refl))
        ]

    pub from_discovered-Ends :
        (readable : IsReadable) (opp : Opportunity) (person_id : ℕ) (p : Pipeline server)
        → opp.lifecycle_state ≡ discovered
        → pos 0 ≤ℤ budget server p
        → Ends p (from_discovered server formats settings evidence now opp person_id p)
    unfolding from_discovered
    from_discovered-Ends readable opp person_id p stage h =
        elim (Option-cases (latest_score evidence person_id "signal-v1")) [
          | inl e ↦ rw (from_discovered, e) (ended p p (stays p p h refl))
          | inr (score, e) ↦
              rw (from_discovered, e)
                (by_signal-Ends _ opp p (readable.signal person_id score e) stage h)
        ]

    pub from_interesting-Ends :
        (opp : Opportunity) (person_id : ℕ) (p : Pipeline server)
        → opp.lifecycle_state ≡ interesting
        → pos 0 ≤ℤ budget server p
        → Ends p (from_interesting server formats settings evidence now opp person_id p)
    unfolding from_interesting is_valid_transition
    from_interesting-Ends opp person_id p stage h =
        elim (Bool-cases (has_opportunity_axes evidence opp.id)) [
          | inl a ↦ rw (from_interesting, a) (ended p p (stays p p h refl))
          | inr a ↦ elim (Bool-cases (ltb_ℤ (budget server p) (pos 5))) [
            | inl poor ↦ rw (from_interesting, a, poor) (ended p _ (stays p p h refl))
            | inr rich ↦
                let queued : Pipeline server → Pipeline server = λ q.
                  queue_investigation_jobs server person_id opp.id
                    (one_transition server formats settings evidence now q) in
                let (s, e) =
                  moved_lem investigating
                    "Investigation started — research, scoring, and processing queued" queued opp
                    (spend server 5 p) (rw stage) in
                rw (from_interesting, a, rich)
                  (
                    queued (record (spend server 5 p) { store = s }),
                    e,
                    IsSpent-by 5 p (queued (record (spend server 5 p) { store = s }))
                        (not_less (budget server p) 5 rich)
                        (investigation-budget person_id opp.id (
                            one_transition server formats settings evidence now
                              (record (spend server 5 p) { store = s }))
                          ∙ spend-budget 5 p),
                  )
          ]
        ]

    pub retried-Ends :
        (opp : Opportunity) (person_id : ℕ) (p : Pipeline server)
        → opp.lifecycle_state ≡ investigating
        → pos 0 ≤ℤ budget server p
        → Ends p (retried server formats settings evidence now opp person_id p)
    unfolding retried is_valid_transition
    retried-Ends opp person_id p stage h =
        elim (Bool-cases (leb 3 (count_retries formats.like p.store opp.id))) [
          | inl c ↦
              rw (retried, c)
                (moved-Ends closed "Pipeline timeout after 3 retries"
                  (one_closed server formats settings evidence now) opp p (rw stage) h (λ q. refl))
          | inr c ↦ elim (Bool-cases (ltb_ℤ (budget server p) (pos 5))) [
            | inl poor ↦ rw (retried, c, poor) (ended p _ (stays p p h refl))
            | inr rich ↦
                rw (retried, c, rich)
                  (ended p _ (
                    IsSpent-by 5 p
                      (queue_investigation_jobs server person_id opp.id (spend server 5 p))
                      (not_less (budget server p) 5 rich)
                      (investigation-budget person_id opp.id (spend server 5 p)
                        ∙ spend-budget 5 p)))
          ]
        ]

    by_founder_score-Ends :
        (parsed : Parsed) (opp : Opportunity) (person_id : ℕ) (p : Pipeline server)
        → parsed ≢ malformed
        → pos 0 ≤ℤ budget server p
        → Ends p (by_founder_score server formats settings evidence now parsed opp person_id p)
    unfolding by_founder_score
    by_founder_score-Ends malformed opp person_id p n h = absurd (n refl)
    by_founder_score-Ends not_a_number opp person_id p n h = ended p p (stays p p h refl)
    by_founder_score-Ends (finite value) opp person_id p n h =
        elim (Bool-cases
          (leb_ℤ (formats.times_100 settings.contact_threshold) (formats.times_100 value))) [
            | inr low ↦ rw (by_founder_score, low) (ended p p (stays p p h refl))
            | inl high ↦ elim (Bool-cases (leb_ℤ (budget server p) (pos 0))) [
              | inl poor ↦ rw (by_founder_score, high, poor) (ended p _ (stays p p h refl))
              | inr rich ↦
                  rw (by_founder_score, high, rich)
                    (ended p _ (
                      IsSpent-by 1 p
                        (push server (job "contact_outbound" person_id none) (spend server 1 p))
                        (not_empty (budget server p) rich)
                        (push-budget (job "contact_outbound" person_id none) (spend server 1 p)
                          ∙ spend-budget 1 p)))
            ]
          ]

    pub drafted-Ends :
        (readable : IsReadable) (opp : Opportunity) (person_id : ℕ) (p : Pipeline server)
        → pos 0 ≤ℤ budget server p
        → Ends p (drafted server formats settings evidence now opp person_id p)
    unfolding drafted
    drafted-Ends readable opp person_id p h =
        elim (Option-cases (latest_score evidence person_id "founder-agent-v1")) [
          | inl e ↦ rw (drafted, e) (ended p p (stays p p h refl))
          | inr (score, e) ↦
              rw (drafted, e)
                (by_founder_score-Ends _ opp person_id p (readable.founder person_id score e) h)
        ]
