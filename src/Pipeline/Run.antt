-- ===== src/Pipeline/Run.antt =====
-- A whole run of `advance_pipeline_job` of backend/app/agents/lifecycle_job.py.
use the_vc_brain.Prelude.{
  ℕ, ◌≡◌, refl, ◌⊎◌, inl, inr, Bool, true, false, List, [], ◌∷◌, String, ℤ, pos, ◌≤ℤ◌, leb_ℤ, ltb_ℤ,
  if◌then◌else◌, arith, int_laws, Bool-cases, Option-cases, ◌∙◌,
}
use the_vc_brain.Lifecycle.{
  Stage, discovered, interesting, investigating, received, triage, screening, diligence, memo_ready,
  is_valid_transition,
}
use the_vc_brain.Models.{Opportunity, Store}
use the_vc_brain.Redis.{Task, agent_budget, Redis}
use the_vc_brain.Queue.{get_budget_remaining}
use the_vc_brain.Opportunity.{ok}
use the_vc_brain.Pipeline.{
  Evidence, Settings, has_opportunity_axes, has_memo, has_founder_score, has_scoped_claims, cutoff,
  updated_after, has_recent_pipeline_event, person_of, batch,
}
use the_vc_brain.Pipeline.Steps.{
  Formats, Pipeline, spend, push, budget, one_transition, moved, from_investigating, awaited,
  from_received, from_triage, from_screening, from_diligence, by_stage, advance_one, advance_all,
  advance_pipeline_job,
}
use the_vc_brain.Pipeline.Spending.{
  IsSpent, IsReadable, Ends, spend-budget, push-budget, IsSpent-by, stays, moved-Ends, ended,
  from_discovered-Ends, from_interesting-Ends, retried-Ends, drafted-Ends,
}

at_least : (v : ℤ) (n : ℕ) → leb_ℤ (pos n) v ≡ true → pos n ≤ℤ v
at_least v n h = ground arith

not_zero : (v : ℤ) → ltb_ℤ (pos 0) v ≡ true → pos 1 ≤ℤ v
not_zero v h = ground arith

IsSpent-trans :
    (server : Redis) (p q r : Pipeline server)
    → IsSpent server p q
    → IsSpent server q r
    → IsSpent server p r
IsSpent-trans server p q r h k = (k.0, omega (int_laws, h.1, k.1))

module _ (server : Redis) (formats : Formats) (settings : Settings) (evidence : Evidence)
    (now : ℕ) where
  open server use {State}

  awaited-IsSpent :
      (enough : Bool) (calls : ℕ) (task : Task) (reason stage missing : String) (opp : Opportunity)
      (p : Pipeline server)
      → pos 0 ≤ℤ budget server p
      → (enough ≡ false) ⊎ (pos calls ≤ℤ budget server p)
      → IsSpent server p (
          awaited server formats settings evidence now enough calls task reason stage missing opp p)
  unfolding awaited
  awaited-IsSpent false calls task reason stage missing opp p h k = stays server p p h refl
  awaited-IsSpent true calls task reason stage missing opp p h (inl k) = absurd (cc k)
  awaited-IsSpent true calls task reason stage missing opp p h (inr k) =
      elim (Bool-cases
        (has_recent_pipeline_event formats.like p.store opp.id reason (cutoff settings now))) [
          | inl recent ↦ rw (awaited, recent) (stays server p p h refl)
          | inr due ↦
              rw (awaited, due)
                (IsSpent-by server calls p (push server task (spend server calls p)) k
                  (push-budget server task (spend server calls p) ∙ spend-budget server calls p))
        ]

  affordable :
      (enough : Bool) (calls : ℕ) (p : Pipeline server)
      → (enough ≡ true → pos calls ≤ℤ budget server p)
      → (enough ≡ false) ⊎ (pos calls ≤ℤ budget server p)
  affordable false calls p h = inl refl
  affordable true calls p h = inr (h refl)

  -- The four branches that wait for an output have one shape.
  waits-Ends :
      (present enough : Bool) (calls : ℕ) (task : Task) (reason stage missing done : String)
      (new : Stage) (opp : Opportunity) (p : Pipeline server)
      → is_valid_transition opp.lifecycle_state new ≡ true
      → pos 0 ≤ℤ budget server p
      → (enough ≡ true → pos calls ≤ℤ budget server p)
      → Ends server p (
          if present
          then moved server formats settings evidence now new done
              (one_transition server formats settings evidence now)
              opp
              p
          else ok (
              awaited server formats settings evidence now enough calls task reason stage missing
                opp p))
  waits-Ends true enough calls task reason stage missing done new opp p valid h k =
      moved-Ends server formats settings evidence now new done
        (one_transition server formats settings evidence now) opp p valid h (λ q. refl)
  waits-Ends false enough calls task reason stage missing done new opp p valid h k =
      ended server formats settings evidence now p _ (
        awaited-IsSpent enough calls task reason stage missing opp p h
          (affordable enough calls p k))

  by_stage-Ends :
      (readable : IsReadable server formats settings evidence now) (stage : Stage)
      (opp : Opportunity) (person_id : ℕ) (p : Pipeline server)
      → opp.lifecycle_state ≡ stage
      → pos 0 ≤ℤ budget server p
      → Ends server p (by_stage server formats settings evidence now stage opp person_id p)
  unfolding by_stage from_investigating from_received from_triage from_screening from_diligence
      is_valid_transition
  by_stage-Ends readable discovered opp person_id p e h =
      from_discovered-Ends server formats settings evidence now readable opp person_id p e h
  by_stage-Ends readable interesting opp person_id p e h =
      from_interesting-Ends server formats settings evidence now opp person_id p e h
  by_stage-Ends readable investigating opp person_id p e h =
      elim (Bool-cases (has_opportunity_axes evidence opp.id)) [
        | inl a ↦
            rw (from_investigating, a)
              (drafted-Ends server formats settings evidence now readable opp person_id p h)
        | inr a ↦ elim (Bool-cases (updated_after opp.updated_at (cutoff settings now))) [
          | inl u ↦
              rw (from_investigating, a, u)
                (ended server formats settings evidence now p p (stays server p p h refl))
          | inr u ↦
              rw (from_investigating, a, u)
                (retried-Ends server formats settings evidence now opp person_id p e h)
        ]
      ]
  by_stage-Ends readable received opp person_id p e h =
      waits-Ends (has_scoped_claims evidence person_id opp.id) (ltb_ℤ (pos 0) (budget server p)) 1 _
        _ _ _ _ triage opp p (rw e) h (not_zero (budget server p))
  by_stage-Ends readable triage opp person_id p e h =
      waits-Ends (has_founder_score evidence person_id) (leb_ℤ (pos 5) (budget server p)) 5 _ _ _ _
        _ screening opp p (rw e) h (at_least (budget server p) 5)
  by_stage-Ends readable screening opp person_id p e h =
      waits-Ends (has_opportunity_axes evidence opp.id) (leb_ℤ (pos 3) (budget server p)) 3 _ _ _ _
        _ diligence opp p (rw e) h (at_least (budget server p) 3)
  by_stage-Ends readable diligence opp person_id p e h =
      waits-Ends (has_memo evidence opp.id) (ltb_ℤ (pos 0) (budget server p)) 1 _ _ _ _ _ memo_ready
        opp p (rw e) h (not_zero (budget server p))
  by_stage-Ends readable _ opp person_id p e h =
      ended server formats settings evidence now p p (stays server p p h refl)

  advance_one-Ends :
      (readable : IsReadable server formats settings evidence now) (opp : Opportunity)
      (p : Pipeline server)
      → pos 0 ≤ℤ budget server p
      → Ends server p (advance_one server formats settings evidence now opp p)
  unfolding advance_one
  advance_one-Ends readable opp p h = elim (Option-cases (person_of p.store opp.id)) [
    | inl e ↦
        rw (advance_one, e)
          (ended server formats settings evidence now p p (stays server p p h refl))
    | inr (person_id, e) ↦
        rw (advance_one, e) (by_stage-Ends readable opp.lifecycle_state opp person_id p refl h)
  ]

  advance_all-Ends :
      (readable : IsReadable server formats settings evidence now) (opps : List Opportunity)
      (p : Pipeline server)
      → pos 0 ≤ℤ budget server p
      → Ends server p (advance_all server formats settings evidence now opps p)
  unfolding advance_all
  advance_all-Ends readable [] p h =
      ended server formats settings evidence now p p (stays server p p h refl)
  advance_all-Ends readable (opp ∷ rest) p h =
      let (q, e, spent) = advance_one-Ends readable opp p h in
      let (r, f, more) = advance_all-Ends readable rest q spent.0 in
      rw (advance_all, e) (r, f, IsSpent-trans server p q r spent more)

  -- The advancement job neither fails nor overspends on readable scores: when the component that it
  -- reads of each person's latest signal and founder score is a number or a text of one, then on
  -- every store and with every locking, from an agent budget that is not negative, the run ends without an error, and the budget that it leaves is
  -- not negative and no more than it was.
  pub advance_pipeline_job-Ends :
      IsReadable server formats settings evidence now
      → (locked : ℕ → Bool) (store : Store) (redis : State)
      → pos 0 ≤ℤ get_budget_remaining server redis agent_budget
      → (q : Pipeline server) × (advance_pipeline_job server formats settings evidence now locked
            store redis
          ≡ ok q)
        × (pos 0 ≤ℤ get_budget_remaining server q.redis agent_budget)
        × (get_budget_remaining server q.redis agent_budget
            ≤ℤ get_budget_remaining server redis agent_budget)
  unfolding advance_pipeline_job
  advance_pipeline_job-Ends readable locked store redis h =
      let start : Pipeline server = record {
        store = store;
        redis = redis;
        transitions = 0;
        stuck_closed = 0;
        budget_exhausted = 0;
        needs_attention = 0;
      } in
      let (q, e, spent) = advance_all-Ends readable (batch settings locked store) start h in
      (q, e, spent.0, spent.1)
