-- ===== src/Pipeline/Decisions.antt =====
-- The decision events of a run of backend/app/agents/lifecycle_job.py, branch by branch.
use the_vc_brain.Prelude.{
  ℕ, ◌≡◌, refl, Bool, true, false, List, [], ◌∷◌, String, pos, leb, leb_ℤ, ltb_ℤ, if◌then◌else◌,
  Bool-cases, Option-cases, inl, inr, sym, subst,
}
use the_vc_brain.Lifecycle.{
  Stage, discovered, interesting, investigating, received, triage, screening, diligence, memo_ready,
  closed, is_valid_transition,
}
use the_vc_brain.Models.{Opportunity, Store}
use the_vc_brain.Redis.{Task, Redis}
use the_vc_brain.Opportunity.{Fault, Result, ok, raised, transitioned, transition_opportunity}
use the_vc_brain.Pipeline.{
  Evidence, Settings, has_opportunity_axes, has_memo, has_founder_score, has_scoped_claims, Parsed,
  malformed, not_a_number, finite, latest_score, cutoff, updated_after, count_retries,
  has_recent_pipeline_event, person_of, batch,
}
use the_vc_brain.Pipeline.Steps.{
  Formats, Pipeline, budget, moved, one_transition, one_closed, spend, queue_investigation_jobs,
  by_signal, by_founder_score, from_discovered, from_interesting, retried, drafted,
  from_investigating, awaited, from_received, from_triage, from_screening, from_diligence, by_stage,
  advance_one, advance_all, advance_pipeline_job,
}
use the_vc_brain.Pipeline.Trail.{
  is_human, StoreStep, kept, moves, notes, stamps, IsAutomatic, IsAutomatic-refl, IsAutomatic-trans,
  StoreStep-IsAutomatic,
}

module _ (server : Redis) (formats : Formats) (settings : Settings) (evidence : Evidence)
    (now : ℕ) where
  open server use {State}

  -- A branch that ends without an error has made such a step.
  abbrev Steps : Opportunity → Pipeline server → Result (Pipeline server) → Type 0
  Steps opp p r = (q : Pipeline server) → r ≡ ok q → StoreStep now opp p.store q.store

  ok-same : (q r : Pipeline server) → ok q ≡ ok r → q ≡ r
  ok-same q r g = cc

  ok-raised : {f : Fault} (q : Pipeline server) → raised f ≡ ok q → ⊥
  ok-raised q g = cc

  steps :
      (opp : Opportunity) (p q : Pipeline server)
      → StoreStep now opp p.store q.store
      → Steps opp p (ok q)
  steps opp p q h r f =
      subst (λ (x : Pipeline server). StoreStep now opp p.store x.store) (ok-same q r f) h

  moved-Steps :
      (new : Stage) (reason : String) (count : Pipeline server → Pipeline server)
      (opp : Opportunity) (p : Pipeline server)
      → is_human new ≡ false
      → ((q : Pipeline server) → (count q).store ≡ q.store)
      → Steps opp p (moved server formats settings evidence now new reason count opp p)
  unfolding transition_opportunity
  moved-Steps new reason count opp p h same q f =
      elim (Bool-cases (is_valid_transition opp.lifecycle_state new)) [
        | inl v ↦
            let next : Pipeline server = record p {
              store = (transitioned now p.store opp new "pipeline:auto" reason).0;
            } in
            steps opp p (count next)
              (subst (λ (s : Store). StoreStep now opp p.store s) (sym (same next))
                (moves new reason h))
              q (rw (moved, v) at f)
        | inr v ↦ absurd (ok-raised q (rw (moved, v) at f))
      ]

  by_signal-Steps :
      (parsed : Parsed) (opp : Opportunity) (p : Pipeline server)
      → Steps opp p (by_signal server formats settings evidence now parsed opp p)
  unfolding by_signal
  by_signal-Steps malformed opp p = λ q f. absurd (ok-raised q f)
  by_signal-Steps not_a_number opp p = steps opp p p kept
  by_signal-Steps (finite composite) opp p =
      elim (Bool-cases (leb_ℤ settings.signal_threshold composite)) [
        | inl c ↦
            rw (by_signal, c)
              (moved-Steps interesting _ (one_transition server formats settings evidence now) opp p
                refl (λ q. refl))
        | inr c ↦ rw (by_signal, c) (steps opp p p kept)
      ]

  from_discovered-Steps :
      (opp : Opportunity) (person_id : ℕ) (p : Pipeline server)
      → Steps opp p (from_discovered server formats settings evidence now opp person_id p)
  unfolding from_discovered
  from_discovered-Steps opp person_id p =
      elim (Option-cases (latest_score evidence person_id "signal-v1")) [
        | inl e ↦ rw (from_discovered, e) (steps opp p p kept)
        | inr (score, e) ↦ rw (from_discovered, e) (by_signal-Steps _ opp p)
      ]

  from_interesting-Steps :
      (opp : Opportunity) (person_id : ℕ) (p : Pipeline server)
      → Steps opp p (from_interesting server formats settings evidence now opp person_id p)
  unfolding from_interesting
  from_interesting-Steps opp person_id p =
      elim (Bool-cases (has_opportunity_axes evidence opp.id)) [
        | inl a ↦ rw (from_interesting, a) (steps opp p p kept)
        | inr a ↦ elim (Bool-cases (ltb_ℤ (budget server p) (pos 5))) [
          | inl poor ↦ rw (from_interesting, a, poor) (steps opp p _ kept)
          | inr rich ↦
              rw (from_interesting, a, rich)
                (moved-Steps investigating _
                  (λ (q : Pipeline server).
                    queue_investigation_jobs server person_id opp.id
                      (one_transition server formats settings evidence now q))
                  opp (spend server 5 p) refl (λ q. refl))
        ]
      ]

  by_founder_score-Steps :
      (parsed : Parsed) (opp : Opportunity) (person_id : ℕ) (p : Pipeline server)
      → is_human opp.lifecycle_state ≡ false
      → Steps opp p (by_founder_score server formats settings evidence now parsed opp person_id p)
  unfolding by_founder_score
  by_founder_score-Steps malformed opp person_id p h = λ q f. absurd (ok-raised q f)
  by_founder_score-Steps not_a_number opp person_id p h = steps opp p p kept
  by_founder_score-Steps (finite value) opp person_id p h =
      elim (Bool-cases
        (leb_ℤ (formats.times_100 settings.contact_threshold) (formats.times_100 value))) [
          | inr low ↦ rw (by_founder_score, low) (steps opp p p kept)
          | inl high ↦ elim (Bool-cases (leb_ℤ (budget server p) (pos 0))) [
            | inl poor ↦ rw (by_founder_score, high, poor) (steps opp p _ kept)
            | inr rich ↦ rw (by_founder_score, high, rich) (steps opp p _ (stamps _ _ _ h))
          ]
        ]

  from_investigating-Steps :
      (opp : Opportunity) (person_id : ℕ) (p : Pipeline server)
      → is_human opp.lifecycle_state ≡ false
      → Steps opp p (from_investigating server formats settings evidence now opp person_id p)
  unfolding from_investigating retried drafted
  from_investigating-Steps opp person_id p h =
      elim (Bool-cases (has_opportunity_axes evidence opp.id)) [
        | inl a ↦ elim (Option-cases (latest_score evidence person_id "founder-agent-v1")) [
          | inl e ↦ rw (from_investigating, a, drafted, e) (steps opp p p kept)
          | inr (score, e) ↦
              rw (from_investigating, a, drafted, e) (by_founder_score-Steps _ opp person_id p h)
        ]
        | inr a ↦ elim (Bool-cases (updated_after opp.updated_at (cutoff settings now))) [
          | inl u ↦ rw (from_investigating, a, u) (steps opp p p kept)
          | inr u ↦ elim (Bool-cases (leb 3 (count_retries formats.like p.store opp.id))) [
            | inl c ↦
                rw (from_investigating, a, u, retried, c)
                  (moved-Steps closed _ (one_closed server formats settings evidence now) opp p refl
                    (λ q. refl))
            | inr c ↦ elim (Bool-cases (ltb_ℤ (budget server p) (pos 5))) [
              | inl poor ↦ rw (from_investigating, a, u, retried, c, poor) (steps opp p _ kept)
              | inr rich ↦
                  rw (from_investigating, a, u, retried, c, rich) (steps opp p _ (stamps _ _ _ h))
            ]
          ]
        ]
      ]

  waits-Steps :
      (present enough : Bool) (calls : ℕ) (task : Task) (reason stage missing done : String)
      (new : Stage) (opp : Opportunity) (p : Pipeline server)
      → is_human opp.lifecycle_state ≡ false
      → is_human new ≡ false
      → Steps opp p (
          if present
          then moved server formats settings evidence now new done
              (one_transition server formats settings evidence now)
              opp
              p
          else ok (
              awaited server formats settings evidence now enough calls task reason stage missing
                opp p))
  unfolding awaited
  waits-Steps true enough calls task reason stage missing done new opp p h k =
      moved-Steps new done (one_transition server formats settings evidence now) opp p k (λ q. refl)
  waits-Steps false false calls task reason stage missing done new opp p h k = steps opp p _ kept
  waits-Steps false true calls task reason stage missing done new opp p h k =
      elim (Bool-cases
        (has_recent_pipeline_event formats.like p.store opp.id reason (cutoff settings now))) [
          | inl recent ↦ rw (awaited, recent) (steps opp p p kept)
          | inr due ↦ rw (awaited, due) (steps opp p _ (notes _ _ h))
        ]

  by_stage-Steps :
      (stage : Stage) (opp : Opportunity) (person_id : ℕ) (p : Pipeline server)
      → opp.lifecycle_state ≡ stage
      → Steps opp p (by_stage server formats settings evidence now stage opp person_id p)
  unfolding by_stage from_received from_triage from_screening from_diligence
  by_stage-Steps discovered opp person_id p e = from_discovered-Steps opp person_id p
  by_stage-Steps interesting opp person_id p e = from_interesting-Steps opp person_id p
  by_stage-Steps investigating opp person_id p e = from_investigating-Steps opp person_id p (rw e)
  by_stage-Steps received opp person_id p e =
      waits-Steps (has_scoped_claims evidence person_id opp.id) _ _ _ _ _ _ _ triage opp p (rw e)
        refl
  by_stage-Steps triage opp person_id p e =
      waits-Steps (has_founder_score evidence person_id) _ _ _ _ _ _ _ screening opp p (rw e) refl
  by_stage-Steps screening opp person_id p e =
      waits-Steps (has_opportunity_axes evidence opp.id) _ _ _ _ _ _ _ diligence opp p (rw e) refl
  by_stage-Steps diligence opp person_id p e =
      waits-Steps (has_memo evidence opp.id) _ _ _ _ _ _ _ memo_ready opp p (rw e) refl
  by_stage-Steps _ opp person_id p e = steps opp p p kept

  advance_one-Steps :
      (opp : Opportunity) (p : Pipeline server)
      → Steps opp p (advance_one server formats settings evidence now opp p)
  unfolding advance_one
  advance_one-Steps opp p = elim (Option-cases (person_of p.store opp.id)) [
    | inl e ↦ rw (advance_one, e) (steps opp p p kept)
    | inr (person_id, e) ↦
        rw (advance_one, e) (by_stage-Steps opp.lifecycle_state opp person_id p refl)
  ]

  advance_all-IsAutomatic :
      (opps : List Opportunity) (p q : Pipeline server)
      → advance_all server formats settings evidence now opps p ≡ ok q
      → IsAutomatic p.store q.store
  unfolding advance_all
  advance_all-IsAutomatic [] p q f =
      subst (λ (x : Pipeline server). IsAutomatic p.store x.store) (ok-same p q f)
        (IsAutomatic-refl p.store)
  advance_all-IsAutomatic (opp ∷ rest) p q f =
      split (λ m g. advance_all-IsAutomatic rest m q g)
        (advance_one server formats settings evidence now opp p) refl
    where
      split :
          ((m : Pipeline server)
            → advance_all server formats settings evidence now rest m ≡ ok q
            → IsAutomatic m.store q.store)
          → (r : Result (Pipeline server))
          → advance_one server formats settings evidence now opp p ≡ r
          → IsAutomatic p.store q.store
      split more (ok m) e =
          IsAutomatic-trans p.store m.store q.store
            (StoreStep-IsAutomatic now opp p.store m.store (advance_one-Steps opp p m e))
            (more m (rw (advance_all, e) at f))
      split more (raised g) e = absurd (ok-raised q (rw (advance_all, e) at f))

  -- The job takes no decision that is a human's: a run that ends only appends to the decision events,
  -- and no event that it appends has `contacted`, `hold` or `approved` as its new stage.
  pub advance_pipeline_job-IsAutomatic :
      (locked : ℕ → Bool) (store : Store) (redis : State) {q : Pipeline server}
      → advance_pipeline_job server formats settings evidence now locked store redis ≡ ok q
      → IsAutomatic store q.store
  unfolding advance_pipeline_job
  advance_pipeline_job-IsAutomatic locked store redis {q} f =
      advance_all-IsAutomatic (batch settings locked store)
        (record {
          store = store;
          redis = redis;
          transitions = 0;
          stuck_closed = 0;
          budget_exhausted = 0;
          needs_attention = 0;
        })
        q f
