-- ===== src/Opportunity/Audit.antt =====
-- The decision events of a deal replay its lifecycle: what `transition_opportunity` of
-- backend/app/opportunity_service.py keeps.
use the_vc_brain.Prelude.{
  ℕ, ◌≡◌, ◌⊎◌, inl, inr, true, false, [], ◌∷◌, ◌++◌, String, if◌then◌else◌, arith, Bool-cases, sym,
  ◌∙◌, subst, ◌+◌, ◌&&◌, not, is_some, some, refl,
}
use the_vc_brain.Lifecycle.{Stage, received, is_valid_transition, ◌is◌}
use the_vc_brain.Lifecycle.Keys.{is_iff}
use the_vc_brain.Models.{pending, Opportunity, DecisionEvent, Store}
use the_vc_brain.Time.{aware, hours}
use the_vc_brain.Sla.{initialize_sla}
use the_vc_brain.Opportunity.{
  ok, raised, invalid_transition, save, receive, transitioned, transition_opportunity,
}
use the_vc_brain.Opportunity.Replay.{IsAudited, IsCurrent, append-IsAudited, save-IsAudited}

receive_keeps :
    (now : ℕ) (o : Opportunity) (new : Stage)
    → ((receive now o new).id ≡ o.id) × ((receive now o new).lifecycle_state ≡ o.lifecycle_state)
unfolding initialize_sla
receive_keeps now o new = ground arith

receive_starts :
    (now : ℕ) (o : Opportunity) (new : Stage)
    → ((receive now o new).received_at ≡ (
        if new is received && not (is_some o.received_at) then some (aware now) else o.received_at))
      × ((receive now o new).decision_due_at ≡ (
          if new is received && not (is_some o.received_at)
          then some (aware (now + hours 24))
          else o.decision_due_at))
      × ((receive now o new).sla_attainment
          ≡ (if new is received && not (is_some o.received_at) then pending else o.sla_attainment))
unfolding initialize_sla
receive_starts now o new = elim (Bool-cases (new is received)) [
  | inr e ↦ rw e (refl, refl, refl)
  | inl e ↦ elim (Bool-cases (is_some o.received_at)) [
    | inl r ↦ rw (e, r) (refl, refl, refl)
    | inr r ↦ rw (e, r) (refl, refl, refl)
  ]
]

-- What an allowed call did: the event that it returns names the deal, its stage before and the new
-- stage; the deal stands at the new stage and is saved; a move to another stage appends the event, a
-- move to the same stage appends none; a move to `received` starts the clock of a deal whose clock
-- does not run: it is received now and due in 24 hours, and else the clock is kept.
pub record IsTransitioned (now : ℕ) (store : Store) (o : Opportunity) (new : Stage)
    (result : Store × Opportunity × DecisionEvent) : Type 0 where
  pub same_id : result.1.id ≡ o.id
  pub at_new : result.1.lifecycle_state ≡ new
  pub of_deal : result.2.opportunity_id ≡ o.id
  pub from_prior : result.2.prior_state ≡ o.lifecycle_state
  pub to_new : result.2.new_state ≡ new
  pub saved : result.0.opportunities ≡ save result.1 store.opportunities
  pub logged :
      result.0.events
      ≡ (if o.lifecycle_state is new then store.events else store.events ++ result.2 ∷ [])
  pub started :
      result.1.received_at
      ≡ (if new is received && not (is_some o.received_at) then some (aware now) else o.received_at)
  pub due : result.1.decision_due_at ≡ (
      if new is received && not (is_some o.received_at)
      then some (aware (now + hours 24))
      else o.decision_due_at)
  pub attainment :
      result.1.sla_attainment
      ≡ (if new is received && not (is_some o.received_at) then pending else o.sla_attainment)

at_new_stage :
    (o : Opportunity) (new : Stage) → (o.lifecycle_state is new) ≡ true → o.lifecycle_state ≡ new
at_new_stage o new e = (is_iff o.lifecycle_state new).0 e

pub transitioned_lem :
    (now : ℕ) (store : Store) (o : Opportunity) (new : Stage) (actor reason : String)
    → IsTransitioned now store o new (transitioned now store o new actor reason)
unfolding transitioned
transitioned_lem now store o new actor reason = elim (Bool-cases (o.lifecycle_state is new)) [
  | inl e ↦ record {
    same_id = rw e (receive_keeps now o new).0;
    at_new = rw e ((receive_keeps now o new).1 ∙ at_new_stage o new e);
    of_deal = rw e;
    from_prior = rw e;
    to_new = rw e;
    saved = rw e;
    logged = rw e;
    started = rw e (receive_starts now o new).0;
    due = rw e (receive_starts now o new).1;
    attainment = rw e (receive_starts now o new).2;
  }
  | inr e ↦ record {
    same_id = rw e (receive_keeps now o new).0;
    at_new = rw e;
    of_deal = rw e;
    from_prior = rw e;
    to_new = rw e;
    saved = rw e;
    logged = rw e;
    started = rw e (receive_starts now o new).0;
    due = rw e (receive_starts now o new).1;
    attainment = rw e (receive_starts now o new).2;
  }
]

-- A call that the table does not allow raises the transition error, and one that it allows succeeds:
-- it returns the deal at the new stage with an event that names both stages, stores the event unless
-- the stage is the same, and on a move to `received` sets a
-- deal whose clock does not run to be received now and due in 24 hours, and else keeps the clock.
pub transition_opportunity_lem :
    (now : ℕ) (store : Store) (o : Opportunity) (new : Stage) (actor reason : String)
    → ((is_valid_transition o.lifecycle_state new ≡ false)
        × (transition_opportunity now store o new actor reason
            ≡ raised (invalid_transition o.lifecycle_state new)))
      ⊎ ((is_valid_transition o.lifecycle_state new ≡ true)
          × ((result : Store × Opportunity × DecisionEvent) × (transition_opportunity now store o
                  new actor reason
                ≡ ok result)
              × IsTransitioned now store o new result))
unfolding transition_opportunity
transition_opportunity_lem now store o new actor reason =
    elim (Bool-cases (is_valid_transition o.lifecycle_state new)) [
      | inl h ↦ inr (
        h,
        (
          transitioned now store o new actor reason,
          rw h,
          transitioned_lem now store o new actor reason,
        ),
      )
      | inr h ↦ inl (h, rw h)
    ]

transitioned-IsAudited :
    (store : Store) (o : Opportunity) (new : Stage) (now : ℕ)
    (result : Store × Opportunity × DecisionEvent)
    → IsTransitioned now store o new result
    → is_valid_transition o.lifecycle_state new ≡ true
    → IsAudited store
    → IsCurrent store o
    → IsAudited result.0
transitioned-IsAudited store o new now result t valid audited current =
    elim (Bool-cases (o.lifecycle_state is new)) [
      | inl e ↦
          rw (t.saved, t.logged, e)
            (save-IsAudited store.events store.opportunities o result.1 t.same_id
              (t.at_new ∙ sym (at_new_stage o new e)) current audited)
      | inr e ↦
          rw (t.saved, t.logged, e)
            (append-IsAudited store.events store.opportunities o result.1 result.2 t.of_deal
              t.from_prior (t.to_new ∙ sym t.at_new) t.same_id
              (subst (λ s. is_valid_transition o.lifecycle_state s ≡ true) (sym t.to_new) valid)
              current audited)
    ]

-- Every deal's events replay its lifecycle: from some first stage they lead, by allowed moves that
-- each start where the last one ended, to the stage that the row has. A call that succeeds keeps this,
-- when its deal is at the stage of its row.
pub transition_opportunity-IsAudited :
    (now : ℕ) (store : Store) (o : Opportunity) (new : Stage) (actor reason : String)
    {result : Store × Opportunity × DecisionEvent}
    → IsAudited store
    → IsCurrent store o
    → transition_opportunity now store o new actor reason ≡ ok result
    → IsAudited result.0
unfolding transition_opportunity
transition_opportunity-IsAudited now store o new actor reason {result} audited current h =
    elim (Bool-cases (is_valid_transition o.lifecycle_state new)) [
      | inl valid ↦
          subst (λ x. IsAudited x.0) (same_result valid (rw valid at h))
            (transitioned-IsAudited store o new now (transitioned now store o new actor reason)
              (transitioned_lem now store o new actor reason) valid audited current)
      | inr refused ↦ absurd (never (rw refused at h))
    ]
  where
    never : raised (invalid_transition o.lifecycle_state new) ≡ ok result → ⊥
    never e = cc

    same_result :
        is_valid_transition o.lifecycle_state new ≡ true
        → ok (transitioned now store o new actor reason) ≡ ok result
        → transitioned now store o new actor reason ≡ result
    same_result valid e = cc
