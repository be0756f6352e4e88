-- ===== src/Decision/Audited.antt =====
-- The decision route of backend/app/api/routes/candidates.py and the trail of decision events.
use the_vc_brain.Prelude.{
  ℕ, ◌≡◌, inl, inr, refl, true, false, some, List, [], ◌∷◌, String, All, subst, All-map, find,
  find-passes, any, ◌==◌, ◌&&◌, Bool-cases, arith,
}
use the_vc_brain.Lifecycle.{is_valid_transition}
use the_vc_brain.Models.{Opportunity, Founder, Store}
use the_vc_brain.Pipeline.{InvestmentMemo}
use the_vc_brain.Opportunity.Replay.{IsAudited, IsCurrent, append-IsAudited}
use the_vc_brain.Decision.{
  Desk, CandidateDecisionRequest, decision_state_for_action, Answer, linked, decision_event,
  decided_deal, decided, record_candidate_decision,
}
use the_vc_brain.Decision.Recorded.{
  HowDecided, refusal, repeated, fresh, record_candidate_decision-HowDecided,
}
use the_vc_brain.Decision.Replay.{finalize_sla-id}

-- the id is a primary key
abbrev pub Keyed : List Opportunity → Type 0
Keyed [] = Unit
Keyed (o ∷ rows) = All (λ (r : Opportunity). (r.id == o.id) ≡ false) rows × Keyed rows

apart-IsCurrent :
    (o : Opportunity) (rows : List Opportunity)
    → All (λ (r : Opportunity). (r.id == o.id) ≡ false) rows
    → All (λ (r : Opportunity). r.id ≡ o.id → r.lifecycle_state ≡ o.lifecycle_state) rows
apart-IsCurrent o rows h =
    All-map (λ (r : Opportunity). (r.id == o.id) ≡ false)
      (λ (r : Opportunity). r.id ≡ o.id → r.lifecycle_state ≡ o.lifecycle_state)
      (λ r e i. absurd (clash r o e i)) rows h
  where
    clash : (r p : Opportunity) → (r.id == p.id) ≡ false → r.id ≡ p.id → ⊥
    clash r p e i = ground arith

found-IsCurrent :
    (id : ℕ) (rows : List Opportunity) (o : Opportunity)
    → Keyed rows
    → find (λ (r : Opportunity). r.id == id) rows ≡ some o
    → All (λ (r : Opportunity). r.id ≡ o.id → r.lifecycle_state ≡ o.lifecycle_state) rows
found-IsCurrent id [] o k e = tt
found-IsCurrent id (r ∷ rows) o k e = elim (Bool-cases (r.id == id)) [
  | inl t ↦
      let same : r ≡ o = cc (rw t at e) in
      subst
        (λ (x : Opportunity).
          All (λ (y : Opportunity). y.id ≡ x.id → y.lifecycle_state ≡ x.lifecycle_state) (r ∷ rows))
        same (λ i. refl, apart-IsCurrent r rows k.0)
  | inr t ↦
      let found = rw t at e in
      let own = find-passes (λ (x : Opportunity). x.id == id) rows found in
      (λ i. absurd (elsewhere r o own t i), found-IsCurrent id rows o k.1 found)
]
  where
    elsewhere : (r p : Opportunity) → (p.id == id) ≡ true → (r.id == id) ≡ false → r.id ≡ p.id → ⊥
    elsewhere r p own t i = ground arith

linked-IsCurrent :
    (store : Store) (id person_id : ℕ) (o : Opportunity)
    → Keyed store.opportunities
    → linked store id person_id ≡ some o
    → IsCurrent store o
linked-IsCurrent store id person_id o k e =
    elim (Bool-cases
      (any (λ (f : Founder). f.opportunity_id == id && f.person_id == person_id) store.founders)) [
        | inl t ↦ found-IsCurrent id store.opportunities o k (rw t at e)
        | inr t ↦ cc (rw t at e)
      ]

module _ (strip : String → String) (now : ℕ) (desk : Desk) (candidate_id : ℕ)
    (payload : CandidateDecisionRequest) (header : String) where
  decided-IsAudited :
      (o : Opportunity) (memo : InvestmentMemo)
      → is_valid_transition o.lifecycle_state (decision_state_for_action payload.action) ≡ true
      → IsCurrent desk.store o
      → IsAudited desk.store
      → IsAudited (decided strip now desk payload (strip header) o memo).1.store
  unfolding decided
  decided-IsAudited o memo v current h =
      append-IsAudited desk.store.events desk.store.opportunities o
        (decided_deal strip now desk payload (strip header) o)
        (decision_event strip now desk payload (strip header) o memo) refl refl refl
        (finalize_sla-id o now) v current h

  outcome-IsAudited :
      (r : Answer)
      → HowDecided strip now desk candidate_id payload header r
      → Keyed desk.store.opportunities
      → IsAudited desk.store
      → IsAudited r.1.store
  outcome-IsAudited r (refusal status_code detail) k h = h
  outcome-IsAudited r (repeated o event a g c) k h = h
  outcome-IsAudited r (fresh o memo a g v s l m) k h =
      decided-IsAudited o memo v
        (linked-IsCurrent desk.store payload.opportunity_id a.candidate.id o k a.is_linked) h

  -- When no two deals have one id and the decision events replay the stage of every deal, they still do
  -- after any call of the decision route, whatever it answers.
  pub record_candidate_decision-IsAudited :
      Keyed desk.store.opportunities
      → IsAudited desk.store
      → IsAudited (record_candidate_decision strip now desk candidate_id payload header).1.store
  record_candidate_decision-IsAudited k h =
      outcome-IsAudited _
        (record_candidate_decision-HowDecided strip now desk candidate_id payload header) k h
