-- ===== src/Decision/Replay.antt =====
-- A decision of backend/app/api/routes/candidates.py that is sent again.
use the_vc_brain.Prelude.{
  ℕ, ◌≡◌, inl, inr, refl, true, false, none, some, List, [], ◌∷◌, ◌++◌, String, str_eq, eq_refl,
  ◌==◌, ==_refl, ==_iff, ◌&&◌, Bool-cases, any, ◌∙◌, subst, is_some, find-passes, find-save,
}
use the_vc_brain.Time.{aware}
use the_vc_brain.Models.{Opportunity, DecisionEvent, Founder}
use the_vc_brain.Sla.Evaluate.{finalize_sla}
use the_vc_brain.Pipeline.{InvestmentMemo}
use the_vc_brain.Http.{responded, refused, unhandled}
use the_vc_brain.Decision.{
  Desk, DecisionAction, proceed, hold_deal, decline, action_text, CandidateDecisionRequest,
  CandidateDecisionResponse, linked, has_key, event_of, response, Answer, decision_event,
  decided_deal, decided, conflicts, with_existing, with_opportunity, with_person,
  record_candidate_decision,
}
use the_vc_brain.Decision.Recorded.{
  IsAdmitted, HowDecided, refusal, repeated, fresh, record_candidate_decision-HowDecided,
}

-- a call that finds the event of its key
repeat_lem :
    (strip : String → String) (now : ℕ) (desk : Desk) (candidate_id : ℕ)
    (payload : CandidateDecisionRequest) (header : String) (o : Opportunity) (e : DecisionEvent)
    → IsAdmitted strip now desk candidate_id payload header o
    → event_of (strip header) desk.store.events ≡ some e
    → conflicts strip now desk payload (strip header) o e ≡ false
    → record_candidate_decision strip now desk candidate_id payload header
      ≡ (responded (response e payload.action (strip payload.reason)), desk)
unfolding record_candidate_decision
repeat_lem strip now desk candidate_id payload header o e a k c = rw (
  a.key_length, a.found, with_person, a.canonical, a.is_linked, with_opportunity, a.reason_length,
  k, with_existing, c,
)

event_of-append :
    (key : String) (es : List DecisionEvent) (e : DecisionEvent)
    → event_of key es ≡ none
    → has_key key e.idempotency_key ≡ true
    → event_of key (es ++ e ∷ []) ≡ some e
event_of-append key [] e h k = rw k
event_of-append key (x ∷ es) e h k = elim (Bool-cases (has_key key x.idempotency_key)) [
  | inl t ↦ cc (rw t at h)
  | inr t ↦ rw t (event_of-append key es e (rw t at h) k)
]

pub finalize_sla-id :
    (o : Opportunity) (now : ℕ) → (finalize_sla o (some (aware now)) now).0.id ≡ o.id
unfolding finalize_sla
finalize_sla-id o now = elim (Bool-cases (is_some o.received_at)) [ inl e ↦ rw e | inr e ↦ rw e ]

is_action-text : (action : DecisionAction) → str_eq (action_text action) (action_text action) ≡ true
is_action-text proceed = refl
is_action-text hold_deal = refl
is_action-text decline = refl

module _ (strip : String → String) (now later : ℕ) (desk : Desk) (candidate_id : ℕ)
    (payload : CandidateDecisionRequest) (header : String) where
  linked-decided :
      (o : Opportunity) (person_id : ℕ)
      → linked desk.store payload.opportunity_id person_id ≡ some o
      → (memo : InvestmentMemo)
      → linked
          (decided strip now desk payload (strip header) o memo).1.store
          payload.opportunity_id
          person_id
        ≡ some (decided_deal strip now desk payload (strip header) o)
  unfolding decided
  linked-decided o person_id e memo =
      let links =
        any
          (λ (f : Founder). f.opportunity_id == payload.opportunity_id && f.person_id == person_id)
          desk.store.founders in
      elim (Bool-cases links) [
        | inl t ↦
            let found = rw t at e in
            let id =
              find-passes (λ (r : Opportunity). r.id == payload.opportunity_id)
                desk.store.opportunities found in
            rw t (
              find-save (λ (r : Opportunity). r.id) payload.opportunity_id desk.store.opportunities
                (decided_deal strip now desk payload (strip header) o) found
                (finalize_sla-id o now ∙ (==_iff o.id payload.opportunity_id).0 id))
        | inr t ↦ cc (rw t at e)
      ]

  -- an answered call that is sent again gets the same answer and changes nothing
  abbrev Again : Answer → Type 0
  Again (responded answer, next) =
      record_candidate_decision strip later next candidate_id payload header
      ≡ (responded answer, next)
  Again (refused status_code detail, next) = Unit
  Again (unhandled, next) = Unit

  fresh-Again :
      (o : Opportunity) (memo : InvestmentMemo)
      → IsAdmitted strip now desk candidate_id payload header o
      → event_of (strip header) desk.store.events ≡ none
      → Again (decided strip now desk payload (strip header) o memo)
  unfolding decided
  fresh-Again o memo a k =
      let next = (decided strip now desk payload (strip header) o memo).1 in
      let event = decision_event strip now desk payload (strip header) o memo in
      let deal = decided_deal strip now desk payload (strip header) o in
      repeat_lem strip later next candidate_id payload header deal event
        (record {
          key_length = a.key_length;
          candidate = a.candidate;
          found = a.found;
          canonical = a.canonical;
          is_linked = linked-decided o a.candidate.id a.is_linked memo;
          reason_length = a.reason_length;
        })
        (event_of-append (strip header) desk.store.events event k (eq_refl (strip header)))
        (rw (
          finalize_sla-id o now,
          ==_refl o.id,
          is_action-text payload.action,
          eq_refl (strip payload.reason),
        ))

  again_lem : (r : Answer) → HowDecided strip now desk candidate_id payload header r → Again r
  again_lem r (refusal status_code detail) = tt
  again_lem r (repeated o event a k c) =
      repeat_lem strip later desk candidate_id payload header o event
        (record {
          key_length = a.key_length;
          candidate = a.candidate;
          found = a.found;
          canonical = a.canonical;
          is_linked = a.is_linked;
          reason_length = a.reason_length;
        })
        k c
  again_lem r (fresh o memo a k v s l m) = fresh-Again o memo a k

  -- A decision that was answered and is sent again, with the same header and the same body at any
  -- later moment and with nothing in between, gets the same answer and changes nothing.
  pub record_candidate_decision-again :
      (answer : CandidateDecisionResponse) (next : Desk)
      → record_candidate_decision strip now desk candidate_id payload header
        ≡ (responded answer, next)
      → record_candidate_decision strip later next candidate_id payload header
        ≡ (responded answer, next)
  record_candidate_decision-again answer next e =
      subst (λ x. Again x) e
        (again_lem _
          (record_candidate_decision-HowDecided strip now desk candidate_id payload header))
