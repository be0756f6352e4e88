-- ===== src/Decision/Recorded.antt =====
-- The ways in which `record_candidate_decision` of backend/app/api/routes/candidates.py ends.
use Prim.Native.String.{count}
use the_vc_brain.Prelude.{
  str_eq, Bool, false, ◌==◌, ◌&&◌, refl, ℕ, ◌≡◌, inl, inr, refl, true, false, Option, none, some,
  List, [], ◌∷◌, String, ◌&&◌, Bool-cases, Option-cases, leb, ltb, keep, subst,
}
use the_vc_brain.Lifecycle.{is_valid_transition, ◌is◌}
use the_vc_brain.Models.{Person, Opportunity, DecisionEvent}
use the_vc_brain.Pipeline.{InvestmentMemo}
use the_vc_brain.Identity.{person}
use the_vc_brain.Http.{responded, refused}
use the_vc_brain.Decision.{
  Desk, CandidateDecisionRequest, decision_state_for_action, linked, event_of, is_validated,
  newest_memo, latest_memo, response, Answer, decided, with_memo, conflicts, with_existing,
  with_opportunity, with_person, record_candidate_decision,
}

newest_memo-keep :
    (id : ℕ) (ms : List InvestmentMemo) (n : InvestmentMemo)
    → newest_memo (keep (is_validated id) ms) ≡ some n
    → is_validated id n ≡ true
newest_memo-keep id [] n e = cc e
newest_memo-keep id (m ∷ ms) n e = elim (Bool-cases (is_validated id m)) [
  | inr t ↦ newest_memo-keep id ms n (rw t at e)
  | inl t ↦ elim (Option-cases (newest_memo (keep (is_validated id) ms))) [
    | inl g ↦ let same : m ≡ n = cc (rw (t, g) at e) in subst (λ x. is_validated id x ≡ true) same t
    | inr (k, g) ↦ elim (Bool-cases (leb k.created_at m.created_at)) [
      | inl l ↦
          let same : m ≡ n = cc (rw (t, g, l) at e) in subst (λ x. is_validated id x ≡ true) same t
      | inr l ↦
          let same : k ≡ n = cc (rw (t, g, l) at e) in
          subst (λ x. is_validated id x ≡ true) same (newest_memo-keep id ms k g)
    ]
  ]
]

both : (p q : Bool) → (p && q) ≡ true → (p ≡ true) × (q ≡ true)
both true true e = (refl, refl)
both true false e = cc e
both false q e = cc e

module _ (strip : String → String) (now : ℕ) (desk : Desk) (candidate_id : ℕ)
    (payload : CandidateDecisionRequest) (header : String) where
  -- the checks that every answer but a refusal has passed
  pub record IsAdmitted (o : Opportunity) : Type 0 where
    pub key_length : (leb 1 (count (strip header)) && leb (count (strip header)) 128) ≡ true
    pub candidate : Person
    pub found : person desk.persons candidate_id ≡ some candidate
    pub canonical : candidate.canonical ≡ true
    pub is_linked : linked desk.store payload.opportunity_id candidate.id ≡ some o
    pub reason_length : ltb (count (strip payload.reason)) 3 ≡ false

  pub data HowDecided : Answer → Type 0 where
    refusal : (status_code : ℕ) (detail : String) → HowDecided (refused status_code detail, desk)
    repeated :
        (o : Opportunity) (e : DecisionEvent)
        → IsAdmitted o
        → event_of (strip header) desk.store.events ≡ some e
        → conflicts strip now desk payload (strip header) o e ≡ false
        → HowDecided (responded (response e payload.action (strip payload.reason)), desk)
    fresh :
        (o : Opportunity) (memo : InvestmentMemo)
        → IsAdmitted o
        → event_of (strip header) desk.store.events ≡ none
        → is_valid_transition o.lifecycle_state (decision_state_for_action payload.action) ≡ true
        → (o.lifecycle_state is decision_state_for_action payload.action) ≡ false
        → latest_memo desk.memos o.id ≡ some memo
        → ((memo.opportunity_id == o.id) ≡ true) × (str_eq memo.status "succeeded" ≡ true)
        → HowDecided (decided strip now desk payload (strip header) o memo)

  memo-HowDecided :
      (o : Opportunity) (found : Option InvestmentMemo)
      → latest_memo desk.memos o.id ≡ found
      → IsAdmitted o
      → event_of (strip header) desk.store.events ≡ none
      → is_valid_transition o.lifecycle_state (decision_state_for_action payload.action) ≡ true
      → (o.lifecycle_state is decision_state_for_action payload.action) ≡ false
      → HowDecided (with_memo strip now desk payload (strip header) o found)
  unfolding with_memo latest_memo
  memo-HowDecided o none e a k v s = refusal _ _
  memo-HowDecided o (some memo) e a k v s =
      fresh o memo a k v s e (both _ _ (newest_memo-keep o.id desk.memos memo e))

  existing-HowDecided :
      (o : Opportunity) (found : Option DecisionEvent)
      → event_of (strip header) desk.store.events ≡ found
      → IsAdmitted o
      → HowDecided (with_existing strip now desk payload (strip header) o found)
  unfolding with_existing
  existing-HowDecided o (some e) k a =
      elim (Bool-cases (conflicts strip now desk payload (strip header) o e)) [
        | inl c ↦ rw c (refusal _ _)
        | inr c ↦ rw c (repeated o e a k c)
      ]
  existing-HowDecided o none k a =
      let new = decision_state_for_action payload.action in
      elim (Bool-cases (is_valid_transition o.lifecycle_state new)) [
        | inr v ↦ rw v (refusal _ _)
        | inl v ↦ elim (Bool-cases (o.lifecycle_state is new)) [
          | inl s ↦ rw (v, s) (refusal _ _)
          | inr s ↦ rw (v, s) (memo-HowDecided o (latest_memo desk.memos o.id) refl a k v s)
        ]
      ]

  pub record_candidate_decision-HowDecided :
      HowDecided (record_candidate_decision strip now desk candidate_id payload header)
  unfolding record_candidate_decision
  record_candidate_decision-HowDecided =
      elim (Bool-cases (leb 1 (count (strip header)) && leb (count (strip header)) 128)) [
        | inr l ↦ rw l (refusal _ _)
        | inl l ↦ elim (Option-cases (person desk.persons candidate_id)) [
          | inl e ↦ rw (l, e, with_person) (refusal _ _)
          | inr (p, e) ↦ elim (Bool-cases p.canonical) [
            | inr c ↦ rw (l, e, with_person, c) (refusal _ _)
            | inl c ↦ elim (Option-cases (linked desk.store payload.opportunity_id p.id)) [
              | inl d ↦ rw (l, e, with_person, c, d, with_opportunity) (refusal _ _)
              | inr (o, d) ↦ elim (Bool-cases (ltb (count (strip payload.reason)) 3)) [
                | inl r ↦ rw (l, e, with_person, c, d, with_opportunity, r) (refusal _ _)
                | inr r ↦
                    rw (l, e, with_person, c, d, with_opportunity, r)
                      (existing-HowDecided o (event_of (strip header) desk.store.events) refl
                        (record {
                          key_length = l;
                          candidate = p;
                          found = e;
                          canonical = c;
                          is_linked = d;
                          reason_length = r;
                        }))
              ]
            ]
          ]
        ]
      ]
