-- ===== src/Decision/Outcomes.antt =====
-- What an answer of `record_candidate_decision` of backend/app/api/routes/candidates.py means for the
-- rows of the session.
use Prim.Native.String.{count}
use the_vc_brain.Prelude.{
  ℕ, ◌≤◌, ◌≡◌, ◌≢◌, ◌⊎◌, inl, inr, refl, Bool, true, false, Option, none, some, List, [], ◌∷◌, ◌++◌,
  String, eq_iff, ==_iff, ◌==◌, ◌&&◌, ◌||◌, not, Bool-cases, find, any, find-passes, find-save,
  keep, Option-cases, All-map, All, arith, leb, sym, ◌∙◌, ap,
}
use the_vc_brain.Lifecycle.{Stage, approved, hold, closed, is_valid_transition}
use the_vc_brain.Lifecycle.Keys.{is_iff}
use the_vc_brain.Models.{Person, Opportunity, DecisionEvent, Founder, Store, Value, text}
use the_vc_brain.Pipeline.{InvestmentMemo}
use the_vc_brain.Identity.{person}
use the_vc_brain.Http.{responded, refused}
use the_vc_brain.Decision.{
  Desk, CandidateDecisionRequest, CandidateDecisionResponse, DecisionAction, proceed, hold_deal,
  decline, action_text, decision_state_for_action, linked, has_key, is_action, entry, response,
  newest_memo, latest_memo, is_validated, decision_event, decided_deal, decided, Answer,
  record_candidate_decision,
}
use the_vc_brain.Decision.Replay.{finalize_sla-id}
use the_vc_brain.Decision.Recorded.{
  IsAdmitted, HowDecided, refusal, repeated, fresh, record_candidate_decision-HowDecided,
}

-- a row of a table
abbrev pub Listed : {A : Type 0} → A → List A → Type 0
Listed x [] = ⊥
Listed x (y ∷ ys) = (x ≡ y) ⊎ Listed x ys

-- the stage to which a decision leads
pub data Leads : DecisionAction → Stage → Type 0 where
  proceeds : Leads proceed approved
  holds : Leads hold_deal hold
  declines : Leads decline closed

leads : (action : DecisionAction) → Leads action (decision_state_for_action action)
leads proceed = proceeds
leads hold_deal = holds
leads decline = declines

find-Listed : {A : Type 0} (p : A → Bool) (xs : List A) {x : A} → find p xs ≡ some x → Listed x xs
find-Listed p [] e = cc e
find-Listed p (y ∷ ys) {x} e = elim (Bool-cases (p y)) [
  | inl t ↦ let same : y ≡ x = cc (rw t at e) in inl (sym same)
  | inr t ↦ inr (find-Listed p ys (rw t at e))
]

any-Listed :
    {A : Type 0} (p : A → Bool) (xs : List A)
    → any p xs ≡ true
    → (x : A) × Listed x xs × (p x ≡ true)
any-Listed p [] e = cc e
any-Listed p (y ∷ ys) e = elim (Bool-cases (p y)) [
  | inl t ↦ (y, inl refl, t)
  | inr t ↦ let (x, l, h) = any-Listed p ys (rw t at e) in (x, inr l, h)
]

find-none : {A : Type 0} (p : A → Bool) (xs : List A) → find p xs ≡ none → All (λ x. p x ≡ false) xs
find-none p [] e = tt
find-none p (y ∷ ys) e = elim (Bool-cases (p y)) [
  | inl t ↦ cc (rw t at e)
  | inr t ↦ (t, find-none p ys (rw t at e))
]

both : (a b : Bool) → (a && b) ≡ true → (a ≡ true) × (b ≡ true)
both true true e = (refl, refl)
both true false e = cc e
both false b e = cc e

neither : (a b : Bool) → (a || b) ≡ false → (a ≡ false) × (b ≡ false)
neither false false e = (refl, refl)
neither false true e = cc e
neither true b e = cc e

not-false : (a : Bool) → not a ≡ false → a ≡ true
not-false true e = refl
not-false false e = cc e

has_key-some : (key : String) (o : Option String) → has_key key o ≡ true → o ≡ some key
has_key-some key none e = cc e
has_key-some key (some other) e = ap some ((eq_iff other key).0 e)

is_action-text :
    (action : DecisionAction) (o : Option Value)
    → is_action action o ≡ true
    → o ≡ some (text (action_text action))
is_action-text action (some (text t)) e = ap (λ x. some (text x)) ((eq_iff t _).0 e)
is_action-text action _ e = cc e

linked-found :
    (store : Store) (opportunity_id person_id : ℕ) {o : Opportunity}
    → linked store opportunity_id person_id ≡ some o
    → ((f : Founder) × Listed f store.founders
        × (f.opportunity_id ≡ opportunity_id)
        × (f.person_id ≡ person_id))
      × (find (λ (x : Opportunity). x.id == opportunity_id) store.opportunities ≡ some o)
linked-found store opportunity_id person_id e =
    let test = λ (f : Founder). f.opportunity_id == opportunity_id && f.person_id == person_id in
    elim (Bool-cases (any test store.founders)) [
      | inr t ↦ cc (rw t at e)
      | inl t ↦
          let (f, l, h) = any-Listed test store.founders t in
          let (h_o, h_p) = both _ _ h in ((f, l, (==_iff _ _).0 h_o, (==_iff _ _).0 h_p), rw t at e)
    ]

keep-Listed : {A : Type 0} (p : A → Bool) (xs : List A) (x : A) → Listed x (keep p xs) → Listed x xs
keep-Listed p [] x h = h
keep-Listed p (y ∷ ys) x h = elim (Bool-cases (p y)) [
  | inl t ↦ elim (rw t at h) [ inl e ↦ inl e | inr l ↦ inr (keep-Listed p ys x l) ]
  | inr t ↦ inr (keep-Listed p ys x (rw t at h))
]

newest_memo-Listed :
    (ms : List InvestmentMemo) {m : InvestmentMemo} → newest_memo ms ≡ some m → Listed m ms
newest_memo-Listed [] e = cc e
newest_memo-Listed (x ∷ ms) {m} e = elim (Option-cases (newest_memo ms)) [
  | inl g ↦ let same : x ≡ m = cc (rw g at e) in inl (sym same)
  | inr (k, g) ↦ elim (Bool-cases (leb k.created_at x.created_at)) [
    | inl l ↦ let same : x ≡ m = cc (rw (g, l) at e) in inl (sym same)
    | inr l ↦
        let same : k ≡ m = cc (rw (g, l) at e) in inr (newest_memo-Listed ms (g ∙ ap some same))
  ]
]

latest_memo-Listed :
    (memos : List InvestmentMemo) (id : ℕ) {m : InvestmentMemo}
    → latest_memo memos id ≡ some m
    → Listed m memos
unfolding latest_memo
latest_memo-Listed memos id {m} e = keep-Listed (is_validated id) memos m (newest_memo-Listed _ e)

lacks_key : (key : String) (o : Option String) → has_key key o ≡ false → o ≢ some key
lacks_key key none e h = cc h
lacks_key key (some other) e h = let same : other ≡ key = cc h in cc (e, (eq_iff other key).1 same)

person-find :
    (persons : List Person) (id : ℕ) {p : Person}
    → person persons id ≡ some p
    → find (λ (x : Person). x.id == id) persons ≡ some p
person-find persons id e = e

module _ (strip : String → String) (now : ℕ) (desk : Desk) (candidate_id : ℕ)
    (payload : CandidateDecisionRequest) (header : String) where
  -- the key has 1 to 128 characters, the candidate is a canonical person and a founder of the deal, and
  -- the reason has at least 3 characters
  pub record Admits (o : Opportunity) : Type 0 where
    pub some_key : 1 ≤ count (strip header)
    pub short_key : count (strip header) ≤ 128
    pub some_reason : 3 ≤ count (strip payload.reason)
    pub candidate : Person
    pub known : Listed candidate desk.persons
    pub same_person : candidate.id ≡ candidate_id
    pub canonical : candidate.canonical ≡ true
    pub founder : Founder
    pub founds : Listed founder desk.store.founders
    pub of_deal : founder.opportunity_id ≡ payload.opportunity_id
    pub of_person : founder.person_id ≡ candidate_id
    pub deal : Listed o desk.store.opportunities
    pub same_deal : o.id ≡ payload.opportunity_id

  -- One event is added, which carries the decision, and the deal's row stands at its stage.
  pub record IsRecorded (o : Opportunity) (reply : CandidateDecisionResponse) (after : Desk)
      : Type 0 where
    pub event : DecisionEvent
    pub logged : after.store.events ≡ desk.store.events ++ event ∷ []
    pub of_deal : event.opportunity_id ≡ o.id
    pub from_stage : event.prior_state ≡ o.lifecycle_state
    pub to_stage : Leads payload.action event.new_state
    pub keyed : event.idempotency_key ≡ some (strip header)
    pub reason : event.reason ≡ strip payload.reason
    pub action : entry "action" event.sla_metadata ≡ some (text (action_text payload.action))
    pub at_now : event.created_at ≡ now
    pub row : Opportunity
    pub saved :
        find (λ (x : Opportunity). x.id == payload.opportunity_id) after.store.opportunities
        ≡ some row
    pub at_stage : row.lifecycle_state ≡ event.new_state
    pub answered_event : reply.event_id ≡ event.id
    pub answered_stage : reply.new_state ≡ event.new_state
    pub same_persons : after.persons ≡ desk.persons
    pub same_memos : after.memos ≡ desk.memos

  pub data HowEnded : Answer → Type 0 where
    refusing : (status_code : ℕ) (detail : String) → HowEnded (refused status_code detail, desk)
    repeating :
        (o : Opportunity) (e : DecisionEvent) (reply : CandidateDecisionResponse)
        → Admits o
        → Listed e desk.store.events
        → e.idempotency_key ≡ some (strip header)
        → e.opportunity_id ≡ o.id
        → entry "action" e.sla_metadata ≡ some (text (action_text payload.action))
        → e.reason ≡ strip payload.reason
        → (reply.event_id ≡ e.id) × (reply.new_state ≡ e.new_state)
        → HowEnded (responded reply, desk)
    recording :
        (o : Opportunity) (memo : InvestmentMemo) (reply : CandidateDecisionResponse) (after : Desk)
        (new : Stage)
        → Admits o
        → All (λ (e : DecisionEvent). e.idempotency_key ≢ some (strip header)) desk.store.events
        → Leads payload.action new
        → is_valid_transition o.lifecycle_state new ≡ true
        → o.lifecycle_state ≢ new
        → Listed memo desk.memos
        → memo.opportunity_id ≡ o.id
        → memo.status ≡ "succeeded"
        → IsRecorded o reply after
        → HowEnded (responded reply, after)

  admitted-Admits :
      (o : Opportunity) → IsAdmitted strip now desk candidate_id payload header o → Admits o
  admitted-Admits o a =
      let (founding, found) =
        linked-found desk.store payload.opportunity_id a.candidate.id a.is_linked in
      let (f, listed, of_deal, of_person) = founding in
      let (some_key, short_key) =
        both (leb 1 (count (strip header))) (leb (count (strip header)) 128) a.key_length in
      let same : a.candidate.id ≡ candidate_id = (==_iff _ _).0 (
        find-passes (λ (p : Person). p.id == candidate_id) desk.persons
          (person-find desk.persons candidate_id a.found)) in
      record {
        some_key = ground arith;
        short_key = ground arith;
        some_reason = ground (arith, a.reason_length);
        candidate = a.candidate;
        known = find-Listed _ desk.persons (person-find desk.persons candidate_id a.found);
        same_person = same;
        canonical = a.canonical;
        founder = f;
        founds = listed;
        of_deal = of_deal;
        of_person = of_person ∙ same;
        deal = find-Listed _ desk.store.opportunities found;
        same_deal =
            (==_iff _ _).0
              (find-passes (λ (x : Opportunity). x.id == payload.opportunity_id) _ found);
      }

  decided-IsRecorded :
      (o : Opportunity) (memo : InvestmentMemo)
      → find (λ (x : Opportunity). x.id == payload.opportunity_id) desk.store.opportunities ≡ some o
      → IsRecorded o
          (response
            (decision_event strip now desk payload (strip header) o memo)
            payload.action
            (strip payload.reason))
          (decided strip now desk payload (strip header) o memo).1
  unfolding decided
  decided-IsRecorded o memo found = record {
    event = decision_event strip now desk payload (strip header) o memo;
    logged = refl;
    of_deal = refl;
    from_stage = refl;
    to_stage = leads payload.action;
    keyed = refl;
    reason = refl;
    action = refl;
    at_now = refl;
    row = decided_deal strip now desk payload (strip header) o;
    saved =
        find-save (λ (x : Opportunity). x.id) payload.opportunity_id desk.store.opportunities
          (decided_deal strip now desk payload (strip header) o) found
          (finalize_sla-id o now
            ∙ (==_iff _ _).0
                (find-passes (λ (x : Opportunity). x.id == payload.opportunity_id) _ found));
    at_stage = refl;
    answered_event = refl;
    answered_stage = refl;
    same_persons = refl;
    same_memos = refl;
  }

  decided-HowEnded :
      (r : Answer) → HowDecided strip now desk candidate_id payload header r → HowEnded r
  unfolding decided
  decided-HowEnded r (refusal status_code detail) = refusing status_code detail
  decided-HowEnded r (repeated o e a found c) =
      let (first, other_reason) = neither _ _ c in
      let (other_deal, other_action) = neither _ _ first in
      repeating o e _ (admitted-Admits o a) (find-Listed _ desk.store.events found)
        (has_key-some (strip header) e.idempotency_key (
          find-passes (λ (x : DecisionEvent). has_key (strip header) x.idempotency_key)
            desk.store.events found))
        ((==_iff _ _).0 (not-false _ other_deal))
        (is_action-text payload.action _ (not-false _ other_action))
        ((eq_iff _ _).0 (not-false _ other_reason)) (refl, refl)
  decided-HowEnded r (fresh o memo a missing v s l m) =
      recording o memo _ _ (decision_state_for_action payload.action) (admitted-Admits o a)
        (All-map (λ (e : DecisionEvent). has_key (strip header) e.idempotency_key ≡ false)
          (λ (e : DecisionEvent). e.idempotency_key ≢ some (strip header))
          (λ e h. lacks_key (strip header) e.idempotency_key h) desk.store.events
          (find-none _ desk.store.events missing))
        (leads payload.action) v (λ e. cc ((is_iff _ _).1 e, s))
        (latest_memo-Listed desk.memos o.id l) ((==_iff _ _).0 m.0) ((eq_iff _ _).0 m.1)
        (decided-IsRecorded o memo
          (linked-found desk.store payload.opportunity_id a.candidate.id a.is_linked).1)

  -- A call of the decision route ends in one of three ways. It is refused and changes nothing. Or an event
  -- with its key, for the same deal, action and reason, stands in the table; it is answered and nothing
  -- changes. Or no event has the key, the stage to which the decision leads is allowed and another one,
  -- and the deal has a memo that succeeded: then one event is added that carries the key, the deal, both stages, the
  -- action and the reason, and the deal's row stands at the new stage. In the last two the key has 1 to
  -- 128 characters, the candidate is a canonical person and a founder of the deal, and the reason has
  -- at least 3 characters.
  pub record_candidate_decision-HowEnded :
      HowEnded (record_candidate_decision strip now desk candidate_id payload header)
  record_candidate_decision-HowEnded =
      decided-HowEnded _
        (record_candidate_decision-HowDecided strip now desk candidate_id payload header)
