-- ===== src/Outreach/Approval.antt =====
-- No message is sent that was not approved and requested: the routes of
-- backend/app/api/routes/candidates.py with the provider's events of backend/app/outreach_delivery.py.
use text.Mathlib.Text.{starts_with}
use the_vc_brain.Prelude.{
  ℕ, ◌≡◌, inl, inr, refl, true, Option, none, some, List, [], ◌∷◌, String, str_eq, ◌==◌, is_some,
  All, All-update_where, All-find, ==_refl, Bool-cases, subst,
}
use the_vc_brain.Models.{Person}
use the_vc_brain.Identity.{person}
use the_vc_brain.Http.{responded}
use the_vc_brain.Outreach.{
  OutreachStatus, drafted, approved, send_requested, sent, delivered, bounced, replied, opted_out,
  failed, OutreachMessage, status_text, delivery_transitions, contact_block_reason,
  transition_provider_state,
}
use the_vc_brain.Outreach.Delivery.{allowed, accepted}
use the_vc_brain.Outreach.Routes.{
  message_of, save_message, is_status, blocked_message, approved_message, requested_message,
  action_response, approve_unless, approve_for, approve_found, approve_outreach, request_found,
  request_outreach_send,
}

-- what a status demands of the two stamps
abbrev pub Consented : OutreachStatus → Option ℕ → Option ℕ → Type 0
Consented drafted approval request = Unit
Consented opted_out approval request = Unit
Consented failed approval request = Unit
Consented approved approval request = is_some approval ≡ true
Consented _ approval request = (is_some approval ≡ true) × (is_some request ≡ true)

abbrev pub IsConsented : OutreachMessage → Type 0
IsConsented m = Consented m.status m.approved_at m.requested_at

is_status_iff :
    (status : OutreachStatus) (m : OutreachMessage) → is_status status m ≡ true → m.status ≡ status
is_status_iff status m e = same m.status status e
  where
    same : (s t : OutreachStatus) → str_eq (status_text s) (status_text t) ≡ true → s ≡ t
    same drafted drafted e = refl
    same approved approved e = refl
    same send_requested send_requested e = refl
    same sent sent e = refl
    same delivered delivered e = refl
    same bounced bounced e = refl
    same replied replied e = refl
    same opted_out opted_out e = refl
    same failed failed e = refl
    same _ _ e = cc e

save-Consented :
    (m : OutreachMessage) (messages : List OutreachMessage)
    → IsConsented m
    → All IsConsented messages
    → All IsConsented (save_message m messages)
save-Consented m messages c h =
    All-update_where IsConsented IsConsented (λ (n : OutreachMessage). n.id == m.id)
      (λ (n : OutreachMessage). m) (λ n e k. c) (λ n e k. k) messages h

blocked-Consented : (reason : String) (m : OutreachMessage) → IsConsented (blocked_message reason m)
blocked-Consented reason m = elim (Bool-cases (starts_with reason "suppressed_")) [
  | inl e ↦ rw e tt
  | inr e ↦ rw e tt
]

module _ (now : ℕ) (messages : List OutreachMessage) (h : All IsConsented messages) where
  approve_unless-Consented :
      (approved_by : String) (m : OutreachMessage) (blocked : Option String)
      → All IsConsented (approve_unless now approved_by messages m blocked).1
  approve_unless-Consented approved_by m none =
      save-Consented (approved_message now approved_by m) messages refl h
  approve_unless-Consented approved_by m (some reason) = elim (Bool-cases (str_eq reason "")) [
    | inl e ↦ rw e (save-Consented (approved_message now approved_by m) messages refl h)
    | inr e ↦ rw e (save-Consented _ messages (blocked-Consented reason m) h)
  ]

  approve_for-Consented :
      (approved_by : String) (m : OutreachMessage) (found : Option Person)
      → All IsConsented (approve_for now approved_by messages m found).1
  unfolding approve_for
  approve_for-Consented approved_by m none = h
  approve_for-Consented approved_by m (some p) =
      approve_unless-Consented approved_by m (contact_block_reason p.email p.consent_state)

  approve_found-Consented :
      (approved_by : String) (persons : List Person) (candidate_id : ℕ)
      (found : Option OutreachMessage)
      → All IsConsented (approve_found now approved_by messages persons candidate_id found).1
  unfolding approve_found
  approve_found-Consented approved_by persons candidate_id none = h
  approve_found-Consented approved_by persons candidate_id (some m) =
      elim (Bool-cases (m.person_id == candidate_id)) [
        | inr e ↦ rw e h
        | inl e ↦ elim (Bool-cases (is_status drafted m)) [
          | inr d ↦ rw (e, d) h
          | inl d ↦ rw (e, d) (approve_for-Consented approved_by m (person persons candidate_id))
        ]
      ]

  request_found-Consented :
      (candidate_id : ℕ) (found : Option OutreachMessage)
      → ((m : OutreachMessage) → found ≡ some m → IsConsented m)
      → All IsConsented (request_found now messages candidate_id found).1
  unfolding request_found
  request_found-Consented candidate_id none k = h
  request_found-Consented candidate_id (some m) k =
      elim (Bool-cases (m.person_id == candidate_id)) [
        | inr e ↦ rw e h
        | inl e ↦ elim (Bool-cases (is_status approved m)) [
          | inr d ↦ rw (e, d) h
          | inl d ↦
              let stamped : is_some m.approved_at ≡ true =
                subst (λ s. Consented s m.approved_at m.requested_at) (is_status_iff approved m d)
                  (k m refl) in
              rw (e, d) (save-Consented (requested_message now m) messages (stamped, refl) h)
        ]
      ]

-- A change of the table of messages: by the two routes, or by an event of the provider.
pub data Step (persons : List Person) (messages : List OutreachMessage)
    : List OutreachMessage → Type 0 where
  approves :
      (strip : String → String) (now candidate_id outreach_id : ℕ) (approved_by : String)
      → Step persons messages
          (approve_outreach strip now persons messages candidate_id outreach_id approved_by).1
  requests :
      (now candidate_id outreach_id : ℕ)
      → Step persons messages (request_outreach_send now messages candidate_id outreach_id).1
  confirms :
      (now outreach_id : ℕ) (m next : OutreachMessage) (status : OutreachStatus)
      (provider_message_id failure_reason : Option String)
      → message_of messages outreach_id ≡ some m
      → transition_provider_state now m status provider_message_id failure_reason ≡ some next
      → Step persons messages (save_message next messages)

pub data Reachable (persons : List Person) (first : List OutreachMessage)
    : List OutreachMessage → Type 0 where
  start : Reachable persons first first
  onward :
      {before after : List OutreachMessage}
      → Reachable persons first before
      → Step persons before after
      → Reachable persons first after

found-Consented :
    (messages : List OutreachMessage) (id : ℕ) (m : OutreachMessage)
    → All IsConsented messages
    → message_of messages id ≡ some m
    → IsConsented m
found-Consented messages id m h e =
    (All-find IsConsented (λ (n : OutreachMessage). n.id == id) messages h e).0

allowed-Consented :
    (old new : OutreachStatus) (approval request : Option ℕ)
    → allowed old new ≡ true
    → Consented old approval request
    → Consented new approval request
unfolding delivery_transitions
allowed-Consented send_requested sent a r e h = h
allowed-Consented send_requested failed a r e h = tt
allowed-Consented sent delivered a r e h = h
allowed-Consented sent bounced a r e h = h
allowed-Consented sent replied a r e h = h
allowed-Consented sent opted_out a r e h = tt
allowed-Consented delivered replied a r e h = h
allowed-Consented delivered opted_out a r e h = tt
allowed-Consented replied opted_out a r e h = tt
allowed-Consented _ _ a r e h = cc e

transition-Consented :
    (now : ℕ) (m next : OutreachMessage) (status : OutreachStatus)
    (provider_message_id failure_reason : Option String)
    → IsConsented m
    → transition_provider_state now m status provider_message_id failure_reason ≡ some next
    → IsConsented next
transition-Consented now m next status provider_message_id failure_reason c e =
    let (ok, at) = accepted now m next status provider_message_id failure_reason e in
    subst IsConsented at (allowed-Consented m.status status m.approved_at m.requested_at ok c)

Step-Consented :
    (persons : List Person) (before after : List OutreachMessage)
    → Step persons before after
    → All IsConsented before
    → All IsConsented after
unfolding approve_outreach request_outreach_send
Step-Consented persons before after (approves strip now candidate_id outreach_id approved_by) h =
    approve_found-Consented now before h (strip approved_by) persons candidate_id _
Step-Consented persons before after (requests now candidate_id outreach_id) h =
    request_found-Consented now before h candidate_id _
      (λ m e. found-Consented before outreach_id m h e)
Step-Consented persons before after (confirms now id m next status provider reason found e) h =
    save-Consented next before
      (transition-Consented now m next status provider reason (found-Consented before id m h found)
        e)
      h

-- However the approval route, the send route and accepted events of the provider follow each other, when
-- they start from messages with their stamps, each message keeps them: one that is approved carries the
-- moment of an approval, and one that is requested, sent, delivered, bounced or replied carries those
-- of an approval and of a request.
pub Reachable-Consented :
    {persons : List Person} {first last : List OutreachMessage}
    → Reachable persons first last
    → All IsConsented first
    → All IsConsented last
Reachable-Consented start h = h
Reachable-Consented {persons} (onward {before} {after} earlier step) h =
    Step-Consented persons before after step (Reachable-Consented earlier h)

-- A message, alone in its table, that is drafted for a person who may be contacted can be sent: the approval route answers,
-- then the send route answers, and then the provider's confirmation is accepted and leaves the
-- message sent; each of the three stamps its moment.
pub drafted_to_sent :
    (strip : String → String) (approval request confirmation : ℕ) (persons : List Person)
    (p : Person) (m : OutreachMessage) (approved_by : String)
    → person persons m.person_id ≡ some p
    → contact_block_reason p.email p.consent_state ≡ none
    → m.status ≡ drafted
    → (let after_approval = approved_message approval (strip approved_by) m in
        let after_request = requested_message request after_approval in
        (approve_outreach strip approval persons (m ∷ []) m.person_id m.id approved_by ≡ (
          responded (
              action_response after_approval
                "Draft approved; sending still requires an explicit request."),
          after_approval ∷ [],
        ))
        × (request_outreach_send request (after_approval ∷ []) m.person_id m.id ≡ (
          responded (
              action_response after_request
                "Send requested; status changes to sent only after provider confirmation."),
          after_request ∷ [],
        ))
        × ((sent_message : OutreachMessage) × (transition_provider_state confirmation after_request
                sent none none
              ≡ some sent_message)
            × (sent_message.status ≡ sent)
            × (sent_message.approved_at ≡ some approval)
            × (sent_message.requested_at ≡ some request)
            × (sent_message.sent_at ≡ some confirmation)))
unfolding approve_outreach request_outreach_send transition_provider_state
drafted_to_sent strip approval request confirmation persons p m approved_by found free d = (
  rw (==_refl m.id, ==_refl m.person_id, d, found, approve_for, free, approve_unless, ==_refl m.id),
  rw (==_refl m.id, ==_refl m.person_id, ==_refl m.id),
  (_, refl, refl, refl, refl, refl),
)
