-- ===== src/Outreach/Delivery.antt =====
-- The order of delivery events in backend/app/outreach_delivery.py.
use the_vc_brain.Prelude.{
  ℕ, ◌+◌, ◌≤◌, ◌<◌, ◌≡◌, refl, Bool, true, Option, none, some, String, str_eq, arith, any,
  Bool-cases, inl, inr, if◌then◌else◌,
}
use the_vc_brain.Outreach.{
  OutreachStatus, drafted, approved, send_requested, sent, delivered, bounced, replied, opted_out,
  failed, OutreachMessage, status_text, delivery_transitions, transition_provider_state, is_sent,
  or_old,
}

-- How far the delivery is.
abbrev pub progress : OutreachStatus → ℕ
progress drafted = 0
progress approved = 0
progress send_requested = 0
progress sent = 1
progress delivered = 2
progress replied = 3
progress bounced = 4
progress opted_out = 4
progress failed = 4

abbrev pub allowed : OutreachStatus → OutreachStatus → Bool
allowed old new =
    any (λ (s : OutreachStatus). str_eq (status_text s) (status_text new))
      (delivery_transitions old)

allowed-lt : (old new : OutreachStatus) → allowed old new ≡ true → progress old < progress new
unfolding delivery_transitions
allowed-lt send_requested sent h = omega arith
allowed-lt send_requested failed h = omega arith
allowed-lt sent delivered h = omega arith
allowed-lt sent bounced h = omega arith
allowed-lt sent replied h = omega arith
allowed-lt sent opted_out h = omega arith
allowed-lt delivered replied h = omega arith
allowed-lt delivered opted_out h = omega arith
allowed-lt replied opted_out h = omega arith
allowed-lt _ _ h = cc h

progress-le : (s : OutreachStatus) → progress s ≤ 4
progress-le drafted = omega arith
progress-le _ = omega arith

-- A message after some events of the provider, each of which the code accepted.
pub data Delivered (first : OutreachMessage) : OutreachMessage → ℕ → Type 0 where
  start : Delivered first first 0
  event :
      {old new : OutreachMessage} {events : ℕ} (now : ℕ) (status : OutreachStatus)
      (provider_id reason : Option String)
      → Delivered first old events
      → transition_provider_state now old status provider_id reason ≡ some new
      → Delivered first new (events + 1)

-- the message after an accepted event
abbrev pub after :
    ℕ → OutreachMessage → OutreachStatus → Option String → Option String → OutreachMessage
after now old status provider_id reason = record old {
  status = status;
  provider_message_id = or_old provider_id old.provider_message_id;
  failure_reason = reason;
  sent_at = if is_sent status then some now else old.sent_at;
}

pub accepted :
    (now : ℕ) (old new : OutreachMessage) (status : OutreachStatus)
    (provider_id reason : Option String)
    → transition_provider_state now old status provider_id reason ≡ some new
    → (allowed old.status status ≡ true) × (after now old status provider_id reason ≡ new)
unfolding transition_provider_state
accepted now old new status provider_id reason h = elim (Bool-cases (allowed old.status status)) [
  | inl e ↦ (e, made (rw e at h))
  | inr e ↦ absurd (refused (rw e at h))
]
  where
    refused : none ≡ some new → ⊥
    refused q = cc q

    made :
        some (after now old status provider_id reason) ≡ some new
        → after now old status provider_id reason ≡ new
    made q = cc q

-- Every event that the code accepts brings a message forward by a rank at least, from 0 before it is
-- sent over `sent` 1, `delivered` 2 and `replied` 3 to 4 at `bounced`, `opted_out` and `failed`: so a
-- message takes at most four such events, and one at rank 4 none.
delivery-le :
    {first last : OutreachMessage} {events : ℕ}
    → Delivered first last events
    → (progress first.status + events ≤ progress last.status) × (progress last.status ≤ 4)
delivery-le {first} start = (omega arith, progress-le first.status)
delivery-le {first}
      (event {old = old} {new = new} {events = n} now status provider_id reason before h) =
    let (ok, at) = accepted now old new status provider_id reason h in
    rw (← at)
      (omega (arith, (delivery-le before).0, allowed-lt old.status status ok), progress-le status)

before_sent : (old : OutreachStatus) → allowed old sent ≡ true → old ≡ send_requested
unfolding delivery_transitions
before_sent send_requested h = refl
before_sent _ h = cc h

-- Only a request to send lets a message become `sent`: an accepted event into `sent` comes from
-- `send_requested` and stamps the time, and one that names no provider's id keeps the id that is
-- known.
sent_once :
    (now : ℕ) (old new : OutreachMessage) (reason : Option String)
    → transition_provider_state now old sent none reason ≡ some new
    → (old.status ≡ send_requested)
      × (new.sent_at ≡ some now)
      × (new.provider_message_id ≡ old.provider_message_id)
sent_once now old new reason h =
    let (ok, at) = accepted now old new sent none reason h in
    rw (← at) (before_sent old.status ok, refl, refl)
