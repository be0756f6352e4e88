-- ===== src/Outreach.antt =====
-- backend/app/outreach_delivery.py: who may be contacted, and the delivery states of a message that
-- the provider confirms.
pub mod Delivery
pub mod Routes
pub mod Approval
use the_vc_brain.Prelude.{
  ℕ, Bool, true, false, Option, none, some, List, [], ◌∷◌, String, str_eq, any, if◌then◌else◌,
}
use Prim.Native.String.{◌++◌ as join}

-- OutreachStatus
pub data OutreachStatus : Type 0 where
  drafted approved send_requested sent delivered bounced replied opted_out failed : OutreachStatus

-- The text of the status.
abbrev pub status_text : OutreachStatus → String
status_text drafted = "drafted"
status_text approved = "approved"
status_text send_requested = "send_requested"
status_text sent = "sent"
status_text delivered = "delivered"
status_text bounced = "bounced"
status_text replied = "replied"
status_text opted_out = "opted_out"
status_text failed = "failed"

-- The columns of a message that the routes and the provider's events read and change.
pub record OutreachMessage : Type 0 where
  pub id : ℕ
  pub person_id : ℕ
  pub recipient_email : Option String
  pub status : OutreachStatus
  pub approved_by : Option String
  pub approved_at : Option ℕ
  pub requested_at : Option ℕ
  pub sent_at : Option ℕ
  pub provider_message_id : Option String
  pub failure_reason : Option String

-- _DELIVERY_TRANSITIONS.get(status, set())
unfoldable pub delivery_transitions : OutreachStatus → List OutreachStatus
delivery_transitions send_requested = sent ∷ failed ∷ []
delivery_transitions sent = delivered ∷ bounced ∷ replied ∷ opted_out ∷ []
delivery_transitions delivered = replied ∷ opted_out ∷ []
delivery_transitions replied = opted_out ∷ []
delivery_transitions _ = []

-- _SUPPRESSED_CONSENT_STATES
abbrev pub suppressed_consent_states : List String
suppressed_consent_states = "opted_out" ∷ "suppressed" ∷ "do_not_contact" ∷ []

-- `contact_block_reason`, from the email and the consent state of the person
abbrev pub blocked_by_consent : String → Option String
blocked_by_consent consent_state =
    if any (λ (s : String). str_eq s consent_state) suppressed_consent_states
    then some (join "suppressed_consent_state:" consent_state)
    else none

unfoldable pub contact_block_reason : Option String → String → Option String
contact_block_reason none consent_state = some "no_verified_recipient_email"
contact_block_reason (some email) consent_state =
    if str_eq email "" then some "no_verified_recipient_email" else blocked_by_consent consent_state

-- `provider_message_id or message.provider_message_id`
abbrev pub or_old : Option String → Option String → Option String
or_old none old = old
or_old (some text) old = if str_eq text "" then old else some text

abbrev pub is_sent : OutreachStatus → Bool
is_sent sent = true
is_sent _ = false

-- A refusal, the ValueError of the code, is `none`.
unfoldable pub transition_provider_state :
    ℕ → OutreachMessage → OutreachStatus → Option String → Option String → Option OutreachMessage
unfolding delivery_transitions
transition_provider_state now message new_status provider_message_id failure_reason =
    if any (λ (s : OutreachStatus). str_eq (status_text s) (status_text new_status))
      (delivery_transitions message.status)
    then some (record message {
      status = new_status;
      provider_message_id = or_old provider_message_id message.provider_message_id;
      failure_reason = failure_reason;
      sent_at = if is_sent new_status then some now else message.sent_at;
    })
    else none
