-- ===== src/Outreach/Routes.antt =====
-- The routes of backend/app/api/routes/candidates.py that approve a drafted message and request its
-- sending. The table of persons is read, the table of messages is passed and returned; the clock `now`
-- and Python's `str.strip` are arguments.
use Prim.Native.String.{◌++◌ as join}
use text.Mathlib.Text.{starts_with}
use the_vc_brain.Prelude.{
  ℕ, Bool, Option, none, some, List, String, str_eq, ◌==◌, not, if◌then◌else◌, find, update_where,
}
use the_vc_brain.Models.{Person}
use the_vc_brain.Identity.{person}
use the_vc_brain.Http.{Reply, responded, refused}
use the_vc_brain.Outreach.{
  OutreachStatus, drafted, approved, send_requested, opted_out, failed, status_text,
  OutreachMessage, contact_block_reason,
}

pub record OutreachActionResponse : Type 0 where
  pub outreach_id : ℕ
  pub status : OutreachStatus
  pub recipient_email : Option String
  pub detail : String

abbrev pub message_of : List OutreachMessage → ℕ → Option OutreachMessage
message_of messages id = find (λ (m : OutreachMessage). m.id == id) messages

-- the row after the assignments of a route
abbrev pub save_message : OutreachMessage → List OutreachMessage → List OutreachMessage
save_message m = update_where (λ (n : OutreachMessage). n.id == m.id) (λ (n : OutreachMessage). m)

abbrev pub is_status : OutreachStatus → OutreachMessage → Bool
is_status status m = str_eq (status_text m.status) (status_text status)

abbrev pub blocked_message : String → OutreachMessage → OutreachMessage
blocked_message reason m = record m {
  status = if starts_with reason "suppressed_" then opted_out else failed;
  failure_reason = some reason;
}

abbrev pub approved_message : ℕ → String → OutreachMessage → OutreachMessage
approved_message now approved_by m = record m {
  status = approved;
  approved_by = some approved_by;
  approved_at = some now;
}

abbrev pub requested_message : ℕ → OutreachMessage → OutreachMessage
requested_message now m = record m { status = send_requested; requested_at = some now }

abbrev pub action_response : OutreachMessage → String → OutreachActionResponse
action_response m detail = record {
  outreach_id = m.id;
  status = m.status;
  recipient_email = m.recipient_email;
  detail = detail;
}

abbrev pub Answer : Type 0
Answer = Reply OutreachActionResponse × List OutreachMessage

module _ (now : ℕ) (approved_by : String) (messages : List OutreachMessage) where
  -- `if block_reason:`
  abbrev approve_allowed : OutreachMessage → Answer
  approve_allowed m = (
    responded (
        action_response (approved_message now approved_by m)
          "Draft approved; sending still requires an explicit request."),
    save_message (approved_message now approved_by m) messages,
  )

  abbrev pub approve_unless : OutreachMessage → Option String → Answer
  approve_unless m none = approve_allowed m
  approve_unless m (some reason) =
      if str_eq reason ""
      then approve_allowed m
      else (refused 409 reason, save_message (blocked_message reason m) messages)

  unfoldable pub approve_for : OutreachMessage → Option Person → Answer
  approve_for m none = (refused 404 "Candidate not found", messages)
  approve_for m (some p) = approve_unless m (contact_block_reason p.email p.consent_state)

  unfoldable pub approve_found : List Person → ℕ → Option OutreachMessage → Answer
  unfolding approve_for
  approve_found persons candidate_id none = (refused 404 "Outreach draft not found", messages)
  approve_found persons candidate_id (some m) =
      if not (m.person_id == candidate_id)
      then (refused 404 "Outreach draft not found", messages)
      else if not (is_status drafted m)
      then (refused 409 (join "Outreach is already " (status_text m.status)), messages)
      else approve_for m (person persons candidate_id)

unfoldable pub approve_outreach :
    (String → String) → ℕ → List Person → List OutreachMessage → ℕ → ℕ → String → Answer
unfolding approve_found
approve_outreach strip now persons messages candidate_id outreach_id approved_by =
    approve_found now (strip approved_by) messages persons candidate_id
      (message_of messages outreach_id)

unfoldable pub request_found : ℕ → List OutreachMessage → ℕ → Option OutreachMessage → Answer
request_found now messages candidate_id none = (refused 404 "Outreach draft not found", messages)
request_found now messages candidate_id (some m) =
    if not (m.person_id == candidate_id)
    then (refused 404 "Outreach draft not found", messages)
    else if not (is_status approved m)
    then (refused 409 "Outreach must be approved before sending", messages)
    else (
      responded (
          action_response (requested_message now m)
            "Send requested; status changes to sent only after provider confirmation."),
      save_message (requested_message now m) messages,
    )

unfoldable pub request_outreach_send : ℕ → List OutreachMessage → ℕ → ℕ → Answer
unfolding request_found
request_outreach_send now messages candidate_id outreach_id =
    request_found now messages candidate_id (message_of messages outreach_id)
