-- ===== src/Tests/Records.antt =====
-- Inputs on which the theorems about backend/app/job_ledger.py, outreach_delivery.py and outbox.py
-- are applied.
use the_vc_brain.Prelude.{
  ◌≡◌, ◌≤◌, ◌+◌, ◌==◌, length, refl, none, some, [], ◌∷◌, true, false, pos, All, arith,
}
use the_vc_brain.JobLedger.{JobRun, JobUpdate, update_job}
use the_vc_brain.JobLedger.Bounds.{IsBounded, update_job-IsBounded}
use the_vc_brain.Outbox.{OutboxEvent, object, dispatch_pending_outbox}
use the_vc_brain.Outbox.Dispatch.{dispatch_pending_outbox_lem}
use the_vc_brain.Outreach.{OutreachMessage, send_requested, sent, transition_provider_state}

abbrev pending : OutboxEvent
pending = record {
  id = 2;
  payload = record { job_name = some "process_inbound_pitch_job"; kwargs = object [] };
  status = "pending";
  attempts = 2;
  available_at = 0;
  dispatched_at = none;
  last_error = none;
  created_at = 0;
}

dispatch_pending_outbox_lem_example :
    let (run, found) =
      dispatch_pending_outbox (λ n. n == 0) (λ e. "down") 100 50 (λ id. false) (pending ∷ []) in
    (run.dispatched + run.failed ≡ found) × (length run.calls ≡ run.dispatched) × (found ≤ 200)
dispatch_pending_outbox_lem_example =
    dispatch_pending_outbox_lem (λ n. n == 0) (λ e. "down") 100 50 (λ id. false) (pending ∷ [])

abbrev queued : JobRun
queued = record {
  id = 3;
  job_type = "collect";
  status = "failed";
  phase = "queued";
  attempt = pos 1;
  progress = pos 0;
  last_error = some "timeout";
  result = none;
  cancel_requested = false;
  started_at = some 4;
  finished_at = none;
}

abbrev success : JobUpdate
success = record {
  status = "succeeded";
  phase = "done";
  attempt = none;
  progress = some (pos 7);
  last_error = none;
  clear_error = true;
  result = none;
}

queued-IsBounded : All IsBounded (queued ∷ [])
queued-IsBounded = ((omega arith, omega arith, omega arith), tt)

update_job-IsBounded_example : All IsBounded (update_job 9 (queued ∷ []) (some 3) success).0
update_job-IsBounded_example =
    update_job-IsBounded 9 (queued ∷ []) (some 3) success queued-IsBounded

abbrev requested : OutreachMessage
requested = record {
  id = 1;
  person_id = 7;
  recipient_email = some "a@x";
  status = send_requested;
  approved_by = some "vc";
  approved_at = some 2;
  requested_at = some 3;
  sent_at = none;
  provider_message_id = some "m1";
  failure_reason = none;
}

abbrev sent_message : OutreachMessage
sent_message = record requested { status = sent; sent_at = some 5 }

accepted : transition_provider_state 5 requested sent none none ≡ some sent_message
unfolding transition_provider_state
accepted = refl
