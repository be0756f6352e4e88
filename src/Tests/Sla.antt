-- ===== src/Tests/Sla.antt =====
-- A deal on which the theorems about backend/app/sla.py are applied.
use the_vc_brain.Prelude.{
  ℕ, ◌+◌, ◌*◌, ◌≡◌, ◌≤◌, ◌<◌, ◌↔◌, refl, inr, none, some, [], arith, leb, if◌then◌else◌,
}
use the_vc_brain.Time.{naive, aware, second}
use the_vc_brain.Time.Iso.{isoformat, fromisoformat}
use the_vc_brain.Lifecycle.{received}
use the_vc_brain.Models.{Opportunity, inbound_kind, pending, met, breached}
use the_vc_brain.Sla.{status_breached, at_risk, on_track, SlaInput, truthy, status_met, paused}
use the_vc_brain.Sla.Evaluate.{evaluate_sla, finalize_sla, input_of}
use the_vc_brain.Sla.Clock.{Running, Running-status, finalize_sla_lem, early_breach}

abbrev due : ℕ
due = 90000 * second

abbrev fresh_deal : Opportunity
fresh_deal = record {
  id = 1;
  organization_id = none;
  company_name = "Acme";
  source_kind = inbound_kind;
  lifecycle_state = received;
  thesis_version = none;
  received_at = none;
  decision_due_at = none;
  stage_deadlines = [];
  sla_owner = none;
  sla_pause_reason = none;
  sla_attainment = pending;
  sla_decided_at = none;
  created_at = 0;
  updated_at = none;
}

abbrev started : Opportunity
started = record fresh_deal {
  received_at = some (aware (3600 * second));
  decision_due_at = some (aware due);
}

abbrev waiting : SlaInput
waiting = input_of started (some pending)

waiting-Running : Running waiting (aware (3600 * second)) (aware due)
waiting-Running = (refl, refl, refl, inr refl)

Running-status_example :
    let status = (evaluate_sla waiting (aware (80000 * second))).status in
    ((status ≡ status_breached) ↔ (due < 80000 * second + second))
    × ((status ≡ at_risk)
        ↔ ((80000 * second + second ≤ due) × (due < 80000 * second + 7201 * second)))
    × ((status ≡ on_track) ↔ (80000 * second + 7201 * second ≤ due))
Running-status_example =
    Running-status waiting (aware (3600 * second)) (aware due) (aware (80000 * second))
      waiting-Running

finalize_sla_lem_example :
    let (o', report) = finalize_sla started (some (naive due)) 0 in
    ((o'.sla_attainment ≡ met) ↔ (due ≤ due))
    × ((o'.sla_attainment ≡ breached) ↔ (due < due))
    × (o'.sla_decided_at ≡ some (aware due))
    × (report.attainment ≡ o'.sla_attainment)
    × (report.status ≡ (
        if truthy started.sla_pause_reason
        then paused
        else if leb due due
        then status_met
        else status_breached))
finalize_sla_lem_example =
    finalize_sla_lem started (aware (3600 * second)) (aware due) (naive due) 0 refl refl

early_breach_example :
    ((evaluate_sla waiting (aware (89999 * second + 1))).status ≡ status_breached)
    × ((finalize_sla started (some (aware (89999 * second + 1))) 0).0.sla_attainment ≡ met)
early_breach_example =
    early_breach started (aware (3600 * second)) (aware due) (aware (89999 * second + 1)) 0
      waiting-Running (omega arith) (omega arith)

-- the 26th of November 2026 at noon and 7 microseconds, written and read back
noon_text : (isoformat 63931291200000007).day ≡ 26
unfolding isoformat
noon_text = refl

noon_back : fromisoformat (isoformat 63931291200000007) ≡ some (aware 63931291200000007)
unfolding isoformat fromisoformat
noon_back = refl
