-- ===== src/Tests/Pipeline.antt =====
-- A deal under investigation on which the theorems about backend/app/agents/lifecycle_job.py are
-- applied.
use Prim.Native.String.{◌++◌ as join}
use the_vc_brain.Prelude.{
  ℕ, ℤ, String, ◌⊎◌, ◌&&◌, ◌≡◌, ◌≢◌, ◌==◌, Bool-cases, inl, inr, subst, refl, true, false, some, [],
  ◌∷◌, str_eq, arith, pos, ◌≤ℤ◌,
}
use the_vc_brain.Lifecycle.{investigating}
use the_vc_brain.Models.{Opportunity}
use the_vc_brain.Redis.{agent_budget}
use the_vc_brain.Redis.Memory.{memory_redis}
use the_vc_brain.Queue.{get_budget_remaining, reset_budget}
use the_vc_brain.Opportunity.{ok}
use the_vc_brain.Pipeline.{
  json_number, malformed, finite, component, ScoreSnapshot, Evidence, Settings,
  has_opportunity_axes, latest_score, has_recent_pipeline_event,
}
use the_vc_brain.Pipeline.Steps.{Formats, Pipeline, advance_pipeline_job}
use the_vc_brain.Pipeline.Spending.{IsReadable}
use the_vc_brain.Pipeline.Run.{advance_pipeline_job-Ends}
use the_vc_brain.Pipeline.Trail.{IsAutomatic}
use the_vc_brain.Pipeline.Decisions.{advance_pipeline_job-IsAutomatic}
use the_vc_brain.Tests.Queue.{at_start}
use the_vc_brain.Tests.Opportunity.{deal, store}

-- LIKE of a pattern "%reason%" and that reason
abbrev formats : Formats
formats = record {
  like = λ pattern reason. str_eq pattern (join "%" (join reason "%"));
  retry_reason = λ n. "Pipeline retry";
  parse_float = λ text. malformed;
  times_100 = λ v. v;
  signal_reason = λ v w. "Signal composite";
  contact_reason = λ v w. "Agent composite";
}

abbrev settings : Settings
settings = record {
  signal_threshold = pos 5;
  contact_threshold = pos 6;
  pipeline_stuck_after_minutes = 30;
  pipeline_batch_size = 10;
}

abbrev axes_score : ScoreSnapshot
axes_score = record {
  subject_id = 1;
  subject_type = "opportunity";
  rubric_version = "opportunity-axes-v1";
  components = [];
  created_at = 1;
}

abbrev founder : ScoreSnapshot
founder = record {
  subject_id = 7;
  subject_type = "person";
  rubric_version = "founder-agent-v1";
  components = ("founder", json_number (pos 8)) ∷ [];
  created_at = 1;
}

abbrev evidence : Evidence
evidence = record { scores = axes_score ∷ founder ∷ []; claims = []; memos = [] }

abbrev under_investigation : Opportunity
under_investigation = record deal { lifecycle_state = investigating }

abbrev funded : memory_redis.State
funded = reset_budget memory_redis at_start agent_budget 20

abbrev session : Pipeline memory_redis
session = record {
  store = record store {
    opportunities = under_investigation ∷ [];
    founders = record { opportunity_id = 1; person_id = 7; role = "founder" } ∷ [];
  };
  redis = funded;
  transitions = 0;
  stuck_closed = 0;
  budget_exhausted = 0;
  needs_attention = 0;
}

twenty : get_budget_remaining memory_redis funded agent_budget ≡ pos 20
unfolding get_budget_remaining reset_budget
twenty = rw (memory_redis.get-set_self at_start agent_budget (pos 20))

has_axes : has_opportunity_axes evidence 1 ≡ true
unfolding has_opportunity_axes
has_axes = refl

has_score : latest_score evidence 7 "founder-agent-v1" ≡ some founder
unfolding latest_score
has_score = refl

nothing_recent :
    has_recent_pipeline_event formats.like session.store 1 "Founder Score queued" 0 ≡ false
unfolding has_recent_pipeline_event
nothing_recent = refl

one_of_two :
    (person_id : ℕ) (rubric : String) (score : ScoreSnapshot)
    → latest_score evidence person_id rubric ≡ some score
    → (axes_score ≡ score) ⊎ (founder ≡ score)
unfolding latest_score
one_of_two person_id rubric score e =
    elim (Bool-cases (1 == person_id && str_eq "opportunity-axes-v1" rubric)) [
      | inl a ↦ elim (Bool-cases (7 == person_id && str_eq "founder-agent-v1" rubric)) [
        | inl b ↦ inl (cc (rw (a, b) at e))
        | inr b ↦ inl (cc (rw (a, b) at e))
      ]
      | inr a ↦ elim (Bool-cases (7 == person_id && str_eq "founder-agent-v1" rubric)) [
        | inl b ↦ inr (cc (rw (a, b) at e))
        | inr b ↦ cc (rw (a, b) at e)
      ]
    ]

finite-ne : (value : ℤ) → finite value ≢ malformed
finite-ne value e = cc

abbrev IsFine : String → ScoreSnapshot → Type 0
IsFine name score = component formats.parse_float name score.components ≢ malformed

both-IsFine :
    (name : String) (score : ScoreSnapshot)
    → (axes_score ≡ score) ⊎ (founder ≡ score)
    → IsFine name founder
    → IsFine name score
both-IsFine name score (inl e) h = subst (λ x. IsFine name x) e (finite-ne (pos 0))
both-IsFine name score (inr e) h = subst (λ x. IsFine name x) e h

readable : IsReadable memory_redis formats settings evidence 5
readable = record {
  signal = λ person_id score e.
      both-IsFine "composite" score (one_of_two person_id "signal-v1" score e) (finite-ne (pos 0));
  founder = λ person_id score e.
      both-IsFine "founder" score (one_of_two person_id "founder-agent-v1" score e)
        (finite-ne (pos 8));
}

advance_pipeline_job-Ends_example :
    (q : Pipeline memory_redis) × (advance_pipeline_job memory_redis formats settings evidence 5
        (λ id. false)
        session.store
        funded
      ≡ ok q)
    × (pos 0 ≤ℤ get_budget_remaining memory_redis q.redis agent_budget)
    × (get_budget_remaining memory_redis q.redis agent_budget
        ≤ℤ get_budget_remaining memory_redis funded agent_budget)
advance_pipeline_job-Ends_example =
    advance_pipeline_job-Ends memory_redis formats settings evidence 5 readable (λ id. false)
      session.store funded (rw twenty (omega arith))

abbrev ended : Pipeline memory_redis
ended =
    (advance_pipeline_job-Ends memory_redis formats settings evidence 5 readable (λ id. false)
      session.store funded (rw twenty (omega arith))).0

ended_well :
    advance_pipeline_job memory_redis formats settings evidence 5 (λ id. false) session.store funded
    ≡ ok ended
ended_well =
    (advance_pipeline_job-Ends memory_redis formats settings evidence 5 readable (λ id. false)
      session.store funded (rw twenty (omega arith))).1

advance_pipeline_job-IsAutomatic_example : IsAutomatic session.store ended.store
advance_pipeline_job-IsAutomatic_example =
    advance_pipeline_job-IsAutomatic memory_redis formats settings evidence 5 (λ id. false)
      session.store funded ended_well
