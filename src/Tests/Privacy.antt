-- ===== src/Tests/Privacy.antt =====
-- A founder whose data may go to an external model, and a licensed source.
use the_vc_brain.Prelude.{◌≡◌, true, ◌↔◌, ◌⊎◌, Option, List, String, refl, some, [], ◌∷◌, pos}
use the_vc_brain.Models.{Person}
use the_vc_brain.Privacy.{
  external_ai_use_decision, build_source_use_policy, source_allows_model_use,
}
use the_vc_brain.Privacy.Gates.{IsPermitted, Holds, external_ai_use_decision-allowed}
use the_vc_brain.Privacy.Sources.{source_allows_model_use-build_source_use_policy}
use the_vc_brain.Tests.Decision.{ada}

abbrev informed : Person
informed = record ada {
  consent_state = "opted_in";
  privacy_legal_basis = some "consent";
  privacy_notice_version = some "v1";
  privacy_purposes = ("memo", "granted") ∷ [];
  privacy_provider_policy_version = some "v1";
  privacy_retention_days = some (pos 30);
  privacy_residency = some "EU";
}

informed_reason : (external_ai_use_decision informed "memo").reason ≡ "policy_granted"
unfolding external_ai_use_decision
informed_reason = refl

pending_reason : (external_ai_use_decision ada "memo").reason ≡ "consent_state:pending"
unfolding external_ai_use_decision
pending_reason = refl

external_ai_use_decision-allowed_example :
    ((external_ai_use_decision informed "memo").allowed ≡ true) ↔ IsPermitted informed "memo"
external_ai_use_decision-allowed_example = external_ai_use_decision-allowed informed "memo"

source_allows_model_use-build_source_use_policy_example :
    (source_allows_model_use
        (some (build_source_use_policy "arxiv" (some (("model_use", some "allowed") ∷ []))))
      ≡ true)
    ↔ ((◌≡◌ {A = String} "arxiv" "inbound_deck")
        ⊎ (◌≡◌ {A = String} "arxiv" "outreach")
        ⊎ ((license : List (String × Option String)) × (some (("model_use", some "allowed") ∷ [])
              ≡ some license)
            × Holds "model_use" (some "allowed") license))
source_allows_model_use-build_source_use_policy_example =
    source_allows_model_use-build_source_use_policy "arxiv"
      (some (("model_use", some "allowed") ∷ []))
