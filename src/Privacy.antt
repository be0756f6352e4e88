-- ===== src/Privacy.antt =====
-- backend/app/privacy.py: whether data of a person may go to an external language model, and
-- backend/app/source_policy.py: what a source may be used for. The redaction of identifiers is two
-- regular expressions of Python and not modelled.
pub mod Gates
pub mod Sources
use Prim.Native.String.{◌++◌ as join}
use the_vc_brain.Prelude.{
  Bool, true, false, Option, none, some, List, [], ◌∷◌, String, str_eq, ◌||◌, not, if◌then◌else◌,
  any, ℤ, pos, ltb_ℤ,
}
use the_vc_brain.Models.{Person}
use the_vc_brain.Sla.{truthy}

-- _SUPPRESSED_CONSENT_STATES
abbrev pub suppressed_states : List String
suppressed_states = "pending" ∷ "unknown" ∷ "opted_out" ∷ "suppressed" ∷ "do_not_contact" ∷ []

-- `contract_version` is the constant of the module.
pub record ExternalAiUseDecision : Type 0 where
  pub allowed : Bool
  pub purpose : String
  pub reason : String

abbrev pub denied : String → String → ExternalAiUseDecision
denied purpose reason = record { allowed = false; purpose = purpose; reason = reason }

-- `purposes.get(purpose)`
abbrev pub purpose_value : String → List (String × String) → Option String
purpose_value name [] = none
purpose_value name ((field, value) ∷ rest) =
    if str_eq field name then some value else purpose_value name rest

abbrev pub is_text : String → Option String → Bool
is_text wanted none = false
is_text wanted (some value) = str_eq value wanted

-- `retention_days > 0`
abbrev pub is_positive : Option ℤ → Bool
is_positive none = false
is_positive (some days) = ltb_ℤ (pos 0) days

-- `consent_state or "pending"`
abbrev pub consent_of : Person → String
consent_of p = if str_eq p.consent_state "" then "pending" else p.consent_state

unfoldable pub external_ai_use_decision : Person → String → ExternalAiUseDecision
external_ai_use_decision p purpose =
    if any (str_eq (consent_of p)) suppressed_states
    then denied purpose (join "consent_state:" (consent_of p))
    else if not (truthy p.privacy_legal_basis)
    then denied purpose "privacy_legal_basis_missing"
    else if not (truthy p.privacy_notice_version)
    then denied purpose "privacy_notice_version_missing"
    else if not (is_text "granted" (purpose_value purpose p.privacy_purposes))
    then denied purpose (join "purpose_not_granted:" purpose)
    else if not (truthy p.privacy_provider_policy_version)
    then denied purpose "provider_policy_version_missing"
    else if not (is_positive p.privacy_retention_days)
    then denied purpose "retention_policy_missing"
    else if not (truthy p.privacy_residency)
    then denied purpose "residency_policy_missing"
    else record { allowed = true; purpose = purpose; reason = "policy_granted" }

-- The policy of a snapshot; its version is the constant of the module. `license_metadata` is the
-- JSON object of the caller, in which a value that is not a text is `none`.
pub record SourceUsePolicy : Type 0 where
  pub source_type : String
  pub status : String
  pub collection : String
  pub retention : String
  pub display : String
  pub model_use : String
  pub contact : String
  pub export : String
  pub license_metadata : Option (List (String × Option String))

abbrev pub is_own : String → Bool
is_own source_type = str_eq source_type "inbound_deck" || str_eq source_type "outreach"

abbrev pub default_policy : String → SourceUsePolicy
default_policy source_type = record {
  source_type = source_type;
  status = "unknown";
  collection = "review";
  retention = "review";
  display = "denied";
  model_use = "denied";
  contact = "denied";
  export = "denied";
  license_metadata = none;
}

abbrev pub own_policy : String → SourceUsePolicy → SourceUsePolicy
own_policy source_type policy = record policy {
  status = "allowed";
  collection = "allowed";
  retention = "allowed";
  display = "allowed";
  model_use = "allowed";
  contact = if str_eq source_type "outreach" then "allowed" else "denied";
}

abbrev pub licensed_policy : SourceUsePolicy → SourceUsePolicy
licensed_policy policy = record policy {
  status = "allowed";
  collection = "allowed";
  retention = "allowed";
  model_use = "allowed";
}

-- `license_metadata.get("model_use") == "allowed"`
abbrev pub license_allows : List (String × Option String) → Bool
license_allows [] = false
license_allows ((field, value) ∷ rest) =
    if str_eq field "model_use" then is_text "allowed" value else license_allows rest

-- an empty or absent object changes nothing
abbrev pub with_license : Option (List (String × Option String)) → SourceUsePolicy → SourceUsePolicy
with_license none policy = policy
with_license (some []) policy = policy
with_license (some (first ∷ rest)) policy =
    let license = first ∷ rest in
    record (if license_allows license then licensed_policy policy else policy) {
      license_metadata = some license;
    }

unfoldable pub build_source_use_policy :
    String → Option (List (String × Option String)) → SourceUsePolicy
build_source_use_policy source_type license_metadata = with_license license_metadata (
    if is_own source_type
    then own_policy source_type (default_policy source_type)
    else default_policy source_type)

-- A snapshot without a policy has `none`.
abbrev pub source_allows_model_use : Option SourceUsePolicy → Bool
source_allows_model_use none = false
source_allows_model_use (some policy) = str_eq policy.model_use "allowed"
