-- ===== src/Lifecycle/Keys.antt =====
-- The stage names of backend/app/lifecycle.py determine the stage, so the source's comparison of
-- names is equality of stages.
use the_vc_brain.Prelude.{◌≡◌, refl, sym, ap, ◌∙◌, ◌↔◌, Option, some, String, true, find, eq_iff}
use the_vc_brain.Lifecycle.{
  Stage, discovered, interesting, investigating, contacted, received, triage, screening, diligence,
  memo_ready, hold, approved, closed, key, ◌is◌, stages,
}
use the_vc_brain.Prelude.{str_eq}

-- `value in LIFECYCLE_STAGES`, with the stage that the name is of
abbrev pub of_key : String → Option Stage
of_key name = find (λ (s : Stage). str_eq (key s) name) stages

-- Every stage is found again under its own name.
pub of_key-key : (s : Stage) → of_key (key s) ≡ some s
of_key-key discovered = refl
of_key-key interesting = refl
of_key-key investigating = refl
of_key-key contacted = refl
of_key-key received = refl
of_key-key triage = refl
of_key-key screening = refl
of_key-key diligence = refl
of_key-key memo_ready = refl
of_key-key hold = refl
of_key-key approved = refl
of_key-key closed = refl

some-injective : {a b : Stage} → some a ≡ some b → a ≡ b
some-injective h = cc

pub key-injective : (a b : Stage) → key a ≡ key b → a ≡ b
key-injective a b h = some-injective (sym (of_key-key a) ∙ ap of_key h ∙ of_key-key b)

pub is_iff : (a b : Stage) → ((a is b) ≡ true) ↔ (a ≡ b)
is_iff a b = (
  (λ h. key-injective a b ((eq_iff (key a) (key b)).0 h)),
  (λ h. (eq_iff (key a) (key b)).1 (ap key h)),
)
