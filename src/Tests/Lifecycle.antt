-- ===== src/Tests/Lifecycle.antt =====
-- Paths of backend/app/lifecycle.py on which its theorems are applied.
use the_vc_brain.Prelude.{◌≡◌, refl, true}
use the_vc_brain.Lifecycle.{
  received, triage, screening, diligence, memo_ready, approved, closed, is_valid_transition,
}
use the_vc_brain.Lifecycle.Paths.{◌⟶*◌, here, step, visits, approved_through_memo}

to_memo : received ⟶* memo_ready
unfolding is_valid_transition
to_memo =
    step {t = diligence}
      (step {t = screening} (step {t = triage} (step {t = received} here refl) refl) refl) refl

abbrev to_approved : received ⟶* approved
unfolding is_valid_transition
to_approved = step {t = memo_ready} to_memo refl

repeated_close : closed ⟶* closed
unfolding is_valid_transition
repeated_close = step {t = closed} here refl

approved_through_memo_example : visits memo_ready to_approved ≡ true
approved_through_memo_example = approved_through_memo to_approved refl
