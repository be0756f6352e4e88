-- ===== src/Lifecycle/Graph.antt =====
-- The deal diagram of backend/app/lifecycle.py as a relation, and what paths along it can do.
use the_vc_brain.Prelude.{◌≡◌, ◌≢◌, refl, true, arith}
use the_vc_brain.Lifecycle.{
  Stage, discovered, interesting, investigating, contacted, received, triage, screening, diligence,
  memo_ready, hold, approved, closed, is_valid_transition,
}

-- Forward moves of the diagram, apart from closing.
infix 40 ◌⟶◌
pub data ◌⟶◌ : Stage → Stage → Type 0 where
  signal : discovered ⟶ interesting
  investigate : interesting ⟶ investigating
  contact : investigating ⟶ contacted
  submit_direct : investigating ⟶ received
  submit : contacted ⟶ received
  process : received ⟶ triage
  score : triage ⟶ screening
  research : screening ⟶ diligence
  memo : diligence ⟶ memo_ready
  pause : memo_ready ⟶ hold
  approve : memo_ready ⟶ approved
  resume : hold ⟶ approved
  close : {s : Stage} → s ≢ approved → s ≢ closed → s ⟶ closed

pub ruleset edges = (
  signal, investigate, contact, submit_direct, submit, process, score, research, memo, pause,
  approve, resume, close,
)

pub edge-valid : {p q : Stage} → p ⟶ q → is_valid_transition p q ≡ true
unfolding is_valid_transition
edge-valid signal = refl
edge-valid investigate = refl
edge-valid contact = refl
edge-valid submit_direct = refl
edge-valid submit = refl
edge-valid process = refl
edge-valid score = refl
edge-valid research = refl
edge-valid memo = refl
edge-valid pause = refl
edge-valid approve = refl
edge-valid resume = refl
edge-valid (close {s = s} na nc) = closable s na nc
  where
    closable : (s : Stage) → s ≢ approved → s ≢ closed → is_valid_transition s closed ≡ true
    closable approved na nc = absurd (na refl)
    closable closed na nc = refl
    closable _ na nc = refl

pub valid-edge : (p q : Stage) → is_valid_transition p q ≡ true → p ≢ q → p ⟶ q
unfolding is_valid_transition
valid-edge discovered discovered h n = absurd (n refl)
valid-edge interesting discovered h n = cc
valid-edge investigating discovered h n = cc
valid-edge contacted discovered h n = cc
valid-edge received discovered h n = cc
valid-edge triage discovered h n = cc
valid-edge screening discovered h n = cc
valid-edge diligence discovered h n = cc
valid-edge memo_ready discovered h n = cc
valid-edge hold discovered h n = cc
valid-edge approved discovered h n = cc
valid-edge closed discovered h n = cc
valid-edge _ _ h n = grind (arith, edges)
