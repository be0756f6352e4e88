-- ===== src/Pipeline/Trail.antt =====
-- What a branch of the loop of backend/app/agents/lifecycle_job.py writes to the deals and their
-- events.
use the_vc_brain.Prelude.{
  ℕ, ◌≡◌, refl, Bool, true, false, List, [], ◌∷◌, ◌++◌, String, All, All-append, Bool-cases, inl,
  inr, ◌∙◌, ap,
}
use the_vc_brain.Lifecycle.{Stage, contacted, hold, approved, ◌is◌}
use the_vc_brain.Models.{Opportunity, DecisionEvent, Store, Metadata}
use the_vc_brain.Opportunity.{new_event, add_event, transitioned}
use the_vc_brain.Opportunity.Audit.{transitioned_lem}

-- A stage that only a human, or the founder, brings a deal to.
abbrev pub is_human : Stage → Bool
is_human contacted = true
is_human hold = true
is_human approved = true
is_human _ = false

abbrev pub note : ℕ → Store → Opportunity → String → Metadata → Store
note now s opp reason metadata =
    add_event s
      (new_event now s opp opp.lifecycle_state opp.lifecycle_state "pipeline:auto" reason metadata)

-- What one branch does to the store.
pub data StoreStep (now : ℕ) (opp : Opportunity) (s : Store) : Store → Type 0 where
  kept : StoreStep now opp s s
  moves :
      (new : Stage) (reason : String)
      → is_human new ≡ false
      → StoreStep now opp s (transitioned now s opp new "pipeline:auto" reason).0
  notes :
      (reason : String) (metadata : Metadata)
      → is_human opp.lifecycle_state ≡ false
      → StoreStep now opp s (note now s opp reason metadata)
  stamps :
      (reason : String) (metadata : Metadata) (rows : List Opportunity)
      → is_human opp.lifecycle_state ≡ false
      → StoreStep now opp s (record (note now s opp reason metadata) { opportunities = rows })

-- The events that were appended reach no stage of a human decision.
abbrev pub IsAutomatic : Store → Store → Type 0
IsAutomatic s t =
    (added : List DecisionEvent) × (t.events ≡ s.events ++ added)
    × All (λ (e : DecisionEvent). is_human e.new_state ≡ false) added

append_nil {ℓ} : {A : Type ℓ} (xs : List A) → xs ≡ xs ++ []
append_nil [] = refl
append_nil (x ∷ xs) = ap (λ r. x ∷ r) (append_nil xs)

append_assoc {ℓ} : {A : Type ℓ} (xs ys zs : List A) → (xs ++ ys) ++ zs ≡ xs ++ (ys ++ zs)
append_assoc [] ys zs = refl
append_assoc (x ∷ xs) ys zs = ap (λ r. x ∷ r) (append_assoc xs ys zs)

pub IsAutomatic-refl : (s : Store) → IsAutomatic s s
IsAutomatic-refl s = ([], append_nil s.events, tt)

pub IsAutomatic-trans : (s t u : Store) → IsAutomatic s t → IsAutomatic t u → IsAutomatic s u
IsAutomatic-trans s t u (a, e, h) (b, f, k) =
    (a ++ b, f ∙ ap (λ x. x ++ b) e ∙ append_assoc s.events a b, All-append _ a b h k)

moves-IsAutomatic :
    (now : ℕ) (opp : Opportunity) (s : Store) (new : Stage) (reason : String)
    → is_human new ≡ false
    → IsAutomatic s (transitioned now s opp new "pipeline:auto" reason).0
moves-IsAutomatic now opp s new reason h =
    let t = transitioned_lem now s opp new "pipeline:auto" reason in
    elim (Bool-cases (opp.lifecycle_state is new)) [
      | inl e ↦ ([], rw (t.logged, e) (append_nil s.events), tt)
      | inr e ↦ (
        (transitioned now s opp new "pipeline:auto" reason).2 ∷ [],
        rw (t.logged, e),
        (rw t.to_new h, tt),
      )
    ]

pub StoreStep-IsAutomatic :
    (now : ℕ) (opp : Opportunity) (s t : Store) → StoreStep now opp s t → IsAutomatic s t
StoreStep-IsAutomatic now opp s _ kept = IsAutomatic-refl s
StoreStep-IsAutomatic now opp s _ (moves new reason h) = moves-IsAutomatic now opp s new reason h
StoreStep-IsAutomatic now opp s _ (notes reason metadata h) = (_, refl, (h, tt))
StoreStep-IsAutomatic now opp s _ (stamps reason metadata rows h) = (_, refl, (h, tt))
