-- ===== src/Opportunity/Replay.antt =====
-- The decision events of backend/app/opportunity_service.py replay the lifecycle of their deal.
use the_vc_brain.Prelude.{
  ℕ, ◌≡◌, refl, ◌⊎◌, inl, inr, true, false, Option, none, some, List, [], ◌∷◌, ◌++◌, ◌==◌,
  if◌then◌else◌, All, arith, Bool-cases, sym, ◌∙◌, ap, subst, ==_iff,
}
use the_vc_brain.Lifecycle.{Stage, is_valid_transition, ◌is◌}
use the_vc_brain.Lifecycle.Keys.{is_iff}
use the_vc_brain.Models.{Opportunity, DecisionEvent, Store}
use the_vc_brain.Opportunity.{save}

-- One event of the deal moves its stage, if it starts there and the move is allowed.
abbrev pub advance : ℕ → Option Stage → DecisionEvent → Option Stage
advance id none e = none
advance id (some s) e =
    if e.opportunity_id == id
    then (if e.prior_state is s
        then (if is_valid_transition s e.new_state then some e.new_state else none)
        else none)
    else some s

-- All events in order; those of other deals are passed over.
abbrev pub replay : ℕ → Option Stage → List DecisionEvent → Option Stage
replay id s [] = s
replay id s (e ∷ es) = replay id (advance id s e) es

replay-append :
    (id : ℕ) (s : Option Stage) (es fs : List DecisionEvent)
    → replay id s (es ++ fs) ≡ replay id (replay id s es) fs
replay-append id s [] fs = refl
replay-append id s (e ∷ es) fs = replay-append id (advance id s e) es fs

-- From some first stage the events lead to the deal's stage.
abbrev pub IsReplayed : List DecisionEvent → Opportunity → Type 0
IsReplayed events o = (first : Stage) × (replay o.id (some first) events ≡ some o.lifecycle_state)

abbrev pub IsAudited : Store → Type 0
IsAudited store = All (IsReplayed store.events) store.opportunities

-- The object is the session's copy of its row.
abbrev pub IsCurrent : Store → Opportunity → Type 0
IsCurrent store o =
    All (λ (r : Opportunity). r.id ≡ o.id → r.lifecycle_state ≡ o.lifecycle_state)
      store.opportunities

advance_self :
    (e : DecisionEvent) (id : ℕ) (s : Stage)
    → e.opportunity_id ≡ id
    → e.prior_state ≡ s
    → is_valid_transition s e.new_state ≡ true
    → advance id (some s) e ≡ some e.new_state
advance_self e id s ei es v =
    rw ((==_iff e.opportunity_id id).1 ei, (is_iff e.prior_state s).1 es, v)

advance_other :
    (e : DecisionEvent) (id : ℕ) (s : Stage)
    → (e.opportunity_id == id) ≡ false
    → advance id (some s) e ≡ some s
advance_other e id s n = rw n

replay_own :
    (events : List DecisionEvent) (e : DecisionEvent) (id : ℕ) (first s : Stage)
    → replay id (some first) events ≡ some s
    → e.opportunity_id ≡ id
    → e.prior_state ≡ s
    → is_valid_transition s e.new_state ≡ true
    → replay id (some first) (events ++ e ∷ []) ≡ some e.new_state
replay_own events e id first s h ei es v =
    replay-append id (some first) events (e ∷ [])
    ∙ ap (λ x. advance id x e) h
    ∙ advance_self e id s ei es v

replay_other :
    (events : List DecisionEvent) (e : DecisionEvent) (id : ℕ) (first s : Stage)
    → replay id (some first) events ≡ some s
    → (e.opportunity_id == id) ≡ false
    → replay id (some first) (events ++ e ∷ []) ≡ some s
replay_other events e id first s h n =
    replay-append id (some first) events (e ∷ [])
    ∙ ap (λ x. advance id x e) h
    ∙ advance_other e id s n

-- Appending an allowed event that starts at the deal's stage, and saving the deal at its end, keeps
-- every deal replayed.
pub append-IsAudited :
    (events : List DecisionEvent) (rows : List Opportunity) (o o' : Opportunity) (e : DecisionEvent)
    → e.opportunity_id ≡ o.id
    → e.prior_state ≡ o.lifecycle_state
    → e.new_state ≡ o'.lifecycle_state
    → o'.id ≡ o.id
    → is_valid_transition o.lifecycle_state e.new_state ≡ true
    → All (λ (r : Opportunity). r.id ≡ o.id → r.lifecycle_state ≡ o.lifecycle_state) rows
    → All (IsReplayed events) rows
    → All (IsReplayed (events ++ e ∷ [])) (save o' rows)
append-IsAudited events [] o o' e ei ep en oi v c h = tt
append-IsAudited events (r ∷ rows) o o' e ei ep en oi v c h =
    (row (Bool-cases (r.id == o'.id)), append-IsAudited events rows o o' e ei ep en oi v c.1 h.1)
  where
    row :
        ((r.id == o'.id) ≡ true) ⊎ ((r.id == o'.id) ≡ false)
        → IsReplayed (events ++ e ∷ []) (if r.id == o'.id then o' else r)
    row (inl same) =
        let i = (==_iff r.id o'.id).0 same in
        rw same (
          h.0.0,
          replay_own events e o'.id h.0.0 o.lifecycle_state
                (subst (λ x. replay x (some h.0.0) events ≡ some o.lifecycle_state) i
                  (h.0.1 ∙ ap some (c.0 (i ∙ oi))))
                (ei ∙ sym oi) ep v
              ∙ ap some en,
        )
    row (inr apart) = rw apart (
      h.0.0,
      replay_other events e r.id h.0.0 r.lifecycle_state h.0.1
          (ground (arith, ==_iff r.id o'.id, ==_iff e.opportunity_id r.id)),
    )

-- Saving a deal at its own stage keeps every deal replayed.
pub save-IsAudited :
    (events : List DecisionEvent) (rows : List Opportunity) (o o' : Opportunity)
    → o'.id ≡ o.id
    → o'.lifecycle_state ≡ o.lifecycle_state
    → All (λ (r : Opportunity). r.id ≡ o.id → r.lifecycle_state ≡ o.lifecycle_state) rows
    → All (IsReplayed events) rows
    → All (IsReplayed events) (save o' rows)
save-IsAudited events [] o o' oi os c h = tt
save-IsAudited events (r ∷ rows) o o' oi os c h =
    (row (Bool-cases (r.id == o'.id)), save-IsAudited events rows o o' oi os c.1 h.1)
  where
    row :
        ((r.id == o'.id) ≡ true) ⊎ ((r.id == o'.id) ≡ false)
        → IsReplayed events (if r.id == o'.id then o' else r)
    row (inl same) =
        let i = (==_iff r.id o'.id).0 same in
        rw same (
          h.0.0,
          subst (λ x. replay x (some h.0.0) events ≡ some o'.lifecycle_state) i
              (h.0.1 ∙ ap some (c.0 (i ∙ oi) ∙ sym os)),
        )
    row (inr apart) = rw apart h.0
