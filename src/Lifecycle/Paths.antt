-- ===== src/Lifecycle/Paths.antt =====
-- Sequences of the transitions that backend/app/lifecycle.py allows.
use the_vc_brain.Prelude.{
  ℕ, ◌+◌, ◌≤◌, ◌<◌, ◌≡◌, ◌≢◌, refl, ◌⊎◌, inl, inr, ◌↔◌, Bool, true, false, arith, Bool-cases, sym,
  ap, ◌∙◌, ◌||◌, not, if◌then◌else◌,
}
use the_vc_brain.Lifecycle.{
  Stage, discovered, interesting, investigating, contacted, received, triage, screening, diligence,
  memo_ready, hold, approved, closed, is_valid_transition, is_outbound, is_inbound, ◌is◌,
}
use the_vc_brain.Lifecycle.Keys.{is_iff}
use the_vc_brain.Lifecycle.Graph.{
  ◌⟶◌, signal, investigate, contact, submit_direct, submit, process, score, research, memo, pause,
  approve, resume, close, edge-valid, valid-edge,
}

-- Every step passes the test of the code; a step may stay where it is.
infix 40 ◌⟶*◌
pub data ◌⟶*◌ (s : Stage) : Stage → Type 0 where
  here : s ⟶* s
  step : {t u : Stage} → s ⟶* t → is_valid_transition t u ≡ true → s ⟶* u

-- The steps of a path that change the stage.
abbrev pub moves : {s t : Stage} → s ⟶* t → ℕ
moves here = 0
moves (step {t = t} {u = u} path valid) = moves path + (if t is u then 0 else 1)

-- How far along the deal is.
abbrev pub rank : Stage → ℕ
rank discovered = 0
rank interesting = 1
rank investigating = 2
rank contacted = 3
rank received = 4
rank triage = 5
rank screening = 6
rank diligence = 7
rank memo_ready = 8
rank hold = 9
rank approved = 10
rank closed = 10

rank-lt-closed : (s : Stage) → s ≢ approved → s ≢ closed → rank s < 10
rank-lt-closed approved na nc = absurd (na refl)
rank-lt-closed closed na nc = absurd (nc refl)
rank-lt-closed _ na nc = omega arith

edge-rank : {p q : Stage} → p ⟶ q → rank p < rank q
edge-rank (close {s = s} na nc) = rank-lt-closed s na nc
edge-rank signal = omega arith
edge-rank investigate = omega arith
edge-rank contact = omega arith
edge-rank submit_direct = omega arith
edge-rank submit = omega arith
edge-rank process = omega arith
edge-rank score = omega arith
edge-rank research = omega arith
edge-rank memo = omega arith
edge-rank pause = omega arith
edge-rank approve = omega arith
edge-rank resume = omega arith

-- The test of the code holds of two stages exactly when they are one stage or an edge of the diagram joins them.
valid_iff_edge : (p q : Stage) → (is_valid_transition p q ≡ true) ↔ ((p ≡ q) ⊎ (p ⟶ q))
valid_iff_edge p q = (to, from)
  where
    to : is_valid_transition p q ≡ true → (p ≡ q) ⊎ (p ⟶ q)
    to h = elim (Bool-cases (p is q)) [
      | inl e ↦ inl ((is_iff p q).0 e)
      | inr n ↦ inr (valid-edge p q h (λ e. cc ((is_iff p q).1 e)))
    ]

    from : (p ≡ q) ⊎ (p ⟶ q) → is_valid_transition p q ≡ true
    from (inl e) = unfold is_valid_transition in rw ((is_iff p q).1 e)
    from (inr e) = edge-valid e

valid-rank :
    (p q : Stage) → is_valid_transition p q ≡ true → rank p + (if p is q then 0 else 1) ≤ rank q
valid-rank p q h = elim (Bool-cases (p is q)) [
  | inl e ↦ rw e (rw ((is_iff p q).0 e) (omega arith))
  | inr n ↦ rw n (omega (arith, edge-rank (valid-edge p q h (λ e. cc ((is_iff p q).1 e)))))
]

-- A path changes the stage at most as often as the rank grows.
moves-rank : {s t : Stage} (path : s ⟶* t) → rank s + moves path ≤ rank t
moves-rank here = omega arith
moves-rank (step {t = t} {u = u} path valid) = omega (arith, moves-rank path, valid-rank t u valid)

rank-le : (s : Stage) → rank s ≤ 10
rank-le discovered = omega arith
rank-le _ = omega arith

-- However often the pipeline and the humans act, one deal changes its stage at most ten times, and
-- a deal that has reached rank n at most 10 - n times more.
moves-le : {s t : Stage} (path : s ⟶* t) → rank s + moves path ≤ 10
moves-le {s} {t} path = omega (arith, moves-rank path, rank-le t)

-- `memo_ready` and what lies behind it, short of `closed`.
abbrev pub has_memo_stage : Stage → Bool
has_memo_stage memo_ready = true
has_memo_stage hold = true
has_memo_stage approved = true
has_memo_stage _ = false

-- The only step into those stages ends at `memo_ready`.
entry : (t u : Stage) → t ⟶ u → has_memo_stage t ≡ false → has_memo_stage u ≡ true → u ≡ memo_ready
entry _ _ memo nt hu = refl
entry _ _ pause nt hu = cc
entry _ _ approve nt hu = cc
entry _ _ resume nt hu = cc
entry _ _ (close na nc) nt hu = cc
entry _ _ _ nt hu = cc

entry_valid :
    (t u : Stage)
    → is_valid_transition t u ≡ true
    → has_memo_stage t ≡ false
    → has_memo_stage u ≡ true
    → u ≡ memo_ready
entry_valid t u valid nt hu = elim ((valid_iff_edge t u).0 valid) [
  | inl e ↦ cc (ap has_memo_stage e)
  | inr e ↦ entry t u e nt hu
]

-- The stage is one of those at which the path stands, its ends included.
abbrev pub visits : Stage → {s t : Stage} → s ⟶* t → Bool
visits v {s} here = s is v
visits v (step {u = u} path valid) = visits v path || u is v

or_true : (a : Bool) → (a || true) ≡ true
or_true true = refl
or_true false = refl

-- A path from outside into the stages behind the memo stops at `memo_ready` on its way.
through_memo :
    {s t : Stage} (path : s ⟶* t)
    → has_memo_stage s ≡ false
    → has_memo_stage t ≡ true
    → visits memo_ready path ≡ true
through_memo here ns ht = cc
through_memo {s} {t = u} (step {t = t} path valid) ns hu = elim (Bool-cases (has_memo_stage t)) [
  | inl ht ↦ rw (through_memo path ns ht)
  | inr nt ↦
      let last : (u is memo_ready) ≡ true = (is_iff u memo_ready).1 (entry_valid t u valid nt hu) in
      rw (last, or_true)
]

-- No deal is approved without a memo: every sequence of allowed transitions from a stage before the
-- memo to `approved` stands at `memo_ready` on its way.
pub approved_through_memo :
    {s : Stage} (path : s ⟶* approved) → has_memo_stage s ≡ false → visits memo_ready path ≡ true
approved_through_memo path ns = through_memo path ns refl

leave_closed : (t : Stage) → is_valid_transition closed t ≡ true → t ≡ closed
leave_closed t h = ground (arith, valid-rank closed t h, rank-le t, is_iff closed t)

leave_approved : (t : Stage) → is_valid_transition approved t ≡ true → t ≡ approved
leave_approved t h = ground (arith, valid-rank approved t h, rank-le t, is_iff approved t)

abbrev pub IsTerminal : Stage → Type 0
IsTerminal s = (s ≡ approved) ⊎ (s ≡ closed)

-- Nothing moves a deal out of `approved` or `closed`.
terminal_absorbs : {s t : Stage} → IsTerminal s → s ⟶* t → t ≡ s
terminal_absorbs h here = refl
terminal_absorbs {s} h (step {t = t} {u = u} path valid) =
    leave_terminal s u h (rw (← terminal_absorbs h path) valid)
  where
    leave_terminal : (s u : Stage) → IsTerminal s → is_valid_transition s u ≡ true → u ≡ s
    leave_terminal s u (inl e) v = leave_approved u (rw (← e) v) ∙ sym e
    leave_terminal s u (inr e) v = leave_closed u (rw (← e) v) ∙ sym e

one_lane : (s : Stage) → is_inbound s ≡ not (is_outbound s)
unfolding is_inbound is_outbound
one_lane discovered = refl
one_lane _ = refl

inbound-edge : (p q : Stage) → p ⟶ q → is_inbound p ≡ true → is_inbound q ≡ true
unfolding is_inbound
inbound-edge _ _ signal k = cc
inbound-edge _ _ investigate k = cc
inbound-edge _ _ contact k = cc
inbound-edge _ _ _ k = refl

-- The sourcing and the inbound half split the stages: a stage is in exactly one of the two sets, and
-- no sequence of allowed transitions leads from the inbound half back.
lanes_split :
    {p q : Stage}
    → p ⟶* q
    → is_inbound p ≡ true
    → (is_inbound q ≡ true) × ((s : Stage) → is_inbound s ≡ not (is_outbound s))
lanes_split path h = (stays path h, one_lane)
  where
    inbound_kept : (p q : Stage) → (p ≡ q) ⊎ (p ⟶ q) → is_inbound p ≡ true → is_inbound q ≡ true
    inbound_kept p q (inl e) k = rw (← e) k
    inbound_kept p q (inr e) k = inbound-edge p q e k

    stays : {p q : Stage} → p ⟶* q → is_inbound p ≡ true → is_inbound q ≡ true
    stays here k = k
    stays (step {t = t} {u = u} before valid) k =
        inbound_kept t u ((valid_iff_edge t u).0 valid) (stays before k)
