-- ===== src/Proposal.antt =====
-- backend/app/decision_proposal.py: the proposal for a human reviewer. Python's `str.casefold`, which
-- only compares texts here, and the mean of floats are arguments; a confidence and a mean are counted
-- in units of 2 ^ -1074.
pub mod Ready
pub mod Invest
use Prim.Native.String.{◌++◌ as join}
use the_vc_brain.Prelude.{
  ℕ, ◌*◌, ◌^◌, Bool, true, false, Option, none, some, List, [], ◌∷◌, ◌++◌, String, str_eq, ◌==◌,
  ◌&&◌, not, if◌then◌else◌, any, all, take, length, map, leb, is_some,
}
use the_vc_brain.Decision.{ProposalAction, invest, hold_proposed, investigate, ProposalStatus}

-- _AXES
pub data Axis : Type 0 where
  founder_axis market_axis idea_market_axis : Axis

abbrev pub axis_text : Axis → String
axis_text founder_axis = "Founder"
axis_text market_axis = "Market"
axis_text idea_market_axis = "Idea-Market"

abbrev pub axes : List Axis
axes = founder_axis ∷ market_axis ∷ idea_market_axis ∷ []

abbrev pub same_axis : Axis → Axis → Bool
same_axis a b = str_eq (axis_text a) (axis_text b)

-- `axis.casefold().replace('-', '_')`
abbrev pub axis_key : Axis → String
axis_key founder_axis = "founder"
axis_key market_axis = "market"
axis_key idea_market_axis = "idea_market"

-- The attributes of an assessment that the proposal reads.
pub record Assessment : Type 0 where
  pub id : ℕ
  pub axis : String
  pub rating : String
  pub confidence : ℕ
  pub unknowns : List String

abbrev pub ByAxis : Type 0
ByAxis = List (Axis × Assessment)

-- `by_axis.get(axis)`
abbrev pub assessed : Axis → ByAxis → Option Assessment
assessed axis [] = none
assessed axis ((other, assessment) ∷ rest) =
    if same_axis other axis then some assessment else assessed axis rest

pub data Conviction : Type 0 where
  high medium low : Conviction

-- The dictionary that is returned; `check_amount` and `ownership_target` are always None.
pub record Proposal : Type 0 where
  pub action : ProposalAction
  pub conviction : Option Conviction
  pub founder_assessment_id : Option ℕ
  pub market_assessment_id : Option ℕ
  pub idea_market_assessment_id : Option ℕ
  pub top_evidence : List String
  pub top_risks : List String
  pub open_conditions : List String
  pub readiness_blockers : List String
  pub readiness_status : String
  pub thesis_version : Option String
  pub rubric_versions : List String
  pub memo_model_version : Option String
  pub override_reason : Option String
  pub status : ProposalStatus

-- the keyword arguments
pub record ProposalInput : Type 0 where
  pub assessments : List Assessment
  pub claim_ids : List String
  pub thesis_version : Option String
  pub memo_status : String
  pub memo_model_version : Option String
  pub rubric_versions : List String
  pub action : Option ProposalAction
  pub override_reason : Option String
  pub status : ProposalStatus

-- `if item not in items: items.append(item)`
abbrev pub add_new : List String → String → List String
add_new items item = if any (str_eq item) items then items else items ++ item ∷ []

abbrev pub add_all : List String → List String → List String
add_all items [] = items
add_all items (item ∷ rest) = add_all (add_new items item) rest

-- `list(dict.fromkeys(items))`
abbrev pub distinct : List String → List String
distinct items = add_all [] items

-- 0.75 and 0.55
abbrev pub high_confidence : ℕ
high_confidence = 3 * 2 ^ 1072

abbrev pub medium_confidence : ℕ
medium_confidence = 4953959590107546 * 2 ^ 1021

abbrev pub id_of : Option Assessment → Option ℕ
id_of none = none
id_of (some assessment) = some assessment.id

abbrev pub is_invest : ProposalAction → Bool
is_invest invest = true
is_invest _ = false

abbrev pub readiness : List String → String
readiness [] = "ready"
readiness (blocker ∷ rest) = "blocked"

module _ (casefold : String → String) where
  -- the axis of `_AXES` that the text names
  abbrev pub names : Axis → Assessment → Bool
  names axis assessment = str_eq (casefold (axis_text axis)) (casefold assessment.axis)

  abbrev pub canonical_among : List Axis → Assessment → Option Axis
  canonical_among [] assessment = none
  canonical_among (axis ∷ rest) assessment =
      if names axis assessment then some axis else canonical_among rest assessment

  abbrev pub add_assessment : Option Axis → Assessment → ByAxis → ByAxis
  add_assessment none assessment by_axis = by_axis
  add_assessment (some axis) assessment by_axis =
      if is_some (assessed axis by_axis) then by_axis else by_axis ++ (axis, assessment) ∷ []

  unfoldable pub collect : List Assessment → ByAxis → ByAxis
  collect [] by_axis = by_axis
  collect (assessment ∷ rest) by_axis =
      collect rest (add_assessment (canonical_among axes assessment) assessment by_axis)

  abbrev pub missing : ByAxis → List Axis → List String
  missing by_axis [] = []
  missing by_axis (axis ∷ rest) =
      let more = missing by_axis rest in
      if is_some (assessed axis by_axis)
      then more
      else join "missing_" (join (axis_key axis) "_assessment") ∷ more

  unfoldable pub readiness_blockers_of : ByAxis → String → List String
  readiness_blockers_of by_axis memo_status =
      missing by_axis axes
      ++ (if str_eq memo_status "succeeded" then [] else "memo_not_validated" ∷ [])

  abbrev pub ratings : ByAxis → List String
  ratings by_axis = map (λ (x : Axis × Assessment). casefold x.1.rating) by_axis

  unfoldable pub action_of : Option ProposalAction → ByAxis → ProposalAction
  action_of (some action) by_axis = action
  action_of none by_axis =
      if any (str_eq "bearish") (ratings by_axis)
      then hold_proposed
      else if length (ratings by_axis) == 3 && all (λ r. str_eq r "bullish") (ratings by_axis)
      then invest
      else investigate

  abbrev risks_at : Axis → Option Assessment → List String → List String
  risks_at axis none risks = risks
  risks_at axis (some assessment) risks =
      add_all
        (if str_eq (casefold assessment.rating) "bearish"
          then risks ++ join (axis_text axis) " assessment is Bearish" ∷ []
          else risks)
        assessment.unknowns

  abbrev risks_from : ByAxis → List Axis → List String → List String
  risks_from by_axis [] risks = risks
  risks_from by_axis (axis ∷ rest) risks =
      risks_from by_axis rest (risks_at axis (assessed axis by_axis) risks)

  module _ (mean : List ℕ → ℕ) where
    -- of a mean of at least one confidence
    abbrev conviction_at : ℕ → ProposalAction → Conviction
    conviction_at average action =
        if leb high_confidence average && is_invest action
        then high
        else if leb medium_confidence average
        then medium
        else low

    abbrev pub conviction_of : ByAxis → ProposalAction → Option Conviction
    conviction_of [] action = none
    conviction_of (x ∷ rest) action =
        some
          (conviction_at (mean (map (λ (y : Axis × Assessment). y.1.confidence) (x ∷ rest))) action)

    unfoldable pub build_decision_proposal : ProposalInput → Proposal
    unfolding collect readiness_blockers_of action_of
    build_decision_proposal input =
        let by_axis = collect input.assessments [] in
        let blockers = readiness_blockers_of by_axis input.memo_status in
        let action = action_of input.action by_axis in
        let top_risks = risks_from by_axis axes [] in
        record {
          action = action;
          conviction = conviction_of by_axis action;
          founder_assessment_id = id_of (assessed founder_axis by_axis);
          market_assessment_id = id_of (assessed market_axis by_axis);
          idea_market_assessment_id = id_of (assessed idea_market_axis by_axis);
          top_evidence = take 8 (distinct input.claim_ids);
          top_risks = take 8 top_risks;
          open_conditions = take 8 (map (λ risk. join "Resolve: " risk) top_risks);
          readiness_blockers = blockers;
          readiness_status = readiness blockers;
          thesis_version = input.thesis_version;
          rubric_versions = distinct (input.rubric_versions ++ "decision-proposal-v1" ∷ []);
          memo_model_version = input.memo_model_version;
          override_reason = input.override_reason;
          status = input.status;
        }
