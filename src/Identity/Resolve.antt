-- ===== src/Identity/Resolve.antt =====
-- backend/app/identity/resolve.py: the run over all canonical persons. A Python set is a list
-- without repeats, and the order in which `candidate_pairs` is walked is the argument `order`.
use Prim.Native.String.{◌++◌ as join}
use the_vc_brain.Prelude.{
  ℕ, ◌+◌, Bool, Option, none, some, List, [], ◌∷◌, ◌++◌, String, str_eq, ◌==◌, ◌&&◌, ◌||◌, not,
  if◌then◌else◌, any, keep, length, leb, ltb,
}
use Prim.Native.String.{count}
use the_vc_brain.Pipeline.{equals}
use the_vc_brain.Models.{Person}
use the_vc_brain.Identity.{
  Observation, PersonMatch, People, multiple_results, Attempt, returned, threw, and_then, person,
  merge_persons,
}
use the_vc_brain.Identity.Matchers.{Texts, normalize_url, match_confidence, should_auto_merge, half}

-- `_fetch_observations`
abbrev pub fetch_observations : People → ℕ → List Observation
fetch_observations people person_id =
    keep (λ (o : Observation). equals o.subject_id person_id) people.observations

-- `keys.add(key)`
abbrev pub add_key : String → List String → List String
add_key key keys = if any (str_eq key) keys then keys else keys ++ key ∷ []

abbrev add_nonempty : String → String → List String → List String
add_nonempty kind value keys = if str_eq value "" then keys else add_key (join kind value) keys

module _ (texts : Texts) where
  open texts use {strip, lower, words, first_part, prefix, contains}

  abbrev add_names : List String → List String → List String
  add_names [] keys = keys
  add_names (token ∷ rest) keys =
      add_names rest
        (if leb 3 (count token) then add_key (join "name:" (prefix 3 token)) keys else keys)

  abbrev pub add_observation : Observation → List String → Attempt (List String)
  add_observation o keys =
      let pred = o.predicate in
      let val = o.object_value in
      if str_eq pred "email" && contains "@" val
      then returned (add_nonempty "email:" (prefix 3 (lower (first_part "@" val))) keys)
      else if str_eq pred "twitter_handle" && not (str_eq val "")
      then returned (add_key (join "twitter:" (lower (strip val))) keys)
      else if (str_eq pred "blog_url" || str_eq pred "website_url") && not (str_eq val "")
      then and_then (normalize_url texts val)
          (λ (url : String). returned (add_nonempty "domain:" (first_part "/" url) keys))
      else if str_eq pred "display_name" && not (str_eq val "")
      then returned (add_names (words (lower (strip val))) keys)
      else returned keys

  abbrev pub keys_from : List Observation → List String → Attempt (List String)
  keys_from [] keys = returned keys
  keys_from (o ∷ rest) keys =
      and_then (add_observation o keys) (λ (more : List String). keys_from rest more)

  unfoldable pub build_blocking_keys : People → ℕ → Attempt (List String)
  build_blocking_keys people person_id = keys_from (fetch_observations people person_id) []

-- `key_to_persons`: the persons of a key in the order of the run
abbrev pub Blocks : Type 0
Blocks = List (String × List ℕ)

abbrev pub add_to_block : ℕ → String → Blocks → Blocks
add_to_block id key [] = (key, id ∷ []) ∷ []
add_to_block id key ((k, ids) ∷ rest) =
    let later = add_to_block id key rest in
    if str_eq k key then (k, ids ++ id ∷ []) ∷ rest else (k, ids) ∷ later

abbrev pub add_to_blocks : ℕ → List String → Blocks → Blocks
add_to_blocks id [] blocks = blocks
add_to_blocks id (key ∷ keys) blocks = add_to_blocks id keys (add_to_block id key blocks)

abbrev pub blocks_of : (ℕ → Attempt (List String)) → List Person → Blocks → Attempt Blocks
blocks_of keys [] blocks = returned blocks
blocks_of keys (p ∷ rest) blocks =
    and_then (keys p.id)
      (λ (found : List String). blocks_of keys rest (add_to_blocks p.id found blocks))

-- `candidate_pairs.add(pair)`
abbrev pub same_pair : ℕ × ℕ → ℕ × ℕ → Bool
same_pair x y = x.0 == y.0 && x.1 == y.1

abbrev pub sorted_pair : ℕ → ℕ → ℕ × ℕ
sorted_pair a b = if ltb a b then (a, b) else (b, a)

abbrev pub add_pair : ℕ → ℕ → List (ℕ × ℕ) → List (ℕ × ℕ)
add_pair a b pairs =
    if a == b || any (same_pair (sorted_pair a b)) pairs
    then pairs
    else pairs ++ sorted_pair a b ∷ []

abbrev pub pairs_with : ℕ → List ℕ → List (ℕ × ℕ) → List (ℕ × ℕ)
pairs_with a [] pairs = pairs
pairs_with a (b ∷ rest) pairs = pairs_with a rest (add_pair a b pairs)

-- all i < j; a block of fewer than two has none
abbrev pub pairs_in : List ℕ → List (ℕ × ℕ) → List (ℕ × ℕ)
pairs_in [] pairs = pairs
pairs_in (a ∷ rest) pairs = pairs_in rest (pairs_with a rest pairs)

unfoldable pub candidate_pairs : Blocks → List (ℕ × ℕ) → List (ℕ × ℕ)
candidate_pairs [] pairs = pairs
candidate_pairs ((key, ids) ∷ rest) pairs = candidate_pairs rest (pairs_in ids pairs)

-- The tables and the counters of the summary.
pub record Progress : Type 0 where
  pub people : People
  pub pairs_evaluated : ℕ
  pub auto_merged : ℕ
  pub flagged_for_review : ℕ

-- a pending match of the two, in either order
abbrev pub is_pending_of : ℕ → ℕ → PersonMatch → Bool
is_pending_of a b m =
    ((m.person_a_id == a && m.person_b_id == b) || (m.person_a_id == b && m.person_b_id == a))
    && str_eq m.status "pending"

abbrev pub pending_matches : ℕ → ℕ → List PersonMatch → List PersonMatch
pending_matches a b = keep (is_pending_of a b)

-- The earlier-created person first. `created_at` is never null, so both moments are there.
abbrev pub ordered : Person → Person → ℕ → ℕ → ℕ × ℕ
ordered person_a person_b a b =
    if leb person_a.created_at person_b.created_at then (a, b) else (b, a)

abbrev pub flag : ℕ → ℕ → ℕ → List String → People → People
flag a b confidence reasons people = record people {
  matches =
      people.matches
      ++ record {
        id = people.next_id;
        person_a_id = a;
        person_b_id = b;
        confidence = confidence;
        reasons = reasons;
        status = "pending";
        resolved_by = none;
        resolved_at = none;
      }
        ∷ [];
  next_id = people.next_id + 1;
}

abbrev pub counted_merge : Progress → Attempt People → Attempt Progress
counted_merge p (threw failure) = threw failure
counted_merge p (returned people) =
    returned (record p { people = people; auto_merged = p.auto_merged + 1 })

-- `scalar_one_or_none` on the pending matches
abbrev pub flag_unless : List PersonMatch → ℕ → ℕ → ℕ → List String → Progress → Attempt Progress
flag_unless [] a b confidence reasons p = returned (record p {
  people = flag a b confidence reasons p.people;
  flagged_for_review = p.flagged_for_review + 1;
})
flag_unless (m ∷ []) a b confidence reasons p = returned p
flag_unless (m ∷ n ∷ rest) a b confidence reasons p = threw multiple_results

unfoldable pub act_on : ℕ → Person → Person → ℕ → ℕ → ℕ × List String → Progress → Attempt Progress
act_on now person_a person_b a b verdict p =
    let chosen = ordered person_a person_b a b in
    if should_auto_merge verdict.0
    then counted_merge p (merge_persons now p.people chosen.0 chosen.1)
    else if leb half verdict.0
    then flag_unless (pending_matches a b p.people.matches) a b verdict.0 verdict.1 p
    else returned p

module _ (texts : Texts) (now : ℕ) where
  unfoldable pub judge : Option Person → Option Person → ℕ → ℕ → Progress → Attempt Progress
  unfolding act_on
  judge none found a b p = returned p
  judge (some person_a) none a b p = returned p
  judge (some person_a) (some person_b) a b p =
      if not person_a.canonical || not person_b.canonical
      then returned p
      else and_then
          (match_confidence texts (fetch_observations p.people a) (fetch_observations p.people b))
          (λ (verdict : ℕ × List String). act_on now person_a person_b a b verdict p)

  -- one turn of the loop
  unfoldable pub evaluate_pair : ℕ × ℕ → Progress → Attempt Progress
  unfolding judge
  evaluate_pair (a, b) p =
      judge (person p.people.persons a) (person p.people.persons b) a b
        (record p { pairs_evaluated = p.pairs_evaluated + 1 })

  unfoldable pub evaluate_pairs : List (ℕ × ℕ) → Progress → Attempt Progress
  unfolding evaluate_pair
  evaluate_pairs [] p = returned p
  evaluate_pairs (pair ∷ rest) p =
      and_then (evaluate_pair pair p) (λ next. evaluate_pairs rest next)

  module _ (order : List (ℕ × ℕ) → List (ℕ × ℕ)) where
    -- The tables after the run, with the counters; with fewer than two persons nothing is looked at.
    unfoldable pub resolve_identities : People → Attempt Progress
    unfolding evaluate_pairs candidate_pairs
    resolve_identities people =
        let persons = keep (λ (p : Person). p.canonical) people.persons in
        let start : Progress = record {
          people = people;
          pairs_evaluated = 0;
          auto_merged = 0;
          flagged_for_review = 0;
        } in
        if ltb (length persons) 2
        then returned start
        else and_then (blocks_of (build_blocking_keys texts people) persons [])
            (λ (blocks : Blocks). evaluate_pairs (order (candidate_pairs blocks [])) start)
