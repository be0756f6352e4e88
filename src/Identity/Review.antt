-- ===== src/Identity/Review.antt =====
-- backend/app/api/routes/collection.py: a human approves or rejects a match of two persons.
use the_vc_brain.Prelude.{
  ℕ, Option, none, some, String, str_eq, ◌==◌, if◌then◌else◌, find, update_where,
}
use Prim.Native.String.{◌++◌ as join}
use the_vc_brain.Http.{Reply, responded, refused, unhandled}
use the_vc_brain.Models.{Person}
use the_vc_brain.Identity.{PersonMatch, People, Attempt, returned, threw, person, merge_persons}
use the_vc_brain.Identity.Resolve.{ordered}

abbrev pub resolved : ℕ → String → PersonMatch → PersonMatch
resolved now status m = record m {
  status = status;
  resolved_by = some "api";
  resolved_at = some now;
}

abbrev pub save_match : ℕ → ℕ → String → People → People
save_match now id status people = record people {
  matches = update_where (λ (m : PersonMatch). m.id == id) (resolved now status) people.matches;
}

-- An exception leaves the transaction uncommitted.
abbrev pub approved_reply : ℕ → ℕ → People → Attempt People → Reply String × People
approved_reply now id people (returned next) =
    (responded "Match approved and persons merged", save_match now id "approved" next)
approved_reply now id people (threw failure) = (unhandled, people)

unfoldable pub merge_reviewed :
    ℕ → People → PersonMatch → Option Person → Option Person → Reply String × People
merge_reviewed now people m none found = (refused 404 "One or both persons not found", people)
merge_reviewed now people m (some person_a) none =
    (refused 404 "One or both persons not found", people)
merge_reviewed now people m (some person_a) (some person_b) =
    let chosen = ordered person_a person_b m.person_a_id m.person_b_id in
    approved_reply now m.id people (merge_persons now people chosen.0 chosen.1)

unfoldable pub approve_pending : ℕ → People → Option PersonMatch → Reply String × People
unfolding merge_reviewed
approve_pending now people none = (refused 404 "Match not found", people)
approve_pending now people (some m) =
    if str_eq m.status "pending"
    then merge_reviewed now people m (person people.persons m.person_a_id)
        (person people.persons m.person_b_id)
    else (refused 400 (join "Match already " m.status), people)

abbrev pub match_of : People → ℕ → Option PersonMatch
match_of people id = find (λ (m : PersonMatch). m.id == id) people.matches

unfoldable pub approve_match : ℕ → People → ℕ → Reply String × People
unfolding approve_pending
approve_match now people id = approve_pending now people (match_of people id)

unfoldable pub reject_pending : ℕ → People → Option PersonMatch → Reply String × People
reject_pending now people none = (refused 404 "Match not found", people)
reject_pending now people (some m) =
    if str_eq m.status "pending"
    then (responded "Match rejected", save_match now m.id "rejected" people)
    else (refused 400 (join "Match already " m.status), people)

unfoldable pub reject_match : ℕ → People → ℕ → Reply String × People
unfolding reject_pending
reject_match now people id = reject_pending now people (match_of people id)
