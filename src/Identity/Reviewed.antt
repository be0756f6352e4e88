-- ===== src/Identity/Reviewed.antt =====
-- The review of matches in backend/app/api/routes/collection.py keeps the tables sound.
use the_vc_brain.Prelude.{
  ℕ, ◌<◌, ◌≤◌, ◌≡◌, inl, inr, refl, Bool, true, false, Option, none, some, List, [], ◌∷◌, ◌==◌,
  ◌&&◌, String, str_eq, Bool-cases, arith, length, All-find, update_where, All-update_where,
}
use the_vc_brain.Models.{Person}
use the_vc_brain.Identity.{PersonMatch, People, Attempt, returned, threw, person}
use the_vc_brain.Identity.Resolve.{is_pending_of, pending_matches}
use the_vc_brain.Identity.Review.{
  resolved, save_match, approved_reply, merge_reviewed, approve_pending, match_of, approve_match,
  reject_pending, reject_match,
}
use the_vc_brain.Identity.Sound.{IsSound, MergedSound, merge_ordered}

resolved_again :
    (a b now : ℕ) (status : String) (m : PersonMatch)
    → str_eq status "pending" ≡ false
    → is_pending_of a b (resolved now status m) ≡ false
resolved_again a b now status m e = rw e (and_false _)
  where
    and_false : (x : Bool) → (x && false) ≡ false
    and_false true = refl
    and_false false = refl

fewer_pending :
    (a b now id : ℕ) (status : String)
    → str_eq status "pending" ≡ false
    → (matches : List PersonMatch)
    → length (
        pending_matches a b
          (update_where (λ (m : PersonMatch). m.id == id) (resolved now status) matches))
      ≤ length (pending_matches a b matches)
fewer_pending a b now id status e [] = omega arith
fewer_pending a b now id status e (m ∷ matches) =
    let rest = fewer_pending a b now id status e matches in
    let gone = resolved_again a b now status m e in
    elim (Bool-cases (m.id == id)) [
      | inl t ↦ elim (Bool-cases (is_pending_of a b m)) [
        | inl k ↦ rw (t, gone, k) (omega (arith, rest))
        | inr k ↦ rw (t, gone, k) rest
      ]
      | inr t ↦ elim (Bool-cases (is_pending_of a b m)) [
        | inl k ↦ rw (t, k) (omega (arith, rest))
        | inr k ↦ rw (t, k) rest
      ]
    ]

save_match-IsSound :
    (now id : ℕ) (status : String) (people : People)
    → str_eq status "pending" ≡ false
    → IsSound people
    → IsSound (save_match now id status people)
save_match-IsSound now id status people e h = record {
  superseding = h.superseding;
  sorted =
      All-update_where (λ (m : PersonMatch). m.person_a_id < m.person_b_id)
        (λ (m : PersonMatch). m.person_a_id < m.person_b_id) (λ (m : PersonMatch). m.id == id)
        (resolved now status) (λ m t lt. lt) (λ m t lt. lt) people.matches h.sorted;
  once = λ a b. omega (arith, h.once a b, fewer_pending a b now id status e people.matches);
}

approved_reply-IsSound :
    (now id : ℕ) (people : People) (r : Attempt People)
    → IsSound people
    → MergedSound r
    → IsSound (approved_reply now id people r).1
approved_reply-IsSound now id people (returned next) h k =
    save_match-IsSound now id "approved" next refl k
approved_reply-IsSound now id people (threw failure) h k = h

merge_reviewed-IsSound :
    (now : ℕ) (people : People) (m : PersonMatch) (found_a found_b : Option Person)
    → person people.persons m.person_a_id ≡ found_a
    → person people.persons m.person_b_id ≡ found_b
    → m.person_a_id < m.person_b_id
    → IsSound people
    → IsSound (merge_reviewed now people m found_a found_b).1
unfolding merge_reviewed
merge_reviewed-IsSound now people m none found_b e g lt h = h
merge_reviewed-IsSound now people m (some person_a) none e g lt h = h
merge_reviewed-IsSound now people m (some person_a) (some person_b) e g lt h =
    approved_reply-IsSound now m.id people _ h
      (merge_ordered now m.person_a_id m.person_b_id people person_a person_b e g lt h)

approve_pending-IsSound :
    (now : ℕ) (people : People) (id : ℕ) (found : Option PersonMatch)
    → match_of people id ≡ found
    → IsSound people
    → IsSound (approve_pending now people found).1
unfolding approve_pending
approve_pending-IsSound now people id none e h = h
approve_pending-IsSound now people id (some m) e h = elim (Bool-cases (str_eq m.status "pending")) [
  | inl t ↦
      let (lt, same) =
        All-find (λ (x : PersonMatch). x.person_a_id < x.person_b_id)
          (λ (x : PersonMatch). x.id == id) people.matches h.sorted e in
      rw t (merge_reviewed-IsSound now people m _ _ refl refl lt h)
  | inr t ↦ rw t h
]

reject_pending-IsSound :
    (now : ℕ) (people : People) (found : Option PersonMatch)
    → IsSound people
    → IsSound (reject_pending now people found).1
unfolding reject_pending
reject_pending-IsSound now people none h = h
reject_pending-IsSound now people (some m) h = elim (Bool-cases (str_eq m.status "pending")) [
  | inl t ↦ rw t (save_match-IsSound now m.id "rejected" people refl h)
  | inr t ↦ rw t h
]

-- Approving a match and rejecting a match, whatever they answer, keep the tables sound: supersession
-- leads to persons created earlier, or at once with a smaller id; a match names the smaller id first;
-- and two persons have at most one pending match.
pub approve_match-IsSound :
    (now : ℕ) (people : People) (id : ℕ)
    → IsSound people
    → IsSound (approve_match now people id).1 × IsSound (reject_match now people id).1
unfolding approve_match reject_match
approve_match-IsSound now people id h = (
  approve_pending-IsSound now people id _ refl h,
  reject_pending-IsSound now people (match_of people id) h,
)
