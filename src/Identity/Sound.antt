-- ===== src/Identity/Sound.antt =====
-- What the identity run and the review of matches keep of the tables of persons and matches:
-- backend/app/identity/resolve.py and the two routes of backend/app/api/routes/collection.py.
use the_vc_brain.Prelude.{
  ℕ, ◌+◌, ◌<◌, ◌≤◌, ◌≡◌, ◌≢◌, ◌⊎◌, inl, inr, refl, Bool, true, false, Option, none, some, List, [],
  ◌∷◌, ◌++◌, ◌==◌, ◌&&◌, ◌||◌, String, str_eq, if◌then◌else◌, Bool-cases, sym, ap, subst, arith,
  length, keep, All, All-append, leb, any, All-map, ltb, not,
}
use the_vc_brain.Models.{Person}
use the_vc_brain.Identity.{
  PersonMatch, People, duplicate_founder, invalid_url, Attempt, returned, threw, and_then, person,
  merge_persons,
}
use the_vc_brain.Identity.Matchers.{Texts, should_auto_merge, half}
use the_vc_brain.Identity.Resolve.{
  Progress, is_pending_of, pending_matches, ordered, flag, counted_merge, flag_unless, act_on,
  judge, evaluate_pair, evaluate_pairs, same_pair, sorted_pair, add_pair, pairs_with, pairs_in,
  Blocks, candidate_pairs, resolve_identities,
}
use the_vc_brain.Identity.Handles.{found-id}
use the_vc_brain.Identity.Urls.{IsUrlError, match_confidence-IsUrlError, blocks_of-IsUrlError}
use the_vc_brain.Identity.Supersession.{Before, IsSuperseding, MergesSafely, merge_persons-safely}

-- Supersession leads back to canonical persons, a match names the smaller id first, and two persons
-- have at most one pending match.
pub record IsSound (people : People) : Type 0 where
  pub superseding : IsSuperseding people.persons
  pub sorted : All (λ (m : PersonMatch). m.person_a_id < m.person_b_id) people.matches
  pub once : (a b : ℕ) → length (pending_matches a b people.matches) ≤ 1

length-keep-append {ℓ} :
    {A : Type ℓ} (p : A → Bool) (xs : List A) (x : A)
    → length (keep p (xs ++ x ∷ [])) ≡ length (keep p xs) + (if p x then 1 else 0)
length-keep-append p [] x = elim (Bool-cases (p x)) [ inl e ↦ rw e | inr e ↦ rw e ]
length-keep-append p (y ∷ ys) x = elim (Bool-cases (p y)) [
  | inl e ↦ rw e (omega (arith, length-keep-append p ys x))
  | inr e ↦ rw (e, length-keep-append p ys x)
]

keep-cong {ℓ} :
    {A : Type ℓ} (p q : A → Bool) → ((x : A) → p x ≡ q x) → (xs : List A) → keep p xs ≡ keep q xs
keep-cong p q h [] = refl
keep-cong p q h (x ∷ xs) = rw (h x, keep-cong p q h xs)

or_comm : (a b c : Bool) → ((a || b) && c) ≡ ((b || a) && c)
or_comm true true c = refl
or_comm true false c = refl
or_comm false true c = refl
or_comm false false c = refl

swapped :
    (a b : ℕ) (matches : List PersonMatch)
    → pending_matches b a matches ≡ pending_matches a b matches
swapped a b matches =
    keep-cong (is_pending_of b a) (is_pending_of a b)
      (λ m.
        or_comm (m.person_a_id == b && m.person_b_id == a)
          (m.person_a_id == a && m.person_b_id == b) (str_eq m.status "pending"))
      matches

same_two :
    (a b x y : ℕ)
    → (((a == x && b == y) || (a == y && b == x)) && true) ≡ true
    → ((x ≡ a) × (y ≡ b)) ⊎ ((x ≡ b) × (y ≡ a))
same_two a b x y h = ground arith

pending_after :
    (a b x y confidence : ℕ) (reasons : List String) (people : People)
    → length (pending_matches a b people.matches) ≡ 0
    → length (pending_matches x y people.matches) ≤ 1
    → length (pending_matches x y (flag a b confidence reasons people).matches) ≤ 1
pending_after a b x y confidence reasons people none_yet h =
    let new : PersonMatch = record {
      id = people.next_id;
      person_a_id = a;
      person_b_id = b;
      confidence = confidence;
      reasons = reasons;
      status = "pending";
      resolved_by = none;
      resolved_at = none;
    } in
    let before = length (pending_matches x y people.matches) in
    let counted = length-keep-append (is_pending_of x y) people.matches new in
    elim (Bool-cases (is_pending_of x y new)) [
      | inr e ↦ rw (counted, e) (omega (arith, h))
      | inl e ↦
          let empty : before ≡ 0 = elim (same_two a b x y e) [
            | inl (x_a, y_b) ↦ rw (x_a, y_b) none_yet
            | inr (x_b, y_a) ↦ rw (x_b, y_a, swapped a b people.matches) none_yet
          ] in
          rw (counted, e) (omega (arith, empty))
    ]

abbrev pub IsSafe : Attempt Progress → Type 0
IsSafe (returned q) = IsSound q.people
IsSafe (threw failure) = (failure ≡ duplicate_founder) ⊎ (failure ≡ invalid_url)

flag-IsSound :
    (a b : ℕ) (confidence : ℕ) (reasons : List String) (people : People)
    → a < b
    → length (pending_matches a b people.matches) ≡ 0
    → IsSound people
    → IsSound (flag a b confidence reasons people)
flag-IsSound a b confidence reasons people lt none_yet h = record {
  superseding = h.superseding;
  sorted = All-append _ people.matches _ h.sorted (lt, tt);
  once = λ x y. pending_after a b x y confidence reasons people none_yet (h.once x y);
}

flag_unless-IsSafe :
    (found : List PersonMatch) (a b : ℕ) (confidence : ℕ) (reasons : List String) (p : Progress)
    → pending_matches a b p.people.matches ≡ found
    → a < b
    → IsSound p.people
    → IsSafe (flag_unless found a b confidence reasons p)
flag_unless-IsSafe [] a b confidence reasons p e lt h =
    flag-IsSound a b confidence reasons p.people lt (ap length e) h
flag_unless-IsSafe (m ∷ []) a b confidence reasons p e lt h = h
flag_unless-IsSafe (m ∷ n ∷ rest) a b confidence reasons p e lt h =
    let many : length (m ∷ n ∷ rest) ≤ 1 =
      subst (λ (x : List PersonMatch). length x ≤ 1) e (h.once a b) in
    absurd (omega (arith, many))

-- the tables after a merge of two persons that were found, in the order that the code chooses
abbrev pub MergedSound : Attempt People → Type 0
MergedSound (returned next) = IsSound next
MergedSound (threw failure) = failure ≡ duplicate_founder

from_safely :
    (now canonical_id duplicate_id : ℕ) (people : People) (r : Attempt People)
    → IsSound people
    → MergesSafely now canonical_id duplicate_id people r
    → MergedSound r
from_safely now canonical_id duplicate_id people (returned next) h (s, m) = record {
  superseding = s;
  sorted =
      subst (λ ms. All (λ (x : PersonMatch). x.person_a_id < x.person_b_id) ms) (sym m) h.sorted;
  once = λ a b. subst (λ ms. length (pending_matches a b ms) ≤ 1) (sym m) (h.once a b);
}
from_safely now canonical_id duplicate_id people (threw failure) h s = s

pub merge_ordered :
    (now a b : ℕ) (people : People) (person_a person_b : Person)
    → person people.persons a ≡ some person_a
    → person people.persons b ≡ some person_b
    → a < b
    → IsSound people
    → MergedSound (
        merge_persons now people
          (ordered person_a person_b a b).0
          (ordered person_a person_b a b).1)
merge_ordered now a b people person_a person_b found_a found_b lt h =
    let id_a : person_a.id ≡ a = found-id people.persons a found_a in
    let id_b : person_b.id ≡ b = found-id people.persons b found_b in
    elim (Bool-cases (leb person_a.created_at person_b.created_at)) [
      | inl e ↦
          let before : Before person_a person_b = ground arith in
          let apart : a ≢ b = omega arith in
          rw e (
            from_safely now a b people _ h (
              merge_persons-safely now a b people person_a person_b found_a found_b apart before
                h.superseding))
      | inr e ↦
          let before : Before person_b person_a = ground arith in
          let apart : b ≢ a = omega arith in
          rw e (
            from_safely now b a people _ h (
              merge_persons-safely now b a people person_b person_a found_b found_a apart before
                h.superseding))
    ]

counted-IsSafe : (p : Progress) (r : Attempt People) → MergedSound r → IsSafe (counted_merge p r)
counted-IsSafe p (returned people) h = h
counted-IsSafe p (threw failure) h = inl h

act_on-IsSafe :
    (now a b : ℕ) (person_a person_b : Person) (verdict : ℕ × List String) (p : Progress)
    → person p.people.persons a ≡ some person_a
    → person p.people.persons b ≡ some person_b
    → a < b
    → IsSound p.people
    → IsSafe (act_on now person_a person_b a b verdict p)
unfolding act_on
act_on-IsSafe now a b person_a person_b verdict p found_a found_b lt h =
    elim (Bool-cases (should_auto_merge verdict.0)) [
      | inl e ↦ rw e (
          counted-IsSafe p _
            (merge_ordered now a b p.people person_a person_b found_a found_b lt h))
      | inr e ↦ elim (Bool-cases (leb half verdict.0)) [
        | inl g ↦ rw (e, g) (flag_unless-IsSafe _ a b verdict.0 verdict.1 p refl lt h)
        | inr g ↦ rw (e, g) h
      ]
    ]

and_then-IsSafe :
    (r : Attempt Progress) (next : Progress → Attempt Progress)
    → IsSafe r
    → ((q : Progress) → IsSound q.people → IsSafe (next q))
    → IsSafe (and_then r next)
and_then-IsSafe (returned q) next h k = k q h
and_then-IsSafe (threw failure) next h k = h

after-IsSafe :
    {A : Type 0} (r : Attempt A) (next : A → Attempt Progress)
    → IsUrlError r
    → ((a : A) → IsSafe (next a))
    → IsSafe (and_then r next)
after-IsSafe (returned a) next h k = k a
after-IsSafe (threw failure) next h k = inr h

left-false : (a b : Bool) → (a || b) ≡ false → a ≡ false
left-false false b e = refl
left-false true b e = cc e

sorted_pair-IsSorted : (a b : ℕ) → (a == b) ≡ false → (sorted_pair a b).0 < (sorted_pair a b).1
sorted_pair-IsSorted a b e = ground arith

lt_same : (x y : ℕ × ℕ) → same_pair x y ≡ true → y.0 < y.1 → x.0 < x.1
lt_same (a, b) (c, d) e h = ground arith

module _ (texts : Texts) (now : ℕ) where
  judge-IsSafe :
      (found_a found_b : Option Person) (a b : ℕ) (p : Progress)
      → person p.people.persons a ≡ found_a
      → person p.people.persons b ≡ found_b
      → a < b
      → IsSound p.people
      → IsSafe (judge texts now found_a found_b a b p)
  unfolding judge
  judge-IsSafe none found_b a b p e g lt h = h
  judge-IsSafe (some person_a) none a b p e g lt h = h
  judge-IsSafe (some person_a) (some person_b) a b p e g lt h =
      elim (Bool-cases (not person_a.canonical || not person_b.canonical)) [
        | inl t ↦ rw t h
        | inr t ↦ rw t (
            after-IsSafe _ _ (match_confidence-IsUrlError texts _ _)
              (λ verdict. act_on-IsSafe now a b person_a person_b verdict p e g lt h))
      ]

  evaluate_pairs-IsSafe :
      (pairs : List (ℕ × ℕ)) (p : Progress)
      → All (λ (x : ℕ × ℕ). x.0 < x.1) pairs
      → IsSound p.people
      → IsSafe (evaluate_pairs texts now pairs p)
  unfolding evaluate_pairs evaluate_pair
  evaluate_pairs-IsSafe [] p lt h = h
  evaluate_pairs-IsSafe ((a, b) ∷ rest) p lt h =
      and_then-IsSafe (evaluate_pair texts now (a, b) p) _
        (judge-IsSafe _ _ a b (record p { pairs_evaluated = p.pairs_evaluated + 1 }) refl refl lt.0
          h)
        (λ q k. evaluate_pairs-IsSafe rest q lt.1 k)

-- the pairs are pairs of a smaller and a larger id
abbrev IsSorted : ℕ × ℕ → Type 0
IsSorted x = x.0 < x.1

add_pair-IsSorted :
    (a b : ℕ) (pairs : List (ℕ × ℕ)) → All IsSorted pairs → All IsSorted (add_pair a b pairs)
add_pair-IsSorted a b pairs h =
    elim (Bool-cases (a == b || any (same_pair (sorted_pair a b)) pairs)) [
      | inl e ↦ rw e h
      | inr e ↦
          rw e (All-append IsSorted pairs _ h (sorted_pair-IsSorted a b (left-false _ _ e), tt))
    ]

pairs_with-IsSorted :
    (a : ℕ) (ids : List ℕ) (pairs : List (ℕ × ℕ))
    → All IsSorted pairs
    → All IsSorted (pairs_with a ids pairs)
pairs_with-IsSorted a [] pairs h = h
pairs_with-IsSorted a (b ∷ ids) pairs h =
    pairs_with-IsSorted a ids (add_pair a b pairs) (add_pair-IsSorted a b pairs h)

pairs_in-IsSorted :
    (ids : List ℕ) (pairs : List (ℕ × ℕ)) → All IsSorted pairs → All IsSorted (pairs_in ids pairs)
pairs_in-IsSorted [] pairs h = h
pairs_in-IsSorted (a ∷ ids) pairs h =
    pairs_in-IsSorted ids (pairs_with a ids pairs) (pairs_with-IsSorted a ids pairs h)

candidate_pairs-IsSorted :
    (blocks : Blocks) (pairs : List (ℕ × ℕ))
    → All IsSorted pairs
    → All IsSorted (candidate_pairs blocks pairs)
unfolding candidate_pairs
candidate_pairs-IsSorted [] pairs h = h
candidate_pairs-IsSorted ((key, ids) ∷ rest) pairs h =
    candidate_pairs-IsSorted rest (pairs_in ids pairs) (pairs_in-IsSorted ids pairs h)

member-IsSorted :
    (pairs : List (ℕ × ℕ)) (x : ℕ × ℕ)
    → All IsSorted pairs
    → any (same_pair x) pairs ≡ true
    → IsSorted x
member-IsSorted [] x h e = cc e
member-IsSorted ((a, b) ∷ pairs) x h e = elim (Bool-cases (same_pair x (a, b))) [
  | inl t ↦ lt_same x (a, b) t h.0
  | inr t ↦ member-IsSorted pairs x h.1 (rw t at e)
]

-- A run of the identity resolution on sound tables, whatever the order in which the set of pairs is
-- walked, ends with sound tables: an id of a superseded person leads to a person that was created
-- earlier, or at once with a smaller id; a match names the smaller id first; and two persons have at
-- most one pending match. The only exceptions it can raise are the IntegrityError of two founders of
-- one deal and the ValueError of an address that `urlparse` refuses.
pub resolve_identities-IsSafe :
    (texts : Texts) (now : ℕ) (order : List (ℕ × ℕ) → List (ℕ × ℕ))
    → ((pairs : List (ℕ × ℕ)) → All (λ x. any (same_pair x) pairs ≡ true) (order pairs))
    → (people : People) → IsSound people
    → IsSafe (resolve_identities texts now order people)
unfolding resolve_identities
resolve_identities-IsSafe texts now order walks people h =
    elim (Bool-cases (ltb (length (keep (λ (p : Person). p.canonical) people.persons)) 2)) [
      | inl e ↦ rw (resolve_identities, e) h
      | inr e ↦
          let canonicals = keep (λ (p : Person). p.canonical) people.persons in
          rw (resolve_identities, e)
            (after-IsSafe _ _ (blocks_of-IsUrlError texts people canonicals []) (λ blocks.
              evaluate_pairs-IsSafe texts now _ _
                (All-map (λ x. any (same_pair x) _ ≡ true) IsSorted
                  (λ x. member-IsSorted _ x (candidate_pairs-IsSorted blocks [] tt)) _ (walks _))
                h))
    ]
