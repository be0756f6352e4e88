-- ===== src/Identity/Supersession.antt =====
-- The supersession of persons in backend/app/identity: who points to whom, and that no chain of
-- pointers comes back.
use the_vc_brain.Prelude.{
  ℕ, ◌<◌, ◌≡◌, ◌≢◌, ◌⊎◌, inl, inr, refl, true, false, Option, none, some, List, ◌==◌, Bool-cases,
  ==_refl, ==_iff, sym, ◌∙◌, ap, subst, arith,
}
use the_vc_brain.Models.{Person}
use the_vc_brain.Identity.{
  People, duplicate_founder, Attempt, returned, threw, person, enriched, superseded, merged,
  merged_rows, merge_persons,
}
use the_vc_brain.Identity.Merged.{
  HowMerged, missing, already, clashes, done, merge_persons-HowMerged,
}
use the_vc_brain.Identity.Handles.{found-id, merged_person, merged_rows-person}

-- created earlier, or at once with a smaller id
abbrev pub Before : Person → Person → Type 0
Before p q = (p.created_at < q.created_at) ⊎ ((p.created_at ≡ q.created_at) × (p.id < q.id))

-- A person is canonical and points to none, or is not and points to a person before it.
abbrev pub Standing : List Person → Option Person → Type 0
Standing persons none = Unit
Standing persons (some p) =
    ((p.canonical ≡ true) × (p.superseded_by_id ≡ none))
    ⊎ ((p.canonical ≡ false)
        × ((q : Person) × (p.superseded_by_id ≡ some q.id)
            × (person persons q.id ≡ some q)
            × Before q p))

abbrev pub IsSuperseding : List Person → Type 0
IsSuperseding persons = (i : ℕ) → Standing persons (person persons i)

-- the chain of pointers from one person to another
pub data Chain (persons : List Person) (i : ℕ) : ℕ → Type 0 where
  link :
      (j : ℕ) (p : Person)
      → person persons i ≡ some p
      → p.superseded_by_id ≡ some j
      → Chain persons i j
  more :
      (j k : ℕ) (p : Person)
      → Chain persons i j
      → person persons j ≡ some p
      → p.superseded_by_id ≡ some k
      → Chain persons i k

-- a pointer leads to a person before
pointer-Before :
    (persons : List Person)
    → IsSuperseding persons
    → (i j : ℕ) (p : Person) → person persons i ≡ some p
    → p.superseded_by_id ≡ some j
    → (q : Person) × (person persons j ≡ some q) × Before q p
pointer-Before persons h i j p found e = elim (subst (λ x. Standing persons x) found (h i)) [
  | inl (k, s) ↦ cc (s, e)
  | inr (k, (q, s, found_q, b)) ↦
      let at : q.id ≡ j = cc (s, e) in (q, subst (λ x. person persons x ≡ some q) at found_q, b)
]

Before-trans : (p q r : Person) → Before p q → Before q r → Before p r
Before-trans p q r h k = ground arith

Before-irrefl : (p : Person) → ¬ Before p p
Before-irrefl p h = ground arith

Chain-Before :
    (persons : List Person)
    → IsSuperseding persons
    → (i j : ℕ) (p : Person) → person persons i ≡ some p
    → Chain persons i j
    → (q : Person) × (person persons j ≡ some q) × Before q p
Chain-Before persons h i j p found (link m r found_r e) =
    let same : r ≡ p = cc (found, found_r) in
    pointer-Before persons h i j p found
      (subst (λ (x : Person). x.superseded_by_id ≡ some j) same e)
Chain-Before persons h i k p found (more m n r c found_r e) =
    let (q, found_q, b) = Chain-Before persons h i m p found c in
    let same : r ≡ q = cc (found_q, found_r) in
    let (s, found_s, b2) =
      pointer-Before persons h m k q found_q
        (subst (λ (x : Person). x.superseded_by_id ≡ some k) same e) in
    (s, found_s, Before-trans s q p b2 b)

Chain-start :
    (persons : List Person) (i j : ℕ)
    → Chain persons i j
    → (p : Person) × (person persons i ≡ some p)
Chain-start persons i j (link m p found e) = (p, found)
Chain-start persons i j (more m n p c found e) = Chain-start persons i m c

pub Chain-acyclic : (persons : List Person) → IsSuperseding persons → (i : ℕ) → ¬ Chain persons i i
Chain-acyclic persons h i c =
    let (p, found) = Chain-start persons i i c in
    let (q, found_q, b) = Chain-Before persons h i i p found c in
    let same : q ≡ p = cc (found, found_q) in Before-irrefl p (subst (λ x. Before x p) same b)

module _ (now canonical_id duplicate_id : ℕ) where
  -- the pointer of an unchanged person leads to a row that kept its id and its moment
  carried :
      (people next : List Person) (c d : Person)
      → ((i : ℕ)
          → person next i ≡ merged_person now canonical_id duplicate_id d i (person people i))
      → (p p2 : Person) → p2.canonical ≡ p.canonical
      → p2.superseded_by_id ≡ p.superseded_by_id
      → p2.created_at ≡ p.created_at
      → p2.id ≡ p.id
      → Standing people (some p)
      → Standing next (some p2)
  carried people next c d rows p p2 e1 e2 e3 e4 (inl (k, s)) = inl (e1 ∙ k, e2 ∙ s)
  carried people next c d rows p p2 e1 e2 e3 e4 (inr (k, (q, s, found, b))) =
      let before : Before q p2 = ground arith in
      inr (
        e1 ∙ k,
        elim (Bool-cases (q.id == duplicate_id)) [
          | inl t ↦ (superseded now canonical_id q, e2 ∙ s, rw (rows q.id, found, t), before)
          | inr t ↦ elim (Bool-cases (q.id == canonical_id)) [
            | inl u ↦ (enriched q d, e2 ∙ s, rw (rows q.id, found, t, u), before)
            | inr u ↦ (q, e2 ∙ s, rw (rows q.id, found, t, u), before)
          ]
        ],
      )

  Standing-after :
      (people next : List Person) (c d : Person)
      → ((i : ℕ)
          → person next i ≡ merged_person now canonical_id duplicate_id d i (person people i))
      → person people canonical_id ≡ some c
      → person people duplicate_id ≡ some d
      → canonical_id ≢ duplicate_id
      → Before c d
      → (i : ℕ) (found : Option Person) → person people i ≡ found
      → Standing people found
      → Standing next (merged_person now canonical_id duplicate_id d i found)
  Standing-after people next c d rows found_c found_d apart b i none e s = tt
  Standing-after people next c d rows found_c found_d apart b i (some p) e s =
      elim (Bool-cases (i == duplicate_id)) [
        | inl t ↦
            let at : i ≡ duplicate_id = (==_iff i duplicate_id).0 t in
            let same : d ≡ p = cc (at, e, found_d) in
            let c_id : c.id ≡ canonical_id = found-id people canonical_id found_c in
            let c_d : (canonical_id == duplicate_id) ≡ false = ground arith in
            let at_c : person next canonical_id ≡ some (enriched c d) =
              rw (rows canonical_id, found_c, c_d, ==_refl canonical_id) in
            let after : Before c p = subst (λ x. Before c x) same b in
            rw t (
              inr (
                refl,
                (
                  enriched c d,
                  ap some (sym c_id),
                  subst (λ j. person next j ≡ some (enriched c d)) (sym c_id) at_c,
                  after,
                ),
              ))
        | inr t ↦ elim (Bool-cases (i == canonical_id)) [
          | inl u ↦ rw (t, u) (carried people next c d rows p (enriched p d) refl refl refl refl s)
          | inr u ↦ rw (t, u) (carried people next c d rows p p refl refl refl refl s)
        ]
      ]

  merged-IsSuperseding :
      (people : List Person) (c d : Person)
      → person people canonical_id ≡ some c
      → person people duplicate_id ≡ some d
      → canonical_id ≢ duplicate_id
      → Before c d
      → IsSuperseding people
      → IsSuperseding (merged_rows now canonical_id duplicate_id d people)
  merged-IsSuperseding people c d found_c found_d apart b h i =
      let rows = merged_rows-person now canonical_id duplicate_id apart d people in
      subst (λ x. Standing (merged_rows now canonical_id duplicate_id d people) x) (sym (rows i))
        (Standing-after people _ c d rows found_c found_d apart b i (person people i) refl (h i))

  -- what a merge of a person into one before it may do
  abbrev pub MergesSafely : People → Attempt People → Type 0
  MergesSafely people (returned next) = IsSuperseding next.persons × (next.matches ≡ people.matches)
  MergesSafely people (threw failure) = failure ≡ duplicate_founder

  merge_safely :
      (people : People) (c d : Person) (r : Attempt People)
      → HowMerged now people canonical_id duplicate_id r
      → person people.persons canonical_id ≡ some c
      → person people.persons duplicate_id ≡ some d
      → canonical_id ≢ duplicate_id
      → Before c d
      → IsSuperseding people.persons
      → MergesSafely people r
  unfolding merged
  merge_safely people c d r (missing (inl h)) found_c found_d apart b s = cc (h, found_c)
  merge_safely people c d r (missing (inr h)) found_c found_d apart b s = cc (h, found_d)
  merge_safely people c d r (already c2 d2 g k h) found_c found_d apart b s = (s, refl)
  merge_safely people c d r (clashes c2 d2 g k h keys) found_c found_d apart b s = refl
  merge_safely people c d r (done c2 d2 g k h keys) found_c found_d apart b s =
      let same : d2 ≡ d = cc (k, found_d) in
      (
        subst (λ x. IsSuperseding (merged_rows now canonical_id duplicate_id x people.persons))
            (sym same) (merged-IsSuperseding people.persons c d found_c found_d apart b s),
        refl,
      )

  pub merge_persons-safely :
      (people : People) (c d : Person)
      → person people.persons canonical_id ≡ some c
      → person people.persons duplicate_id ≡ some d
      → canonical_id ≢ duplicate_id
      → Before c d
      → IsSuperseding people.persons
      → MergesSafely people (merge_persons now people canonical_id duplicate_id)
  merge_persons-safely people c d found_c found_d apart b s =
      merge_safely people c d _ (merge_persons-HowMerged now people canonical_id duplicate_id)
        found_c found_d apart b s
