-- ===== src/Identity/Handles.antt =====
-- The rows of the two persons after `merge_persons` of backend/app/identity/merge.py.
use the_vc_brain.Prelude.{
  ℕ, ◌≡◌, ◌≢◌, ◌⊎◌, inl, inr, refl, Bool, true, false, Option, none, some, List, [], ◌∷◌, ◌++◌,
  ◌==◌, String, str_eq, eq_iff, if◌then◌else◌, Bool-cases, ==_refl, ==_iff, sym, ◌∙◌, ap, subst,
  arith, is_some,
}
use the_vc_brain.Models.{Person}
use the_vc_brain.Identity.{
  People, Attempt, returned, person, handles_of, has_source, merge_handles, enriched, superseded,
  merged_rows, merged, merge_persons,
}
use the_vc_brain.Identity.Merged.{
  HowMerged, missing, already, clashes, done, merge_persons-HowMerged, is_canonical,
}

pub found-id : (persons : List Person) (i : ℕ) {p : Person} → person persons i ≡ some p → p.id ≡ i
found-id (q ∷ persons) i {p} e = elim (Bool-cases (q.id == i)) [
  | inl t ↦ let same : q ≡ p = cc (rw t at e) in rw (sym same) ((==_iff q.id i).0 t)
  | inr t ↦ found-id persons i (rw t at e)
]
found-id [] i e = cc e

-- `handles.get(source)`
abbrev pub lookup : String → List (String × String) → Option String
lookup source [] = none
lookup source ((key, handle) ∷ rest) = if str_eq key source then some handle else lookup source rest

abbrev pub first_of : Option String → Option String → Option String
first_of none b = b
first_of (some a) b = some a

lookup-append :
    (source key handle : String) (xs : List (String × String))
    → lookup source (xs ++ (key, handle) ∷ [])
      ≡ first_of (lookup source xs) (if str_eq key source then some handle else none)
lookup-append source key handle [] = refl
lookup-append source key handle ((k, h) ∷ xs) = elim (Bool-cases (str_eq k source)) [
  | inl e ↦ rw e
  | inr e ↦ rw e (lookup-append source key handle xs)
]

lookup-has_source :
    (source : String) (xs : List (String × String))
    → is_some (lookup source xs) ≡ has_source source xs
lookup-has_source source [] = refl
lookup-has_source source ((k, h) ∷ xs) = elim (Bool-cases (str_eq k source)) [
  | inl e ↦ rw e
  | inr e ↦ rw e (lookup-has_source source xs)
]

first_of_assoc : (a b c : Option String) → first_of (first_of a b) c ≡ first_of a (first_of b c)
first_of_assoc none b c = refl
first_of_assoc (some a) b c = refl

first_of-is_some : (a b c : Option String) → is_some a ≡ true → first_of a b ≡ first_of a c
first_of-is_some (some a) b c e = refl
first_of-is_some none b c e = cc e

first_of-none : (a : Option String) → first_of a none ≡ a
first_of-none none = refl
first_of-none (some a) = refl

first_of-if :
    (test : Bool) (a : String) (c : Option String)
    → first_of (if test then some a else none) c ≡ (if test then some a else c)
first_of-if true a c = refl
first_of-if false a c = refl

merge_handles-lookup :
    (source : String) (mine theirs : List (String × String))
    → lookup source (merge_handles mine theirs)
      ≡ first_of (lookup source mine) (lookup source theirs)
unfolding merge_handles
merge_handles-lookup source mine [] = sym (first_of-none _)
merge_handles-lookup source mine ((key, handle) ∷ rest) = elim (Bool-cases (has_source key mine)) [
  | inl h ↦ elim (Bool-cases (str_eq key source)) [
    | inl e ↦
        let same : key ≡ source = (eq_iff key source).0 e in
        let there : is_some (lookup source mine) ≡ true =
          lookup-has_source source mine ∙ subst (λ k. has_source k mine ≡ true) same h in
        rw (h, e) (merge_handles-lookup source mine rest ∙ first_of-is_some _ _ _ there)
    | inr e ↦ rw (h, e) (merge_handles-lookup source mine rest)
  ]
  | inr h ↦ rw h (
      merge_handles-lookup source (mine ++ (key, handle) ∷ []) rest
      ∙ ap (λ x. first_of x (lookup source rest)) (lookup-append source key handle mine)
      ∙ first_of_assoc (lookup source mine) _ _
      ∙ ap (first_of (lookup source mine)) (first_of-if (str_eq key source) handle _))
]

-- the row of an id after both updates
abbrev pub merged_person : ℕ → ℕ → ℕ → Person → ℕ → Option Person → Option Person
merged_person now canonical_id duplicate_id duplicate i none = none
merged_person now canonical_id duplicate_id duplicate i (some p) =
    if i == duplicate_id
    then some (superseded now canonical_id p)
    else if i == canonical_id
    then some (enriched p duplicate)
    else some p

module _ (now canonical_id duplicate_id : ℕ) (apart : canonical_id ≢ duplicate_id) where
  pub merged_rows-person :
      (duplicate : Person) (persons : List Person) (i : ℕ)
      → person (merged_rows now canonical_id duplicate_id duplicate persons) i
        ≡ merged_person now canonical_id duplicate_id duplicate i (person persons i)
  merged_rows-person duplicate [] i = refl
  merged_rows-person duplicate (q ∷ persons) i =
      let later = merged_rows-person duplicate persons i in
      elim (Bool-cases (q.id == canonical_id)) [
        | inl c ↦
            let d : (q.id == duplicate_id) ≡ false = ground arith in
            elim (Bool-cases (q.id == i)) [
              | inl h ↦
                  let i_c : (i == canonical_id) ≡ true = ground arith in
                  let i_d : (i == duplicate_id) ≡ false = ground arith in rw (c, d, h, i_d, i_c)
              | inr h ↦ rw (c, d, h) later
            ]
        | inr c ↦ elim (Bool-cases (q.id == duplicate_id)) [
          | inl d ↦ elim (Bool-cases (q.id == i)) [
            | inl h ↦ let i_d : (i == duplicate_id) ≡ true = ground arith in rw (c, d, h, i_d)
            | inr h ↦ rw (c, d, h) later
          ]
          | inr d ↦ elim (Bool-cases (q.id == i)) [
            | inl h ↦
                let i_c : (i == canonical_id) ≡ false = ground arith in
                let i_d : (i == duplicate_id) ≡ false = ground arith in rw (c, d, h, i_d, i_c)
            | inr h ↦ rw (c, d, h) later
          ]
        ]
      ]

  persons_after :
      (people next : People) (r : Attempt People)
      → HowMerged now people canonical_id duplicate_id r
      → is_canonical (person people.persons duplicate_id) ≡ true
      → r ≡ returned next
      → (c : Person) × (d : Person) × (person people.persons canonical_id ≡ some c)
        × (person people.persons duplicate_id ≡ some d)
        × ((i : ℕ)
            → person next.persons i
              ≡ merged_person now canonical_id duplicate_id d i (person people.persons i))
  unfolding merged
  persons_after people next r (missing h) k e = cc e
  persons_after people next r (already c d found_c found_d h) k e = cc (k, found_d, h)
  persons_after people next r (clashes c d found_c found_d h keys) k e = cc e
  persons_after people next r (done c d found_c found_d h keys) k e =
      let same : merged now people canonical_id duplicate_id d ≡ next = cc e in
      (
        c,
        d,
        found_c,
        found_d,
        λ i.
            subst
              (λ (x : People).
                person x.persons i
                ≡ merged_person now canonical_id duplicate_id d i (person people.persons i))
              same (merged_rows-person d people.persons i),
      )

  -- the stored handle of a person
  abbrev pub handle_of : String → Option Person → Option String
  handle_of source none = none
  handle_of source (some p) = lookup source (handles_of p.handles)

  pub record IsMerged (people next : People) : Type 0 where
    pub handles :
        (source : String)
        → handle_of source (person next.persons canonical_id)
          ≡ first_of
              (handle_of source (person people.persons canonical_id))
              (handle_of source (person people.persons duplicate_id))
    pub kept :
        (d : Person) × (person people.persons duplicate_id ≡ some d)
        × (person next.persons duplicate_id
            ≡ some (record d {
              canonical = false;
              superseded_by_id = some canonical_id;
              merged_at = some now;
            }))
    pub others :
        (i : ℕ)
        → (i ≡ canonical_id)
          ⊎ (i ≡ duplicate_id)
          ⊎ (person next.persons i ≡ person people.persons i)

  untouched :
      (duplicate : Person) (i : ℕ) (found : Option Person)
      → (i ≡ canonical_id)
        ⊎ (i ≡ duplicate_id)
        ⊎ (merged_person now canonical_id duplicate_id duplicate i found ≡ found)
  untouched duplicate i none = inr (inr refl)
  untouched duplicate i (some p) = elim (Bool-cases (i == duplicate_id)) [
    | inl d ↦ inr (inl ((==_iff i duplicate_id).0 d))
    | inr d ↦ elim (Bool-cases (i == canonical_id)) [
      | inl c ↦ inl ((==_iff i canonical_id).0 c)
      | inr c ↦ inr (inr (rw (d, c)))
    ]
  ]

  -- A merge of two different persons whose duplicate is still canonical, when it returns: the
  -- canonical person has, for every source, the handle that it had, and where it had none, the
  -- duplicate's; the duplicate's row is kept, superseded by the canonical person and stamped with the
  -- clock; the row of every other person is as it was.
  pub merge_persons-IsMerged :
      (people next : People)
      → is_canonical (person people.persons duplicate_id) ≡ true
      → merge_persons now people canonical_id duplicate_id ≡ returned next
      → IsMerged people next
  merge_persons-IsMerged people next k e =
      let (c, d, found_c, found_d, rows) =
        persons_after people next _ (merge_persons-HowMerged now people canonical_id duplicate_id) k
          e in
      let c_d : (canonical_id == duplicate_id) ≡ false = ground arith in
      record {
        handles = λ source.
            rw (rows canonical_id, found_c, found_d, c_d, ==_refl canonical_id)
              (merge_handles-lookup source (handles_of c.handles) (handles_of d.handles));
        kept = (d, found_d, rw (rows duplicate_id, found_d, ==_refl duplicate_id));
        others = λ i. rw (rows i) (untouched d i (person people.persons i));
      }
