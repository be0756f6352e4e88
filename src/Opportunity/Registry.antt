-- ===== src/Opportunity/Registry.antt =====
-- Finding or creating a deal in backend/app/opportunity_service.py makes no second row for what it
-- can find.
use the_vc_brain.Prelude.{
  ℕ, ◌<◌, ◌≤◌, ◌≡◌, refl, ◌⊎◌, inl, inr, Bool, true, false, Option, none, some, List, [], ◌∷◌, ◌++◌,
  String, str_eq, ◌==◌, ==_refl, ==_iff, ◌&&◌, ◌||◌, any, keep, find, All, arith, Bool-cases,
  Option-cases, ◌∙◌, ap, eq_refl,
}
use the_vc_brain.Models.{Opportunity, Founder, Organization, Person, Store}
use the_vc_brain.Opportunity.{record_channel_touch}
use the_vc_brain.Opportunity.Create.{
  is_founder, newest, latest_opportunity, Request, touch_if, found_or_new, existing_or_new,
  get_or_create_organization, add_opportunity, get_or_create_opportunity, resolved_name,
}

any-append {ℓ} :
    {A : Type ℓ} (p : A → Bool) (xs ys : List A) → any p xs ≡ false → any p (xs ++ ys) ≡ any p ys
any-append p [] ys h = refl
any-append p (x ∷ xs) ys h = ground (arith, any-append p xs ys)

find-append {ℓ} :
    {A : Type ℓ} (p : A → Bool) (xs : List A) (x : A)
    → find p xs ≡ none
    → p x ≡ true
    → find p (xs ++ x ∷ []) ≡ some x
find-append p [] x h px = rw px
find-append p (y ∷ xs) x h px = elim (Bool-cases (p y)) [
  | inl e ↦ absurd (found (rw e at h))
  | inr e ↦ rw e (find-append p xs x (rw e at h) px)
]
  where
    found : some y ≡ none → ⊥
    found q = cc q

-- Every row has an id below the next one, as a new row's id is new.
abbrev pub IsFresh : Store → Type 0
IsFresh store = All (λ (o : Opportunity). o.id < store.next_id) store.opportunities

touch_if-rows :
    (now : ℕ) (store : Store) (id : ℕ) (channel : Option String) (kind : String)
    (query ref : Option String)
    → ((touch_if now store id channel kind query ref).opportunities ≡ store.opportunities)
      × ((touch_if now store id channel kind query ref).founders ≡ store.founders)
unfolding record_channel_touch
touch_if-rows now store id none kind query ref = (refl, refl)
touch_if-rows now store id (some channel) kind query ref = (refl, refl)

newest-none : (prefers : ℕ → ℕ → Bool) (os : List Opportunity) → newest prefers os ≡ none → os ≡ []
unfolding newest
newest-none prefers [] h = refl
newest-none prefers (o ∷ os) h = cc h

is_founder-append :
    (person id new : ℕ) (fs : List Founder)
    → id < new
    → is_founder person id
        (fs ++ record { opportunity_id = new; person_id = person; role = "founder" } ∷ [])
      ≡ is_founder person id fs
is_founder-append person id new [] h = ground (arith, ==_iff new id)
is_founder-append person id new (f ∷ fs) h =
    ap (λ b. (f.person_id == person && f.opportunity_id == id) || b)
      (is_founder-append person id new fs h)

is_founder_new :
    (person id : ℕ) (fs : List Founder)
    → is_founder person id
        (fs ++ record { opportunity_id = id; person_id = person; role = "founder" } ∷ [])
      ≡ true
is_founder_new person id [] = rw (==_refl person, ==_refl id)
is_founder_new person id (f ∷ fs) = ground (arith, is_founder_new person id fs)

-- A new deal is the only one of a person who had none.
kept_new :
    (person n : ℕ) (os : List Opportunity) (fs : List Founder) (o : Opportunity)
    → o.id ≡ n
    → All (λ (r : Opportunity). r.id < n) os
    → keep (λ (r : Opportunity). is_founder person r.id fs) os ≡ []
    → keep
        (λ (r : Opportunity).
          is_founder person r.id
            (fs ++ record { opportunity_id = n; person_id = person; role = "founder" } ∷ []))
        (os ++ o ∷ [])
      ≡ o ∷ []
kept_new person n [] fs o e below h = rw (e, is_founder_new person n fs)
kept_new person n (r ∷ os) fs o e below h = elim (Bool-cases (is_founder person r.id fs)) [
  | inl k ↦ absurd (not_empty (rw k at h))
  | inr k ↦
      rw (is_founder-append person r.id n fs below.0, k)
        (kept_new person n os fs o e below.1 (rw k at h))
]
  where
    not_empty : r ∷ keep (λ (r : Opportunity). is_founder person r.id fs) os ≡ [] → ⊥
    not_empty q = cc q

All-weaken :
    (os : List Opportunity) (m n : ℕ)
    → m ≤ n
    → All (λ (r : Opportunity). r.id < m) os
    → All (λ (r : Opportunity). r.id < n) os
All-weaken [] m n h a = tt
All-weaken (o ∷ os) m n h a = (omega (arith, a.0), All-weaken os m n h a.1)

latest-rows :
    (prefers : ℕ → ℕ → Bool) (s t : Store) (person : ℕ)
    → s.opportunities ≡ t.opportunities
    → s.founders ≡ t.founders
    → latest_opportunity prefers s person ≡ latest_opportunity prefers t person
unfolding latest_opportunity
latest-rows prefers s t person eo ef = rw (eo, ef)

module _ (organization_stable_id : String → String) (strip : String → String)
    (prefers : ℕ → ℕ → Bool) where
  organization-rows :
      (store : Store) (name : String)
      → let s = (get_or_create_organization organization_stable_id strip prefers store name).1 in
        (s.opportunities ≡ store.opportunities)
        × (s.founders ≡ store.founders)
        × (store.next_id ≤ s.next_id)
  unfolding get_or_create_organization
  organization-rows store name = split (Option-cases (find _ store.organizations))
    where
      split :
          (find
                (λ (g : Organization). str_eq g.stable_id (organization_stable_id name))
                store.organizations
              ≡ none)
            ⊎ ((g : Organization) × (find
                    (λ (g : Organization). str_eq g.stable_id (organization_stable_id name))
                    store.organizations
                  ≡ some g))
          → let s =
              (get_or_create_organization organization_stable_id strip prefers store name).1 in
            (s.opportunities ≡ store.opportunities)
            × (s.founders ≡ store.founders)
            × (store.next_id ≤ s.next_id)
      split (inl e) = rw e (refl, refl, omega arith)
      split (inr (g, e)) = rw e (refl, refl, omega arith)

  -- Two calls with company names of one key answer the same organisation, and the second one changes
  -- nothing.
  get_or_create_organization-once :
      (store : Store) (name again : String)
      → organization_stable_id again ≡ organization_stable_id name
      → let first = get_or_create_organization organization_stable_id strip prefers store name in
        get_or_create_organization organization_stable_id strip prefers first.1 again ≡ first
  unfolding get_or_create_organization
  get_or_create_organization-once store name again same =
      rw same (split (Option-cases (find key store.organizations)))
    where
      key : Organization → Bool
      key g = str_eq g.stable_id (organization_stable_id name)

      added : Organization
      added = record {
        id = store.next_id;
        stable_id = organization_stable_id name;
        name = strip name;
        org_type = "company";
      }

      split :
          (find key store.organizations ≡ none)
            ⊎ ((g : Organization) × (find key store.organizations ≡ some g))
          → let first =
              existing_or_new organization_stable_id strip prefers name store
                (find key store.organizations) in
            existing_or_new organization_stable_id strip prefers again first.1
              (find key first.1.organizations)
            ≡ first
      split (inl e) =
          rw e (
            rw
              (find-append key store.organizations added e (eq_refl (organization_stable_id name))))
      split (inr (g, e)) = rw e (rw e)

  -- What a call answers is the person's latest deal in the store that it leaves.
  latest_after :
      (now : ℕ) (store : Store) (person : Person) (q : Request)
      → IsFresh store
      → let (o, s) =
          get_or_create_opportunity organization_stable_id strip prefers now store person q in
        latest_opportunity prefers s person.id ≡ some o
  unfolding get_or_create_opportunity
  latest_after now store person q fresh =
      split (Option-cases (latest_opportunity prefers store person.id))
    where
      name : String
      name = resolved_name q.company_name person

      added : Opportunity × Store
      added =
          add_opportunity organization_stable_id strip prefers now store person name q.source_kind
            q.lifecycle_state none

      touched : Store → ℕ → Store
      touched s id = touch_if now s id q.channel q.touch_type q.source_query q.source_ref

      same :
          (s : Store) (id : ℕ)
          → latest_opportunity prefers (touched s id) person.id
            ≡ latest_opportunity prefers s person.id
      same s id =
          let (eo, ef) =
            touch_if-rows now s id q.channel q.touch_type q.source_query q.source_ref in
          latest-rows prefers (touched s id) s person.id eo ef

      empty_before :
          latest_opportunity prefers store person.id ≡ none
          → keep (λ (r : Opportunity). is_founder person.id r.id store.founders) store.opportunities
            ≡ []
      empty_before e = newest-none prefers _ (unfold latest_opportunity in e)

      latest_added :
          latest_opportunity prefers store person.id ≡ none
          → latest_opportunity prefers added.1 person.id ≡ some added.0
      latest_added e =
          unfold latest_opportunity newest add_opportunity in
          (let (eo, ef, le) = organization-rows store name in
            rw (
              eo,
              ef,
              kept_new person.id _ store.opportunities store.founders added.0 refl
                  (All-weaken store.opportunities _ _ le fresh) (empty_before e),
            ))

      split :
          (latest_opportunity prefers store person.id ≡ none)
            ⊎ ((o : Opportunity) × (latest_opportunity prefers store person.id ≡ some o))
          → let (o, s) =
              found_or_new organization_stable_id strip prefers now store person q
                (latest_opportunity prefers store person.id) in
            latest_opportunity prefers s person.id ≡ some o
      split (inl e) = rw e (same added.1 added.0.id ∙ latest_added e)
      split (inr (o, e)) = rw e (same store o.id ∙ e)

  -- A person has one deal however often it is looked up, and whichever of two equally new deals the
  -- database prefers: in a store whose ids are below the next one,
  -- after one call a second call for the person, whatever it asks for, answers the same deal and adds
  -- neither a deal nor a founder.
  pub get_or_create_opportunity-once :
      (now later : ℕ) (store : Store) (person : Person) (q again : Request)
      → IsFresh store
      → let (o, s) =
          get_or_create_opportunity organization_stable_id strip prefers now store person q in
        let (o', s') =
          get_or_create_opportunity organization_stable_id strip prefers later s person again in
        (o' ≡ o) × (s'.opportunities ≡ s.opportunities) × (s'.founders ≡ s.founders)
  get_or_create_opportunity-once now later store person q again fresh =
      second (get_or_create_opportunity organization_stable_id strip prefers now store person q)
        (latest_after now store person q fresh)
    where
      second :
          (first : Opportunity × Store)
          → latest_opportunity prefers first.1 person.id ≡ some first.0
          → let (o', s') =
              get_or_create_opportunity organization_stable_id strip prefers later first.1 person
                again in
            (o' ≡ first.0)
            × (s'.opportunities ≡ first.1.opportunities)
            × (s'.founders ≡ first.1.founders)
      second (o, s) e =
          unfold get_or_create_opportunity in
          let (eo, ef) =
            touch_if-rows later s o.id again.channel again.touch_type again.source_query
              again.source_ref in
          rw e (refl, eo, ef)
