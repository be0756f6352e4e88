-- ===== src/Privacy/Sources.antt =====
-- The policy of backend/app/source_policy.py is deny by default.
use the_vc_brain.Prelude.{
  ◌≡◌, ◌↔◌, ◌⊎◌, inl, inr, refl, Bool, true, false, Option, none, some, List, [], ◌∷◌, String,
  str_eq, eq_iff, ◌||◌, Bool-cases, sym, ◌∙◌,
}
use the_vc_brain.Privacy.{
  SourceUsePolicy, is_own, license_allows, with_license, build_source_use_policy,
  source_allows_model_use,
}
use the_vc_brain.Privacy.Gates.{Holds, first, later, differs, differs-eq, is_text_iff}

abbrev licensed : Option (List (String × Option String)) → Bool
licensed none = false
licensed (some license) = license_allows license

or_false : (a : Bool) → (a || false) ≡ a
or_false true = refl
or_false false = refl

or_true : (a : Bool) → (a || true) ≡ true
or_true true = refl
or_true false = refl

with_license-allows :
    (license_metadata : Option (List (String × Option String))) (policy : SourceUsePolicy)
    → source_allows_model_use (some (with_license license_metadata policy))
      ≡ (source_allows_model_use (some policy) || licensed license_metadata)
with_license-allows none policy = rw (or_false _) refl
with_license-allows (some []) policy = rw (or_false _) refl
with_license-allows (some (x ∷ xs)) policy = elim (Bool-cases (license_allows (x ∷ xs))) [
  | inl h ↦ rw (h, or_true _) refl
  | inr h ↦ rw (h, or_false _) refl
]

policy_lem :
    (source_type : String) (license_metadata : Option (List (String × Option String)))
    → source_allows_model_use (some (build_source_use_policy source_type license_metadata))
      ≡ (is_own source_type || licensed license_metadata)
unfolding build_source_use_policy
policy_lem s l = elim (Bool-cases (is_own s)) [
  | inl e ↦ rw (with_license-allows l _, e) refl
  | inr e ↦ rw (with_license-allows l _, e) refl
]

is_own_iff : (s : String) → (is_own s ≡ true) ↔ ((s ≡ "inbound_deck") ⊎ (s ≡ "outreach"))
is_own_iff s = (to, from)
  where
    to : is_own s ≡ true → (s ≡ "inbound_deck") ⊎ (s ≡ "outreach")
    to e = elim (Bool-cases (str_eq s "inbound_deck")) [
      | inl h ↦ inl ((eq_iff s _).0 h)
      | inr h ↦ inr ((eq_iff s _).0 (rw h at e))
    ]

    from : (s ≡ "inbound_deck") ⊎ (s ≡ "outreach") → is_own s ≡ true
    from (inl e) = rw e
    from (inr e) = rw e

license_allows-Holds :
    (license : List (String × Option String))
    → (license_allows license ≡ true) ↔ Holds "model_use" (some "allowed") license
license_allows-Holds license = (to license, from license)
  where
    to :
        (license : List (String × Option String))
        → license_allows license ≡ true
        → Holds "model_use" (some "allowed") license
    to [] e = cc e
    to ((field, value) ∷ rest) e = elim (Bool-cases (str_eq field "model_use")) [
      | inl h ↦ rw ((eq_iff field _).0 h, (is_text_iff "allowed" value).0 (rw h at e)) first
      | inr h ↦ later (differs field _ h) (to rest (rw h at e))
    ]

    from :
        (license : List (String × Option String))
        → Holds "model_use" (some "allowed") license
        → license_allows license ≡ true
    from [] h = elim h [ ]
    from ((_, _) ∷ rest) first = refl
    from ((field, value) ∷ rest) (later n more) =
        let h : str_eq field "model_use" ≡ false = differs-eq field "model_use" n in
        rw h (from rest more)

-- A snapshot with the policy that is built for it may enter a model exactly when its source is
-- "inbound_deck" or "outreach", or there is a license in which the field "model_use" has the value
-- "allowed".
pub source_allows_model_use-build_source_use_policy :
    (s : String) (license_metadata : Option (List (String × Option String)))
    → (source_allows_model_use (some (build_source_use_policy s license_metadata)) ≡ true) ↔ (
        (s ≡ "inbound_deck")
        ⊎ (s ≡ "outreach")
        ⊎ ((license : List (String × Option String)) × (license_metadata ≡ some license)
            × Holds "model_use" (some "allowed") license))
source_allows_model_use-build_source_use_policy s l = (λ e. to l (sym (policy_lem s l) ∙ e), from l)
  where
    Licensed : Option (List (String × Option String)) → Type 0
    Licensed l =
        (license : List (String × Option String)) × (l ≡ some license)
        × Holds "model_use" (some "allowed") license

    by_license : (l : Option (List (String × Option String))) → licensed l ≡ true → Licensed l
    by_license none e = cc e
    by_license (some license) e = (license, refl, (license_allows-Holds license).0 e)

    to :
        (l : Option (List (String × Option String)))
        → (is_own s || licensed l) ≡ true
        → (s ≡ "inbound_deck") ⊎ (s ≡ "outreach") ⊎ Licensed l
    to l e = elim (Bool-cases (is_own s)) [
      | inl h ↦ elim ((is_own_iff s).0 h) [ inl k ↦ inl k | inr k ↦ inr (inl k) ]
      | inr h ↦ inr (inr (by_license l (rw h at e)))
    ]

    from :
        (l : Option (List (String × Option String)))
        → (s ≡ "inbound_deck") ⊎ (s ≡ "outreach") ⊎ Licensed l
        → source_allows_model_use (some (build_source_use_policy s l)) ≡ true
    from l (inl e) = policy_lem s l ∙ rw ((is_own_iff s).1 (inl e))
    from l (inr (inl e)) = policy_lem s l ∙ rw ((is_own_iff s).1 (inr e))
    from l (inr (inr (license, e, h))) =
        policy_lem s l ∙ rw (e, (license_allows-Holds license).1 h, or_true)
