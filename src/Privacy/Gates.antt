-- ===== src/Privacy/Gates.antt =====
-- The gate of backend/app/privacy.py is deny by default.
use the_vc_brain.Prelude.{
  ℕ, ◌+◌, ◌-◌, arith, ◌≡◌, ◌≢◌, ◌↔◌, inl, inr, refl, Bool, true, false, Option, none, some, List,
  [], ◌∷◌, String, str_eq, eq_iff, ◌||◌, ◌&&◌, not, any, Bool-cases, ℤ, pos, negsuc, ap, sym, ◌∙◌,
}
use the_vc_brain.Models.{Person}
use the_vc_brain.Sla.{truthy}
use the_vc_brain.Privacy.{
  suppressed_states, purpose_value, is_text, is_positive, consent_of, external_ai_use_decision,
}

-- A column that holds a text which is not empty.
abbrev pub IsNamed : Option String → Type 0
IsNamed column = (text : String) × (column ≡ some text) × (text ≢ "")

-- The object's first field of the name has the value; it has one field of a name.
pub data Holds {A : Type 0} (name : String) (value : A) : List (String × A) → Type 0 where
  first : {rest : List (String × A)} → Holds name value ((name, value) ∷ rest)
  later :
      {field : String} {other : A} {rest : List (String × A)}
      → field ≢ name
      → Holds name value rest
      → Holds name value ((field, other) ∷ rest)

pub record IsPermitted (p : Person) (purpose : String) : Type 0 where
  pub given : p.consent_state ≢ ""
  pub decided : p.consent_state ≢ "pending"
  pub known : p.consent_state ≢ "unknown"
  pub stays_in : p.consent_state ≢ "opted_out"
  pub not_suppressed : p.consent_state ≢ "suppressed"
  pub contactable : p.consent_state ≢ "do_not_contact"
  pub legal_basis : IsNamed p.privacy_legal_basis
  pub notice_version : IsNamed p.privacy_notice_version
  pub granted : Holds purpose "granted" p.privacy_purposes
  pub provider_policy : IsNamed p.privacy_provider_policy_version
  pub retention : (days : ℕ) × (p.privacy_retention_days ≡ some (pos (days + 1)))
  pub residency : IsNamed p.privacy_residency

allowed_lem :
    (p : Person) (purpose : String)
    → (external_ai_use_decision p purpose).allowed ≡ (
        not (any (str_eq (consent_of p)) suppressed_states)
        && truthy p.privacy_legal_basis
        && truthy p.privacy_notice_version
        && is_text "granted" (purpose_value purpose p.privacy_purposes)
        && truthy p.privacy_provider_policy_version
        && is_positive p.privacy_retention_days
        && truthy p.privacy_residency)
unfolding external_ai_use_decision
allowed_lem p purpose = elim (Bool-cases (any (str_eq (consent_of p)) suppressed_states)) [
  | inl e ↦ rw e
  | inr a ↦ elim (Bool-cases (truthy p.privacy_legal_basis)) [
    | inr e ↦ rw (a, e)
    | inl b ↦ elim (Bool-cases (truthy p.privacy_notice_version)) [
      | inr e ↦ rw (a, b, e)
      | inl c ↦ elim (Bool-cases (is_text "granted" (purpose_value purpose p.privacy_purposes))) [
        | inr e ↦ rw (a, b, c, e)
        | inl d ↦ elim (Bool-cases (truthy p.privacy_provider_policy_version)) [
          | inr e ↦ rw (a, b, c, d, e)
          | inl f ↦ elim (Bool-cases (is_positive p.privacy_retention_days)) [
            | inr e ↦ rw (a, b, c, d, f, e)
            | inl g ↦ elim (Bool-cases (truthy p.privacy_residency)) [
              | inr e ↦ rw (a, b, c, d, f, g, e)
              | inl e ↦ rw (a, b, c, d, f, g, e)
            ]
          ]
        ]
      ]
    ]
  ]
]

pub differs : (a b : String) → str_eq a b ≡ false → a ≢ b
differs a b e h = cc ((eq_iff a b).1 h)

pub differs-eq : (a b : String) → a ≢ b → str_eq a b ≡ false
differs-eq a b n = elim (Bool-cases (str_eq a b)) [
  | inl e ↦ absurd (n ((eq_iff a b).0 e))
  | inr e ↦ e
]

both : (a b : Bool) → (a && b) ≡ true → (a ≡ true) × (b ≡ true)
both true true e = (refl, refl)
both true false e = cc e
both false b e = cc e

neither : (a b : Bool) → (a || b) ≡ false → (a ≡ false) × (b ≡ false)
neither false false e = (refl, refl)
neither false true e = cc e
neither true b e = cc e

not-true : (a : Bool) → not a ≡ true → a ≡ false
not-true false e = refl
not-true true e = cc e

truthy-IsNamed : (column : Option String) → (truthy column ≡ true) ↔ IsNamed column
truthy-IsNamed none = (λ e. cc e, λ h. cc (h.1))
truthy-IsNamed (some text) = (to, from)
  where
    to : truthy (some text) ≡ true → IsNamed (some text)
    to e = elim (Bool-cases (str_eq text "")) [
      | inl h ↦ cc (rw h at e)
      | inr h ↦ (text, refl, differs text "" h)
    ]

    from : IsNamed (some text) → truthy (some text) ≡ true
    from (other, e, n) =
        let same : text ≡ other = cc e in
        let h : str_eq text "" ≡ false = differs-eq text "" (λ k. n (sym same ∙ k)) in rw h

is_positive_iff :
    (column : Option ℤ)
    → (is_positive column ≡ true) ↔ ((days : ℕ) × (column ≡ some (pos (days + 1))))
is_positive_iff column = (to column, from column)
  where
    to :
        (column : Option ℤ)
        → is_positive column ≡ true
        → (days : ℕ) × (column ≡ some (pos (days + 1)))
    to none e = cc e
    to (some (pos n)) e =
        let same : n ≡ (n - 1) + 1 = ground arith in (n - 1, ap (λ m. some (pos m)) same)
    to (some (negsuc n)) e = absurd (ground arith)

    from :
        (column : Option ℤ)
        → (days : ℕ) × (column ≡ some (pos (days + 1)))
        → is_positive column ≡ true
    from none (days, e) = cc e
    from (some value) (days, e) =
        let same : value ≡ pos (days + 1) = cc e in
        let holds : is_positive (some (pos (days + 1))) ≡ true = ground arith in rw same holds

pub is_text_iff :
    (wanted : String) (o : Option String) → (is_text wanted o ≡ true) ↔ (o ≡ some wanted)
is_text_iff wanted none = (λ e. cc e, λ e. cc e)
is_text_iff wanted (some value) =
    (λ e. ap some ((eq_iff value wanted).0 e), λ e. (eq_iff value wanted).1 (cc e))

purpose_value-Holds :
    (name wanted : String) (fields : List (String × String))
    → (is_text wanted (purpose_value name fields) ≡ true) ↔ Holds name wanted fields
purpose_value-Holds name wanted fields = (to fields, from fields)
  where
    to :
        (fields : List (String × String))
        → is_text wanted (purpose_value name fields) ≡ true
        → Holds name wanted fields
    to [] e = cc e
    to ((field, value) ∷ rest) e = elim (Bool-cases (str_eq field name)) [
      | inl h ↦
          let value_same : str_eq value wanted ≡ true = rw h at e in
          rw ((eq_iff field name).0 h, (eq_iff value wanted).0 value_same) first
      | inr h ↦ later (differs field name h) (to rest (rw h at e))
    ]

    from :
        (fields : List (String × String))
        → Holds name wanted fields
        → is_text wanted (purpose_value name fields) ≡ true
    from [] h = elim h [ ]
    from ((_, _) ∷ rest) first =
        let h : str_eq name name ≡ true = (eq_iff name name).1 refl in
        let k : str_eq wanted wanted ≡ true = (eq_iff wanted wanted).1 refl in rw (h, k)
    from ((field, value) ∷ rest) (later n more) =
        let h : str_eq field name ≡ false = differs-eq field name n in rw h (from rest more)

consent_iff :
    (p : Person)
    → (not (any (str_eq (consent_of p)) suppressed_states) ≡ true) ↔ (
        (p.consent_state ≢ "")
        × (p.consent_state ≢ "pending")
        × (p.consent_state ≢ "unknown")
        × (p.consent_state ≢ "opted_out")
        × (p.consent_state ≢ "suppressed")
        × (p.consent_state ≢ "do_not_contact"))
consent_iff p = elim (Bool-cases (str_eq p.consent_state "")) [
  | inl e ↦ (λ h. cc (rw e at h), λ h. absurd (h.0 ((eq_iff p.consent_state "").0 e)))
  | inr e ↦ (
    λ h.
        let refused = not-true _ (rw e at h) in
        let (a, more_a) = neither _ _ refused in
        let (b, more_b) = neither _ _ more_a in
        let (c, more_c) = neither _ _ more_b in
        let (d, more_d) = neither _ _ more_c in
        let (f, more_f) = neither _ _ more_d in
        (
          differs p.consent_state "" e,
          differs p.consent_state "pending" a,
          differs p.consent_state "unknown" b,
          differs p.consent_state "opted_out" c,
          differs p.consent_state "suppressed" d,
          differs p.consent_state "do_not_contact" f,
        ),
    λ h.
        let a = differs-eq p.consent_state "pending" h.1 in
        let b = differs-eq p.consent_state "unknown" h.2 in
        let c = differs-eq p.consent_state "opted_out" h.3 in
        let d = differs-eq p.consent_state "suppressed" h.4 in
        let f = differs-eq p.consent_state "do_not_contact" h.5 in rw (e, a, b, c, d, f),
  )
]

-- Data of a person may go to an external model exactly when the consent is neither empty nor
-- "pending", "unknown", "opted_out", "suppressed" or "do_not_contact"; a legal basis, a notice version,
-- a provider policy version and a residency are named; the field of the purpose has the value
-- "granted"; and the data is retained for a positive number of days.
pub external_ai_use_decision-allowed :
    (p : Person) (purpose : String)
    → ((external_ai_use_decision p purpose).allowed ≡ true) ↔ IsPermitted p purpose
external_ai_use_decision-allowed p purpose = (to, from)
  where
    to : (external_ai_use_decision p purpose).allowed ≡ true → IsPermitted p purpose
    to e =
        let (more_f, residency) = both _ _ (sym (allowed_lem p purpose) ∙ e) in
        let (more_d, retention) = both _ _ more_f in
        let (more_c, provider) = both _ _ more_d in
        let (more_b, granted) = both _ _ more_c in
        let (more_a, notice) = both _ _ more_b in
        let (consent, basis) = both _ _ more_a in
        let states = (consent_iff p).0 consent in
        record {
          given = states.0;
          decided = states.1;
          known = states.2;
          stays_in = states.3;
          not_suppressed = states.4;
          contactable = states.5;
          legal_basis = (truthy-IsNamed p.privacy_legal_basis).0 basis;
          notice_version = (truthy-IsNamed p.privacy_notice_version).0 notice;
          granted = (purpose_value-Holds purpose "granted" p.privacy_purposes).0 granted;
          provider_policy = (truthy-IsNamed p.privacy_provider_policy_version).0 provider;
          retention = (is_positive_iff p.privacy_retention_days).0 retention;
          residency = (truthy-IsNamed p.privacy_residency).0 residency;
        }

    from : IsPermitted p purpose → (external_ai_use_decision p purpose).allowed ≡ true
    from h =
        let consent =
          (consent_iff p).1
            (h.given, h.decided, h.known, h.stays_in, h.not_suppressed, h.contactable) in
        let basis = (truthy-IsNamed p.privacy_legal_basis).1 h.legal_basis in
        let notice = (truthy-IsNamed p.privacy_notice_version).1 h.notice_version in
        let granted = (purpose_value-Holds purpose "granted" p.privacy_purposes).1 h.granted in
        let provider = (truthy-IsNamed p.privacy_provider_policy_version).1 h.provider_policy in
        let retention = (is_positive_iff p.privacy_retention_days).1 h.retention in
        let residency = (truthy-IsNamed p.privacy_residency).1 h.residency in
        allowed_lem p purpose ∙ rw (consent, basis, notice, granted, provider, retention, residency)
