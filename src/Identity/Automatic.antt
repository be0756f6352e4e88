-- ===== src/Identity/Automatic.antt =====
-- Which pairs backend/app/identity/matchers.py lets the run merge without a human.
use the_vc_brain.Prelude.{
  ℕ, ◌≡◌, ◌↔◌, refl, Bool, true, false, inl, inr, List, String, Bool-cases, leb, sym, subst,
}
use the_vc_brain.Identity.{Observation, Attempt, returned, threw}
use the_vc_brain.Identity.Matchers.{
  Texts, Signals, name_threshold, exact_match, url_match, name_similarity, corroborating_signals,
  confidence_of, should_auto_merge, by_name, by_corroboration, by_urls, linkedin_name_match,
  or_else, reasons_with, extract_signals, match_confidence,
}
use the_vc_brain.Identity.Addresses.{IsNamedBy, linkedin_name_match-IsNamedBy}
use the_vc_brain.Identity.Alike.{
  Same, SameSite, Alike, exact_match-Same, url_match-SameSite, name_similarity-Alike,
}

module _ (texts : Texts) where
  -- One of four signals that identify a person, or like names and one more signal.
  pub data IsSure (a b : Signals) : Type 0 where
    same_email : Same texts a.email b.email → IsSure a b
    same_twitter : Same texts a.twitter_handle b.twitter_handle → IsSure a b
    blog_is_website : SameSite texts a.blog_url b.website_url → IsSure a b
    website_is_blog : SameSite texts a.website_url b.blog_url → IsSure a b
    same_place :
        Alike texts a.display_name b.display_name → Same texts a.location b.location → IsSure a b
    same_company :
        Alike texts a.display_name b.display_name → Same texts a.company b.company → IsSure a b
    named_address :
        Alike texts a.display_name b.display_name
        → IsNamedBy texts a.linkedin_url b.linkedin_url b.display_name a.display_name
        → IsSure a b

  abbrev IsAutomatic : ℕ × List String → Type 0
  IsAutomatic verdict = should_auto_merge verdict.0 ≡ true

  module _ (a b : Signals) (verdict : ℕ × List String) where
    sure :
        (x : ℕ × List String)
        → returned x ≡ returned verdict
        → IsAutomatic x
        → IsSure a b
        → IsAutomatic verdict ↔ IsSure a b
    sure x e h k = let same : x ≡ verdict = cc e in (λ _. k, λ _. subst IsAutomatic same h)

    unsure :
        (x : ℕ × List String)
        → returned x ≡ returned verdict
        → should_auto_merge x.0 ≡ false
        → (IsSure a b → ⊥)
        → IsAutomatic verdict ↔ IsSure a b
    unsure x e h k =
        let same : x ≡ verdict = cc e in
        (λ sent. absurd (never (subst IsAutomatic (sym same) sent)), λ s. absurd (k s))
      where
        never : should_auto_merge x.0 ≡ true → ⊥
        never sent = cc (h, sent)

    -- the four signals that come first are not there
    record IsUnidentified : Type 0 where
      no_email : exact_match texts a.email b.email ≡ false
      no_twitter : exact_match texts a.twitter_handle b.twitter_handle ≡ false
      no_blog : url_match texts a.blog_url b.website_url ≡ returned false
      no_website : url_match texts a.website_url b.blog_url ≡ returned false

    only_names :
        IsUnidentified
        → (Alike texts a.display_name b.display_name → Same texts a.location b.location → ⊥)
        → (Alike texts a.display_name b.display_name → Same texts a.company b.company → ⊥)
        → (Alike texts a.display_name b.display_name
            → linkedin_name_match texts
                (or_else a.linkedin_url b.linkedin_url)
                (or_else b.display_name a.display_name)
              ≡ true
            → ⊥)
        → IsSure a b
        → ⊥
    only_names u k l m (same_email h) = cc (u.no_email, (exact_match-Same texts _ _).1 h)
    only_names u k l m (same_twitter h) = cc (u.no_twitter, (exact_match-Same texts _ _).1 h)
    only_names u k l m (blog_is_website h) = cc ((url_match-SameSite texts _ _ false u.no_blog).1 h)
    only_names u k l m (website_is_blog h) =
        cc ((url_match-SameSite texts _ _ false u.no_website).1 h)
    only_names u k l m (same_place h g) = k h g
    only_names u k l m (same_company h g) = l h g
    only_names u k l m (named_address h g) = m h ((linkedin_name_match-IsNamedBy texts _ _ _ _).1 g)

    by_reasons :
        IsUnidentified
        → Alike texts a.display_name b.display_name
        → returned (by_corroboration (reasons_with texts a b false)) ≡ returned verdict
        → IsAutomatic verdict ↔ IsSure a b
    unfolding should_auto_merge
    by_reasons u alike e = elim (Bool-cases (exact_match texts a.location b.location)) [
      | inl p ↦ sure _ (rw p at e) refl (same_place alike ((exact_match-Same texts _ _).0 p))
      | inr p ↦ elim (Bool-cases (exact_match texts a.company b.company)) [
        | inl q ↦
            sure _ (rw (p, q) at e) refl (same_company alike ((exact_match-Same texts _ _).0 q))
        | inr q ↦
            elim (Bool-cases (
              linkedin_name_match texts (or_else a.linkedin_url b.linkedin_url)
                (or_else b.display_name a.display_name))) [
                  | inl r ↦
                      sure _ (rw (p, q, r) at e) refl
                        (named_address alike ((linkedin_name_match-IsNamedBy texts _ _ _ _).0 r))
                  | inr r ↦ unsure _ (rw (p, q, r) at e) refl (
                      only_names u (λ h g. cc (p, (exact_match-Same texts _ _).1 g))
                        (λ h g. cc (q, (exact_match-Same texts _ _).1 g)) (λ h g. cc (r, g)))
                ]
      ]
    ]

    by_names :
        IsUnidentified → by_name texts a b ≡ returned verdict → IsAutomatic verdict ↔ IsSure a b
    unfolding by_name corroborating_signals should_auto_merge
    by_names u e =
        elim (Bool-cases
          (leb name_threshold (name_similarity texts a.display_name b.display_name))) [
            | inl t ↦ by_reasons u ((name_similarity-Alike texts _ _).0 t) (rw (t, u.no_blog) at e)
            | inr t ↦ unsure _ (rw t at e) refl (
                only_names u (λ h g. cc (t, (name_similarity-Alike texts _ _).1 h))
                  (λ h g. cc (t, (name_similarity-Alike texts _ _).1 h))
                  (λ h g. cc (t, (name_similarity-Alike texts _ _).1 h)))
          ]

    by_sites :
        (r t : Attempt Bool)
        → url_match texts a.blog_url b.website_url ≡ r
        → url_match texts a.website_url b.blog_url ≡ t
        → exact_match texts a.email b.email ≡ false
        → exact_match texts a.twitter_handle b.twitter_handle ≡ false
        → by_urls texts r t (by_name texts a b) ≡ returned verdict
        → IsAutomatic verdict ↔ IsSure a b
    unfolding should_auto_merge
    by_sites (threw failure) t f g no_email no_twitter e = cc e
    by_sites (returned true) t f g no_email no_twitter e =
        sure _ e refl (blog_is_website ((url_match-SameSite texts _ _ true f).0 refl))
    by_sites (returned false) (threw failure) f g no_email no_twitter e = cc e
    by_sites (returned false) (returned true) f g no_email no_twitter e =
        sure _ e refl (website_is_blog ((url_match-SameSite texts _ _ true g).0 refl))
    by_sites (returned false) (returned false) f g no_email no_twitter e =
        by_names
          (record { no_email = no_email; no_twitter = no_twitter; no_blog = f; no_website = g }) e

    confidence_of-IsSure :
        confidence_of texts a b ≡ returned verdict → IsAutomatic verdict ↔ IsSure a b
    unfolding confidence_of should_auto_merge
    confidence_of-IsSure e = elim (Bool-cases (exact_match texts a.email b.email)) [
      | inl p ↦ sure _ (rw p at e) refl (same_email ((exact_match-Same texts _ _).0 p))
      | inr p ↦ elim (Bool-cases (exact_match texts a.twitter_handle b.twitter_handle)) [
        | inl q ↦ sure _ (rw (p, q) at e) refl (same_twitter ((exact_match-Same texts _ _).0 q))
        | inr q ↦ by_sites _ _ refl refl p q (rw (p, q) at e)
      ]
    ]

  -- When the matchers return a verdict on two persons, it is sure enough for a merge without a human
  -- exactly when the two have the same email or the same Twitter handle, trimmed and in lower case, or
  -- a blog of one whose address is, normalized, that of the website of the other; or when
  -- `token_sort_ratio` of their names without accents and in lower case is at least 90, and they have
  -- the same location or the same company, or the slug of the first LinkedIn address there is, in lower
  -- case and with spaces for dashes, stands in the first name there is, or is not empty and holds it.
  pub match_confidence-IsSure :
      (observations_a observations_b : List Observation) (verdict : ℕ × List String)
      → match_confidence texts observations_a observations_b ≡ returned verdict
      → (should_auto_merge verdict.0 ≡ true)
        ↔ IsSure (extract_signals texts observations_a) (extract_signals texts observations_b)
  unfolding match_confidence
  match_confidence-IsSure observations_a observations_b verdict e =
      confidence_of-IsSure _ _ verdict e
