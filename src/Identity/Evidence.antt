-- ===== src/Identity/Evidence.antt =====
-- What corroborates a like name in backend/app/identity/matchers.py.
use the_vc_brain.Prelude.{
  ℕ, ◌≡◌, inl, inr, refl, Bool, true, false, List, [], ◌∷◌, ◌++◌, String, Bool-cases, leb, subst,
}
use the_vc_brain.Identity.{Attempt, returned, threw, and_then}
use the_vc_brain.Identity.Matchers.{
  Texts, Signals, name_threshold, exact_match, url_match, name_similarity, corroborating_signals,
  confidence_of, should_auto_merge, by_name, by_corroboration, by_urls, linkedin_name_match,
  or_else, slug_of, text_of, reason_if, reasons_with,
}
use the_vc_brain.Sla.{truthy}

abbrev nonempty : List String → Bool
nonempty [] = false
nonempty (x ∷ xs) = true

abbrev IsAutomatic : ℕ × List String → Type 0
IsAutomatic verdict = should_auto_merge verdict.0 ≡ true

by_corroboration-auto_merge :
    (reasons : List String) → nonempty reasons ≡ true → IsAutomatic (by_corroboration reasons)
unfolding should_auto_merge
by_corroboration-auto_merge [] e = cc e
by_corroboration-auto_merge (reason ∷ rest) e = refl

same_returned :
    {x verdict : ℕ × List String}
    → returned x ≡ returned verdict
    → IsAutomatic x
    → IsAutomatic verdict
same_returned {x} {verdict} e h = let same : x ≡ verdict = cc e in subst IsAutomatic same h

module _ (texts : Texts) where
  last_reason :
      (p q r : Bool)
      → nonempty (
          reason_if p "same_location"
          ++ reason_if q "same_company"
          ++ reason_if r "blog_website_match"
          ++ "linkedin_name_match" ∷ [])
        ≡ true
  last_reason true q r = refl
  last_reason false true r = refl
  last_reason false false true = refl
  last_reason false false false = refl

  reasons-nonempty :
      (a b : Signals) (same_site : Bool)
      → linkedin_name_match texts
          (or_else a.linkedin_url b.linkedin_url)
          (or_else b.display_name a.display_name)
        ≡ true
      → nonempty (reasons_with texts a b same_site) ≡ true
  reasons-nonempty a b same_site e = rw e (
      last_reason (exact_match texts a.location b.location) (exact_match texts a.company b.company)
        same_site)

  corroborated :
      (a b : Signals) (verdict : ℕ × List String) (site : Attempt Bool)
      → linkedin_name_match texts
          (or_else a.linkedin_url b.linkedin_url)
          (or_else b.display_name a.display_name)
        ≡ true
      → and_then
          (and_then site (λ (same : Bool). returned (reasons_with texts a b same)))
          (λ (reasons : List String). returned (by_corroboration reasons))
        ≡ returned verdict
      → IsAutomatic verdict
  corroborated a b verdict (threw failure) h e = cc e
  corroborated a b verdict (returned same_site) h e =
      same_returned e (by_corroboration-auto_merge _ (reasons-nonempty a b same_site h))

  by_urls-auto_merge :
      (verdict : ℕ × List String) (r t : Attempt Bool) (rest : Attempt (ℕ × List String))
      → (rest ≡ returned verdict → IsAutomatic verdict)
      → by_urls texts r t rest ≡ returned verdict
      → IsAutomatic verdict
  unfolding should_auto_merge
  by_urls-auto_merge verdict (threw failure) t rest h e = cc e
  by_urls-auto_merge verdict (returned true) t rest h e = same_returned e refl
  by_urls-auto_merge verdict (returned false) (threw failure) rest h e = cc e
  by_urls-auto_merge verdict (returned false) (returned true) rest h e = same_returned e refl
  by_urls-auto_merge verdict (returned false) (returned false) rest h e = h e

  by_name-auto_merge :
      (a b : Signals) (verdict : ℕ × List String)
      → leb name_threshold (name_similarity texts a.display_name b.display_name) ≡ true
      → linkedin_name_match texts
          (or_else a.linkedin_url b.linkedin_url)
          (or_else b.display_name a.display_name)
        ≡ true
      → by_name texts a b ≡ returned verdict
      → IsAutomatic verdict
  unfolding by_name corroborating_signals
  by_name-auto_merge a b verdict alike matched e =
      corroborated a b verdict (url_match texts a.blog_url b.website_url) matched (rw alike at e)

  -- A LinkedIn address with no name after its last "/in/" corroborates every name: when the empty text
  -- is in every text, as in Python, and the matchers return a verdict on two persons, which they do
  -- when `urlparse` refuses no address that they look at, two persons whose names are 90 percent
  -- alike are merged without a human if such an address is the one that the code looks at and there
  -- is a name.
  pub empty_slug-auto_merge :
      (contains_empty : (text : String) → texts.contains "" text ≡ true) (a b : Signals)
      (verdict : ℕ × List String)
      → confidence_of texts a b ≡ returned verdict
      → leb name_threshold (name_similarity texts a.display_name b.display_name) ≡ true
      → truthy (or_else b.display_name a.display_name) ≡ true
      → truthy (or_else a.linkedin_url b.linkedin_url) ≡ true
      → slug_of texts (text_of (or_else a.linkedin_url b.linkedin_url)) ≡ ""
      → should_auto_merge verdict.0 ≡ true
  unfolding linkedin_name_match confidence_of should_auto_merge
  empty_slug-auto_merge contains_empty a b verdict returns alike named linked empty =
      let matched : linkedin_name_match texts (or_else a.linkedin_url b.linkedin_url)
            (or_else b.display_name a.display_name)
          ≡ true =
        rw (linked, named, empty, contains_empty) in
      elim (Bool-cases (exact_match texts a.email b.email)) [
        | inl e ↦ same_returned (rw e at returns) refl
        | inr e ↦ elim (Bool-cases (exact_match texts a.twitter_handle b.twitter_handle)) [
          | inl t ↦ same_returned (rw (e, t) at returns) refl
          | inr t ↦
              by_urls-auto_merge verdict _ _ _ (by_name-auto_merge a b verdict alike matched)
                (rw (e, t) at returns)
        ]
      ]
