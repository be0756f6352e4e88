-- ===== src/Identity/Urls.antt =====
-- The exceptions that the matchers and the blocking keys of backend/app/identity raise: those of
-- `urlparse` only.
use the_vc_brain.Prelude.{
  ℕ, ◌≡◌, inl, inr, refl, Bool, true, false, Option, none, some, List, [], ◌∷◌, String, Bool-cases,
  ◌&&◌, ◌||◌, not, str_eq, leb,
}
use the_vc_brain.Models.{Person}
use the_vc_brain.Sla.{truthy}
use the_vc_brain.Identity.{Observation, People, Attempt, returned, threw, and_then, invalid_url}
use the_vc_brain.Identity.Matchers.{
  Texts, Signals, normalized, normalize_url, url_match, exact_match, name_threshold,
  name_similarity, corroborating_signals, by_name, by_urls, confidence_of, match_confidence,
  extract_signals,
}
use the_vc_brain.Identity.Resolve.{
  add_observation, keys_from, build_blocking_keys, Blocks, blocks_of, add_to_blocks,
  fetch_observations,
}

abbrev pub IsUrlError : {A : Type 0} → Attempt A → Type 0
IsUrlError (returned a) = Unit
IsUrlError (threw failure) = failure ≡ invalid_url

and_then-IsUrlError :
    {A B : Type 0} (r : Attempt A) (next : A → Attempt B)
    → IsUrlError r
    → ((a : A) → IsUrlError (next a))
    → IsUrlError (and_then r next)
and_then-IsUrlError (returned a) next h k = k a
and_then-IsUrlError (threw failure) next h k = h

by_urls-IsUrlError :
    (texts : Texts) (r t : Attempt Bool) (rest : Attempt (ℕ × List String))
    → IsUrlError r
    → IsUrlError t
    → IsUrlError rest
    → IsUrlError (by_urls texts r t rest)
by_urls-IsUrlError texts (threw failure) t rest h k l = h
by_urls-IsUrlError texts (returned true) t rest h k l = tt
by_urls-IsUrlError texts (returned false) (threw failure) rest h k l = k
by_urls-IsUrlError texts (returned false) (returned true) rest h k l = tt
by_urls-IsUrlError texts (returned false) (returned false) rest h k l = l

module _ (texts : Texts) where
  normalized-IsUrlError : (parsed : Option (String × String)) → IsUrlError (normalized texts parsed)
  normalized-IsUrlError none = refl
  normalized-IsUrlError (some parts) = tt

  normalize_url-IsUrlError : (url : String) → IsUrlError (normalize_url texts url)
  unfolding normalize_url
  normalize_url-IsUrlError url = normalized-IsUrlError _

  url_match-IsUrlError : (a b : Option String) → IsUrlError (url_match texts a b)
  unfolding url_match
  url_match-IsUrlError a b = elim (Bool-cases (truthy a && truthy b)) [
    | inr e ↦ rw e tt
    | inl e ↦ rw e (
        and_then-IsUrlError _ _ (normalize_url-IsUrlError _)
          (λ x. and_then-IsUrlError _ _ (normalize_url-IsUrlError _) (λ y. tt)))
  ]

  by_name-IsUrlError : (a b : Signals) → IsUrlError (by_name texts a b)
  unfolding by_name corroborating_signals
  by_name-IsUrlError a b =
      elim (Bool-cases (leb name_threshold (name_similarity texts a.display_name b.display_name))) [
        | inr e ↦ rw e tt
        | inl e ↦ rw e (
            and_then-IsUrlError _ _
              (and_then-IsUrlError _ _ (url_match-IsUrlError a.blog_url b.website_url) (λ x. tt))
              (λ x. tt))
      ]

  pub match_confidence-IsUrlError :
      (xs ys : List Observation) → IsUrlError (match_confidence texts xs ys)
  unfolding match_confidence confidence_of
  match_confidence-IsUrlError xs ys =
      let a = extract_signals texts xs in
      let b = extract_signals texts ys in
      elim (Bool-cases (exact_match texts a.email b.email)) [
        | inl e ↦ rw e tt
        | inr e ↦ elim (Bool-cases (exact_match texts a.twitter_handle b.twitter_handle)) [
          | inl t ↦ rw (e, t) tt
          | inr t ↦
              rw (e, t)
                (by_urls-IsUrlError texts _ _ _ (url_match-IsUrlError a.blog_url b.website_url)
                  (url_match-IsUrlError a.website_url b.blog_url) (by_name-IsUrlError a b))
        ]
      ]

  add_observation-IsUrlError :
      (o : Observation) (keys : List String) → IsUrlError (add_observation texts o keys)
  add_observation-IsUrlError o keys =
      elim (Bool-cases (str_eq o.predicate "email" && texts.contains "@" o.object_value)) [
        | inl e ↦ rw e tt
        | inr e ↦
            elim (Bool-cases
              (str_eq o.predicate "twitter_handle" && not (str_eq o.object_value ""))) [
                | inl t ↦ rw (e, t) tt
                | inr t ↦
                    elim (Bool-cases (
                      (str_eq o.predicate "blog_url" || str_eq o.predicate "website_url")
                      && not (str_eq o.object_value ""))) [
                        | inl u ↦
                            rw (e, t, u)
                              (and_then-IsUrlError _ _ (normalize_url-IsUrlError o.object_value)
                                (λ url. tt))
                        | inr u ↦
                            elim (Bool-cases (
                              str_eq o.predicate "display_name"
                              && not (str_eq o.object_value ""))) [
                                | inl v ↦ rw (e, t, u, v) tt
                                | inr v ↦ rw (e, t, u, v) tt
                              ]
                      ]
              ]
      ]

  keys_from-IsUrlError :
      (os : List Observation) (keys : List String) → IsUrlError (keys_from texts os keys)
  keys_from-IsUrlError [] keys = tt
  keys_from-IsUrlError (o ∷ os) keys =
      and_then-IsUrlError _ _ (add_observation-IsUrlError o keys)
        (λ more. keys_from-IsUrlError os more)

  pub blocks_of-IsUrlError :
      (people : People) (persons : List Person) (blocks : Blocks)
      → IsUrlError (blocks_of (build_blocking_keys texts people) persons blocks)
  unfolding build_blocking_keys
  blocks_of-IsUrlError people [] blocks = tt
  blocks_of-IsUrlError people (p ∷ persons) blocks =
      and_then-IsUrlError (build_blocking_keys texts people p.id) _
        (keys_from-IsUrlError (fetch_observations people p.id) [])
        (λ found. blocks_of-IsUrlError people persons (add_to_blocks p.id found blocks))
