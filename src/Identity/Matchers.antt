-- ===== src/Identity/Matchers.antt =====
-- backend/app/identity/matchers.py: how sure it is that two rows are one person. The methods of
-- Python's texts, `urlparse`, the accent stripping of `unicodedata` and the ratio of `rapidfuzz` are
-- the arguments `Texts`. A confidence is a float, counted in units of 2 ^ -1074.
use Prim.Native.String.{◌++◌ as join}
use text.Mathlib.Text.{starts_with}
use the_vc_brain.Prelude.{
  ℕ, ◌*◌, ◌^◌, Bool, true, false, Option, none, some, List, [], ◌∷◌, ◌++◌, String, str_eq, ◌&&◌,
  ◌||◌, not, if◌then◌else◌, leb,
}
use the_vc_brain.Sla.{truthy}
use the_vc_brain.Identity.{Observation, Attempt, returned, threw, and_then, invalid_url}

pub record Texts : Type 0 where
  pub strip : String → String
  pub lower : String → String
  -- `text.split()`
  pub words : String → List String
  -- `text.split(separator)[0]` and `text.split(separator)[-1]`
  pub first_part : String → String → String
  pub last_part : String → String → String
  -- `text[:n]` and `text[n:]`
  pub prefix : ℕ → String → String
  pub suffix : ℕ → String → String
  -- `text.rstrip("/")` and `text.replace("-", " ")`
  pub rstrip_slash : String → String
  pub dashes_to_spaces : String → String
  -- `needle in text`
  pub contains : String → String → Bool
  -- `hostname or ""` and `path` of `urlparse(url)`, and `none` where `urlparse` raises ValueError
  pub urlparse : String → Option (String × String)
  -- the decomposed text without its combining characters
  pub without_accents : String → String
  -- fuzz.token_sort_ratio, counted like a confidence
  pub token_sort_ratio : String → String → ℕ

-- a float with 53 bits behind the point
abbrev binary_float : ℕ → ℕ
binary_float mantissa = mantissa * 2 ^ 1021

-- 1.0, 0.95, 0.85, 0.8, 0.5 and 90.0
abbrev pub full : ℕ
full = 2 ^ 1074

abbrev pub strong : ℕ
strong = binary_float 8556839292003942

abbrev pub probable : ℕ
probable = binary_float 7656119366529843

abbrev pub auto_merge_threshold : ℕ
auto_merge_threshold = binary_float 7205759403792794

abbrev pub half : ℕ
half = 2 ^ 1073

abbrev pub name_threshold : ℕ
name_threshold = 90 * 2 ^ 1074

-- the value of a nullable text that is not null
abbrev pub text_of : Option String → String
text_of none = ""
text_of (some text) = text

-- `a or b`
abbrev pub or_else : Option String → Option String → Option String
or_else a b = if truthy a then a else b

abbrev pub reason_if : Bool → String → List String
reason_if test reason = if test then reason ∷ [] else []

abbrev pub by_corroboration : List String → ℕ × List String
by_corroboration [] = (half, "name_fuzzy_only" ∷ [])
by_corroboration (reason ∷ rest) = (probable, "name_fuzzy" ∷ reason ∷ rest)

-- the dictionary of `_extract_signals`
pub record Signals : Type 0 where
  pub email : Option String
  pub twitter_handle : Option String
  pub blog_url : Option String
  pub website_url : Option String
  pub display_name : Option String
  pub location : Option String
  pub company : Option String
  pub linkedin_url : Option String
  pub github_login : Option String

module _ (texts : Texts) where
  open texts use {
    strip, lower, first_part, last_part, suffix, rstrip_slash, dashes_to_spaces, contains, urlparse,
    without_accents, token_sort_ratio,
  }

  abbrev with_scheme : String → String
  with_scheme url =
      if not (starts_with url "http://" || starts_with url "https://")
      then join "https://" url
      else url

  abbrev without_www : String → String
  without_www host = if starts_with host "www." then suffix 4 host else host

  abbrev pub normalized : Option (String × String) → Attempt String
  normalized none = threw invalid_url
  normalized (some (hostname, path)) = returned (join (without_www hostname) (rstrip_slash path))

  unfoldable pub normalize_url : String → Attempt String
  normalize_url url = normalized (urlparse (with_scheme (lower (strip url))))

  -- The first value of the predicate that is not empty, stripped.
  unfoldable pub get_observation : List Observation → String → Option String
  get_observation [] predicate = none
  get_observation (o ∷ rest) predicate =
      let later = get_observation rest predicate in
      if str_eq o.predicate predicate && not (str_eq o.object_value "")
      then some (strip o.object_value)
      else later

  unfoldable pub extract_signals : List Observation → Signals
  extract_signals observations = record {
    email = get_observation observations "email";
    twitter_handle = get_observation observations "twitter_handle";
    blog_url = get_observation observations "blog_url";
    website_url = get_observation observations "website_url";
    display_name = get_observation observations "display_name";
    location = get_observation observations "location";
    company = get_observation observations "company";
    linkedin_url = get_observation observations "linkedin_url";
    github_login = get_observation observations "github_login";
  }

  unfoldable pub exact_match : Option String → Option String → Bool
  exact_match a b =
      truthy a && (truthy b && str_eq (lower (strip (text_of a))) (lower (strip (text_of b))))

  unfoldable pub url_match : Option String → Option String → Attempt Bool
  url_match a b =
      if truthy a && truthy b
      then and_then (normalize_url (text_of a)) (λ (x : String).
        and_then (normalize_url (text_of b)) (λ (y : String). returned (str_eq x y)))
      else returned false

  abbrev normalize_name : String → String
  normalize_name name = lower (without_accents name)

  unfoldable pub name_similarity : Option String → Option String → ℕ
  name_similarity a b =
      if truthy a && truthy b
      then token_sort_ratio (normalize_name (text_of a)) (normalize_name (text_of b))
      else 0

  abbrev pub slug_of : String → String
  slug_of linkedin = lower (dashes_to_spaces (first_part "/" (last_part "/in/" linkedin)))

  abbrev pub slug_names : String → String → Bool
  slug_names slug name =
      (not (str_eq slug "") && contains (lower name) slug) || contains slug (lower name)

  unfoldable pub linkedin_name_match : Option String → Option String → Bool
  linkedin_name_match linkedin name =
      truthy linkedin && (truthy name && slug_names (slug_of (text_of linkedin)) (text_of name))

  -- the reasons, given whether the blog of the one is the website of the other
  abbrev pub reasons_with : Signals → Signals → Bool → List String
  reasons_with a b same_site =
      reason_if (exact_match a.location b.location) "same_location"
      ++ reason_if (exact_match a.company b.company) "same_company"
      ++ reason_if same_site "blog_website_match"
      ++ reason_if
          (linkedin_name_match (or_else a.linkedin_url b.linkedin_url)
            (or_else b.display_name a.display_name))
          "linkedin_name_match"

  unfoldable pub corroborating_signals : Signals → Signals → Attempt (List String)
  corroborating_signals a b =
      and_then (url_match a.blog_url b.website_url)
        (λ (same_site : Bool). returned (reasons_with a b same_site))

  unfoldable pub by_name : Signals → Signals → Attempt (ℕ × List String)
  unfolding corroborating_signals
  by_name a b =
      if leb name_threshold (name_similarity a.display_name b.display_name)
      then and_then (corroborating_signals a b)
          (λ (reasons : List String). returned (by_corroboration reasons))
      else returned (0, [])

  -- The two tests of a blog against a website, in their order, and what follows them.
  abbrev pub by_urls :
      Attempt Bool → Attempt Bool → Attempt (ℕ × List String) → Attempt (ℕ × List String)
  by_urls (threw failure) reverse rest = threw failure
  by_urls (returned true) reverse rest = returned (strong, "url_exact" ∷ [])
  by_urls (returned false) (threw failure) rest = threw failure
  by_urls (returned false) (returned true) rest = returned (strong, "url_exact" ∷ [])
  by_urls (returned false) (returned false) rest = rest

  unfoldable pub confidence_of : Signals → Signals → Attempt (ℕ × List String)
  unfolding by_name
  confidence_of a b =
      if exact_match a.email b.email
      then returned (full, "email_exact" ∷ [])
      else if exact_match a.twitter_handle b.twitter_handle
      then returned (strong, "twitter_exact" ∷ [])
      else by_urls (url_match a.blog_url b.website_url) (url_match a.website_url b.blog_url)
          (by_name a b)

  unfoldable pub match_confidence : List Observation → List Observation → Attempt (ℕ × List String)
  match_confidence observations_a observations_b =
      confidence_of (extract_signals observations_a) (extract_signals observations_b)

-- with the default threshold
unfoldable pub should_auto_merge : ℕ → Bool
should_auto_merge confidence = leb auto_merge_threshold confidence
