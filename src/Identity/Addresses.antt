-- ===== src/Identity/Addresses.antt =====
-- When the LinkedIn test of backend/app/identity/matchers.py holds.
use the_vc_brain.Prelude.{
  ◌≡◌, ◌≢◌, ◌↔◌, ◌⊎◌, inl, inr, refl, Bool, true, false, Option, none, some, String, str_eq, eq_iff,
  ◌||◌, Bool-cases,
}
use the_vc_brain.Sla.{truthy}
use the_vc_brain.Identity.Matchers.{
  Texts, linkedin_name_match, or_else, text_of, slug_names, slug_of,
}
use the_vc_brain.Identity.Alike.{differs, named-truthy, truthy-named}

-- The first of two columns that holds a text which is not empty holds this one.
pub data FirstText (text : String) : Option String → Option String → Type 0 where
  mine : {b : Option String} → text ≢ "" → FirstText text (some text) b
  theirs_absent : text ≢ "" → FirstText text none (some text)
  theirs_empty : text ≢ "" → FirstText text (some "") (some text)

to-FirstText :
    (a b : Option String) → truthy (or_else a b) ≡ true → FirstText (text_of (or_else a b)) a b
to-FirstText none none e = cc e
to-FirstText none (some y) e = theirs_absent (truthy-named y e)
to-FirstText (some x) b e = elim (Bool-cases (str_eq x "")) [
  | inr h ↦ rw h (mine (differs x "" h))
  | inl h ↦ with_empty b e ((eq_iff x "").0 h)
]
  where
    with_empty :
        (b : Option String)
        → truthy (or_else (some x) b) ≡ true
        → x ≡ ""
        → FirstText (text_of (or_else (some x) b)) (some x) b
    with_empty none e h = cc (rw h at e)
    with_empty (some y) e h = rw h (theirs_empty (truthy-named y (rw h at e)))

from-FirstText :
    {text : String} (a b : Option String) → FirstText text a b → or_else a b ≡ some text
from-FirstText (some x) b (mine n) = rw (named-truthy x n)
from-FirstText _ _ (theirs_absent n) = refl
from-FirstText _ _ (theirs_empty n) = refl

module _ (texts : Texts) where
  -- The slug of an address is what follows its last "/in/", up to the next slash, with spaces for
  -- dashes and in lower case. It holds the name in lower case or stands in it.
  pub record IsNamedBy (linkedin other_linkedin name other_name : Option String) : Type 0 where
    pub address : String
    pub called : String
    pub is_address : FirstText address linkedin other_linkedin
    pub is_name : FirstText called name other_name
    pub slug : String
    pub is_slug :
        slug
        ≡ texts.lower
            (texts.dashes_to_spaces (texts.first_part "/" (texts.last_part "/in/" address)))
    pub fits :
        ((slug ≢ "") × (texts.contains (texts.lower called) slug ≡ true))
        ⊎ (texts.contains slug (texts.lower called) ≡ true)

  slug_names-to :
      (slug name : String)
      → slug_names texts slug name ≡ true
      → ((slug ≢ "") × (texts.contains (texts.lower name) slug ≡ true))
        ⊎ (texts.contains slug (texts.lower name) ≡ true)
  slug_names-to slug name e = elim (Bool-cases (str_eq slug "")) [
    | inl h ↦ inr (rw h at e)
    | inr h ↦ elim (Bool-cases (texts.contains (texts.lower name) slug)) [
      | inl k ↦ inl (differs slug "" h, k)
      | inr k ↦ inr (rw (h, k) at e)
    ]
  ]

  or_true : (x : Bool) → (x || true) ≡ true
  or_true true = refl
  or_true false = refl

  slug_names-from :
      (slug name : String)
      → ((slug ≢ "") × (texts.contains (texts.lower name) slug ≡ true))
        ⊎ (texts.contains slug (texts.lower name) ≡ true)
      → slug_names texts slug name ≡ true
  slug_names-from slug name (inl (n, k)) = elim (Bool-cases (str_eq slug "")) [
    | inl h ↦ absurd (n ((eq_iff slug "").0 h))
    | inr h ↦ rw (h, k)
  ]
  slug_names-from slug name (inr k) = rw (k, or_true)

  pub linkedin_name_match-IsNamedBy :
      (l m x y : Option String)
      → (linkedin_name_match texts (or_else l m) (or_else x y) ≡ true) ↔ IsNamedBy l m x y
  unfolding linkedin_name_match
  linkedin_name_match-IsNamedBy l m x y = (to, from)
    where
      to : linkedin_name_match texts (or_else l m) (or_else x y) ≡ true → IsNamedBy l m x y
      to e = elim (Bool-cases (truthy (or_else l m))) [
        | inr h ↦ cc (rw h at e)
        | inl h ↦ elim (Bool-cases (truthy (or_else x y))) [
          | inr k ↦ cc (rw (h, k) at e)
          | inl k ↦ record {
            address = text_of (or_else l m);
            called = text_of (or_else x y);
            is_address = to-FirstText l m h;
            is_name = to-FirstText x y k;
            slug = slug_of texts (text_of (or_else l m));
            is_slug = refl;
            fits = slug_names-to _ _ (rw (h, k) at e);
          }
        ]
      ]

      from : IsNamedBy l m x y → linkedin_name_match texts (or_else l m) (or_else x y) ≡ true
      from h =
          let first = from-FirstText l m h.is_address in
          let second = from-FirstText x y h.is_name in
          let address_named : truthy (some h.address) ≡ true =
            named-truthy h.address (named l m h.is_address) in
          let name_named : truthy (some h.called) ≡ true =
            named-truthy h.called (named x y h.is_name) in
          rw (first, second, address_named, name_named, ← h.is_slug)
            (slug_names-from h.slug h.called h.fits)
        where
          named : {text : String} (a b : Option String) → FirstText text a b → text ≢ ""
          named _ _ (mine n) = n
          named _ _ (theirs_absent n) = n
          named _ _ (theirs_empty n) = n
