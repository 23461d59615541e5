-- ===== src/Panel/Locale.antt =====
-- panel/i18n/request.ts: the language of a response, by a cookie or by the Accept-Language header.
pub mod Choice
use leakshield.Base.{ℕ, ◌||◌, Option, none, some, List, [], ◌∷◌, map, filter, ◌==◌, if◌then◌else◌}
use leakshield.Js.Text.{Text, lit, nonempty, text_eq, trim, starts_with}

pub data Locale : Type 0 where
  en tr : Locale

abbrev pub default_locale : Locale
default_locale = en

abbrev push : ℕ → List Text → List Text
push c [] = (c ∷ []) ∷ []
push c (w ∷ ws) = (c ∷ w) ∷ ws

-- `s.split(c)` for a separator of one character.
unfoldable pub split_on : ℕ → Text → List Text
split_on d [] = [] ∷ []
split_on d (c ∷ s) = let rest = split_on d s in if c == d then [] ∷ rest else push c rest

-- `xs[0] ?? ""`
abbrev first_or_empty : List Text → Text
first_or_empty [] = []
first_or_empty (w ∷ ws) = w

-- One language tag of the header: `token.trim().split(";")[0]?.toLowerCase() ?? ""`.
unfoldable pub tag_of : (lower : Text → Text) → Text → Text
unfolding split_on
tag_of lower token = lower (first_or_empty (split_on b';' (trim token)))

-- `requested`
unfoldable pub requested : (lower : Text → Text) → Text → List Text
unfolding split_on tag_of
requested lower header = filter nonempty (map (tag_of lower) (split_on b',' header))

-- The loop over the tags.
unfoldable pub first_known : List Text → Locale
first_known [] = default_locale
first_known (tag ∷ tags) =
    let rest = first_known tags in
    if starts_with tag (lit "tr") then tr else if starts_with tag (lit "en") then en else rest

unfoldable pub negotiate_locale : (lower : Text → Text) → Option Text → Locale
unfolding requested first_known
negotiate_locale lower none = default_locale
negotiate_locale lower (some header) =
    if nonempty header then first_known (requested lower header) else default_locale

-- `locales.includes(fromCookie) ? fromCookie`
unfoldable pub supported : Text → Option Locale
supported value =
    if text_eq value (lit "en") then some en else if text_eq value (lit "tr") then some tr else none

-- The `locale` of the request's configuration, by the cookie and the header.
unfoldable pub request_locale : (lower : Text → Text) → (cookie header : Option Text) → Locale
unfolding supported negotiate_locale
request_locale lower none header = negotiate_locale lower header
request_locale lower (some value) header = elim (supported value) [
  | none ↦ negotiate_locale lower header
  | some l ↦ l
]
