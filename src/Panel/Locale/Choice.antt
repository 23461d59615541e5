-- ===== src/Panel/Locale/Choice.antt =====
-- The language against the rule that the code follows.
use leakshield.Base.{
  ◌≡◌, refl, ◌≢◌, true, false, Option, none, some, List, [], ◌∷◌, ◌++◌, All, if_either,
}
use leakshield.Js.Text.{Text, lit, text_eq, starts_with}
use leakshield.Js.Text.Prefix.{text_eq-eq}
use leakshield.Panel.Locale.{
  Locale, en, tr, requested, first_known, negotiate_locale, supported, request_locale,
}

-- A language's own tag.
abbrev pub code_of : Locale → Text
code_of en = lit "en"
code_of tr = lit "tr"

abbrev pub Speaks : Locale → Text → Type 0
Speaks l tag = starts_with tag (code_of l) ≡ true

-- The tag begins with the code of no language of the panel.
abbrev pub IsForeign : Text → Type 0
IsForeign tag = (starts_with tag (lit "en") ≡ false) × (starts_with tag (lit "tr") ≡ false)

-- The language of the first tag that has one, whatever its weight; English if none has.
pub data FirstOf : List Text → Locale → Type 0 where
  none_known : {tags : List Text} → All IsForeign tags → FirstOf tags en
  known :
      (before : List Text) (tag : Text) (after : List Text) {l : Locale}
      → All IsForeign before
      → Speaks l tag
      → FirstOf (before ++ tag ∷ after) l

foreign-FirstOf :
    (tag : Text) (tags : List Text) (l : Locale)
    → IsForeign tag
    → FirstOf tags l
    → FirstOf (tag ∷ tags) l
foreign-FirstOf tag tags l f (none_known h) = none_known (f, h)
foreign-FirstOf tag tags l f (known before t after h s) = known (tag ∷ before) t after (f, h) s

first_known-FirstOf : (tags : List Text) → FirstOf tags (first_known tags)
unfolding first_known
first_known-FirstOf [] = none_known tt
first_known-FirstOf (tag ∷ tags) =
    if_either (FirstOf (tag ∷ tags)) (starts_with tag (lit "tr")) tr _ (λ e. known [] tag tags tt e)
      (λ n.
        if_either (FirstOf (tag ∷ tags)) (starts_with tag (lit "en")) en (first_known tags)
          (λ e. known [] tag tags tt e)
          (λ m. foreign-FirstOf tag tags _ (m, n) (first_known-FirstOf tags)))

-- The header decides; a missing or empty one leaves English.
pub data ByHeader (lower : Text → Text) : Option Text → Locale → Type 0 where
  missing : ByHeader lower none en
  empty : ByHeader lower (some []) en
  listed :
      (header : Text) {l : Locale}
      → FirstOf (requested lower header) l
      → ByHeader lower (some header) l

-- A cookie that holds the code of a language decides; any other leaves the header to decide.
pub data Chosen (lower : Text → Text) : (cookie header : Option Text) → Locale → Type 0 where
  by_cookie : (l : Locale) {header : Option Text} → Chosen lower (some (code_of l)) header l
  without_cookie :
      {header : Option Text} {l : Locale} → ByHeader lower header l → Chosen lower none header l
  other_cookie :
      (value : Text) {header : Option Text} {l : Locale}
      → ((k : Locale) → value ≢ code_of k)
      → ByHeader lower header l
      → Chosen lower (some value) header l

negotiate_locale-ByHeader :
    (lower : Text → Text) (header : Option Text)
    → ByHeader lower header (negotiate_locale lower header)
unfolding negotiate_locale
negotiate_locale-ByHeader lower none = missing
negotiate_locale-ByHeader lower (some []) = empty
negotiate_locale-ByHeader lower (some (c ∷ s)) = listed (c ∷ s) (first_known-FirstOf _)

supported-own : (l : Locale) → supported (code_of l) ≢ none
unfolding supported text_eq lit
supported-own en e = cc
supported-own tr e = cc

supported-code : (value : Text) (l : Locale) → supported value ≡ some l → value ≡ code_of l
unfolding supported
supported-code value l =
    if_either (λ o. o ≡ some l → value ≡ code_of l) (text_eq value (lit "en")) _ _
      (λ e h. let same : en ≡ l = cc in rw (← same) (text_eq-eq value (lit "en") e))
      (λ n.
        if_either (λ o. o ≡ some l → value ≡ code_of l) (text_eq value (lit "tr")) _ _
          (λ e h. let same : tr ≡ l = cc in rw (← same) (text_eq-eq value (lit "tr") e))
          (λ m h. cc))

cookie-Chosen :
    (lower : Text → Text) (value : Text) (header : Option Text) (o : Option Locale)
    → supported value ≡ o
    → Chosen lower
        (some value)
        header
        (elim o [ none ↦ negotiate_locale lower header | some l ↦ l ])
cookie-Chosen lower value header none e =
    other_cookie value (λ k h. supported-own k (rw h at e)) (negotiate_locale-ByHeader lower header)
cookie-Chosen lower value header (some l) e = rw (supported-code value l e) (by_cookie l)

-- Whatever the cookie and the header are, the language of a response is that of the cookie, if the
-- cookie names one exactly; otherwise that of the first tag in the header that begins with the code of
-- one; otherwise English.
pub request_locale-Chosen :
    (lower : Text → Text) (cookie header : Option Text)
    → Chosen lower cookie header (request_locale lower cookie header)
unfolding request_locale
request_locale-Chosen lower none header = without_cookie (negotiate_locale-ByHeader lower header)
request_locale-Chosen lower (some value) header =
    cookie-Chosen lower value header (supported value) refl
