-- ===== src/Onboarding/Admin/Slug/Shape.antt =====
-- What a slug looks like, whatever the name.
use leakshield.Base.{
  ℕ, zero, suc, ◌≤◌, ◌≡◌, refl, Bool, true, false, [], ◌∷◌, take, length, filter, not, ◌&&◌, ◌==◌,
  ==_iff, if_either, length-take_le,
}
use leakshield.Js.Text.{Text, trim, nonempty}
use leakshield.Onboarding.Admin.Slug.{
  hyphenate, is_mark, is_slug_char, slugify, strip_end, strip_start,
}

-- Only lower case letters, digits and single hyphens; `dashed` says that a hyphen is not allowed next.
pub data IsSlugFrom : (dashed : Bool) → Text → Type 0 where
  end : {dashed : Bool} → IsSlugFrom dashed []
  char :
      {dashed : Bool} {c : ℕ} {s : Text}
      → is_slug_char c ≡ true
      → IsSlugFrom false s
      → IsSlugFrom dashed (c ∷ s)
  dash : {c : ℕ} {s : Text} → c ≡ b'-' → IsSlugFrom true s → IsSlugFrom false (c ∷ s)

-- A slug does not begin with a hyphen, and has 48 characters at most.
pub record IsSlug (s : Text) : Type 0 where
  pub short : length s ≤ 48
  pub shape : IsSlugFrom true s

hyphenate-IsSlugFrom : (in_run : Bool) (s : Text) → IsSlugFrom in_run (hyphenate in_run s)
unfolding hyphenate
hyphenate-IsSlugFrom in_run [] = end
hyphenate-IsSlugFrom true (c ∷ s) =
    if_either (IsSlugFrom true) (is_slug_char c) _ _ (λ e. char e (hyphenate-IsSlugFrom false s))
      (λ _. hyphenate-IsSlugFrom true s)
hyphenate-IsSlugFrom false (c ∷ s) =
    if_either (IsSlugFrom false) (is_slug_char c) _ _ (λ e. char e (hyphenate-IsSlugFrom false s))
      (λ _. dash refl (hyphenate-IsSlugFrom true s))

any-IsSlugFrom : (s : Text) → IsSlugFrom true s → IsSlugFrom false s
any-IsSlugFrom [] h = end
any-IsSlugFrom (c ∷ s) (char e h) = char e h

strip_start-IsSlugFrom :
    (dashed : Bool) (s : Text) → IsSlugFrom dashed s → IsSlugFrom true (strip_start s)
unfolding strip_start
strip_start-IsSlugFrom dashed [] h = end
strip_start-IsSlugFrom dashed (c ∷ s) (char e h) =
    if_either (IsSlugFrom true) (c == b'-') _ _ (λ _. strip_start-IsSlugFrom false s h)
      (λ _. char e h)
strip_start-IsSlugFrom dashed (c ∷ s) (dash e h) =
    rw ((==_iff _ _).1 e) (strip_start-IsSlugFrom true s h)

strip_end-IsSlugFrom :
    (dashed : Bool) (s : Text) → IsSlugFrom dashed s → IsSlugFrom dashed (strip_end s)
unfolding strip_end
strip_end-IsSlugFrom dashed [] h = end
strip_end-IsSlugFrom dashed (c ∷ s) (char e h) =
    if_either (IsSlugFrom dashed) ((c == b'-') && not (nonempty (strip_end s))) _ _ (λ _. end)
      (λ _. char e (strip_end-IsSlugFrom false s h))
strip_end-IsSlugFrom dashed (c ∷ s) (dash e h) =
    if_either (IsSlugFrom false) ((c == b'-') && not (nonempty (strip_end s))) _ _ (λ _. end)
      (λ _. dash e (strip_end-IsSlugFrom true s h))

take-IsSlugFrom :
    (n : ℕ) (dashed : Bool) (s : Text) → IsSlugFrom dashed s → IsSlugFrom dashed (take n s)
take-IsSlugFrom zero dashed s h = end
take-IsSlugFrom (suc n) dashed [] h = end
take-IsSlugFrom (suc n) dashed (c ∷ s) (char e h) = char e (take-IsSlugFrom n false s h)
take-IsSlugFrom (suc n) dashed (c ∷ s) (dash e h) = dash e (take-IsSlugFrom n true s h)

-- The slug of any name consists of lower case letters, digits and single hyphens, does not begin with a
-- hyphen, and has 48 characters at most, whatever `normalize` and `toLowerCase` give.
pub slugify-IsSlug : (nfd lower : Text → Text) (input : Text) → IsSlug (slugify nfd lower input)
unfolding slugify
slugify-IsSlug nfd lower input = record {
  short = length-take_le 48 _;
  shape = take-IsSlugFrom 48 true _ (
      strip_end-IsSlugFrom true _ (
        strip_start-IsSlugFrom false _
          (hyphenate-IsSlugFrom false (trim (lower (filter (λ c. not (is_mark c)) (nfd input)))))));
}
