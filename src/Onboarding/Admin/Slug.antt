-- ===== src/Onboarding/Admin/Slug.antt =====
-- panel/components/onboarding/step-1-create-admin.tsx, slugify: the company's name as a part of a URL.
pub mod Shape
use leakshield.Base.{
  ℕ, Bool, true, false, not, ◌&&◌, ◌||◌, [], ◌∷◌, filter, leb, ◌==◌, if◌then◌else◌, take,
}
use leakshield.Js.Text.{Text, nonempty, trim}

-- `[a-z0-9]`
abbrev pub is_slug_char : ℕ → Bool
is_slug_char c = (leb b'a' c && leb c b'z') || (leb b'0' c && leb c b'9')

-- The combining marks that `normalize("NFD")` splits off.
abbrev pub is_mark : ℕ → Bool
is_mark c = leb 768 c && leb c 879

-- `.replace(/[^a-z0-9]+/g, "-")`: the first argument says whether a run has been replaced just before.
unfoldable pub hyphenate : (in_run : Bool) → Text → Text
hyphenate in_run [] = []
hyphenate in_run (c ∷ s) =
    let kept = c ∷ hyphenate false s in
    let run = hyphenate true s in
    if is_slug_char c then kept else if in_run then run else b'-' ∷ run

-- `.replace(/^-+|-+$/g, "")`
unfoldable pub strip_start : Text → Text
strip_start [] = []
strip_start (c ∷ s) = let rest = strip_start s in if c == b'-' then rest else c ∷ s

unfoldable pub strip_end : Text → Text
strip_end [] = []
strip_end (c ∷ s) =
    let rest = strip_end s in if (c == b'-') && not (nonempty rest) then [] else c ∷ rest

-- `nfd` is `normalize("NFD")` and `lower` is `toLowerCase`, whose Unicode tables the engine brings.
unfoldable pub slugify : (nfd lower : Text → Text) → Text → Text
unfolding hyphenate strip_start strip_end
slugify nfd lower input = take 48 (
    strip_end
      (strip_start (hyphenate false (trim (lower (filter (λ c. not (is_mark c)) (nfd input)))))))
