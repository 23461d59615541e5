-- ===== src/Js/Text/Trim.antt =====
-- Laws of `trim`.
use mathlib.Core.List.{reverse, reverse-append, reverse-reverse, reverse-cons}
use leakshield.Base.{◌≡◌, refl, sym, ap, ◌∙◌, true, false, [], ◌∷◌, ◌++◌, All, Bool-cases, inl, inr}
use leakshield.Js.Text.{Text, nonempty, is_space, trim_start, trim_end, trim}

-- The first character, if there is one, is no white space.
abbrev StartsClean : Text → Type 0
StartsClean [] = Unit
StartsClean (c ∷ s) = is_space c ≡ false

trim_start-StartsClean : (s : Text) → StartsClean (trim_start s)
unfolding trim_start
trim_start-StartsClean [] = tt
trim_start-StartsClean (c ∷ s) = elim (Bool-cases (is_space c)) [
  | inl e ↦ rw e (trim_start-StartsClean s)
  | inr n ↦ rw n n
]

trim_start_of_StartsClean : (s : Text) → StartsClean s → trim_start s ≡ s
unfolding trim_start
trim_start_of_StartsClean [] h = refl
trim_start_of_StartsClean (c ∷ s) h = rw h

-- What `trim_start` takes away stands in front.
trim_start-suffix : (s : Text) → (a : Text) × (s ≡ a ++ trim_start s)
unfolding trim_start
trim_start-suffix [] = ([], refl)
trim_start-suffix (c ∷ s) = elim (Bool-cases (is_space c)) [
  | inl e ↦ let (a, h) = trim_start-suffix s in (c ∷ a, rw e (ap (λ t. c ∷ t) h))
  | inr n ↦ ([], rw n)
]

trim_end-prefix : (s : Text) → (b : Text) × (s ≡ trim_end s ++ b)
unfolding trim_end
trim_end-prefix s =
    let (a, h) = trim_start-suffix (reverse s) in
    (reverse a, sym (reverse-reverse s) ∙ ap reverse h ∙ reverse-append a (trim_start (reverse s)))

StartsClean-prefix : (s b : Text) → StartsClean (s ++ b) → StartsClean s
StartsClean-prefix [] b h = tt
StartsClean-prefix (c ∷ s) b h = h

trim_end-StartsClean : (s : Text) → StartsClean s → StartsClean (trim_end s)
trim_end-StartsClean s h =
    let (b, e) = trim_end-prefix s in StartsClean-prefix (trim_end s) b (rw e at h)

trim_end-trim_end : (s : Text) → trim_end (trim_end s) ≡ trim_end s
unfolding trim_end
trim_end-trim_end s =
    rw (reverse-reverse (trim_start (reverse s)))
      (rw (trim_start_of_StartsClean _ (trim_start-StartsClean (reverse s))))

pub trim-trim : (s : Text) → trim (trim s) ≡ trim s
unfolding trim
trim-trim s =
    ap trim_end
      (trim_start_of_StartsClean _ (trim_end-StartsClean (trim_start s) (trim_start-StartsClean s)))
    ∙ trim_end-trim_end (trim_start s)

abbrev pub NoSpace : Text → Type 0
NoSpace s = All (λ c. is_space c ≡ false) s

NoSpace-StartsClean : (s : Text) → NoSpace s → StartsClean s
NoSpace-StartsClean [] h = tt
NoSpace-StartsClean (c ∷ s) h = h.0

NoSpace-append : (s t : Text) → NoSpace s → NoSpace t → NoSpace (s ++ t)
NoSpace-append [] t h k = k
NoSpace-append (c ∷ s) t h k = (h.0, NoSpace-append s t h.1 k)

NoSpace-reverse : (s : Text) → NoSpace s → NoSpace (reverse s)
NoSpace-reverse [] h = tt
NoSpace-reverse (c ∷ s) h =
    rw reverse-cons (NoSpace-append (reverse s) (c ∷ []) (NoSpace-reverse s h.1) (h.0, tt))

pub trim_of_NoSpace : (s : Text) → NoSpace s → trim s ≡ s
unfolding trim trim_end
trim_of_NoSpace s h = rw (trim_start_of_StartsClean s (NoSpace-StartsClean s h)) (
    rw (trim_start_of_StartsClean (reverse s) (NoSpace-StartsClean _ (NoSpace-reverse s h)))
      (reverse-reverse s))

pub trim-nonempty : (s : Text) → nonempty (trim s) ≡ true → nonempty s ≡ true
unfolding trim trim_end trim_start
trim-nonempty [] h = cc
trim-nonempty (c ∷ s) h = refl
