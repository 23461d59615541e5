-- ===== src/Js/Uri/Plain.antt =====
-- When `encodeURIComponent` leaves a text as it is.
use leakshield.Base.{
  ℕ, ◌≡◌, ◌≢◌, refl, ap, ◌∙◌, ◌&&◌, ◌||◌, [], ◌∷◌, ◌++◌, ltb, All, Bool-cases, if_either, inl, inr,
}
use leakshield.Base.Result.{Result, ok, throw, uri_error, >>=-eq-ok, ok-injective}
use leakshield.Js.Text.{Text}
use leakshield.Js.Uri.{
  is_unreserved, percent, utf8, is_high, is_low, encode_unit, encode_uri_component, code_point,
}
use leakshield.Js.Uri.Segment.{prepend-ok}

-- No percent sign.
abbrev pub IsPlain : Text → Type 0
IsPlain t = All (λ c. c ≢ b'%') t

IsPlain-first : (s t : Text) → IsPlain (s ++ t) → IsPlain s
IsPlain-first [] t h = tt
IsPlain-first (c ∷ s) t h = (h.0, IsPlain-first s t h.1)

IsPlain-second : (s t : Text) → IsPlain (s ++ t) → IsPlain t
IsPlain-second [] t h = h
IsPlain-second (c ∷ s) t h = IsPlain-second s t h.1

not-IsPlain-utf8 : (p : ℕ) → IsPlain (utf8 p) → ⊥
unfolding utf8 percent
not-IsPlain-utf8 p =
    if_either (λ t. IsPlain t → ⊥) (ltb p 128) _ _ (λ _. λ h. h.0 refl)
      (λ _.
        if_either (λ t. IsPlain t → ⊥) (ltb p 2048) _ _ (λ _. λ h. h.0 refl)
          (λ _.
            if_either (λ t. IsPlain t → ⊥) (ltb p 65536) _ _ (λ _. λ h. h.0 refl)
              (λ _. λ h. h.0 refl)))

encode_unit-plain : (c : ℕ) (t : Text) → encode_unit c ≡ ok t → IsPlain t → c ∷ [] ≡ t
unfolding encode_unit
encode_unit-plain c t e h = elim (Bool-cases (is_unreserved c)) [
  | inl u ↦ ok-injective (rw (u, encode_unit) at e)
  | inr n ↦ elim (Bool-cases (is_high c || is_low c)) [
    | inl half ↦
        let wrong : ◌≡◌ {A = Result Text} (throw uri_error) (ok t) =
          rw (n, encode_unit, half) at e in
        cc
    | inr whole ↦
        let same : utf8 c ≡ t = ok-injective (rw (n, encode_unit, whole) at e) in
        absurd (not-IsPlain-utf8 c (rw same h))
  ]
]

-- A text whose encoding has no percent sign is its own encoding.
pub encode_uri_component-plain : (s t : Text) → encode_uri_component s ≡ ok t → IsPlain t → s ≡ t
unfolding encode_uri_component
encode_uri_component-plain [] t e h = ok-injective e
encode_uri_component-plain (c ∷ []) t e h = encode_unit-plain c t e h
encode_uri_component-plain (c ∷ d ∷ s) t e h = elim (Bool-cases (is_high c && is_low d)) [
  | inl pair ↦
      let (b, after, same) =
        prepend-ok (utf8 (code_point c d)) (encode_uri_component s) t
          (rw (pair, encode_uri_component) at e) in
      absurd
        (not-IsPlain-utf8 (code_point c d) (IsPlain-first (utf8 (code_point c d)) b (rw same h)))
  | inr single ↦
      let (a, first, rest) = >>=-eq-ok (encode_unit c) _ (rw (single, encode_uri_component) at e) in
      let (b, after, same) = prepend-ok a (encode_uri_component (d ∷ s)) t rest in
      let plain : IsPlain (a ++ b) = rw same h in
      let one = encode_unit-plain c a first (IsPlain-first a b plain) in
      let others = encode_uri_component-plain (d ∷ s) b after (IsPlain-second a b plain) in
      ap (λ x. x ++ (d ∷ s)) one ∙ ap (λ x. a ++ x) others ∙ same
]
