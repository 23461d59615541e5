-- ===== src/Js/Uri/Segment.antt =====
-- What `encodeURIComponent` can write, as a segment of a path.
use leakshield.Base.{
  ℕ, ◌+◌, ◌/◌, ◌%◌, ◌<◌, ◌≡◌, ◌≢◌, refl, Bool, true, false, ◌&&◌, ◌||◌, [], ◌∷◌, ◌++◌, ltb, arith,
  All, Bool-cases, if◌then◌else◌, inl, inr,
}
use leakshield.Base.Result.{Result, ok, throw, uri_error, >>=-eq-ok, ok-injective}
use leakshield.Js.Text.{Text}
use leakshield.Js.Uri.{
  is_unreserved, hex_digit, percent, utf8, is_high, is_low, encode_unit, encode_uri_component,
  prepend, code_point,
}

-- No slash, question mark or number sign.
abbrev pub IsInner : ℕ → Type 0
IsInner c = (c ≢ b'/') × (c ≢ b'?') × (c ≢ b'#')

abbrev pub IsSegment : Text → Type 0
IsSegment s = All IsInner s

IsSegment-append : (s t : Text) → IsSegment s → IsSegment t → IsSegment (s ++ t)
IsSegment-append [] t h k = k
IsSegment-append (c ∷ s) t h k = (h.0, IsSegment-append s t h.1 k)

unreserved-IsInner : (c : ℕ) → is_unreserved c ≡ true → IsInner c
unfolding is_unreserved
unreserved-IsInner c h = (
  λ e. let wrong : false ≡ true = rw e at h in cc,
  λ e. let wrong : false ≡ true = rw e at h in cc,
  λ e. let wrong : false ≡ true = rw e at h in cc,
)

hex_digit-IsInner : (n : ℕ) → n < 16 → IsInner (hex_digit n)
unfolding hex_digit
hex_digit-IsInner n h = ground arith

percent-IsSegment : (b : ℕ) → b < 256 → IsSegment (percent b)
unfolding percent
percent-IsSegment b h = (
  (omega arith, omega arith, omega arith),
  (hex_digit-IsInner (b / 16) (omega arith), (hex_digit-IsInner (b % 16) (omega arith), tt)),
)

if-IsSegment :
    (b : Bool) (s t : Text)
    → (b ≡ true → IsSegment s)
    → (b ≡ false → IsSegment t)
    → IsSegment (if b then s else t)
if-IsSegment true s t h k = h refl
if-IsSegment false s t h k = k refl

utf8-IsSegment : (p : ℕ) → p < 1114112 → IsSegment (utf8 p)
unfolding utf8
utf8-IsSegment p h =
    let a = percent (128 + p % 64) in
    let b = percent (128 + p / 64 % 64) in
    let c = percent (128 + p / 4096 % 64) in
    let one = percent-IsSegment (128 + p % 64) (omega arith) in
    let two = IsSegment-append b a (percent-IsSegment (128 + p / 64 % 64) (omega arith)) one in
    let three =
      IsSegment-append c (b ++ a) (percent-IsSegment (128 + p / 4096 % 64) (omega arith)) two in
    if-IsSegment (ltb p 128) _ _ (λ e. percent-IsSegment p (ground arith))
      (λ _.
        if-IsSegment (ltb p 2048) _ _
          (λ e.
            IsSegment-append (percent (192 + p / 64)) a
              (percent-IsSegment (192 + p / 64) (ground arith)) one)
          (λ _.
            if-IsSegment (ltb p 65536) _ _
              (λ e.
                IsSegment-append (percent (224 + p / 4096)) (b ++ a)
                  (percent-IsSegment (224 + p / 4096) (ground arith)) two)
              (λ _.
                IsSegment-append (percent (240 + p / 262144)) (c ++ (b ++ a))
                  (percent-IsSegment (240 + p / 262144) (omega arith)) three)))

encode_unit-IsSegment : (c : ℕ) (t : Text) → c < 65536 → encode_unit c ≡ ok t → IsSegment t
unfolding encode_unit
encode_unit-IsSegment c t h e = elim (Bool-cases (is_unreserved c)) [
  | inl u ↦
      let same : c ∷ [] ≡ t = ok-injective (rw (u, encode_unit) at e) in
      rw (← same) (unreserved-IsInner c u, tt)
  | inr n ↦ elim (Bool-cases (is_high c || is_low c)) [
    | inl half ↦
        let wrong : ◌≡◌ {A = Result Text} (throw uri_error) (ok t) =
          rw (n, encode_unit, half) at e in
        cc
    | inr whole ↦
        let same : utf8 c ≡ t = ok-injective (rw (n, encode_unit, whole) at e) in
        rw (← same) (utf8-IsSegment c (omega arith))
  ]
]

pub prepend-ok :
    (a : Text) (m : Result Text) (t : Text)
    → prepend a m ≡ ok t
    → (b : Text) × (m ≡ ok b) × (a ++ b ≡ t)
prepend-ok a (ok b) t e = (b, refl, ok-injective e)
prepend-ok a (throw x) t e = cc

code_point-lt : (c d : ℕ) → (is_high c && is_low d) ≡ true → code_point c d < 1114112
unfolding code_point
code_point-lt c d h = ground arith

-- A text of UTF-16 code units that can be encoded at all is encoded without a slash, a question mark
-- or a number sign.
pub encode_uri_component-IsSegment :
    (s t : Text) → All (λ c. c < 65536) s → encode_uri_component s ≡ ok t → IsSegment t
unfolding encode_uri_component
encode_uri_component-IsSegment [] t h e = let same : [] ≡ t = ok-injective e in rw (← same) tt
encode_uri_component-IsSegment (c ∷ []) t h e = encode_unit-IsSegment c t h.0 e
encode_uri_component-IsSegment (c ∷ d ∷ s) t h e = elim (Bool-cases (is_high c && is_low d)) [
  | inl pair ↦
      let (b, after, same) =
        prepend-ok (utf8 (code_point c d)) (encode_uri_component s) t
          (rw (pair, encode_uri_component) at e) in
      rw (← same) (
        IsSegment-append (utf8 (code_point c d)) b
          (utf8-IsSegment (code_point c d) (code_point-lt c d pair))
          (encode_uri_component-IsSegment s b h.1.1 after))
  | inr single ↦
      let (a, first, rest) = >>=-eq-ok (encode_unit c) _ (rw (single, encode_uri_component) at e) in
      let (b, after, same) = prepend-ok a (encode_uri_component (d ∷ s)) t rest in
      rw (← same) (
        IsSegment-append a b (encode_unit-IsSegment c a h.0 first)
          (encode_uri_component-IsSegment (d ∷ s) b h.1 after))
]
