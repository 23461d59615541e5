-- ===== src/Js/Uri.antt =====
-- `encodeURIComponent`, which puts a text into one segment of a path.
pub mod Segment
pub mod Plain
use leakshield.Base.{
  ℕ, ◌+◌, ◌-◌, ◌*◌, ◌/◌, ◌%◌, Bool, ◌&&◌, ◌||◌, [], ◌∷◌, ◌++◌, leb, ltb, ◌==◌, if◌then◌else◌,
}
use leakshield.Base.Result.{Result, ok, throw, uri_error, ◌>>=◌}
use leakshield.Js.Text.{Text}

unfoldable pub is_unreserved : ℕ → Bool
is_unreserved c =
    (leb b'A' c && leb c b'Z')
    || (leb b'a' c && leb c b'z')
    || (leb b'0' c && leb c b'9')
    || (c == b'-')
    || (c == b'_')
    || (c == b'.')
    || (c == b'!')
    || (c == b'~')
    || (c == b'*')
    || (c == 39)
    || (c == b'(')
    || (c == b')')

unfoldable pub hex_digit : ℕ → ℕ
hex_digit n = if ltb n 10 then b'0' + n else b'A' + (n - 10)

-- One byte as `%XX`.
unfoldable pub percent : ℕ → Text
unfolding hex_digit
percent b = b'%' ∷ hex_digit (b / 16) ∷ hex_digit (b % 16) ∷ []

-- The UTF-8 bytes of a code point, each as `%XX`.
unfoldable pub utf8 : ℕ → Text
unfolding percent
utf8 p =
    if ltb p 128
    then percent p
    else if ltb p 2048
    then percent (192 + p / 64) ++ percent (128 + p % 64)
    else if ltb p 65536
    then percent (224 + p / 4096) ++ (percent (128 + p / 64 % 64) ++ percent (128 + p % 64))
    else percent (240 + p / 262144)
      ++ (percent (128 + p / 4096 % 64) ++ (percent (128 + p / 64 % 64) ++ percent (128 + p % 64)))

abbrev pub is_high : ℕ → Bool
is_high c = leb 55296 c && leb c 56319

abbrev pub is_low : ℕ → Bool
is_low c = leb 56320 c && leb c 57343

-- The code point of a surrogate pair.
unfoldable pub code_point : ℕ → ℕ → ℕ
code_point c d = 65536 + (c - 55296) * 1024 + (d - 56320)

abbrev pub prepend : Text → Result Text → Result Text
prepend a m = m >>= λ b. ok (a ++ b)

-- A code unit that stands alone: half of a surrogate pair is an error.
unfoldable pub encode_unit : ℕ → Result Text
unfolding is_unreserved utf8
encode_unit c =
    if is_unreserved c
    then ok (c ∷ [])
    else if is_high c || is_low c
    then throw uri_error
    else ok (utf8 c)

unfoldable pub encode_uri_component : Text → Result Text
unfolding encode_unit
encode_uri_component [] = ok []
encode_uri_component (c ∷ []) = encode_unit c
encode_uri_component (c ∷ d ∷ s) =
    let after_pair = encode_uri_component s in
    let after_unit = encode_uri_component (d ∷ s) in
    let joined : Result Text = prepend (utf8 (code_point c d)) after_pair in
    let single : Result Text = encode_unit c >>= λ a. prepend a after_unit in
    if is_high c && is_low d then joined else single
