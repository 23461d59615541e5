-- ===== src/Js/Json/Given.antt =====
-- What is known of a value that has passed `!v`, and of one that could be trimmed.
use leakshield.Base.{◌≡◌, refl, true, Option, none, some, arith}
use leakshield.Base.Result.{ok}
use leakshield.Js.Text.{Text, trim}
use leakshield.Js.Json.{Json, str, truthy, given, call_trim}

pub given-some : (o : Option Json) (v : Json) → given o ≡ some v → (o ≡ some v) × (truthy v ≡ true)
unfolding given
given-some none v e = cc
given-some (some w) v e = ground arith

pub given_of_truthy : (v : Json) → truthy v ≡ true → given (some v) ≡ some v
unfolding given
given_of_truthy v h = rw h

pub call_trim-str :
    (v : Json) (t : Text) → call_trim v ≡ ok t → (s : Text) × (v ≡ str s) × (t ≡ trim s)
unfolding call_trim
call_trim-str (str s) t e = (s, refl, cc)
call_trim-str _ t e = cc
