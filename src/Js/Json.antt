-- ===== src/Js/Json.antt =====
-- What `JSON.parse` gives back, read as dynamic JavaScript code reads it.
pub mod Given
use text.Mathlib.Text.{◌==◌ as str_eq}
use leakshield.Base.{
  ℕ, String, Bool, true, false, not, ◌&&◌, ◌||◌, Option, none, some, [], ◌∷◌, ◌++◌, if◌then◌else◌,
}
use leakshield.Base.Result.{Result, ok, throw, type_error, ◌>>=◌}
use leakshield.Js.Text.{Text, lit, nonempty, text_eq, trim}

mutual
  -- A number is kept as its `String(n)`: the panel only tests and forwards numbers.
  pub data Json : Type 0 where
    null : Json
    bool : Bool → Json
    num : Text → Json
    str : Text → Json
    arr : Items → Json
    obj : Fields → Json

  pub data Items : Type 0 where
    nil : Items
    cons : Json → Items → Items

  -- The own properties of an object, each key once.
  pub data Fields : Type 0 where
    end : Fields
    field : String → Json → Fields → Fields

unfoldable pub lookup : String → Fields → Option Json
lookup k end = none
lookup k (field j v fs) = if str_eq j k then some v else lookup k fs

abbrev pub has : String → Fields → Bool
has k fs = elim (lookup k fs) [ none ↦ false | some _ ↦ true ]

abbrev pub count_items : Items → ℕ
count_items nil = 0
count_items (cons _ xs) = ℕ.suc (count_items xs)

-- `v.k` for a key that no built-in prototype has; `none` is `undefined`. Only `null` throws.
unfoldable pub get : Json → String → Result (Option Json)
get null k = throw type_error
get (obj fs) k = ok (lookup k fs)
get _ k = ok none

-- `k in v`: the operand has to be an object.
unfoldable pub has_key : String → Json → Result Bool
has_key k (obj fs) = ok (has k fs)
has_key k (arr _) = ok false
has_key k _ = throw type_error

-- `Boolean(v)`
unfoldable pub truthy : Json → Bool
unfolding lit
truthy null = false
truthy (bool b) = b
truthy (num n) = not (text_eq n (lit "0"))
truthy (str s) = nonempty s
truthy (arr _) = true
truthy (obj _) = true

-- `v` where it is given and truthy: what is left after `!v` has returned.
unfoldable pub given : Option Json → Option Json
given none = none
given (some v) = if truthy v then some v else none

-- `typeof v === "string"`
unfoldable pub as_string : Json → Option Text
as_string (str s) = some s
as_string _ = none

-- `v.trim()`: only strings have the method.
unfoldable pub call_trim : Json → Result Text
call_trim (str s) = ok (trim s)
call_trim _ = throw type_error

-- `v ?? d`
unfoldable pub or_else : Option Json → Json → Json
or_else none d = d
or_else (some null) d = d
or_else (some v) d = v

abbrev pub comma_before : Items → Text → Text
comma_before nil rest = rest
comma_before (cons _ _) rest = b',' ∷ rest

-- An item of a joined array: `null` is empty.
abbrev pub item_text : Json → Result Text → Result Text
item_text null own = ok []
item_text _ own = own

-- `String(v)`. An own property `toString` hides the built-in one, and a parsed value is no function.
unfoldable mutual
  unfolding lit

  pub to_string : Json → Result Text
  to_string null = ok (lit "null")
  to_string (bool true) = ok (lit "true")
  to_string (bool false) = ok (lit "false")
  to_string (num n) = ok n
  to_string (str s) = ok s
  to_string (arr xs) = join_items xs
  to_string (obj fs) = if has "toString" fs then throw type_error else ok (lit "[object Object]")

  -- `xs.join(",")`
  pub join_items : Items → Result Text
  join_items nil = ok []
  join_items (cons v xs) =
      let first = item_text v (to_string v) in
      let rest = join_items xs in first >>= λ s. rest >>= λ t. ok (s ++ comma_before xs t)
