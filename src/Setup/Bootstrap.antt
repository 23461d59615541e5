-- ===== src/Setup/Bootstrap.antt =====
-- panel/app/api/setup/bootstrap/route.ts: create the first admin of a fresh install.
pub mod Guards
use Prim.Native.String
use text.Mathlib.Text.{◌==◌ as str_eq}
use leakshield.Base.{
  ℕ, zero, suc, ◌/◌, ◌%◌, String, Bool, true, false, not, ◌||◌, Option, none, some, List, [], ◌∷◌,
  ◌++◌, ltb, ◌==◌, if◌then◌else◌, length,
}
use leakshield.Base.Result.{Result, ok, throw, ◌>>=◌}
use leakshield.Js.Text.{Text, lit}
use leakshield.Js.Json.{
  Json, bool, str, arr, obj, Items, nil, cons, Fields, end, field, lookup, get, given, call_trim,
  to_string, count_items,
}
use leakshield.Js.Email.{email_test}
use leakshield.Js.Http.{
  HttpRequest, Upstream, Reply, Outcome, Server, is_ok, json_response, local, ◌>=>◌,
}
use leakshield.Env.{gateway_url}
use leakshield.Proxy.{failure, demo_failure, catch_unreachable, text_or_status}

abbrev pub message_if : Bool → String → List Text
message_if true m = lit m ∷ []
message_if false m = []

-- `!v || v.trim().length < 2`
unfoldable pub name_missing : Option Json → Result Bool
name_missing none = ok true
name_missing (some v) = call_trim v >>= λ s. ok (ltb (length s) 2)

-- `!v || !pattern.test(v)`
unfoldable pub email_missing : Option Json → Result Bool
email_missing none = ok true
email_missing (some v) = to_string v >>= λ s. ok (not (email_test s))

-- `v < 8` for the value of an own `length` property of an object: numbers are kept by their printed
-- form, so the engine's comparison is a parameter.
module _ (below_eight : Json → Bool) where
  -- `password.length < 8`; what has no `length` gives `undefined`, which is not below 8.
  unfoldable pub too_short : Json → Bool
  too_short (str s) = ltb (length s) 8
  too_short (arr xs) = ltb (count_items xs) 8
  too_short (obj fs) = elim (lookup "length" fs) [ none ↦ false | some n ↦ below_eight n ]
  too_short _ = false

  unfoldable pub password_missing : Option Json → Bool
  unfolding too_short
  password_missing none = true
  password_missing (some v) = too_short v

  -- The messages, in the order in which they are pushed.
  unfoldable pub validate : Json → Result (List Text)
  unfolding name_missing email_missing password_missing
  validate body = do
    company ← name_missing (given (← get body "company_name"))
    name ← name_missing (given (← get body "full_name"))
    email ← email_missing (given (← get body "email"))
    password ← get body "password"
    ok (
        message_if company "company name is required"
        ++ (message_if name "your name is required"
            ++ (message_if email "a valid email is required"
                ++ message_if (password_missing (given password))
                    "password must be at least 8 characters")))

-- `errors.join("; ")`
unfoldable pub join_errors : List Text → Text
unfolding lit
join_errors [] = []
join_errors (m ∷ []) = m
join_errors (m ∷ n ∷ ms) = m ++ (lit "; " ++ join_errors (n ∷ ms))

-- The property name of an index, with fuel for its digits.
abbrev digit_names : List String
digit_names = "0" ∷ "1" ∷ "2" ∷ "3" ∷ "4" ∷ "5" ∷ "6" ∷ "7" ∷ "8" ∷ "9" ∷ []

abbrev digit_name : List String → ℕ → String
digit_name [] n = ""
digit_name (d ∷ ds) zero = d
digit_name (d ∷ ds) (suc n) = digit_name ds n

index_name : ℕ → ℕ → String
index_name zero n = ""
index_name (suc f) n =
    let last = digit_name digit_names (n % 10) in
    let front = index_name f (n / 10) in if ltb n 10 then last else String.◌++◌ front last

unfoldable pub spread_text : ℕ → Text → Fields
unfolding index_name
spread_text n [] = end
spread_text n (c ∷ s) = field (index_name (suc n) n) (str (c ∷ [])) (spread_text (suc n) s)

unfoldable pub spread_items : ℕ → Items → Fields
unfolding index_name
spread_items n nil = end
spread_items n (cons v xs) = field (index_name (suc n) n) v (spread_items (suc n) xs)

-- The fields of `...data`: strings and arrays spread by index, other values have none.
unfoldable pub spread : Json → Fields
unfolding spread_text spread_items
spread (obj fs) = fs
spread (str s) = spread_text 0 s
spread (arr xs) = spread_items 0 xs
spread _ = end

abbrev without : String → Fields → Fields
without k end = end
without k (field j v fs) = let rest = without k fs in if str_eq j k then rest else field j v rest

-- `{ ok: true, ...data }`: an `ok` in the data wins.
abbrev or_true : Option Json → Json
or_true none = bool true
or_true (some v) = v

unfoldable pub ok_with : Json → Json
unfolding spread
ok_with v = obj (field "ok" (or_true (lookup "ok" (spread v))) (without "ok" (spread v)))

unfoldable pub bootstrap_missing : Json
bootstrap_missing = demo_failure (
    lit
      "Gateway is up but the bootstrap endpoint is not implemented yet (Track D). The form is wired and ready.")

unfoldable pub bootstrap_request : Server → Json → HttpRequest
bootstrap_request srv body = record {
  method = "POST";
  url = gateway_url srv (lit "/admin/v1/auth/bootstrap");
  headers = ("Content-Type", lit "application/json") ∷ [];
  body = some body;
  timeout_ms = some 5000;
}

unfoldable pub bootstrap_response : Upstream → Result Reply
bootstrap_response res =
    if res.status == 404
    then json_response bootstrap_missing 503
    else if not (is_ok res.status)
    then (res.text >>= λ text. json_response (failure (text_or_status text res.status)) res.status)
    else (res.json >>= λ v. json_response (ok_with v) 200)

-- The handler once the body has been validated.
unfoldable pub send_bootstrap : Server → Json → List Text → Outcome
unfolding bootstrap_response join_errors
send_bootstrap srv body [] =
    let req = bootstrap_request srv body in
    record {
      sent = req ∷ [];
      result = catch_unreachable srv (srv.fetch req >>= bootstrap_response);
    }
send_bootstrap srv body (m ∷ ms) = local (json_response (failure (join_errors (m ∷ ms))) 400)

unfoldable pub bootstrap : (Json → Bool) → Server → Result Json → Outcome
unfolding send_bootstrap
bootstrap below_eight srv (throw _) =
    local (json_response (failure (lit "invalid request body")) 400)
bootstrap below_eight srv (ok body) = validate below_eight body >=> send_bootstrap srv body
