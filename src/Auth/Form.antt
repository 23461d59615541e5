-- ===== src/Auth/Form.antt =====
-- panel/app/(auth)/sign-in/sign-in-form.tsx: the form that signs a visitor in, as a state machine.
pub mod Accepted
use leakshield.Base.{
  String, Bool, true, false, not, Option, none, some, List, [], ◌∷◌, ◌++◌, if◌then◌else◌,
}
use leakshield.Base.Result.{Result, ok, throw}
use leakshield.Js.Text.{Text, lit, nonempty}
use leakshield.Env.{coalesce}

-- The arguments of one call of `signIn` that has not ended.
pub record Credentials : Type 0 where
  pub email : Text
  pub password : Text

pub record SignInForm : Type 0 where
  pub error : Option String
  pub in_flight : List Credentials
  -- Where `router.replace` has led.
  pub route : Option Text
  pub crashed : Bool

abbrev pub blank_form : SignInForm
blank_form = record { error = none; in_flight = []; route = none; crashed = false }

-- What `signIn` gives back: nothing, or a result with its `error`.
abbrev pub SignInResult : Type 0
SignInResult = Option (Option Text)

-- `!result || result.error`
unfoldable pub is_refused : SignInResult → Bool
is_refused none = true
is_refused (some none) = false
is_refused (some (some e)) = nonempty e

pub data FormEvent : Type 0 where
  -- The form is submitted with what its two fields hold.
  sent : Credentials → FormEvent
  -- `signIn` ends, or throws.
  ended : Result SignInResult → FormEvent

abbrev pub is_signing_in : SignInForm → Bool
is_signing_in s = elim s.in_flight [ [] ↦ false | _ ∷ _ ↦ true ]

-- What the transition does after `signIn`; `callback` is the query's `callbackUrl`.
unfoldable pub settle_result :
    (callback : Option Text) → Result SignInResult → SignInForm → SignInForm
unfolding is_refused
settle_result callback (throw _) s = record s { crashed = true }
settle_result callback (ok result) s =
    if is_refused result
    then record s { error = some "Invalid credentials. Please try again." }
    else record s { route = some (coalesce callback (lit "/dashboard")) }

abbrev pub settle_first :
    Option Text → List Credentials → Result SignInResult → SignInForm → SignInForm
settle_first callback [] result s = s
settle_first callback (c ∷ rest) result s =
    settle_result callback result (record s { in_flight = rest })

-- A disabled button submits nothing.
unfoldable pub form_react : (callback : Option Text) → FormEvent → SignInForm → SignInForm
unfolding settle_result
form_react callback (sent c) s =
    if is_signing_in s then s else record s { error = none; in_flight = s.in_flight ++ c ∷ [] }
form_react callback (ended result) s = settle_first callback s.in_flight result s

unfoldable pub form_step : (callback : Option Text) → FormEvent → SignInForm → SignInForm
unfolding form_react
form_step callback e s = if s.crashed then s else form_react callback e s

-- What the form shows: its alert, and its button.
pub record FormView : Type 0 where
  pub alert : Option String
  pub disabled : Bool
  pub button : String

unfoldable pub form_view : SignInForm → FormView
form_view s = record {
  alert = s.error;
  disabled = is_signing_in s;
  button = if is_signing_in s then "Signing in…" else "Sign in";
}
