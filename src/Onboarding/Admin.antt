-- ===== src/Onboarding/Admin.antt =====
-- panel/components/onboarding/step-1-create-admin.tsx: create the first company and its admin. The
-- form posts to the set-up route; once that has succeeded, the new admin is signed in.
pub mod Slug
pub mod View
pub mod Validated
pub mod Posted
pub mod Runs
pub mod Created
pub mod Credentials
use leakshield.Base.{
  Bool, true, false, not, ◌&&◌, ◌||◌, Option, none, some, List, [], ◌∷◌, ◌++◌, length, leb,
  if◌then◌else◌,
}
use leakshield.Base.Result.{Result, ok, throw, ◌>>=◌}
use leakshield.Js.Text.{Text, lit, nonempty, text_eq, trim}
use leakshield.Js.Json.{Json, str, obj, end, field}
use leakshield.Js.Uri.{encode_uri_component}
use leakshield.Js.Http.{Upstream, is_ok}
use leakshield.Onboarding.Admin.Slug.{slugify}
use leakshield.Onboarding.Provider.Screen.{save_failure}

pub record AdminForm : Type 0 where
  pub company_name : Text
  pub full_name : Text
  pub email : Text
  pub password : Text
  pub confirm : Text

pub data AdminKey : Type 0 where
  company_name full_name email password confirm : AdminKey

unfoldable pub set_admin : AdminKey → Text → AdminForm → AdminForm
set_admin AdminKey.company_name v f = record f { company_name = v }
set_admin AdminKey.full_name v f = record f { full_name = v }
set_admin AdminKey.email v f = record f { email = v }
set_admin AdminKey.password v f = record f { password = v }
set_admin AdminKey.confirm v f = record f { confirm = v }

unfoldable pub password_ok : AdminForm → Bool
password_ok f = leb 8 (length f.password)

unfoldable pub passwords_match : AdminForm → Bool
passwords_match f = nonempty f.password && text_eq f.password f.confirm

-- The action in flight: the request to the set-up route, or the sign-in. Both keep the address as it
-- was typed when the form was submitted, and the credentials to sign in with.
pub data AdminJob : Type 0 where
  creating : (body : Json) (typed address secret : Text) → AdminJob
  signing_in : (typed address secret : Text) → AdminJob

pub record AdminScreen : Type 0 where
  pub form : AdminForm
  pub error : Option Json
  pub demo : Bool
  pub in_flight : List AdminJob
  pub route : Option Text
  -- An action that throws unmounts the screen.
  pub crashed : Bool

unfoldable pub blank : AdminScreen
blank = record {
  form = record { company_name = []; full_name = []; email = []; password = []; confirm = [] };
  error = none;
  demo = false;
  in_flight = [];
  route = none;
  crashed = false;
}

abbrev pub is_creating : AdminScreen → Bool
is_creating s = elim s.in_flight [ [] ↦ false | _ ∷ _ ↦ true ]

-- `nfd` and `lower` are `normalize("NFD")` and `toLowerCase`.
module _ (nfd lower : Text → Text) where
  unfoldable pub admin_body : AdminForm → Json
  admin_body f = obj (
      field "company_name" (str (trim f.company_name)) (
        field "company_slug" (str (slugify nfd lower f.company_name)) (
          field "full_name" (str (trim f.full_name))
            (field "email" (str (lower (trim f.email))) (field "password" (str f.password) end)))))

  -- `onSubmit`
  unfoldable pub submit : AdminScreen → AdminScreen
  unfolding passwords_match
  submit s =
      if not (passwords_match s.form)
      then record s { error = some (str (lit "Passwords don't match.")); demo = false }
      else record s {
        error = none;
        demo = false;
        in_flight =
            s.in_flight
            ++ creating (admin_body s.form) s.form.email (lower (trim s.form.email)) s.form.password
              ∷ [];
      }

-- The message of a refusal.
abbrev pub show_refusal : Result (Bool × Json) → AdminScreen → AdminScreen
show_refusal (ok (demo, e)) s = record s { error = some e; demo = demo }
show_refusal (throw _) s = record s { crashed = true }

-- What the action does with the answer of the set-up route: a success starts the sign-in.
unfoldable pub bootstrapped :
    (typed address secret : Text) → Result Upstream → AdminScreen → AdminScreen
bootstrapped typed address secret (throw _) s = record s { crashed = true }
bootstrapped typed address secret (ok res) s =
    if not (is_ok res.status)
    then show_refusal (save_failure res) s
    else record s { in_flight = s.in_flight ++ signing_in typed address secret ∷ [] }

-- `/sign-in?email=${encodeURIComponent(email)}`
unfoldable pub sign_in_path : Text → Result Text
sign_in_path typed = encode_uri_component typed >>= λ email. ok (lit "/sign-in?email=" ++ email)

abbrev pub go_to : Result Text → AdminScreen → AdminScreen
go_to (ok path) s = record s { route = some path }
go_to (throw _) s = record s { crashed = true }

-- What the action does once `signIn` has ended, with an error or without.
unfoldable pub signed_in : Text → Result Bool → AdminScreen → AdminScreen
unfolding sign_in_path
signed_in typed (throw _) s = record s { crashed = true }
signed_in typed (ok true) s = go_to (sign_in_path typed) s
signed_in typed (ok false) s = record s { route = some (lit "/onboarding/2") }

pub data AdminEvent : Type 0 where
  typed_in : AdminKey → Text → AdminEvent
  submitted : AdminEvent
  -- The set-up route answers, or `fetch` rejects.
  answered : Result Upstream → AdminEvent
  -- `signIn` ends: whether `signInResult?.error` is set, or an exception.
  sign_in_ended : (failed : Result Bool) → AdminEvent

abbrev pub settle_answer : List AdminJob → Result Upstream → AdminScreen → AdminScreen
settle_answer (creating body typed address secret ∷ rest) reply s =
    bootstrapped typed address secret reply (record s { in_flight = rest })
settle_answer _ reply s = s

abbrev pub settle_sign_in : List AdminJob → Result Bool → AdminScreen → AdminScreen
settle_sign_in (signing_in typed address secret ∷ rest) failed s =
    signed_in typed failed (record s { in_flight = rest })
settle_sign_in _ failed s = s

abbrev pub submit_enabled : AdminScreen → Bool
submit_enabled s = not (is_creating s || (not (password_ok s.form) || not (passwords_match s.form)))

-- A disabled button does nothing; a crashed screen takes no event.
unfoldable pub admin_react : (nfd lower : Text → Text) → AdminEvent → AdminScreen → AdminScreen
unfolding set_admin submit bootstrapped signed_in password_ok passwords_match
admin_react nfd lower (typed_in k v) s = record s { form = set_admin k v s.form }
admin_react nfd lower submitted s = if submit_enabled s then submit nfd lower s else s
admin_react nfd lower (answered reply) s = settle_answer s.in_flight reply s
admin_react nfd lower (sign_in_ended failed) s = settle_sign_in s.in_flight failed s

unfoldable pub admin_step : (nfd lower : Text → Text) → AdminEvent → AdminScreen → AdminScreen
unfolding admin_react
admin_step nfd lower e s = if s.crashed then s else admin_react nfd lower e s
