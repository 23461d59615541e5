-- ===== src/Onboarding/Admin/View.antt =====
-- Step1CreateAdmin: what the screen shows.
use leakshield.Base.{String, Bool, Option, none, some, List, [], ◌∷◌, ◌++◌, if◌then◌else◌}
use leakshield.Js.Text.{Text, lit, nonempty}
use leakshield.Js.Json.{Json}
use leakshield.Onboarding.Admin.{
  AdminForm, AdminKey, AdminScreen, company_name, full_name, email, password, confirm, is_creating,
  password_ok, passwords_match, submit_enabled,
}
use leakshield.Onboarding.Admin.Slug.{slugify}
use leakshield.Onboarding.Provider.Screen.{given_error}

-- A field, with the key under which typing in it changes the form. An empty hint is not shown.
pub record FieldView : Type 0 where
  pub id : String
  pub label : String
  pub key : AdminKey
  pub value : Text
  pub hint : Text

unfoldable pub slug_hint : Text → Text
slug_hint slug =
    if nonempty slug then lit "Slug: " ++ slug else lit "Used in URLs and audit log labels"

unfoldable pub password_hint : AdminForm → Text
password_hint f =
    if nonempty f.password
    then (if password_ok f then lit "Looks good" else lit "Too short")
    else lit "At least 8 characters"

unfoldable pub confirm_hint : AdminForm → Text
confirm_hint f =
    if nonempty f.confirm
    then (if passwords_match f then lit "Match" else lit "Doesn't match the password")
    else lit " "

unfoldable pub admin_fields : (nfd lower : Text → Text) → AdminForm → List FieldView
unfolding slug_hint password_hint confirm_hint
admin_fields nfd lower f =
    record {
      id = "company_name";
      label = "Company name";
      key = company_name;
      value = f.company_name;
      hint = slug_hint (slugify nfd lower f.company_name);
    }
    ∷ record {
      id = "full_name";
      label = "Your name";
      key = full_name;
      value = f.full_name;
      hint = lit "Shown to teammates and in the audit log";
    }
    ∷ record { id = "email"; label = "Email"; key = email; value = f.email; hint = [] }
    ∷ record {
      id = "password";
      label = "Password";
      key = password;
      value = f.password;
      hint = password_hint f;
    }
    ∷ record {
      id = "confirm";
      label = "Confirm password";
      key = confirm;
      value = f.confirm;
      hint = confirm_hint f;
    }
    ∷ []

pub record AdminView : Type 0 where
  pub alert : Option (String × Json)
  pub fields : List FieldView
  pub button : String
  pub enabled : Bool

abbrev admin_alert : Option Json → Bool → Option (String × Json)
admin_alert none demo = none
admin_alert (some e) demo = some (if demo then "Demo mode" else "Couldn't create the account", e)

unfoldable pub admin_view : (nfd lower : Text → Text) → AdminScreen → AdminView
unfolding admin_fields
admin_view nfd lower s = record {
  alert = admin_alert (given_error s.error) s.demo;
  fields = admin_fields nfd lower s.form;
  button = if is_creating s then "Creating your account…" else "Create account & continue";
  enabled = submit_enabled s;
}
