-- ===== src/Tests/Steps.antt =====
-- The wizard's first, third and fourth steps and its shell at concrete inputs.
use leakshield.Base.{ℕ, ◌≡◌, ◌⊎◌, ◌++◌, refl, true, none, List, [], ◌∷◌, map}
use leakshield.Base.Result.{ok}
use leakshield.Js.Text.{decimal, digits_from, trim_end, trim_start, Text, lit, trim, text_eq}
use leakshield.Js.Json.{end, field, obj}
use leakshield.Js.Uri.{encode_uri_component, encode_unit, is_unreserved}
use leakshield.Js.Http.{Server}
use leakshield.Onboarding.Admin.{
  AdminEvent, AdminForm, AdminKey, AdminScreen, admin_body, admin_react, admin_step, answered,
  blank, bootstrapped, password_ok, passwords_match, set_admin, sign_in_ended, signed_in,
  signing_in, submit, submitted, typed_in, sign_in_path,
}
use leakshield.Onboarding.Admin.Slug.{slugify}
use leakshield.Onboarding.Admin.Slug.Shape.{IsSlug, slugify-IsSlug}
use leakshield.Onboarding.Admin.Runs.{Reached, begin, then_on}
use leakshield.Onboarding.Admin.Created.{Created, LeadsTo, Reached-Created}
use leakshield.Onboarding.Admin.Credentials.{IsAccount, Reached-SignsIn}
use leakshield.Onboarding.Wizard.{
  next_path, prev_path, onboarding_step, page_of, step_body, step_number, step_page,
}
use leakshield.Onboarding.Wizard.Walk.{ShowsStep, back, clicked, copied, created, saved}
use leakshield.Onboarding.Wizard.Trail.{IsGuided, Walk, Walk-IsGuided, go_on, stop}
use leakshield.Onboarding.Provider.Screen.{initial, settle_save}
use leakshield.Onboarding.Categories.{categories_view, clicks, templates}
use leakshield.Onboarding.Categories.Pressed.{categories_view-pressed, count, is_odd}
use leakshield.Onboarding.Account.{step3_user, user_of}
use leakshield.Onboarding.Account.Vouched.{IsVouched, step3_user-IsVouched}
use leakshield.Onboarding.User.{KeyScreen, handle_generate_mine, issue_key_for, mounted, react_pane}
use leakshield.Tests.Fixtures.{ada, address, documented, granted_user, plain, server}

slugify-IsSlug_example : IsSlug (slugify (λ s. s) (λ s. s) (lit "acme & sons"))
slugify-IsSlug_example = slugify-IsSlug (λ s. s) (λ s. s) (lit "acme & sons")

abbrev secret : Text
secret = lit "password"

abbrev filled_in : AdminForm
filled_in = record {
  company_name = ada;
  full_name = ada;
  email = address;
  password = secret;
  confirm = secret;
}

abbrev admin_events : List AdminEvent
admin_events =
    sign_in_ended (ok true)
    ∷ typed_in AdminKey.email secret
    ∷ answered (ok (plain 201))
    ∷ submitted
    ∷ typed_in AdminKey.email ada
    ∷ typed_in AdminKey.confirm secret
    ∷ typed_in AdminKey.password secret
    ∷ []

abbrev after : AdminEvent → AdminScreen → AdminScreen
after = admin_step (λ s. s) (λ s. s)

abbrev admin_refused : AdminScreen
admin_refused = after (sign_in_ended (ok true)) (
    after (typed_in AdminKey.email secret) (
      after (answered (ok (plain 201))) (
        after submitted (
          after (typed_in AdminKey.email ada) (
            after (typed_in AdminKey.confirm secret)
              (after (typed_in AdminKey.password secret) blank))))))

admin-Reached : Reached (λ s. s) (λ s. s) admin_events admin_refused
admin-Reached = then_on (sign_in_ended (ok true)) (
    then_on (typed_in AdminKey.email secret) (
      then_on (answered (ok (plain 201))) (
        then_on submitted (
          then_on (typed_in AdminKey.email ada) (
            then_on (typed_in AdminKey.confirm secret)
              (then_on (typed_in AdminKey.password secret) begin))))))

Reached-Created_example : Created admin_events × LeadsTo admin_events (lit "/sign-in?email=" ++ ada)
unfolding admin_step admin_react set_admin blank submit password_ok passwords_match bootstrapped
    signed_in text_eq lit sign_in_path encode_uri_component encode_unit is_unreserved
Reached-Created_example = Reached-Created admin-Reached (lit "/sign-in?email=" ++ ada) refl

abbrev admin_submitted : AdminScreen
admin_submitted =
    after submitted
      (after (typed_in AdminKey.confirm secret) (after (typed_in AdminKey.password secret) blank))

submitted-Reached :
    Reached
      (λ s. s)
      (λ s. s)
      (submitted ∷ typed_in AdminKey.confirm secret ∷ typed_in AdminKey.password secret ∷ [])
      admin_submitted
submitted-Reached =
    then_on submitted (
      then_on (typed_in AdminKey.confirm secret)
        (then_on (typed_in AdminKey.password secret) begin))

abbrev only_password : AdminForm
only_password = record {
  company_name = [];
  full_name = [];
  email = [];
  password = secret;
  confirm = secret;
}

Reached-SignsIn_example :
    ((after (answered (ok (plain 201))) admin_submitted).in_flight ≡ signing_in [] [] secret ∷ [])
    × IsAccount (admin_body (λ s. s) (λ s. s) only_password) [] secret
unfolding admin_step admin_react set_admin blank submit password_ok passwords_match text_eq lit trim
    trim_end trim_start
Reached-SignsIn_example =
    Reached-SignsIn submitted-Reached (admin_body (λ s. s) (λ s. s) only_password) [] [] secret []
      (plain 201) refl refl refl

abbrev gateway : Server
gateway = server (plain 200)

abbrev copied_pane : KeyScreen
copied_pane = record mounted { copied = true }

abbrev first_path : Text
first_path = lit "/onboarding/1"

first-ShowsStep : ShowsStep gateway 1 first_path
unfolding step_page step_number page_of text_eq lit
first-ShowsStep = record {
  segment = lit "1";
  below = refl;
  page = page_of gateway 1;
  shown = refl;
  numbered = refl;
}

abbrev pages_shown : List ℕ
pages_shown = 1 ∷ 2 ∷ 3 ∷ 4 ∷ 5 ∷ 4 ∷ 5 ∷ []

whole-Walk : Walk gateway first_path pages_shown (lit "/dashboard")
unfolding step_page step_number page_of text_eq lit onboarding_step step_body next_path prev_path
    signed_in settle_save react_pane decimal digits_from
whole-Walk =
    go_on (lit "1") (page_of gateway 1) (lit "/onboarding/2") refl refl (created [] blank refl) (
      go_on (lit "2") (page_of gateway 2) (lit "/onboarding/3") refl refl
        (saved (plain 200) initial refl refl)
        (go_on (lit "3") (page_of gateway 3) (lit "/onboarding/4") refl refl
          (copied copied_pane refl refl)
          (go_on (lit "4") (page_of gateway 4) (lit "/onboarding/5") refl refl (clicked 4) (
            go_on (lit "5") (page_of gateway 5) (lit "/onboarding/4") refl refl (back 5 refl) (
              go_on (lit "4") (page_of gateway 4) (lit "/onboarding/5") refl refl (clicked 4) (
                go_on (lit "5") (page_of gateway 5) (lit "/dashboard") refl refl (clicked 5)
                  stop))))))

Walk-IsGuided_example : IsGuided gateway 1 pages_shown (lit "/dashboard")
Walk-IsGuided_example =
    Walk-IsGuided gateway 1 first_path (lit "/dashboard") pages_shown first-ShowsStep whole-Walk

abbrev two_clicks : List Text
two_clicks = lit "mna" ∷ lit "code-secrets" ∷ lit "mna" ∷ []

categories_view-pressed_example :
    map (λ v. v.pressed) (categories_view (clicks two_clicks []))
    ≡ map (λ t. is_odd (count t.id two_clicks)) templates
categories_view-pressed_example = categories_view-pressed two_clicks

abbrev knowing : Server
knowing = server (documented (obj (field "user" granted_user end)))

step3_user-IsVouched_example :
    let mine : KeyScreen = handle_generate_mine (user_of (step3_user knowing none)) mounted in
    (mine.in_flight ≡ mounted.in_flight)
    ⊎ ((id : _) × IsVouched knowing id
        × (mine ≡ issue_key_for id (lit "Personal admin key") mounted))
step3_user-IsVouched_example = step3_user-IsVouched knowing none mounted
