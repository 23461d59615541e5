-- ===== src/Onboarding/Provider/Screen/Stale.antt =====
-- When the result of a test outlives the form that was tested.
use leakshield.Base.{
  ℕ, suc, ◌≡◌, ◌≢◌, ap, true, false, Option, none, some, List, [], ◌∷◌, arith, filter,
}
use leakshield.Base.Result.{ok}
use leakshield.Js.Text.{Text}
use leakshield.Js.Json.{Json, str, arr, obj, field, count_items}
use leakshield.Js.Http.{Upstream}
use leakshield.Onboarding.Provider.Form.{
  ProviderId, FormState, test_body, save_body, azure, DeploymentRow, FieldKey, set_field,
  remove_row, is_filled, is_form_valid, deployment_items, build_config,
}
use leakshield.Onboarding.Provider.Screen.{
  handle_test, handle_save, start_test, start_save, saving, test_clicked, save_clicked, passed,
  Screen, testing, can_save, update, remove_azure_row, test_reply, settle_test, settle, edited,
  row_removed, settled, react, step, run,
}

-- The key that the body of a test names.
abbrev sent_key : Json → Option Json
sent_key (obj (field _ _ (field _ key _))) = some key
sent_key _ = none

other_key :
    (p : ProviderId) (f : FormState) (v : Text)
    → v ≢ f.api_key
    → test_body p (set_field FieldKey.api_key v f) ≢ test_body p f
unfolding test_body set_field
other_key p f v n e =
    let same : some (str v) ≡ some (str f.api_key) = ap sent_key e in
    n (let t : v ≡ f.api_key = cc in t)

-- The screen with a test in flight, once its key is edited and the test is answered by a success.
abbrev answered_late : Text → Upstream → Screen → Screen
answered_late v res s = run s (test_clicked ∷ edited FieldKey.api_key v ∷ settled (ok res) ∷ [])

tested-late :
    (s : Screen) (p : ProviderId) (v : Text) (models : Json) (res : Upstream)
    → s.selected ≡ some p
    → s.crashed ≡ false
    → s.in_flight ≡ []
    → is_form_valid (some p) s.form ≡ true
    → test_reply res ≡ ok (passed models)
    → ((step test_clicked s).in_flight ≡ testing (test_body p s.form) ∷ [])
      × ((answered_late v res s).selected ≡ some p)
      × ((answered_late v res s).crashed ≡ false)
      × ((answered_late v res s).in_flight ≡ [])
      × ((answered_late v res s).form ≡ set_field FieldKey.api_key v s.form)
      × ((answered_late v res s).test_result ≡ some (passed models))
unfolding run step react handle_test start_test update settle settle_test
tested-late s p v models res sel c j valid r = ground arith

saved-late :
    (s : Screen) (p : ProviderId) (f : FormState) (models : Json)
    → s.selected ≡ some p
    → s.crashed ≡ false
    → s.in_flight ≡ []
    → s.form ≡ f
    → s.test_result ≡ some (passed models)
    → is_form_valid (some p) f ≡ true
    → (step save_clicked s).in_flight ≡ saving (save_body p f models) ∷ []
unfolding step react handle_save start_save can_save
saved-late s p f models sel c j same t valid = ground arith

-- On a screen that has not crashed, with a provider selected, a valid form and nothing in flight: after a
-- click on the test, an edit that puts another key into the form, and a successful answer, a click on
-- the save sends the edited form with the models of that answer, if the edited form is valid. The one
-- test that was sent was of the form with the old key, and a test of the edited form would have been
-- another one.
pub late_answer-passes :
    (s : Screen) (p : ProviderId) (v : Text) (models : Json) (res : Upstream)
    → s.selected ≡ some p
    → s.crashed ≡ false
    → s.in_flight ≡ []
    → is_form_valid (some p) s.form ≡ true
    → v ≢ s.form.api_key
    → is_form_valid (some p) (set_field FieldKey.api_key v s.form) ≡ true
    → test_reply res ≡ ok (passed models)
    → let edited_form = set_field FieldKey.api_key v s.form in
      let s' = run s (test_clicked ∷ edited FieldKey.api_key v ∷ settled (ok res) ∷ []) in
      ((step test_clicked s).in_flight ≡ testing (test_body p s.form) ∷ [])
      × ((step save_clicked s').in_flight ≡ saving (save_body p edited_form models) ∷ [])
      × (test_body p edited_form ≢ test_body p s.form)
late_answer-passes s p v models res sel c j valid other valid' r =
    let (sent, sel', c', j', same, passed') = tested-late s p v models res sel c j valid r in
    (
      sent,
      saved-late (answered_late v res s) p (set_field FieldKey.api_key v s.form) models sel' c' j'
          same passed' valid',
      other_key p s.form v other,
    )

-- How many deployments a configuration for Azure sends.
abbrev sent_rows : Json → ℕ
sent_rows (obj (field _ _ (field _ _ (field _ (arr xs) _)))) = count_items xs
sent_rows _ = 0

fewer_rows : (n : ℕ) → suc n ≢ n
fewer_rows n e = omega arith

-- Removing a deployment row keeps the result of a test that passed: if the first row and another
-- one are filled in, the screen still offers to save, and the configuration that it would send is
-- not the one that was tested.
pub row_removed-untested :
    (s : Screen) (models : Json) (r q : DeploymentRow) (rs : List DeploymentRow)
    → s.crashed ≡ false
    → s.selected ≡ some azure
    → s.test_result ≡ some (passed models)
    → s.form.azure_deployments ≡ r ∷ q ∷ rs
    → can_save s ≡ true
    → is_filled r ≡ true
    → is_filled q ≡ true
    → let s' = step (row_removed 0) s in
      (can_save s' ≡ true) × (build_config azure s'.form ≢ build_config azure s.form)
unfolding step react remove_azure_row remove_row can_save is_form_valid build_config
row_removed-untested s models r q rs c sel res rows can full full' = (
  ground arith,
  λ e.
      fewer_rows (count_items (deployment_items (filter is_filled (q ∷ rs))))
        (ground (arith, ap sent_rows e)),
)
