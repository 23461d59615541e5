-- ===== src/Tests/Screens.antt =====
-- The onboarding screens at concrete inputs.
use leakshield.Base.{◌≡◌, refl, true, false, none, some, List, [], ◌∷◌}
use leakshield.Base.Result.{ok}
use leakshield.Js.Text.{is_space, trim, trim_end, trim_start}
use leakshield.Js.Json.{Json, or_else, null, bool, arr, nil, obj, end, field, get, lookup, truthy}
use leakshield.Js.Http.{Upstream}
use leakshield.Proxy.{json_or_empty}
use leakshield.Onboarding.Provider.Form.{
  FormState, empty_form, is_form_valid, save_body, test_body, openai, azure, FieldKey, set_field,
  ProviderId,
}
use leakshield.Onboarding.Provider.Screen.{
  Event, Screen, can_save, edited, handle_test, initial, passed, pick, picked, react, run, settle,
  settle_jobs, saving, save_clicked, settle_test, settled, start_test, step, test_clicked,
  test_reply, testing, update,
}
use leakshield.Onboarding.Provider.Screen.Invariant.{Inv, run-initial-Inv}
use leakshield.Onboarding.Provider.Screen.Verified.{Quiet-tested, start, next}
use leakshield.Onboarding.Provider.Screen.Stale.{late_answer-passes}
use leakshield.Onboarding.Provider.Saved.{answered, list_step, opened, refreshed}
use leakshield.Onboarding.Provider.Saved.Latest.{Listed-Shows, Shows, begin, then_on}
use leakshield.Base.{◌↔◌, ◌≢◌}
use leakshield.Onboarding.Provider.View.Live.{IsSound, screen-IsSound}
use leakshield.Onboarding.Provider.View.Buttons.{SaveClick, TestClick}
use leakshield.Onboarding.Provider.Screen.{probed}
use leakshield.Onboarding.Provider.Screen.Banner.{IsUp, probed-banner_iff}
use leakshield.Setup.Probe.{fetch_setup_status}
use leakshield.Setup.Status.{setup_status, status_body}
use leakshield.Tests.Fixtures.{ada, documented, plain, server, token}

abbrev no_admin : Json
no_admin = obj (field "has_admin" (bool false) end)

abbrev filled : FormState
filled = record {
  label = ada;
  api_key = ada;
  base_url = [];
  org_id = [];
  project_id = [];
  azure_endpoint = [];
  azure_api_version = [];
  azure_deployments = [];
}

abbrev tested_ok : Upstream
tested_ok = documented (obj (field "ok" (bool true) end))

abbrev test_then_answer : List Event
test_then_answer =
    picked openai
    ∷ edited FieldKey.label ada
    ∷ edited FieldKey.api_key ada
    ∷ test_clicked
    ∷ settled (ok tested_ok)
    ∷ []

run-initial-Inv_example : Inv (run initial test_then_answer)
run-initial-Inv_example = run-initial-Inv test_then_answer

abbrev after_clicks : Screen
after_clicks = step (settled (ok tested_ok)) (
    step test_clicked (
      step (edited FieldKey.api_key ada)
        (step (edited FieldKey.label ada) (step (picked openai) initial))))

Quiet-tested_example :
    (p : ProviderId) × (after_clicks.selected ≡ some p)
    × (some (test_body openai (record empty_form { label = ada; api_key = ada }))
        ≡ some (test_body p after_clicks.form))
unfolding initial step react pick update handle_test start_test settle settle_jobs settle_test
    test_reply can_save is_form_valid trim trim_end trim_start is_space get lookup truthy
    json_or_empty empty_form set_field
Quiet-tested_example =
    Quiet-tested
      (next (settled (ok tested_ok))
        (next test_clicked
          (next (edited FieldKey.api_key ada)
            (next (edited FieldKey.label ada) (next (picked openai) start refl) refl) refl)
          tt)
        tt)
      refl refl

-- A screen with a deployment map whose test is in flight.
abbrev testing_screen : Screen
testing_screen = record {
  selected = some openai;
  form = filled;
  test_result = none;
  skip_test = false;
  save_error = none;
  save_demo = false;
  demo_banner = none;
  refresh_signal = 0;
  in_flight = testing null ∷ [];
  route = none;
  crashed = false;
}

abbrev free_screen : Screen
free_screen = record testing_screen { in_flight = [] }

late_answer-passes_example :
    let edited_form = set_field FieldKey.api_key token filled in
    let s' =
      run free_screen
        (test_clicked ∷ edited FieldKey.api_key token ∷ settled (ok tested_ok) ∷ []) in
    ((step test_clicked free_screen).in_flight ≡ testing (test_body openai filled) ∷ [])
    × ((step save_clicked s').in_flight ≡ saving (save_body openai edited_form (arr nil)) ∷ [])
    × (test_body openai edited_form ≢ test_body openai filled)
unfolding test_reply get lookup truthy json_or_empty or_else is_form_valid set_field trim trim_end
    trim_start is_space
late_answer-passes_example =
    late_answer-passes free_screen openai token (arr nil) tested_ok refl refl refl refl (λ e. cc)
      refl refl

abbrev two_rows : Screen
two_rows = record testing_screen {
  selected = some azure;
  form = record filled {
    azure_endpoint = ada;
    azure_api_version = ada;
    azure_deployments =
        record { model = ada; deployment = ada }
        ∷ record { model = token; deployment = token }
        ∷ [];
  };
  test_result = some (passed (arr nil));
  in_flight = [];
}

Listed-Shows_example :
    Shows
      (server (plain 200))
      (answered 1 (ok (plain 200)) ∷ answered 0 (ok (plain 500)) ∷ refreshed ∷ [])
      (list_step (server (plain 200)) (answered 1 (ok (plain 200))) (
        list_step
          (server (plain 200))
          (answered 0 (ok (plain 500)))
          (list_step (server (plain 200)) refreshed opened)))
unfolding list_step opened
Listed-Shows_example =
    Listed-Shows
      (then_on (answered 1 (ok (plain 200)))
        (then_on (answered 0 (ok (plain 500))) (then_on refreshed begin)))
      refl

screen-IsSound_example : IsSound azure two_rows × TestClick two_rows × SaveClick two_rows
screen-IsSound_example = screen-IsSound azure two_rows refl refl

probed-banner_iff_example :
    ((setup_status (server (documented no_admin))).result
      ≡ ok (record {
        status = 200;
        body = status_body (fetch_setup_status (server (documented no_admin)));
      }))
    × (((step
            (probed
              (ok (documented (status_body (fetch_setup_status (server (documented no_admin)))))))
            initial).demo_banner
          ≡ none)
        ↔ IsUp (server (documented no_admin)))
unfolding initial
probed-banner_iff_example =
    probed-banner_iff (server (documented no_admin))
      (documented (status_body (fetch_setup_status (server (documented no_admin))))) initial refl
      refl
