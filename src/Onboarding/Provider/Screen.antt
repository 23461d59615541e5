-- ===== src/Onboarding/Provider/Screen.antt =====
-- `Step2Provider`: the state of the screen, and what each event does to it. Requests are jobs in
-- flight; the environment settles them with the panel's own response or a rejection.
pub mod Invariant
pub mod Verified
pub mod Stale
pub mod Banner
use leakshield.Base.{
  ℕ, ◌+◌, String, Bool, true, false, not, ◌&&◌, ◌||◌, Option, none, some, List, [], ◌∷◌, ◌++◌,
  if◌then◌else◌,
}
use leakshield.Base.Result.{Result, ok, throw, ◌>>=◌}
use leakshield.Js.Text.{Text, lit, decimal}
use leakshield.Js.Json.{Json, bool, str, arr, nil, get, given, or_else}
use leakshield.Js.Http.{Upstream, is_ok}
use leakshield.Proxy.{json_or_empty}
use leakshield.Setup.Probe.{truthy_option}
use leakshield.Onboarding.Provider.Form.{
  ProviderId, FormState, FieldKey, RowPatch, empty_form, empty_row, set_field, patch_rows,
  remove_row, is_form_valid, test_body, save_body,
}

pub data TestResult : Type 0 where
  passed : (models : Json) → TestResult
  failed : (error : Json) (demo : Bool) → TestResult

-- An action that `startTransition` has not finished, with the body that it posted.
pub data Job : Type 0 where
  testing : Json → Job
  saving : Json → Job

pub record Screen : Type 0 where
  pub selected : Option ProviderId
  pub form : FormState
  pub test_result : Option TestResult
  pub skip_test : Bool
  pub save_error : Option Json
  pub save_demo : Bool
  pub demo_banner : Option String
  pub refresh_signal : ℕ
  pub in_flight : List Job
  pub route : Option String
  -- An action that throws unmounts the screen.
  pub crashed : Bool

unfoldable pub initial : Screen
unfolding empty_form
initial = record {
  selected = none;
  form = empty_form;
  test_result = none;
  skip_test = false;
  save_error = none;
  save_demo = false;
  demo_banner = none;
  refresh_signal = 0;
  in_flight = [];
  route = none;
  crashed = false;
}

abbrev pub is_pending : Screen → Bool
is_pending s = elim s.in_flight [ [] ↦ false | _ ∷ _ ↦ true ]

abbrev pub is_passed : Option TestResult → Bool
is_passed (some (passed _)) = true
is_passed _ = false

-- `testResult?.models`, of a result that passed; a failed one has no models.
abbrev pub models_of : Option TestResult → Json
models_of (some (passed models)) = models
models_of _ = arr nil

abbrev pub required_ok : Screen → Bool
required_ok s = is_form_valid s.selected s.form

unfoldable pub can_save : Screen → Bool
can_save s = required_ok s && (is_passed s.test_result || s.skip_test)

unfoldable pub pick : ProviderId → Screen → Screen
pick p s = record s {
  selected = some p;
  form = record empty_form { label = s.form.label };
  test_result = none;
  save_error = none;
  save_demo = false;
}

unfoldable pub update : FieldKey → Text → Screen → Screen
update k v s = record s { form = set_field k v s.form; test_result = none }

unfoldable pub update_azure_row : ℕ → RowPatch → Screen → Screen
update_azure_row i p s = record s {
  form = record s.form { azure_deployments = patch_rows i p s.form.azure_deployments };
  test_result = none;
}

unfoldable pub add_azure_row : Screen → Screen
add_azure_row s = record s {
  form = record s.form { azure_deployments = s.form.azure_deployments ++ empty_row ∷ [] };
}

unfoldable pub remove_azure_row : ℕ → Screen → Screen
remove_azure_row i s = record s {
  form = record s.form { azure_deployments = remove_row i s.form.azure_deployments };
}

-- The two handlers, with the guard of each; the first argument is `selected`.
unfoldable pub start_test : Option ProviderId → Screen → Screen
start_test none s = s
start_test (some p) s =
    if required_ok s
    then record s {
      test_result = none;
      in_flight = s.in_flight ++ testing (test_body p s.form) ∷ [];
    }
    else s

unfoldable pub handle_test : Screen → Screen
unfolding start_test
handle_test s = start_test s.selected s

unfoldable pub start_save : Option ProviderId → Screen → Screen
unfolding can_save
start_save none s = s
start_save (some p) s =
    if can_save s
    then record s {
      save_error = none;
      save_demo = false;
      in_flight = s.in_flight ++ saving (save_body p s.form (models_of s.test_result)) ∷ [];
    }
    else s

unfoldable pub handle_save : Screen → Screen
unfolding start_save
handle_save s = start_save s.selected s

-- `data.error ?? `Server returned ${status}.``
abbrev pub error_or_status : Option Json → ℕ → Json
error_or_status e status = or_else e (str (lit "Server returned " ++ decimal status ++ lit "."))

-- `error ? … : …`: an empty message is no error.
abbrev pub given_error : Option Json → Option Json
given_error none = none
given_error (some e) = given (some e)

-- What the two actions do with a response; a document that is `null` throws.
unfoldable pub test_reply : Upstream → Result TestResult
test_reply res =
    let data' = json_or_empty res.json in
    get data' "ok" >>= λ fine. get data' "models" >>= λ models. get data' "error" >>= λ e.
    get data' "demo" >>= λ demo. ok (
      if is_ok res.status && truthy_option fine
      then passed (or_else models (arr nil))
      else failed (error_or_status e res.status) (truthy_option demo))

unfoldable pub settle_test : Result Upstream → Screen → Screen
unfolding test_reply
settle_test reply s = elim (reply >>= test_reply) [
  | ok result ↦ record s { test_result = some result }
  | throw _ ↦ record s { crashed = true }
]

-- `saveDemo` and `saveError` after a refusal.
unfoldable pub save_failure : Upstream → Result (Bool × Json)
save_failure res = get (json_or_empty res.json) "demo" >>= λ demo.
    get (json_or_empty res.json) "error" >>= λ e.
    ok (truthy_option demo, error_or_status e res.status)

abbrev pub show_failure : Result (Bool × Json) → Screen → Screen
show_failure (ok (demo, e)) s = record s { save_error = some e; save_demo = demo }
show_failure (throw _) s = record s { crashed = true }

unfoldable pub settle_save : Result Upstream → Screen → Screen
unfolding save_failure
settle_save (throw _) s = record s { crashed = true }
settle_save (ok res) s =
    if is_ok res.status
    then record s { refresh_signal = s.refresh_signal + 1; route = some "/onboarding/3" }
    else show_failure (save_failure res) s

-- The effect that asks the panel whether the gateway is there; what it catches counts as offline.
unfoldable pub banner_of : Result Upstream → Option String
banner_of reply = elim (reply >>= λ res. res.json) [
  | throw _ ↦ some "Gateway is offline — Test/Save will fail until the backend is reachable."
  | ok data' ↦ elim (get data' "reachable") [
    | ok (some (bool false)) ↦
        some
          "Gateway is offline — the form is wired but Test/Save will fail until the backend is reachable."
    | _ ↦ none
  ]
]

-- The oldest job in flight is settled; the first argument is the list of the jobs.
unfoldable pub settle_jobs : List Job → Result Upstream → Screen → Screen
unfolding settle_test settle_save
settle_jobs [] reply s = s
settle_jobs (testing body ∷ rest) reply s = settle_test reply (record s { in_flight = rest })
settle_jobs (saving body ∷ rest) reply s = settle_save reply (record s { in_flight = rest })

unfoldable pub settle : Result Upstream → Screen → Screen
unfolding settle_jobs
settle reply s = settle_jobs s.in_flight reply s

pub data Event : Type 0 where
  picked : ProviderId → Event
  edited : FieldKey → Text → Event
  row_edited : ℕ → RowPatch → Event
  row_added : Event
  row_removed : ℕ → Event
  skip_set : Bool → Event
  test_clicked : Event
  save_clicked : Event
  settled : Result Upstream → Event
  probed : Result Upstream → Event

-- A click on a disabled button does nothing; a crashed screen takes no event.
unfoldable pub react : Event → Screen → Screen
unfolding pick update update_azure_row add_azure_row remove_azure_row handle_test handle_save settle
    banner_of
react (picked p) s = pick p s
react (edited k v) s = update k v s
react (row_edited i p) s = update_azure_row i p s
react row_added s = add_azure_row s
react (row_removed i) s = remove_azure_row i s
react (skip_set b) s = record s { skip_test = b }
react test_clicked s = if is_pending s || not (required_ok s) then s else handle_test s
react save_clicked s = if is_pending s || not (can_save s) then s else handle_save s
react (settled reply) s = settle reply s
react (probed reply) s = record s { demo_banner = banner_of reply }

unfoldable pub step : Event → Screen → Screen
unfolding react
step e s = if s.crashed then s else react e s

unfoldable pub run : Screen → List Event → Screen
run s [] = s
run s (e ∷ es) = run (step e s) es
