-- ===== src/Onboarding/Provider/View.antt =====
-- What the screen shows: the cards, the form's fields, the alerts and the buttons.
pub mod Fields
pub mod Live
pub mod Buttons
use leakshield.Base.{
  ℕ, zero, suc, ◌-◌, String, Bool, true, false, not, ◌&&◌, ◌||◌, Option, none, some, List, [], ◌∷◌,
  ◌++◌, if◌then◌else◌, length, leb, ltb, map, ◌==◌,
}
use leakshield.Js.Text.{Text, lit, decimal}
use leakshield.Js.Json.{Json, arr, Items, nil, cons, count_items}
use leakshield.Onboarding.Provider.Form.{
  ProviderId, openai, anthropic, google, azure, DeploymentRow, FormState, FieldKey,
}
use leakshield.Onboarding.Provider.Tiles.{CardView, card, provider_tiles}
use leakshield.Onboarding.Provider.Screen.{
  TestResult, passed, failed, Screen, is_pending, is_passed, required_ok, can_save, given_error,
}

-- A field of the form, with the key under which typing in it calls `update`.
pub record FieldView : Type 0 where
  pub id : String
  pub label : String
  pub key : FieldKey
  pub value : Text
  pub required : Bool

abbrev text_field_view : String → String → FieldKey → Text → FieldView
text_field_view i l k v = record { id = i; label = l; key = k; value = v; required = false }

abbrev required_view : String → String → FieldKey → Text → FieldView
required_view i l k v = record { id = i; label = l; key = k; value = v; required = true }

-- A row of the deployment map: `removable` is whether its button can be pressed.
pub record RowView : Type 0 where
  pub index : ℕ
  pub row : DeploymentRow
  pub removable : Bool

unfoldable pub row_views : ℕ → Bool → List DeploymentRow → List RowView
row_views i removable [] = []
row_views i removable (r ∷ rs) =
    record { index = i; row = r; removable = removable } ∷ row_views (suc i) removable rs

-- The fields that only one provider has.
unfoldable pub provider_fields : ProviderId → FormState → List FieldView
provider_fields openai f =
    text_field_view "base_url" "Base URL (optional)" FieldKey.base_url f.base_url
    ∷ text_field_view "org_id" "Organization ID (optional)" FieldKey.org_id f.org_id
    ∷ []
provider_fields anthropic f =
    text_field_view "base_url" "Base URL (optional)" FieldKey.base_url f.base_url ∷ []
provider_fields google f =
    required_view "project_id" "Project ID" FieldKey.project_id f.project_id ∷ []
provider_fields azure f =
    required_view "azure_endpoint" "Endpoint" FieldKey.azure_endpoint f.azure_endpoint
    ∷ required_view "azure_api_version" "API version" FieldKey.azure_api_version f.azure_api_version
    ∷ []

unfoldable pub deployment_views : ProviderId → FormState → List RowView
unfolding row_views
deployment_views azure f =
    row_views 0 (not (leb (length f.azure_deployments) 1)) f.azure_deployments
deployment_views _ f = []

pub record FormView : Type 0 where
  pub fields : List FieldView
  pub rows : List RowView

unfoldable pub provider_form : ProviderId → FormState → FormView
unfolding provider_fields deployment_views
provider_form p f = record {
  fields =
      required_view "label" "Label" FieldKey.label f.label
      ∷ required_view "api_key" "API key" FieldKey.api_key f.api_key
      ∷ provider_fields p f;
  rows = deployment_views p f;
}

-- `models.slice(0, n)`
unfoldable pub first_items : ℕ → Items → List Json
first_items zero xs = []
first_items (suc n) nil = []
first_items (suc n) (cons v xs) = v ∷ first_items n xs

-- The alert for the result of a test.
pub data ResultView : Type 0 where
  detected : (title : Text) (shown : List Json) (more : Option ℕ) → ResultView
  no_models : (title : Text) (text : String) → ResultView
  rejected : (title : String) (error : Json) → ResultView

-- `Detected ${n} model${n === 1 ? "" : "s"}`
abbrev detected_title : ℕ → Text
detected_title n = lit "Detected " ++ decimal n ++ lit " model" ++ (if n == 1 then [] else lit "s")

abbrev pub models_view : Items → ResultView
models_view nil = no_models (detected_title 0) "The key works but no models were returned."
models_view (cons v xs) =
    detected (detected_title (count_items (cons v xs))) (first_items 12 (cons v xs))
      (if ltb 12 (count_items (cons v xs)) then some (count_items (cons v xs) - 12) else none)

-- The models are an array, as their type says.
abbrev items_of : Json → Items
items_of (arr xs) = xs
items_of _ = nil

unfoldable pub result_view : TestResult → ResultView
unfolding first_items
result_view (passed models) = models_view (items_of models)
result_view (failed e demo) = rejected (if demo then "Demo mode" else "Connection failed") e

abbrev is_untested : Option TestResult → Bool
is_untested none = true
is_untested (some _) = false

pub record ButtonView : Type 0 where
  pub label : String
  pub enabled : Bool

unfoldable pub test_button : Screen → ButtonView
test_button s = record {
  label = if is_pending s && is_untested s.test_result then "Testing…" else "Test connection";
  enabled = not (is_pending s || not (required_ok s));
}

unfoldable pub save_button : Screen → ButtonView
save_button s = record {
  label = if is_pending s && is_passed s.test_result then "Saving…" else "Save & continue";
  enabled = not (is_pending s || not (can_save s));
}

-- The part below the cards once a provider is selected.
pub record SelectedView : Type 0 where
  pub form : FormView
  pub result : Option ResultView
  pub skip_test : Bool
  pub test : ButtonView
  pub save : ButtonView
  pub save_alert : Option (String × Json)

pub record ScreenView : Type 0 where
  pub banner : Option String
  pub cards : List CardView
  pub selected : Option SelectedView

abbrev result_alert : Option TestResult → Option ResultView
result_alert none = none
result_alert (some r) = some (result_view r)

abbrev save_alert : Option Json → Bool → Option (String × Json)
save_alert none demo = none
save_alert (some e) demo = some (if demo then "Demo mode" else "Couldn't save the provider", e)

unfoldable pub screen_view : Screen → ScreenView
unfolding provider_form result_view test_button save_button card
screen_view s = record {
  banner = s.demo_banner;
  cards = map (card s.selected) provider_tiles;
  selected = elim s.selected [
    | none ↦ none
    | some p ↦ some (record {
      form = provider_form p s.form;
      result = result_alert s.test_result;
      skip_test = s.skip_test;
      test = test_button s;
      save = save_button s;
      save_alert = save_alert (given_error s.save_error) s.save_demo;
    })
  ];
}
