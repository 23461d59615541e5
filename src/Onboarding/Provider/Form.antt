-- ===== src/Onboarding/Provider/Form.antt =====
-- panel/components/onboarding/step-2-provider.tsx, isFormValid and buildConfig: the fields of the form, its
-- validity and the configuration that it stands for.
pub mod Accepted
use leakshield.Base.{
  ℕ, zero, suc, Bool, true, false, ◌&&◌, ◌||◌, Option, none, some, List, [], ◌∷◌, ◌++◌, any, filter,
  if◌then◌else◌, length, ltb, ◌-◌,
}
use leakshield.Js.Text.{Text, lit, nonempty, trim}
use leakshield.Js.Json.{Json, str, arr, obj, Items, nil, cons, end, field}
use leakshield.Routes.Body.{text_field}

pub data ProviderId : Type 0 where
  openai anthropic google azure : ProviderId

-- The value of the type in the source, as it is sent.
unfoldable pub provider_name : ProviderId → Text
unfolding lit
provider_name openai = lit "openai"
provider_name anthropic = lit "anthropic"
provider_name google = lit "google"
provider_name azure = lit "azure"

pub record DeploymentRow : Type 0 where
  pub model : Text
  pub deployment : Text

pub record FormState : Type 0 where
  pub label : Text
  pub api_key : Text
  pub base_url : Text
  pub org_id : Text
  pub project_id : Text
  pub azure_endpoint : Text
  pub azure_api_version : Text
  pub azure_deployments : List DeploymentRow

abbrev pub empty_row : DeploymentRow
empty_row = record { model = []; deployment = [] }

unfoldable pub empty_form : FormState
empty_form = record {
  label = [];
  api_key = [];
  base_url = [];
  org_id = [];
  project_id = [];
  azure_endpoint = [];
  azure_api_version = lit "2024-08-01-preview";
  azure_deployments = empty_row ∷ [];
}

-- The keys with which the fields of the form call `update`.
pub data FieldKey : Type 0 where
  label api_key base_url org_id project_id azure_endpoint azure_api_version : FieldKey

-- `{ ...prev, [key]: value }`
unfoldable pub set_field : FieldKey → Text → FormState → FormState
set_field FieldKey.label v f = record f { label = v }
set_field FieldKey.api_key v f = record f { api_key = v }
set_field FieldKey.base_url v f = record f { base_url = v }
set_field FieldKey.org_id v f = record f { org_id = v }
set_field FieldKey.project_id v f = record f { project_id = v }
set_field FieldKey.azure_endpoint v f = record f { azure_endpoint = v }
set_field FieldKey.azure_api_version v f = record f { azure_api_version = v }

pub data RowPatch : Type 0 where
  model deployment : Text → RowPatch

unfoldable pub patch_row : RowPatch → DeploymentRow → DeploymentRow
patch_row (RowPatch.model v) r = record r { model = v }
patch_row (RowPatch.deployment v) r = record r { deployment = v }

unfoldable pub patch_rows : ℕ → RowPatch → List DeploymentRow → List DeploymentRow
unfolding patch_row
patch_rows i p [] = []
patch_rows zero p (r ∷ rs) = patch_row p r ∷ rs
patch_rows (suc i) p (r ∷ rs) = r ∷ patch_rows i p rs

-- `rows.filter((_, i) => i !== index)`
unfoldable pub drop_row : ℕ → List DeploymentRow → List DeploymentRow
drop_row i [] = []
drop_row zero (r ∷ rs) = rs
drop_row (suc i) (r ∷ rs) = r ∷ drop_row i rs

-- The last row stays.
unfoldable pub remove_row : ℕ → List DeploymentRow → List DeploymentRow
unfolding drop_row
remove_row i rows = if ltb 1 (length rows) then drop_row i rows else rows

abbrev pub is_filled : DeploymentRow → Bool
is_filled r = nonempty (trim r.model) && nonempty (trim r.deployment)

abbrev pub has_config : ProviderId → FormState → Bool
has_config openai f = true
has_config anthropic f = true
has_config google f = nonempty (trim f.project_id)
has_config azure f =
    nonempty (trim f.azure_endpoint)
    && nonempty (trim f.azure_api_version)
    && any is_filled f.azure_deployments

unfoldable pub is_form_valid : Option ProviderId → FormState → Bool
is_form_valid none f = false
is_form_valid (some p) f = nonempty (trim f.label) && nonempty f.api_key && has_config p f

-- `.map((r) => ({ model: r.model.trim(), deployment: r.deployment.trim() }))`
unfoldable pub deployment_items : List DeploymentRow → Items
deployment_items [] = nil
deployment_items (r ∷ rs) =
    cons
      (obj (field "model" (str (trim r.model)) (field "deployment" (str (trim r.deployment)) end)))
      (deployment_items rs)

unfoldable pub build_config : ProviderId → FormState → Json
unfolding deployment_items
build_config openai f =
    obj (text_field "base_url" (trim f.base_url) (text_field "org_id" (trim f.org_id) end))
build_config anthropic f = obj (text_field "base_url" (trim f.base_url) end)
build_config google f = obj (field "project_id" (str (trim f.project_id)) end)
build_config azure f = obj (
    field "endpoint" (str (trim f.azure_endpoint)) (
      field "api_version" (str (trim f.azure_api_version))
        (field "deployments" (arr (deployment_items (filter is_filled f.azure_deployments))) end)))

-- The bodies that `handleTest` and `handleSave` post.
unfoldable pub test_body : ProviderId → FormState → Json
test_body p f = obj (
    field "provider" (str (provider_name p))
      (field "api_key" (str f.api_key) (field "config" (build_config p f) end)))

unfoldable pub save_body : ProviderId → FormState → Json → Json
save_body p f models = obj (
    field "provider" (str (provider_name p)) (
      field "label" (str (trim f.label)) (
        field "api_key" (str f.api_key)
          (field "config" (build_config p f) (field "allowed_models" models end)))))
