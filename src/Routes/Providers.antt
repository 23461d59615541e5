-- ===== src/Routes/Providers.antt =====
-- panel/app/api/admin/providers: list, save and test the upstream providers, and panel/app/api/admin/me.
pub mod Carried
pub mod Credentials
use leakshield.Base.{Option, none, some, if◌then◌else◌}
use leakshield.Base.Result.{Result}
use leakshield.Js.Text.{Text, lit, nonempty}
use leakshield.Js.Json.{
  Json, arr, nil, str, obj, end, field, get, given, as_string, call_trim, or_else,
}
use leakshield.Js.Http.{Outcome, Server, ◌>=>◌}
use leakshield.Proxy.{ProxyOptions, proxy_to_gateway}
use leakshield.Routes.Body.{refuse, with_body}

unfoldable pub providers_path : Text
unfolding lit
providers_path = lit "/admin/v1/providers"

unfoldable pub list_providers : Server → Outcome
list_providers srv =
    proxy_to_gateway srv
      (record { path = providers_path; method = "GET"; body = none; timeout_ms = none })

unfoldable pub current_admin : Server → Outcome
current_admin srv =
    proxy_to_gateway srv
      (record { path = lit "/admin/v1/me"; method = "GET"; body = none; timeout_ms = none })

-- `!v || typeof v !== "string"`: what is left is a string that is not empty.
unfoldable pub given_string : Option Json → Option Text
given_string v = elim (given v) [ none ↦ none | some w ↦ as_string w ]

unfoldable pub save_options : Text → Text → Text → Option Json → Option Json → ProxyOptions
save_options provider label api_key config models = record {
  path = providers_path;
  method = "POST";
  body = some (
      obj (
        field "provider" (str provider) (
          field "label" (str label) (
            field "api_key" (str api_key) (
              field "config" (or_else config (obj end))
                (field "allowed_models" (or_else models (arr nil)) end))))));
  timeout_ms = none;
}

-- The handler once the provider and the label have passed.
unfoldable pub check_saved_key : Server → Json → Text → Text → Option Text → Outcome
check_saved_key srv body provider label none = refuse "api_key is required"
check_saved_key srv body provider label (some api_key) = get body "config" >=> λ config.
    get body "allowed_models" >=> λ models.
    proxy_to_gateway srv (save_options provider label api_key config models)

unfoldable pub check_label : Server → Json → Text → Option Json → Outcome
unfolding check_saved_key
check_label srv body provider none = refuse "label is required"
check_label srv body provider (some label) = call_trim label >=> λ trimmed.
    if nonempty trimmed
    then (get body "api_key" >=> λ key.
        check_saved_key srv body provider trimmed (given_string key))
    else refuse "label is required"

unfoldable pub check_saved_provider : Server → Json → Option Text → Outcome
unfolding check_label
check_saved_provider srv body none = refuse "provider is required"
check_saved_provider srv body (some provider) =
    get body "label" >=> λ label. check_label srv body provider (given label)

unfoldable pub save_provider : Server → Result Json → Outcome
unfolding check_saved_provider given_string
save_provider srv parsed =
    with_body parsed
      (λ body. get body "provider" >=> λ p. check_saved_provider srv body (given_string p))

unfoldable pub test_options : Text → Text → Option Json → ProxyOptions
test_options provider api_key config = record {
  path = lit "/admin/v1/providers/test";
  method = "POST";
  body = some (
      obj (
        field "provider" (str provider)
          (field "api_key" (str api_key) (field "config" (or_else config (obj end)) end))));
  timeout_ms = some 12000;
}

unfoldable pub check_tested_key : Server → Json → Text → Option Text → Outcome
check_tested_key srv body provider none = refuse "api_key is required"
check_tested_key srv body provider (some api_key) =
    get body "config" >=> λ config. proxy_to_gateway srv (test_options provider api_key config)

unfoldable pub check_tested_provider : Server → Json → Option Text → Outcome
unfolding check_tested_key
check_tested_provider srv body none = refuse "provider is required"
check_tested_provider srv body (some provider) =
    get body "api_key" >=> λ key. check_tested_key srv body provider (given_string key)

unfoldable pub test_provider : Server → Result Json → Outcome
unfolding check_tested_provider given_string
test_provider srv parsed =
    with_body parsed
      (λ body. get body "provider" >=> λ p. check_tested_provider srv body (given_string p))
