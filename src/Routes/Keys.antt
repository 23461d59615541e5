-- ===== src/Routes/Keys.antt =====
-- panel/app/api/admin/users/[id]/keys/route.ts: issue a virtual key for a user.
pub mod Target
use leakshield.Base.{none, some, ◌++◌, if◌then◌else◌}
use leakshield.Base.Result.{Result, ok, ◌>>=◌}
use leakshield.Js.Text.{Text, lit, nonempty, trim}
use leakshield.Js.Json.{Json, str, obj, end, field, get}
use leakshield.Js.Uri.{encode_uri_component}
use leakshield.Js.Http.{Outcome, Server, ◌>=>◌}
use leakshield.Proxy.{ProxyOptions, proxy_to_gateway}
use leakshield.Routes.Body.{refuse, with_body, optional_trim, list_field, number_field}

unfoldable pub key_name : Text → Text
unfolding lit
key_name trimmed = if nonempty trimmed then trimmed else lit "Default key"

unfoldable pub key_payload : Json → Result Json
unfolding key_name
key_payload body = do
  name ← optional_trim (← get body "name")
  providers ← get body "allowed_providers"
  models ← get body "allowed_models"
  tokens ← get body "monthly_token_limit"
  usd ← get body "monthly_usd_micro_limit"
  ok (
      obj (
        field "name" (str (key_name name)) (
          list_field "allowed_providers" providers (
            list_field "allowed_models" models (
              number_field "monthly_token_limit" tokens
                (number_field "monthly_usd_micro_limit" usd end))))))

unfoldable pub key_options : Text → Json → ProxyOptions
key_options segment payload = record {
  path = lit "/admin/v1/users/" ++ segment ++ lit "/keys";
  method = "POST";
  body = some payload;
  timeout_ms = none;
}

unfoldable pub create_key : Server → Text → Result Json → Outcome
unfolding key_payload
create_key srv id parsed =
    if nonempty (trim id)
    then with_body parsed (λ body. key_payload body >=> λ payload.
        encode_uri_component id >=> λ segment. proxy_to_gateway srv (key_options segment payload))
    else refuse "user id is required"
