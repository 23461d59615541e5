-- ===== src/Tests/Fixtures.antt =====
-- The data of the examples.
use leakshield.Base.{ℕ, true, none, some, [], ◌∷◌}
use leakshield.Base.Result.{ok}
use leakshield.Js.Text.{Text}
use leakshield.Js.Json.{Json, bool, str, num, obj, end, field}
use leakshield.Js.Http.{Upstream, Server}
use leakshield.Proxy.{ProxyOptions}
use leakshield.Auth.{User}

abbrev pub token : Text
token = b't' ∷ []

-- A server whose gateway gives one answer to every request.
abbrev pub server : Upstream → Server
server res = record {
  gateway_internal_url = none;
  next_public_api_url = none;
  access_token = some token;
  fetch = λ _. ok res;
  type_error_message = [];
  range_error_message = [];
  uri_error_message = [];
}

abbrev pub plain : ℕ → Upstream
plain status = record {
  status = status;
  content_type = none;
  json = ok (obj end);
  text = ok (b'x' ∷ []);
}

abbrev pub documented : Json → Upstream
documented v = record { status = 200; content_type = none; json = ok v; text = ok [] }

abbrev pub options : ProxyOptions
options = record { path = b'/' ∷ []; method = "GET"; body = none; timeout_ms = none }

abbrev pub ada : Text
ada = b'A' ∷ b'd' ∷ b'a' ∷ []

abbrev pub address : Text
address = b'a' ∷ b'@' ∷ b'b' ∷ b'.' ∷ b'c' ∷ []

abbrev pub new_user : Json
new_user = obj (field "name" (str ada) (field "email" (str address) end))

abbrev pub new_provider : Json
new_provider =
    obj (field "provider" (str ada) (field "label" (str ada) (field "api_key" (str ada) end)))

abbrev pub new_admin : Json
new_admin = obj (
    field "company_name" (str ada) (
      field "full_name" (str ada)
        (field "email" (str address) (field "password" (num (b'7' ∷ [])) end))))

abbrev pub with_admin : Json
with_admin = obj (field "has_admin" (bool true) end)

abbrev pub granted_user : Json
granted_user = obj (field "id" (str ada) (field "tenant_id" (str ada) end))

abbrev pub granted : Json
granted = obj (field "token" (str token) (field "user" granted_user end))

abbrev pub user : User
user = record {
  id = some (str ada);
  email = none;
  name = none;
  tenant_id = some (str ada);
  role = none;
  access_token = some (str token);
}
