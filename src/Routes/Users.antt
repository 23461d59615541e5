-- ===== src/Routes/Users.antt =====
-- panel/app/api/admin/users/route.ts: list and create the tenant's users.
pub mod Validation
use leakshield.Base.{Option, none, some, not, ltb, if◌then◌else◌, length}
use leakshield.Base.Result.{Result, ok, ◌>>=◌}
use leakshield.Js.Text.{Text, lit}
use leakshield.Js.Json.{Json, str, obj, Fields, end, field, get, given, call_trim, to_string}
use leakshield.Js.Email.{email_test}
use leakshield.Js.Http.{Outcome, Server, ◌>=>◌}
use leakshield.Proxy.{ProxyOptions, proxy_to_gateway}
use leakshield.Routes.Body.{refuse, with_body, optional_trim, text_field, truthy_field}

unfoldable pub users_path : Text
unfolding lit
users_path = lit "/admin/v1/users"

unfoldable pub list_users : Server → Outcome
list_users srv =
    proxy_to_gateway srv
      (record { path = users_path; method = "GET"; body = none; timeout_ms = none })

unfoldable pub create_options : Json → ProxyOptions
create_options payload = record {
  path = users_path;
  method = "POST";
  body = some payload;
  timeout_ms = none;
}

-- The fields that are sent only if the form filled them in.
unfoldable pub optional_fields : Json → Result Fields
optional_fields body = do
  surname ← optional_trim (← get body "surname")
  phone ← optional_trim (← get body "phone")
  department ← optional_trim (← get body "department")
  role ← get body "role"
  ok (
      text_field "surname" surname (
        text_field "phone" phone
          (text_field "department" department (truthy_field "role" role end))))

-- `lower` is `toLowerCase`, whose Unicode tables the engine brings.
module _ (lower : Text → Text) where
  unfoldable pub user_payload : Json → Text → Text → Result Json
  user_payload body name email = optional_fields body >>= λ rest.
      ok (obj (field "name" (str name) (field "email" (str (lower email)) rest)))

  -- The handler once the name has passed: `email` is the body's own value.
  unfoldable pub check_email : Server → Json → Text → Option Json → Outcome
  unfolding user_payload
  check_email srv body name none = refuse "a valid email is required"
  check_email srv body name (some email) = to_string email >=> λ shown.
      if not (email_test shown)
      then refuse "a valid email is required"
      else (call_trim email >=> λ trimmed. user_payload body name trimmed >=> λ payload.
          proxy_to_gateway srv (create_options payload))

  unfoldable pub check_name : Server → Json → Option Json → Outcome
  unfolding check_email
  check_name srv body none = refuse "name is required"
  check_name srv body (some name) = call_trim name >=> λ trimmed.
      if ltb (length trimmed) 2
      then refuse "name is required"
      else (get body "email" >=> λ email. check_email srv body trimmed (given email))

  unfoldable pub create_user : Server → Result Json → Outcome
  unfolding check_name
  create_user srv parsed =
      with_body parsed (λ body. get body "name" >=> λ name. check_name srv body (given name))
