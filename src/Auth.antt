-- ===== src/Auth.antt =====
-- panel/auth.ts: signing in against the gateway, and what the session keeps of it.
pub mod Sessions
pub mod Bearer
pub mod Form
use leakshield.Base.{Option, none, some, [], ◌∷◌, if◌then◌else◌}
use leakshield.Base.Result.{Result, ok, ◌>>=◌}
use leakshield.Js.Text.{Text, lit}
use leakshield.Js.Json.{Json, null, str, obj, end, field, get, given, as_string}
use leakshield.Js.Http.{HttpRequest, Upstream, Server, is_ok}
use leakshield.Env.{gateway_url}

-- The user that `authorize` returns. The values are the gateway's own, unchecked; `none` is
-- `undefined`.
pub record User : Type 0 where
  pub id : Option Json
  pub email : Option Json
  pub name : Option Json
  pub tenant_id : Option Json
  pub role : Option Json
  pub access_token : Option Json

-- The token of Auth.js in the fields that the callbacks use.
pub record Token : Type 0 where
  pub access_token : Option Json
  pub tenant_id : Option Json
  pub role : Option Json

pub record Session : Type 0 where
  pub access_token : Option Json
  pub tenant_id : Option Json
  pub role : Option Json

unfoldable pub login_request : Server → Text → Text → HttpRequest
login_request srv email password = record {
  method = "POST";
  url = gateway_url srv (lit "/admin/v1/auth/login");
  headers = ("Content-Type", lit "application/json") ∷ [];
  body = some (obj (field "email" (str email) (field "password" (str password) end)));
  timeout_ms = none;
}

-- `a ?? b`, where both may be undefined.
abbrev pub name_or_email : Option Json → Option Json → Option Json
name_or_email none d = d
name_or_email (some null) d = d
name_or_email (some v) d = some v

unfoldable pub make_user : Json → Json → Result User
make_user token user = do
  id ← get user "id"
  email ← get user "email"
  name ← get user "name"
  tenant ← get user "tenant_id"
  role ← get user "role"
  ok (record {
    id = id;
    email = email;
    name = name_or_email name email;
    tenant_id = tenant;
    role = role;
    access_token = some token;
  })

-- `if (!data?.token || !data.user) return null`
abbrev user_of : Option Json → Option Json → Result (Option User)
user_of none _ = ok none
user_of (some token) none = ok none
user_of (some token) (some user) = make_user token user >>= λ u. ok (some u)

-- A document that is `null` has no token, by `data?.token`.
unfoldable pub read_login : Json → Result (Option User)
unfolding make_user
read_login null = ok none
read_login v = do token ← get v "token"; user ← get v "user"; user_of (given token) (given user)

unfoldable pub login_response : Upstream → Result (Option User)
unfolding read_login
login_response res = if is_ok res.status then (res.json >>= read_login) else ok none

-- `typeof v === "string"` of a credential that may be missing.
unfoldable pub string_of : Option Json → Option Text
string_of none = none
string_of (some v) = as_string v

-- `authorize`: the credentials are strings or the sign-in is refused with no request.
unfoldable pub authorize : Server → (email password : Option Json) → Result (Option User)
unfolding login_response string_of
authorize srv email password = elim (string_of email) [
  | none ↦ ok none
  | some e ↦ elim (string_of password) [
    | none ↦ ok none
    | some p ↦ srv.fetch (login_request srv e p) >>= login_response
  ]
]

-- `callbacks.jwt`: a user is given at sign-in only.
unfoldable pub jwt : Token → Option User → Token
jwt token none = token
jwt token (some u) = record {
  access_token = u.access_token;
  tenant_id = u.tenant_id;
  role = u.role;
}

-- `callbacks.session`
unfoldable pub session_of : Session → Token → Session
session_of session token = record {
  access_token = elim (given token.access_token) [ none ↦ session.access_token | some t ↦ some t ];
  tenant_id = token.tenant_id;
  role = token.role;
}
