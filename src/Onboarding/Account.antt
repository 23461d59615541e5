-- ===== src/Onboarding/Account.antt =====
-- panel/components/onboarding/step-3-user.tsx: whom the gateway says the signed-in admin is.
pub mod Vouched
use leakshield.Base.{Option, none, some, [], ◌∷◌, ◌++◌, if◌then◌else◌}
use leakshield.Base.Result.{Result, ok, throw, type_error, ◌>>=◌}
use leakshield.Js.Text.{Text, lit, nonempty}
use leakshield.Js.Json.{Json, null, str, get, given, or_else, to_string}
use leakshield.Js.Http.{HttpRequest, Upstream, Server, is_ok}
use leakshield.Env.{coalesce, gateway_url}
use leakshield.Proxy.{token_of}
use leakshield.Onboarding.User.{Me}

-- `session.user`, as Auth.js keeps it.
pub record SessionUser : Type 0 where
  pub email : Option Text
  pub name : Option Text
  pub role : Option Json

pub record Tenant : Type 0 where
  pub id : Text
  pub name : Text
  pub slug : Option Text

-- `MeData`
pub record MeData : Type 0 where
  pub user : Me
  pub tenant : Option Tenant

unfoldable pub me_request : Server → Text → HttpRequest
me_request srv token = record {
  method = "GET";
  url = gateway_url srv (lit "/admin/v1/me");
  headers = ("Accept", lit "application/json") ∷ ("Authorization", lit "Bearer " ++ token) ∷ [];
  body = none;
  timeout_ms = some 2500;
}

-- A field of the session's user; a session without a user throws.
abbrev pub session_field : Option SessionUser → (SessionUser → Option Text) → Result Text
session_field none f = throw type_error
session_field (some u) f = ok (coalesce (f u) [])

-- `String(v ?? session.user.f ?? "")`
unfoldable pub string_or_session : Option Json → Result Text → Result Text
string_or_session none d = d
string_or_session (some null) d = d
string_or_session (some v) d = to_string v

abbrev slug_of : Option Json → Result (Option Text)
slug_of none = ok none
slug_of (some v) = to_string v >>= λ s. ok (some s)

-- `data.tenant ? { … } : null`
unfoldable pub tenant_of : Option Json → Result (Option Tenant)
tenant_of none = ok none
tenant_of (some t) = do
  id ← get t "id"
  id_text ← to_string (or_else id (str []))
  name ← get t "name"
  name_text ← to_string (or_else name (str []))
  slug ← get t "slug"
  slug_text ← slug_of (given slug)
  ok (some (record { id = id_text; name = name_text; slug = slug_text }))

-- The assignment to `me`, for a user with an id.
unfoldable pub make_me : Option SessionUser → (document user id : Json) → Result MeData
unfolding string_or_session tenant_of
make_me session document user id = do
  id_text ← to_string id
  email ← get user "email"
  email_text ← string_or_session email (session_field session (λ u. u.email))
  name ← get user "name"
  name_text ← string_or_session name (session_field session (λ u. u.name))
  role ← get user "role"
  tenant ← get document "tenant"
  tenant_data ← tenant_of (given tenant)
  ok (record {
    user = record {
      id = some (str id_text);
      name = some (str name_text);
      email = some (str email_text);
      role = role;
    };
    tenant = tenant_data;
  })

-- `if (data && data.user && data.user.id)`
abbrev pub with_id :
    Option SessionUser → (document user : Json) → Option Json → Result (Option MeData)
with_id session document user none = ok none
with_id session document user (some id) = make_me session document user id >>= λ m. ok (some m)

abbrev pub with_user : Option SessionUser → (document : Json) → Option Json → Result (Option MeData)
with_user session document none = ok none
with_user session document (some user) =
    get user "id" >>= λ id. with_id session document user (given id)

abbrev pub with_data : Option SessionUser → Option Json → Result (Option MeData)
with_data session none = ok none
with_data session (some document) =
    get document "user" >>= λ user. with_user session document (given user)

-- The inner `try` block, once the response is there.
unfoldable pub me_response : Option SessionUser → Upstream → Result (Option MeData)
unfolding make_me
me_response session res =
    if is_ok res.status
    then (res.json >>= λ document. with_data session (given (some document)))
    else ok none

-- The outer `catch` block.
abbrev pub swallow : Result (Option MeData) → Option MeData
swallow (ok m) = m
swallow (throw _) = none

unfoldable pub load_me : Server → Option SessionUser → Option MeData
unfolding me_response me_request token_of
load_me srv session = elim (token_of srv) [
  | none ↦ none
  | some token ↦ swallow (srv.fetch (me_request srv token) >>= me_response session)
]

abbrev pub session_me : SessionUser → Text → MeData
session_me u email = record {
  user = record {
    id = some (str []);
    name = some (str (coalesce u.name email));
    email = some (str email);
    role = u.role;
  };
  tenant = none;
}

-- `session?.user?.email ? { … } : null`
unfoldable pub fallback_me : Option SessionUser → Option MeData
fallback_me none = none
fallback_me (some u) = elim u.email [
  | none ↦ none
  | some email ↦ if nonempty email then some (session_me u email) else none
]

-- `me ?? …`
abbrev pub me_or : Option MeData → Option MeData → Option MeData
me_or none d = d
me_or (some m) d = some m

-- `Step3User`: what the client component is given.
unfoldable pub step3_user : Server → Option SessionUser → Option MeData
unfolding load_me fallback_me
step3_user srv session = me_or (load_me srv session) (fallback_me session)

abbrev pub user_of : Option MeData → Option Me
user_of none = none
user_of (some m) = some m.user
