-- ===== src/Auth/Sessions.antt =====
-- panel/auth.ts, authorize and the callbacks: who gets a session, and what the session keeps.
use leakshield.Base.{
  ℕ, zero, suc, ◌≡◌, refl, true, Option, none, some, Option-cases, inl, inr, arith,
}
use leakshield.Base.Result.{Result, ok, ◌>>=◌, >>=-eq-ok, ok-injective}
use leakshield.Js.Text.{Text}
use leakshield.Js.Json.{Json, null, str, get, given, truthy, as_string}
use leakshield.Js.Json.Given.{given-some, given_of_truthy}
use leakshield.Js.Http.{Upstream, Server, is_ok}
use leakshield.Auth.{
  User, Token, Session, login_request, make_user, user_of, read_login, login_response, string_of,
  authorize, jwt, session_of,
}

-- The gateway answered a login with these credentials by a success that names a token and a user.
pub record Granted (srv : Server) (email password : Option Json) (u : User) : Type 0 where
  pub address : Text
  pub typed_email : email ≡ some (str address)
  pub secret : Text
  pub typed_password : password ≡ some (str secret)
  pub res : Upstream
  pub answered : srv.fetch (login_request srv address secret) ≡ ok res
  pub success : is_ok res.status ≡ true
  pub document : Json
  pub parsed : res.json ≡ ok document
  pub token : Json
  pub token_listed : get document "token" ≡ ok (some token)
  pub token_set : truthy token ≡ true
  pub user : Json
  pub user_listed : get document "user" ≡ ok (some user)
  pub user_set : truthy user ≡ true
  pub kept : u.access_token ≡ some token
  pub tenant : get user "tenant_id" ≡ ok u.tenant_id
  pub role : get user "role" ≡ ok u.role

string_of-some : (v : Option Json) (s : Text) → string_of v ≡ some s → v ≡ some (str s)
unfolding string_of as_string
string_of-some (some (str t)) s e = cc
string_of-some _ s e = cc

make_user-fields :
    (token user : Json) (u : User)
    → make_user token user ≡ ok u
    → (u.access_token ≡ some token)
      × (get user "tenant_id" ≡ ok u.tenant_id)
      × (get user "role" ≡ ok u.role)
unfolding make_user
make_user-fields token user u e =
    let (id, _, e₁) = >>=-eq-ok (get user "id") _ e in
    let (email, _, e₂) = >>=-eq-ok (get user "email") _ e₁ in
    let (name, _, e₃) = >>=-eq-ok (get user "name") _ e₂ in
    let (tenant, t, e₄) = >>=-eq-ok (get user "tenant_id") _ e₃ in
    let (role, r, e₅) = >>=-eq-ok (get user "role") _ e₄ in
    let made = ok-injective e₅ in (rw (← made) refl, rw (← made) t, rw (← made) r)

user_of-some :
    (token user : Option Json) (u : User)
    → user_of token user ≡ ok (some u)
    → (t : Json) × (w : Json) × (token ≡ some t) × (user ≡ some w) × (make_user t w ≡ ok u)
user_of-some none user u e = cc
user_of-some (some t) none u e = cc
user_of-some (some t) (some w) u e =
    let (v, made, same) = >>=-eq-ok (make_user t w) _ e in
    (t, w, refl, refl, let eq : v ≡ u = cc in rw (← eq) made)

read_login-some :
    (v : Json) (u : User)
    → read_login v ≡ ok (some u)
    → (token : Option Json) × (user : Option Json) × (get v "token" ≡ ok token)
      × (get v "user" ≡ ok user)
      × (user_of (given token) (given user) ≡ ok (some u))
unfolding read_login
read_login-some null u e = cc
read_login-some v u e =
    let (token, t, e₁) = >>=-eq-ok (get v "token") _ e in
    let (user, w, e₂) = >>=-eq-ok (get v "user") _ e₁ in (token, user, t, w, e₂)

login_response-some :
    (res : Upstream) (u : User)
    → login_response res ≡ ok (some u)
    → (is_ok res.status ≡ true) × ((res.json >>= read_login) ≡ ok (some u))
unfolding login_response
login_response-some res u e = ground arith

login-Granted :
    (srv : Server) (address secret : Text) (email password : Option Json) (u : User)
    → email ≡ some (str address)
    → password ≡ some (str secret)
    → (srv.fetch (login_request srv address secret) >>= login_response) ≡ ok (some u)
    → Granted srv email password u
login-Granted srv address secret email password u a s e =
    let (res, answered, logged) = >>=-eq-ok (srv.fetch (login_request srv address secret)) _ e in
    let (success, read) = login_response-some res u logged in
    let (document, parsed, found) = >>=-eq-ok res.json _ read in
    let (token?, user?, t, w, made) = read_login-some document u found in
    let (token, user, is_token, is_user, built) =
      user_of-some (given token?) (given user?) u made in
    let (same_token, token_set) = given-some token? token is_token in
    let (same_user, user_set) = given-some user? user is_user in
    let (kept, tenant, role) = make_user-fields token user u built in
    record {
      address = address;
      typed_email = a;
      secret = secret;
      typed_password = s;
      res = res;
      answered = answered;
      success = success;
      document = document;
      parsed = parsed;
      token = token;
      token_listed = rw same_token at t;
      token_set = token_set;
      user = user;
      user_listed = rw same_user at w;
      user_set = user_set;
      kept = kept;
      tenant = tenant;
      role = role;
    }

-- A sign-in succeeds only with two strings that the gateway accepted, in an answer that names a truthy
-- token and a truthy user. The token of the user that it returns is the answer's, and the tenant and the
-- role are those of the answer's user.
pub authorize-Granted :
    (srv : Server) (email password : Option Json) (u : User)
    → authorize srv email password ≡ ok (some u)
    → Granted srv email password u
unfolding authorize
authorize-Granted srv email password u e = elim (Option-cases (string_of email)) [
  | inl x ↦
      let wrong : ◌≡◌ {A = Result (Option User)} (ok none) (ok (some u)) = rw (x, authorize) at e in
      cc
  | inr (address, x) ↦ elim (Option-cases (string_of password)) [
    | inl y ↦
        let wrong : ◌≡◌ {A = Result (Option User)} (ok none) (ok (some u)) =
          rw (x, authorize, y) at e in
        cc
    | inr (secret, y) ↦
        login-Granted srv address secret email password u (string_of-some email address x)
          (string_of-some password secret y) (rw (x, authorize, y) at e)
  ]
]

-- The callbacks that run on every later request: `jwt` with no user.
abbrev pub refreshed : ℕ → Token → Token
refreshed zero token = token
refreshed (suc n) token = jwt (refreshed n token) none

refreshed-same : (n : ℕ) (token : Token) → refreshed n token ≡ token
unfolding jwt
refreshed-same zero token = refl
refreshed-same (suc n) token = refreshed-same n token

-- After a sign-in that succeeded, and any number of later requests, the session holds the token, the
-- tenant and the role that the gateway gave, whatever the token and the session held before.
pub session-authorize :
    (srv : Server) (email password : Option Json) (u : User)
    → authorize srv email password ≡ ok (some u)
    → (before : Token) (session : Session) (n : ℕ)
    → session_of session (refreshed n (jwt before (some u)))
      ≡ record { access_token = u.access_token; tenant_id = u.tenant_id; role = u.role }
unfolding session_of jwt
session-authorize srv email password u e before session n =
    let g = authorize-Granted srv email password u e in
    rw (refreshed-same n (jwt before (some u)))
      (rw (g.kept, given_of_truthy g.token g.token_set) refl)
