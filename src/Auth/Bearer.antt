-- ===== src/Auth/Bearer.antt =====
-- From the sign-in to the gateway: the token that a route handler sends on behalf of a visitor.
use mathlib.Core.List.{Memᴰ}
use leakshield.Base.{ℕ, ◌≡◌, refl, sym, ap, ◌∙◌, Option, some, [], ◌∷◌, ◌++◌, true, arith}
use leakshield.Base.Result.{ok}
use leakshield.Js.Text.{Text, lit, nonempty}
use leakshield.Js.Json.{Json, str, truthy, as_string, get}
use leakshield.Js.Http.{HttpRequest, Server, Upstream, Outcome}
use leakshield.Proxy.{ProxyOptions, proxy_request, proxy_to_gateway, token_of}
use leakshield.Auth.{User, Token, Session, authorize, jwt, session_of, string_of, login_request}
use leakshield.Auth.Sessions.{authorize-Granted, refreshed, session-authorize}

-- The server as a handler finds it: `auth()` gives the session, whose token is a text by its type. What
-- a handler makes of a token of another kind is not modelled.
abbrev pub serving : Server → Session → Server
serving srv session = record srv { access_token = string_of session.access_token }

-- Exactly one request is sent, it bears the token, and the gateway has given that token in a successful
-- answer to a login with these credentials.
pub record IsBorne (srv : Server) (email password : Option Json) (token : Text) (o : Outcome)
    : Type 0 where
  pub request : HttpRequest
  pub only : o.sent ≡ request ∷ []
  pub bearer : Memᴰ ("Authorization", lit "Bearer " ++ token) request.headers
  pub address : Text
  pub typed_email : email ≡ some (str address)
  pub secret : Text
  pub typed_password : password ≡ some (str secret)
  pub answer : Upstream
  pub login : srv.fetch (login_request srv address secret) ≡ ok answer
  pub document : Json
  pub parsed : answer.json ≡ ok document
  pub issued : get document "token" ≡ ok (some (str token))

token_of-set :
    (srv : Server) (token : Text)
    → srv.access_token ≡ some token
    → nonempty token ≡ true
    → token_of srv ≡ some token
unfolding token_of
token_of-set srv token e h = ground arith

proxy-sent :
    (srv : Server) (opts : ProxyOptions) (token : Text)
    → token_of srv ≡ some token
    → (proxy_to_gateway srv opts).sent ≡ proxy_request srv opts token ∷ []
unfolding proxy_to_gateway proxy_request
proxy-sent srv opts token e = rw (e, proxy_to_gateway) refl

string_of-str : (token : Text) → string_of (some (str token)) ≡ some token
unfolding string_of as_string
string_of-str token = refl

truthy-str : (token : Text) → truthy (str token) ≡ true → nonempty token ≡ true
unfolding truthy
truthy-str token h = h

bearer_of :
    (srv : Server) (opts : ProxyOptions) (token : Text)
    → Memᴰ ("Authorization", lit "Bearer " ++ token) (proxy_request srv opts token).headers
unfolding proxy_request
bearer_of srv opts token = Memᴰ.tail (Memᴰ.tail (Memᴰ.head refl))

-- After a sign-in for which the gateway has named a text as the token, and any number of later requests,
-- whatever the token and the session held before: a handler that proxies for the visitor sends exactly
-- one request, and it bears that very text.
pub proxy-authorize :
    (srv : Server) (email password : Option Json) (u : User) (token : Text)
    → authorize srv email password ≡ ok (some u)
    → u.access_token ≡ some (str token)
    → (before : Token) (session : Session) (n : ℕ) (opts : ProxyOptions)
    → IsBorne srv email password token (
        proxy_to_gateway
          (serving srv (session_of session (refreshed n (jwt before (some u)))))
          opts)
proxy-authorize srv email password u token e t before session n opts =
    let g = authorize-Granted srv email password u e in
    let same : some g.token ≡ some (str token) = sym g.kept ∙ t in
    let is_text : g.token ≡ str token = cc in
    let kept =
      ap (λ s. s.access_token) (session-authorize srv email password u e before session n) in
    let shown = ap string_of (kept ∙ t) ∙ string_of-str token in
    record {
      request =
          proxy_request (serving srv (session_of session (refreshed n (jwt before (some u))))) opts
            token;
      only =
          proxy-sent _ opts token
            (token_of-set _ token shown (truthy-str token (rw is_text at g.token_set)));
      bearer = bearer_of _ opts token;
      address = g.address;
      typed_email = g.typed_email;
      secret = g.secret;
      typed_password = g.typed_password;
      answer = g.res;
      login = g.answered;
      document = g.document;
      parsed = g.parsed;
      issued = rw is_text at g.token_listed;
    }
