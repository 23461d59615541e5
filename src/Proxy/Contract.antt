-- ===== src/Proxy/Contract.antt =====
-- panel/lib/admin-proxy.ts, the contract of proxyToGateway: which request it sends, and which answer it
-- gives in which case.
use mathlib.Core.List.{Memᴰ}
use leakshield.Base.{
  ℕ, ◌≤◌, ◌≡◌, ◌≢◌, inl, inr, refl, Bool, true, false, none, some, [], ◌++◌, ◌==◌, arith, length,
  All, Option-cases, Bool-cases, ==_iff,
}
use leakshield.Base.Result.{Thrown, Result-cases, ok, throw}
use leakshield.Js.Text.{Text, lit, nonempty, includes}
use leakshield.Js.Json.{Json}
use leakshield.Js.Http.{HttpRequest, Upstream, Reply, Server, is_null_body, json_response, reason}
use leakshield.Env.{coalesce, gateway_url}
use leakshield.Proxy.{
  ProxyOptions, token_of, proxy_request, not_authenticated, not_implemented, not_reachable,
  json_or_empty, text_body, translate, catch_unreachable, proxy_to_gateway,
}

abbrev pub reply : ℕ → Json → Reply
reply status body = record { status = status; body = body }

-- A status with which the panel can send a JSON body.
abbrev pub IsSendable : ℕ → Type 0
IsSendable status = (200 ≤ status) × (status ≤ 599) × (is_null_body status ≡ false)

pub json_response-IsSendable :
    (body : Json) (status : ℕ) {r : Reply}
    → json_response body status ≡ ok r
    → IsSendable status × (r ≡ reply status body)
unfolding json_response
json_response-IsSendable body status h = ground arith

pub json_response_of_IsSendable :
    (body : Json) (status : ℕ)
    → IsSendable status
    → json_response body status ≡ ok (reply status body)
unfolding json_response
json_response_of_IsSendable body status h = ground arith

token_of-eq-some :
    (srv : Server) {t : Text}
    → token_of srv ≡ some t
    → (srv.access_token ≡ some t) × (nonempty t ≡ true)
unfolding token_of
token_of-eq-some srv h = ground arith

abbrev pub is_json : Upstream → Bool
is_json res = includes (coalesce res.content_type []) (lit "application/json")

-- A request that carries the session's own non-empty token to the gateway's path.
pub record IsAuthenticated (srv : Server) (opts : ProxyOptions) (req : HttpRequest) : Type 0 where
  pub token : Text
  pub of_session : srv.access_token ≡ some token
  pub present : nonempty token ≡ true
  pub bearer : Memᴰ ("Authorization", lit "Bearer " ++ token) req.headers
  pub url : req.url ≡ gateway_url srv opts.path
  pub method : req.method ≡ opts.method
  pub body : req.body ≡ opts.body

proxy_request-IsAuthenticated :
    (srv : Server) (opts : ProxyOptions) (t : Text)
    → token_of srv ≡ some t
    → IsAuthenticated srv opts (proxy_request srv opts t)
unfolding proxy_request
proxy_request-IsAuthenticated srv opts t e = record {
  token = t;
  of_session = (token_of-eq-some srv e).0;
  present = (token_of-eq-some srv e).1;
  bearer = Memᴰ.tail (Memᴰ.tail (Memᴰ.head refl));
  url = refl;
  method = refl;
  body = refl;
}

-- The proxy sends one request at most, and every request that it sends carries the session's
-- non-empty token as its bearer token, to the gateway's address followed by the route's path, with
-- the route's method and body.
pub proxy-IsAuthenticated :
    (srv : Server) (opts : ProxyOptions)
    → (length (proxy_to_gateway srv opts).sent ≤ 1)
      × All (IsAuthenticated srv opts) (proxy_to_gateway srv opts).sent
unfolding proxy_to_gateway
proxy-IsAuthenticated srv opts = elim (Option-cases (token_of srv)) [
  | inl e ↦ rw (e, proxy_to_gateway) (omega arith, tt)
  | inr (t, e) ↦
      rw (e, proxy_to_gateway) (omega arith, (proxy_request-IsAuthenticated srv opts t e, tt))
]

-- The gateway answered the proxy's request with `res`.
pub record Answered (srv : Server) (opts : ProxyOptions) (res : Upstream) : Type 0 where
  pub token : Text
  pub signed_in : token_of srv ≡ some token
  pub fetched : srv.fetch (proxy_request srv opts token) ≡ ok res

-- What the panel passes on of a response: its JSON, or a wrapper round its text.
pub data IsPayload (res : Upstream) (body : Json) : Type 0 where
  of_json : is_json res ≡ true → body ≡ json_or_empty res.json → IsPayload res body
  of_text :
      (s : Text)
      → is_json res ≡ false
      → res.text ≡ ok s
      → body ≡ text_body res.status s
      → IsPayload res body

-- Why the proxy gives up on a request that it sent.
pub data FailsWith (srv : Server) (opts : ProxyOptions) (e : Thrown) : Type 0 where
  rejected :
      (t : Text)
      → token_of srv ≡ some t
      → srv.fetch (proxy_request srv opts t) ≡ throw e
      → FailsWith srv opts e
  unreadable :
      (res : Upstream)
      → Answered srv opts res
      → res.status ≢ 404
      → is_json res ≡ false
      → res.text ≡ throw e
      → FailsWith srv opts e
  unsendable :
      (res : Upstream) (body : Json)
      → Answered srv opts res
      → res.status ≢ 404
      → IsPayload res body
      → json_response body res.status ≡ throw e
      → FailsWith srv opts e

-- The answers that the comment of the module lists, and when each is given.
pub data Answers (srv : Server) (opts : ProxyOptions) (r : Reply) : Type 0 where
  unauthenticated : token_of srv ≡ none → r ≡ reply 401 not_authenticated → Answers srv opts r
  unimplemented :
      (res : Upstream)
      → Answered srv opts res
      → res.status ≡ 404
      → r ≡ reply 503 (not_implemented opts.path)
      → Answers srv opts r
  passed :
      (res : Upstream) (body : Json)
      → Answered srv opts res
      → res.status ≢ 404
      → IsPayload res body
      → IsSendable res.status
      → r ≡ reply res.status body
      → Answers srv opts r
  unreachable :
      (e : Thrown)
      → FailsWith srv opts e
      → r ≡ reply 503 (not_reachable (reason srv e))
      → Answers srv opts r

-- The `catch` block always has an answer.
pub catch-throw :
    (srv : Server) (e : Thrown)
    → catch_unreachable srv (throw e) ≡ ok (reply 503 (not_reachable (reason srv e)))
unfolding catch_unreachable
catch-throw srv e = json_response_of_IsSendable _ 503 (omega arith, omega arith, refl)

-- Sending a payload back ends in an answer of the list.
send-Answers :
    (srv : Server) (opts : ProxyOptions) (res : Upstream) (body : Json)
    → Answered srv opts res
    → res.status ≢ 404
    → IsPayload res body
    → (r : Reply) × (catch_unreachable srv (json_response body res.status) ≡ ok r)
      × Answers srv opts r
unfolding catch_unreachable
send-Answers srv opts res body a h p = elim (Result-cases (json_response body res.status)) [
  | inl (r, e) ↦
      let (fits, same) = json_response-IsSendable body res.status e in
      (r, rw e refl, passed res body a h p fits same)
  | inr (e, thrown) ↦
      (_, rw thrown (catch-throw srv e), unreachable e (unsendable res body a h p thrown) refl)
]

translate-Answers :
    (srv : Server) (opts : ProxyOptions) (res : Upstream)
    → Answered srv opts res
    → (r : Reply) × (catch_unreachable srv (translate opts res) ≡ ok r) × Answers srv opts r
unfolding translate catch_unreachable
translate-Answers srv opts res a = elim (Bool-cases (res.status == 404)) [
  | inl missing ↦ (
    reply 503 (not_implemented opts.path),
    rw missing (rw (json_response_of_IsSendable _ 503 (omega arith, omega arith, refl)) refl),
    unimplemented res a ((==_iff _ _).0 missing) refl,
  )
  | inr found ↦
      let h : res.status ≢ 404 = λ e. ground arith in
      elim (Bool-cases (is_json res)) [
        | inl j ↦ rw (found, j) (send-Answers srv opts res _ a h (of_json j refl))
        | inr n ↦ elim (Result-cases res.text) [
          | inl (s, e) ↦ rw (found, n, e) (send-Answers srv opts res _ a h (of_text s n e refl))
          | inr (e, thrown) ↦ (
            _,
            rw (found, n, thrown) (catch-throw srv e),
            unreachable e (unreadable res a h n thrown) refl,
          )
        ]
      ]
]

-- In every case the proxy answers, it never throws, and its answer is one that the list `Answers`
-- gives for this case: 401 with no token, 503 in demo form for a missing endpoint or a failed
-- exchange, and otherwise the gateway's own status and payload.
pub proxy-Answers :
    (srv : Server) (opts : ProxyOptions)
    → (r : Reply) × ((proxy_to_gateway srv opts).result ≡ ok r) × Answers srv opts r
unfolding proxy_to_gateway
proxy-Answers srv opts = elim (Option-cases (token_of srv)) [
  | inl e ↦ (
    reply 401 not_authenticated,
    rw (e, proxy_to_gateway) (json_response_of_IsSendable _ 401 (omega arith, omega arith, refl)),
    unauthenticated e refl,
  )
  | inr (t, e) ↦ elim (Result-cases (srv.fetch (proxy_request srv opts t))) [
    | inl (res, got) ↦
        rw (e, proxy_to_gateway, got)
          (translate-Answers srv opts res (record { token = t; signed_in = e; fetched = got }))
    | inr (x, thrown) ↦ (
      reply 503 (not_reachable (reason srv x)),
      rw (e, proxy_to_gateway, thrown) (catch-throw srv x),
      unreachable x (rejected t e thrown) refl,
    )
  ]
]
