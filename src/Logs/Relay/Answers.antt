-- ===== src/Logs/Relay/Answers.antt =====
-- Every answer of the relay, with its cause.
use mathlib.Core.List.{Memᴰ}
use leakshield.Base.{
  ℕ, ◌≤◌, String, ◌≡◌, ◌⊎◌, true, Option, none, some, List, [], ◌∷◌, ◌++◌, if◌then◌else◌,
}
use leakshield.Base.Result.{Thrown, Result, ok, throw}
use leakshield.Js.Text.{Text, lit, nonempty}
use leakshield.Js.Json.{get, str}
use leakshield.Js.Http.{HttpRequest, Reply, Server}
use leakshield.Env.{get_internal_gateway_url}
use leakshield.Logs.Relay.{
  Params, Urls, StreamResponse, refused, streaming, RelayOutcome, forward_params,
}

abbrev given_token : Option Text → Option Text
given_token o = elim o [ none ↦ none | some t ↦ if nonempty t then some t else none ]

module _ {S : Type 0} (srv : Server) (fetch : HttpRequest → Result (StreamResponse S)) (urls : Urls)
    (ps : Params) where
  -- The one request that the relay may send: a GET of the event stream at the address that the engine
  -- makes of it, with the forwarded parameters and the session's token, which is not empty.
  pub record IsStreamRequest (req : HttpRequest) : Type 0 where
    pub token : Text
    pub signed_in : srv.access_token ≡ some token
    pub given : nonempty token ≡ true
    pub bearer : Memᴰ ("Authorization", lit "Bearer " ++ token) req.headers
    pub accept : Memᴰ ("Accept", lit "text/event-stream") req.headers
    pub read_only : (req.method ≡ "GET") × (req.body ≡ none)
    pub address : Text
    pub resolved :
        urls.resolve (lit "/admin/v1/stream/logs") (get_internal_gateway_url srv) ≡ ok address
    pub url : req.url ≡ urls.with_params address (forward_params ps)

  -- A refusal by the status, which names its cause.
  pub record IsRefusal (status : ℕ) (error : String) (o : RelayOutcome S) : Type 0 where
    pub reply : Reply
    pub result : o.result ≡ ok (refused reply)
    pub status_given : reply.status ≡ status
    pub named : get reply.body "error" ≡ ok (some (str (lit error)))

  pub data Answers (o : RelayOutcome S) : Type 0 where
    no_token :
        (srv.access_token ≡ none) ⊎ (srv.access_token ≡ some [])
        → o.sent ≡ []
        → IsRefusal 401 "unauthenticated" o
        → Answers o
    no_address :
        (e : Thrown)
        → urls.resolve (lit "/admin/v1/stream/logs") (get_internal_gateway_url srv) ≡ throw e
        → o.sent ≡ []
        → o.result ≡ throw e
        → Answers o
    no_response :
        (req : HttpRequest) (e : Thrown)
        → IsStreamRequest req
        → o.sent ≡ req ∷ []
        → fetch req ≡ throw e
        → o.result ≡ throw e
        → Answers o
    no_stream :
        (req : HttpRequest) (res : StreamResponse S)
        → IsStreamRequest req
        → o.sent ≡ req ∷ []
        → fetch req ≡ ok res
        → (¬ ((200 ≤ res.status) × (res.status ≤ 299))) ⊎ (res.body ≡ none)
        → IsRefusal 502 "upstream_unavailable" o
        → Answers o
    stream :
        (req : HttpRequest) (res : StreamResponse S) (body : S) (headers : List (String × Text))
        → IsStreamRequest req
        → o.sent ≡ req ∷ []
        → fetch req ≡ ok res
        → (200 ≤ res.status) × (res.status ≤ 299)
        → res.body ≡ some body
        → o.result ≡ ok (streaming 200 headers body)
        → Memᴰ ("Content-Type", lit "text/event-stream") headers
        → Answers o
