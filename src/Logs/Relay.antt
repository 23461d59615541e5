-- ===== src/Logs/Relay.antt =====
-- panel/app/api/stream/logs/route.ts: the gateway's event stream, passed on with the visitor's token.
pub mod Answers
pub mod Query
use leakshield.Base.{
  ℕ, String, ◌&&◌, Option, none, some, List, [], ◌∷◌, ◌++◌, filter, not, if◌then◌else◌,
}
use leakshield.Base.Result.{Result, ok, throw}
use leakshield.Js.Text.{Text, lit, decimal, text_eq}
use leakshield.Js.Json.{Json, num, str, obj, end, field}
use leakshield.Js.Http.{HttpRequest, Reply, Server, is_ok, json_response}
use leakshield.Env.{get_internal_gateway_url}
use leakshield.Proxy.{token_of}

-- The parameters of a query, in order; a key may be repeated.
abbrev pub Params : Type 0
Params = List (Text × Text)

abbrev drop_param : Text → Params → Params
drop_param k = filter (λ p. not (text_eq p.0 k))

-- `searchParams.set(k, v)`: the first value of the key is replaced and the others go, or it is added.
unfoldable pub set_param : Text → Text → Params → Params
set_param k v [] = (k, v) ∷ []
set_param k v (p ∷ ps) =
    let rest = set_param k v ps in if text_eq p.0 k then (k, v) ∷ drop_param k ps else p ∷ rest

-- The loop over the parameters of the request, from those that are set already.
unfoldable pub forward_onto : Params → Params → Params
unfolding set_param
forward_onto set [] = set
forward_onto set (p ∷ ps) = forward_onto (set_param p.0 p.1 set) ps

unfoldable pub forward_params : Params → Params
unfolding forward_onto
forward_params ps = forward_onto [] ps

-- What the engine's `URL` does: `new URL(path, base)`, which may throw, and its string with the
-- parameters put in.
pub record Urls : Type 0 where
  pub resolve : (path base : Text) → Result Text
  pub with_params : Text → Params → Text

-- A response whose body is a stream of some kind, or missing.
pub record StreamResponse (S : Type 0) : Type 0 where
  pub status : ℕ
  pub body : Option S

pub data RelayReply (S : Type 0) : Type 0 where
  refused : Reply → RelayReply S
  streaming : (status : ℕ) (headers : List (String × Text)) → S → RelayReply S

pub record RelayOutcome (S : Type 0) : Type 0 where
  pub sent : List HttpRequest
  pub result : Result (RelayReply S)

abbrev pub stream_path : Text
stream_path = lit "/admin/v1/stream/logs"

unfoldable pub relay_request : Urls → (token address : Text) → Params → HttpRequest
unfolding forward_params
relay_request urls token address ps = record {
  method = "GET";
  url = urls.with_params address (forward_params ps);
  headers = ("Accept", lit "text/event-stream") ∷ ("Authorization", lit "Bearer " ++ token) ∷ [];
  body = none;
  timeout_ms = none;
}

abbrev pub unauthenticated_body : Json
unauthenticated_body = obj (field "error" (str (lit "unauthenticated")) end)

abbrev pub upstream_unavailable : ℕ → Json
upstream_unavailable status =
    obj
      (field "error" (str (lit "upstream_unavailable")) (field "status" (num (decimal status)) end))

abbrev pub event_stream_headers : List (String × Text)
event_stream_headers =
    ("Content-Type", lit "text/event-stream")
    ∷ ("Cache-Control", lit "no-cache, no-transform")
    ∷ ("Connection", lit "keep-alive")
    ∷ ("X-Accel-Buffering", lit "no")
    ∷ []

module _ {S : Type 0} where
  abbrev pub refusal : Result Reply → Result (RelayReply S)
  refusal (ok r) = ok (refused r)
  refusal (throw e) = throw e

  abbrev pub stream_or_refusal : ℕ → Option S → Result (RelayReply S)
  stream_or_refusal status none = refusal (json_response (upstream_unavailable status) 502)
  stream_or_refusal status (some b) = ok (streaming 200 event_stream_headers b)

  -- `if (!upstream.ok || !upstream.body)` and what follows it.
  unfoldable pub relay_response : StreamResponse S → Result (RelayReply S)
  unfolding json_response
  relay_response res =
      if is_ok res.status
      then stream_or_refusal res.status res.body
      else refusal (json_response (upstream_unavailable res.status) 502)

  abbrev pub relay_received : Result (StreamResponse S) → Result (RelayReply S)
  relay_received (ok res) = relay_response res
  relay_received (throw e) = throw e

  abbrev pub relay_to :
      (HttpRequest → Result (StreamResponse S))
      → Urls
      → (token : Text) → Params
      → Result Text
      → RelayOutcome S
  relay_to fetch urls token ps (throw e) = record { sent = []; result = throw e }
  relay_to fetch urls token ps (ok address) =
      let req = relay_request urls token address ps in
      record { sent = req ∷ []; result = relay_received (fetch req) }

  -- `GET`: the session, the address, the request and its answer. Nothing is caught.
  unfoldable pub relay_logs :
      Server → (HttpRequest → Result (StreamResponse S)) → Urls → Params → RelayOutcome S
  unfolding relay_response relay_request token_of
  relay_logs srv fetch urls ps = elim (token_of srv) [
    | none ↦ record { sent = []; result = refusal (json_response unauthenticated_body 401) }
    | some token ↦
        relay_to fetch urls token ps (urls.resolve stream_path (get_internal_gateway_url srv))
  ]
