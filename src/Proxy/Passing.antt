-- ===== src/Proxy/Passing.antt =====
-- panel/lib/admin-proxy.ts: what becomes of the statuses of the gateway.
use leakshield.Js.Text.{Text}
use leakshield.Base.{
  ◌≡◌, ◌≢◌, refl, ◌≤◌, Bool-cases, inl, inr, if◌then◌else◌, true, false, some, [], ◌∷◌, ◌==◌, arith,
}
use leakshield.Base.Result.{ok, throw, type_error}
use leakshield.Js.Json.{Json}
use leakshield.Js.Http.{Upstream, Server, is_null_body, json_response, reason}
use leakshield.Proxy.{
  ProxyOptions, not_reachable, translate, catch_unreachable, proxy_request, proxy_to_gateway,
  token_of,
}
use leakshield.Proxy.Contract.{
  reply, IsSendable, json_response_of_IsSendable, Answered, IsPayload, of_json, of_text,
  catch-throw,
}

status_test : (res : Upstream) → res.status ≢ 404 → (res.status == 404) ≡ false
status_test res h = ground arith

proxy-payload :
    (srv : Server) (opts : ProxyOptions) (res : Upstream) (body : Json)
    → Answered srv opts res
    → res.status ≢ 404
    → IsPayload res body
    → (proxy_to_gateway srv opts).result ≡ catch_unreachable srv (json_response body res.status)
unfolding proxy_to_gateway translate
proxy-payload srv opts res body a h (of_json j e) =
    rw (a.signed_in, proxy_to_gateway, a.fetched) (rw (status_test res h, j, e))
proxy-payload srv opts res body a h (of_text s n t e) =
    rw (a.signed_in, proxy_to_gateway, a.fetched) (rw (status_test res h, n, t, e))

proxy-passed :
    (srv : Server) (opts : ProxyOptions) (res : Upstream) (body : Json)
    → Answered srv opts res
    → res.status ≢ 404
    → IsPayload res body
    → IsSendable res.status
    → (proxy_to_gateway srv opts).result ≡ ok (reply res.status body)
unfolding catch_unreachable
proxy-passed srv opts res body a h p fits =
    rw (proxy-payload srv opts res body a h p, json_response_of_IsSendable body res.status fits)
      refl

null_body-throw :
    (body : Json) (res : Upstream)
    → is_null_body res.status ≡ true
    → json_response body res.status ≡ throw type_error
unfolding json_response
null_body-throw body res h = ground arith

proxy-null_body :
    (srv : Server) (opts : ProxyOptions) (res : Upstream) (body : Json)
    → Answered srv opts res
    → is_null_body res.status ≡ true
    → IsPayload res body
    → (proxy_to_gateway srv opts).result ≡ ok (reply 503 (not_reachable srv.type_error_message))
unfolding reason
proxy-null_body srv opts res body a h p =
    rw (proxy-payload srv opts res body a (λ e. ground arith) p, null_body-throw body res h)
      (catch-throw srv type_error)

-- When the gateway answers the proxy's request with a status other than 404 from 200 to 599, and its
-- payload is at hand (a JSON type, or a text whose reading succeeds), the panel answers with the same
-- status and that payload. With 204, 205 and 304 it does not, and reports that the gateway is not
-- reachable: 503 in demo form, with the engine's own TypeError as the reason.
pub proxy-reply :
    (srv : Server) (opts : ProxyOptions) (res : Upstream) (body : Json)
    → Answered srv opts res
    → IsPayload res body
    → res.status ≢ 404
    → 200 ≤ res.status
    → res.status ≤ 599
    → (proxy_to_gateway srv opts).result
      ≡ ok (
          if is_null_body res.status
          then reply 503 (not_reachable srv.type_error_message)
          else reply res.status body)
proxy-reply srv opts res body a p h lo hi = elim (Bool-cases (is_null_body res.status)) [
  | inl e ↦ rw e (proxy-null_body srv opts res body a e p)
  | inr n ↦ rw n (proxy-passed srv opts res body a h p (lo, hi, n))
]

-- A signed-in proxy sends its one request.
pub proxy-sent :
    (srv : Server) (opts : ProxyOptions) (t : Text)
    → token_of srv ≡ some t
    → (proxy_to_gateway srv opts).sent ≡ proxy_request srv opts t ∷ []
unfolding proxy_to_gateway
proxy-sent srv opts t e = rw (e, proxy_to_gateway)
