-- ===== src/Proxy.antt =====
-- panel/lib/admin-proxy.ts: the pass-through of the `/api/admin` routes to the gateway.
pub mod Contract
pub mod Passing
use leakshield.Base.{ℕ, String, true, false, Option, none, some, [], ◌∷◌, ◌++◌, ◌==◌, if◌then◌else◌}
use leakshield.Base.Result.{Result, ok, throw, ◌>>=◌}
use leakshield.Js.Text.{Text, lit, nonempty, decimal, includes}
use leakshield.Js.Json.{Json, bool, str, obj, end, field}
use leakshield.Js.Http.{
  HttpRequest, Upstream, Reply, Outcome, Server, is_ok, json_response, local, reason,
}
use leakshield.Env.{coalesce, gateway_url}

pub record ProxyOptions : Type 0 where
  pub path : Text
  pub method : String
  pub body : Option Json
  pub timeout_ms : Option ℕ

abbrev pub default_timeout_ms : ℕ
default_timeout_ms = 8000

-- `if (!token)`: a missing and an empty token are the same.
unfoldable pub token_of : Server → Option Text
token_of srv = elim srv.access_token [ none ↦ none | some t ↦ if nonempty t then some t else none ]

unfoldable pub proxy_request : Server → ProxyOptions → Text → HttpRequest
proxy_request srv opts token = record {
  method = opts.method;
  url = gateway_url srv opts.path;
  headers =
      ("Content-Type", lit "application/json")
      ∷ ("Accept", lit "application/json")
      ∷ ("Authorization", lit "Bearer " ++ token)
      ∷ [];
  body = opts.body;
  timeout_ms = some (coalesce opts.timeout_ms default_timeout_ms);
}

abbrev pub failure : Text → Json
failure message = obj (field "ok" (bool false) (field "error" (str message) end))

abbrev pub demo_failure : Text → Json
demo_failure message =
    obj (field "ok" (bool false) (field "demo" (bool true) (field "error" (str message) end)))

unfoldable pub not_authenticated : Json
not_authenticated = failure (lit "not authenticated")

unfoldable pub not_implemented : Text → Json
not_implemented path = demo_failure (
    lit "Gateway is up but " ++ path ++ lit " is not implemented yet. The form is wired and ready.")

unfoldable pub not_reachable : Text → Json
not_reachable why =
    demo_failure
      (lit "Gateway is not reachable (" ++ why ++ lit "). Start it with: docker compose up gateway")

-- `.catch(() => ({}))`
unfoldable pub json_or_empty : Result Json → Json
json_or_empty (ok v) = v
json_or_empty (throw _) = obj end

abbrev pub text_or_status : Text → ℕ → Text
text_or_status text status =
    if nonempty text then text else lit "gateway returned " ++ decimal status

-- `{ ok: res.ok, error: res.ok ? undefined : … }`; an undefined field is not sent.
unfoldable pub text_body : ℕ → Text → Json
text_body status text =
    if is_ok status
    then obj (field "ok" (bool true) end)
    else obj (field "ok" (bool false) (field "error" (str (text_or_status text status)) end))

-- What the `try` block does with a response.
unfoldable pub translate : ProxyOptions → Upstream → Result Reply
translate opts res =
    if res.status == 404
    then json_response (not_implemented opts.path) 503
    else if includes (coalesce res.content_type []) (lit "application/json")
    then json_response (json_or_empty res.json) res.status
    else (res.text >>= λ text. json_response (text_body res.status text) res.status)

-- The `catch` block.
unfoldable pub catch_unreachable : Server → Result Reply → Result Reply
catch_unreachable srv (ok r) = ok r
catch_unreachable srv (throw e) = json_response (not_reachable (reason srv e)) 503

unfoldable pub proxy_to_gateway : Server → ProxyOptions → Outcome
unfolding token_of translate catch_unreachable
proxy_to_gateway srv opts = elim (token_of srv) [
  | none ↦ local (json_response not_authenticated 401)
  | some token ↦
      let req = proxy_request srv opts token in
      record {
        sent = req ∷ [];
        result = catch_unreachable srv (srv.fetch req >>= λ res. translate opts res);
      }
]

-- `readJsonBody`: what `req.json()` gives, or an object with the one key `__error`.
unfoldable pub read_json_body : Result Json → Json
read_json_body (ok v) = v
read_json_body (throw _) = obj (field "__error" (str (lit "invalid request body")) end)
