-- ===== src/Setup/Probe.antt =====
-- panel/lib/setup-status.ts: is the gateway there, and does it have an admin?
use leakshield.Base.{ℕ, Bool, true, false, Option, none, some, [], ◌∷◌, ◌++◌, ◌==◌, if◌then◌else◌}
use leakshield.Base.Result.{Result, ok, throw, ◌>>=◌}
use leakshield.Js.Text.{Text, lit, decimal}
use leakshield.Js.Json.{Json, bool, get, truthy}
use leakshield.Js.Http.{HttpRequest, Upstream, Server, is_ok, reason}
use leakshield.Env.{gateway_url}

pub data SetupStatus : Type 0 where
  reachable : (has_admin accepts_bootstrap : Bool) → SetupStatus
  unreachable : (why : Text) → SetupStatus

abbrev pub probe_timeout_ms : ℕ
probe_timeout_ms = 1500

unfoldable pub probe_request : Server → HttpRequest
probe_request srv = record {
  method = "GET";
  url = gateway_url srv (lit "/admin/v1/setup/status");
  headers = ("Accept", lit "application/json") ∷ [];
  body = none;
  timeout_ms = some probe_timeout_ms;
}

abbrev pub truthy_option : Option Json → Bool
truthy_option none = false
truthy_option (some v) = truthy v

-- `v !== false`
abbrev pub is_not_false : Option Json → Bool
is_not_false (some (bool false)) = false
is_not_false _ = true

unfoldable pub read_status : Json → Result SetupStatus
read_status v = do
  admin ← get v "has_admin"
  accepts ← get v "accepts_bootstrap"
  ok (reachable (truthy_option admin) (is_not_false accepts))

-- What the `try` block makes of a response.
unfoldable pub probe_response : Upstream → Result SetupStatus
unfolding read_status
probe_response res =
    if is_ok res.status
    then (res.json >>= read_status)
    else if res.status == 404
    then ok (reachable false true)
    else ok (unreachable (lit "gateway returned " ++ decimal res.status))

-- The `catch` block.
unfoldable pub catch_probe : Server → Result SetupStatus → SetupStatus
catch_probe srv (ok s) = s
catch_probe srv (throw e) = unreachable (reason srv e)

unfoldable pub fetch_setup_status : Server → SetupStatus
unfolding probe_response catch_probe
fetch_setup_status srv = catch_probe srv (srv.fetch (probe_request srv) >>= probe_response)
