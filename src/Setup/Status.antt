-- ===== src/Setup/Status.antt =====
-- panel/app/api/setup/status/route.ts: the state of the set-up, for the browser.
use leakshield.Base.{true, false, [], ◌∷◌}
use leakshield.Js.Json.{Json, bool, str, obj, end, field}
use leakshield.Js.Http.{Server, Outcome, json_response}
use leakshield.Setup.Probe.{SetupStatus, reachable, unreachable, fetch_setup_status, probe_request}

-- `SetupStatus` as the object that it is.
unfoldable pub status_body : SetupStatus → Json
status_body (reachable has_admin accepts_bootstrap) = obj (
    field "reachable" (bool true)
      (field "hasAdmin" (bool has_admin) (field "acceptsBootstrap" (bool accepts_bootstrap) end)))
status_body (unreachable why) = obj (field "reachable" (bool false) (field "reason" (str why) end))

-- `GET`
unfoldable pub setup_status : Server → Outcome
unfolding status_body
setup_status srv = record {
  sent = probe_request srv ∷ [];
  result = json_response (status_body (fetch_setup_status srv)) 200;
}
