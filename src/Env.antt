-- ===== src/Env.antt =====
-- panel/lib/env.ts: where the gateway is.
use leakshield.Base.{Option, none, some, ◌++◌}
use leakshield.Js.Text.{Text, lit, strip_slash}
use leakshield.Js.Http.{Server}

-- `a ?? b`
abbrev pub coalesce {ℓ} : {A : Type ℓ} → Option A → A → A
coalesce none d = d
coalesce (some a) d = a

unfoldable pub public_api_url : Server → Text
public_api_url srv = coalesce srv.next_public_api_url (lit "http://localhost:8080")

unfoldable pub get_internal_gateway_url : Server → Text
unfolding public_api_url
get_internal_gateway_url srv = coalesce srv.gateway_internal_url (public_api_url srv)

-- `${getInternalGatewayUrl().replace(/\/$/, "")}${path}`
unfoldable pub gateway_url : Server → Text → Text
unfolding get_internal_gateway_url
gateway_url srv path = strip_slash (get_internal_gateway_url srv) ++ path
