-- ===== src/Api.antt =====
-- panel/lib/api/client.ts: the settings with which a client of the gateway's API is created. What the
-- library makes of them is its own.
use leakshield.Base.{
  String, Bool, true, false, Option, none, some, List, [], ◌∷◌, ◌++◌, if◌then◌else◌,
}
use leakshield.Js.Text.{Text, lit, nonempty}
use leakshield.Js.Http.{Server}
use leakshield.Env.{coalesce, get_internal_gateway_url, public_api_url}

pub record ClientOptions : Type 0 where
  pub token : Option Text
  pub base_url : Option Text

-- What `createClient` is given.
pub record ClientSettings : Type 0 where
  pub base_url : Text
  pub headers : List (String × Text)

-- `opts?.baseUrl`
abbrev given_base_url : Option ClientOptions → Option Text
given_base_url none = none
given_base_url (some opts) = opts.base_url

-- `if (opts?.token)`
abbrev token_headers : Option ClientOptions → List (String × Text)
token_headers none = []
token_headers (some opts) = elim opts.token [
  | none ↦ []
  | some t ↦ if nonempty t then ("Authorization", lit "Bearer " ++ t) ∷ [] else []
]

-- `isServer` is whether there is no window.
unfoldable pub make_api_client : Server → (is_server : Bool) → Option ClientOptions → ClientSettings
make_api_client srv is_server opts = record {
  base_url =
      coalesce (given_base_url opts)
        (if is_server then get_internal_gateway_url srv else public_api_url srv);
  headers = ("Content-Type", lit "application/json") ∷ token_headers opts;
}

unfoldable pub browser_api : Server → (is_server : Bool) → Option ClientSettings
browser_api srv true = none
browser_api srv false = some (record { base_url = public_api_url srv; headers = [] })
