-- ===== src/Js/Http.antt =====
-- Requests, responses and the server's surroundings, as the Fetch standard and Next.js have them.
use leakshield.Base.{ℕ, String, Bool, ◌&&◌, ◌||◌, Option, List, [], leb, ◌==◌, if◌then◌else◌}
use leakshield.Base.Result.{
  Thrown, error, value, type_error, range_error, uri_error, Result, ok, throw,
}
use leakshield.Js.Text.{Text}
use leakshield.Js.Json.{Json}

pub record HttpRequest : Type 0 where
  pub method : String
  pub url : Text
  pub headers : List (String × Text)
  pub body : Option Json
  -- After this time the request is aborted, which `fetch` reports by a rejection.
  pub timeout_ms : Option ℕ

-- A response of the gateway; its body is read once, as JSON or as text.
pub record Upstream : Type 0 where
  pub status : ℕ
  pub content_type : Option Text
  pub json : Result Json
  pub text : Result Text

-- A response of the panel.
pub record Reply : Type 0 where
  pub status : ℕ
  pub body : Json

-- `res.ok`
abbrev pub is_ok : ℕ → Bool
is_ok status = leb 200 status && leb status 299

abbrev pub is_null_body : ℕ → Bool
is_null_body status = (status == 204) || (status == 205) || (status == 304)

-- `NextResponse.json(body, { status })`, which is `Response.json`: a status out of range and a
-- status that forbids a body are refused.
unfoldable pub json_response : Json → ℕ → Result Reply
json_response body status =
    if leb 200 status && leb status 599
    then (if is_null_body status
        then throw type_error
        else ok (record { status = status; body = body }))
    else throw range_error

-- What one call of a handler does: the requests that it sends, in order, and how it ends.
pub record Outcome : Type 0 where
  pub sent : List HttpRequest
  pub result : Result Reply

abbrev pub local : Result Reply → Outcome
local r = record { sent = []; result = r }

-- The part of a handler before any request: what it throws ends the handler.
infixl 5 ◌>=>◌
abbrev pub ◌>=>◌ {ℓ} : {A : Type ℓ} → Result A → (A → Outcome) → Outcome
ok a >=> f = f a
throw e >=> f = local (throw e)

-- The surroundings of the server: its environment variables, the signed-in session's token, the
-- network, and the engine's words for its own errors.
pub record Server : Type 0 where
  pub gateway_internal_url : Option Text
  pub next_public_api_url : Option Text
  -- A text or missing, as the type of the session says.
  pub access_token : Option Text
  pub fetch : HttpRequest → Result Upstream
  pub type_error_message : Text
  pub range_error_message : Text
  pub uri_error_message : Text

-- `e instanceof Error ? e.message : String(e)`
unfoldable pub reason : Server → Thrown → Text
reason srv (error m) = m
reason srv (value s) = s
reason srv type_error = srv.type_error_message
reason srv range_error = srv.range_error_message
reason srv uri_error = srv.uri_error_message
