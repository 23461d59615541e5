-- ===== src/Routes/Providers/Credentials.antt =====
-- The two provider routes against each other and against the posted body.
use leakshield.Base.{String, ◌≡◌, refl, Option, some, All, All-map}
use leakshield.Base.Result.{Result, ok}
use leakshield.Js.Text.{Text}
use leakshield.Js.Json.{Json, str, obj, Fields, lookup, get}
use leakshield.Js.Http.{HttpRequest, Server}
use leakshield.Proxy.{read_json_body}
use leakshield.Routes.Body.Sent.{>=>-sent, with_body-sent_at}
use leakshield.Routes.Providers.{given_string, save_provider, test_provider}
use leakshield.Routes.Providers.Carried.{
  Carries, IsSavable, check_saved_provider-IsSavable, check_tested_provider-Carries,
}

module _ (srv : Server) (parsed : Result Json) where
  -- Whatever is posted, a request to save a provider carries the body's provider and key, both strings
  -- that are not empty, its configuration, and a trimmed label that is not empty.
  pub save_provider-IsSavable :
      All (IsSavable (read_json_body parsed)) (save_provider srv parsed).sent
  unfolding save_provider
  save_provider-IsSavable = with_body-sent_at _ parsed _ (
      >=>-sent _ (get (read_json_body parsed) "provider") _ (λ p gp.
        check_saved_provider-IsSavable srv (read_json_body parsed) p (given_string p) gp refl))

  pub test_provider-Carries : All (Carries (read_json_body parsed)) (test_provider srv parsed).sent
  unfolding test_provider
  test_provider-Carries = with_body-sent_at _ parsed _ (
      >=>-sent _ (get (read_json_body parsed) "provider") _ (λ p gp.
        check_tested_provider-Carries srv (read_json_body parsed) p (given_string p) gp refl))

-- Two requests with the same provider, key and configuration in their bodies.
pub record SameCredentials (r s : HttpRequest) : Type 0 where
  pub left : Fields
  pub left_sent : r.body ≡ some (obj left)
  pub right : Fields
  pub right_sent : s.body ≡ some (obj right)
  pub provider : lookup "provider" left ≡ lookup "provider" right
  pub key : lookup "api_key" left ≡ lookup "api_key" right
  pub config : lookup "config" left ≡ lookup "config" right

string_field-same :
    (body : Json) (k : String) (fs gs : Fields) (v w : Option Json) (s t : Text)
    → get body k ≡ ok v
    → get body k ≡ ok w
    → given_string v ≡ some s
    → given_string w ≡ some t
    → lookup k fs ≡ some (str s)
    → lookup k gs ≡ some (str t)
    → lookup k fs ≡ lookup k gs
string_field-same body k fs gs v w s t gv gw sv sw lf lg =
    let same : v ≡ w = cc in let text : s ≡ t = cc in cc

Carries-same :
    (body : Json) (r s : HttpRequest) → Carries body r → Carries body s → SameCredentials r s
Carries-same body r s a b = record {
  left = a.fields;
  left_sent = a.sent;
  right = b.fields;
  right_sent = b.sent;
  provider =
      string_field-same body "provider" a.fields b.fields a.provider b.provider a.provider_text
        b.provider_text a.provider_posted b.provider_posted a.provider_given b.provider_given
        a.provider_sent b.provider_sent;
  key =
      string_field-same body "api_key" a.fields b.fields a.key b.key a.key_text b.key_text
        a.key_posted b.key_posted a.key_given b.key_given a.key_sent b.key_sent;
  config =
      let same : a.config ≡ b.config = cc (a.config_posted, b.config_posted) in
      cc (a.config_sent, b.config_sent);
}

-- A connection test and a save of the same posted body send the gateway the same provider, the same
-- key and the same configuration, whenever both send anything, whatever the server is at each.
pub save-test_same :
    (srv srv' : Server) (parsed : Result Json)
    → All
        (λ r. All (SameCredentials r) (test_provider srv' parsed).sent)
        (save_provider srv parsed).sent
save-test_same srv srv' parsed =
    All-map
      (λ r a.
        All-map (λ s b. Carries-same (read_json_body parsed) r s a.carries b) _
          (test_provider-Carries srv' parsed))
      _ (save_provider-IsSavable srv parsed)
