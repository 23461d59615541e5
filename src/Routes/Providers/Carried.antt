-- ===== src/Routes/Providers/Carried.antt =====
-- What the two provider routes send on: the body's own provider, key and configuration.
use leakshield.Base.{◌≡◌, refl, true, Option, none, some, All, All-map}
use leakshield.Base.Result.{ok}
use leakshield.Js.Text.{Text, nonempty, trim}
use leakshield.Js.Json.{Json, str, obj, end, Fields, lookup, get, given, or_else, call_trim}
use leakshield.Js.Http.{HttpRequest, Server}
use leakshield.Proxy.{proxy_to_gateway}
use leakshield.Proxy.Contract.{proxy-IsAuthenticated}
use leakshield.Routes.Body.Sent.{>=>-sent, refuse-sent, if-sent}
use leakshield.Routes.Users.Validation.{call_trim-trimmed}
use leakshield.Routes.Providers.{
  given_string, save_options, check_saved_key, check_label, check_saved_provider, test_options,
  check_tested_key, check_tested_provider,
}

-- The request carries the body's own provider and key, two strings that are not empty, and its
-- configuration, or an empty object where that is missing or null.
pub record Carries (body : Json) (req : HttpRequest) : Type 0 where
  pub fields : Fields
  pub sent : req.body ≡ some (obj fields)
  pub provider : Option Json
  pub provider_posted : get body "provider" ≡ ok provider
  pub provider_text : Text
  pub provider_given : given_string provider ≡ some provider_text
  pub provider_sent : lookup "provider" fields ≡ some (str provider_text)
  pub key : Option Json
  pub key_posted : get body "api_key" ≡ ok key
  pub key_text : Text
  pub key_given : given_string key ≡ some key_text
  pub key_sent : lookup "api_key" fields ≡ some (str key_text)
  pub config : Option Json
  pub config_posted : get body "config" ≡ ok config
  pub config_sent : lookup "config" fields ≡ some (or_else config (obj end))

-- A request to save a provider also carries a trimmed label that is not empty.
pub record IsSavable (body : Json) (req : HttpRequest) : Type 0 where
  pub carries : Carries body req
  pub label : Text
  pub label_sent : lookup "label" carries.fields ≡ some (str label)
  pub label_given : nonempty label ≡ true
  pub label_trimmed : trim label ≡ label

module _ (srv : Server) (body : Json) where
  saved-IsSavable :
      (provider key config models : Option Json) (p k label : Text)
      → get body "provider" ≡ ok provider
      → given_string provider ≡ some p
      → get body "api_key" ≡ ok key
      → given_string key ≡ some k
      → get body "config" ≡ ok config
      → nonempty label ≡ true
      → trim label ≡ label
      → All (IsSavable body) (proxy_to_gateway srv (save_options p label k config models)).sent
  unfolding save_options lookup
  saved-IsSavable provider key config models p k label gp sp gk sk gc full clean =
      All-map
        (λ req a. record {
          carries = record {
            fields = _;
            sent = a.body;
            provider = provider;
            provider_posted = gp;
            provider_text = p;
            provider_given = sp;
            provider_sent = refl;
            key = key;
            key_posted = gk;
            key_text = k;
            key_given = sk;
            key_sent = refl;
            config = config;
            config_posted = gc;
            config_sent = refl;
          };
          label = label;
          label_sent = refl;
          label_given = full;
          label_trimmed = clean;
        })
        _ (proxy-IsAuthenticated srv (save_options p label k config models)).1

  check_saved_key-IsSavable :
      (provider key : Option Json) (p label : Text) (k : Option Text)
      → get body "provider" ≡ ok provider
      → given_string provider ≡ some p
      → get body "api_key" ≡ ok key
      → given_string key ≡ k
      → nonempty label ≡ true
      → trim label ≡ label
      → All (IsSavable body) (check_saved_key srv body p label k).sent
  unfolding check_saved_key
  check_saved_key-IsSavable provider key p label none gp sp gk sk full clean = refuse-sent _ _
  check_saved_key-IsSavable provider key p label (some k) gp sp gk sk full clean =
      >=>-sent _ (get body "config") _ (λ config gc.
        >=>-sent _ (get body "allowed_models") _ (λ models _.
          saved-IsSavable provider key config models p k label gp sp gk sk gc full clean))

  check_label-IsSavable :
      (provider : Option Json) (p : Text) (label : Option Json)
      → get body "provider" ≡ ok provider
      → given_string provider ≡ some p
      → All (IsSavable body) (check_label srv body p label).sent
  unfolding check_label
  check_label-IsSavable provider p none gp sp = refuse-sent _ _
  check_label-IsSavable provider p (some v) gp sp = >=>-sent _ (call_trim v) _ (λ t c.
      if-sent _ (nonempty t) _ _
        (λ full. >=>-sent _ (get body "api_key") _ (λ key gk.
          check_saved_key-IsSavable provider key p t (given_string key) gp sp gk refl full
            (call_trim-trimmed v t c)))
        (λ _. refuse-sent _ _))

  pub check_saved_provider-IsSavable :
      (provider : Option Json) (p : Option Text)
      → get body "provider" ≡ ok provider
      → given_string provider ≡ p
      → All (IsSavable body) (check_saved_provider srv body p).sent
  unfolding check_saved_provider
  check_saved_provider-IsSavable provider none gp sp = refuse-sent _ _
  check_saved_provider-IsSavable provider (some p) gp sp =
      >=>-sent _ (get body "label") _
        (λ label _. check_label-IsSavable provider p (given label) gp sp)

  tested-Carries :
      (provider key config : Option Json) (p k : Text)
      → get body "provider" ≡ ok provider
      → given_string provider ≡ some p
      → get body "api_key" ≡ ok key
      → given_string key ≡ some k
      → get body "config" ≡ ok config
      → All (Carries body) (proxy_to_gateway srv (test_options p k config)).sent
  unfolding test_options lookup
  tested-Carries provider key config p k gp sp gk sk gc =
      All-map
        (λ req a. record {
          fields = _;
          sent = a.body;
          provider = provider;
          provider_posted = gp;
          provider_text = p;
          provider_given = sp;
          provider_sent = refl;
          key = key;
          key_posted = gk;
          key_text = k;
          key_given = sk;
          key_sent = refl;
          config = config;
          config_posted = gc;
          config_sent = refl;
        })
        _ (proxy-IsAuthenticated srv (test_options p k config)).1

  check_tested_key-Carries :
      (provider key : Option Json) (p : Text) (k : Option Text)
      → get body "provider" ≡ ok provider
      → given_string provider ≡ some p
      → get body "api_key" ≡ ok key
      → given_string key ≡ k
      → All (Carries body) (check_tested_key srv body p k).sent
  unfolding check_tested_key
  check_tested_key-Carries provider key p none gp sp gk sk = refuse-sent _ _
  check_tested_key-Carries provider key p (some k) gp sp gk sk =
      >=>-sent _ (get body "config") _
        (λ config gc. tested-Carries provider key config p k gp sp gk sk gc)

  pub check_tested_provider-Carries :
      (provider : Option Json) (p : Option Text)
      → get body "provider" ≡ ok provider
      → given_string provider ≡ p
      → All (Carries body) (check_tested_provider srv body p).sent
  unfolding check_tested_provider
  check_tested_provider-Carries provider none gp sp = refuse-sent _ _
  check_tested_provider-Carries provider (some p) gp sp =
      >=>-sent _ (get body "api_key") _
        (λ key gk. check_tested_key-Carries provider key p (given_string key) gp sp gk refl)
