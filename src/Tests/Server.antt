-- ===== src/Tests/Server.antt =====
-- The routes, the set-up and the sign-in at concrete inputs.
use leakshield.Base.{◌≡◌, ◌↔◌, ◌≤◌, refl, true, false, none, some, [], ◌∷◌, arith, All, length}
use leakshield.Base.Result.{ok}
use leakshield.Js.Text.{lit, includes, starts_with}
use leakshield.Js.Json.{obj, end, get, given, lookup, truthy, str, as_string}
use leakshield.Js.Email.{email_test}
use leakshield.Js.Email.Spec.{IsEmail, email_test_iff}
use leakshield.Js.Http.{Reply}
use leakshield.Proxy.{not_reachable, proxy_to_gateway, text_body, token_of}
use leakshield.Proxy.Contract.{
  Answers, IsAuthenticated, of_text, proxy-Answers, proxy-IsAuthenticated, reply,
}
use leakshield.Proxy.Passing.{proxy-reply}
use leakshield.Routes.Users.{create_user}
use leakshield.Routes.Users.Validation.{IsCleanUser, create_user-IsCleanUser}
use leakshield.Routes.Keys.{create_key}
use leakshield.Routes.Keys.Target.{IsKeyRequest, create_key-IsKeyRequest}
use leakshield.Routes.Providers.{save_provider, test_provider}
use leakshield.Routes.Providers.Credentials.{
  SameCredentials, save-test_same, save_provider-IsSavable,
}
use leakshield.Proxy.{read_json_body}
use leakshield.Routes.Providers.Carried.{IsSavable}
use leakshield.Setup.Probe.{fetch_setup_status}
use leakshield.Setup.Entry.{form, root_index, sign_in_page}
use leakshield.Setup.Entry.Routing.{Confirmed, sign_in_iff}
use leakshield.Setup.Bootstrap.{bootstrap}
use leakshield.Setup.Bootstrap.Guards.{IsAccepted, bootstrap-IsAccepted}
use leakshield.Auth.{
  Session, Token, authorize, jwt, login_response, make_user, read_login, session_of, string_of,
}
use leakshield.Auth.Sessions.{Granted, authorize-Granted, refreshed}
use leakshield.Auth.Bearer.{IsBorne, proxy-authorize, serving}
use leakshield.Tests.Fixtures.{
  ada, address, documented, granted, new_admin, new_provider, new_user, options, plain, server,
  token, user, with_admin,
}

proxy-IsAuthenticated_example :
    (length (proxy_to_gateway (server (plain 200)) options).sent ≤ 1)
    × All
        (IsAuthenticated (server (plain 200)) options)
        (proxy_to_gateway (server (plain 200)) options).sent
proxy-IsAuthenticated_example = proxy-IsAuthenticated (server (plain 200)) options

proxy-Answers_example :
    (r : Reply) × ((proxy_to_gateway (server (plain 200)) options).result ≡ ok r)
    × Answers (server (plain 200)) options r
proxy-Answers_example = proxy-Answers (server (plain 200)) options

proxy-reply_example :
    (proxy_to_gateway (server (plain 204)) options).result ≡ ok (reply 503 (not_reachable []))
unfolding token_of includes starts_with lit
proxy-reply_example =
    proxy-reply (server (plain 204)) options (plain 204) (text_body 204 (b'x' ∷ []))
      (record { token = token; signed_in = refl; fetched = refl })
      (of_text (b'x' ∷ []) refl refl refl) (λ e. omega arith) (omega arith) (omega arith)

email_test_iff_example : (email_test address ≡ true) ↔ IsEmail address
email_test_iff_example = email_test_iff address

create_user-IsCleanUser_example :
    All (IsCleanUser (λ s. s)) (create_user (λ s. s) (server (plain 200)) (ok new_user)).sent
create_user-IsCleanUser_example =
    create_user-IsCleanUser (λ s. s) (server (plain 200)) (ok new_user)

create_key-IsKeyRequest_example :
    All
      (IsKeyRequest (server (plain 200)) token)
      (create_key (server (plain 200)) token (ok (obj end))).sent
create_key-IsKeyRequest_example =
    create_key-IsKeyRequest (server (plain 200)) token (omega arith, tt) (ok (obj end))

save_provider-IsSavable_example :
    All (IsSavable new_provider) (save_provider (server (plain 200)) (ok new_provider)).sent
unfolding read_json_body
save_provider-IsSavable_example = save_provider-IsSavable (server (plain 200)) (ok new_provider)

save-test_same_example :
    All
      (λ r. All (SameCredentials r) (test_provider (server (plain 404)) (ok new_provider)).sent)
      (save_provider (server (plain 200)) (ok new_provider)).sent
save-test_same_example = save-test_same (server (plain 200)) (server (plain 404)) (ok new_provider)

bootstrap-IsAccepted_example :
    All
      (IsAccepted (λ _. false) (server (plain 200)))
      (bootstrap (λ _. false) (server (plain 200)) (ok new_admin)).sent
bootstrap-IsAccepted_example = bootstrap-IsAccepted (λ _. false) (server (plain 200)) (ok new_admin)

sign_in_iff_example :
    ((root_index false (fetch_setup_status (server (documented with_admin))) ≡ "/sign-in")
      ↔ Confirmed (server (documented with_admin)))
    × ((sign_in_page (fetch_setup_status (server (plain 500))) ≡ form "/sign-in/reset")
        ↔ Confirmed (server (plain 500)))
sign_in_iff_example = sign_in_iff (server (documented with_admin)) (server (plain 500))

abbrev no_token : Token
no_token = record { access_token = none; tenant_id = none; role = none }

abbrev no_session : Session
no_session = record { access_token = none; tenant_id = none; role = none }

authorize-Granted_example :
    Granted (server (documented granted)) (some (str address)) (some (str ada)) user
unfolding authorize login_response read_login make_user string_of as_string get lookup truthy given
authorize-Granted_example =
    authorize-Granted (server (documented granted)) (some (str address)) (some (str ada)) user refl

proxy-authorize_example :
    IsBorne (server (documented granted)) (some (str address)) (some (str ada)) token (
      proxy_to_gateway
        (serving
          (server (documented granted))
          (session_of no_session (refreshed 2 (jwt no_token (some user)))))
        options)
unfolding authorize login_response read_login make_user string_of as_string get lookup truthy given
proxy-authorize_example =
    proxy-authorize (server (documented granted)) (some (str address)) (some (str ada)) user token
      refl refl no_token no_session 2 options
