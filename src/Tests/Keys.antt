-- ===== src/Tests/Keys.antt =====
-- Issuing a key at concrete inputs.
use leakshield.Base.{◌≡◌, refl, false, none, some, List, [], ◌∷◌}
use leakshield.Base.Result.{ok}
use leakshield.Js.Json.{end, field, get, given, lookup, obj, or_else, str, to_string, truthy}
use leakshield.Js.Uri.{encode_uri_component}
use leakshield.Js.Http.{Upstream}
use leakshield.Proxy.{json_or_empty}
use leakshield.Onboarding.User.{
  IssuedKey, KeyEvent, KeyScreen, Me, answer_jobs, continue_clicked, copy_ended, generate_clicked,
  handle_generate_mine, issue_key_for, issue_reply, issued_key, key_path, key_step, mounted, my_id,
  react_forms, react_pane, replied,
}
use leakshield.Onboarding.User.Issued.{CopyEnded, Reached, Revealed, begin, then_on}
use leakshield.Onboarding.User.Issued.Kept.{Reached-Revealed, Reached-copied}
use leakshield.Onboarding.User.{Tab}
use leakshield.Onboarding.User.View.{key_view}
use leakshield.Onboarding.User.Live.{IsLive}
use leakshield.Onboarding.User.Live.Shown.{key_view-IsLive}
use leakshield.Js.Email.{
  email_test, is_plain, plain_to_end, some_to_end, dot_then_end, host_to_end, at_then_host,
}
use leakshield.Js.Text.{is_space, trim, trim_end, trim_start}
use leakshield.Proxy.{token_of, proxy_request}
use leakshield.Routes.Users.{create_user, create_options}
use leakshield.Onboarding.User.{Teammate, teammate_body, teammate_valid}
use leakshield.Onboarding.User.Accepted.{sent_teammate, teammate_body-accepted}
use leakshield.Tests.Fixtures.{address, server, ada, documented, token}

abbrev me : Me
me = record { id = some (str []); name = none; email = none; role = none }

abbrev ready : Me
ready = record me { id = some (str token) }

abbrev issued_answer : Upstream
issued_answer = documented (obj (field "plaintext" (str ada) end))

abbrev until_key : List KeyEvent
until_key = replied (ok issued_answer) ∷ generate_clicked ∷ []

abbrev until_done : List KeyEvent
until_done = continue_clicked ∷ copy_ended false ∷ until_key

abbrev revealing : KeyScreen
revealing =
    key_step (λ s. s) (some ready) (replied (ok issued_answer))
      (key_step (λ s. s) (some ready) generate_clicked mounted)

abbrev done : KeyScreen
done =
    key_step (λ s. s) (some ready) continue_clicked
      (key_step (λ s. s) (some ready) (copy_ended false) revealing)

abbrev revealed_key : IssuedKey
revealed_key = record {
  id = [];
  prefix = [];
  plaintext = str ada;
  allowed_providers = none;
  allowed_models = none;
}

reached : Reached (λ s. s) (some ready) until_key revealing
reached = then_on (replied (ok issued_answer)) (then_on generate_clicked begin)

Reached-Revealed_example : Revealed until_key revealed_key
unfolding key_step react_forms react_pane mounted handle_generate_mine my_id given truthy
    issue_key_for key_path to_string encode_uri_component answer_jobs issue_reply issued_key get
    lookup json_or_empty or_else
Reached-Revealed_example = Reached-Revealed reached revealed_key refl

Reached-copied_example : CopyEnded until_done × ((key : IssuedKey) × (done.issued ≡ some key))
unfolding key_step react_forms react_pane mounted handle_generate_mine my_id given truthy
    issue_key_for key_path to_string encode_uri_component answer_jobs issue_reply issued_key get
    lookup json_or_empty or_else
Reached-copied_example =
    Reached-copied (then_on continue_clicked (then_on (copy_ended false) reached)) "/onboarding/4"
      refl

abbrev colleague : Teammate
colleague = record { name = ada; surname = []; email = address; phone = []; department = ada }

teammate_body-accepted_example :
    (create_user
      (λ s. s)
      (server (documented (obj end)))
      (ok (teammate_body (λ s. s) colleague))).sent
    ≡ proxy_request
        (server (documented (obj end)))
        (create_options (sent_teammate (λ s. s) colleague))
        token
      ∷ []
unfolding token_of teammate_valid trim trim_end trim_start is_space email_test is_plain plain_to_end
    some_to_end dot_then_end host_to_end at_then_host
teammate_body-accepted_example =
    teammate_body-accepted (λ s. s) (server (documented (obj end))) token colleague (λ e h. h) refl
      refl

abbrev new_teammate : KeyScreen
new_teammate = record mounted {
  tab = Tab.teammate;
  teammate = record { name = ada; surname = []; email = address; phone = []; department = [] };
}

key_view-IsLive_example :
    IsLive (λ s. s) (some ready) new_teammate (key_view (some ready) new_teammate)
unfolding mounted
key_view-IsLive_example = key_view-IsLive (λ s. s) (some ready) new_teammate refl
