-- ===== src/Tests/Shared.antt =====
-- What the pages share, the sign-in form and the relay of events, at concrete inputs.
use leakshield.Base.{
  ◌↔◌, ◌⊎◌, ◌≡◌, ◌≤◌, map, refl, false, none, some, List, [], ◌∷◌, filter, length,
}
use leakshield.Base.Result.{ok}
use leakshield.Js.Text.{Text, lit}
use leakshield.Env.{coalesce}
use leakshield.Panel.Sidebar.{sidebar}
use leakshield.Panel.Sidebar.Active.{AreMarked, entries, is_current, sidebar-AreMarked}
use leakshield.Panel.Locale.{request_locale}
use leakshield.Panel.Locale.Choice.{Chosen, request_locale-Chosen}
use leakshield.Panel.Modals.{ModalState, NewModal, no_modals, open_modal, close_modal, modal_id}
use leakshield.Panel.Modals.Ids.{
  AreDistinct, ModalEvent, closed, modal_run, modal_run-AreDistinct, opened, unnamed,
}
use leakshield.Panel.Modals.Closing.{Nested, idle, dialog, last, by_id, Nested-stack}
use leakshield.Panel.Retry.{retry}
use leakshield.Panel.Retry.Permanent.{IsPermanent, retry_iff}
use leakshield.Auth.Form.{
  Credentials, FormEvent, SignInForm, sent, ended, blank_form, form_step, form_react, settle_result,
  is_refused,
}
use leakshield.Auth.Form.Accepted.{IsAccepted, Reached, EndsIn, begin, then_on, Reached-IsAccepted}
use leakshield.Logs.Relay.{Params, Urls, StreamResponse, forward_params}
use leakshield.Logs.Relay.Query.{values_of, last_or, forward_params-values}
use leakshield.Logs.Relay.Answers.{Answers}
use leakshield.Tests.Fixtures.{ada}

sidebar-AreMarked_example :
    AreMarked (some (lit "/users/7")) (entries (sidebar (λ s. s) (some (lit "/users/7")) false))
    × (length (filter is_current (entries (sidebar (λ s. s) (some (lit "/users/7")) false))) ≤ 1)
sidebar-AreMarked_example = sidebar-AreMarked (λ s. s) (some (lit "/users/7")) false

request_locale-Chosen_example :
    Chosen
      (λ s. s)
      (some (lit "fr"))
      (some (lit "de, tr;q=0.8, en"))
      (request_locale (λ s. s) (some (lit "fr")) (some (lit "de, tr;q=0.8, en")))
request_locale-Chosen_example =
    request_locale-Chosen (λ s. s) (some (lit "fr")) (some (lit "de, tr;q=0.8, en"))

abbrev notice : NewModal
notice = record { id = none; kind = ada; props = none }

abbrev one_open : ModalState
one_open = (open_modal notice no_modals).1

abbrev two_open : ModalState
two_open = (open_modal notice one_open).1

abbrev one_left : ModalState
one_left = close_modal none two_open

abbrev all_closed : ModalState
all_closed = close_modal (some (modal_id notice no_modals)) one_left

closing : Nested no_modals all_closed
closing = dialog notice (dialog notice idle last idle) (by_id tt) idle

Nested-stack_example : all_closed.stack ≡ no_modals.stack
Nested-stack_example = Nested-stack no_modals all_closed closing

abbrev calls : List ModalEvent
calls = opened ada none ∷ opened ada none ∷ closed (some (lit "modal-1")) ∷ opened ada none ∷ []

modal_run-AreDistinct_example :
    AreDistinct (map (λ e. e.id) (modal_run calls no_modals).stack)
    × ((close_modal
          (some (modal_id (unnamed ada none) (modal_run calls no_modals)))
          (open_modal (unnamed ada none) (modal_run calls no_modals)).1).stack
        ≡ (modal_run calls no_modals).stack)
modal_run-AreDistinct_example = modal_run-AreDistinct calls ada none

abbrev credentials : Credentials
credentials = record { email = ada; password = ada }

abbrev form_events : List FormEvent
form_events = ended (ok (some none)) ∷ sent credentials ∷ []

abbrev signed_in_form : SignInForm
signed_in_form =
    form_step none (ended (ok (some none))) (form_step none (sent credentials) blank_form)

form-Reached : Reached none form_events signed_in_form
form-Reached = then_on (ended (ok (some none))) (then_on (sent credentials) begin)

Reached-IsAccepted_example :
    (lit "/dashboard" ≡ coalesce none (lit "/dashboard")) × EndsIn IsAccepted form_events
unfolding form_step form_react settle_result is_refused
Reached-IsAccepted_example = Reached-IsAccepted form-Reached (lit "/dashboard") refl

abbrev filters : Params
filters = (lit "since", lit "1") ∷ (lit "key", ada) ∷ (lit "since", lit "2") ∷ []

forward_params-values_example :
    values_of (lit "since") (forward_params filters) ≡ last_or (values_of (lit "since") filters) []
forward_params-values_example = forward_params-values (lit "since") filters

abbrev urls : Urls
urls = record { resolve = λ path base. ok path; with_params = λ address ps. address }

abbrev stream_of_text : StreamResponse Text
stream_of_text = record { status = 200; body = some ada }

retry_iff_example :
    (retry 0 (some (lit "HTTP 404")) ≡ false) ↔ ((2 ≤ 0) ⊎ IsPermanent (some (lit "HTTP 404")))
retry_iff_example = retry_iff 0 (some (lit "HTTP 404"))
