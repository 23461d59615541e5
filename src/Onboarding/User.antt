-- ===== src/Onboarding/User.antt =====
-- panel/components/onboarding/step-3-user-client.tsx: issue the first virtual key. Two forms start the
-- requests, and the pane that reveals the key lets the admin go on.
mod State
unfoldable pub use State.*
pub mod View
pub mod Live
pub mod Users
pub mod Issued
pub mod Accepted
use leakshield.Base.{
  ℕ, String, Bool, true, false, not, ◌&&◌, ◌||◌, Option, none, some, List, [], ◌∷◌, ◌++◌,
  if◌then◌else◌,
}
use leakshield.Base.Result.{Result, ok, throw, ◌>>=◌}
use leakshield.Js.Text.{Text, lit, decimal, trim}
use leakshield.Js.Json.{Json, str, obj, end, field, get, given, or_else, to_string}
use leakshield.Js.Uri.{encode_uri_component}
use leakshield.Js.Http.{Upstream, is_ok}
use leakshield.Proxy.{json_or_empty}
use leakshield.Routes.Body.{text_field}
use leakshield.Setup.Probe.{truthy_option}

-- `/api/admin/users/${encodeURIComponent(userId)}/keys`
unfoldable pub key_path : Json → Result Text
key_path user_id = to_string user_id >>= λ shown.
    encode_uri_component shown >>= λ segment. ok (lit "/api/admin/users/" ++ segment ++ lit "/keys")

abbrev pub key_body : Text → Json
key_body key_name = obj (field "name" (str key_name) end)

abbrev pub start_issue : Result Text → Text → KeyScreen → KeyScreen
start_issue (throw _) key_name s = record s { crashed = true }
start_issue (ok path) key_name s = record s {
  in_flight = s.in_flight ++ issuing path (key_body key_name) ∷ [];
}

-- `issueKeyFor`: the action builds the address before it sends anything.
unfoldable pub issue_key_for : Json → Text → KeyScreen → KeyScreen
issue_key_for user_id key_name s =
    start_issue (key_path user_id) key_name (record s { error = none; demo = false })

abbrev pub generate_for : Option Json → KeyScreen → KeyScreen
generate_for none s = record s {
  error = some (
      str (
        lit
          "Your user id wasn't returned by the gateway. Add a teammate instead, or wait for the gateway to come up."));
  demo = true;
}
generate_for (some user_id) s = issue_key_for user_id (lit "Personal admin key") s

unfoldable pub handle_generate_mine : Option Me → KeyScreen → KeyScreen
unfolding issue_key_for
handle_generate_mine me s = generate_for (my_id me) s

-- `lower` is `toLowerCase`, whose Unicode tables the engine brings.
unfoldable pub teammate_body : (lower : Text → Text) → Teammate → Json
teammate_body lower t = obj (
    field "name" (str (trim t.name)) (
      text_field "surname" (trim t.surname) (
        field "email" (str (lower (trim t.email)))
          (text_field "phone" (trim t.phone) (text_field "department" (trim t.department) end)))))

unfoldable pub handle_add_teammate : (lower : Text → Text) → KeyScreen → KeyScreen
unfolding teammate_valid
handle_add_teammate lower s =
    if teammate_valid s.teammate
    then record s {
      error = none;
      demo = false;
      in_flight =
          s.in_flight ++ creating (teammate_body lower s.teammate) (trim s.teammate.name) ∷ [];
    }
    else s

-- What an answer leads to: a key to issue for a new user, a key to reveal, or a message.
pub data Reaction : Type 0 where
  issue : (user_id : Json) → Reaction
  reveal : IssuedKey → Reaction
  complain : (error : Json) (demo : Bool) → Reaction

-- `setDemo(Boolean(data.demo)); setError(data.error ?? …)`
abbrev pub complaint : Json → Text → ℕ → Result Reaction
complaint v what status = get v "demo" >>= λ demo. get v "error" >>= λ e. ok (
    complain (or_else e (str (what ++ lit " (HTTP " ++ decimal status ++ lit ").")))
      (truthy_option demo))

abbrev pub created_or : Option Json → Bool → Result Reaction → Result Reaction
created_or (some user_id) true _ = ok (issue user_id)
created_or _ _ other = other

-- What `handleAddTeammate` does with the response.
unfoldable pub creation_reply : Upstream → Result Reaction
creation_reply res = get (json_or_empty res.json) "id" >>= λ user_id.
    created_or (given user_id) (is_ok res.status)
      (complaint (json_or_empty res.json) (lit "Couldn't create the user") res.status)

-- `String(v ?? "")`
abbrev string_or_empty : Option Json → Result Text
string_or_empty v = to_string (or_else v (str []))

unfoldable pub issued_key : Json → Json → Result IssuedKey
issued_key v plaintext = do
  key_id ← get v "id"
  id ← string_or_empty key_id
  key_prefix ← get v "prefix"
  prefix ← string_or_empty key_prefix
  providers ← get v "allowed_providers"
  models ← get v "allowed_models"
  ok (record {
    id = id;
    prefix = prefix;
    plaintext = plaintext;
    allowed_providers = providers;
    allowed_models = models;
  })

abbrev pub revealed_or : Json → Option Json → Bool → Result Reaction → Result Reaction
revealed_or v (some plaintext) true _ = issued_key v plaintext >>= λ key. ok (reveal key)
revealed_or v _ _ other = other

-- What `issueKeyFor` does with the response.
unfoldable pub issue_reply : Upstream → Result Reaction
unfolding issued_key
issue_reply res = get (json_or_empty res.json) "plaintext" >>= λ plaintext.
    revealed_or (json_or_empty res.json) (given plaintext) (is_ok res.status)
      (complaint (json_or_empty res.json) (lit "Couldn't issue the key") res.status)

abbrev pub apply_reaction : (owner : Text) → Result Reaction → KeyScreen → KeyScreen
apply_reaction owner (throw _) s = record s { crashed = true }
apply_reaction owner (ok (issue user_id)) s = issue_key_for user_id (owner ++ lit "'s key") s
apply_reaction owner (ok (reveal key)) s = record s { issued = some key }
apply_reaction owner (ok (complain e d)) s = record s { error = some e; demo = d }

-- The oldest action in flight gets its answer.
unfoldable pub answer_jobs : List KeyJob → Result Upstream → KeyScreen → KeyScreen
unfolding creation_reply issue_reply issue_key_for
answer_jobs [] reply s = s
answer_jobs (creating body owner ∷ rest) reply s =
    apply_reaction owner (reply >>= creation_reply) (record s { in_flight = rest })
answer_jobs (issuing path body ∷ rest) reply s =
    apply_reaction [] (reply >>= issue_reply) (record s { in_flight = rest })

pub data KeyEvent : Type 0 where
  tab_picked : Tab → KeyEvent
  typed : TeammateKey → Text → KeyEvent
  generate_clicked : KeyEvent
  submitted : KeyEvent
  replied : Result Upstream → KeyEvent
  -- Copy was clicked, and the clipboard took the key or refused.
  copy_ended : (wrote : Bool) → KeyEvent
  continue_clicked : KeyEvent

-- `KeyRevealPane`, which is shown in place of the forms once there is a key. A refusal of the
-- clipboard counts as a copy.
unfoldable pub react_pane : KeyEvent → KeyScreen → KeyScreen
unfolding answer_jobs
react_pane (replied reply) s = answer_jobs s.in_flight reply s
react_pane (copy_ended true) s = record s { copied = true }
react_pane (copy_ended false) s = record s { copied = true }
react_pane continue_clicked s =
    if not s.copied then s else record s { route = some "/onboarding/4" }
react_pane _ s = s

-- The forms; a disabled button does nothing.
unfoldable pub react_forms : (Text → Text) → Option Me → KeyEvent → KeyScreen → KeyScreen
unfolding answer_jobs handle_generate_mine handle_add_teammate set_teammate
react_forms lower me (tab_picked t) s = record s { tab = t; error = none; demo = false }
react_forms lower me (typed k v) s = record s { teammate = set_teammate k v s.teammate }
react_forms lower me generate_clicked s = if is_busy s then s else handle_generate_mine me s
react_forms lower me submitted s =
    if is_busy s || not (teammate_valid s.teammate) then s else handle_add_teammate lower s
react_forms lower me (replied reply) s = answer_jobs s.in_flight reply s
react_forms lower me _ s = s

abbrev pub react_shown :
    (Text → Text) → Option Me → KeyEvent → Option IssuedKey → KeyScreen → KeyScreen
react_shown lower me e none s = react_forms lower me e s
react_shown lower me e (some _) s = react_pane e s

unfoldable pub key_step : (Text → Text) → Option Me → KeyEvent → KeyScreen → KeyScreen
unfolding react_pane react_forms
key_step lower me e s = if s.crashed then s else react_shown lower me e s.issued s
