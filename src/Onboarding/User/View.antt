-- ===== src/Onboarding/User/View.antt =====
-- What the screen shows, and which of its buttons can be pressed.
use leakshield.Base.{
  String, Bool, true, false, not, ◌||◌, Option, none, some, List, [], ◌∷◌, if◌then◌else◌,
}
use leakshield.Js.Text.{Text, lit}
use leakshield.Js.Json.{Json, str, arr, Items, nil, cons, given, or_else}
use leakshield.Onboarding.User.{
  Me, IssuedKey, Tab, mine, teammate, Teammate, TeammateKey, KeyScreen, is_busy, my_account_ready,
  teammate_valid,
}
use leakshield.Onboarding.User.Users.{or_default, text_or_dash}

pub record ButtonView : Type 0 where
  pub label : String
  pub enabled : Bool

-- `KeyRevealPane`; the badge for no restriction is `all`.
pub record PaneView : Type 0 where
  pub key : Json
  pub copy : String
  pub prefix : Text
  pub providers : List Json
  pub proceed : ButtonView

unfoldable pub badges : Items → List Json
badges nil = []
badges (cons v xs) = v ∷ badges xs

-- The list is an array, as its type says, or missing.
unfoldable pub provider_badges : Option Json → List Json
unfolding badges
provider_badges (some (arr (cons v xs))) = badges (cons v xs)
provider_badges _ = str (lit "all") ∷ []

unfoldable pub pane_view : IssuedKey → (copied : Bool) → PaneView
unfolding provider_badges
pane_view key copied = record {
  key = key.plaintext;
  copy = if copied then "Copied" else "Copy";
  prefix = text_or_dash key.prefix;
  providers = provider_badges key.allowed_providers;
  proceed = record {
    label = if copied then "Continue" else "Copy the key first";
    enabled = copied;
  };
}

-- The admin's own card, with its hint for a missing id.
pub data AccountView : Type 0 where
  account : (name : Json) (email : Option Json) (role : Json) (hint : Bool) → AccountView
  unknown : (title text : String) → AccountView

unfoldable pub account_view : Option Me → AccountView
account_view none =
    unknown "Demo mode"
      "Couldn't read your account from the gateway. Use the teammate tab, or bring the backend up and refresh."
account_view (some me) =
    account (or_default (given me.name) (str (lit "—"))) me.email
      (or_else me.role (str (lit "admin"))) (not (my_account_ready (some me)))

-- `Field`: the id is the name too, and typing in it sets the entry of the key.
pub record FieldView : Type 0 where
  pub id : String
  pub label : String
  pub key : TeammateKey
  pub kind : String
  pub value : Text
  pub required : Bool
  pub auto_complete : Option String

-- The fields with the default `text` of their type.
abbrev field_view : String → String → TeammateKey → Text → Bool → Option String → FieldView
field_view i l k v r a = record {
  id = i;
  label = l;
  key = k;
  kind = "text";
  value = v;
  required = r;
  auto_complete = a;
}

unfoldable pub teammate_fields : Teammate → List FieldView
teammate_fields t =
    field_view "t_name" "Name" TeammateKey.name t.name true (some "given-name")
    ∷ field_view "t_surname" "Surname (optional)" TeammateKey.surname t.surname false
        (some "family-name")
    ∷ record (field_view "t_email" "Email" TeammateKey.email t.email true (some "email")) {
      kind = "email";
    }
    ∷ field_view "t_phone" "Phone (optional)" TeammateKey.phone t.phone false (some "tel")
    ∷ field_view "t_department" "Department (optional)" TeammateKey.department t.department false
        none
    ∷ []

pub data TabView : Type 0 where
  mine_tab : AccountView → ButtonView → TabView
  teammate_tab : List FieldView → ButtonView → TabView

abbrev pub mine_button : KeyScreen → ButtonView
mine_button s = record {
  label = if is_busy s then "Issuing your key…" else "Generate my virtual key";
  enabled = not (is_busy s);
}

abbrev pub teammate_button : KeyScreen → ButtonView
teammate_button s = record {
  label = if is_busy s then "Creating user & key…" else "Create user & generate key";
  enabled = not (is_busy s || not (teammate_valid s.teammate));
}

unfoldable pub tab_view : Tab → Option Me → KeyScreen → TabView
unfolding account_view teammate_fields
tab_view mine me s = mine_tab (account_view me) (mine_button s)
tab_view teammate me s = teammate_tab (teammate_fields s.teammate) (teammate_button s)

pub data KeyView : Type 0 where
  pane : PaneView → KeyView
  forms : (alert : Option (String × Json)) (tab : TabView) → KeyView

abbrev alert_view : Option Json → Bool → Option (String × Json)
alert_view none demo = none
alert_view (some e) demo = some (if demo then "Demo mode" else "Couldn't issue the key", e)

-- The whole screen: the pane once there is a key, or the alert and the open tab.
unfoldable pub key_view : Option Me → KeyScreen → KeyView
unfolding pane_view tab_view
key_view me s = elim s.issued [
  | some key ↦ pane (pane_view key s.copied)
  | none ↦
      forms (alert_view (elim s.error [ none ↦ none | some e ↦ given (some e) ]) s.demo)
        (tab_view s.tab me s)
]
