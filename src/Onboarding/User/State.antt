-- ===== src/Onboarding/User/State.antt =====
-- The state of the screen: its tabs, its form, its requests in flight, and what is read off them.
use leakshield.Base.{
  String, Bool, true, false, not, ◌&&◌, Option, none, some, List, [], ◌∷◌, length, ltb,
}
use leakshield.Js.Text.{Text, trim}
use leakshield.Js.Json.{Json, given}
use leakshield.Js.Email.{email_test}

-- The signed-in admin, as the gateway describes them.
pub record Me : Type 0 where
  pub id : Option Json
  pub name : Option Json
  pub email : Option Json
  pub role : Option Json

pub record IssuedKey : Type 0 where
  pub id : Text
  pub prefix : Text
  pub plaintext : Json
  pub allowed_providers : Option Json
  pub allowed_models : Option Json

pub data Tab : Type 0 where
  mine teammate : Tab

-- The form of a teammate.
pub record Teammate : Type 0 where
  pub name : Text
  pub surname : Text
  pub email : Text
  pub phone : Text
  pub department : Text

pub data TeammateKey : Type 0 where
  name surname email phone department : TeammateKey

unfoldable pub set_teammate : TeammateKey → Text → Teammate → Teammate
set_teammate TeammateKey.name v t = record t { name = v }
set_teammate TeammateKey.surname v t = record t { surname = v }
set_teammate TeammateKey.email v t = record t { email = v }
set_teammate TeammateKey.phone v t = record t { phone = v }
set_teammate TeammateKey.department v t = record t { department = v }

-- An action that has not finished: the request that it has sent. A creation keeps the name that the
-- form had at the click, for the key that follows.
pub data KeyJob : Type 0 where
  creating : (body : Json) (owner : Text) → KeyJob
  issuing : (path : Text) (body : Json) → KeyJob

pub record KeyScreen : Type 0 where
  pub tab : Tab
  pub issued : Option IssuedKey
  pub error : Option Json
  pub demo : Bool
  pub teammate : Teammate
  pub in_flight : List KeyJob
  -- The pane's own state, and where its button leads.
  pub copied : Bool
  pub route : Option String
  -- An action that throws unmounts the screen.
  pub crashed : Bool

abbrev pub empty_teammate : Teammate
empty_teammate = record { name = []; surname = []; email = []; phone = []; department = [] }

unfoldable pub mounted : KeyScreen
mounted = record {
  tab = mine;
  issued = none;
  error = none;
  demo = false;
  teammate = empty_teammate;
  in_flight = [];
  copied = false;
  route = none;
  crashed = false;
}

abbrev pub is_busy : KeyScreen → Bool
is_busy s = elim s.in_flight [ [] ↦ false | _ ∷ _ ↦ true ]

-- `me?.user.id`, if it is truthy.
unfoldable pub my_id : Option Me → Option Json
my_id none = none
my_id (some m) = given m.id

abbrev is_some {ℓ} : {A : Type ℓ} → Option A → Bool
is_some none = false
is_some (some _) = true

-- `myAccountReady`
abbrev pub my_account_ready : Option Me → Bool
my_account_ready me = is_some (my_id me)

unfoldable pub teammate_valid : Teammate → Bool
teammate_valid t = not (ltb (length (trim t.name)) 2) && email_test (trim t.email)
