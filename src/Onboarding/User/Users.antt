-- ===== src/Onboarding/User/Users.antt =====
-- `UsersList`: the users that exist already, asked for once.
use leakshield.Base.{Bool, Option, none, some, List, [], ◌∷◌, ◌++◌, if◌then◌else◌}
use leakshield.Base.Result.{Result, ok, ◌>>=◌}
use leakshield.Js.Text.{Text, lit, nonempty}
use leakshield.Js.Json.{Json, str, arr, Items, nil, cons, get, given, or_else, to_string}
use leakshield.Js.Http.{Upstream, Server}
use leakshield.Onboarding.Provider.Saved.{loaded}

pub record UserRow : Type 0 where
  pub name : Text
  pub email : Option Json
  pub department : Json
  pub role : Json

-- `a || d`
abbrev pub or_default : Option Json → Json → Json
or_default none d = d
or_default (some v) d = v

abbrev pub text_or_dash : Text → Text
text_or_dash t = if nonempty t then t else lit "—"

-- The truthy ones of two values, joined by a space.
abbrev pub join_names : Option Json → Option Json → Result Text
join_names none none = ok []
join_names (some a) none = to_string a
join_names none (some b) = to_string b
join_names (some a) (some b) = to_string a >>= λ s. to_string b >>= λ t. ok (s ++ lit " " ++ t)

unfoldable pub user_row : Json → Result UserRow
user_row v = do
  name ← get v "name"
  surname ← get v "surname"
  shown ← join_names (given name) (given surname)
  email ← get v "email"
  department ← get v "department"
  role ← get v "role"
  ok (record {
    name = text_or_dash shown;
    email = email;
    department = or_default (given department) (str (lit "—"));
    role = or_else role (str (lit "member"));
  })

unfoldable pub user_rows : Items → Result (List UserRow)
unfolding user_row
user_rows nil = ok []
user_rows (cons v xs) =
    let rest = user_rows xs in user_row v >>= λ row. rest >>= λ rows. ok (row ∷ rows)

pub data UsersView : Type 0 where
  loading : UsersView
  alert : (title : Text) (error : Json) → UsersView
  table : List UserRow → UsersView
  nothing : (text : Text) → UsersView

-- `items` is an array, as its type says, or missing.
abbrev items_view : Option Json → Result UsersView
items_view (some (arr (cons v xs))) = user_rows (cons v xs) >>= λ rows. ok (table rows)
items_view _ = ok (nothing (lit "No users yet."))

abbrev error_or_items : Option Json → Bool → Option Json → Result UsersView
error_or_items (some e) demo items =
    ok (alert (if demo then lit "Demo mode" else lit "Couldn't load users") e)
error_or_items none demo items = items_view items

-- The card before its one request is answered, and after; a row that cannot be rendered throws.
unfoldable pub users_list : Server → Option (Result Upstream) → Result UsersView
unfolding loaded user_rows
users_list srv none = ok loading
users_list srv (some reply) =
    error_or_items (elim (loaded srv reply).error [ none ↦ none | some e ↦ given (some e) ])
      (loaded srv reply).demo (loaded srv reply).items
