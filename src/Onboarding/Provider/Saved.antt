-- ===== src/Onboarding/Provider/Saved.antt =====
-- `ProviderList`: the table of the providers that are already connected. Each refresh starts an effect
-- and cancels the one before; the answers may arrive in any order.
pub mod Latest
use leakshield.Base.{
  ℕ, suc, Bool, true, false, Option, none, some, [], ◌∷◌, ◌++◌, ◌==◌, if◌then◌else◌,
}
use leakshield.Base.Result.{Result, ok, throw, ◌>>=◌}
use leakshield.Js.Text.{Text, lit}
use leakshield.Js.Json.{Json, str, arr, nil, cons, get, or_else}
use leakshield.Js.Http.{Upstream, Server, is_ok, reason}
use leakshield.Proxy.{json_or_empty}
use leakshield.Setup.Probe.{truthy_option}
use leakshield.Onboarding.Provider.Screen.{error_or_status, given_error}

-- What one effect leaves behind.
pub record Loaded : Type 0 where
  pub items : Option Json
  pub error : Option Json
  pub demo : Bool

pub record Listing : Type 0 where
  pub shown : Loaded
  pub loading : Bool
  -- The number of the effect that is not cancelled.
  pub current : ℕ

unfoldable pub opened : Listing
opened = record {
  shown = record { items = none; error = none; demo = false };
  loading = true;
  current = 0;
}

-- The handler of the response; a document that is `null` throws into the `catch`.
unfoldable pub loaded_response : Upstream → Result Loaded
loaded_response res =
    let v = json_or_empty res.json in
    get v "error" >>= λ e. get v "demo" >>= λ demo. get v "items" >>= λ items. ok (
      if is_ok res.status
      then record { items = some (or_else items (arr nil)); error = none; demo = false }
      else record {
        items = some (arr nil);
        error = some (error_or_status e res.status);
        demo = truthy_option demo;
      })

unfoldable pub loaded : Server → Result Upstream → Loaded
unfolding loaded_response
loaded srv reply = elim (reply >>= loaded_response) [
  | ok l ↦ l
  | throw e ↦ record { items = some (arr nil); error = some (str (reason srv e)); demo = true }
]

pub data ListEvent : Type 0 where
  refreshed : ListEvent
  answered : (effect : ℕ) → Result Upstream → ListEvent

unfoldable pub list_step : Server → ListEvent → Listing → Listing
unfolding loaded
list_step srv refreshed l = record l { loading = true; current = suc l.current }
list_step srv (answered effect reply) l =
    if effect == l.current then record l { shown = loaded srv reply; loading = false } else l

-- What the card shows.
pub data ListView : Type 0 where
  busy : ListView
  alert : (title : Text) (error : Json) → ListView
  table : (rows : Json) → ListView
  nothing : (text : Text) → ListView

-- `items && items.length > 0`, of an array.
abbrev pub has_items : Option Json → Bool
has_items (some (arr (cons _ _))) = true
has_items _ = false

abbrev items_or_empty : Option Json → Json
items_or_empty none = arr nil
items_or_empty (some v) = v

unfoldable pub list_view : Listing → ListView
list_view l = if l.loading then busy else elim (given_error l.shown.error) [
  | some e ↦ alert (if l.shown.demo then lit "Demo mode" else lit "Couldn't load providers") e
  | none ↦
      if has_items l.shown.items
      then table (items_or_empty l.shown.items)
      else nothing (lit "No providers yet. Connect one above to enable the gateway.")
]
