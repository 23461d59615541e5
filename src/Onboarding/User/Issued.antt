-- ===== src/Onboarding/User/Issued.antt =====
-- Which key the pane reveals, and when the wizard goes on: the runs of the screen, and what is said
-- of a revealed key.
pub mod Answers
pub mod Kept
use mathlib.Core.List.{Memᴰ}
use leakshield.Base.{◌≡◌, Bool, true, ◌||◌, Option, some, List, [], ◌∷◌, ◌++◌, if◌then◌else◌}
use leakshield.Base.Result.{ok, ◌>>=◌}
use leakshield.Js.Text.{Text}
use leakshield.Js.Json.{get, truthy}
use leakshield.Js.Http.{Upstream, is_ok}
use leakshield.Proxy.{json_or_empty}
use leakshield.Onboarding.User.{
  Me, IssuedKey, KeyScreen, KeyEvent, copy_ended, key_step, mounted, replied,
}

-- The events so far, the latest first, and the screen that they lead to.
pub data Reached (lower : Text → Text) (me : Option Me) : List KeyEvent → KeyScreen → Type 0 where
  begin : Reached lower me [] mounted
  then_on :
      {es : List KeyEvent} {s : KeyScreen} (e : KeyEvent)
      → Reached lower me es s
      → Reached lower me (e ∷ es) (key_step lower me e s)

-- The key's text is the truthy `plaintext` of an answer with a status from 200 to 299.
pub record Revealed (es : List KeyEvent) (key : IssuedKey) : Type 0 where
  pub res : Upstream
  pub arrived : Memᴰ (replied (ok res)) es
  pub success : is_ok res.status ≡ true
  pub listed : get (json_or_empty res.json) "plaintext" ≡ ok (some key.plaintext)
  pub set : truthy key.plaintext ≡ true

-- A click on Copy has been answered by the clipboard.
abbrev pub CopyEnded : List KeyEvent → Type 0
CopyEnded es = (wrote : Bool) × Memᴰ (copy_ended wrote) es
