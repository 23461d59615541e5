-- ===== src/Onboarding/User/Live.antt =====
-- The buttons and the fields that the screen shows, against what a click or a text in one does.
pub mod Fields
pub mod Shown
use mathlib.Core.List.{Memᴰ}
use leakshield.Base.{◌≡◌, Bool, true, false, Option, none, some, List, [], ◌∷◌, All}
use leakshield.Base.Result.{ok}
use leakshield.Js.Text.{Text, lit, nonempty, trim}
use leakshield.Js.Json.{Json}
use leakshield.Onboarding.User.{
  KeyEvent, KeyScreen, Me, continue_clicked, creating, generate_clicked, issuing, key_body,
  key_path, key_step, my_id, submitted, teammate_body, typed,
}
use leakshield.Onboarding.User.View.{
  FieldView, KeyView, forms, mine_tab, pane, teammate_fields, teammate_tab,
}

module _ (lower : Text → Text) (me : Option Me) (s : KeyScreen) where
  -- What the event leads to.
  abbrev after : KeyEvent → KeyScreen
  after e = key_step lower me e s

  -- Typing in the field puts the text into it, and the field is still there.
  abbrev pub IsWired : FieldView → Type 0
  IsWired x =
      (v : Text) → Memᴰ (record x { value = v }) (teammate_fields (after (typed x.key v)).teammate)

  -- A disabled button changes nothing. The one for the admin's own key sends the request for it, if the
  -- gateway has named the admin's id, and sends nothing otherwise; the one for a teammate sends the
  -- form, whose required fields are not empty; Continue leads to the fourth step.
  pub record IsMineLive (enabled : Bool) : Type 0 where
    pub idle : enabled ≡ false → after generate_clicked ≡ s
    pub sends :
        enabled ≡ true
        → (id : Json) (path : Text) → my_id me ≡ some id
        → key_path id ≡ ok path
        → (after generate_clicked).in_flight
          ≡ issuing path (key_body (lit "Personal admin key")) ∷ []
    pub refuses : my_id me ≡ none → (after generate_clicked).in_flight ≡ s.in_flight

  pub record IsTeammateLive (fields : List FieldView) (enabled : Bool) : Type 0 where
    pub wired : All IsWired fields
    pub idle : enabled ≡ false → after submitted ≡ s
    pub sends :
        enabled ≡ true
        → (after submitted).in_flight
          ≡ creating (teammate_body lower s.teammate) (trim s.teammate.name) ∷ []
    pub filled_in : enabled ≡ true → All (λ x. x.required ≡ true → nonempty x.value ≡ true) fields

  abbrev pub IsLive : KeyView → Type 0
  IsLive (pane v) =
      (v.proceed.enabled ≡ false → after continue_clicked ≡ s)
      × (v.proceed.enabled ≡ true → (after continue_clicked).route ≡ some "/onboarding/4")
  IsLive (forms alert (mine_tab card button)) = IsMineLive button.enabled
  IsLive (forms alert (teammate_tab fields button)) = IsTeammateLive fields button.enabled
