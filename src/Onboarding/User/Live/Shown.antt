-- ===== src/Onboarding/User/Live/Shown.antt =====
-- Every view of the screen against the events that its buttons raise.
use leakshield.Base.{
  String, ◌≡◌, refl, ap, ◌∙◌, true, false, Option, none, some, [], ◌∷◌, arith, enabled_parts,
  snoc_alone, not-true, not-false, Bool-cases, inl, inr,
}
use leakshield.Base.Result.{ok}
use leakshield.Js.Text.{Text, lit, trim}
use leakshield.Js.Json.{Json}
use leakshield.Onboarding.User.{
  IssuedKey, KeyEvent, KeyScreen, Me, Tab, continue_clicked, creating, generate_clicked,
  handle_add_teammate, handle_generate_mine, is_busy, issue_key_for, issuing, key_body, key_path,
  key_step, mine, my_id, react_forms, react_pane, submitted, teammate, teammate_body,
  teammate_valid, typed,
}
use leakshield.Onboarding.User.View.{
  forms, key_view, mine_button, pane, pane_view, tab_view, teammate_button, teammate_fields,
}
use leakshield.Onboarding.User.Live.{IsLive, IsMineLive, IsTeammateLive}
use leakshield.Onboarding.User.Live.Fields.{typed-IsWired, valid-filled}

step-forms :
    (lower : Text → Text) (me : Option Me) (e : KeyEvent) (s : KeyScreen)
    → s.crashed ≡ false
    → s.issued ≡ none
    → key_step lower me e s ≡ react_forms lower me e s
unfolding key_step
step-forms lower me e s c i = rw (c, i) refl

step-pane :
    (lower : Text → Text) (me : Option Me) (e : KeyEvent) (s : KeyScreen) (key : IssuedKey)
    → s.crashed ≡ false
    → s.issued ≡ some key
    → key_step lower me e s ≡ react_pane e s
unfolding key_step
step-pane lower me e s key c i = rw (c, i) refl

busy-submitted :
    (lower : Text → Text) (me : Option Me) (s : KeyScreen)
    → (teammate_button s).enabled ≡ false
    → react_forms lower me submitted s ≡ s
unfolding react_forms
busy-submitted lower me s h = ground arith

free-submitted :
    (lower : Text → Text) (me : Option Me) (s : KeyScreen)
    → is_busy s ≡ false
    → teammate_valid s.teammate ≡ true
    → (react_forms lower me submitted s).in_flight
      ≡ creating (teammate_body lower s.teammate) (trim s.teammate.name) ∷ []
unfolding react_forms handle_add_teammate
free-submitted lower me s q v = rw (q, v) (snoc_alone s.in_flight _ q)

busy-generate :
    (lower : Text → Text) (me : Option Me) (s : KeyScreen)
    → is_busy s ≡ true
    → react_forms lower me generate_clicked s ≡ s
unfolding react_forms
busy-generate lower me s b = rw b refl

free-generate :
    (lower : Text → Text) (me : Option Me) (s : KeyScreen)
    → is_busy s ≡ false
    → react_forms lower me generate_clicked s ≡ handle_generate_mine me s
unfolding react_forms
free-generate lower me s b = rw b refl

generate-sends :
    (me : Option Me) (s : KeyScreen) (id : Json) (path : Text)
    → is_busy s ≡ false
    → my_id me ≡ some id
    → key_path id ≡ ok path
    → (handle_generate_mine me s).in_flight
      ≡ issuing path (key_body (lit "Personal admin key")) ∷ []
unfolding handle_generate_mine issue_key_for
generate-sends me s id path b m p = rw (m, p) (snoc_alone s.in_flight _ b)

generate-refuses :
    (me : Option Me) (s : KeyScreen)
    → my_id me ≡ none
    → (handle_generate_mine me s).in_flight ≡ s.in_flight
unfolding handle_generate_mine
generate-refuses me s m = rw m refl

-- The click on the admin's own button sends nothing, whether it is enabled or not.
generate-none :
    (lower : Text → Text) (me : Option Me) (s : KeyScreen)
    → my_id me ≡ none
    → (react_forms lower me generate_clicked s).in_flight ≡ s.in_flight
unfolding react_forms
generate-none lower me s m = elim (Bool-cases (is_busy s)) [
  | inl b ↦ rw b refl
  | inr b ↦ rw b (generate-refuses me s m)
]

mine-IsLive :
    (lower : Text → Text) (me : Option Me) (s : KeyScreen)
    → s.crashed ≡ false
    → s.issued ≡ none
    → IsMineLive lower me s (mine_button s).enabled
mine-IsLive lower me s c i =
    let e = step-forms lower me generate_clicked s c i in
    record {
      idle = λ h. e ∙ busy-generate lower me s (not-false _ h);
      sends = λ h. λ id. λ path. λ m. λ p.
          let b = not-true _ h in
          ap (λ x. x.in_flight) (e ∙ free-generate lower me s b)
          ∙ generate-sends me s id path b m p;
      refuses = λ m. ap (λ x. x.in_flight) e ∙ generate-none lower me s m;
    }

teammate-IsLive :
    (lower : Text → Text) (me : Option Me) (s : KeyScreen)
    → s.crashed ≡ false
    → s.issued ≡ none
    → IsTeammateLive lower me s (teammate_fields s.teammate) (teammate_button s).enabled
unfolding react_forms
teammate-IsLive lower me s c i =
    let e = step-forms lower me submitted s c i in
    record {
      wired =
          typed-IsWired lower me s s.teammate
            (λ k. λ v. ap (λ x. x.teammate) (step-forms lower me (typed k v) s c i));
      idle = λ h. e ∙ busy-submitted lower me s h;
      sends = λ h.
          let (q, v) = enabled_parts (is_busy s) (teammate_valid s.teammate) h in
          ap (λ x. x.in_flight) e ∙ free-submitted lower me s q v;
      filled_in =
          λ h. valid-filled s.teammate (enabled_parts (is_busy s) (teammate_valid s.teammate) h).1;
    }

pane-IsLive :
    (lower : Text → Text) (me : Option Me) (s : KeyScreen) (key : IssuedKey)
    → s.crashed ≡ false
    → s.issued ≡ some key
    → IsLive lower me s (pane (pane_view key s.copied))
unfolding pane_view react_pane
pane-IsLive lower me s key c i =
    let e = step-pane lower me continue_clicked s key c i in
    (λ h. e ∙ rw h refl, λ h. ap (λ x. x.route) e ∙ rw h refl)

shown-IsLive :
    (lower : Text → Text) (me : Option Me) (s : KeyScreen) (key : Option IssuedKey) (t : Tab)
    (alert : Option (String × Json))
    → s.crashed ≡ false
    → s.issued ≡ key
    → IsLive lower me s
        (elim key [ some k ↦ pane (pane_view k s.copied) | none ↦ forms alert (tab_view t me s) ])
unfolding tab_view
shown-IsLive lower me s (some key) t a c i = pane-IsLive lower me s key c i
shown-IsLive lower me s none mine a c i = mine-IsLive lower me s c i
shown-IsLive lower me s none teammate a c i = teammate-IsLive lower me s c i

-- Of any screen that has not crashed, with whatever it shows: a disabled button changes nothing when it
-- is clicked. The enabled one for the admin's own key sends exactly the request for it, if the gateway
-- has named the admin and the name can stand in an address, and none without a name. The enabled one
-- for a teammate sends exactly the form, whose required fields are not empty; each field shows what is
-- typed in it. The enabled Continue leads to the fourth step.
pub key_view-IsLive :
    (lower : Text → Text) (me : Option Me) (s : KeyScreen)
    → s.crashed ≡ false
    → IsLive lower me s (key_view me s)
unfolding key_view
key_view-IsLive lower me s c = shown-IsLive lower me s s.issued s.tab _ c refl
