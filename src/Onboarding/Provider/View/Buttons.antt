-- ===== src/Onboarding/Provider/View/Buttons.antt =====
-- Step2Provider, its two buttons: what a click on one does, whether it is enabled or not.
use leakshield.Base.{
  ◌≡◌, refl, ap, ◌∙◌, Bool, true, false, not, ◌||◌, Option, none, some, [], ◌∷◌, arith,
  if◌then◌else◌, enabled_parts, snoc_alone,
}
use leakshield.Onboarding.Provider.Form.{ProviderId, is_form_valid, test_body, save_body}
use leakshield.Onboarding.Provider.Screen.{
  Screen, can_save, handle_save, handle_test, is_pending, models_of, react, required_ok,
  save_clicked, saving, start_save, start_test, step, test_clicked, testing,
}
use leakshield.Onboarding.Provider.View.{save_button, test_button}

-- A click on the test button changes nothing while the button is disabled. Once it is enabled, the
-- click sends the form as it stands, and nothing else is in flight.
pub record TestClick (s : Screen) : Type 0 where
  pub idle : (test_button s).enabled ≡ false → step test_clicked s ≡ s
  pub sends :
      (test_button s).enabled ≡ true
      → (p : ProviderId) × (s.selected ≡ some p)
        × ((step test_clicked s).in_flight ≡ testing (test_body p s.form) ∷ [])

pub record SaveClick (s : Screen) : Type 0 where
  pub idle : (save_button s).enabled ≡ false → step save_clicked s ≡ s
  pub sends :
      (save_button s).enabled ≡ true
      → (p : ProviderId) × (s.selected ≡ some p)
        × ((step save_clicked s).in_flight
            ≡ saving (save_body p s.form (models_of s.test_result)) ∷ [])

start_test-sends :
    (sel : Option ProviderId) (s : Screen)
    → s.selected ≡ sel
    → is_pending s ≡ false
    → required_ok s ≡ true
    → (p : ProviderId) × (s.selected ≡ some p)
      × ((start_test sel s).in_flight ≡ testing (test_body p s.form) ∷ [])
unfolding start_test is_form_valid
start_test-sends none s e q r = let wrong : is_form_valid none s.form ≡ true = rw e at r in cc
start_test-sends (some p) s e q r = (p, e, rw r (snoc_alone s.in_flight _ q))

start_save-sends :
    (sel : Option ProviderId) (s : Screen)
    → s.selected ≡ sel
    → is_pending s ≡ false
    → can_save s ≡ true
    → (p : ProviderId) × (s.selected ≡ some p)
      × ((start_save sel s).in_flight ≡ saving (save_body p s.form (models_of s.test_result)) ∷ [])
unfolding start_save is_form_valid can_save
start_save-sends none s e q r =
    let valid : required_ok s ≡ true = ground arith in
    let wrong : is_form_valid none s.form ≡ true = rw e at valid in cc
start_save-sends (some p) s e q r = (p, e, rw r (snoc_alone s.in_flight _ q))

clicked :
    (c a b : Bool) (x y : Screen)
    → c ≡ false
    → a ≡ false
    → b ≡ true
    → (if c then x else if a || not b then x else y) ≡ y
clicked false false true x y h k l = refl
clicked false false false x y h k l = cc
clicked false true b x y h k l = cc
clicked true a b x y h k l = cc

-- Of a screen that has not crashed: a click on the disabled test button changes nothing, and a click
-- on the enabled one leaves exactly one request in flight, the test of the form as it stands.
pub test_button-TestClick : (s : Screen) → s.crashed ≡ false → TestClick s
unfolding step react test_button handle_test
test_button-TestClick s c = record {
  idle = λ h. ground arith;
  sends = λ h.
      let (q, r) = enabled_parts (is_pending s) (required_ok s) h in
      let (p, e, j) = start_test-sends s.selected s refl q r in
      (p, e, ap (λ x. x.in_flight) (clicked s.crashed _ _ s _ c q r) ∙ j);
}

-- Of a screen that has not crashed: a click on the disabled save button changes nothing, and a click
-- on the enabled one leaves exactly one request in flight, the save of the form as it stands.
pub save_button-SaveClick : (s : Screen) → s.crashed ≡ false → SaveClick s
unfolding step react save_button handle_save
save_button-SaveClick s c = record {
  idle = λ h. ground arith;
  sends = λ h.
      let (q, r) = enabled_parts (is_pending s) (can_save s) h in
      let (p, e, j) = start_save-sends s.selected s refl q r in
      (p, e, ap (λ x. x.in_flight) (clicked s.crashed _ _ s _ c q r) ∙ j);
}

-- Of a screen that has not crashed: a click on a disabled button, for the test or for the save, changes
-- nothing; a click on an enabled one leaves exactly one request in flight, the test or the save of the
-- form as it stands.
pub screen_buttons-Click : (s : Screen) → s.crashed ≡ false → TestClick s × SaveClick s
screen_buttons-Click s c = (test_button-TestClick s c, save_button-SaveClick s c)
