-- ===== src/Onboarding/Provider/View/Live.antt =====
-- Step2Provider with a provider selected: its fields and its buttons at work.
use leakshield.Base.{◌≡◌, true, false, some, All, enabled_parts, sym, ap, ◌∙◌}
use leakshield.Onboarding.Provider.Form.{ProviderId, is_form_valid}
use leakshield.Onboarding.Provider.Screen.{Screen, is_pending, required_ok}
use leakshield.Onboarding.Provider.View.{provider_form, test_button}
use leakshield.Onboarding.Provider.View.Fields.{
  IsFilledIn, IsWired, provider_form-IsFilledIn, provider_form-IsWired,
}
use leakshield.Onboarding.Provider.View.Buttons.{SaveClick, TestClick, screen_buttons-Click}

-- The fields of the screen's form: each shows what is typed in it, and the required ones are not empty
-- once the test button is enabled.
pub record IsSound (p : ProviderId) (s : Screen) : Type 0 where
  pub wired : All (IsWired p s.form) (provider_form p s.form).fields
  pub filled_in : (test_button s).enabled ≡ true → All IsFilledIn (provider_form p s.form).fields

required-valid :
    (p : ProviderId) (s : Screen)
    → s.selected ≡ some p
    → (test_button s).enabled ≡ true
    → is_form_valid (some p) s.form ≡ true
unfolding test_button
required-valid p s e h =
    ap (λ x. is_form_valid x s.form) (sym e) ∙ (enabled_parts (is_pending s) (required_ok s) h).1

-- Of a screen with a provider selected that has not crashed: each field of its form shows what is typed
-- in it, and once the test can be clicked the required ones are not empty. A click on a disabled button
-- changes nothing; a click on an enabled one leaves exactly one request in flight, the test or the save
-- of the form as it stands.
pub screen-IsSound :
    (p : ProviderId) (s : Screen)
    → s.crashed ≡ false
    → s.selected ≡ some p
    → IsSound p s × TestClick s × SaveClick s
screen-IsSound p s c e =
    let (test, save) = screen_buttons-Click s c in
    (
      record {
        wired = provider_form-IsWired p s.form;
        filled_in = λ h. provider_form-IsFilledIn p s.form (required-valid p s e h);
      },
      test,
      save,
    )
