-- ===== src/Onboarding/Admin/Runs.antt =====
-- The runs of Step1CreateAdmin, and what they leave in the field of the address.
use leakshield.Base.{◌≡◌, refl, ◌∙◌, Bool, true, false, not, List, [], ◌∷◌, if_either}
use leakshield.Base.Result.{Result, ok, throw}
use leakshield.Js.Text.{Text}
use leakshield.Js.Json.{Json}
use leakshield.Js.Http.{Upstream, is_ok}
use leakshield.Onboarding.Provider.Screen.{save_failure}
use leakshield.Onboarding.Admin.{
  AdminEvent, AdminJob, AdminKey, AdminScreen, admin_react, admin_step, answered, blank,
  bootstrapped, creating, go_to, passwords_match, set_admin, settle_answer, settle_sign_in,
  show_refusal, sign_in_ended, sign_in_path, signed_in, signing_in, submit, submit_enabled,
  submitted, typed_in,
}

module _ (nfd lower : Text → Text) where
  -- The events so far, the latest first, and the screen that they lead to.
  pub data Reached : List AdminEvent → AdminScreen → Type 0 where
    begin : Reached [] blank
    then_on :
        {es : List AdminEvent} {s : AdminScreen} (e : AdminEvent)
        → Reached es s
        → Reached (e ∷ es) (admin_step nfd lower e s)

-- The text that the events have left in the field of the address.
abbrev pub typed_email : List AdminEvent → Text
typed_email [] = []
typed_email (typed_in AdminKey.email v ∷ es) = v
typed_email (_ ∷ es) = typed_email es

-- The field of the address as the screen holds it.
abbrev held_email : AdminScreen → Text
held_email s = s.form.email

go_to-email : (p : Result Text) (s : AdminScreen) → held_email (go_to p s) ≡ held_email s
go_to-email (ok path) s = refl
go_to-email (throw x) s = refl

show_refusal-email :
    (r : Result (Bool × Json)) (s : AdminScreen) → held_email (show_refusal r s) ≡ held_email s
show_refusal-email (ok (demo, e)) s = refl
show_refusal-email (throw x) s = refl

settle_answer-email :
    (js : List AdminJob) (reply : Result Upstream) (s : AdminScreen)
    → held_email (settle_answer js reply s) ≡ held_email s
unfolding bootstrapped
settle_answer-email [] reply s = refl
settle_answer-email (signing_in typed address secret ∷ rest) reply s = refl
settle_answer-email (creating body typed address secret ∷ rest) (throw x) s = refl
settle_answer-email (creating body typed address secret ∷ rest) (ok res) s =
    if_either (λ s'. held_email s' ≡ held_email s) (not (is_ok res.status)) _ _
      (λ _. show_refusal-email (save_failure res) _) (λ _. refl)

settle_sign_in-email :
    (js : List AdminJob) (failed : Result Bool) (s : AdminScreen)
    → held_email (settle_sign_in js failed s) ≡ held_email s
unfolding signed_in
settle_sign_in-email [] failed s = refl
settle_sign_in-email (creating body typed address secret ∷ rest) failed s = refl
settle_sign_in-email (signing_in typed address secret ∷ rest) (throw x) s = refl
settle_sign_in-email (signing_in typed address secret ∷ rest) (ok true) s =
    go_to-email (sign_in_path typed) _
settle_sign_in-email (signing_in typed address secret ∷ rest) (ok false) s = refl

submit-email :
    (nfd lower : Text → Text) (s : AdminScreen) → held_email (submit nfd lower s) ≡ held_email s
unfolding submit
submit-email nfd lower s =
    if_either (λ s'. held_email s' ≡ held_email s) (not (passwords_match s.form)) _ _ (λ _. refl)
      (λ _. refl)

admin_react-email :
    (es : List AdminEvent) (nfd lower : Text → Text) (e : AdminEvent) (s : AdminScreen)
    → held_email s ≡ typed_email es
    → held_email (admin_react nfd lower e s) ≡ typed_email (e ∷ es)
unfolding admin_react set_admin
admin_react-email es nfd lower (typed_in AdminKey.email v) s h = refl
admin_react-email es nfd lower (typed_in AdminKey.company_name v) s h = h
admin_react-email es nfd lower (typed_in AdminKey.full_name v) s h = h
admin_react-email es nfd lower (typed_in AdminKey.password v) s h = h
admin_react-email es nfd lower (typed_in AdminKey.confirm v) s h = h
admin_react-email es nfd lower submitted s h =
    if_either (λ s'. held_email s' ≡ typed_email es) (submit_enabled s) _ s
      (λ _. submit-email nfd lower s ∙ h) (λ _. h)
admin_react-email es nfd lower (answered reply) s h = settle_answer-email s.in_flight reply s ∙ h
admin_react-email es nfd lower (sign_in_ended failed) s h =
    settle_sign_in-email s.in_flight failed s ∙ h

stays_crashed : (b : Bool) → b ≡ true → b ≡ false → ⊥
stays_crashed b t f = cc

-- Until the screen crashes, its field of the address holds what the events have left in it.
pub Reached-email :
    {nfd lower : Text → Text} {es : List AdminEvent} {s : AdminScreen}
    → Reached nfd lower es s
    → s.crashed ≡ false
    → s.form.email ≡ typed_email es
unfolding blank admin_step
Reached-email begin = λ _. refl
Reached-email {nfd} {lower} (then_on {es = es} {s = s} e r) =
    if_either (λ s'. s'.crashed ≡ false → held_email s' ≡ typed_email (e ∷ es)) s.crashed s _
      (λ crashed. λ alive. absurd (stays_crashed s.crashed crashed alive))
      (λ was_alive. λ _. admin_react-email es nfd lower e s (Reached-email r was_alive))
