-- ===== src/Onboarding/Admin/Credentials.antt =====
-- Step1CreateAdmin: the credentials of the sign-in that follows the creation.
use leakshield.Base.{
  All-snoc, ◌≡◌, refl, Bool, true, false, not, ◌||◌, some, List, [], ◌∷◌, ◌++◌, All, length, leb,
  if_either,
}
use leakshield.Base.Result.{Result, ok, throw}
use leakshield.Js.Text.{Text, trim}
use leakshield.Js.Json.{Json, get, lookup, str}
use leakshield.Js.Http.{Upstream, is_ok}
use leakshield.Onboarding.Provider.Screen.{save_failure}
use leakshield.Onboarding.Admin.{
  AdminEvent, AdminForm, AdminJob, AdminScreen, admin_body, admin_react, admin_step, answered,
  blank, bootstrapped, creating, go_to, is_creating, password_ok, passwords_match, settle_answer,
  settle_sign_in, show_refusal, sign_in_ended, sign_in_path, signed_in, signing_in, submit,
  submit_enabled, submitted, typed_in,
}
use leakshield.Onboarding.Admin.Runs.{Reached, begin, then_on}

-- The posted document creates an account with the address and the password, which is long enough.
pub record IsAccount (body : Json) (address secret : Text) : Type 0 where
  pub email : get body "email" ≡ ok (some (str address))
  pub password : get body "password" ≡ ok (some (str secret))
  pub long : leb 8 (length secret) ≡ true

abbrev JobIsAccount : AdminJob → Type 0
JobIsAccount (creating body typed address secret) = IsAccount body address secret
JobIsAccount (signing_in typed address secret) = Unit

abbrev AreAccounts : AdminScreen → Type 0
AreAccounts s = All JobIsAccount s.in_flight

admin_body-IsAccount :
    (nfd lower : Text → Text) (f : AdminForm)
    → password_ok f ≡ true
    → IsAccount (admin_body nfd lower f) (lower (trim f.email)) f.password
unfolding admin_body get lookup password_ok
admin_body-IsAccount nfd lower f h = record { email = refl; password = refl; long = h }

enabled-password_ok : (a b c : Bool) → not (a || (not b || not c)) ≡ true → b ≡ true
enabled-password_ok false true c h = refl
enabled-password_ok false false c h = cc
enabled-password_ok true b c h = cc

submit-AreAccounts :
    (nfd lower : Text → Text) (s : AdminScreen)
    → password_ok s.form ≡ true
    → AreAccounts s
    → AreAccounts (submit nfd lower s)
unfolding submit
submit-AreAccounts nfd lower s k h =
    if_either AreAccounts (not (passwords_match s.form)) _ _ (λ _. h)
      (λ _. All-snoc JobIsAccount s.in_flight _ h (admin_body-IsAccount nfd lower s.form k))

show_refusal-AreAccounts :
    (r : Result (Bool × Json)) (s : AdminScreen) → AreAccounts s → AreAccounts (show_refusal r s)
show_refusal-AreAccounts (ok (demo, e)) s h = h
show_refusal-AreAccounts (throw x) s h = h

bootstrapped-AreAccounts :
    (typed address secret : Text) (reply : Result Upstream) (s : AdminScreen)
    → AreAccounts s
    → AreAccounts (bootstrapped typed address secret reply s)
unfolding bootstrapped
bootstrapped-AreAccounts typed address secret (throw x) s h = h
bootstrapped-AreAccounts typed address secret (ok res) s h =
    if_either AreAccounts (not (is_ok res.status)) _ _
      (λ _. show_refusal-AreAccounts (save_failure res) s h)
      (λ _. All-snoc JobIsAccount s.in_flight _ h tt)

go_to-AreAccounts : (p : Result Text) (s : AdminScreen) → AreAccounts s → AreAccounts (go_to p s)
go_to-AreAccounts (ok path) s h = h
go_to-AreAccounts (throw x) s h = h

signed_in-AreAccounts :
    (typed : Text) (failed : Result Bool) (s : AdminScreen)
    → AreAccounts s
    → AreAccounts (signed_in typed failed s)
unfolding signed_in
signed_in-AreAccounts typed (throw x) s h = h
signed_in-AreAccounts typed (ok true) s h = go_to-AreAccounts (sign_in_path typed) s h
signed_in-AreAccounts typed (ok false) s h = h

settle_answer-AreAccounts :
    (js : List AdminJob) (reply : Result Upstream) (s : AdminScreen)
    → All JobIsAccount js
    → AreAccounts s
    → AreAccounts (settle_answer js reply s)
settle_answer-AreAccounts [] reply s h k = k
settle_answer-AreAccounts (signing_in typed address secret ∷ rest) reply s h k = k
settle_answer-AreAccounts (creating body typed address secret ∷ rest) reply s h k =
    bootstrapped-AreAccounts typed address secret reply _ h.1

settle_sign_in-AreAccounts :
    (js : List AdminJob) (failed : Result Bool) (s : AdminScreen)
    → All JobIsAccount js
    → AreAccounts s
    → AreAccounts (settle_sign_in js failed s)
settle_sign_in-AreAccounts [] failed s h k = k
settle_sign_in-AreAccounts (creating body typed address secret ∷ rest) failed s h k = k
settle_sign_in-AreAccounts (signing_in typed address secret ∷ rest) failed s h k =
    signed_in-AreAccounts typed failed _ h.1

admin_react-AreAccounts :
    (nfd lower : Text → Text) (e : AdminEvent) (s : AdminScreen)
    → AreAccounts s
    → AreAccounts (admin_react nfd lower e s)
unfolding admin_react
admin_react-AreAccounts nfd lower (typed_in k v) s h = h
admin_react-AreAccounts nfd lower submitted s h =
    if_either AreAccounts (submit_enabled s) _ s
      (λ enabled.
        submit-AreAccounts nfd lower s
          (enabled-password_ok (is_creating s) (password_ok s.form) (passwords_match s.form)
            enabled)
          h)
      (λ _. h)
admin_react-AreAccounts nfd lower (answered reply) s h =
    settle_answer-AreAccounts s.in_flight reply s h h
admin_react-AreAccounts nfd lower (sign_in_ended failed) s h =
    settle_sign_in-AreAccounts s.in_flight failed s h h

Reached-AreAccounts :
    {nfd lower : Text → Text} {es : List AdminEvent} {s : AdminScreen}
    → Reached nfd lower es s
    → AreAccounts s
unfolding blank admin_step
Reached-AreAccounts begin = tt
Reached-AreAccounts {nfd} {lower} (then_on {s = s} e r) =
    if_either AreAccounts s.crashed s _ (λ _. Reached-AreAccounts r)
      (λ _. admin_react-AreAccounts nfd lower e s (Reached-AreAccounts r))

-- On any screen that events lead to and that has not crashed: when the set-up route answers the creation
-- with a success, the request in flight becomes a sign-in with the address and the password of the posted
-- document, and that password has eight characters or more.
pub Reached-SignsIn :
    {nfd lower : Text → Text} {es : List AdminEvent} {s : AdminScreen}
    → Reached nfd lower es s
    → (body : Json) (typed address secret : Text) (rest : List AdminJob) (res : Upstream)
    → s.crashed ≡ false
    → s.in_flight ≡ creating body typed address secret ∷ rest
    → is_ok res.status ≡ true
    → ((admin_step nfd lower (answered (ok res)) s).in_flight
        ≡ rest ++ signing_in typed address secret ∷ [])
      × IsAccount body address secret
unfolding admin_step admin_react bootstrapped
Reached-SignsIn {nfd} {lower} {es} {s} r body typed address secret rest res alive flight success =
    let jobs : All JobIsAccount (creating body typed address secret ∷ rest) =
      rw flight at (Reached-AreAccounts r) in
    (rw (alive, flight, success) refl, jobs.0)
