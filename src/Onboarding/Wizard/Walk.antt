-- ===== src/Onboarding/Wizard/Walk.antt =====
-- How the five steps are left, against the pages to which that leads.
use leakshield.Base.{
  ◌∙◌, ◌≤◌, arith, ℕ, ◌+◌, String, ◌≡◌, refl, sym, ap, Bool, true, false, Option, none, some, ◌++◌,
  if◌then◌else◌,
}
use mathlib.Core.Path.{subst}
use leakshield.Base.Result.{Result, ok, throw, >>=-eq-ok, ok-injective}
use leakshield.Js.Uri.{encode_uri_component}
use leakshield.Js.Text.{Text, lit, text_eq, decimal, digits_from}
use leakshield.Js.Http.{Server, Upstream, is_ok}
use leakshield.Onboarding.Admin.{AdminScreen, signed_in, sign_in_path, go_to}
use leakshield.Onboarding.Provider.Screen.{Screen, settle_save}
use leakshield.Onboarding.User.{KeyScreen, continue_clicked, react_pane}
use leakshield.Onboarding.Wizard.{
  StepBody, StepPage, StepView, connect_provider, create_admin, first_user, next_path, prev_path,
  onboarding_step, shell, step_body, step_number, page_of, step_page,
}

-- The numbers of the five steps.
pub data IsStep : ℕ → Type 0 where
  one : IsStep 1
  two : IsStep 2
  three : IsStep 3
  four : IsStep 4
  five : IsStep 5

-- The body of a step leads to the path. Step 1 does once the new admin has been signed in, or the sign-in
-- has ended with an error; step 2 once a save has been answered by a success; step 3 once Continue has
-- been clicked after a copy; and the shell of the other two by either of its links.
pub data LeavesBy : StepBody → Text → Type 0 where
  created :
      {path : Text} (typed : Text) (s : AdminScreen)
      → (signed_in typed (ok false) s).route ≡ some path
      → LeavesBy create_admin path
  refused :
      {path : Text} (typed : Text) (s : AdminScreen)
      → s.route ≡ none
      → (signed_in typed (ok true) s).route ≡ some path
      → LeavesBy create_admin path
  saved :
      {path : String} (res : Upstream) (s : Screen)
      → is_ok res.status ≡ true
      → (settle_save (ok res) s).route ≡ some path
      → LeavesBy connect_provider (lit path)
  copied :
      {path : String} (s : KeyScreen)
      → s.copied ≡ true
      → (react_pane continue_clicked s).route ≡ some path
      → LeavesBy first_user (lit path)
  clicked : (n : ℕ) → LeavesBy (shell (onboarding_step n)) (onboarding_step n).next
  back :
      {path : Text} (n : ℕ)
      → (onboarding_step n).prev ≡ some path
      → LeavesBy (shell (onboarding_step n)) path

-- The path is that of the page of the step with the number.
pub record ShowsStep (srv : Server) (n : ℕ) (path : Text) : Type 0 where
  pub segment : Text
  pub below : path ≡ lit "/onboarding/" ++ segment
  pub page : StepPage
  pub shown : step_page srv segment ≡ some page
  pub numbered : page.step ≡ n

-- Where a page with the number leads: on to the next one, back to the one before, which only the last two
-- pages do, to the dashboard, which only the last page does, or to the sign-in page, which only the first
-- does.
pub data LeadsOn (srv : Server) (n : ℕ) (path : Text) : Type 0 where
  onward : ShowsStep srv (n + 1) path → LeadsOn srv n path
  backward : (m : ℕ) → n ≡ m + 1 → 4 ≤ n → ShowsStep srv m path → LeadsOn srv n path
  finished : n ≡ 5 → path ≡ lit "/dashboard" → LeadsOn srv n path
  turned_away :
      (encoded : Text) → n ≡ 1 → path ≡ lit "/sign-in?email=" ++ encoded → LeadsOn srv n path

either-IsStep :
    (b : Bool) (k n : ℕ) (rest : Option ℕ)
    → IsStep k
    → (rest ≡ some n → IsStep n)
    → (if b then some k else rest) ≡ some n
    → IsStep n
either-IsStep true k n rest h g e = let same : k ≡ n = cc in rw (← same) h
either-IsStep false k n rest h g e = g e

step_number-IsStep : (step : Text) (n : ℕ) → step_number step ≡ some n → IsStep n
unfolding step_number
step_number-IsStep step n = either-IsStep (text_eq step (lit "1")) 1 n _ one (
    either-IsStep (text_eq step (lit "2")) 2 n _ two (
      either-IsStep (text_eq step (lit "3")) 3 n _ three (
        either-IsStep (text_eq step (lit "4")) 4 n _ four
          (either-IsStep (text_eq step (lit "5")) 5 n none five (λ e. cc)))))

shell-next : (v w : StepView) → shell v ≡ shell w → v.next ≡ w.next
shell-next v w e = let same : v ≡ w = cc in ap (λ x. x.next) same

shell-prev : (v w : StepView) → shell v ≡ shell w → v.prev ≡ w.prev
shell-prev v w e = let same : v ≡ w = cc in ap (λ x. x.prev) same

same_prev :
    (m n : ℕ) (path : Text)
    → shell (onboarding_step m) ≡ shell (onboarding_step n)
    → (onboarding_step m).prev ≡ some path
    → (onboarding_step n).prev ≡ some path
same_prev m n path e p = sym (shell-prev (onboarding_step m) (onboarding_step n) e) ∙ p

go_to-route :
    (typed path : Text) (p : Result Text) (s : AdminScreen)
    → sign_in_path typed ≡ p
    → s.route ≡ none
    → (go_to p s).route ≡ some path
    → (encoded : Text) × (path ≡ lit "/sign-in?email=" ++ encoded)
unfolding sign_in_path
go_to-route typed path (throw x) s e n r = cc
go_to-route typed path (ok to) s e n r =
    let (encoded, _, made) = >>=-eq-ok (encode_uri_component typed) _ e in
    let built : lit "/sign-in?email=" ++ encoded ≡ to = ok-injective made in
    let same : to ≡ path = cc in (encoded, sym (built ∙ same))

refused-LeadsOn :
    (srv : Server) (typed path : Text) (s : AdminScreen)
    → s.route ≡ none
    → (signed_in typed (ok true) s).route ≡ some path
    → LeadsOn srv 1 path
unfolding signed_in
refused-LeadsOn srv typed path s n r =
    let (encoded, to) = go_to-route typed path (sign_in_path typed) s refl n r in
    turned_away encoded refl to

-- The pages of the second to the fifth step, at their paths.
shows_two : (srv : Server) (path : Text) → path ≡ lit "/onboarding/2" → ShowsStep srv 2 path
unfolding step_page page_of step_number lit text_eq
shows_two srv path e = record {
  segment = lit "2";
  below = e;
  page = _;
  shown = refl;
  numbered = refl;
}

shows_three : (srv : Server) (path : Text) → path ≡ lit "/onboarding/3" → ShowsStep srv 3 path
unfolding step_page page_of step_number lit text_eq
shows_three srv path e = record {
  segment = lit "3";
  below = e;
  page = _;
  shown = refl;
  numbered = refl;
}

shows_four : (srv : Server) (path : Text) → path ≡ lit "/onboarding/4" → ShowsStep srv 4 path
unfolding step_page page_of step_number lit text_eq
shows_four srv path e = record {
  segment = lit "4";
  below = e;
  page = _;
  shown = refl;
  numbered = refl;
}

shows_five : (srv : Server) (path : Text) → path ≡ lit "/onboarding/5" → ShowsStep srv 5 path
unfolding step_page page_of step_number lit text_eq
shows_five srv path e = record {
  segment = lit "5";
  below = e;
  page = _;
  shown = refl;
  numbered = refl;
}

leads :
    (srv : Server) (n : ℕ) (b : StepBody) (path : Text)
    → IsStep n
    → b ≡ step_body n
    → LeavesBy b path
    → LeadsOn srv n path
unfolding step_body signed_in settle_save react_pane onboarding_step next_path prev_path lit decimal
    digits_from
leads srv n b path one e (created typed s r) =
    let same : lit "/onboarding/2" ≡ path = cc in onward (shows_two srv path (sym same))
leads srv n b path one e (refused typed s fresh r) = refused-LeadsOn srv typed path s fresh r
leads srv n b path two e (saved {path = p} res s h r) =
    let same : "/onboarding/3" ≡ p = cc (rw h at r) in
    onward (shows_three srv (lit p) (ap lit (sym same)))
leads srv n b path three e (copied {path = p} s h r) =
    let same : "/onboarding/4" ≡ p = cc (rw h at r) in
    onward (shows_four srv (lit p) (ap lit (sym same)))
leads srv n b path four e (clicked m) =
    onward (shows_five srv _ (shell-next (onboarding_step m) (onboarding_step 4) e))
leads srv n b path four e (back m p) =
    let found = same_prev m 4 path e p in
    let same : lit "/onboarding/3" ≡ path = cc in
    backward 3 refl (omega arith) (shows_three srv path (sym same))
leads srv n b path five e (clicked m) =
    finished refl (shell-next (onboarding_step m) (onboarding_step 5) e)
leads srv n b path five e (back m p) =
    let found = same_prev m 5 path e p in
    let same : lit "/onboarding/4" ≡ path = cc in
    backward 4 refl (omega arith) (shows_four srv path (sym same))
leads srv n b path one e (saved res s h r) = cc
leads srv n b path one e (copied s h r) = cc
leads srv n b path one e (clicked m) = cc
leads srv n b path one e (back m p) = cc
leads srv n b path two e (created typed s r) = cc
leads srv n b path two e (refused typed s f r) = cc
leads srv n b path two e (copied s h r) = cc
leads srv n b path two e (clicked m) = cc
leads srv n b path two e (back m p) = cc
leads srv n b path three e (created typed s r) = cc
leads srv n b path three e (refused typed s f r) = cc
leads srv n b path three e (saved res s h r) = cc
leads srv n b path three e (clicked m) = cc
leads srv n b path three e (back m p) = cc
leads srv n b path four e (created typed s r) = cc
leads srv n b path four e (refused typed s f r) = cc
leads srv n b path four e (saved res s h r) = cc
leads srv n b path four e (copied s h r) = cc
leads srv n b path five e (created typed s r) = cc
leads srv n b path five e (refused typed s f r) = cc
leads srv n b path five e (saved res s h r) = cc
leads srv n b path five e (copied s h r) = cc

page_of-IsStep :
    (srv : Server) (n : ℕ) (step : Text) → step_number step ≡ some n → IsStep (page_of srv n).step
unfolding page_of
page_of-IsStep srv n step e = step_number-IsStep step n e

page_of-body : (srv : Server) (n : ℕ) → (page_of srv n).body ≡ step_body (page_of srv n).step
unfolding page_of
page_of-body srv n = refl

pub page-number :
    (srv : Server) (o : Option ℕ) (step : Text) (page : StepPage)
    → step_number step ≡ o
    → step_page srv step ≡ some page
    → IsStep page.step × (page.body ≡ step_body page.step)
unfolding step_page
page-number srv none step page e h =
    let wrong : ◌≡◌ {A = Option StepPage} none (some page) = rw (e, step_page) at h in cc
page-number srv (some n) step page e h =
    let found : ◌≡◌ {A = Option StepPage} (some (page_of srv n)) (some page) =
      rw (e, step_page) at h in
    let same : page_of srv n ≡ page = cc in
    subst (λ x. IsStep x.step × (x.body ≡ step_body x.step)) same
      (page_of-IsStep srv n step e, page_of-body srv n)

-- Each page of the wizard leads to the page of the next step, or, only from the last two, to the page of
-- the step before; only the fifth leads to the dashboard, and only the first to the sign-in page.
pub step_page-leads :
    (srv : Server) (step : Text) (page : StepPage) (path : Text)
    → step_page srv step ≡ some page
    → LeavesBy page.body path
    → LeadsOn srv page.step path
step_page-leads srv step page path e l =
    let (n, same) = page-number srv (step_number step) step page refl e in
    leads srv page.step page.body path n same l
