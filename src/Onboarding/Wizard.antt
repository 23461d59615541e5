-- ===== src/Onboarding/Wizard.antt =====
-- The wizard's shell: panel/app/(onboarding)/onboarding/[step]/page.tsx and
-- panel/components/onboarding/onboarding-step.tsx.
pub mod Walk
pub mod Trail
use leakshield.Base.{
  ℕ, ◌+◌, ◌-◌, ◌*◌, ◌/◌, String, Bool, not, Option, none, some, [], ◌∷◌, ◌++◌, ltb, ◌==◌,
  if◌then◌else◌,
}
use leakshield.Js.Text.{Text, lit, text_eq, decimal}
use leakshield.Js.Http.{Server}
use leakshield.Setup.Probe.{fetch_setup_status}
use leakshield.Setup.Entry.{is_reachable}

abbrev pub total_steps : ℕ
total_steps = 5

-- `VALID_STEPS`, each with its number.
unfoldable pub step_number : Text → Option ℕ
unfolding lit
step_number step =
    if text_eq step (lit "1")
    then some 1
    else if text_eq step (lit "2")
    then some 2
    else if text_eq step (lit "3")
    then some 3
    else if text_eq step (lit "4")
    then some 4
    else if text_eq step (lit "5")
    then some 5
    else none

-- `Math.round(((step - 1) / (total - 1)) * 100)` and at least 8: for the five steps the division is exact.
unfoldable pub progress_percent : (step total : ℕ) → ℕ
progress_percent step total =
    let percent = ((step - 1) * 200 + (total - 1)) / (2 * (total - 1)) in
    if ltb 8 percent then percent else 8

unfoldable pub step_title : ℕ → String
step_title n =
    if n == 1
    then "Create your admin account"
    else if n == 2
    then "Connect a provider"
    else if n == 3
    then "Create the first user"
    else if n == 4
    then "Choose a DLP strategy"
    else "Verify"

unfoldable pub step_description : ℕ → String
step_description n =
    if n == 1
    then "First time on this install — we'll create the company, the root admin, and the per-tenant DEK."
    else if n == 2
    then "Connect OpenAI, Anthropic, Google, or Azure. Test the key, pick allowed models."
    else if n == 3
    then "Issue the first virtual key. Shown once — copy it now."
    else if n == 4
    then "Pick the DLP strategy and the model. Optionally seed company-custom categories."
    else "Send a real request through the gateway and watch the audit log light up."

-- `OnboardingStep`: the links back and on, with the words on the second.
pub record StepView : Type 0 where
  pub step : ℕ
  pub title : String
  pub description : String
  pub percent : ℕ
  pub categories : Bool
  pub prev : Option Text
  pub next : Text
  pub button : String

unfoldable pub next_path : ℕ → Text
next_path step =
    if ltb step total_steps then lit "/onboarding/" ++ decimal (step + 1) else lit "/dashboard"

unfoldable pub prev_path : ℕ → Option Text
prev_path step = if ltb 1 step then some (lit "/onboarding/" ++ decimal (step - 1)) else none

unfoldable pub onboarding_step : ℕ → StepView
unfolding next_path prev_path progress_percent step_title step_description
onboarding_step step = record {
  step = step;
  title = step_title step;
  description = step_description step;
  percent = progress_percent step total_steps;
  categories = step == 4;
  prev = prev_path step;
  next = next_path step;
  button = if ltb step total_steps then "Continue" else "Finish";
}

-- The component that the page shows for a step.
pub data StepBody : Type 0 where
  create_admin : StepBody
  connect_provider : StepBody
  first_user : StepBody
  shell : StepView → StepBody

unfoldable pub step_body : ℕ → StepBody
unfolding onboarding_step
step_body n =
    if n == 1
    then create_admin
    else if n == 2
    then connect_provider
    else if n == 3
    then first_user
    else shell (onboarding_step n)

pub record StepPage : Type 0 where
  pub step : ℕ
  pub percent : ℕ
  pub offline : Bool
  pub title : String
  pub description : String
  pub body : StepBody

unfoldable pub page_of : Server → ℕ → StepPage
unfolding step_body
page_of srv n = record {
  step = n;
  percent = progress_percent n total_steps;
  offline = not (is_reachable (fetch_setup_status srv));
  title = step_title n;
  description = step_description n;
  body = step_body n;
}

-- `OnboardingStepPage`: `none` is `notFound()`.
unfoldable pub step_page : Server → Text → Option StepPage
unfolding step_number page_of
step_page srv step = elim (step_number step) [ none ↦ none | some n ↦ some (page_of srv n) ]
