-- ===== src/Setup/Entry.antt =====
-- Where a visitor ends up: panel/app/page.tsx, panel/app/(auth)/sign-in/page.tsx and
-- panel/app/super-admin/page.tsx.
pub mod Routing
use leakshield.Base.{String, Bool, true, false, not, ◌||◌, Option, none, some, if◌then◌else◌}
use leakshield.Setup.Probe.{SetupStatus, reachable, unreachable}

abbrev pub is_reachable : SetupStatus → Bool
is_reachable (reachable _ _) = true
is_reachable (unreachable _) = false

-- `!status.reachable || status.hasAdmin === false`
abbrev pub is_first_time : SetupStatus → Bool
is_first_time (reachable has_admin _) = not has_admin
is_first_time (unreachable _) = true

-- The path to which `RootIndex` redirects; `signed_in` is `Boolean(session?.user)`.
unfoldable pub root_index : (signed_in : Bool) → SetupStatus → String
root_index signed_in status =
    if signed_in then "/dashboard" else if is_first_time status then "/onboarding/1" else "/sign-in"

-- What the sign-in page shows: the welcome card, with its words, or the form.
pub data SignInView : Type 0 where
  welcome : (text : String) (link : String) (anyway : String) → SignInView
  form : (reset : String) → SignInView

unfoldable pub sign_in_page : SetupStatus → SignInView
sign_in_page status =
    if is_first_time status
    then welcome
        (if is_reachable status
          then "No admin account exists yet. Create one to start using the gateway."
          else "The gateway isn't reachable, so we'll set things up in demo mode for now.")
        "/onboarding/1" "/sign-in?continue=1"
    else form "/sign-in/reset"

pub data Role : Type 0 where
  admin member super_admin : Role

-- `SuperAdminPage` shows its content to one role and redirects all others.
unfoldable pub super_admin_page : Option (Option Role) → Option String
super_admin_page none = some "/sign-in"
super_admin_page (some (some super_admin)) = none
super_admin_page (some _) = some "/dashboard"
