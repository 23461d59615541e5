-- ===== src/Panel/Sidebar.antt =====
-- panel/components/layout/sidebar.tsx, and the store panel/lib/stores/ui-store.ts that it toggles.
pub mod Within
pub mod Active
use leakshield.Base.{
  Bool, false, not, ◌&&◌, ◌||◌, Option, none, some, List, [], ◌∷◌, ◌++◌, map, if◌then◌else◌,
}
use leakshield.Js.Text.{Text, lit, nonempty, text_eq, starts_with}

-- `NavItem`, without its icon.
pub record NavItem : Type 0 where
  pub href : Text
  pub label_key : Text

abbrev nav : Text → Text → NavItem
nav href key = record { href = href; label_key = key }

unfoldable pub primary_nav : List NavItem
unfolding lit
primary_nav =
    nav (lit "/dashboard") (lit "dashboard")
    ∷ nav (lit "/providers") (lit "providers")
    ∷ nav (lit "/users") (lit "users")
    ∷ nav (lit "/keys") (lit "keys")
    ∷ nav (lit "/policy") (lit "policy")
    ∷ nav (lit "/analytics") (lit "analytics")
    ∷ nav (lit "/logs") (lit "logs")
    ∷ []

unfoldable pub secondary_nav : List NavItem
unfolding lit
secondary_nav =
    nav (lit "/settings/profile") (lit "settings")
    ∷ nav (lit "/super-admin") (lit "superAdmin")
    ∷ []

-- `isActive` below its first guard.
unfoldable pub is_within : Text → Text → Bool
is_within path href =
    if text_eq href (lit "/dashboard")
    then text_eq path href
    else text_eq path href || starts_with path (href ++ lit "/")

unfoldable pub is_active : Option Text → Text → Bool
unfolding is_within
is_active none href = false
is_active (some path) href = if nonempty path then is_within path href else false

-- A `NavLink`: where it leads, `aria-current`, its tooltip and its words.
pub record LinkView : Type 0 where
  pub href : Text
  pub current : Bool
  pub tooltip : Option Text
  pub label : Option Text

unfoldable pub nav_link : NavItem → (active collapsed : Bool) → Text → LinkView
nav_link item active collapsed label = record {
  href = item.href;
  current = active;
  tooltip = if collapsed then some label else none;
  label = if collapsed then none else some label;
}

pub record SidebarView : Type 0 where
  pub home : Text
  pub wordmark : Bool
  pub primary : List LinkView
  pub secondary : List LinkView

-- `items.map((item) => <NavLink … />)`, with the translations of the labels.
unfoldable pub nav_links : (Text → Text) → Option Text → Bool → List NavItem → List LinkView
unfolding nav_link is_active
nav_links t pathname collapsed =
    map (λ item. nav_link item (is_active pathname item.href) collapsed (t item.label_key))

unfoldable pub sidebar : (Text → Text) → Option Text → Bool → SidebarView
unfolding nav_links primary_nav secondary_nav
sidebar t pathname collapsed = record {
  home = lit "/dashboard";
  wordmark = not collapsed;
  primary = nav_links t pathname collapsed primary_nav;
  secondary = nav_links t pathname collapsed secondary_nav;
}

-- The store's state is whether the sidebar is collapsed.
abbrev pub initially_collapsed : Bool
initially_collapsed = false

abbrev pub toggle_sidebar : Bool → Bool
toggle_sidebar collapsed = not collapsed

abbrev pub set_sidebar_collapsed : (collapsed state : Bool) → Bool
set_sidebar_collapsed collapsed state = collapsed
