-- ===== src/Pages.antt =====
-- panel/components/layout/page-shell.tsx and coming-soon-banner.tsx beside it: the frame of a page, and
-- the banner of one that is still to come.
pub mod Accounts
pub mod Activity
pub mod Settings
use leakshield.Base.{ℕ, String, Option, List, ◌++◌}
use leakshield.Js.Text.{Text, lit, decimal}
use leakshield.Env.{coalesce}

-- A button of the title row, with the link that it wraps, if it does.
pub record Action : Type 0 where
  pub label : String
  pub href : Option String
  pub variant : String

-- What stands below the title row.
pub data PagePart : Type 0 where
  banner : (title : Text) (text : String) → PagePart
  tiles : (note : String) → List (String × String) → PagePart
  live_log policy_workspace categories analytics : PagePart

-- `ComingSoonBanner`
unfoldable pub coming_soon_banner : (phase : ℕ) → (description : Option String) → PagePart
coming_soon_banner phase description = banner (lit "Coming soon — Phase " ++ decimal phase) (
    coalesce description
      "This screen is scaffolded for navigation. Functionality lands in a later milestone.")

-- `PageShell`, and the title of the tab.
pub record PageView : Type 0 where
  pub metadata_title : String
  pub title : Text
  pub description : Text
  pub actions : List Action
  pub parts : List PagePart

-- The template of panel/app/layout.tsx.
unfoldable pub document_title : PageView → Text
document_title p = lit p.metadata_title ++ lit " · LeakShield"
