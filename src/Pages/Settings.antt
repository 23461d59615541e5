-- ===== src/Pages/Settings.antt =====
-- The pages of panel/app/(app) that stand in the panel's frame: the settings.
use leakshield.Base.{none, [], ◌∷◌}
use leakshield.Js.Text.{lit}
use leakshield.Pages.{PageView, coming_soon_banner}

-- panel/app/(app)/settings/profile/page.tsx
unfoldable pub profile_settings_page : PageView
profile_settings_page = record {
  metadata_title = "Profile";
  title = lit "Profile";
  description = lit "Your name, email, password, locale, and notification preferences.";
  actions = [];
  parts = coming_soon_banner 5 none ∷ [];
}

-- panel/app/(app)/settings/team/page.tsx
unfoldable pub team_settings_page : PageView
team_settings_page = record {
  metadata_title = "Team settings";
  title = lit "Team";
  description = lit "Invite teammates, assign roles, and manage SSO bindings.";
  actions = [];
  parts = coming_soon_banner 5 none ∷ [];
}

-- panel/app/(app)/settings/api/page.tsx
unfoldable pub api_settings_page : PageView
api_settings_page = record {
  metadata_title = "API settings";
  title = lit "API";
  description =
      lit "Gateway base URL, rate limit defaults, and CORS configuration for client SDKs.";
  actions = [];
  parts = coming_soon_banner 5 none ∷ [];
}

-- panel/app/(app)/settings/integrations/page.tsx
unfoldable pub integrations_page : PageView
integrations_page = record {
  metadata_title = "Integrations";
  title = lit "Integrations";
  description =
      lit "SIEM forwarding, webhooks for blocked-request alerts, and OTel exporter destinations.";
  actions = [];
  parts = coming_soon_banner 5 none ∷ [];
}
