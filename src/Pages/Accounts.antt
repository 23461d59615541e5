-- ===== src/Pages/Accounts.antt =====
-- The pages of panel/app/(app) that stand in the panel's frame: users, keys and providers.
use leakshield.Base.{none, some, [], ◌∷◌, ◌++◌}
use leakshield.Js.Text.{Text, lit}
use leakshield.Pages.{PageView, coming_soon_banner}

-- panel/app/(app)/users/page.tsx
unfoldable pub users_page : PageView
users_page = record {
  metadata_title = "Users";
  title = lit "Users";
  description =
      lit "People in this tenant — name, email, department, and the virtual keys they hold.";
  actions =
      record { label = "Bulk import"; href = some "/users/import"; variant = "outline" }
      ∷ record { label = "New user"; href = none; variant = "default" }
      ∷ [];
  parts = coming_soon_banner 2 none ∷ [];
}

-- panel/app/(app)/users/import/page.tsx
unfoldable pub user_import_page : PageView
user_import_page = record {
  metadata_title = "Bulk user import";
  title = lit "Bulk user import";
  description =
      lit
        "Upload a CSV with name, email, department, and optional phone. Each row becomes a user with a virtual key issued at the end of the wizard.";
  actions = [];
  parts =
      coming_soon_banner 2 (
        some
          "The wizard maps columns, previews the parsed rows, and shows a one-time keys panel after submission. CSV upload UI lands here in Phase 2.")
      ∷ [];
}

-- panel/app/(app)/users/[id]/page.tsx
unfoldable pub user_detail_page : (id : Text) → PageView
user_detail_page id = record {
  metadata_title = "User details";
  title = lit "User details";
  description = lit "Profile, virtual keys, and recent activity for user " ++ id ++ lit ".";
  actions = [];
  parts = coming_soon_banner 2 none ∷ [];
}

-- panel/app/(app)/keys/page.tsx
unfoldable pub keys_page : PageView
keys_page = record {
  metadata_title = "Virtual keys";
  title = lit "Virtual keys";
  description =
      lit
        "Per-user gateway tokens with rate limits and budget caps. Master provider keys never leave envelope encryption.";
  actions = record { label = "Issue key"; href = none; variant = "default" } ∷ [];
  parts = coming_soon_banner 2 none ∷ [];
}

-- panel/app/(app)/providers/page.tsx
unfoldable pub providers_page : PageView
providers_page = record {
  metadata_title = "Providers";
  title = lit "Providers";
  description =
      lit
        "Connected upstream LLM providers (OpenAI, Anthropic, Google, Azure) and their configured models.";
  actions =
      record { label = "Connect provider"; href = some "/providers/new"; variant = "default" } ∷ [];
  parts = coming_soon_banner 1 none ∷ [];
}

-- panel/app/(app)/providers/new/page.tsx
unfoldable pub new_provider_page : PageView
new_provider_page = record {
  metadata_title = "Connect provider";
  title = lit "Connect a provider";
  description =
      lit
        "Pick OpenAI, Anthropic, Google, or Azure. Paste your master key, test the connection, and choose which models to allow.";
  actions = [];
  parts = coming_soon_banner 1 none ∷ [];
}

-- panel/app/(app)/providers/[id]/page.tsx
unfoldable pub provider_detail_page : (id : Text) → PageView
provider_detail_page id = record {
  metadata_title = "Provider details";
  title = lit "Provider details";
  description =
      lit "Configuration, allowed models, and recent traffic for provider " ++ id ++ lit ".";
  actions = [];
  parts = coming_soon_banner 1 none ∷ [];
}
