-- ===== src/Pages/Activity.antt =====
-- The pages of panel/app/(app) that stand in the panel's frame: the dashboard, the logs and the policy.
use leakshield.Base.{none, some, [], ◌∷◌, ◌++◌}
use leakshield.Js.Text.{Text, lit}
use leakshield.Pages.{
  PageView, analytics, categories, coming_soon_banner, live_log, policy_workspace, tiles,
}

-- panel/app/(app)/dashboard/page.tsx
unfoldable pub dashboard_page : PageView
dashboard_page = record {
  metadata_title = "Dashboard";
  title = lit "Dashboard";
  description = lit "At-a-glance health, traffic, and DLP outcomes for your tenant.";
  actions = [];
  parts =
      coming_soon_banner 2 (
        some
          "KPI tiles, request throughput, blocked-vs-allowed breakdown, and top users will live here.")
      ∷ tiles "Live data once analytics ships." (
          ("Requests / 24h", "—")
          ∷ ("Blocked", "—")
          ∷ ("Active virtual keys", "—")
          ∷ ("p95 latency", "—")
          ∷ [])
      ∷ [];
}

-- panel/app/(app)/analytics/page.tsx
unfoldable pub analytics_page : PageView
analytics_page = record {
  metadata_title = "Analytics";
  title = lit "Analytics";
  description = lit "Per-user requests, tokens, cost, blocked categories, and latency percentiles.";
  actions = [];
  parts = coming_soon_banner 4 none ∷ analytics ∷ [];
}

-- panel/app/(app)/logs/page.tsx
unfoldable pub logs_page : PageView
logs_page = record {
  metadata_title = "Audit log";
  title = lit "Audit log";
  description =
      lit
        "Every gateway request — who made it, which provider it routed to, and the DLP verdict. Live updates flow over SSE; scroll down to pause.";
  actions = [];
  parts =
      coming_soon_banner 2 (
        some
          "The SSE plumbing is in. Filtering, request-detail drill-down, and proper virtualization land in the next iteration.")
      ∷ live_log
      ∷ [];
}

-- panel/app/(app)/logs/[requestId]/page.tsx
unfoldable pub request_detail_page : (request_id : Text) → PageView
request_detail_page request_id = record {
  metadata_title = "Request details";
  title = lit "Request " ++ request_id;
  description =
      lit
        "Full audit row: messages, verdict reasoning, masked spans, upstream timing, and hash-chain attestation.";
  actions = [];
  parts = coming_soon_banner 2 none ∷ [];
}

-- panel/app/(app)/policy/page.tsx
unfoldable pub policy_page : PageView
policy_page = record {
  metadata_title = "DLP policy";
  title = lit "DLP policy";
  description =
      lit
        "Edit the judge prompt and the YAML category list. The editor on the left, a test harness on the right, with versions and variables one click away.";
  actions = [];
  parts =
      coming_soon_banner 3 (
        some
          "Editor renders, but save / publish / adversarial test gating ship in Phase 3 alongside the gateway endpoints.")
      ∷ policy_workspace
      ∷ [];
}

-- panel/app/(app)/policy/categories/page.tsx
unfoldable pub policy_categories_page : PageView
policy_categories_page = record {
  metadata_title = "DLP categories";
  title = lit "DLP categories";
  description =
      lit
        "Built-in catalog on the left, your tenant's custom categories on the right. Built-ins are read-only; custom categories can use keywords, regex, fingerprints, LLM-only descriptions, or hashed directories.";
  actions = [];
  parts =
      coming_soon_banner 3 (
        some
          "Read-only built-ins are listed; the custom-category wizard, CSV directory uploader, and adversarial test gate ship next.")
      ∷ categories
      ∷ [];
}

-- panel/app/(app)/policy/versions/page.tsx
unfoldable pub policy_versions_page : PageView
policy_versions_page = record {
  metadata_title = "Policy versions";
  title = lit "Policy versions";
  description =
      lit
        "Every published policy is hash-chained and gated by an adversarial test suite. Roll back, diff, or re-run the gate for any version here.";
  actions = [];
  parts = coming_soon_banner 3 none ∷ [];
}
