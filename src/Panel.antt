-- ===== src/Panel.antt =====
-- The parts that the panel's pages share: panel/components/layout/sidebar.tsx and
-- panel/lib/stores/ui-store.ts, panel/i18n/request.ts, panel/lib/stores/modal-store.ts,
-- panel/components/providers/query-provider.tsx, panel/components/layout/topbar.tsx.
pub mod Sidebar
pub mod Locale
pub mod Modals
pub mod Retry
pub mod Topbar
