-- ===== src/Setup.antt =====
-- panel/lib/setup-status.ts and the pages that branch on it: panel/app/page.tsx and
-- panel/app/(auth)/sign-in/page.tsx.
pub mod Probe
pub mod Status
pub mod Entry
pub mod Bootstrap
