-- ===== src/Onboarding/Provider.antt =====
-- panel/components/onboarding/step-2-provider.tsx: connect an upstream provider.
pub mod Form
pub mod Tiles
pub mod Screen
pub mod Saved
pub mod View
