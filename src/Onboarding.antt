-- ===== src/Onboarding.antt =====
-- The steps of the onboarding wizard, and its shell.
pub mod Admin
pub mod Account
pub mod Categories
pub mod Provider
pub mod User
pub mod Wizard
