-- ===== src/Routes.antt =====
-- panel/app/api/admin: the route handlers between the onboarding forms and the gateway.
pub mod Body
pub mod Users
pub mod Keys
pub mod Providers
