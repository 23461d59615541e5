-- ===== src/Tests.antt =====
-- The theorems at concrete inputs: one server, one form, and the answers of a gateway.
mod Fixtures
mod Server
mod Screens
mod Keys
mod Streams
mod Steps
mod Shared
