-- ===== src/Js.antt =====
-- The parts of JavaScript and of the Fetch standard that the panel uses.
pub mod Text
pub mod Json
pub mod Http
pub mod Email
pub mod Uri
