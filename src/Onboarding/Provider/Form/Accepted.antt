-- ===== src/Onboarding/Provider/Form/Accepted.antt =====
-- The form of step 2 against the routes to which it is posted.
use leakshield.Js.Text.{Text}
use leakshield.Js.Json.{Json}
