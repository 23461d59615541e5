-- ===== src/Onboarding/Admin/Posted.antt =====
-- The form of step 1, through the set-up route, to the gateway.
use leakshield.Base.{◌≡◌, Bool, true, false, ◌&&◌, [], ◌∷◌, length, leb}
use leakshield.Base.Result.{ok}
use leakshield.Js.Text.{Text, trim}
use leakshield.Js.Json.{Json}
use leakshield.Js.Email.{email_test}
use leakshield.Js.Http.{Server, Outcome}
use leakshield.Setup.Bootstrap.{bootstrap_request}
use leakshield.Onboarding.Admin.{AdminForm}

-- Both names have two characters at least once trimmed, and the trimmed address in lower case passes
-- the pattern.
abbrev pub is_complete : (lower : Text → Text) → AdminForm → Bool
is_complete lower f =
    leb 2 (length (trim f.company_name))
    && leb 2 (length (trim f.full_name))
    && email_test (lower (trim f.email))

-- A complete form is sent on to the gateway as it was posted; any other is refused by a 400 and no
-- request at all.
pub record IsPosted (srv : Server) (body : Json) (complete : Bool) (o : Outcome) : Type 0 where
  pub sent_on : complete ≡ true → o.sent ≡ bootstrap_request srv body ∷ []
  pub held_back :
      complete ≡ false
      → (o.sent ≡ [])
        × ((refusal : Json) × (o.result ≡ ok (record { status = 400; body = refusal })))
