-- ===== src/Onboarding/Admin/Validated.antt =====
-- The form of step 1 against the validation of the set-up route, to which it is posted.
use leakshield.Base.{
  ◌≡◌, refl, Bool, true, false, not, some, [], ◌∷◌, ◌++◌, arith, length, ltb, leb,
}
use leakshield.Base.Result.{ok}
use leakshield.Js.Text.{Text, trim}
use leakshield.Js.Text.Trim.{trim-trim}
use leakshield.Js.Json.{Json, str, get, given, lookup, truthy, call_trim, to_string}
use leakshield.Js.Email.{email_test}
use leakshield.Setup.Bootstrap.{
  validate, message_if, name_missing, email_missing, password_missing, too_short,
}
use leakshield.Onboarding.Admin.{AdminForm, admin_body, password_ok}

name_missing-str :
    (s : Text) → trim s ≡ s → name_missing (given (some (str s))) ≡ ok (ltb (length s) 2)
unfolding name_missing given truthy call_trim
name_missing-str [] e = refl
name_missing-str (c ∷ s) e = rw e

email_missing-str : (s : Text) → email_missing (given (some (str s))) ≡ ok (not (email_test s))
unfolding email_missing given truthy to_string email_test
email_missing-str [] = refl
email_missing-str (c ∷ s) = refl

password_missing-str :
    (below_eight : Json → Bool) (s : Text)
    → leb 8 (length s) ≡ true
    → password_missing below_eight (given (some (str s))) ≡ false
unfolding password_missing too_short given truthy
password_missing-str below_eight [] h = cc
password_missing-str below_eight (c ∷ s) h = ground arith

-- The button of the form guards the password only. Whenever it lets a form through, the route's messages
-- are those for a company name and a full name that are shorter than two characters once trimmed, and
-- for an address whose trimmed lower case does not pass the pattern: none is about the password.
pub admin_body-validated :
    (nfd lower : Text → Text) (below_eight : Json → Bool) (f : AdminForm)
    → password_ok f ≡ true
    → validate below_eight (admin_body nfd lower f)
      ≡ ok (
          message_if (ltb (length (trim f.company_name)) 2) "company name is required"
          ++ (message_if (ltb (length (trim f.full_name)) 2) "your name is required"
              ++ (message_if (not (email_test (lower (trim f.email)))) "a valid email is required"
                  ++ [])))
unfolding validate admin_body get lookup password_ok
admin_body-validated nfd lower below_eight f h = rw (
  name_missing-str (trim f.company_name) (trim-trim f.company_name),
  name_missing-str (trim f.full_name) (trim-trim f.full_name),
  email_missing-str (lower (trim f.email)),
  password_missing-str below_eight f.password h,
)
