-- ===== src/Onboarding/User/Accepted.antt =====
-- The form of a teammate against panel/app/api/admin/users/route.ts, to which it is posted.
use leakshield.Base.{◌≡◌, ◌∙◌, refl, ap, true, false, some, [], ◌∷◌, arith, length, ltb}
use leakshield.Base.Result.{ok}
use leakshield.Js.Text.{Text, trim}
use leakshield.Js.Text.Trim.{trim-trim, trim_of_NoSpace}
use leakshield.Js.Json.{
  Json, str, obj, Fields, end, field, get, has_key, lookup, given, truthy, call_trim, to_string,
}
use leakshield.Js.Email.{email_test}
use leakshield.Js.Email.Spec.{email_test-NoSpace}
use leakshield.Js.Http.{Server}
use leakshield.Proxy.{token_of, proxy_request, proxy_to_gateway, read_json_body}
use leakshield.Routes.Body.{text_field, optional_trim, with_body}
use leakshield.Routes.Users.{
  create_options, create_user, check_name, check_email, optional_fields, user_payload,
}
use leakshield.Proxy.Passing.{proxy-sent}
use leakshield.Onboarding.User.{Teammate, teammate_body, teammate_valid}

-- The body of the form, and the fields that the route makes of it.
abbrev posted : (n s e p d : Text) → Json
posted n s e p d = obj (
    field "name" (str n) (
      text_field "surname" s
        (field "email" (str e) (text_field "phone" p (text_field "department" d end)))))

abbrev details : (s p d : Text) → Fields
details s p d = text_field "surname" s (text_field "phone" p (text_field "department" d end))

optional_fields-posted :
    (n s e p d : Text)
    → trim s ≡ s
    → trim p ≡ p
    → trim d ≡ d
    → optional_fields (posted n s e p d) ≡ ok (details s p d)
unfolding optional_fields optional_trim get lookup call_trim
optional_fields-posted n [] e [] [] s p d = refl
optional_fields-posted n [] e [] (x ∷ _) s p d = rw d
optional_fields-posted n [] e (x ∷ _) [] s p d = rw p
optional_fields-posted n [] e (x ∷ _) (y ∷ _) s p d = rw (p, d)
optional_fields-posted n (z ∷ _) e [] [] s p d = rw s
optional_fields-posted n (z ∷ _) e [] (x ∷ _) s p d = rw (s, d)
optional_fields-posted n (z ∷ _) e (x ∷ _) [] s p d = rw (s, p)
optional_fields-posted n (z ∷ _) e (x ∷ _) (y ∷ _) s p d = rw (s, p, d)

name-posted : (n s e p d : Text) → get (posted n s e p d) "name" ≡ ok (some (str n))
unfolding get lookup
name-posted n s e p d = refl

email-posted : (n s e p d : Text) → get (posted n s e p d) "email" ≡ ok (some (str e))
unfolding get lookup
email-posted n [] e p d = refl
email-posted n (z ∷ _) e p d = refl

-- The body has no key `__error`.
error-posted : (n s e p d : Text) → has_key "__error" (posted n s e p d) ≡ ok false
unfolding has_key lookup
error-posted n [] e [] [] = refl
error-posted n [] e [] (x ∷ _) = refl
error-posted n [] e (x ∷ _) [] = refl
error-posted n [] e (x ∷ _) (y ∷ _) = refl
error-posted n (z ∷ _) e [] [] = refl
error-posted n (z ∷ _) e [] (x ∷ _) = refl
error-posted n (z ∷ _) e (x ∷ _) [] = refl
error-posted n (z ∷ _) e (x ∷ _) (y ∷ _) = refl

given-str : (e : Text) → email_test e ≡ true → given (some (str e)) ≡ some (str e)
unfolding given truthy email_test
given-str [] h = cc
given-str (x ∷ e) h = refl

given-name : (n : Text) → ltb (length n) 2 ≡ false → given (some (str n)) ≡ some (str n)
unfolding given truthy
given-name [] h = cc
given-name (x ∷ n) h = refl

module _ (lower : Text → Text) (srv : Server) where
  check_email-posted :
      (n s e p d : Text)
      → email_test e ≡ true
      → trim s ≡ s
      → trim p ≡ p
      → trim d ≡ d
      → check_email lower srv (posted n s e p d) n (some (str e))
        ≡ proxy_to_gateway srv (
            create_options
              (obj (field "name" (str n) (field "email" (str (lower e)) (details s p d)))))
  unfolding check_email user_payload call_trim to_string
  check_email-posted n s e p d valid ts tp td = rw (
    valid,
    trim_of_NoSpace e (email_test-NoSpace e valid),
    optional_fields-posted n s e p d ts tp td,
  )

  create_user-posted :
      (n s e p d : Text)
      → ltb (length n) 2 ≡ false
      → email_test e ≡ true
      → trim n ≡ n
      → trim s ≡ s
      → trim p ≡ p
      → trim d ≡ d
      → create_user lower srv (ok (posted n s e p d))
        ≡ proxy_to_gateway srv (
            create_options
              (obj (field "name" (str n) (field "email" (str (lower e)) (details s p d)))))
  unfolding create_user check_name with_body read_json_body call_trim
  create_user-posted n s e p d long valid tn ts tp td =
      rw
        (
          error-posted n s e p d,
          name-posted n s e p d,
          given-name n long,
          tn,
          long,
          email-posted n s e p d,
          given-str e valid,
        )
        (check_email-posted n s e p d valid ts tp td)

-- What the route makes of the form: the trimmed fields, with the address in lower case once more.
abbrev pub sent_teammate : (lower : Text → Text) → Teammate → Json
sent_teammate lower f = obj (
    field "name" (str (trim f.name)) (
      field "email" (str (lower (lower (trim f.email))))
        (details (trim f.surname) (trim f.phone) (trim f.department))))

-- A form of a teammate that the screen accepts is sent on by the users route, in exactly one request
-- with the trimmed fields, if an admin is signed in and the lower case of an address that passes the
-- pattern passes it too.
pub teammate_body-accepted :
    (lower : Text → Text) (srv : Server) (t : Text) (f : Teammate)
    → ((e : Text) → email_test e ≡ true → email_test (lower e) ≡ true)
    → token_of srv ≡ some t
    → teammate_valid f ≡ true
    → (create_user lower srv (ok (teammate_body lower f))).sent
      ≡ proxy_request srv (create_options (sent_teammate lower f)) t ∷ []
unfolding teammate_body teammate_valid
teammate_body-accepted lower srv t f keeps signed_in valid =
    ap (λ o. o.sent)
      (create_user-posted lower srv (trim f.name) (trim f.surname) (lower (trim f.email))
        (trim f.phone) (trim f.department) (ground arith) (keeps (trim f.email) (ground arith))
        (trim-trim f.name) (trim-trim f.surname) (trim-trim f.phone) (trim-trim f.department))
    ∙ proxy-sent srv _ t signed_in
