-- ===== src/Setup/Bootstrap/Guards.antt =====
-- What the gateway can rely on when the panel asks it to create the first admin.
use leakshield.Base.{
  String, ◌≤◌, ◌≡◌, refl, Bool, true, false, Option, some, List, [], ◌∷◌, ◌++◌, arith, All, length,
  Option-cases, inl, inr,
}
use leakshield.Base.Result.{Result, ok, throw, >>=-eq-ok, ok-injective}
use leakshield.Js.Text.{Text, trim}
use leakshield.Js.Json.{Json, str, num, get, given, call_trim, to_string, truthy}
use leakshield.Js.Json.Given.{given-some, given_of_truthy, call_trim-str}
use leakshield.Js.Email.{email_test}
use leakshield.Js.Http.{HttpRequest, Server}
use leakshield.Routes.Body.Sent.{>=>-sent}
use leakshield.Setup.Bootstrap.{
  too_short, name_missing, email_missing, password_missing, validate, bootstrap_request,
  send_bootstrap, bootstrap, message_if,
}

-- The field is a string with two characters at least once it is trimmed.
pub record IsName (body : Json) (key : String) : Type 0 where
  pub text : Text
  pub posted : get body key ≡ ok (some (str text))
  pub long : 2 ≤ length (trim text)

-- The field is a truthy value whose string passes the pattern.
pub record IsAddress (body : Json) : Type 0 where
  pub value : Json
  pub posted : get body "email" ≡ ok (some value)
  pub shown : Text
  pub printed : to_string value ≡ ok shown
  pub valid : email_test shown ≡ true

module _ (below_eight : Json → Bool) where
  -- The field is a truthy value that is not known to be shorter than eight.
  pub record IsPassword (body : Json) : Type 0 where
    pub value : Json
    pub posted : get body "password" ≡ ok (some value)
    pub present : truthy value ≡ true
    pub long : too_short below_eight value ≡ false

  pub record IsAccepted (srv : Server) (req : HttpRequest) : Type 0 where
    pub body : Json
    pub request : req ≡ bootstrap_request srv body
    pub company : IsName body "company_name"
    pub name : IsName body "full_name"
    pub email : IsAddress body
    pub password : IsPassword body

name_missing-IsName :
    (body : Json) (key : String) (found : Option Json)
    → get body key ≡ ok found
    → name_missing (given found) ≡ ok false
    → IsName body key
unfolding name_missing
name_missing-IsName body key found got h = elim (Option-cases (given found)) [
  | inl e ↦ let wrong : ok true ≡ ok false = rw e at h in cc
  | inr (v, e) ↦
      let (cut, trimmed, long) = >>=-eq-ok (call_trim v) _ (rw e at h) in
      let (text, is_text, same) = call_trim-str v cut trimmed in
      record {
        text = text;
        posted = rw (← is_text) (rw (← (given-some found v e).0) got);
        long = rw (← same) (ground arith);
      }
]

email_missing-IsAddress :
    (body : Json) (found : Option Json)
    → get body "email" ≡ ok found
    → email_missing (given found) ≡ ok false
    → IsAddress body
unfolding email_missing
email_missing-IsAddress body found got h = elim (Option-cases (given found)) [
  | inl e ↦ let wrong : ok true ≡ ok false = rw e at h in cc
  | inr (v, e) ↦
      let (shown, printed, valid) = >>=-eq-ok (to_string v) _ (rw e at h) in
      record {
        value = v;
        posted = rw (← (given-some found v e).0) got;
        shown = shown;
        printed = printed;
        valid = ground arith;
      }
]

-- No message at all is only left when no guard has failed.
no_message :
    (a b c d : Bool) (k l m n : String)
    → message_if a k ++ (message_if b l ++ (message_if c m ++ message_if d n)) ≡ []
    → (a ≡ false) × (b ≡ false) × (c ≡ false) × (d ≡ false)
no_message false false false false k l m n e = (refl, refl, refl, refl)
no_message true b c d k l m n e = cc
no_message false true c d k l m n e = cc
no_message false false true d k l m n e = cc
no_message false false false true k l m n e = cc

module _ (below_eight : Json → Bool) (srv : Server) where
  password_missing-IsPassword :
      (body : Json) (found : Option Json)
      → get body "password" ≡ ok found
      → password_missing below_eight (given found) ≡ false
      → IsPassword below_eight body
  unfolding password_missing
  password_missing-IsPassword body found got h = elim (Option-cases (given found)) [
    | inl e ↦ let wrong : true ≡ false = rw e at h in cc
    | inr (v, e) ↦ record {
      value = v;
      posted = rw (← (given-some found v e).0) got;
      present = (given-some found v e).1;
      long = rw e at h;
    }
  ]

  validate-IsAccepted :
      (body : Json)
      → validate below_eight body ≡ ok []
      → IsAccepted below_eight srv (bootstrap_request srv body)
  unfolding validate
  validate-IsAccepted body e =
      let (company, got₁, e₁) = >>=-eq-ok (get body "company_name") _ e in
      let (a, bad₁, e₂) = >>=-eq-ok (name_missing (given company)) _ e₁ in
      let (name, got₂, e₃) = >>=-eq-ok (get body "full_name") _ e₂ in
      let (b, bad₂, e₄) = >>=-eq-ok (name_missing (given name)) _ e₃ in
      let (email, got₃, e₅) = >>=-eq-ok (get body "email") _ e₄ in
      let (c, bad₃, e₆) = >>=-eq-ok (email_missing (given email)) _ e₅ in
      let (password, got₄, e₇) = >>=-eq-ok (get body "password") _ e₆ in
      let (fine₁, fine₂, fine₃, fine₄) =
        no_message a b c (password_missing below_eight (given password)) _ _ _ _
          (ok-injective e₇) in
      record {
        body = body;
        request = refl;
        company = name_missing-IsName body _ company got₁ (rw fine₁ at bad₁);
        name = name_missing-IsName body _ name got₂ (rw fine₂ at bad₂);
        email = email_missing-IsAddress body email got₃ (rw fine₃ at bad₃);
        password = password_missing-IsPassword body password got₄ fine₄;
      }

  send_bootstrap-IsAccepted :
      (body : Json) (errors : List Text)
      → validate below_eight body ≡ ok errors
      → All (IsAccepted below_eight srv) (send_bootstrap srv body errors).sent
  unfolding send_bootstrap
  send_bootstrap-IsAccepted body [] e = (validate-IsAccepted body e, tt)
  send_bootstrap-IsAccepted body (m ∷ ms) e = tt

  -- Whatever is posted, a request to create the first admin leaves the panel only with a company name
  -- and a full name of two characters at least once trimmed, with a value of `email` whose string
  -- passes the pattern, and with a truthy password that the length guard lets through.
  pub bootstrap-IsAccepted :
      (parsed : Result Json)
      → All (IsAccepted below_eight srv) (bootstrap below_eight srv parsed).sent
  unfolding bootstrap
  bootstrap-IsAccepted (throw e) = tt
  bootstrap-IsAccepted (ok body) =
      >=>-sent _ (validate below_eight body) _ (λ errors e. send_bootstrap-IsAccepted body errors e)

  -- The length guard does not look at a password that is a number: with the other three fields in
  -- order, a body whose password is any number but zero is sent to the gateway.
  pub bootstrap-number_password :
      (body : Json) (digits : Text)
      → get body "password" ≡ ok (some (num digits))
      → truthy (num digits) ≡ true
      → (company name email : Json) → get body "company_name" ≡ ok (some company)
      → get body "full_name" ≡ ok (some name)
      → get body "email" ≡ ok (some email)
      → name_missing (given (some company)) ≡ ok false
      → name_missing (given (some name)) ≡ ok false
      → email_missing (given (some email)) ≡ ok false
      → (bootstrap below_eight srv (ok body)).sent ≡ bootstrap_request srv body ∷ []
  unfolding bootstrap validate send_bootstrap
  bootstrap-number_password body digits p t company name email gc gn ge fc fn fe =
      rw (gc, fc, gn, fn, ge, fe, p, given_of_truthy (num digits) t) refl
