-- ===== src/Routes/Users/Validation.antt =====
-- What the gateway can rely on when the panel asks it to create a user.
use leakshield.Base.{
  ◌≤◌, ◌≡◌, refl, true, not, Option, none, some, ltb, arith, All, length, All-map,
}
use leakshield.Base.Result.{Result, ok, >>=-eq-ok}
use leakshield.Js.Text.{Text, trim}
use leakshield.Js.Text.Trim.{trim-trim, trim_of_NoSpace}
use leakshield.Js.Json.{Json, str, obj, Fields, field, lookup, get, given, call_trim, to_string}
use leakshield.Js.Email.{email_test}
use leakshield.Js.Email.Spec.{email_test-NoSpace}
use leakshield.Js.Http.{HttpRequest, Server}
use leakshield.Proxy.{proxy_to_gateway}
use leakshield.Proxy.Contract.{proxy-IsAuthenticated}
use leakshield.Routes.Body.Sent.{>=>-sent, refuse-sent, if-sent, with_body-sent}
use leakshield.Routes.Users.{
  create_options, optional_fields, user_payload, check_email, check_name, create_user,
}

-- A request to create a user whose name has two characters at least and no space round it, and
-- whose address is the lower case of a text that passes the pattern.
pub record IsCleanUser (lower : Text → Text) (req : HttpRequest) : Type 0 where
  pub fields : Fields
  pub sent : req.body ≡ some (obj fields)
  pub name : Text
  pub name_sent : lookup "name" fields ≡ some (str name)
  pub name_long : 2 ≤ length name
  pub name_trimmed : trim name ≡ name
  pub email : Text
  pub email_sent : lookup "email" fields ≡ some (str (lower email))
  pub email_valid : email_test email ≡ true

pub call_trim-trimmed : (v : Json) (t : Text) → call_trim v ≡ ok t → trim t ≡ t
unfolding call_trim
call_trim-trimmed (str s) t e = let same : trim s ≡ t = cc in rw (← same) (trim-trim s)
call_trim-trimmed _ t e = cc

-- Only a string can be trimmed, and one that passes the pattern has nothing to trim.
trimmed_passes :
    (v : Json) (shown trimmed : Text)
    → to_string v ≡ ok shown
    → call_trim v ≡ ok trimmed
    → email_test shown ≡ true
    → email_test trimmed ≡ true
unfolding call_trim to_string
trimmed_passes (str s) shown trimmed e c h =
    let same : s ≡ shown = cc in
    let cut : trim s ≡ trimmed = cc in
    let valid : email_test s ≡ true = rw same h in
    rw (← cut, trim_of_NoSpace s (email_test-NoSpace s valid)) valid
trimmed_passes _ shown trimmed e c h = cc

module _ (lower : Text → Text) (srv : Server) where
  user_payload-made :
      (body : Json) (name email : Text) (payload : Json)
      → user_payload lower body name email ≡ ok payload
      → (rest : Fields) × (payload
          ≡ obj (field "name" (str name) (field "email" (str (lower email)) rest)))
  unfolding user_payload
  user_payload-made body name email payload e =
      let (rest, _, made) = >>=-eq-ok (optional_fields body) _ e in (rest, cc)

  proxied-IsCleanUser :
      (rest : Fields) (name email : Text)
      → 2 ≤ length name
      → trim name ≡ name
      → email_test email ≡ true
      → All
          (IsCleanUser lower)
          (proxy_to_gateway srv (
            create_options
              (obj (field "name" (str name) (field "email" (str (lower email)) rest))))).sent
  unfolding create_options lookup
  proxied-IsCleanUser rest name email long clean valid =
      All-map
        (λ req a. record {
          fields = _;
          sent = a.body;
          name = name;
          name_sent = refl;
          name_long = long;
          name_trimmed = clean;
          email = email;
          email_sent = refl;
          email_valid = valid;
        })
        _ (proxy-IsAuthenticated srv _).1

  -- The name has passed; of the values of `email`, only a string that passes gets through.
  check_email-IsCleanUser :
      (body : Json) (name : Text) (email : Option Json)
      → 2 ≤ length name
      → trim name ≡ name
      → All (IsCleanUser lower) (check_email lower srv body name email).sent
  unfolding check_email
  check_email-IsCleanUser body name none long clean = refuse-sent _ _
  check_email-IsCleanUser body name (some v) long clean = >=>-sent _ (to_string v) _ (λ shown e.
      if-sent _ (not (email_test shown)) _ _ (λ _. refuse-sent _ _)
        (λ passed. >=>-sent _ (call_trim v) _ (λ trimmed c.
          let valid = trimmed_passes v shown trimmed e c (ground arith) in
          >=>-sent _ (user_payload lower body name trimmed) _ (λ payload made.
            let (rest, same) = user_payload-made body name trimmed payload made in
            rw same (proxied-IsCleanUser rest name trimmed long clean valid)))))

  check_name-IsCleanUser :
      (body : Json) (name : Option Json)
      → All (IsCleanUser lower) (check_name lower srv body name).sent
  unfolding check_name
  check_name-IsCleanUser body none = refuse-sent _ _
  check_name-IsCleanUser body (some v) = >=>-sent _ (call_trim v) _ (λ trimmed c.
      if-sent _ (ltb (length trimmed) 2) _ _ (λ _. refuse-sent _ _)
        (λ long. >=>-sent _ (get body "email") _ (λ email _.
          check_email-IsCleanUser body trimmed (given email) (ground arith)
            (call_trim-trimmed v trimmed c))))

  -- Whatever the caller posts, every request that the handler sends on asks for a user with a trimmed
  -- name of two characters at least and with the lower case of an address that passes the pattern.
  pub create_user-IsCleanUser :
      (parsed : Result Json) → All (IsCleanUser lower) (create_user lower srv parsed).sent
  unfolding create_user
  create_user-IsCleanUser parsed =
      with_body-sent _ parsed _ (λ body.
        >=>-sent _ (get body "name") _ (λ name _. check_name-IsCleanUser body (given name)))
