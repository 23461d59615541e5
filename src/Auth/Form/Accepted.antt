-- ===== src/Auth/Form/Accepted.antt =====
-- The sign-in form after any events: when it leads on, and when it shows its message.
use mathlib.Core.List.{Memᴰ}
use leakshield.Base.{
  ◌≡◌, refl, String, true, false, Option, none, some, List, [], ◌∷◌, ◌++◌, All, All-map, if_either,
}
use leakshield.Base.Result.{Result, ok, throw}
use leakshield.Js.Text.{Text, lit}
use leakshield.Env.{coalesce}
use leakshield.Auth.Form.{
  Credentials, SignInForm, SignInResult, FormEvent, sent, ended, blank_form, is_signing_in,
  is_refused, settle_result, settle_first, form_react, form_step, form_view,
}

-- The events so far, the latest first, and the form that they lead to.
pub data Reached (callback : Option Text) : List FormEvent → SignInForm → Type 0 where
  begin : Reached callback [] blank_form
  then_on :
      {es : List FormEvent} {s : SignInForm} (e : FormEvent)
      → Reached callback es s
      → Reached callback (e ∷ es) (form_step callback e s)

-- The sign-in ended with a result that has no error; an empty message is none.
abbrev pub IsAccepted : SignInResult → Type 0
IsAccepted (some none) = Unit
IsAccepted (some (some [])) = Unit
IsAccepted _ = ⊥

-- The sign-in ended without a result, or with the message of an error.
abbrev pub IsRefused : SignInResult → Type 0
IsRefused none = Unit
IsRefused (some (some (c ∷ e))) = Unit
IsRefused _ = ⊥

accepted : (result : SignInResult) → is_refused result ≡ false → IsAccepted result
unfolding is_refused
accepted none h = cc
accepted (some none) h = tt
accepted (some (some [])) h = tt
accepted (some (some (c ∷ e))) h = cc

refused : (result : SignInResult) → is_refused result ≡ true → IsRefused result
unfolding is_refused
refused none h = tt
refused (some none) h = cc
refused (some (some [])) h = cc
refused (some (some (c ∷ e))) h = tt

-- A submission, and after it a sign-in that ended as given.
pub data EndsIn (P : SignInResult → Type 0) : List FormEvent → Type 0 where
  now :
      {es : List FormEvent} (c : Credentials) (result : SignInResult)
      → Memᴰ (sent c) es
      → P result
      → EndsIn P (ended (ok result) ∷ es)
  before : {es : List FormEvent} (e : FormEvent) → EndsIn P es → EndsIn P (e ∷ es)

abbrev RouteFrom : Option Text → List FormEvent → Option Text → Type 0
RouteFrom callback es none = Unit
RouteFrom callback es (some path) =
    (path ≡ coalesce callback (lit "/dashboard")) × EndsIn IsAccepted es

abbrev ErrorFrom : List FormEvent → Option String → Type 0
ErrorFrom es none = Unit
ErrorFrom es (some message) = EndsIn IsRefused es

abbrev IsSent : List FormEvent → Credentials → Type 0
IsSent es c = Memᴰ (sent c) es

record Good (callback : Option Text) (es : List FormEvent) (s : SignInForm) : Type 0 where
  jobs : All (IsSent es) s.in_flight
  route : RouteFrom callback es s.route
  error : ErrorFrom es s.error

later-RouteFrom :
    (callback : Option Text) (e : FormEvent) (es : List FormEvent) (r : Option Text)
    → RouteFrom callback es r
    → RouteFrom callback (e ∷ es) r
later-RouteFrom callback e es none h = tt
later-RouteFrom callback e es (some path) (p, h) = (p, before e h)

later-ErrorFrom :
    (e : FormEvent) (es : List FormEvent) (r : Option String)
    → ErrorFrom es r
    → ErrorFrom (e ∷ es) r
later-ErrorFrom e es none h = tt
later-ErrorFrom e es (some message) h = before e h

later-Good :
    {callback : Option Text} {es : List FormEvent} {s : SignInForm} (e : FormEvent)
    → Good callback es s
    → Good callback (e ∷ es) s
later-Good {callback} {es} {s} e g = record {
  jobs = All-map (λ c m. Memᴰ.tail m) s.in_flight g.jobs;
  route = later-RouteFrom callback e es s.route g.route;
  error = later-ErrorFrom e es s.error g.error;
}

sent-Good :
    {callback : Option Text} {es : List FormEvent} (c : Credentials) (s : SignInForm)
    (js : List Credentials)
    → s.in_flight ≡ js
    → is_signing_in s ≡ false
    → Good callback (sent c ∷ es) s
    → Good callback (sent c ∷ es) (record s { error = none; in_flight = js ++ c ∷ [] })
sent-Good c s [] e n g = record { jobs = (Memᴰ.head refl, tt); route = g.route; error = tt }
sent-Good c s (j ∷ js) e n g = let wrong : true ≡ false = rw e at n in cc

settle_first-Good :
    {callback : Option Text} {es : List FormEvent} (js : List Credentials)
    (result : Result SignInResult) (s : SignInForm)
    → s.in_flight ≡ js
    → Good callback es s
    → Good callback (ended result ∷ es) (settle_first callback js result s)
unfolding settle_result
settle_first-Good [] result s e g = later-Good (ended result) g
settle_first-Good (c ∷ rest) (throw x) s e g =
    let h = later-Good (ended (throw x)) g in
    let jobs : All (IsSent (ended (throw x) ∷ _)) (c ∷ rest) = rw e at h.jobs in
    record { jobs = jobs.1; route = h.route; error = h.error }
settle_first-Good {callback} {es} (c ∷ rest) (ok result) s e g =
    let now_es : List FormEvent = ended (ok result) ∷ es in
    let h = later-Good (ended (ok result)) g in
    let earlier : All (IsSent es) (c ∷ rest) = rw e at g.jobs in
    let jobs : All (IsSent now_es) (c ∷ rest) = rw e at h.jobs in
    if_either {A = SignInForm} (Good callback now_es) (is_refused result) _ _
      (λ r. record {
        jobs = jobs.1;
        route = h.route;
        error = now c result earlier.0 (refused result r);
      })
      (λ a. record {
        jobs = jobs.1;
        route = (refl, now c result earlier.0 (accepted result a));
        error = h.error;
      })

form_react-Good :
    {callback : Option Text} {es : List FormEvent} (e : FormEvent) (s : SignInForm)
    → Good callback es s
    → Good callback (e ∷ es) (form_react callback e s)
unfolding form_react
form_react-Good {callback} {es} (sent c) s g =
    let h = later-Good (sent c) g in
    if_either (Good callback (sent c ∷ es)) (is_signing_in s) s _ (λ _. h)
      (λ free. sent-Good c s s.in_flight refl free h)
form_react-Good (ended result) s g = settle_first-Good s.in_flight result s refl g

Reached-Good :
    {callback : Option Text} {es : List FormEvent} {s : SignInForm}
    → Reached callback es s
    → Good callback es s
unfolding form_step
Reached-Good begin = record { jobs = tt; route = tt; error = tt }
Reached-Good {callback} (then_on {es = es} {s = s} e r) =
    if_either (Good callback (e ∷ es)) s.crashed s _ (λ _. later-Good e (Reached-Good r))
      (λ _. form_react-Good e s (Reached-Good r))

route_of :
    (callback : Option Text) (es : List FormEvent) (r : Option Text) (path : Text)
    → RouteFrom callback es r
    → r ≡ some path
    → (path ≡ coalesce callback (lit "/dashboard")) × EndsIn IsAccepted es
route_of callback es none path h e = cc
route_of callback es (some p) path h e = let same : p ≡ path = cc in rw (← same) h

-- After any events, the form has led on only if a submission has been followed by a sign-in that ended
-- with a result and no error in it, and then to the query's `callbackUrl`, as it stands, or to the dashboard if there is none.
pub Reached-IsAccepted :
    {callback : Option Text} {es : List FormEvent} {s : SignInForm}
    → Reached callback es s
    → (path : Text) → s.route ≡ some path
    → (path ≡ coalesce callback (lit "/dashboard")) × EndsIn IsAccepted es
Reached-IsAccepted {callback} {es} {s} r path e =
    route_of callback es s.route path (Reached-Good r).route e

error_of :
    (es : List FormEvent) (r : Option String) (message : String)
    → ErrorFrom es r
    → r ≡ some message
    → EndsIn IsRefused es
error_of es none message h e = cc
error_of es (some m) message h e = h

-- After any events, the form shows its alert only if a submission has been followed by a sign-in that
-- ended without a result or with an error in it.
pub Reached-IsRefused :
    {callback : Option Text} {es : List FormEvent} {s : SignInForm}
    → Reached callback es s
    → (message : String) → (form_view s).alert ≡ some message
    → EndsIn IsRefused es
unfolding form_view
Reached-IsRefused {es = es} {s = s} r message e =
    error_of es s.error message (Reached-Good r).error e
