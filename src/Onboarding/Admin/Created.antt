-- ===== src/Onboarding/Admin/Created.antt =====
-- Step1CreateAdmin after any events: when the wizard goes on, and as whom.
use mathlib.Core.List.{Memᴰ}
use mathlib.Core.Path.{subst}
use leakshield.Base.{
  ◌++◌, sym, All-snoc, not-false, ◌≡◌, ◌⊎◌, refl, Bool, true, false, not, Option, none, some, List,
  [], ◌∷◌, All, All-map, if_either, inl, inr,
}
use leakshield.Base.Result.{Result, ok, throw, >>=-eq-ok, ok-injective}
use leakshield.Js.Text.{Text, lit}
use leakshield.Js.Json.{Json}
use leakshield.Js.Uri.{encode_uri_component}
use leakshield.Js.Http.{Upstream, is_ok}
use leakshield.Onboarding.Provider.Screen.{save_failure}
use leakshield.Onboarding.Admin.Runs.{typed_email, Reached, begin, then_on, Reached-email}
use leakshield.Onboarding.Admin.{
  AdminEvent, AdminJob, AdminScreen, admin_react, admin_step, answered, blank, bootstrapped,
  creating, go_to, passwords_match, settle_answer, settle_sign_in, show_refusal, sign_in_ended,
  sign_in_path, signed_in, signing_in, submit, submit_enabled, submitted, typed_in,
}

-- The set-up route has answered with a status from 200 to 299.
abbrev pub Created : List AdminEvent → Type 0
Created es = (res : Upstream) × Memᴰ (answered (ok res)) es × (is_ok res.status ≡ true)

-- The form was submitted with the text in the field of the address.
pub data Submitted : List AdminEvent → Text → Type 0 where
  now : {es : List AdminEvent} → Submitted (submitted ∷ es) (typed_email es)
  before :
      {es : List AdminEvent} {typed : Text} (e : AdminEvent)
      → Submitted es typed
      → Submitted (e ∷ es) typed

-- Where the wizard goes, and what `signIn` said before; after an error, the query has the address that
-- was typed when the form was submitted, encoded.
abbrev pub LeadsTo : List AdminEvent → Text → Type 0
LeadsTo es path =
    ((path ≡ lit "/onboarding/2") × Memᴰ (sign_in_ended (ok false)) es)
    ⊎ ((typed : Text) × (encoded : Text) × Submitted es typed
        × (encode_uri_component typed ≡ ok encoded)
        × (path ≡ lit "/sign-in?email=" ++ encoded)
        × Memᴰ (sign_in_ended (ok true)) es)

abbrev IsJob : List AdminEvent → AdminJob → Type 0
IsJob es (creating body typed address secret) = Submitted es typed
IsJob es (signing_in typed address secret) = Created es × Submitted es typed

abbrev RouteFrom : List AdminEvent → Option Text → Type 0
RouteFrom es none = Unit
RouteFrom es (some path) = Created es × LeadsTo es path

record Good (es : List AdminEvent) (s : AdminScreen) : Type 0 where
  jobs : All (IsJob es) s.in_flight
  route : RouteFrom es s.route

later-Created : (e : AdminEvent) (es : List AdminEvent) → Created es → Created (e ∷ es)
later-Created e es (res, m, h) = (res, Memᴰ.tail m, h)

later-LeadsTo :
    (e : AdminEvent) (es : List AdminEvent) (path : Text) → LeadsTo es path → LeadsTo (e ∷ es) path
later-LeadsTo e es path (inl (p, m)) = inl (p, Memᴰ.tail m)
later-LeadsTo e es path (inr (typed, encoded, h, c, p, m)) =
    inr (typed, encoded, before e h, c, p, Memᴰ.tail m)

later-IsJob : (e : AdminEvent) (es : List AdminEvent) (j : AdminJob) → IsJob es j → IsJob (e ∷ es) j
later-IsJob e es (creating body typed address secret) h = before e h
later-IsJob e es (signing_in typed address secret) h = (later-Created e es h.0, before e h.1)

later-RouteFrom :
    (e : AdminEvent) (es : List AdminEvent) (r : Option Text)
    → RouteFrom es r
    → RouteFrom (e ∷ es) r
later-RouteFrom e es none h = tt
later-RouteFrom e es (some path) (c, l) = (later-Created e es c, later-LeadsTo e es path l)

later-Good : {es : List AdminEvent} {s : AdminScreen} (e : AdminEvent) → Good es s → Good (e ∷ es) s
later-Good {es} {s} e g = record {
  jobs = All-map (later-IsJob e es) s.in_flight g.jobs;
  route = later-RouteFrom e es s.route g.route;
}

show_refusal-Good :
    {es : List AdminEvent} (r : Result (Bool × Json)) (s : AdminScreen)
    → Good es s
    → Good es (show_refusal r s)
show_refusal-Good (ok (demo, e)) s g = record { jobs = g.jobs; route = g.route }
show_refusal-Good (throw e) s g = record { jobs = g.jobs; route = g.route }

bootstrapped-Good :
    {es : List AdminEvent} (typed address secret : Text) (reply : Result Upstream) (s : AdminScreen)
    → Submitted es typed
    → Good es s
    → Good (answered reply ∷ es) (bootstrapped typed address secret reply s)
unfolding bootstrapped
bootstrapped-Good typed address secret (throw x) s t g =
    let h = later-Good (answered (throw x)) g in record { jobs = h.jobs; route = h.route }
bootstrapped-Good {es} typed address secret (ok res) s t g =
    let h = later-Good (answered (ok res)) g in
    if_either (Good (answered (ok res) ∷ es)) (not (is_ok res.status)) _ _
      (λ _. show_refusal-Good (save_failure res) s h)
      (λ success. record {
        jobs =
            All-snoc (IsJob _) s.in_flight _ h.jobs
              ((res, Memᴰ.head refl, not-false (is_ok res.status) success), before _ t);
        route = h.route;
      })

sign_in_path-encoded :
    (typed path : Text)
    → sign_in_path typed ≡ ok path
    → (encoded : Text) × (encode_uri_component typed ≡ ok encoded)
      × (path ≡ lit "/sign-in?email=" ++ encoded)
unfolding sign_in_path
sign_in_path-encoded typed path e =
    let (encoded, c, made) = >>=-eq-ok (encode_uri_component typed) _ e in
    (encoded, c, sym (ok-injective made))

go_to-Good :
    {es : List AdminEvent} (typed : Text) (p : Result Text) (s : AdminScreen)
    → sign_in_path typed ≡ p
    → Created es
    → Submitted es typed
    → Memᴰ (sign_in_ended (ok true)) es
    → Good es s
    → Good es (go_to p s)
go_to-Good typed (ok path) s e c t m g =
    let (encoded, enc, same) = sign_in_path-encoded typed path e in
    record { jobs = g.jobs; route = (c, inr (typed, encoded, t, enc, same, m)) }
go_to-Good typed (throw x) s e c t m g = record { jobs = g.jobs; route = g.route }

signed_in-Good :
    {es : List AdminEvent} (typed : Text) (failed : Result Bool) (s : AdminScreen)
    → Created es
    → Submitted es typed
    → Good es s
    → Good (sign_in_ended failed ∷ es) (signed_in typed failed s)
unfolding signed_in
signed_in-Good typed (throw x) s c t g =
    let h = later-Good (sign_in_ended (throw x)) g in record { jobs = h.jobs; route = h.route }
signed_in-Good {es} typed (ok true) s c t g =
    go_to-Good typed (sign_in_path typed) s refl (later-Created _ es c) (before _ t)
      (Memᴰ.head refl) (later-Good (sign_in_ended (ok true)) g)
signed_in-Good {es} typed (ok false) s c t g =
    let h = later-Good (sign_in_ended (ok false)) g in
    record { jobs = h.jobs; route = (later-Created _ es c, inl (refl, Memᴰ.head refl)) }

settle_answer-Good :
    {es : List AdminEvent} (js : List AdminJob) (reply : Result Upstream) (s : AdminScreen)
    → s.in_flight ≡ js
    → Good es s
    → Good (answered reply ∷ es) (settle_answer js reply s)
settle_answer-Good [] reply s e g = later-Good (answered reply) g
settle_answer-Good (signing_in typed address secret ∷ rest) reply s e g =
    later-Good (answered reply) g
settle_answer-Good {es} (creating body typed address secret ∷ rest) reply s e g =
    let jobs : All (IsJob es) (creating body typed address secret ∷ rest) = rw e at g.jobs in
    bootstrapped-Good typed address secret reply _ jobs.0
      (record { jobs = jobs.1; route = g.route })

settle_sign_in-Good :
    {es : List AdminEvent} (js : List AdminJob) (failed : Result Bool) (s : AdminScreen)
    → s.in_flight ≡ js
    → Good es s
    → Good (sign_in_ended failed ∷ es) (settle_sign_in js failed s)
settle_sign_in-Good [] failed s e g = later-Good (sign_in_ended failed) g
settle_sign_in-Good (creating body typed address secret ∷ rest) failed s e g =
    later-Good (sign_in_ended failed) g
settle_sign_in-Good {es} (signing_in typed address secret ∷ rest) failed s e g =
    let jobs : All (IsJob es) (signing_in typed address secret ∷ rest) = rw e at g.jobs in
    signed_in-Good typed failed _ jobs.0.0 jobs.0.1 (record { jobs = jobs.1; route = g.route })

submit-Good :
    {es : List AdminEvent} (nfd lower : Text → Text) (s : AdminScreen)
    → Submitted es s.form.email
    → Good es s
    → Good es (submit nfd lower s)
unfolding submit
submit-Good {es} nfd lower s t g =
    if_either (Good es) (not (passwords_match s.form)) _ _
      (λ _. record { jobs = g.jobs; route = g.route })
      (λ _. record { jobs = All-snoc (IsJob es) s.in_flight _ g.jobs t; route = g.route })

admin_react-Good :
    {es : List AdminEvent} (nfd lower : Text → Text) (e : AdminEvent) (s : AdminScreen)
    → s.form.email ≡ typed_email es
    → Good es s
    → Good (e ∷ es) (admin_react nfd lower e s)
unfolding admin_react
admin_react-Good nfd lower (typed_in k v) s t g =
    let h = later-Good (typed_in k v) g in record { jobs = h.jobs; route = h.route }
admin_react-Good {es} nfd lower submitted s t g =
    let h = later-Good submitted g in
    if_either (Good (submitted ∷ es)) (submit_enabled s) _ s
      (λ _. submit-Good nfd lower s (subst (Submitted (submitted ∷ es)) (sym t) now) h) (λ _. h)
admin_react-Good nfd lower (answered reply) s t g = settle_answer-Good s.in_flight reply s refl g
admin_react-Good nfd lower (sign_in_ended failed) s t g =
    settle_sign_in-Good s.in_flight failed s refl g

Reached-Good :
    {nfd lower : Text → Text} {es : List AdminEvent} {s : AdminScreen}
    → Reached nfd lower es s
    → Good es s
unfolding blank admin_step
Reached-Good begin = record { jobs = tt; route = tt }
Reached-Good {nfd} {lower} (then_on {es = es} {s = s} e r) =
    if_either (Good (e ∷ es)) s.crashed s _ (λ _. later-Good e (Reached-Good r))
      (λ alive. admin_react-Good nfd lower e s (Reached-email r alive) (Reached-Good r))

route_of :
    (es : List AdminEvent) (r : Option Text) (path : Text)
    → RouteFrom es r
    → r ≡ some path
    → Created es × LeadsTo es path
route_of es none path h e = cc
route_of es (some p) path h e = let same : p ≡ path = cc in rw (← same) h

-- After any events, the wizard leaves step 1 only if the set-up route has answered with a success.
-- It goes to step 2 after a sign-in without an error. After one with an error it goes to the sign-in page,
-- and the query has the text, encoded, that the field of the address held when the form was submitted.
pub Reached-Created :
    {nfd lower : Text → Text} {es : List AdminEvent} {s : AdminScreen}
    → Reached nfd lower es s
    → (path : Text) → s.route ≡ some path
    → Created es × LeadsTo es path
Reached-Created {es = es} {s = s} r path e = route_of es s.route path (Reached-Good r).route e
