-- ===== src/Onboarding/Account/Vouched.antt =====
-- For whom a personal key is requested.
use leakshield.Base.{
  ◌≡◌, refl, sym, ap, ◌∙◌, ◌⊎◌, inl, inr, true, Option, none, some, [], ◌∷◌, if_either,
  if◌then◌else◌,
}
use leakshield.Base.Result.{Result, ok, throw, ◌>>=◌, >>=-eq-ok, ok-injective}
use leakshield.Js.Text.{Text, lit, nonempty}
use leakshield.Js.Json.{Json, str, get, given, to_string, truthy}
use leakshield.Js.Http.{Upstream, Server, is_ok}
use leakshield.Proxy.{token_of}
use leakshield.Onboarding.User.{KeyScreen, handle_generate_mine, issue_key_for, generate_for}
use leakshield.Onboarding.User.{Me, my_id}
use leakshield.Onboarding.Account.{
  SessionUser, MeData, session_me, session_field, string_or_session, tenant_of, me_request, make_me,
  with_id, with_user, with_data, me_response, swallow, load_me, fallback_me, me_or, step3_user,
  user_of,
}

-- The gateway has answered the request that bears the visitor's token by a success, with a document
-- whose user has an id, and this is its text.
pub record IsVouched (srv : Server) (id : Json) : Type 0 where
  pub token : Text
  pub res : Upstream
  pub document : Json
  pub user : Json
  pub user_id : Json
  pub text : Text
  pub has_token : token_of srv ≡ some token
  pub answered : srv.fetch (me_request srv token) ≡ ok res
  pub succeeded : is_ok res.status ≡ true
  pub read : res.json ≡ ok document
  pub found : (get document "user" >>= λ u. ok (given u)) ≡ ok (some user)
  pub identified : (get user "id" >>= λ v. ok (given v)) ≡ ok (some user_id)
  pub spelled : to_string user_id ≡ ok text
  pub same : id ≡ str text

make_me-id :
    (session : Option SessionUser) (document user id : Json) (m : MeData)
    → make_me session document user id ≡ ok m
    → (text : Text) × (to_string id ≡ ok text) × (m.user.id ≡ some (str text))
unfolding make_me
make_me-id session document user id m e =
    let (text, spelled, e1) = >>=-eq-ok (to_string id) _ e in
    let (email, h2, e2) = >>=-eq-ok (get user "email") _ e1 in
    let (email_text, h3, e3) =
      >>=-eq-ok (string_or_session email (session_field session (λ u. u.email))) _ e2 in
    let (name, h4, e4) = >>=-eq-ok (get user "name") _ e3 in
    let (name_text, h5, e5) =
      >>=-eq-ok (string_or_session name (session_field session (λ u. u.name))) _ e4 in
    let (role, h6, e6) = >>=-eq-ok (get user "role") _ e5 in
    let (tenant, h7, e7) = >>=-eq-ok (get document "tenant") _ e6 in
    let (tenant_data, h8, e8) = >>=-eq-ok (tenant_of (given tenant)) _ e7 in
    (text, spelled, sym (ap (λ r. r.user.id) (ok-injective e8)))

found_of_user :
    (session : Option SessionUser) (document user : Json) (id : Option Json) (m : MeData)
    → with_id session document user id ≡ ok (some m)
    → (v : Json) × (text : Text) × (id ≡ some v)
      × (to_string v ≡ ok text)
      × (m.user.id ≡ some (str text))
found_of_user session document user none m e = cc
found_of_user session document user (some id) m e =
    let (m', made, last) = >>=-eq-ok (make_me session document user id) _ e in
    let (text, spelled, same) = make_me-id session document user id m' made in
    let equal : m' ≡ m = cc in (id, text, refl, spelled, rw (← equal) same)

abbrev IdOf : Json → MeData → Type 0
IdOf user m =
    (v : Json) × (text : Text) × ((get user "id" >>= λ i. ok (given i)) ≡ ok (some v))
    × (to_string v ≡ ok text)
    × (m.user.id ≡ some (str text))

found_of_document :
    (session : Option SessionUser) (document : Json) (user : Option Json) (m : MeData)
    → with_user session document user ≡ ok (some m)
    → (u : Json) × (user ≡ some u) × IdOf u m
found_of_document session document none m e = cc
found_of_document session document (some user) m e =
    let (id, got, last) = >>=-eq-ok (get user "id") _ e in
    let (v, text, truthy_id, spelled, same) =
      found_of_user session document user (given id) m last in
    (user, refl, (v, text, rw (got, truthy_id) refl, spelled, same))

given_of : (v : Json) → (given (some v) ≡ some v) ⊎ (given (some v) ≡ none)
unfolding given
given_of v =
    if_either {A = Option Json} (λ o. (o ≡ some v) ⊎ (o ≡ none)) (truthy v) _ _ (λ e. inl refl)
      (λ n. inr refl)

abbrev Found : Json → MeData → Type 0
Found document m =
    (u : Json) × ((get document "user" >>= λ v. ok (given v)) ≡ ok (some u)) × IdOf u m

with_data-Found :
    (session : Option SessionUser) (document : Json) (m : MeData)
    → with_data session (given (some document)) ≡ ok (some m)
    → Found document m
with_data-Found session document m e = elim (given_of document) [
  | inl there ↦
      let shown : with_data session (some document) ≡ ok (some m) = rw there at e in
      let (user, got, last) = >>=-eq-ok (get document "user") _ shown in
      let (u, truthy_user, identity) = found_of_document session document (given user) m last in
      (u, rw (got, truthy_user) refl, identity)
  | inr absent ↦
      let wrong : ◌≡◌ {A = Result (Option MeData)} (ok none) (ok (some m)) = rw absent at e in cc
]

me_response-Found :
    (session : Option SessionUser) (res : Upstream) (m : MeData)
    → me_response session res ≡ ok (some m)
    → (is_ok res.status ≡ true) × ((document : Json) × (res.json ≡ ok document) × Found document m)
unfolding me_response
me_response-Found session res m =
    if_either {A = Result (Option MeData)}
      (λ r.
        r ≡ ok (some m)
        → (is_ok res.status ≡ true)
          × ((document : Json) × (res.json ≡ ok document) × Found document m))
      (is_ok res.status) _ _
      (λ success e.
        let (document, read, last) = >>=-eq-ok res.json _ e in
        (success, (document, read, with_data-Found session document m last)))
      (λ n e. cc)

swallow-eq-some : (r : Result (Option MeData)) (m : MeData) → swallow r ≡ some m → r ≡ ok (some m)
swallow-eq-some (ok o) m e = ap ok e
swallow-eq-some (throw x) m e = cc

given-str : (text : Text) (id : Json) → given (some (str text)) ≡ some id → id ≡ str text
given-str text id e = elim (given_of (str text)) [
  | inl there ↦ let same : some (str text) ≡ some id = sym there ∙ e in cc
  | inr absent ↦ let wrong : ◌≡◌ {A = Option Json} none (some id) = sym absent ∙ e in cc
]

load_me-IsVouched :
    (srv : Server) (session : Option SessionUser) (m : MeData) (id : Json) (o : Option Text)
    → token_of srv ≡ o
    → elim o [
      | none ↦ none
      | some token ↦ swallow (srv.fetch (me_request srv token) >>= me_response session)
    ]
      ≡ some m
    → given m.user.id ≡ some id
    → IsVouched srv id
load_me-IsVouched srv session m id none t e g = cc
load_me-IsVouched srv session m id (some token) t e g =
    let (res, answered, last) =
      >>=-eq-ok (srv.fetch (me_request srv token)) (me_response session) (swallow-eq-some _ m e) in
    let (success, (document, read, (user, found, (user_id, text, identified, spelled, same)))) =
      me_response-Found session res m last in
    record {
      token = token;
      res = res;
      document = document;
      user = user;
      user_id = user_id;
      text = text;
      has_token = t;
      answered = answered;
      succeeded = success;
      read = read;
      found = found;
      identified = identified;
      spelled = spelled;
      same = given-str text id (rw same at g);
    }

fallback-id :
    (u : SessionUser) (e : Option Text)
    → my_id (
        user_of (elim e [
          | none ↦ none
          | some email ↦ if nonempty email then some (session_me u email) else none
        ]))
      ≡ none
unfolding my_id given truthy
fallback-id u none = refl
fallback-id u (some []) = refl
fallback-id u (some (c ∷ email)) = refl

fallback_me-id : (session : Option SessionUser) → my_id (user_of (fallback_me session)) ≡ none
unfolding fallback_me my_id
fallback_me-id none = refl
fallback_me-id (some u) = fallback-id u u.email

by_source :
    (srv : Server) (session : Option SessionUser) (id : Json) (o : Option MeData)
    → load_me srv session ≡ o
    → my_id (user_of (me_or o (fallback_me session))) ≡ some id
    → IsVouched srv id
unfolding load_me my_id
by_source srv session id none l e =
    let wrong : ◌≡◌ {A = Option Json} none (some id) = sym (fallback_me-id session) ∙ e in cc
by_source srv session id (some m) l e = load_me-IsVouched srv session m id (token_of srv) refl l e

step3_user-id :
    (srv : Server) (session : Option SessionUser) (id : Json)
    → my_id (user_of (step3_user srv session)) ≡ some id
    → IsVouched srv id
unfolding step3_user
step3_user-id srv session id e = by_source srv session id (load_me srv session) refl e

generated :
    (srv : Server) (me : Option Me) (s : KeyScreen) (o : Option Json)
    → ((id : Json) → o ≡ some id → IsVouched srv id)
    → ((generate_for o s).in_flight ≡ s.in_flight)
      ⊎ ((id : Json) × IsVouched srv id
          × (generate_for o s ≡ issue_key_for id (lit "Personal admin key") s))
generated srv me s none h = inl refl
generated srv me s (some id) h = inr (id, h id refl, refl)

-- A click for a personal key, on the screen that is given what the server has loaded, sends no request,
-- or it starts the issue of a key for the id that the gateway's answer to the visitor's token holds.
pub step3_user-IsVouched :
    (srv : Server) (session : Option SessionUser) (s : KeyScreen)
    → let clicked : KeyScreen = handle_generate_mine (user_of (step3_user srv session)) s in
      (clicked.in_flight ≡ s.in_flight)
      ⊎ ((id : Json) × IsVouched srv id × (clicked ≡ issue_key_for id (lit "Personal admin key") s))
unfolding handle_generate_mine
step3_user-IsVouched srv session s =
    generated srv (user_of (step3_user srv session)) s _ (step3_user-id srv session)
