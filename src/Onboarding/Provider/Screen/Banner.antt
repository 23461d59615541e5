-- ===== src/Onboarding/Provider/Screen/Banner.antt =====
-- The banner of step 2 against the gateway, by way of the route for the state of the set-up.
use leakshield.Base.{
  ◌≡◌, ◌≢◌, ◌↔◌, refl, sym, ◌∙◌, true, false, none, arith, Bool-cases, inl, inr, ◌==◌,
}
use leakshield.Base.Result.{Result, ok, throw, ◌>>=◌}
use leakshield.Js.Json.{Json, null, bool, num, str, arr, obj, get, lookup}
use leakshield.Js.Http.{Server, Upstream, is_ok, json_response}
use leakshield.Setup.Probe.{
  SetupStatus, reachable, unreachable, fetch_setup_status, probe_request, probe_response,
  read_status, catch_probe,
}
use leakshield.Setup.Status.{status_body, setup_status}
use leakshield.Onboarding.Provider.Screen.{Screen, banner_of, probed, react, step}

-- The gateway answers the probe by a success with any document but `null`, or by a 404.
pub data IsUp (srv : Server) : Type 0 where
  documented :
      (answer : Upstream) (v : Json)
      → srv.fetch (probe_request srv) ≡ ok answer
      → is_ok answer.status ≡ true
      → answer.json ≡ ok v
      → v ≢ null
      → IsUp srv
  missing :
      (answer : Upstream)
      → srv.fetch (probe_request srv) ≡ ok answer
      → answer.status ≡ 404
      → IsUp srv

abbrev IsReachable : SetupStatus → Type 0
IsReachable (reachable _ _) = Unit
IsReachable (unreachable _) = ⊥

probed-banner :
    (res : Upstream) (s : Screen)
    → s.crashed ≡ false
    → (step (probed (ok res)) s).demo_banner ≡ banner_of (ok res)
unfolding step react
probed-banner res s c = rw c refl

banner_iff :
    (st : SetupStatus) (res : Upstream)
    → res.json ≡ ok (status_body st)
    → (banner_of (ok res) ≡ none) ↔ IsReachable st
unfolding banner_of status_body get lookup
banner_iff (reachable a b) res e = rw e (λ _. tt, λ _. refl)
banner_iff (unreachable why) res e = rw e (λ w. cc, λ w. absurd w)

document-up :
    (srv : Server) (answer : Upstream) (j : Result Json)
    → srv.fetch (probe_request srv) ≡ ok answer
    → is_ok answer.status ≡ true
    → answer.json ≡ j
    → IsReachable (catch_probe srv (j >>= read_status))
    → IsUp srv
unfolding catch_probe read_status get
document-up srv answer (throw e) f o j h = absurd h
document-up srv answer (ok null) f o j h = absurd h
document-up srv answer (ok (bool b)) f o j h = documented answer (bool b) f o j (λ n. cc)
document-up srv answer (ok (num n)) f o j h = documented answer (num n) f o j (λ n. cc)
document-up srv answer (ok (str s)) f o j h = documented answer (str s) f o j (λ n. cc)
document-up srv answer (ok (arr xs)) f o j h = documented answer (arr xs) f o j (λ n. cc)
document-up srv answer (ok (obj fs)) f o j h = documented answer (obj fs) f o j (λ n. cc)

answer-up :
    (srv : Server) (reply : Result Upstream)
    → srv.fetch (probe_request srv) ≡ reply
    → IsReachable (catch_probe srv (reply >>= probe_response))
    → IsUp srv
unfolding catch_probe probe_response
answer-up srv (throw e) f h = absurd h
answer-up srv (ok answer) f h = elim (Bool-cases (is_ok answer.status)) [
  | inl o ↦ document-up srv answer answer.json f o refl (rw o at h)
  | inr n ↦ elim (Bool-cases (answer.status == 404)) [
    | inl m ↦ missing answer f (ground arith)
    | inr k ↦ absurd (let h' = rw (n, k) at h in h')
  ]
]

read-IsReachable :
    (srv : Server) (v : Json) → v ≢ null → IsReachable (catch_probe srv (read_status v))
unfolding catch_probe read_status get
read-IsReachable srv null h = absurd (h refl)
read-IsReachable srv (bool b) h = tt
read-IsReachable srv (num n) h = tt
read-IsReachable srv (str s) h = tt
read-IsReachable srv (arr xs) h = tt
read-IsReachable srv (obj fs) h = tt

up-IsReachable : (srv : Server) → IsUp srv → IsReachable (fetch_setup_status srv)
unfolding fetch_setup_status probe_response catch_probe
up-IsReachable srv (documented answer v f o j n) = rw (f, o, j) (read-IsReachable srv v n)
up-IsReachable srv (missing answer f m) = rw (f, m) tt

reachable-up : (srv : Server) → IsReachable (fetch_setup_status srv) → IsUp srv
unfolding fetch_setup_status
reachable-up srv h = answer-up srv (srv.fetch (probe_request srv)) refl h

-- The route for the state of the set-up always answers. Once the browser has its document, the screen
-- that has not crashed shows no banner exactly if the gateway answers the probe by a success with any
-- document but `null`, or by a 404.
pub probed-banner_iff :
    (srv : Server) (res : Upstream) (s : Screen)
    → res.json ≡ ok (status_body (fetch_setup_status srv))
    → s.crashed ≡ false
    → ((setup_status srv).result
        ≡ ok (record { status = 200; body = status_body (fetch_setup_status srv) }))
      × (((step (probed (ok res)) s).demo_banner ≡ none) ↔ IsUp srv)
unfolding setup_status json_response
probed-banner_iff srv res s e c =
    let (to, back) = banner_iff (fetch_setup_status srv) res e in
    let shown = probed-banner res s c in
    (refl, (λ h. reachable-up srv (to (sym shown ∙ h)), λ u. shown ∙ back (up-IsReachable srv u)))
