-- ===== src/Setup/Entry/Routing.antt =====
-- The root page against the sign-in page, and both against what the gateway has said.
use text.Mathlib.TextEquality.{eq_iff}
use leakshield.Base.{String, ◌↔◌, ◌≡◌, refl, Bool, true, false, Option, none, some, arith}
use leakshield.Base.Result.{Result, ok, throw, >>=-eq-ok, ok-injective, ◌>>=◌}
use leakshield.Js.Json.{Json, null, obj, bool, num, str, arr, lookup, get, truthy}
use leakshield.Js.Http.{Upstream, Server, is_ok}
use leakshield.Setup.Probe.{
  SetupStatus, reachable, unreachable, probe_request, read_status, probe_response, catch_probe,
  fetch_setup_status, truthy_option, is_not_false,
}
use leakshield.Setup.Entry.{root_index, form, sign_in_page}

not_sign_in : ◌≡◌ {A = String} "/onboarding/1" "/sign-in" → ⊥
not_sign_in e = ground (arith, eq_iff "/onboarding/1" "/sign-in")

-- The gateway has said, in a successful answer, that there is an admin.
pub record Confirmed (srv : Server) : Type 0 where
  pub res : Upstream
  pub answered : srv.fetch (probe_request srv) ≡ ok res
  pub success : is_ok res.status ≡ true
  pub document : Json
  pub parsed : res.json ≡ ok document
  pub admin : Json
  pub listed : get document "has_admin" ≡ ok (some admin)
  pub set : truthy admin ≡ true

truthy_option-some :
    (o : Option Json) → truthy_option o ≡ true → (v : Json) × (o ≡ some v) × (truthy v ≡ true)
truthy_option-some none h = cc
truthy_option-some (some v) h = (v, refl, h)

read_status-admin :
    (v : Json) (accepts : Bool)
    → read_status v ≡ ok (reachable true accepts)
    → (admin : Json) × (get v "has_admin" ≡ ok (some admin)) × (truthy admin ≡ true)
unfolding read_status
read_status-admin v accepts e =
    let (found, got, rest) = >>=-eq-ok (get v "has_admin") _ e in
    let (last, _, made) = >>=-eq-ok (get v "accepts_bootstrap") _ rest in
    let set : truthy_option found ≡ true = cc made in
    let (admin, same, true_admin) = truthy_option-some found set in
    (admin, rw same at got, true_admin)

probe_response-admin :
    (res : Upstream) (accepts : Bool)
    → probe_response res ≡ ok (reachable true accepts)
    → (is_ok res.status ≡ true) × ((res.json >>= read_status) ≡ ok (reachable true accepts))
unfolding probe_response
probe_response-admin res accepts e = ground arith

catch_probe-reachable :
    (srv : Server) (m : Result SetupStatus) (a b : Bool)
    → catch_probe srv m ≡ reachable a b
    → m ≡ ok (reachable a b)
unfolding catch_probe
catch_probe-reachable srv (ok s) a b e = cc
catch_probe-reachable srv (throw x) a b e = cc

-- The panel believes that there is an admin only if the gateway answered the probe with a success
-- whose document lists a truthy `has_admin`.
pub fetch_setup_status-Confirmed :
    (srv : Server) (accepts : Bool)
    → fetch_setup_status srv ≡ reachable true accepts
    → Confirmed srv
unfolding fetch_setup_status
fetch_setup_status-Confirmed srv accepts e =
    let (res, answered, probed) =
      >>=-eq-ok (srv.fetch (probe_request srv)) _ (catch_probe-reachable srv _ true accepts e) in
    let (success, read) = probe_response-admin res accepts probed in
    let (document, parsed, status) = >>=-eq-ok res.json _ read in
    let (admin, listed, set) = read_status-admin document accepts status in
    record {
      res = res;
      answered = answered;
      success = success;
      document = document;
      parsed = parsed;
      admin = admin;
      listed = listed;
      set = set;
    }

-- A confirmed admin is read from the answer.
read-Confirmed :
    (document admin : Json)
    → get document "has_admin" ≡ ok (some admin)
    → truthy admin ≡ true
    → (a : Bool) × (read_status document ≡ ok (reachable true a))
unfolding read_status get
read-Confirmed null admin h t = cc
read-Confirmed (obj fs) admin h t =
    let same : lookup "has_admin" fs ≡ some admin = ok-injective h in
    (is_not_false (lookup "accepts_bootstrap" fs), rw (same, t) refl)
read-Confirmed (bool b) admin h t = cc
read-Confirmed (num n) admin h t = cc
read-Confirmed (str v) admin h t = cc
read-Confirmed (arr xs) admin h t = cc

Confirmed-reachable :
    (srv : Server) → Confirmed srv → (a : Bool) × (fetch_setup_status srv ≡ reachable true a)
unfolding fetch_setup_status probe_response catch_probe
Confirmed-reachable srv c =
    let (a, read) = read-Confirmed c.document c.admin c.listed c.set in
    (a, rw (c.answered, c.success, c.parsed, read) refl)

reachable_iff :
    (srv : Server)
    → (P : SetupStatus → Type 0) → ((s : SetupStatus) → P s → (a : Bool) × (s ≡ reachable true a))
    → ((a : Bool) → P (reachable true a))
    → P (fetch_setup_status srv) ↔ Confirmed srv
reachable_iff srv P to back = (
  λ h. (let (a, same) = to (fetch_setup_status srv) h in fetch_setup_status-Confirmed srv a same),
  λ c. (let (a, same) = Confirmed-reachable srv c in rw same (back a)),
)

root-first_time :
    (s : SetupStatus) → root_index false s ≡ "/sign-in" → (a : Bool) × (s ≡ reachable true a)
unfolding root_index
root-first_time (reachable true a) e = (a, refl)
root-first_time (reachable false a) e = absurd (not_sign_in e)
root-first_time (unreachable why) e = absurd (not_sign_in e)

page-first_time :
    (s : SetupStatus) → sign_in_page s ≡ form "/sign-in/reset" → (a : Bool) × (s ≡ reachable true a)
unfolding sign_in_page
page-first_time (reachable true a) e = (a, refl)
page-first_time (reachable false a) e = cc
page-first_time (unreachable why) e = cc

-- The root page and the sign-in page ask the gateway separately. The first sends a signed-out visitor to
-- the second exactly if the gateway tells it, by a successful answer, that there is an admin; and the
-- second shows its form exactly if the gateway tells it so, in the answer to its own request.
pub sign_in_iff :
    (at_root at_sign_in : Server)
    → ((root_index false (fetch_setup_status at_root) ≡ "/sign-in") ↔ Confirmed at_root)
      × ((sign_in_page (fetch_setup_status at_sign_in) ≡ form "/sign-in/reset")
          ↔ Confirmed at_sign_in)
unfolding root_index sign_in_page
sign_in_iff at_root at_sign_in = (
  reachable_iff at_root (λ s. root_index false s ≡ "/sign-in") root-first_time (λ a. refl),
  reachable_iff at_sign_in (λ s. sign_in_page s ≡ form "/sign-in/reset") page-first_time
      (λ a. refl),
)
