-- ===== src/Onboarding/User/Issued/Answers.antt =====
-- Step3UserClient: which answers reveal a key.
use mathlib.Core.List.{Memᴰ}
use leakshield.Base.{ℕ, ◌≡◌, refl, Bool, true, false, Option, none, some, List, [], ◌∷◌, ap, sym}
use leakshield.Base.Result.{Result, ok, throw, ◌>>=◌, >>=-eq-ok}
use leakshield.Js.Text.{Text}
use leakshield.Js.Json.{Json, get, given, or_else, str, to_string}
use leakshield.Js.Json.Given.{given-some}
use leakshield.Js.Http.{Upstream, is_ok}
use leakshield.Proxy.{json_or_empty}
use leakshield.Onboarding.User.{
  IssuedKey, KeyEvent, Reaction, complaint, created_or, creation_reply, issue_reply, issued_key,
  replied, reveal, revealed_or,
}
use leakshield.Onboarding.User.Issued.{Revealed}

complaint-unrevealed :
    (v : Json) (what : Text) (status : ℕ) (key : IssuedKey)
    → complaint v what status ≡ ok (reveal key)
    → ⊥
complaint-unrevealed v what status key e =
    let (demo, _, rest) = >>=-eq-ok (get v "demo") _ e in
    let (why, _, last) = >>=-eq-ok (get v "error") _ rest in cc last

created_or-unrevealed :
    (i : Option Json) (b : Bool) (r : Result Reaction) (key : IssuedKey)
    → (r ≡ ok (reveal key) → ⊥)
    → created_or i b r ≡ ok (reveal key)
    → ⊥
created_or-unrevealed (some x) true r key h e = cc
created_or-unrevealed (some x) false r key h e = h e
created_or-unrevealed none true r key h e = h e
created_or-unrevealed none false r key h e = h e

pub creation_reply-unrevealed :
    (reply : Result Upstream) (key : IssuedKey) → (reply >>= creation_reply) ≡ ok (reveal key) → ⊥
unfolding creation_reply
creation_reply-unrevealed (throw x) key e = cc
creation_reply-unrevealed (ok res) key e =
    let (user_id, _, rest) = >>=-eq-ok (get (json_or_empty res.json) "id") _ e in
    created_or-unrevealed (given user_id) (is_ok res.status) _ key
      (complaint-unrevealed (json_or_empty res.json) _ res.status key) rest

issued_key-plaintext :
    (v plaintext : Json) (key : IssuedKey)
    → issued_key v plaintext ≡ ok key
    → key.plaintext ≡ plaintext
unfolding issued_key
issued_key-plaintext v plaintext key e =
    let (a, _, e1) = >>=-eq-ok (get v "id") _ e in
    let (_, _, e2) = >>=-eq-ok (to_string (or_else a (str []))) _ e1 in
    let (b, _, e3) = >>=-eq-ok (get v "prefix") _ e2 in
    let (_, _, e4) = >>=-eq-ok (to_string (or_else b (str []))) _ e3 in
    let (_, _, e5) = >>=-eq-ok (get v "allowed_providers") _ e4 in
    let (_, _, e6) = >>=-eq-ok (get v "allowed_models") _ e5 in cc e6

revealed_or-issued :
    (v : Json) (i : Option Json) (b : Bool) (r : Result Reaction) (key : IssuedKey)
    → (r ≡ ok (reveal key) → ⊥)
    → revealed_or v i b r ≡ ok (reveal key)
    → (b ≡ true) × (i ≡ some key.plaintext)
revealed_or-issued v (some x) true r key h e =
    let (k, made, same) = >>=-eq-ok (issued_key v x) _ e in
    let it : k ≡ key = cc in (refl, ap some (sym (issued_key-plaintext v x key (rw it at made))))
revealed_or-issued v (some x) false r key h e = absurd (h e)
revealed_or-issued v none true r key h e = absurd (h e)
revealed_or-issued v none false r key h e = absurd (h e)

pub issue_reply-Revealed :
    (es : List KeyEvent) (reply : Result Upstream) (key : IssuedKey)
    → (reply >>= issue_reply) ≡ ok (reveal key)
    → Revealed (replied reply ∷ es) key
unfolding issue_reply
issue_reply-Revealed es (throw x) key e = cc
issue_reply-Revealed es (ok res) key e =
    let (found, got, rest) = >>=-eq-ok (get (json_or_empty res.json) "plaintext") _ e in
    let (success, same) =
      revealed_or-issued (json_or_empty res.json) (given found) (is_ok res.status) _ key
        (complaint-unrevealed (json_or_empty res.json) _ res.status key) rest in
    let (v, set) = given-some found key.plaintext same in
    record {
      res = res;
      arrived = Memᴰ.head refl;
      success = success;
      listed = rw v at got;
      set = set;
    }
