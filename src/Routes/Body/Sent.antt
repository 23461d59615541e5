-- ===== src/Routes/Body/Sent.antt =====
-- Which requests a handler can send, read off its steps.
use leakshield.Base.{String, ◌≡◌, refl, Bool, true, false, All, if◌then◌else◌}
use leakshield.Base.Result.{Result, ok, throw}
use leakshield.Js.Json.{Json, get, has_key}
use leakshield.Js.Http.{HttpRequest, Outcome, ◌>=>◌}
use leakshield.Proxy.{read_json_body}
use leakshield.Routes.Body.{refuse, with_body}

module _ (P : HttpRequest → Type 0) where
  pub >=>-sent {ℓ} :
      {A : Type ℓ} (m : Result A) (f : A → Outcome)
      → ((a : A) → m ≡ ok a → All P (f a).sent)
      → All P (m >=> f).sent
  >=>-sent (ok a) f h = h a refl
  >=>-sent (throw e) f h = tt

  pub refuse-sent : (message : String) → All P (refuse message).sent
  unfolding refuse
  refuse-sent message = tt

  pub if-sent :
      (b : Bool) (x y : Outcome)
      → (b ≡ true → All P x.sent)
      → (b ≡ false → All P y.sent)
      → All P (if b then x else y).sent
  if-sent true x y h k = h refl
  if-sent false x y h k = k refl

  -- The rest of a handler sees the parsed body, or the object that stands for a failed parse.
  pub with_body-sent_at :
      (parsed : Result Json) (rest : Json → Outcome)
      → All P (rest (read_json_body parsed)).sent
      → All P (with_body parsed rest).sent
  unfolding with_body
  with_body-sent_at parsed rest h = >=>-sent (has_key "__error" (read_json_body parsed)) _ (λ bad e.
      if-sent bad _ _ (λ _. >=>-sent (get (read_json_body parsed) "__error") _ (λ v _. tt))
        (λ _. h))

  pub with_body-sent :
      (parsed : Result Json) (rest : Json → Outcome)
      → ((body : Json) → All P (rest body).sent)
      → All P (with_body parsed rest).sent
  with_body-sent parsed rest h = with_body-sent_at parsed rest (h (read_json_body parsed))
