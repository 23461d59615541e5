-- ===== src/Logs/Buffer.antt =====
-- panel/hooks/use-log-stream.ts, the buffer: against the list of the entries that arrived.
use leakshield.Base.{
  length-take_le, ℕ, zero, suc, ◌≤◌, ◌≡◌, refl, sym, ap, ◌∙◌, Bool, true, false, List, [], ◌∷◌,
  length, take, ltb, arith, if◌then◌else◌, Bool-cases, inl, inr,
}
use leakshield.Base.Result.{Result, ok, throw}
use leakshield.Js.Json.{Json}
use leakshield.Logs.{
  LogStream, StreamEvent, message, on_message, opened, push_entry, scrolled, set_paused,
  source_failed, source_opened, stream_run, stream_step,
}

-- The entries that arrive while the table is not paused, the latest first, after those before: only
-- the parsed messages count, and only scrolling pauses.
abbrev pub arrived : Bool → List StreamEvent → List Json → List Json
arrived paused [] before = before
arrived paused (source_opened ∷ es) before = arrived paused es before
arrived paused (source_failed ∷ es) before = arrived paused es before
arrived paused (message (throw _) ∷ es) before = arrived paused es before
arrived paused (message (ok v) ∷ es) before =
    arrived paused es (if paused then before else v ∷ before)
arrived paused (scrolled scroll_top ∷ es) before = arrived (ltb 16 scroll_top) es before

take_of_le : (n : ℕ) (xs : List Json) → length xs ≤ n → take n xs ≡ xs
take_of_le zero [] h = refl
take_of_le zero (x ∷ xs) h = absurd (omega arith)
take_of_le (suc n) [] h = refl
take_of_le (suc n) (x ∷ xs) h = ap (λ ys. x ∷ ys) (take_of_le n xs (omega arith))

take-take : (n : ℕ) (xs : List Json) → take n (take (suc n) xs) ≡ take n xs
take-take zero xs = refl
take-take (suc n) [] = refl
take-take (suc n) (x ∷ xs) = ap (λ ys. x ∷ ys) (take-take n xs)

take-push : (n : ℕ) (v : Json) (xs : List Json) → take n (v ∷ take n xs) ≡ take n (v ∷ xs)
take-push zero v xs = refl
take-push (suc n) v xs = ap (λ ys. v ∷ ys) (take-take n xs)

push_entry-take : (n : ℕ) (v : Json) (xs : List Json) → push_entry n v xs ≡ take n (v ∷ xs)
unfolding push_entry
push_entry-take n v xs = elim (Bool-cases (ltb n (length (v ∷ xs)))) [
  | inl e ↦ rw e refl
  | inr e ↦ rw e (sym (take_of_le n (v ∷ xs) (ground arith)))
]

-- The buffer of a stream against a list of entries that it is the front of.
record Holds (n : ℕ) (all : List Json) (s : LogStream) : Type 0 where
  held : s.entries ≡ take n all

on_message-Holds :
    (n : ℕ) (v : Json) (all : List Json) (s : LogStream) (p : Bool)
    → s.paused ≡ p
    → Holds n all s
    → Holds n (if p then all else v ∷ all) (on_message n (ok v) s)
unfolding on_message
on_message-Holds n v all s true e h = record { held = rw e h.held }
on_message-Holds n v all s false e h = record {
  held = rw e (ap (push_entry n v) h.held ∙ push_entry-take n v (take n all) ∙ take-push n v all);
}

pub on_message-paused :
    (n : ℕ) (m : Result Json) (s : LogStream) → (on_message n m s).paused ≡ s.paused
unfolding on_message
on_message-paused n (throw x) s = refl
on_message-paused n (ok v) s = ground arith

pub set_paused-fields :
    (b : Bool) (s : LogStream)
    → ((set_paused b s).entries ≡ s.entries) × ((set_paused b s).paused ≡ b)
unfolding set_paused
set_paused-fields true s = (ground arith, ground arith)
set_paused-fields false s = (refl, refl)

run-Holds :
    (n : ℕ) (es : List StreamEvent) (all : List Json) (s : LogStream) (p : Bool)
    → s.paused ≡ p
    → Holds n all s
    → Holds n (arrived p es all) (stream_run n s es)
unfolding stream_run stream_step
run-Holds n [] all s p e h = h
run-Holds n (source_opened ∷ es) all s p e h = run-Holds n es all _ p e (record { held = h.held })
run-Holds n (source_failed ∷ es) all s p e h = run-Holds n es all _ p e (record { held = h.held })
run-Holds n (message (throw x) ∷ es) all s p e h =
    run-Holds n es all _ p (on_message-paused n (throw x) s ∙ e) (record { held = h.held })
run-Holds n (message (ok v) ∷ es) all s p e h =
    run-Holds n es _ _ p (on_message-paused n (ok v) s ∙ e) (on_message-Holds n v all s p e h)
run-Holds n (scrolled t ∷ es) all s p e h =
    let (same, set) = set_paused-fields (ltb 16 t) s in
    run-Holds n es all _ (ltb 16 t) set (record { held = same ∙ h.held })

-- After any events, the buffer holds the latest `n` of the entries that arrived while the table was
-- not paused, the latest first, where `n` is the size of the buffer.
pub stream_run-arrived :
    (n : ℕ) (es : List StreamEvent)
    → (stream_run n opened es).entries ≡ take n (arrived false es [])
unfolding opened
stream_run-arrived n es =
    (run-Holds n es [] opened false refl
      (record { held = sym (take_of_le n [] (omega arith)) })).held

-- After any events, the buffer holds no more entries than its size.
pub stream_run-bounded :
    (n : ℕ) (es : List StreamEvent) → length (stream_run n opened es).entries ≤ n
stream_run-bounded n es = rw (stream_run-arrived n es) (length-take_le n (arrived false es []))
