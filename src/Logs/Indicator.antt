-- ===== src/Logs/Indicator.antt =====
-- panel/hooks/use-log-stream.ts, the state of the connection, and the indicator of the live table.
use leakshield.Base.{◌≡◌, refl, sym, Bool, true, false, List, [], ◌∷◌, map, arith, ltb, ℕ, ◌<◌, ◌≤◌}
use leakshield.Base.Result.{Result, ok, throw}
use mathlib.Core.Path.{subst}
use leakshield.Js.Json.{Json}
use leakshield.Logs.{
  LogStream, indicator_state, message, on_message, on_pause, scrolled, set_paused, stream_run,
  stream_step,
}

messages-state :
    (n : ℕ) (ms : List (Result Json)) (s : LogStream)
    → s.paused ≡ false
    → ((stream_run n s (map message ms)).state ≡ s.state)
      × ((stream_run n s (map message ms)).paused ≡ false)
unfolding stream_run stream_step on_message
messages-state n [] s e = (refl, e)
messages-state n (throw x ∷ ms) s e = messages-state n ms s e
messages-state n (ok v ∷ ms) s e = rw e (messages-state n ms _ refl)

down_up :
    (down up : Bool) (s : LogStream)
    → down ≡ true
    → up ≡ false
    → s.paused ≡ false
    → set_paused up (set_paused down s) ≡ record s { state = on_pause; paused = false }
unfolding set_paused
down_up true false s d u e = rw e refl
down_up true true s d u e = cc
down_up false up s d u e = cc

indicator-on_pause :
    (s : LogStream) → s.paused ≡ false → s.state ≡ on_pause → indicator_state s ≡ on_pause
unfolding indicator_state
indicator-on_pause s e h = rw e h

-- The indicator stays on pause after the table is back at its top: scrolling down and up again
-- resumes the stream, but until the source opens or fails anew the indicator says that it is paused,
-- however many messages arrive.
pub resumed-on_pause :
    (n down up : ℕ) (ms : List (Result Json)) (s : LogStream)
    → s.paused ≡ false
    → 16 < down
    → up ≤ 16
    → let s' = stream_run n s (scrolled down ∷ scrolled up ∷ map message ms) in
      (s'.paused ≡ false) × (indicator_state s' ≡ on_pause)
unfolding stream_run stream_step
resumed-on_pause n down up ms s e d u =
    let below : ltb 16 down ≡ true = ground arith in
    let above : ltb 16 up ≡ false = ground arith in
    let (state, paused) =
      messages-state n ms (record s { state = on_pause; paused = false }) refl in
    subst
      (λ x.
        ((stream_run n x (map message ms)).paused ≡ false)
        × (indicator_state (stream_run n x (map message ms)) ≡ on_pause))
      (sym (down_up (ltb 16 down) (ltb 16 up) s below above e))
      (paused, indicator-on_pause _ paused state)
