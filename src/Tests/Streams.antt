-- ===== src/Tests/Streams.antt =====
-- The live log at concrete inputs.
use leakshield.Base.{◌≡◌, refl, false, List, [], ◌∷◌, arith, map}
use leakshield.Base.Result.{ok}
use leakshield.Js.Json.{null}
use leakshield.Logs.{
  StreamEvent, indicator_state, message, on_pause, opened, scrolled, source_opened, stream_run,
  table_buffer,
}
use leakshield.Logs.Table.{table_view}
use leakshield.Logs.Table.Latest.{ShowsLatest, table_view-ShowsLatest}
use leakshield.Logs.Indicator.{resumed-on_pause}

abbrev events : List StreamEvent
events =
    source_opened
    ∷ message (ok null)
    ∷ scrolled 40
    ∷ message (ok null)
    ∷ scrolled 0
    ∷ message (ok null)
    ∷ []

table_view-ShowsLatest_example :
    ShowsLatest
      (λ s. s)
      (λ _. [])
      events
      (table_view (λ s. s) (λ _. []) (stream_run table_buffer opened events))
table_view-ShowsLatest_example = table_view-ShowsLatest (λ s. s) (λ _. []) events

resumed-on_pause_example :
    let s' = stream_run 5 opened (scrolled 40 ∷ scrolled 0 ∷ map message (ok null ∷ [])) in
    (s'.paused ≡ false) × (indicator_state s' ≡ on_pause)
unfolding opened
resumed-on_pause_example =
    resumed-on_pause 5 40 0 (ok null ∷ []) opened refl (omega arith) (omega arith)
