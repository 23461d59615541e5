-- ===== src/Logs.antt =====
-- panel/hooks/use-log-stream.ts and panel/components/logs/live-log-table.tsx: the live audit log. The
-- hook keeps a bounded buffer of the stream's entries; the table pauses it while it is scrolled.
pub mod Buffer
pub mod Relay
pub mod Indicator
pub mod Rows
pub mod Table
use leakshield.Base.{
  ℕ, Bool, true, false, Option, none, some, List, [], ◌∷◌, ◌++◌, length, take, ltb, if◌then◌else◌,
}
use leakshield.Base.Result.{Result, ok, throw}
use leakshield.Js.Text.{Text, lit, nonempty}
use leakshield.Js.Json.{Json}

-- panel/components/layout/connection-indicator.tsx
pub data ConnectionState : Type 0 where
  connecting connected on_pause reconnecting broken : ConnectionState

-- `filter ? `/api/stream/logs?${filter}` : "/api/stream/logs"`
unfoldable pub stream_url : Option Text → Text
unfolding lit
stream_url none = lit "/api/stream/logs"
stream_url (some filter) =
    if nonempty filter then lit "/api/stream/logs?" ++ filter else lit "/api/stream/logs"

pub record LogStream : Type 0 where
  pub entries : List Json
  pub state : ConnectionState
  pub paused : Bool

unfoldable pub opened : LogStream
opened = record { entries = []; state = connecting; paused = false }

-- The event source opens, fails or brings a message, which `JSON.parse` has read; the table is
-- scrolled to a distance from its top.
pub data StreamEvent : Type 0 where
  source_opened : StreamEvent
  source_failed : StreamEvent
  message : (parsed : Result Json) → StreamEvent
  scrolled : (scroll_top : ℕ) → StreamEvent

-- `[parsed, ...prev]`, cut to the size of the buffer.
unfoldable pub push_entry : (buffer_size : ℕ) → Json → List Json → List Json
push_entry buffer_size parsed prev =
    if ltb buffer_size (length (parsed ∷ prev))
    then take buffer_size (parsed ∷ prev)
    else parsed ∷ prev

-- `es.onmessage`
unfoldable pub on_message : (buffer_size : ℕ) → Result Json → LogStream → LogStream
unfolding push_entry
on_message buffer_size (throw _) s = s
on_message buffer_size (ok parsed) s =
    if s.paused then s else record s { entries = push_entry buffer_size parsed s.entries }

-- `setPaused`, and the effect of the hook, which runs when `paused` changes.
unfoldable pub set_paused : Bool → LogStream → LogStream
set_paused true s = if s.paused then s else record s { paused = true; state = on_pause }
set_paused false s = record s { paused = false }

unfoldable pub stream_step : (buffer_size : ℕ) → StreamEvent → LogStream → LogStream
unfolding on_message set_paused
stream_step buffer_size source_opened s = record s { state = connected }
stream_step buffer_size source_failed s = record s { state = reconnecting }
stream_step buffer_size (message parsed) s = on_message buffer_size parsed s
stream_step buffer_size (scrolled scroll_top) s = set_paused (ltb 16 scroll_top) s

-- The events are listed from the first to the last.
unfoldable pub stream_run : (buffer_size : ℕ) → LogStream → List StreamEvent → LogStream
stream_run buffer_size s [] = s
stream_run buffer_size s (e ∷ es) = stream_run buffer_size (stream_step buffer_size e s) es

-- `LiveLogTable` keeps 1000 entries and shows 200 of them.
abbrev pub table_buffer : ℕ
table_buffer = 1000

unfoldable pub visible : LogStream → List Json
visible s = take 200 s.entries

unfoldable pub indicator_state : LogStream → ConnectionState
indicator_state s = if s.paused then on_pause else s.state
