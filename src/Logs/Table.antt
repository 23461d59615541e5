-- ===== src/Logs/Table.antt =====
-- panel/components/logs/live-log-table.tsx, what the table shows, with its indicator of
-- panel/components/layout/connection-indicator.tsx.
pub mod Latest
use leakshield.Base.{String, Bool, true, false, Option, none, some, ◌++◌, length, if◌then◌else◌}
use leakshield.Base.Result.{Result}
use leakshield.Js.Text.{Text, lit, decimal}
use leakshield.Js.Json.{Json}
use leakshield.Logs.{
  ConnectionState, connecting, connected, on_pause, reconnecting, broken, LogStream,
  indicator_state,
}
use leakshield.Logs.Rows.{TableBody, live_log_table}

-- `STATE_COLORS`
unfoldable pub state_color : ConnectionState → String
state_color connecting = "text-muted-foreground"
state_color connected = "text-success"
state_color on_pause = "text-warning"
state_color reconnecting = "text-warning"
state_color broken = "text-destructive"

-- `labels`, by the translations `t`.
unfoldable pub state_label : (t : Text → Text) → ConnectionState → Text
state_label t connecting = t (lit "reconnecting")
state_label t connected = t (lit "live")
state_label t on_pause = t (lit "paused")
state_label t reconnecting = t (lit "reconnecting")
state_label t broken = lit "Disconnected"

-- `state === "connected"`
abbrev pulses : ConnectionState → Bool
pulses connected = true
pulses _ = false

pub record IndicatorView : Type 0 where
  pub color : String
  pub pulse : Bool
  pub label : Option Text

unfoldable pub connection_indicator :
    (t : Text → Text) → (hide_label : Bool) → ConnectionState → IndicatorView
unfolding state_color state_label
connection_indicator t hide_label state = record {
  color = state_color state;
  pulse = pulses state;
  label = if hide_label then none else some (state_label t state);
}

-- The line above the table.
unfoldable pub table_caption : LogStream → Text
table_caption s =
    decimal (length s.entries)
    ++ (lit " entries buffered" ++ (if s.paused then lit " · paused on scroll" else lit ""))

pub record TableView : Type 0 where
  pub indicator : IndicatorView
  pub caption : Text
  pub body : Result TableBody

unfoldable pub table_view :
    (t : Text → Text) → (local_time : Option Json → Text) → LogStream → TableView
unfolding connection_indicator table_caption
table_view t local_time s = record {
  indicator = connection_indicator t false (indicator_state s);
  caption = table_caption s;
  body = live_log_table local_time s;
}
