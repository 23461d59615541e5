-- ===== src/Logs/Rows.antt =====
-- panel/components/logs/live-log-table.tsx, LogRow and VerdictBadge: what the table shows of an entry.
use leakshield.Base.{Option, none, some, List, [], ◌∷◌, ◌++◌, if◌then◌else◌}
use leakshield.Base.Result.{Result, ok, ◌>>=◌}
use leakshield.Js.Text.{Text, lit, text_eq}
use leakshield.Js.Json.{Json, str, get, given, or_else, to_string}
use leakshield.Logs.{LogStream, visible}

pub data Variant : Type 0 where
  success warning destructive outline : Variant

unfoldable pub verdict_badge : Text → Variant
verdict_badge verdict =
    if text_eq verdict (lit "ALLOW")
    then success
    else if text_eq verdict (lit "MASK")
    then warning
    else if text_eq verdict (lit "BLOCK")
    then destructive
    else outline

pub record LogRow : Type 0 where
  pub link : Text
  pub time : Text
  pub user : Option Json
  pub provider : Option Json
  pub model : Option Json
  pub verdict : Option Json
  pub variant : Variant
  pub latency : Text
  pub category : Json

-- `${v}` of a field that may be missing.
abbrev shown : Option Json → Result Text
shown none = ok (lit "undefined")
shown (some v) = to_string v

-- Only a string equals one of the verdicts.
abbrev badge_of : Option Json → Variant
badge_of (some (str verdict)) = verdict_badge verdict
badge_of _ = outline

-- `latencyMs ? `${latencyMs} ms` : "—"`
abbrev latency_text : Option Json → Result Text
latency_text none = ok (lit "—")
latency_text (some v) = to_string v >>= λ s. ok (s ++ lit " ms")

-- `local_time` is `new Date(v).toLocaleTimeString()`, which depends on the browser's locale.
module _ (local_time : Option Json → Text) where
  unfoldable pub log_row : Json → Result LogRow
  unfolding verdict_badge
  log_row entry = do
    id ← get entry "id"
    id_text ← shown id
    timestamp ← get entry "timestamp"
    user ← get entry "user"
    provider ← get entry "provider"
    model ← get entry "model"
    verdict ← get entry "verdict"
    latency_ms ← get entry "latencyMs"
    latency ← latency_text (given latency_ms)
    category ← get entry "category"
    ok (record {
      link = lit "/logs/" ++ id_text;
      time = local_time timestamp;
      user = user;
      provider = provider;
      model = model;
      verdict = verdict;
      variant = badge_of verdict;
      latency = latency;
      category = or_else category (str (lit "—"));
    })

  unfoldable pub log_rows : List Json → Result (List LogRow)
  unfolding log_row
  log_rows [] = ok []
  log_rows (entry ∷ entries) =
      let rest = log_rows entries in log_row entry >>= λ row. rest >>= λ rows. ok (row ∷ rows)

-- The body of the table: a line of its own while there is no entry.
pub data TableBody : Type 0 where
  waiting : TableBody
  rows : List LogRow → TableBody

abbrev pub body_of : (Option Json → Text) → List Json → Result TableBody
body_of local_time [] = ok waiting
body_of local_time (entry ∷ entries) =
    log_rows local_time (entry ∷ entries) >>= λ shown_rows. ok (rows shown_rows)

unfoldable pub live_log_table : (Option Json → Text) → LogStream → Result TableBody
unfolding visible log_rows
live_log_table local_time s = body_of local_time (visible s)
