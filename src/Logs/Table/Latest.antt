-- ===== src/Logs/Table/Latest.antt =====
-- The live table after any events, against the entries that arrived.
use leakshield.Base.{
  ℕ, zero, suc, ◌≤◌, ◌≡◌, refl, ap, ◌∙◌, Bool, true, false, Option, some, List, [], ◌∷◌, ◌++◌,
  length, take, ltb, arith, if◌then◌else◌,
}
use leakshield.Js.Text.{Text, lit, decimal}
use leakshield.Js.Json.{Json}
use leakshield.Logs.{
  LogStream, StreamEvent, message, opened, scrolled, source_failed, source_opened, stream_run,
  stream_step, table_buffer, visible, indicator_state,
}
use leakshield.Logs.Buffer.{arrived, stream_run-arrived, on_message-paused, set_paused-fields}
use leakshield.Logs.Rows.{body_of, live_log_table}
use leakshield.Logs.Table.{TableView, table_view, table_caption, state_label}

-- Whether the last scroll has left the top; without one, as before.
abbrev pub is_down : Bool → List StreamEvent → Bool
is_down before [] = before
is_down before (scrolled scroll_top ∷ es) = is_down (ltb 16 scroll_top) es
is_down before (source_opened ∷ es) = is_down before es
is_down before (source_failed ∷ es) = is_down before es
is_down before (message m ∷ es) = is_down before es

run-paused :
    (n : ℕ) (es : List StreamEvent) (s : LogStream)
    → (stream_run n s es).paused ≡ is_down s.paused es
unfolding stream_run stream_step
run-paused n [] s = refl
run-paused n (source_opened ∷ es) s = run-paused n es _
run-paused n (source_failed ∷ es) s = run-paused n es _
run-paused n (message m ∷ es) s =
    run-paused n es _ ∙ ap (λ b. is_down b es) (on_message-paused n m s)
run-paused n (scrolled t ∷ es) s =
    run-paused n es _ ∙ ap (λ b. is_down b es) (set_paused-fields (ltb 16 t) s).1

take-take_le {ℓ} : {A : Type ℓ} (m n : ℕ) (xs : List A) → m ≤ n → take m (take n xs) ≡ take m xs
take-take_le zero n xs h = refl
take-take_le (suc m) zero xs h = absurd (omega arith)
take-take_le (suc m) (suc n) [] h = refl
take-take_le (suc m) (suc n) (x ∷ xs) h = ap (λ ys. x ∷ ys) (take-take_le m n xs (omega arith))

-- What a visitor sees: the latest 200 of the entries as rows, and the number of those that are kept, at
-- most 1000; while the table is scrolled down, its caption and its indicator say that it is paused.
pub record ShowsLatest (t : Text → Text) (local_time : Option Json → Text) (es : List StreamEvent)
    (v : TableView) : Type 0 where
  pub rows : v.body ≡ body_of local_time (take 200 (arrived false es []))
  pub caption :
      v.caption
      ≡ decimal (length (take 1000 (arrived false es [])))
        ++ (lit " entries buffered"
            ++ (if is_down false es then lit " · paused on scroll" else lit ""))
  pub marked : is_down false es ≡ true → v.indicator.label ≡ some (t (lit "paused"))

visible-arrived :
    (m n : ℕ) (es : List StreamEvent)
    → m ≤ n
    → take m (stream_run n opened es).entries ≡ take m (arrived false es [])
visible-arrived m n es h =
    ap (take m) (stream_run-arrived n es) ∙ take-take_le m n (arrived false es []) h

abbrev caption_of : List Json → Bool → Text
caption_of entries down =
    decimal (length entries)
    ++ (lit " entries buffered" ++ (if down then lit " · paused on scroll" else lit ""))

table_caption-parts :
    (s : LogStream) (entries : List Json) (down : Bool)
    → s.entries ≡ entries
    → s.paused ≡ down
    → table_caption s ≡ caption_of entries down
unfolding table_caption
table_caption-parts s entries down e d =
    ap (λ xs. caption_of xs s.paused) e ∙ ap (caption_of entries) d

paused-label :
    (t : Text → Text) (s : LogStream)
    → s.paused ≡ true
    → state_label t (indicator_state s) ≡ t (lit "paused")
unfolding indicator_state state_label
paused-label t s e = rw e refl

opened-paused : opened.paused ≡ false
unfolding opened
opened-paused = refl

-- The live table shows, after any events, the latest 200 of the entries that have arrived while it was
-- at its top; its caption counts the latest 1000, and says, as its indicator does, when it is paused.
pub table_view-ShowsLatest :
    (t : Text → Text) (local_time : Option Json → Text) (es : List StreamEvent)
    → ShowsLatest t local_time es (table_view t local_time (stream_run table_buffer opened es))
unfolding table_view live_log_table visible
table_view-ShowsLatest t local_time es =
    let s : LogStream = stream_run table_buffer opened es in
    let down : s.paused ≡ is_down false es =
      run-paused table_buffer es opened ∙ ap (λ b. is_down b es) opened-paused in
    record {
      rows = ap (body_of local_time) (visible-arrived 200 1000 es (omega arith));
      caption = table_caption-parts s _ _ (stream_run-arrived 1000 es) down;
      marked = λ h. ap some (paused-label t s (down ∙ h));
    }
