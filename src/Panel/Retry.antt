-- ===== src/Panel/Retry.antt =====
-- panel/components/providers/query-provider.tsx: whether a failed query is tried again.
pub mod Permanent
use leakshield.Base.{
  ℕ, Bool, false, not, ◌&&◌, ◌||◌, Option, none, some, [], ◌∷◌, leb, ltb, ◌==◌, if◌then◌else◌,
}
use leakshield.Js.Text.{Text, lit, starts_with, text_eq}

-- `\w`: a letter, a digit or an underscore, of ASCII.
unfoldable pub is_word : ℕ → Bool
is_word c =
    (leb b'0' c && leb c b'9')
    || (leb b'A' c && leb c b'Z')
    || (leb b'a' c && leb c b'z')
    || (c == b'_')

abbrev pub begins_in_word : Text → Bool
begins_in_word [] = false
begins_in_word (c ∷ s) = is_word c

abbrev pub skip_three : Text → Text
skip_three (_ ∷ _ ∷ _ ∷ s) = s
skip_three _ = []

-- The text begins with the three digits, and with no further word character.
unfoldable pub has_code : Text → Text → Bool
unfolding is_word
has_code code s = starts_with s code && not (begins_in_word (skip_three s))

unfoldable pub has_any_code : Text → Bool
unfolding has_code
has_any_code s = has_code (lit "401") s || has_code (lit "403") s || has_code (lit "404") s

-- `/\b(401|403|404)\b/.test(s)`, below a character that is a word character or not.
unfoldable pub mentions_code : (after_word : Bool) → Text → Bool
unfolding has_any_code
mentions_code after_word [] = false
mentions_code after_word (c ∷ s) =
    let rest = mentions_code (is_word c) s in (not after_word && has_any_code (c ∷ s)) || rest

-- `retry`: `none` is a thrown value that is no `Error`, and otherwise the message is given.
unfoldable pub retry : (failure_count : ℕ) → (message : Option Text) → Bool
unfolding mentions_code
retry failure_count none = ltb failure_count 2
retry failure_count (some message) =
    if mentions_code false message then false else ltb failure_count 2

-- `defaultOptions.queries`, with the times in milliseconds.
pub record QueryOptions : Type 0 where
  pub stale_time : ℕ
  pub refetch_on_window_focus : Bool
  pub retry_rule : ℕ → Option Text → Bool

unfoldable pub query_options : QueryOptions
unfolding retry
query_options = record { stale_time = 30000; refetch_on_window_focus = false; retry_rule = retry }

-- The tools for developers stand below the children in one environment only.
unfoldable pub shows_devtools : (node_env : Text) → Bool
shows_devtools node_env = text_eq node_env (lit "development")
