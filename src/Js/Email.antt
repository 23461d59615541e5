-- ===== src/Js/Email.antt =====
-- The pattern `/^[^@\s]+@[^@\s]+\.[^@\s]+$/` of the two create routes and of onboarding step 3.
pub mod Spec
use leakshield.Base.{ℕ, ◌≡◌, Bool, true, false, not, ◌&&◌, ◌||◌, [], ◌∷◌, ◌==◌}
use leakshield.Js.Text.{Text, is_space}

-- `[^@\s]`
unfoldable pub is_plain : ℕ → Bool
unfolding is_space
is_plain c = not (c == b'@') && not (is_space c)

-- `[^@\s]*$`
unfoldable pub plain_to_end : Text → Bool
plain_to_end [] = true
plain_to_end (c ∷ s) = is_plain c && plain_to_end s

-- `[^@\s]+$`
unfoldable pub some_to_end : Text → Bool
unfolding plain_to_end
some_to_end [] = false
some_to_end (c ∷ s) = is_plain c && plain_to_end s

-- `[^@\s]*\.[^@\s]+$`; a full stop is itself one of `[^@\s]`, so both ways on are tried.
unfoldable pub dot_then_end : Text → Bool
unfolding some_to_end
dot_then_end [] = false
dot_then_end (c ∷ s) = ((c == b'.') && some_to_end s) || (is_plain c && dot_then_end s)

-- `[^@\s]+\.[^@\s]+$`
unfoldable pub host_to_end : Text → Bool
unfolding dot_then_end
host_to_end [] = false
host_to_end (c ∷ s) = is_plain c && dot_then_end s

-- `[^@\s]*@[^@\s]+\.[^@\s]+$`
unfoldable pub at_then_host : Text → Bool
unfolding host_to_end
at_then_host [] = false
at_then_host (c ∷ s) = ((c == b'@') && host_to_end s) || (is_plain c && at_then_host s)

unfoldable pub email_test : Text → Bool
unfolding at_then_host
email_test [] = false
email_test (c ∷ s) = is_plain c && at_then_host s
