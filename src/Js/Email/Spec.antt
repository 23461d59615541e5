-- ===== src/Js/Email/Spec.antt =====
-- The pattern of Js.Email against its meaning: the parts of an address.
use leakshield.Base.{
  both, or_cases, ℕ, ◌≡◌, ◌≢◌, ◌↔◌, ◌∙◌, refl, ap, true, false, ◌&&◌, [], ◌∷◌, ◌++◌, ◌==◌, arith,
  All, ==_iff, inl, inr,
}
use leakshield.Js.Text.{Text, is_space}
use leakshield.Js.Text.Trim.{NoSpace}
use leakshield.Js.Email.{
  is_plain, plain_to_end, some_to_end, dot_then_end, host_to_end, at_then_host, email_test,
}

abbrev pub IsPlain : Text → Type 0
IsPlain s = All (λ c. is_plain c ≡ true) s

pub record IsEmail (t : Text) : Type 0 where
  pub user : Text
  pub host : Text
  pub top : Text
  pub user_given : user ≢ []
  pub host_given : host ≢ []
  pub top_given : top ≢ []
  pub user_plain : IsPlain user
  pub host_plain : IsPlain host
  pub top_plain : IsPlain top
  pub joined : t ≡ user ++ b'@' ∷ (host ++ b'.' ∷ top)

plain_to_end-IsPlain : (s : Text) → plain_to_end s ≡ true → IsPlain s
unfolding plain_to_end
plain_to_end-IsPlain [] h = tt
plain_to_end-IsPlain (c ∷ s) h = (ground arith, plain_to_end-IsPlain s (ground arith))

plain_to_end_of_IsPlain : (s : Text) → IsPlain s → plain_to_end s ≡ true
unfolding plain_to_end
plain_to_end_of_IsPlain [] h = refl
plain_to_end_of_IsPlain (c ∷ s) h = rw (h.0, plain_to_end_of_IsPlain s h.1)

-- What `dot_then_end` finds: a plain part, a full stop, and a plain part that is not empty.
record Dotted (s : Text) : Type 0 where
  before : Text
  after : Text
  before_plain : IsPlain before
  after_given : after ≢ []
  after_plain : IsPlain after
  joined : s ≡ before ++ b'.' ∷ after

some_to_end_iff : (s : Text) → (some_to_end s ≡ true) ↔ ((s ≢ []) × IsPlain s)
unfolding some_to_end
some_to_end_iff [] = (λ h. cc, λ h. absurd (h.0 refl))
some_to_end_iff (c ∷ s) = (
  λ h. (λ e. cc, (ground arith, plain_to_end-IsPlain s (ground arith))),
  λ h. rw (h.1.0, plain_to_end_of_IsPlain s h.1.1),
)

dot_then_end-Dotted : (s : Text) → dot_then_end s ≡ true → Dotted s
unfolding dot_then_end
dot_then_end-Dotted [] h = cc
dot_then_end-Dotted (c ∷ s) h =
    elim (or_cases ((c == b'.') && some_to_end s) (is_plain c && dot_then_end s) h) [
      | inl d ↦
          let (dot, rest) = both (c == b'.') (some_to_end s) d in
          let (given, plain) = (some_to_end_iff s).0 rest in
          record {
            before = [];
            after = s;
            before_plain = tt;
            after_given = given;
            after_plain = plain;
            joined = ap (λ (x : ℕ). x ∷ s) ((==_iff c b'.').0 dot);
          }
      | inr r ↦
          let (plain, rest) = both (is_plain c) (dot_then_end s) r in
          let d = dot_then_end-Dotted s rest in
          record {
            before = c ∷ d.before;
            after = d.after;
            before_plain = (plain, d.before_plain);
            after_given = d.after_given;
            after_plain = d.after_plain;
            joined = ap (λ x. c ∷ x) d.joined;
          }
    ]

dot_then_end_of_parts :
    (a b : Text) → IsPlain a → (b ≢ []) × IsPlain b → dot_then_end (a ++ b'.' ∷ b) ≡ true
unfolding dot_then_end
dot_then_end_of_parts [] b h k = rw ((some_to_end_iff b).1 k)
dot_then_end_of_parts (c ∷ a) b h k = rw (h.0, dot_then_end_of_parts a b h.1 k) (ground arith)

-- What `host_to_end` finds: a host, a full stop and a top level.
record Hosted (s : Text) : Type 0 where
  host : Text
  top : Text
  host_given : host ≢ []
  top_given : top ≢ []
  host_plain : IsPlain host
  top_plain : IsPlain top
  joined : s ≡ host ++ b'.' ∷ top

host_to_end-Hosted : (s : Text) → host_to_end s ≡ true → Hosted s
unfolding host_to_end
host_to_end-Hosted [] h = cc
host_to_end-Hosted (c ∷ s) h =
    let (plain, rest) = both (is_plain c) (dot_then_end s) h in
    let d = dot_then_end-Dotted s rest in
    record {
      host = c ∷ d.before;
      top = d.after;
      host_given = λ e. cc;
      top_given = d.after_given;
      host_plain = (plain, d.before_plain);
      top_plain = d.after_plain;
      joined = ap (λ x. c ∷ x) d.joined;
    }

host_to_end_of_parts :
    (a b : Text) → (a ≢ []) × IsPlain a → (b ≢ []) × IsPlain b → host_to_end (a ++ b'.' ∷ b) ≡ true
unfolding host_to_end
host_to_end_of_parts [] b h k = absurd (h.0 refl)
host_to_end_of_parts (c ∷ a) b h k = rw (h.1.0, dot_then_end_of_parts a b h.1.1 k)

-- What `at_then_host` finds: a plain part, an at sign and a host.
record Addressed (s : Text) : Type 0 where
  before : Text
  after : Text
  before_plain : IsPlain before
  hosted : Hosted after
  joined : s ≡ before ++ b'@' ∷ after

at_then_host-Addressed : (s : Text) → at_then_host s ≡ true → Addressed s
unfolding at_then_host
at_then_host-Addressed [] h = cc
at_then_host-Addressed (c ∷ s) h =
    elim (or_cases ((c == b'@') && host_to_end s) (is_plain c && at_then_host s) h) [
      | inl d ↦
          let (sign, rest) = both (c == b'@') (host_to_end s) d in
          record {
            before = [];
            after = s;
            before_plain = tt;
            hosted = host_to_end-Hosted s rest;
            joined = ap (λ (x : ℕ). x ∷ s) ((==_iff c b'@').0 sign);
          }
      | inr r ↦
          let (plain, rest) = both (is_plain c) (at_then_host s) r in
          let d = at_then_host-Addressed s rest in
          record {
            before = c ∷ d.before;
            after = d.after;
            before_plain = (plain, d.before_plain);
            hosted = d.hosted;
            joined = ap (λ x. c ∷ x) d.joined;
          }
    ]

at_then_host_of_parts :
    (a s : Text) → IsPlain a → host_to_end s ≡ true → at_then_host (a ++ b'@' ∷ s) ≡ true
unfolding at_then_host
at_then_host_of_parts [] s h k = rw k
at_then_host_of_parts (c ∷ a) s h k = rw (h.0, at_then_host_of_parts a s h.1 k) (ground arith)

email_test-IsEmail : (t : Text) → email_test t ≡ true → IsEmail t
unfolding email_test
email_test-IsEmail [] h = cc
email_test-IsEmail (c ∷ s) h =
    let (plain, rest) = both (is_plain c) (at_then_host s) h in
    let d = at_then_host-Addressed s rest in
    record {
      user = c ∷ d.before;
      host = d.hosted.host;
      top = d.hosted.top;
      user_given = λ e. cc;
      host_given = d.hosted.host_given;
      top_given = d.hosted.top_given;
      user_plain = (plain, d.before_plain);
      host_plain = d.hosted.host_plain;
      top_plain = d.hosted.top_plain;
      joined = ap (λ x. c ∷ x) (d.joined ∙ ap (λ x. d.before ++ b'@' ∷ x) d.hosted.joined);
    }

email_test_of_parts :
    (a s : Text) → (a ≢ []) × IsPlain a → host_to_end s ≡ true → email_test (a ++ b'@' ∷ s) ≡ true
unfolding email_test
email_test_of_parts [] s h k = absurd (h.0 refl)
email_test_of_parts (c ∷ a) s h k = rw (h.1.0, at_then_host_of_parts a s h.1.1 k)

-- A text passes the pattern exactly when it is a user, an at sign, a host, a full stop and a top
-- level, where none of the three parts is empty or holds an at sign or white space.
pub email_test_iff : (t : Text) → (email_test t ≡ true) ↔ IsEmail t
email_test_iff t = (
  email_test-IsEmail t,
  λ e. rw e.joined (
      email_test_of_parts e.user _ (e.user_given, e.user_plain)
        (host_to_end_of_parts e.host e.top (e.host_given, e.host_plain)
          (e.top_given, e.top_plain))),
)

plain-NoSpace : (s : Text) → IsPlain s → NoSpace s
unfolding is_plain
plain-NoSpace [] h = tt
plain-NoSpace (c ∷ s) h = (ground arith, plain-NoSpace s h.1)

NoSpace-join :
    (a s : Text) (c : ℕ) → NoSpace a → is_space c ≡ false → NoSpace s → NoSpace (a ++ c ∷ s)
NoSpace-join [] s c h k l = (k, l)
NoSpace-join (d ∷ a) s c h k l = (h.0, NoSpace-join a s c h.1 k l)

-- A text that passes holds no white space, so trimming it changes nothing.
pub email_test-NoSpace : (t : Text) → email_test t ≡ true → NoSpace t
unfolding is_space
email_test-NoSpace t h =
    let e = email_test-IsEmail t h in
    rw e.joined (
      NoSpace-join e.user _ b'@' (plain-NoSpace e.user e.user_plain) refl (
        NoSpace-join e.host e.top b'.' (plain-NoSpace e.host e.host_plain) refl
          (plain-NoSpace e.top e.top_plain)))
