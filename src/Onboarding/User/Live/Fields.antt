-- ===== src/Onboarding/User/Live/Fields.antt =====
-- The fields of the teammate's form: what is typed in them, and what a valid form has in them.
use mathlib.Core.List.{Memᴰ}
use leakshield.Base.{◌≡◌, refl, true, not, Option, [], ◌∷◌, All, length, ltb, both}
use leakshield.Js.Text.{Text, nonempty}
use leakshield.Js.Text.Trim.{trim-nonempty}
use leakshield.Js.Email.{email_test}
use leakshield.Onboarding.User.{
  KeyScreen, Me, Teammate, key_step, set_teammate, teammate_valid, typed,
}
use leakshield.Onboarding.User.View.{teammate_fields}
use leakshield.Onboarding.User.Live.{IsWired}

pub typed-IsWired :
    (lower : Text → Text) (me : Option Me) (s : KeyScreen) (t : Teammate)
    → ((k : _) (v : Text) → (key_step lower me (typed k v) s).teammate ≡ set_teammate k v t)
    → All (IsWired lower me s) (teammate_fields t)
unfolding teammate_fields set_teammate
typed-IsWired lower me s t h = (
  λ v. rw (h _ v) (Memᴰ.head refl),
  (
    λ v. rw (h _ v) (Memᴰ.tail (Memᴰ.head refl)),
    (
      λ v. rw (h _ v) (Memᴰ.tail (Memᴰ.tail (Memᴰ.head refl))),
      (
        λ v. rw (h _ v) (Memᴰ.tail (Memᴰ.tail (Memᴰ.tail (Memᴰ.head refl)))),
        (λ v. rw (h _ v) (Memᴰ.tail (Memᴰ.tail (Memᴰ.tail (Memᴰ.tail (Memᴰ.head refl))))), tt),
      ),
    ),
  ),
)

long-nonempty : (s : Text) → not (ltb (length s) 2) ≡ true → nonempty s ≡ true
long-nonempty [] h = cc
long-nonempty (c ∷ s) h = refl

email-nonempty : (s : Text) → email_test s ≡ true → nonempty s ≡ true
unfolding email_test
email-nonempty [] h = cc
email-nonempty (c ∷ s) h = refl

pub valid-filled :
    (t : Teammate)
    → teammate_valid t ≡ true
    → All (λ x. x.required ≡ true → nonempty x.value ≡ true) (teammate_fields t)
unfolding teammate_valid teammate_fields
valid-filled t h =
    let (n, e) = both _ _ h in
    (
      λ _. trim-nonempty t.name (long-nonempty _ n),
      (λ w. cc, (λ _. trim-nonempty t.email (email-nonempty _ e), (λ w. cc, (λ w. cc, tt)))),
    )
