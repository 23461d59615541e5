-- ===== src/Panel/Sidebar/Within.antt =====
-- The addresses at which `isActive` holds.
use leakshield.Base.{
  or_second, ◌≡◌, refl, sym, ◌∙◌, Bool, true, false, ◌||◌, Option, none, some, [], ◌∷◌, ◌++◌,
  if_either, ◌↔◌, ◌≢◌,
}
use leakshield.Js.Text.{Text, lit, nonempty, text_eq, starts_with}
use leakshield.Panel.Sidebar.{is_active, is_within}
use leakshield.Js.Text.Prefix.{
  starts_with-same, starts_with-longer, text_eq_refl, text_eq-eq, starts_with-append,
  starts_with-rest,
}

either_true : (P : Type 0) (a b : Bool) → (a || b) ≡ true → (a ≡ true → P) → (b ≡ true → P) → P
either_true P true b e f g = f refl
either_true P false b e f g = g e

-- Every path that an entry covers begins, with a slash put after it, with the entry's path and a slash.
pub is_within-begins :
    (path href : Text)
    → is_within path href ≡ true
    → starts_with (path ++ lit "/") (href ++ lit "/") ≡ true
unfolding is_within
is_within-begins path href =
    if_either (λ b. b ≡ true → starts_with (path ++ lit "/") (href ++ lit "/") ≡ true)
      (text_eq href (lit "/dashboard")) _ _ (λ e h. starts_with-same path href h (lit "/"))
      (λ e h.
        either_true _ (text_eq path href) _ h (λ f. starts_with-same path href f (lit "/"))
          (λ f. starts_with-longer path (href ++ lit "/") (lit "/") f))

-- The address is the entry's own, or one below it; the dashboard has none below it.
pub data IsAt : Text → Text → Type 0 where
  own : {href : Text} → IsAt href href
  below :
      {href : Text} (rest : Text) → href ≢ lit "/dashboard" → IsAt (href ++ lit "/" ++ rest) href

pub IsAtEntry : Option Text → Text → Type 0
IsAtEntry none href = ⊥
IsAtEntry (some path) href = IsAt path href

text_eq-differs : (s x : Text) → text_eq s x ≡ false → s ≢ x
text_eq-differs s x n e =
    let wrong : ◌≡◌ {A = Bool} true false = sym (text_eq_refl x) ∙ (rw e at n) in cc

is_within-IsAt : (path href : Text) → is_within path href ≡ true → IsAt path href
unfolding is_within
is_within-IsAt path href =
    if_either (λ b. b ≡ true → IsAt path href) (text_eq href (lit "/dashboard")) _ _
      (λ e h. rw (text_eq-eq path href h) own)
      (λ n h.
        either_true _ (text_eq path href) _ h (λ f. rw (text_eq-eq path href f) own)
          (λ f.
            let (r, e) = starts_with-rest path (href ++ lit "/") f in
            rw e (below r (text_eq-differs href (lit "/dashboard") n))))

IsAt-is_within : (path href : Text) → IsAt path href → is_within path href ≡ true
unfolding is_within
IsAt-is_within path href own =
    if_either (λ b. b ≡ true) (text_eq path (lit "/dashboard")) _ _ (λ e. text_eq_refl path)
      (λ n. rw (text_eq_refl path) refl)
IsAt-is_within path href (below rest n) =
    if_either (λ b. b ≡ true) (text_eq href (lit "/dashboard")) _ _
      (λ e. elim (n (text_eq-eq href (lit "/dashboard") e)) [ ])
      (λ k.
        or_second (text_eq (href ++ lit "/" ++ rest) href) _
          (starts_with-append (href ++ lit "/") rest))

IsAt-nonempty : (path href : Text) → path ≡ [] → IsAt path href → nonempty href ≡ true → ⊥
IsAt-nonempty path [] e a h = cc
IsAt-nonempty path (c ∷ href) e own h = cc
IsAt-nonempty path (c ∷ href) e (below rest n) h = cc

pub is_active_iff :
    (pathname : Option Text) (href : Text)
    → nonempty href ≡ true
    → (is_active pathname href ≡ true) ↔ IsAtEntry pathname href
unfolding is_active IsAtEntry
is_active_iff none href h = (λ e. cc, λ e. elim e [ ])
is_active_iff (some []) href h = (λ e. cc, λ a. elim (IsAt-nonempty [] href refl a h) [ ])
is_active_iff (some (c ∷ path)) href h =
    (is_within-IsAt (c ∷ path) href, IsAt-is_within (c ∷ path) href)
