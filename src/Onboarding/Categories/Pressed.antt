-- ===== src/Onboarding/Categories/Pressed.antt =====
-- Which templates show as selected after any clicks.
use leakshield.Base.{
  ℕ, suc, ◌%◌, ◌==◌, ◌≡◌, refl, sym, ap, Bool, true, false, not, ◌||◌, List, [], ◌∷◌, ◌++◌, map,
  if◌then◌else◌, Bool-cases, if_either, inl, inr, arith,
}
use leakshield.Js.Text.{Text, text_eq}
use leakshield.Js.Text.Prefix.{text_eq-eq, text_eq_refl, text_eq_comm}
use leakshield.Onboarding.Categories.{
  Selection, Template, templates, is_chosen, delete, toggle, template_view, categories_view, clicks,
}

-- How often an id is among the clicks.
abbrev pub count : Text → List Text → ℕ
count id [] = 0
count id (c ∷ cs) = let rest = count id cs in if text_eq id c then suc rest else rest

abbrev pub is_odd : ℕ → Bool
is_odd n = n % 2 == 1

-- The state of a button that is given, flipped by each click.
abbrev flipped : Bool → ℕ → Bool
flipped b n = if b then not (is_odd n) else is_odd n

flipped-suc : (b : Bool) (n : ℕ) → flipped b (suc n) ≡ flipped (not b) n
flipped-suc true n = ground arith
flipped-suc false n = ground arith

or_false : (b : Bool) → (b || false) ≡ b
or_false true = refl
or_false false = refl

or_step : (a b c d : Bool) → d ≡ (b || c) → (a || d) ≡ ((a || b) || c)
or_step true b c d e = refl
or_step false b c d e = e

flipped-zero : (b : Bool) → b ≡ flipped b 0
flipped-zero true = refl
flipped-zero false = refl

is_chosen-append :
    (id new : Text) (s : Selection)
    → is_chosen id (s ++ new ∷ []) ≡ (is_chosen id s || text_eq id new)
unfolding is_chosen
is_chosen-append id new [] = or_false (text_eq id new)
is_chosen-append id new (c ∷ s) =
    or_step (text_eq id c) (is_chosen id s) (text_eq id new) _ (is_chosen-append id new s)

deleted-own : (id : Text) (s : Selection) → is_chosen id (delete id s) ≡ false
unfolding is_chosen delete
deleted-own id [] = refl
deleted-own id (c ∷ s) = elim (Bool-cases (text_eq c id)) [
  | inl e ↦ rw e (deleted-own id s)
  | inr n ↦ rw (n, text_eq_comm id c, n) (deleted-own id s)
]

deleted-other :
    (id old : Text) (s : Selection)
    → text_eq id old ≡ false
    → is_chosen id (delete old s) ≡ is_chosen id s
unfolding is_chosen delete
deleted-other id old [] n = refl
deleted-other id old (c ∷ s) n = elim (Bool-cases (text_eq c old)) [
  | inl e ↦ rw (e, text_eq-eq c old e, n) (deleted-other id old s n)
  | inr m ↦ rw m (ap (λ b. text_eq id c || b) (deleted-other id old s n))
]

toggle-own : (id : Text) (s : Selection) → is_chosen id (toggle id s) ≡ not (is_chosen id s)
unfolding toggle
toggle-own id s = elim (Bool-cases (is_chosen id s)) [
  | inl e ↦ rw e (deleted-own id s)
  | inr n ↦ rw (n, is_chosen-append, n, text_eq_refl id) refl
]

toggle-other :
    (id old : Text) (s : Selection)
    → text_eq id old ≡ false
    → is_chosen id (toggle old s) ≡ is_chosen id s
unfolding toggle
toggle-other id old s n =
    if_either {A = Selection} (λ t. is_chosen id t ≡ is_chosen id s) (is_chosen old s) _ _
      (λ e. deleted-other id old s n) (λ m. rw (is_chosen-append, n) (or_false (is_chosen id s)))

clicks-flipped :
    (id : Text) (cs : List Text) (s : Selection)
    → is_chosen id (clicks cs s) ≡ flipped (is_chosen id s) (count id cs)
unfolding clicks
clicks-flipped id [] s = flipped-zero (is_chosen id s)
clicks-flipped id (c ∷ cs) s = elim (Bool-cases (text_eq id c)) [
  | inl e ↦
      let same = text_eq-eq id c e in
      rw (e, clicks-flipped id cs (toggle c s), ← same, toggle-own)
        (sym (flipped-suc (is_chosen id s) (count id cs)))
  | inr n ↦ rw (n, clicks-flipped id cs (toggle c s), toggle-other id c s n) refl
]

views-pressed :
    (cs : List Text) (ts : List Template)
    → map (λ v. v.pressed) (map (template_view (clicks cs [])) ts)
      ≡ map (λ t. is_odd (count t.id cs)) ts
unfolding template_view is_chosen
views-pressed cs [] = refl
views-pressed cs (t ∷ ts) =
    rw (clicks-flipped t.id cs []) (ap (λ bs. is_odd (count t.id cs) ∷ bs) (views-pressed cs ts))

-- After any clicks on the buttons, the first on a screen with nothing selected, the template buttons that
-- show as pressed are those whose own id has been clicked an odd number of times.
pub categories_view-pressed :
    (cs : List Text)
    → map (λ v. v.pressed) (categories_view (clicks cs []))
      ≡ map (λ t. is_odd (count t.id cs)) templates
unfolding categories_view
categories_view-pressed cs = views-pressed cs templates
