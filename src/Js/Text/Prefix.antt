-- ===== src/Js/Text/Prefix.antt =====
-- Laws of `===` on strings and of `startsWith`.
use leakshield.Base.{
  both, ℕ, ◌≡◌, refl, sym, ◌∙◌, Bool, true, ◌&&◌, ◌||◌, [], ◌∷◌, ◌++◌, arith, ◌==◌, ==_iff,
}
use leakshield.Js.Text.{Text, text_eq, starts_with}

pub equal_heads :
    (c d : ℕ) (b b' : Bool) → c ≡ d → (b || b') ≡ true → ((c == d) && b || (d == c) && b') ≡ true
equal_heads c d b b' e h = ground arith

-- Of two prefixes of one string, one is a prefix of the other.
pub starts_with-either :
    (s x y : Text)
    → starts_with s x ≡ true
    → starts_with s y ≡ true
    → (starts_with x y || starts_with y x) ≡ true
unfolding starts_with
starts_with-either s [] [] h k = refl
starts_with-either s [] (d ∷ y) h k = refl
starts_with-either s (c ∷ x) [] h k = refl
starts_with-either [] (c ∷ x) (d ∷ y) h k = cc
starts_with-either (b ∷ s) (c ∷ x) (d ∷ y) h k =
    let (p, h') = both (b == c) (starts_with s x) h in
    let (q, k') = both (b == d) (starts_with s y) k in
    equal_heads c d _ _ (sym ((==_iff b c).0 p) ∙ (==_iff b d).0 q) (starts_with-either s x y h' k')

pub starts_with_refl : (s : Text) → starts_with s s ≡ true
unfolding starts_with
starts_with_refl [] = refl
starts_with_refl (c ∷ s) = rw ((==_iff c c).1 refl) (starts_with_refl s)

pub starts_with-same :
    (s x : Text) → text_eq s x ≡ true → (y : Text) → starts_with (s ++ y) (x ++ y) ≡ true
unfolding starts_with text_eq
starts_with-same [] [] e y = starts_with_refl y
starts_with-same [] (d ∷ x) e y = cc
starts_with-same (c ∷ s) [] e y = cc
starts_with-same (c ∷ s) (d ∷ x) e y =
    let (p, q) = both (c == d) (text_eq s x) e in rw p (starts_with-same s x q y)

pub starts_with-longer : (s x y : Text) → starts_with s x ≡ true → starts_with (s ++ y) x ≡ true
unfolding starts_with
starts_with-longer s [] y e = refl
starts_with-longer [] (d ∷ x) y e = cc
starts_with-longer (c ∷ s) (d ∷ x) y e =
    let (p, q) = both (c == d) (starts_with s x) e in rw p (starts_with-longer s x y q)

pub text_eq_refl : (s : Text) → text_eq s s ≡ true
unfolding text_eq
text_eq_refl [] = refl
text_eq_refl (c ∷ s) = rw ((==_iff c c).1 refl) (text_eq_refl s)

pub text_eq-eq : (s x : Text) → text_eq s x ≡ true → s ≡ x
unfolding text_eq
text_eq-eq [] [] e = refl
text_eq-eq [] (d ∷ x) e = cc
text_eq-eq (c ∷ s) [] e = cc
text_eq-eq (c ∷ s) (d ∷ x) e =
    let (p, q) = both (c == d) (text_eq s x) e in
    let head = (==_iff c d).0 p in let tail = text_eq-eq s x q in cc

pub starts_with-append : (x r : Text) → starts_with (x ++ r) x ≡ true
unfolding starts_with
starts_with-append [] r = refl
starts_with-append (c ∷ x) r = rw ((==_iff c c).1 refl) (starts_with-append x r)

pub starts_with-rest : (s x : Text) → starts_with s x ≡ true → (r : Text) × (s ≡ x ++ r)
unfolding starts_with
starts_with-rest s [] e = (s, refl)
starts_with-rest [] (d ∷ x) e = cc
starts_with-rest (c ∷ s) (d ∷ x) e =
    let (p, q) = both (c == d) (starts_with s x) e in
    let head = (==_iff c d).0 p in let (r, tail) = starts_with-rest s x q in (r, cc)

==_comm : (c d : ℕ) → (c == d) ≡ (d == c)
==_comm c d = ground arith

pub text_eq_comm : (s t : Text) → text_eq s t ≡ text_eq t s
unfolding text_eq
text_eq_comm [] [] = refl
text_eq_comm [] (d ∷ t) = refl
text_eq_comm (c ∷ s) [] = refl
text_eq_comm (c ∷ s) (d ∷ t) = rw (==_comm c d, text_eq_comm s t) refl
