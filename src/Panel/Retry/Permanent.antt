-- ===== src/Panel/Retry/Permanent.antt =====
-- When a query is not tried again.
use leakshield.Base.{
  not-true, or_cases, or_first, or_second, both, ℕ, ◌≤◌, ◌≡◌, ◌↔◌, ◌⊎◌, inl, inr, refl, sym, ap,
  ◌∙◌, Bool, true, false, not, ◌&&◌, ◌||◌, Option, none, some, [], ◌∷◌, ◌++◌, ltb, if◌then◌else◌,
  arith,
}
use leakshield.Js.Text.{Text, lit, starts_with}
use leakshield.Js.Text.Prefix.{starts_with-append, starts_with-rest}
use leakshield.Panel.Retry.{
  is_word, begins_in_word, skip_three, has_code, has_any_code, mentions_code, retry,
}

-- The three statuses that no further attempt mends.
pub data IsCode : Text → Type 0 where
  unauthorized : IsCode (lit "401")
  forbidden : IsCode (lit "403")
  not_found : IsCode (lit "404")

-- Whether the last character is a word character, below one that is or not.
abbrev pub ends_in_word : Bool → Text → Bool
ends_in_word after_word [] = after_word
ends_in_word after_word (c ∷ s) = ends_in_word (is_word c) s

-- One of the codes stands in the text as a word of its own.
pub record Mentions (after_word : Bool) (s : Text) : Type 0 where
  pub before : Text
  pub code : Text
  pub after : Text
  pub parts : s ≡ before ++ (code ++ after)
  pub known : IsCode code
  pub left : ends_in_word after_word before ≡ false
  pub right : begins_in_word after ≡ false

skip-code : (code s : Text) → IsCode code → skip_three (code ++ s) ≡ s
unfolding lit
skip-code code s unauthorized = refl
skip-code code s forbidden = refl
skip-code code s not_found = refl

has_code-parts :
    (code s : Text)
    → IsCode code
    → has_code code s ≡ true
    → (after : Text) × (s ≡ code ++ after) × (begins_in_word after ≡ false)
unfolding has_code
has_code-parts code s k h =
    let (p, q) = both (starts_with s code) (not (begins_in_word (skip_three s))) h in
    let (after, e) = starts_with-rest s code p in
    (
      after,
      e,
      sym (ap (λ t. begins_in_word (skip_three t)) e ∙ ap begins_in_word (skip-code code after k))
          ∙ not-true _ q,
    )

parts-has_code :
    (code after : Text)
    → IsCode code
    → begins_in_word after ≡ false
    → has_code code (code ++ after) ≡ true
unfolding has_code
parts-has_code code after k h = rw (starts_with-append code after, skip-code code after k, h) refl

-- A code stands at the front.
abbrev Front : Text → Type 0
Front s =
    (code : Text) × IsCode code
    × ((after : Text) × (s ≡ code ++ after) × (begins_in_word after ≡ false))

has_any_code-Front : (s : Text) → has_any_code s ≡ true → Front s
unfolding has_any_code
has_any_code-Front s h =
    elim (or_cases (has_code (lit "401") s || has_code (lit "403") s) (has_code (lit "404") s) h) [
      | inl k ↦ elim (or_cases (has_code (lit "401") s) (has_code (lit "403") s) k) [
        | inl a ↦ (lit "401", unauthorized, has_code-parts (lit "401") s unauthorized a)
        | inr b ↦ (lit "403", forbidden, has_code-parts (lit "403") s forbidden b)
      ]
      | inr c ↦ (lit "404", not_found, has_code-parts (lit "404") s not_found c)
    ]

Front-has_any_code :
    (code after : Text)
    → IsCode code
    → begins_in_word after ≡ false
    → has_any_code (code ++ after) ≡ true
unfolding has_any_code
Front-has_any_code code after unauthorized h =
    or_first _ _ (or_first _ _ (parts-has_code (lit "401") after unauthorized h))
Front-has_any_code code after forbidden h = or_first _ _ (
    or_second (has_code (lit "401") (lit "403" ++ after)) _
      (parts-has_code (lit "403") after forbidden h))
Front-has_any_code code after not_found h =
    or_second
      (has_code (lit "401") (lit "404" ++ after) || has_code (lit "403") (lit "404" ++ after)) _
      (parts-has_code (lit "404") after not_found h)

mentions_code-Mentions :
    (after_word : Bool) (s : Text) → mentions_code after_word s ≡ true → Mentions after_word s
unfolding mentions_code
mentions_code-Mentions after_word [] h = cc
mentions_code-Mentions after_word (c ∷ s) h =
    elim (or_cases (not after_word && has_any_code (c ∷ s)) _ h) [
      | inl here ↦
          let (p, q) = both (not after_word) (has_any_code (c ∷ s)) here in
          let (code, k, (after, e, r)) = has_any_code-Front (c ∷ s) q in
          record {
            before = [];
            code = code;
            after = after;
            parts = e;
            known = k;
            left = not-true after_word p;
            right = r;
          }
      | inr there ↦
          let m = mentions_code-Mentions (is_word c) s there in
          record {
            before = c ∷ m.before;
            code = m.code;
            after = m.after;
            parts = ap (λ t. c ∷ t) m.parts;
            known = m.known;
            left = m.left;
            right = m.right;
          }
    ]

mentions_front :
    (after_word : Bool) (c : ℕ) (s : Text)
    → after_word ≡ false
    → has_any_code (c ∷ s) ≡ true
    → mentions_code after_word (c ∷ s) ≡ true
unfolding mentions_code
mentions_front after_word c s l h =
    or_first (not after_word && has_any_code (c ∷ s)) (mentions_code (is_word c) s) (rw (l, h) refl)

code_front :
    (after_word : Bool) (code after : Text)
    → IsCode code
    → after_word ≡ false
    → begins_in_word after ≡ false
    → mentions_code after_word (code ++ after) ≡ true
unfolding lit
code_front after_word code after unauthorized l r =
    mentions_front after_word b'4' _ l (Front-has_any_code (lit "401") after unauthorized r)
code_front after_word code after forbidden l r =
    mentions_front after_word b'4' _ l (Front-has_any_code (lit "403") after forbidden r)
code_front after_word code after not_found l r =
    mentions_front after_word b'4' _ l (Front-has_any_code (lit "404") after not_found r)

Mentions-mentions_code :
    (after_word : Bool) (before code after : Text)
    → IsCode code
    → ends_in_word after_word before ≡ false
    → begins_in_word after ≡ false
    → mentions_code after_word (before ++ (code ++ after)) ≡ true
unfolding mentions_code
Mentions-mentions_code after_word [] code after k l r = code_front after_word code after k l r
Mentions-mentions_code after_word (c ∷ before) code after k l r =
    or_second (not after_word && has_any_code (c ∷ (before ++ (code ++ after)))) _
      (Mentions-mentions_code (is_word c) before code after k l r)

-- The message of an error names one of the codes, at neither end inside a longer word.
pub IsPermanent : Option Text → Type 0
IsPermanent none = ⊥
IsPermanent (some message) = Mentions false message

ltb-false : (n : ℕ) → (ltb n 2 ≡ false) ↔ (2 ≤ n)
ltb-false n = ground arith

given_up :
    (P : Type 0) (m : Bool) (n : ℕ)
    → (m ≡ true → P)
    → (P → m ≡ true)
    → ((if m then false else ltb n 2) ≡ false) ↔ ((2 ≤ n) ⊎ P)
given_up P true n f g = (λ h. inr (f refl), λ h. refl)
given_up P false n f g = (
  λ h. inl ((ltb-false n).0 h),
  λ h. elim h [ inl k ↦ (ltb-false n).1 k | inr p ↦ let wrong = g p in cc ],
)

-- A failed query is given up exactly when it has failed twice before, or its error's message has 401, 403
-- or 404 as a word of its own.
pub retry_iff :
    (failures : ℕ) (message : Option Text)
    → (retry failures message ≡ false) ↔ ((2 ≤ failures) ⊎ IsPermanent message)
unfolding retry IsPermanent
retry_iff failures none = given_up ⊥ false failures (λ e. cc) (λ x. elim x [ ])
retry_iff failures (some message) =
    given_up (Mentions false message) (mentions_code false message) failures
      (mentions_code-Mentions false message)
      (λ m.
        rw m.parts (Mentions-mentions_code false m.before m.code m.after m.known m.left m.right))
