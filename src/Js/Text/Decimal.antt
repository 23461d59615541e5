-- ===== src/Js/Text/Decimal.antt =====
-- Reading a printed whole number back.
use leakshield.Base.{
  ℕ, zero, suc, ◌+◌, ◌*◌, ◌-◌, ◌/◌, ◌%◌, ◌<◌, ◌≡◌, sym, ap, ◌∙◌, [], ◌∷◌, arith, ltb, if_either,
}
use leakshield.Js.Text.{Text, decimal, digits_from}

-- The value of the digits, behind those that have been read.
abbrev value : ℕ → Text → ℕ
value n [] = n
value n (c ∷ s) = value (n * 10 + (c - b'0')) s

value-digits_from : (f n : ℕ) (acc : Text) → n < f → value 0 (digits_from f n acc) ≡ value n acc
unfolding digits_from
value-digits_from zero n acc h = absurd (omega arith)
value-digits_from (suc f) n acc h =
    let digit : n / 10 * 10 + (b'0' + n % 10 - b'0') ≡ n = omega arith in
    if_either {A = Text} (λ t. value 0 t ≡ value n acc) (ltb n 10) _ _
      (λ e.
        (let small : 0 * 10 + (b'0' + n % 10 - b'0') ≡ n = ground arith in
          ap (λ k. value k acc) small))
      (λ e.
        (let deep = value-digits_from f (n / 10) ((b'0' + n % 10) ∷ acc) (ground arith) in
          deep ∙ ap (λ k. value k acc) digit))

value-decimal : (n : ℕ) → value 0 (decimal n) ≡ n
unfolding decimal
value-decimal n = value-digits_from (suc n) n [] (omega arith)

-- Two numbers that print alike are one.
pub decimal-inj : (m n : ℕ) → decimal m ≡ decimal n → m ≡ n
decimal-inj m n e = sym (value-decimal m) ∙ ap (value 0) e ∙ value-decimal n
