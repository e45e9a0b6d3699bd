-- ===== src/Contracts/Identity/Printing.antt =====
-- `toString` of a bigint that is not negative.
use tego_next.Base.{
  ℕ, zero, suc, ◌+◌, ◌/◌, ◌%◌, ◌<◌, Text, [], ◌∷◌, ltb, if◌then◌else◌, ◌≡◌, arith, Bool-cases, inl,
  inr, ap,
}
use tego_next.Contracts.Identity.{decimal_value, decimal_value_from}

-- The digits of `n` before those given; each round takes one, and `n` rounds and one suffice.
print_digits : ℕ → ℕ → Text → Text
print_digits zero n rest = rest
print_digits (suc fuel) n rest =
    let longer = print_digits fuel (n / 10) ((b'0' + n % 10) ∷ rest) in
    if ltb n 10 then (b'0' + n) ∷ rest else longer

unfoldable pub decimal_text : ℕ → Text
unfolding print_digits
decimal_text n = print_digits (suc n) n []

value-print_digits :
    (fuel n : ℕ) (rest : Text)
    → n < fuel
    → decimal_value_from 0 (print_digits fuel n rest) ≡ decimal_value_from n rest
unfolding print_digits decimal_value_from
value-print_digits zero n rest h = absurd (omega arith)
value-print_digits (suc fuel) n rest h = elim (Bool-cases (ltb n 10)) [
  | inl e ↦ rw e (ap (λ d. decimal_value_from d rest) (omega arith))
  | inr e ↦
      let smaller : n / 10 < fuel = ground arith in
      rw (e, value-print_digits fuel (n / 10) ((b'0' + n % 10) ∷ rest) smaller)
        (ap (λ d. decimal_value_from d rest) (omega arith))
]

-- What is printed is read back.
pub decimal_value-decimal_text : (n : ℕ) → decimal_value (decimal_text n) ≡ n
unfolding decimal_value decimal_value_from decimal_text
decimal_value-decimal_text n = value-print_digits (suc n) n [] (omega arith)
