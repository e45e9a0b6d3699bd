-- ===== src/Contracts/Identity/Decimal.antt =====
-- Decimal strings and the numbers that they denote.
use tego_next.Base.{
  ℕ, zero, suc, ◌+◌, ◌-◌, ◌*◌, ◌^◌, ◌≤◌, ◌<◌, Text, Bool, true, ◌&&◌, [], ◌∷◌, ltb, nat_beq,
  if◌then◌else◌, ◌≡◌, ap, arith, all, length, before, and_split, ◌↔◌,
}
use native.Mathlib.Decide.{dec_lt}
use native.Mathlib.Nat.{pow-suc}
use tego_next.Contracts.Identity.{is_digit, decimal_value_from}

regroup : (acc d w v : ℕ) → (acc * 10 + d) * w + v ≡ acc * (w * 10) + ((0 * 10 + d) * w + v)
regroup acc d w v = omega arith

-- Digits below the accumulator's place.
pub value_split :
    (acc : ℕ) (t : Text) → decimal_value_from acc t ≡ acc * 10 ^ length t + decimal_value_from 0 t
unfolding decimal_value_from
value_split acc [] = ground arith
value_split acc (c ∷ t) =
    rw (value_split (acc * 10 + (c - b'0')) t, value_split (0 * 10 + (c - b'0')) t, pow-suc)
      (regroup acc (c - b'0') (10 ^ length t) (decimal_value_from 0 t))

pub value-cons :
    (c : ℕ) (t : Text)
    → decimal_value_from 0 (c ∷ t) ≡ (c - b'0') * 10 ^ length t + decimal_value_from 0 t
unfolding decimal_value_from
value-cons c t =
    rw (value_split (0 * 10 + (c - b'0')) t)
      (ap (λ d. d * 10 ^ length t + decimal_value_from 0 t) (omega arith))

digit_bound : (d w v : ℕ) → d < 10 → v < w → d * w + v < w * 10
digit_bound d w v h k = grind arith

pub value-lt-pow : (t : Text) → all is_digit t ≡ true → decimal_value_from 0 t < 10 ^ length t
unfolding decimal_value_from
value-lt-pow [] h = omega arith
value-lt-pow (c ∷ t) h =
    let (p, q) = and_split (is_digit c) (all is_digit t) h in
    rw (value-cons c t, pow-suc)
      (digit_bound (c - b'0') (10 ^ length t) (decimal_value_from 0 t) (ground arith)
        (value-lt-pow t q))

pow_pos : (n : ℕ) → 0 < 10 ^ n
pow_pos zero = omega arith
pow_pos (suc n) = rw pow-suc (omega (arith, pow_pos n))

top_digit : (d w v : ℕ) → 1 ≤ d → w ≤ d * w + v
top_digit d w v h = grind arith

-- A canonical decimal with a nonzero head has at least the value of its first place.
pub pow-le-value : (c : ℕ) (t : Text) → b'1' ≤ c → 10 ^ length t ≤ decimal_value_from 0 (c ∷ t)
pow-le-value c t h =
    rw (value-cons c t)
      (top_digit (c - b'0') (10 ^ length t) (decimal_value_from 0 t) (omega arith))

smaller_digit : (d e w v u : ℕ) → d < e → v < w → d * w + v < e * w + u
smaller_digit d e w v u h k = grind arith

abbrev unit_before : ℕ → ℕ → Bool → Bool
unit_before a b rest = if ltb a b then true else nat_beq a b && rest

digit_order :
    (a b : ℕ) (rest : Bool) (w v u : ℕ)
    → is_digit a ≡ true
    → is_digit b ≡ true
    → v < w
    → u < w
    → (rest ≡ true) ↔ (v < u)
    → (unit_before a b rest ≡ true) ↔ ((a - b'0') * w + v < (b - b'0') * w + u)
digit_order a b rest w v u p q h k ih = elim (dec_lt a b) [
  | yes l ↦ (λ _. smaller_digit (a - b'0') (b - b'0') w v u (ground arith) h, λ _. ground arith)
  | no n ↦ elim (dec_lt b a) [
    | yes l ↦ (
      λ x. absurd (ground arith),
      λ x. absurd (omega (arith, smaller_digit (b - b'0') (a - b'0') w u v (ground arith) k)),
    )
    | no m ↦
        let e : a ≡ b = omega arith in
        rw e (λ x. ground (arith, ih.0), λ x. ground (arith, ih.1 (omega arith)))
  ]
]

-- Between digit strings of one length, code-unit order is numeric order.
pub before_iff_value :
    (s t : Text)
    → length s ≡ length t
    → all is_digit s ≡ true
    → all is_digit t ≡ true
    → (before s t ≡ true) ↔ (decimal_value_from 0 s < decimal_value_from 0 t)
unfolding before
before_iff_value [] [] e h k = (λ p. cc, λ p. absurd (omega arith))
before_iff_value [] (b ∷ t) e h k = absurd (omega arith)
before_iff_value (a ∷ s) [] e h k = absurd (omega arith)
before_iff_value (a ∷ s) (b ∷ t) e h k =
    let (p, q) = and_split (is_digit a) (all is_digit s) h in
    let (p', q') = and_split (is_digit b) (all is_digit t) k in
    let ih = before_iff_value s t (omega arith) q q' in
    let l : length s ≡ length t = omega arith in
    rw (value-cons a s, value-cons b t, l)
      (digit_order a b (before s t) (10 ^ length t) (decimal_value_from 0 s)
        (decimal_value_from 0 t) p p' (rw l at (value-lt-pow s q)) (value-lt-pow t q') ih)
