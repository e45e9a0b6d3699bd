-- ===== src/Versions/Order/Identifiers.antt =====
-- The order of identifiers and of lists of them.
use tego_next.Base.{
  ℕ, Bool, true, false, Text, text_beq, text_beq_iff, text_eq, List, [], ◌∷◌, length, before,
  before_trans, before_asym, before_irrefl, before_total, if◌then◌else◌, All, ◌≡◌, ◌≢◌, refl, sym,
  ap, ap₂, ◌∙◌, arith, Bool-cases, inl, inr,
}
use tego_next.Contracts.Identity.{decimal_pattern}
use tego_next.Contracts.State.{Comparison, less, equal, greater}
use tego_next.Versions.{
  or_next, compare_numbers, compare_units, strip_zeros, or_zero, compare_numeric_identifier,
  is_numeric, compare_identifier, compare_prerelease,
}
use tego_next.Versions.Ranges.{is_above}
use tego_next.Versions.Parse.{is_identifier}
use tego_next.Versions.Order.{
  flip, IsOrder, flip-or_next, or_next-equal, chain_both, both-IsOrder, agreeing-IsOrder,
  numbers-IsOrder,
}

abbrev pub IsTag : Text → Type 0
IsTag t = is_identifier t ≡ true

units-IsOrder : IsOrder (λ (t : Text). Unit {0}) compare_units
unfolding compare_units
units-IsOrder = record {
  same = λ a b p q h. ground (arith, before_total a b);
  flips = λ a b p q. ground (arith, before_asym a b, before_asym b a);
  chains = λ a b c p q r h k. ground (
    arith,
    before_total a b,
    before_total b c,
    before_trans a b c,
    before_asym a c,
    before_asym b a,
    before_asym c b,
    before_asym a b,
    before_asym b c,
  );
}

canonical : (t : Text) → decimal_pattern t ≡ true → or_zero (strip_zeros t) ≡ t
unfolding decimal_pattern strip_zeros
canonical [] h = cc
canonical (c ∷ []) h = ground arith
canonical (c ∷ d ∷ t) h = ground arith

-- Numbers come first, by their length and then their digits; other identifiers by their units.
abbrev class : Text → ℕ
class t = if is_numeric t then 0 else 1

abbrev size : Text → ℕ
size t = if is_numeric t then length t else 0

abbrev key_compare : Text → Text → Comparison
key_compare l r =
    or_next (compare_numbers (class l) (class r))
      (or_next (compare_numbers (size l) (size r)) (compare_units l r))

key-IsOrder : IsOrder IsTag key_compare
key-IsOrder =
    both-IsOrder (λ _. Unit) (λ _. Unit) IsTag class (λ t. t) compare_numbers _ (λ t p. (tt, tt))
      (λ a b p q. q) numbers-IsOrder
      (both-IsOrder (λ _. Unit) (λ _. Unit) (λ _. Unit) size (λ t. t) compare_numbers compare_units
        (λ t p. (tt, tt)) (λ a b p q. q) numbers-IsOrder units-IsOrder)

abbrev pub pick : Text → Text → Comparison
pick l r = if text_beq l r then equal else compare_identifier l r

numbers_self : (n : ℕ) → compare_numbers n n ≡ equal
unfolding compare_numbers
numbers_self n = ground arith

key_self : (t : Text) → key_compare t t ≡ equal
unfolding compare_units
key_self t = rw (numbers_self (class t), numbers_self (size t), before_irrefl t) refl

units_apart :
    (l r : Text) → text_beq l r ≡ false → (if before l r then less else greater) ≡ compare_units l r
unfolding compare_units
units_apart l r e = ground (arith, before_total l r, text_beq_iff l r)

numeric_canonical : (t : Text) → IsTag t → is_numeric t ≡ true → or_zero (strip_zeros t) ≡ t
numeric_canonical t p n = canonical t (ground arith)

pick-key : (l r : Text) → IsTag l → IsTag r → pick l r ≡ key_compare l r
unfolding compare_identifier compare_numeric_identifier compare_numbers
pick-key l r p q = elim (Bool-cases (text_beq l r)) [
  | inl e ↦ rw (e, (text_beq_iff l r).0 e) (sym (key_self r))
  | inr e ↦ rw e (elim (Bool-cases (is_numeric l)) [
    | inl n ↦ elim (Bool-cases (is_numeric r)) [
      | inl m ↦ rw (n, m) (rw (numeric_canonical l p n, numeric_canonical r q m) refl)
      | inr m ↦ rw (n, m) refl
    ]
    | inr n ↦ elim (Bool-cases (is_numeric r)) [
      | inl m ↦ rw (n, m) refl
      | inr m ↦ rw (n, m) (units_apart l r e)
    ]
  ])
]

pick-IsOrder : IsOrder IsTag pick
pick-IsOrder = agreeing-IsOrder IsTag key_compare pick pick-key key-IsOrder

abbrev pub AreTags : List Text → Type 0
AreTags ts = All IsTag ts

differ :
    (x rest : Comparison) (b : Bool)
    → (b ≡ false → x ≢ equal)
    → (if b then rest else x) ≡ or_next (if b then equal else x) rest
differ x rest true h = refl
differ less rest false h = refl
differ equal rest false h = absurd (h refl refl)
differ greater rest false h = refl

-- The first identifiers decide, then the rest.
prerelease_step :
    (l r : Text) (ls rs : List Text)
    → IsTag l
    → IsTag r
    → compare_prerelease (l ∷ ls) (r ∷ rs) ≡ or_next (pick l r) (compare_prerelease ls rs)
unfolding compare_prerelease
prerelease_step l r ls rs p q =
    differ (compare_identifier l r) (compare_prerelease ls rs) (text_beq l r) (λ e z.
      let picked : pick l r ≡ equal = rw e z in
      let same = pick-IsOrder.same l r p q picked in ground (arith, text_beq_iff l r))

prerelease_same : (l r : List Text) → AreTags l → AreTags r → compare_prerelease l r ≡ equal → l ≡ r
unfolding compare_prerelease
prerelease_same [] [] p q h = refl
prerelease_same [] (r ∷ rs) p q h = cc
prerelease_same (l ∷ ls) [] p q h = cc
prerelease_same (l ∷ ls) (r ∷ rs) (p, ps) (q, qs) h =
    let (e₁, e₂) =
      or_next-equal (pick l r) (compare_prerelease ls rs)
        (sym (prerelease_step l r ls rs p q) ∙ h) in
    ap₂ ◌∷◌ (pick-IsOrder.same l r p q e₁) (prerelease_same ls rs ps qs e₂)

prerelease_flips :
    (l r : List Text)
    → AreTags l
    → AreTags r
    → compare_prerelease r l ≡ flip (compare_prerelease l r)
unfolding compare_prerelease
prerelease_flips [] [] p q = refl
prerelease_flips [] (r ∷ rs) p q = refl
prerelease_flips (l ∷ ls) [] p q = refl
prerelease_flips (l ∷ ls) (r ∷ rs) (p, ps) (q, qs) =
    prerelease_step r l rs ls q p
    ∙ ap₂ or_next (pick-IsOrder.flips l r p q) (prerelease_flips ls rs ps qs)
    ∙ sym (flip-or_next (pick l r) (compare_prerelease ls rs))
    ∙ ap flip (sym (prerelease_step l r ls rs p q))

prerelease_chains :
    (a b c : List Text)
    → AreTags a
    → AreTags b
    → AreTags c
    → is_above (compare_prerelease a b) ≡ false
    → is_above (compare_prerelease b c) ≡ false
    → compare_prerelease a c ≡ or_next (compare_prerelease a b) (compare_prerelease b c)
unfolding compare_prerelease
prerelease_chains [] [] c p q r h k = refl
prerelease_chains [] (y ∷ b) [] p q r h k = cc
prerelease_chains [] (y ∷ b) (z ∷ c) p q r h k = refl
prerelease_chains (x ∷ a) [] c p q r h k = cc
prerelease_chains (x ∷ a) (y ∷ b) [] p q r h k = cc
prerelease_chains (x ∷ a) (y ∷ b) (z ∷ c) (p, ps) (q, qs) (r, rs) h k =
    prerelease_step x z a c p r
    ∙ chain_both (pick x y) (compare_prerelease a b) (pick y z) (compare_prerelease b c) (pick x z)
        (compare_prerelease a c) (pick-IsOrder.chains x y z p q r)
        (prerelease_chains a b c ps qs rs) (ap is_above (sym (prerelease_step x y a b p q)) ∙ h)
        (ap is_above (sym (prerelease_step y z b c q r)) ∙ k)
    ∙ sym (ap₂ or_next (prerelease_step x y a b p q) (prerelease_step y z b c q r))

pub prerelease-IsOrder : IsOrder AreTags compare_prerelease
prerelease-IsOrder = record {
  same = prerelease_same;
  flips = prerelease_flips;
  chains = prerelease_chains;
}
