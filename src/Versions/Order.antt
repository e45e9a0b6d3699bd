-- ===== src/Versions/Order.antt =====
-- The order of versions is total.
pub mod Identifiers
pub mod Total
use tego_next.Base.{
  ℕ, Bool, true, false, not, Text, List, [], ◌∷◌, all, All, ◌≡◌, ◌↔◌, refl, sym, ap, ap₂, ◌∙◌,
  arith, and_split,
}
use tego_next.Contracts.State.{Comparison, less, equal, greater}
use tego_next.Versions.{
  Version, or_next, compare_numbers, compare_prerelease, compare_tags, compare_version,
}
use tego_next.Versions.Ranges.{is_above}
use tego_next.Versions.Parse.{is_identifier}

abbrev pub flip : Comparison → Comparison
flip less = greater
flip equal = equal
flip greater = less

-- A comparison on values with a property: it is 0 on equal values only, changes sign with its
-- arguments, and not-above goes on to not-above, strictly where one step is strict.
pub record IsOrder {A : Type 0} (P : A → Type 0) (compare : A → A → Comparison) : Type 0 where
  pub same : (a b : A) → P a → P b → compare a b ≡ equal → a ≡ b
  pub flips : (a b : A) → P a → P b → compare b a ≡ flip (compare a b)
  pub chains :
      (a b c : A)
      → P a
      → P b
      → P c
      → is_above (compare a b) ≡ false
      → is_above (compare b c) ≡ false
      → compare a c ≡ or_next (compare a b) (compare b c)

pub flip-or_next : (x y : Comparison) → flip (or_next x y) ≡ or_next (flip x) (flip y)
flip-or_next less y = refl
flip-or_next equal y = refl
flip-or_next greater y = refl

pub flip-flip : (x y : Comparison) → x ≡ flip y → y ≡ flip x
flip-flip x less h = rw h refl
flip-flip x equal h = rw h refl
flip-flip x greater h = rw h refl

pub or_next-equal : (x y : Comparison) → or_next x y ≡ equal → (x ≡ equal) × (y ≡ equal)
or_next-equal less y h = cc
or_next-equal equal y h = (refl, h)
or_next-equal greater y h = cc

less_at_end : (x : Comparison) → is_above x ≡ false → or_next x less ≡ less
less_at_end less h = refl
less_at_end equal h = refl
less_at_end greater h = cc

-- Chains of two comparisons that decide one after the other.
pub chain_both :
    (x₁ x₂ y₁ y₂ z₁ z₂ : Comparison)
    → (is_above x₁ ≡ false → is_above y₁ ≡ false → z₁ ≡ or_next x₁ y₁)
    → (is_above x₂ ≡ false → is_above y₂ ≡ false → z₂ ≡ or_next x₂ y₂)
    → is_above (or_next x₁ x₂) ≡ false
    → is_above (or_next y₁ y₂) ≡ false
    → or_next z₁ z₂ ≡ or_next (or_next x₁ x₂) (or_next y₁ y₂)
chain_both less x₂ less y₂ z₁ z₂ f g h k = rw (f refl refl) refl
chain_both less x₂ equal y₂ z₁ z₂ f g h k = rw (f refl refl) refl
chain_both less x₂ greater y₂ z₁ z₂ f g h k = cc
chain_both equal x₂ less y₂ z₁ z₂ f g h k = rw (f refl refl) (sym (less_at_end x₂ h))
chain_both equal x₂ equal y₂ z₁ z₂ f g h k = rw (f refl refl) (g h k)
chain_both equal x₂ greater y₂ z₁ z₂ f g h k = cc
chain_both greater x₂ y₁ y₂ z₁ z₂ f g h k = cc

-- Two orders on parts of a value, the second decides where the first does not.
pub both-IsOrder :
    {A B C : Type 0} (P : A → Type 0) (Q : B → Type 0) (R : C → Type 0) (f : C → A) (g : C → B)
    (compare : A → A → Comparison) (next : B → B → Comparison)
    → ((c : C) → R c → P (f c) × Q (g c))
    → ((c d : C) → f c ≡ f d → g c ≡ g d → c ≡ d)
    → IsOrder P compare
    → IsOrder Q next
    → IsOrder R (λ c d. or_next (compare (f c) (f d)) (next (g c) (g d)))
both-IsOrder P Q R f g compare next parts whole m n = record {
  same = λ a b p q e.
      let (e₁, e₂) = or_next-equal (compare (f a) (f b)) (next (g a) (g b)) e in
      whole a b (m.same (f a) (f b) (parts a p).0 (parts b q).0 e₁)
        (n.same (g a) (g b) (parts a p).1 (parts b q).1 e₂);
  flips = λ a b p q.
      ap₂ or_next (m.flips (f a) (f b) (parts a p).0 (parts b q).0)
        (n.flips (g a) (g b) (parts a p).1 (parts b q).1)
      ∙ sym (flip-or_next (compare (f a) (f b)) (next (g a) (g b)));
  chains = λ a b c p q r.
      chain_both _ _ _ _ _ _ (m.chains (f a) (f b) (f c) (parts a p).0 (parts b q).0 (parts c r).0)
        (n.chains (g a) (g b) (g c) (parts a p).1 (parts b q).1 (parts c r).1);
}

-- Two comparisons that agree on the values with the property.
pub agreeing-IsOrder :
    {A : Type 0} (P : A → Type 0) (compare other : A → A → Comparison)
    → ((a b : A) → P a → P b → other a b ≡ compare a b)
    → IsOrder P compare
    → IsOrder P other
agreeing-IsOrder P compare other agree m = record {
  same = λ a b p q e. m.same a b p q (sym (agree a b p q) ∙ e);
  flips = λ a b p q. agree b a q p ∙ m.flips a b p q ∙ ap flip (sym (agree a b p q));
  chains = λ a b c p q r h k.
      agree a c p r
      ∙ m.chains a b c p q r (ap is_above (sym (agree a b p q)) ∙ h)
          (ap is_above (sym (agree b c q r)) ∙ k)
      ∙ ap₂ or_next (sym (agree a b p q)) (sym (agree b c q r));
}

pub numbers-IsOrder : IsOrder (λ (n : ℕ). Unit {0}) compare_numbers
unfolding compare_numbers
numbers-IsOrder = record {
  same = λ a b p q h. ground arith;
  flips = λ a b p q. ground arith;
  chains = λ a b c p q r h k. ground arith;
}
