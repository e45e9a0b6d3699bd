-- ===== src/Base/Equality.antt =====
-- Boolean equality as an interface; the source's `===` on strings and numbers is an instance.
use Prim.Native.Nat.{ℕ}
use mathlib.Core.Path.{◌≡◌}
use mathlib.Core.Logic.{◌≢◌, ◌↔◌}
use mathlib.Core.Bool.{Bool, true, false}
use native.Mathlib.Omega.{arith}
use tego_next.Base.Tests.{nat_beq, nat_beq_iff}

pub record Eq {ℓ} (T : Type ℓ) : Type ℓ where
  pub beq : T → T → Bool
  pub beq_iff : (x y : T) → (beq x y ≡ true) ↔ (x ≡ y)

module _ {ℓ} {T : Type ℓ} ⦃eq : Eq T⦄ where
  infix 50 ◌==◌
  abbrev pub ◌==◌ : T → T → Bool
  x == y = eq.beq x y

instance abbrev pub nat_eq : Eq ℕ
nat_eq = record { beq = nat_beq; beq_iff = nat_beq_iff }

module _ {ℓ} {A : Type ℓ} ⦃e : Eq A⦄ where
  pub eq_self : (a : A) → (a == a) ≡ true
  eq_self a = ground (arith, e.beq_iff a a)

  pub neq_ne : (a b : A) → (a == b) ≡ false → a ≢ b
  neq_ne a b h p = ground (arith, e.beq_iff a b)
