-- ===== src/Base/Options.antt =====
-- Chains of calls that may return `undefined`.
use mathlib.Core.Path.{◌≡◌, refl}
use mathlib.Core.Bool.{Bool, true, false}
use mathlib.Core.Option.{Option, none, some}

module _ {ℓ κ} {A : Type ℓ} {B : Type κ} where
  infixl 5 ◌>>=◌
  abbrev pub ◌>>=◌ : Option A → (A → Option B) → Option B
  none >>= next = none
  some a >>= next = next a

  -- A chain that has a value: each call has one.
  pub >>=-eq-some :
      (call : Option A) (next : A → Option B) {b : B}
      → (call >>= next) ≡ some b
      → (a : A) × (call ≡ some a) × (next a ≡ some b)
  >>=-eq-some none next h = cc
  >>=-eq-some (some a) next h = (a, refl, h)

module _ {κ} {B : Type κ} where
  infixl 5 ◌>>◌
  abbrev pub ◌>>◌ : Option (Unit {0}) → Option B → Option B
  first >> rest = first >>= λ _. rest

-- `if (!test) return undefined`.
abbrev pub require : Bool → Option (Unit {0})
require true = some tt
require false = none

pub require-eq-some : (t : Bool) {u : Unit {0}} → require t ≡ some u → t ≡ true
require-eq-some true h = refl
require-eq-some false h = cc

module _ {ℓ κ μ} {A : Type ℓ} {B : Type κ} (P : Option B → Type μ) where
  -- What holds of nothing and of every continuation holds of the chain.
  pub >>=-holds :
      (call : Option A) (next : A → Option B) → P none → ((a : A) → P (next a)) → P (call >>= next)
  >>=-holds none next h k = h
  >>=-holds (some a) next h k = k a

module _ {κ μ} {B : Type κ} (P : Option B → Type μ) where
  pub require-holds :
      (t : Bool) (rest : Option B) → P none → (t ≡ true → P rest) → P (require t >> rest)
  require-holds true rest h k = k refl
  require-holds false rest h k = h
