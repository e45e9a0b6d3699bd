-- ===== src/Base/Outcome.antt =====
-- A call that returns or throws a diagnostic; only the diagnostic's code is kept.
use mathlib.Core.Path.{◌≡◌, refl}
use mathlib.Core.Bool.{Bool, true, false}

pub data Result {ℓ κ} (E : Type κ) (A : Type ℓ) : Type (ℓ ⊔ κ) where
  ok : A → Result E A
  err : E → Result E A

-- `if (!test) throw`.
abbrev pub guard {μ} : {E : Type μ} → Bool → E → Result E (Unit {0})
guard true e = ok tt
guard false e = err e

module _ {ℓ κ μ} {E : Type μ} {A : Type ℓ} {B : Type κ} where
  infixl 5 ◌>>=◌
  -- `await` of a call, and what goes on with its value.
  abbrev pub ◌>>=◌ : Result E A → (A → Result E B) → Result E B
  err thrown >>= next = err thrown
  ok value >>= next = next value

module _ {κ μ} {E : Type μ} {B : Type κ} where
  infixl 5 ◌>>◌
  abbrev pub ◌>>◌ : Result E (Unit {0}) → Result E B → Result E B
  first >> next = first >>= λ _. next

module _ {ℓ κ μ} {E : Type μ} {A : Type ℓ} {B : Type κ} where
  -- A chain of calls that returns: each call returned.
  pub >>=-eq-ok :
      (call : Result E A) (next : A → Result E B) {b : B}
      → (call >>= next) ≡ ok b
      → (a : A) × (call ≡ ok a) × (next a ≡ ok b)
  >>=-eq-ok (err thrown) next h = cc
  >>=-eq-ok (ok value) next h = (value, refl, h)

pub guard-eq-ok {μ} : {E : Type μ} (t : Bool) (e : E) {u : Unit {0}} → guard t e ≡ ok u → t ≡ true
guard-eq-ok true e h = refl
guard-eq-ok false e h = cc

pub ok-injective {ℓ μ} :
    {E : Type μ} {A : Type ℓ} {a b : A} → ◌≡◌ {A = Result E A} (ok a) (ok b) → a ≡ b
ok-injective h = cc

module _ {κ μ} {E : Type μ} {B : Type κ} where
  -- A call behind a check returns only when the check passes.
  pub guard->>-eq-ok :
      (t : Bool) (e : E) (rest : Result E B) {b : B}
      → (guard t e >> rest) ≡ ok b
      → (t ≡ true) × (rest ≡ ok b)
  guard->>-eq-ok true e rest h = (refl, h)
  guard->>-eq-ok false e rest h = cc
