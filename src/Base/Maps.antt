-- ===== src/Base/Maps.antt =====
-- The ECMAScript `Map`: entries in insertion order; setting a present key keeps its place.
use mathlib.Core.Path.{◌≡◌, refl}
use mathlib.Core.List.{List, [], ◌∷◌}
use mathlib.Core.Option.{Option, none, some}
use native.Mathlib.Omega.{arith}
use mathlib.Core.Logic.{inl, inr}
use mathlib.Core.Path.{◌∙◌}
use tego_next.Base.Tests.{if◌then◌else◌, Bool-cases}
use tego_next.Base.Equality.{Eq, ◌==◌}

abbrev pub Map {ℓ κ} : Type ℓ → Type κ → Type (ℓ ⊔ κ)
Map K V = List (K × V)

module _ {ℓ κ} {K : Type ℓ} {V : Type κ} where
  abbrev pub values : Map K V → List V
  values [] = []
  values ((k, v) ∷ m) = v ∷ values m

module _ {ℓ κ} {K : Type ℓ} {V : Type κ} ⦃e : Eq K⦄ where
  unfoldable pub get : K → Map K V → Option V
  get k [] = none
  get k ((j, v) ∷ m) = if j == k then some v else get k m

  unfoldable pub set : K → V → Map K V → Map K V
  set k v [] = (k, v) ∷ []
  set k v ((j, w) ∷ m) = if j == k then (j, v) ∷ m else (j, w) ∷ set k v m

  unfoldable pub delete : K → Map K V → Map K V
  delete k [] = []
  delete k ((j, w) ∷ m) = let rest = delete k m in if j == k then rest else (j, w) ∷ rest

  pub get-set :
      (k j : K) (v : V) (m : Map K V) → get j (set k v m) ≡ (if k == j then some v else get j m)
  unfolding get set
  get-set k j v [] = refl
  get-set k j v ((i, w) ∷ m) =
      ground (arith, e.beq_iff k j, e.beq_iff i k, e.beq_iff i j, get-set k j v m)

  pub get-delete : (k j : K) (m : Map K V) → get j (delete k m) ≡ (if k == j then none else get j m)
  unfolding get delete
  get-delete k j [] = ground arith
  get-delete k j ((i, w) ∷ m) =
      ground (arith, e.beq_iff k j, e.beq_iff i k, e.beq_iff i j, get-delete k j m)

-- Each key of a map stands once in it.
module _ {K V : Type 0} ⦃e : Eq K⦄ where
  abbrev pub IsUnique : Map K V → Type 0
  IsUnique [] = Unit {0}
  IsUnique ((j, v) ∷ m) = (get j m ≡ none) × IsUnique m

  pub delete_absent : (k : K) (m : Map K V) → get k m ≡ none → delete k m ≡ m
  unfolding get delete
  delete_absent k [] h = refl
  delete_absent k ((j, v) ∷ m) h = ground (arith, delete_absent k m)

  pub IsUnique-set : (k : K) (v : V) (m : Map K V) → IsUnique m → IsUnique (set k v m)
  unfolding get set
  IsUnique-set k v [] u = (refl, tt)
  IsUnique-set k v ((j, w) ∷ m) u = elim (Bool-cases (j == k)) [
    | inl s ↦ rw s u
    | inr s ↦
        let absent = get-set k j v m ∙ ground (arith, e.beq_iff j k, e.beq_iff k j) in
        rw s (absent, IsUnique-set k v m u.1)
  ]
