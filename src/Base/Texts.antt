-- ===== src/Base/Texts.antt =====
-- ECMAScript strings: sequences of UTF-16 code units, compared unit by unit.
use Prim.Native.Nat.{ℕ}
use mathlib.Core.Path.{◌≡◌, refl}
use mathlib.Core.Bool.{Bool, true, false, ◌&&◌}
use mathlib.Core.Logic.{◌↔◌}
use mathlib.Core.List.{List, [], ◌∷◌}
use native.Mathlib.Omega.{arith}
use tego_next.Base.Tests.{ltb, nat_beq, if◌then◌else◌}
use tego_next.Base.Equality.{Eq}
use Prim.Native.String.{String}
use Prim.Native.Char.{code}

abbrev pub Text : Type 0
Text = List ℕ

unfoldable pub text_beq : Text → Text → Bool
text_beq [] [] = true
text_beq [] (b ∷ bs) = false
text_beq (a ∷ as') [] = false
text_beq (a ∷ as') (b ∷ bs) = nat_beq a b && text_beq as' bs

pub text_beq_iff : (s t : Text) → (text_beq s t ≡ true) ↔ (s ≡ t)
unfolding text_beq
text_beq_iff [] [] = ground arith
text_beq_iff [] (b ∷ bs) = ground arith
text_beq_iff (a ∷ r) [] = ground arith
text_beq_iff (a ∷ r) (b ∷ bs) = ground (arith, text_beq_iff r bs)

instance abbrev pub text_eq : Eq Text
text_eq = record { beq = text_beq; beq_iff = text_beq_iff }

-- `left < right` on strings.
unfoldable pub before : Text → Text → Bool
before [] [] = false
before [] (b ∷ bs) = true
before (a ∷ r) [] = false
before (a ∷ r) (b ∷ bs) = if ltb a b then true else nat_beq a b && before r bs

pub before_irrefl : (s : Text) → before s s ≡ false
unfolding before
before_irrefl [] = refl
before_irrefl (a ∷ r) = ground (arith, before_irrefl r)

pub before_asym : (s t : Text) → before s t ≡ true → before t s ≡ false
unfolding before
before_asym [] [] h = refl
before_asym [] (b ∷ t) h = refl
before_asym (a ∷ s) [] h = cc
before_asym (a ∷ s) (b ∷ t) h = ground (arith, before_asym s t)

pub before_trans : (s t u : Text) → before s t ≡ true → before t u ≡ true → before s u ≡ true
unfolding before
before_trans [] [] u h k = cc
before_trans [] (b ∷ t) [] h k = cc
before_trans [] (b ∷ t) (c ∷ u) h k = refl
before_trans (a ∷ s) [] u h k = cc
before_trans (a ∷ s) (b ∷ t) [] h k = cc
before_trans (a ∷ s) (b ∷ t) (c ∷ u) h k = ground (arith, before_trans s t u)

pub before_total : (s t : Text) → before s t ≡ false → before t s ≡ false → s ≡ t
unfolding before
before_total [] [] h k = refl
before_total [] (b ∷ t) h k = cc
before_total (a ∷ s) [] h k = cc
before_total (a ∷ s) (b ∷ t) h k = ground (arith, before_total s t)

-- The code units of an ASCII literal.
abbrev pub text : String → Text
text String.[] = []
text (String.◌∷◌ c s) = code c ∷ text s
