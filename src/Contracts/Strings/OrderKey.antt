-- ===== src/Contracts/Strings/OrderKey.antt =====
-- The order key sorts as the strings do.
use tego_next.Base.{ℕ, Text, [], ◌∷◌, ◌≡◌, refl, arith, All, before, ok, List}
use tego_next.Contracts.Strings.Utf16.{IsUnit16}
use tego_next.Contracts.Strings.{state_string_order_key, order_bytes}

before-order_bytes :
    (s t : Text)
    → All IsUnit16 s
    → All IsUnit16 t
    → before (order_bytes s) (order_bytes t) ≡ before s t
unfolding before order_bytes
before-order_bytes [] [] h k = refl
before-order_bytes [] (b ∷ t) h k = refl
before-order_bytes (a ∷ s) [] h k = refl
before-order_bytes (a ∷ s) (b ∷ t) h k = ground (arith, before-order_bytes s t h.1 k.1)

-- For two portable strings, comparing their order keys byte by byte decides as comparing the
-- strings code unit by code unit does.
pub order_key-before :
    (s t : Text) (j k : List ℕ)
    → All IsUnit16 s
    → All IsUnit16 t
    → state_string_order_key s ≡ ok j
    → state_string_order_key t ≡ ok k
    → before j k ≡ before s t
unfolding state_string_order_key
order_key-before s t j k h g e f = ground (arith, before-order_bytes s t h g)
