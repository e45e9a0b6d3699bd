-- ===== src/Contracts/Strings.antt =====
-- packages/contracts/src/state.ts: portable strings and the order key that the SQL drivers store.
pub mod Utf16
pub mod OrderKey
use tego_next.Base.{
  ℕ, ◌/◌, ◌%◌, Text, Bool, true, false, ◌&&◌, List, [], ◌∷◌, leb, ltb, nat_beq, if◌then◌else◌,
  Result, ok, err,
}

-- A surrogate that opens or that closes a pair.
abbrev pub is_leading : ℕ → Bool
is_leading c = leb 0xd800 c && leb c 0xdbff

abbrev pub is_trailing : ℕ → Bool
is_trailing c = leb 0xdc00 c && leb c 0xdfff

-- A pair is skipped whole; past the end `charCodeAt` gives no integer.
unfoldable pub is_portable_state_string : Text → Bool
is_portable_state_string [] = true
is_portable_state_string (c ∷ []) =
    if nat_beq c 0
    then false
    else if is_leading c
    then false
    else if is_trailing c
    then false
    else true
is_portable_state_string (c ∷ d ∷ rest) =
    let after_pair = is_portable_state_string rest in
    let after_one = is_portable_state_string (d ∷ rest) in
    if nat_beq c 0
    then false
    else if is_leading c
    then (if is_trailing d then after_pair else false)
    else if is_trailing c
    then false
    else after_one

-- Two bytes for each unit, the high one first.
order_bytes : Text → List ℕ
order_bytes [] = []
order_bytes (c ∷ rest) = c / 256 ∷ c % 256 ∷ order_bytes rest

pub data KeyError : Type 0 where
  type_error : KeyError

unfoldable pub state_string_order_key : Text → Result KeyError (List ℕ)
unfolding order_bytes
state_string_order_key s = if is_portable_state_string s then ok (order_bytes s) else err type_error
