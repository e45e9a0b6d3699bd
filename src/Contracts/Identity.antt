-- ===== src/Contracts/Identity.antt =====
-- packages/contracts/src/identity.ts: the validated strings that identify things, and the decimal
-- strings that count them. A value that is no string is `none`.
pub mod Decimal
pub mod Uint64
pub mod Printing
use tego_next.Base.{
  ℕ, zero, suc, ◌+◌, ◌-◌, ◌*◌, ◌/◌, ◌%◌, Text, Bool, true, false, ◌&&◌, ◌||◌, not, List, [], ◌∷◌,
  leb, ltb, nat_beq, if◌then◌else◌, ok, err, all, length, Option, none, some, before, ◌==◌, ◌++◌,
  text_eq,
}
use tego_next.Contracts.Diagnostic.{Code, protocol_identity_invalid, Outcome}

abbrev pub is_digit : ℕ → Bool
is_digit c = leb b'0' c && leb c b'9'

abbrev pub is_alphanumeric : ℕ → Bool
is_alphanumeric c = (leb b'A' c && leb c b'Z') || ((leb b'a' c && leb c b'z') || is_digit c)

abbrev pub is_identity_unit : ℕ → Bool
is_identity_unit c = is_alphanumeric c || (nat_beq c b'.' || (nat_beq c b'_' || nat_beq c b'-'))

-- IDENTITY_PATTERN: a letter or digit, then at most 127 letters, digits, dots, `_` or `-`.
unfoldable pub identity_pattern : Text → Bool
identity_pattern [] = false
identity_pattern (c ∷ rest) =
    is_alphanumeric c && (all is_identity_unit rest && leb (length rest) 127)

-- DECIMAL_PATTERN: `0`, or digits that do not begin with `0`.
unfoldable pub decimal_pattern : Text → Bool
decimal_pattern [] = false
decimal_pattern (c ∷ rest) =
    (nat_beq c b'0' && nat_beq (length rest) 0) || ((leb b'1' c && leb c b'9') && all is_digit rest)

abbrev is_lower_hex : ℕ → Bool
is_lower_hex c = is_digit c || (leb b'a' c && leb c b'f')

abbrev drop_prefix : Text → Text → Option Text
drop_prefix [] t = some t
drop_prefix (p ∷ ps) [] = none
drop_prefix (p ∷ ps) (c ∷ t) = let rest = drop_prefix ps t in if nat_beq p c then rest else none

-- "sha256:"
abbrev sha256_prefix : Text
sha256_prefix = b's' ∷ b'h' ∷ b'a' ∷ b'2' ∷ b'5' ∷ b'6' ∷ b':' ∷ []

-- SHA256_PATTERN.
pub sha256_pattern : Text → Bool
sha256_pattern t = elim (drop_prefix sha256_prefix t) [
  | none ↦ false
  | some digits ↦ all is_lower_hex digits && nat_beq (length digits) 64
]

-- A value of type `unknown`: a string, or anything else.
abbrev pub Unknown : Type 0
Unknown = Option Text

unfoldable pub parse_identity : Unknown → Outcome Text
unfolding identity_pattern
parse_identity none = err protocol_identity_invalid
parse_identity (some t) = if identity_pattern t then ok t else err protocol_identity_invalid

unfoldable pub parse_decimal_identity : Unknown → Outcome Text
parse_decimal_identity none = err protocol_identity_invalid
parse_decimal_identity (some t) = if decimal_pattern t then ok t else err protocol_identity_invalid

unfoldable pub parse_artifact_digest : Unknown → Outcome Text
parse_artifact_digest none = err protocol_identity_invalid
parse_artifact_digest (some t) = if sha256_pattern t then ok t else err protocol_identity_invalid

-- UINT64_MAX, "18446744073709551615".
abbrev pub uint64_max : Text
uint64_max =
    b'1' ∷ b'8' ∷ b'4' ∷ b'4' ∷ b'6' ∷ b'7' ∷ b'4' ∷ b'4' ∷ b'0' ∷ b'7' ∷ b'3' ∷ b'7' ∷ b'0' ∷ b'9'
    ∷ b'5' ∷ b'5' ∷ b'1' ∷ b'6' ∷ b'1' ∷ b'5' ∷ []

abbrev exceeds_uint64 : Text → Bool
exceeds_uint64 t =
    ltb (length uint64_max) (length t)
    || (nat_beq (length t) (length uint64_max) && before uint64_max t)

pub parse_generation : Unknown → Outcome Text
parse_generation v = elim (parse_decimal_identity v) [
  | err e ↦ err e
  | ok t ↦ if exceeds_uint64 t then err protocol_identity_invalid else ok t
]

-- `BigInt(t)`.
pub decimal_value_from : ℕ → Text → ℕ
decimal_value_from acc [] = acc
decimal_value_from acc (c ∷ rest) = decimal_value_from (acc * 10 + (c - b'0')) rest

unfoldable pub decimal_value : Text → ℕ
unfolding decimal_value_from
decimal_value t = decimal_value_from 0 t
