-- ===== src/Contracts/Platform.antt =====
-- What the program takes from its platform: ISO timestamps and the size of JSON text.
use tego_next.Base.{ℕ, ◌^◌, ◌-◌, Text, Option, some, Bool, leb, ◌≡◌}
use tego_next.Contracts.Json.{JsonValue}

pub record Platform : Type 0 where
  -- `Date.parse`, in milliseconds; `none` for NaN.
  pub parse_date : Text → Option ℕ
  -- `new Date(ms).toISOString()`.
  pub iso_date : ℕ → Text
  -- `Buffer.byteLength(JSON.stringify(value), "utf8")`.
  pub json_bytes : JsonValue → ℕ

-- ECMAScript: parsing what `toISOString` prints gives the time back.
abbrev pub HasIsoRoundTrip : Platform → Type 0
HasIsoRoundTrip p = (ms : ℕ) → p.parse_date (p.iso_date ms) ≡ some ms

-- `Number.isSafeInteger` on a non-negative integer.
abbrev pub max_safe_integer : ℕ
max_safe_integer = 2 ^ 53 - 1

abbrev pub is_safe_integer : ℕ → Bool
is_safe_integer n = leb n max_safe_integer
