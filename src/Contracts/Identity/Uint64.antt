-- ===== src/Contracts/Identity/Uint64.antt =====
-- `parseGeneration` tests the length and the code-unit order of a string; what it accepts is the
-- range of an unsigned 64-bit number.
use tego_next.Base.{◌^◌, ◌<◌, Text, true, ◌≡◌}
use tego_next.Contracts.Identity.{decimal_pattern, decimal_value}

abbrev Fits : Text → Type 0
Fits t = (decimal_pattern t ≡ true) × (decimal_value t < 2 ^ 64)
