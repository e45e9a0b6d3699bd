-- ===== src/Retry.antt =====
-- packages/runtime/src/reconcile/retry.ts: the delay before a failed operation is tried again.
-- Every product here is exact in a double: it is a safe integer times a power of two.
use Prim.Native.Nat.{bit_xor}
use tego_next.Base.{
  ℕ, ◌+◌, ◌-◌, ◌*◌, ◌/◌, ◌%◌, ◌^◌, min, max, Text, Bool, ◌&&◌, [], ◌∷◌, ltb, leb, if◌then◌else◌, ok,
  err,
}
use tego_next.Contracts.Diagnostic.{Outcome, foreign_error}
use tego_next.Contracts.Platform.{is_safe_integer}

pub record RetryDelayInput : Type 0 where
  pub attempt : ℕ
  pub base_delay_ms : ℕ
  pub max_delay_ms : ℕ
  pub operation_id : Text

-- FNV-1a over the code units, in 32 bits.
hash_units : ℕ → Text → ℕ
hash_units hash [] = hash
hash_units hash (c ∷ rest) = hash_units (bit_xor hash c * 16777619 % 2 ^ 32) rest

unfoldable pub operation_hash : Text → ℕ
unfolding hash_units
operation_hash id = hash_units 2166136261 id

abbrev is_valid_input : RetryDelayInput → Bool
is_valid_input i =
    (is_safe_integer i.attempt && ltb 0 i.attempt)
    && ((is_safe_integer i.base_delay_ms && ltb 0 i.base_delay_ms)
        && (is_safe_integer i.max_delay_ms && leb i.base_delay_ms i.max_delay_ms))

-- The delay without jitter.
unfoldable pub exponential_delay : RetryDelayInput → ℕ
exponential_delay i = min i.max_delay_ms (i.base_delay_ms * 2 ^ min (i.attempt - 1) 52)

jittered : ℕ → ℕ → ℕ → ℕ
jittered exponential limit hash =
    if leb limit exponential
    then limit
    else min limit (exponential + hash % max 1 (exponential / 4))

unfoldable pub deterministic_retry_delay : RetryDelayInput → Outcome ℕ
unfolding jittered
deterministic_retry_delay i =
    if is_valid_input i
    then ok (jittered (exponential_delay i) i.max_delay_ms (operation_hash i.operation_id))
    else err foreign_error
