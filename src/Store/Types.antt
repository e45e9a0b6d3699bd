-- ===== src/Store/Types.antt =====
-- memory-state-store.ts: the records of the store, and the comparisons that order them.
use tego_next.Base.{
  ℕ, Text, Bool, true, false, ◌&&◌, not, List, [], ◌∷◌, Option, none, some, before, text_beq, leb,
  ltb, nat_beq, if◌then◌else◌, ok, err, is_some,
}
use tego_next.Contracts.Json.{JsonValue, serialize_wire_value}
use tego_next.Contracts.Strings.{is_portable_state_string}
use tego_next.Contracts.Diagnostic.{Code, Outcome, state_query_invalid, state_data_invalid}
use tego_next.Contracts.Platform.{is_safe_integer}
use tego_next.Contracts.State.{
  StateKey, StateQuery, state_query_max_limit, ExpectedRevision, unchecked, absent, at_revision,
  OperationJournalEntry, OutboxMessage, ScannedState, OutboxClaim, OutboxAcknowledgement,
  StateChange, Comparison, less, equal, greater,
}

pub record StoredRecord : Type 0 where
  pub key : StateKey
  pub value : JsonValue
  pub revision : ℕ

pub data Mutation : Type 0 where
  put_mutation : StateKey → JsonValue → ExpectedRevision → Mutation
  delete_mutation : StateKey → ExpectedRevision → Mutation

abbrev pub mutation_key : Mutation → StateKey
mutation_key (put_mutation k v e) = k
mutation_key (delete_mutation k e) = k

abbrev pub mutation_expected : Mutation → ExpectedRevision
mutation_expected (put_mutation k v e) = e
mutation_expected (delete_mutation k e) = e

pub record StagedTransaction : Type 0 where
  pub mutations : List Mutation
  pub operations : List OperationJournalEntry
  pub outbox : List OutboxMessage

pub record IdempotencyRecord : Type 0 where
  pub fingerprint : Text
  pub result : JsonValue

pub record IdempotencyIdentity : Type 0 where
  pub key : Text
  pub fingerprint : Text

pub record StoredOutboxMessage : Type 0 where
  pub message : OutboxMessage
  pub enqueue_sequence : ℕ
  pub attempt : ℕ
  pub claim : Option OutboxClaim
  pub acknowledgement : Option OutboxAcknowledgement
  pub acknowledged_claim : Option OutboxClaim

abbrev pub clone_json : JsonValue → JsonValue
clone_json v = serialize_wire_value v

unfoldable pub compare_code_units : Text → Text → Comparison
compare_code_units l r = if before l r then less else if before r l then greater else equal

-- `a || b` on comparison results: the second decides where the first is 0.
abbrev pub or_else : Comparison → Comparison → Comparison
or_else less c = less
or_else equal c = c
or_else greater c = greater

abbrev pub is_greater : Comparison → Bool
is_greater less = false
is_greater equal = false
is_greater greater = true

unfoldable pub compare_keys : StateKey → StateKey → Comparison
unfolding compare_code_units
compare_keys l r =
    or_else (compare_code_units l.namespace r.namespace)
      (or_else (compare_code_units l.collection r.collection) (compare_code_units l.id r.id))

abbrev opt_portable : Option Text → Bool
opt_portable none = true
opt_portable (some t) = is_portable_state_string t

abbrev limit_in_range : Option ℕ → Bool
limit_in_range none = true
limit_in_range (some n) = is_safe_integer n && (ltb 0 n && leb n state_query_max_limit)

unfoldable pub assert_state_query : StateQuery → Outcome (Unit {0})
assert_state_query q =
    if is_portable_state_string q.namespace
      && (is_portable_state_string q.collection
          && (opt_portable q.id_prefix && (opt_portable q.after_id && limit_in_range q.limit)))
    then ok tt
    else err state_query_invalid

unfoldable pub portable_key : StateKey → Bool
portable_key k =
    is_portable_state_string k.namespace
    && (is_portable_state_string k.collection && is_portable_state_string k.id)

-- The code tells a read from a write.
pub data KeyUse : Type 0 where
  for_query for_write : KeyUse

abbrev key_code : KeyUse → Code
key_code for_query = state_query_invalid
key_code for_write = state_data_invalid

unfoldable pub assert_state_key : StateKey → KeyUse → Outcome (Unit {0})
assert_state_key k u = if portable_key k then ok tt else err (key_code u)

abbrev pub record_revision : Option StoredRecord → Option ℕ
record_revision none = none
record_revision (some r) = some r.revision

unfoldable pub matches_expected_revision : Option StoredRecord → ExpectedRevision → Bool
matches_expected_revision r unchecked = true
matches_expected_revision r absent = not (is_some r)
matches_expected_revision none (at_revision n) = false
matches_expected_revision (some r) (at_revision n) = nat_beq r.revision n

unfoldable pub scanned_record : StoredRecord → ScannedState
scanned_record r = record { key = r.key; value = clone_json r.value; revision = r.revision }

abbrev clone_option : Option JsonValue → Option JsonValue
clone_option none = none
clone_option (some v) = some (clone_json v)

pub clone_change : StateChange → StateChange
clone_change c = record c { value = clone_option c.value }

-- `id.startsWith(prefix)`.
unfoldable pub starts_with : Text → Text → Bool
starts_with [] t = true
starts_with (p ∷ ps) [] = false
starts_with (p ∷ ps) (c ∷ t) = nat_beq p c && starts_with ps t

abbrev pub has_prefix : Option Text → Text → Bool
has_prefix none id = true
has_prefix (some p) id = starts_with p id

abbrev pub is_after : Option Text → Text → Bool
is_after none id = true
is_after (some a) id = is_greater (compare_code_units id a)

-- The filter of a transaction's `scan`.
unfoldable pub matches_query : StateQuery → StoredRecord → Bool
matches_query q r =
    text_beq r.key.namespace q.namespace
    && (text_beq r.key.collection q.collection
        && (has_prefix q.id_prefix r.key.id && is_after q.after_id r.key.id))
