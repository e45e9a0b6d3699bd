-- ===== src/Store/Transaction.antt =====
-- memory-state-store.ts, class MemoryTransaction: mutations staged over a snapshot, and a client's
-- callback as a tree of calls.
pub mod Callback
pub mod Staging
use tego_next.Base.{
  ℕ, Text, Bool, true, false, List, [], ◌∷◌, ◌++◌, map, Option, none, some, Map, get, set, delete,
  values, filter, any, take, length, sort_by, text_beq, if◌then◌else◌, ok, err, guard, ◌>>=◌, ◌>>◌,
  not, text_eq, ◌==◌,
}
use tego_next.Contracts.Json.{JsonValue}
use tego_next.Contracts.Diagnostic.{Code, Outcome, state_closed, state_data_invalid, foreign_error}
use tego_next.Contracts.State.{
  StateKey, key_eq, StateQuery, Versioned, ScannedState, ExpectedRevision, OperationJournalEntry,
  OutboxMessage,
}
use tego_next.Store.Types.{
  StoredRecord, Mutation, put_mutation, delete_mutation, mutation_key, StagedTransaction,
  clone_json, compare_keys, compare_code_units, is_greater, assert_state_key, assert_state_query,
  for_query, for_write, matches_query, scanned_record,
}

pub record MemoryTransaction : Type 0 where
  pub snapshot : Map StateKey StoredRecord
  pub mutations : Map StateKey Mutation
  pub operations : List OperationJournalEntry
  pub operation_ids : List Text
  pub outbox : List OutboxMessage
  pub active : Bool

unfoldable pub new_transaction : Map StateKey StoredRecord → MemoryTransaction
new_transaction snapshot = record {
  snapshot = snapshot;
  mutations = [];
  operations = [];
  operation_ids = [];
  outbox = [];
  active = true;
}

pub assert_active : MemoryTransaction → Outcome (Unit {0})
assert_active t = guard t.active state_closed

-- The revision that a staged value shows: its record's, or the zero revision.
abbrev pub shown_revision : Option StoredRecord → ℕ
shown_revision none = 0
shown_revision (some r) = r.revision

abbrev pub versioned : Option StoredRecord → Option Versioned
versioned none = none
versioned (some r) = some (record { value = clone_json r.value; revision = r.revision })

unfoldable pub staged_view : Option Mutation → Option StoredRecord → Option Versioned
staged_view none r = versioned r
staged_view (some (delete_mutation k e)) r = none
staged_view (some (put_mutation k v e)) r =
    some (record { value = clone_json v; revision = shown_revision r })

unfoldable pub get_state : StateKey → MemoryTransaction → Outcome (Option Versioned)
unfolding assert_active assert_state_key staged_view
get_state k t = do
  assert_active t
  assert_state_key k for_query
  ok (staged_view (get k t.mutations) (get k t.snapshot))

-- The snapshot with the staged mutations laid over it.
unfoldable pub overlay :
    Map StateKey StoredRecord
    → Map StateKey Mutation
    → Map StateKey StoredRecord
    → Map StateKey StoredRecord
overlay snapshot [] records = records
overlay snapshot ((k, delete_mutation j e) ∷ ms) records = overlay snapshot ms (delete k records)
overlay snapshot ((k, put_mutation j v e) ∷ ms) records =
    overlay snapshot ms
      (set k (record { key = j; value = v; revision = shown_revision (get k snapshot) }) records)

abbrev pub limit_or : Option ℕ → ℕ → ℕ
limit_or none n = n
limit_or (some l) n = l

-- Filter, order by id, and cut off at the limit.
unfoldable pub scan_records : StateQuery → List StoredRecord → List ScannedState
scan_records q rs =
    let matching =
      sort_by (λ l r. is_greater (compare_code_units l.key.id r.key.id))
        (filter (matches_query q) rs) in
    map scanned_record (take (limit_or q.limit (length matching)) matching)

unfoldable pub scan_state : StateQuery → MemoryTransaction → Outcome (List ScannedState)
unfolding assert_active assert_state_query overlay scan_records
scan_state q t = do
  assert_active t
  assert_state_query q
  ok (scan_records q (values (overlay t.snapshot t.mutations t.snapshot)))

unfoldable pub put_state :
    StateKey → JsonValue → ExpectedRevision → MemoryTransaction → Outcome MemoryTransaction
unfolding assert_active assert_state_key
put_state k v e t = do
  assert_active t
  assert_state_key k for_write
  ok (record t { mutations = set k (put_mutation k (clone_json v) e) t.mutations })

unfoldable pub delete_state :
    StateKey → ExpectedRevision → MemoryTransaction → Outcome MemoryTransaction
unfolding assert_active assert_state_key
delete_state k e t = do
  assert_active t
  assert_state_key k for_write
  ok (record t { mutations = set k (delete_mutation k e) t.mutations })

unfoldable pub append_operation :
    OperationJournalEntry → MemoryTransaction → Outcome MemoryTransaction
unfolding assert_active
append_operation entry t = do
  assert_active t
  guard (not (any (text_beq entry.operation_id) t.operation_ids)) state_data_invalid
  ok (record t {
    operation_ids = t.operation_ids ++ entry.operation_id ∷ [];
    operations = t.operations ++ record entry { state = clone_json entry.state } ∷ [];
  })

unfoldable pub enqueue_outbox : OutboxMessage → MemoryTransaction → Outcome MemoryTransaction
unfolding assert_active
enqueue_outbox message t = do
  assert_active t
  ok (record t {
    outbox = t.outbox ++ record message { payload = clone_json message.payload } ∷ [];
  })

unfoldable pub finish : MemoryTransaction → Outcome (StagedTransaction × MemoryTransaction)
unfolding assert_active compare_keys
finish t = do
  assert_active t
  ok (
    record {
      mutations =
          sort_by (λ l r. is_greater (compare_keys (mutation_key l) (mutation_key r)))
            (values t.mutations);
      operations = t.operations;
      outbox = t.outbox;
    },
    record t { active = false },
  )

pub abort : MemoryTransaction → MemoryTransaction
abort t = record t { active = false }
