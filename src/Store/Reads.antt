-- ===== src/Store/Reads.antt =====
-- memory-state-store.ts: the scans of the store and of its operation journal. A scan is modelled
-- as run to its end with the store open throughout and no commit in between.
pub mod Paging
pub mod Lookup
use tego_next.Base.{
  ℕ, Bool, true, false, ◌&&◌, ◌||◌, not, List, Option, none, some, length, take, filter, values,
  sort_by, ok, guard, ltb, map, text_beq, ◌≡◌, refl, ◌>>◌, get, nat_eq, text_eq,
}
use tego_next.Contracts.Diagnostic.{Outcome, state_query_invalid}
use tego_next.Contracts.Platform.{is_safe_integer}
use tego_next.Contracts.State.{
  StateKey, key_eq, StateQuery, ScannedState, OperationStatus, executing, planned, completed,
  failed, PersistedOperationJournalEntry, OperationJournalCursor, OperationJournalQuery,
  compare_operation_journal_cursors,
}
use tego_next.Store.Types.{
  StoredRecord, is_greater, assert_state_query, has_prefix, is_after, compare_code_units,
  scanned_record,
}
use tego_next.Store.Transaction.{limit_or}
use tego_next.Store.State.{MemoryStateStore, store_open, assert_open}
use tego_next.Store.Session.{read}

-- The filter and the comparator of the store's `scan`.
abbrev pub is_scanned : StateQuery → StoredRecord → Bool
is_scanned q r =
    text_beq r.key.namespace q.namespace
    && (text_beq r.key.collection q.collection
        && (has_prefix q.id_prefix r.key.id && is_after q.after_id r.key.id))

abbrev pub scanned_after : StoredRecord → StoredRecord → Bool
scanned_after left right = is_greater (compare_code_units left.key.id right.key.id)

unfoldable pub scan : StateQuery → MemoryStateStore → Outcome (List ScannedState)
scan q s = do
  assert_open s
  assert_state_query q
  let matching = sort_by scanned_after (filter (is_scanned q) (values s.records))
  ok (map scanned_record (take (limit_or q.limit (length matching)) matching))

abbrev query_limit_ok : Option ℕ → Bool
query_limit_ok none = true
query_limit_ok (some n) = is_safe_integer n && ltb 0 n

pub assert_operation_query : OperationJournalQuery → Outcome (Unit {0})
assert_operation_query q = guard (query_limit_ok q.limit) state_query_invalid

abbrev pub cursor_of : PersistedOperationJournalEntry → OperationJournalCursor
cursor_of e = record { revision = e.revision; operation_id = e.entry.operation_id }

abbrev is_after_cursor : Option OperationJournalCursor → PersistedOperationJournalEntry → Bool
is_after_cursor none e = true
is_after_cursor (some c) e = is_greater (compare_operation_journal_cursors (cursor_of e) c)

abbrev pub is_recoverable : OperationStatus → Bool
is_recoverable completed = false
is_recoverable executing = true
is_recoverable failed = false
is_recoverable planned = true

page :
    OperationJournalQuery
    → List PersistedOperationJournalEntry
    → List PersistedOperationJournalEntry
page q es =
    let matching =
      sort_by (λ l r. is_greater (compare_operation_journal_cursors (cursor_of l) (cursor_of r)))
        es in
    take (limit_or q.limit (length matching)) matching

-- `#scanOperationJournal`: the latest entry of each operation.
unfoldable pub scan_operation_journal :
    OperationJournalQuery → Bool → MemoryStateStore → Outcome (List PersistedOperationJournalEntry)
unfolding page
scan_operation_journal q recoverable_only s = do
  assert_open s
  assert_operation_query q
  ok (
      page q (
        filter
          (λ e.
            (not recoverable_only || is_recoverable e.entry.status) && is_after_cursor q.after e)
          (values s.operations)))

-- `scanRecoverableOperations` and `scanOperations`.
abbrev pub scan_recoverable_operations :
    OperationJournalQuery → MemoryStateStore → Outcome (List PersistedOperationJournalEntry)
scan_recoverable_operations q s = scan_operation_journal q true s

abbrev pub scan_operations :
    OperationJournalQuery → MemoryStateStore → Outcome (List PersistedOperationJournalEntry)
scan_operations q s = scan_operation_journal q false s

unfoldable pub scan_operation_history :
    OperationJournalQuery → MemoryStateStore → Outcome (List PersistedOperationJournalEntry)
unfolding page
scan_operation_history q s = do
  assert_open s
  assert_operation_query q
  ok (page q (filter (is_after_cursor q.after) s.operation_history))
