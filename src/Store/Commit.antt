-- ===== src/Store/Commit.antt =====
-- memory-state-store.ts, `#commit`: the checks, each of which may throw, and then the writes.
pub mod Checks
pub mod Effects
pub mod Replay
pub mod Success
pub mod Records
pub mod Journal
pub mod Optimistic
use tego_next.Base.{
  ℕ, suc, ◌+◌, Text, Bool, true, false, ◌&&◌, ◌||◌, not, List, [], ◌∷◌, ◌++◌, Option, none, some,
  Map, get, set, delete, values, ltb, leb, is_some, length, ok, err, guard, ◌>>=◌, ◌>>◌,
  if◌then◌else◌, text_eq,
}
use tego_next.Contracts.Json.{JsonValue}
use tego_next.Contracts.Platform.{Platform}
use tego_next.Contracts.Diagnostic.{Code, Outcome, state_fence_stale}
use tego_next.Contracts.State.{
  StateKey, key_eq, StateChange, change_delete, change_put, StateFencing, StateTransactionOptions,
  OperationJournalEntry, PersistedOperationJournalEntry, OutboxMessage,
}
use tego_next.Store.Types.{
  StoredRecord, Mutation, put_mutation, delete_mutation, StagedTransaction, IdempotencyRecord,
  IdempotencyIdentity, StoredOutboxMessage, clone_json,
}
use tego_next.Store.State.{MemoryStateStore, assert_open, push_each, Watcher}
use Checks.{check_mutations, check_outbox, check_fence}

-- The puts among the applied mutations; the deletes have been made.
pub write_puts : ℕ → List Mutation → Map StateKey StoredRecord → Map StateKey StoredRecord
write_puts rev [] next = next
write_puts rev (delete_mutation k e ∷ ms) next = write_puts rev ms next
write_puts rev (put_mutation k v e ∷ ms) next =
    write_puts rev ms (set k (record { key = k; value = clone_json v; revision = rev }) next)

unfoldable pub persist : ℕ → OperationJournalEntry → PersistedOperationJournalEntry
persist rev entry = record { entry = entry; revision = rev }

pub persist_each : ℕ → List OperationJournalEntry → List PersistedOperationJournalEntry
unfolding persist
persist_each rev [] = []
persist_each rev (o ∷ os) = persist rev o ∷ persist_each rev os

pub write_operations :
    List PersistedOperationJournalEntry
    → Map Text PersistedOperationJournalEntry
    → Map Text PersistedOperationJournalEntry
write_operations [] m = m
write_operations (o ∷ os) m = write_operations os (set o.entry.operation_id o m)

unfoldable pub new_outbox_entry : ℕ → OutboxMessage → StoredOutboxMessage
new_outbox_entry sequence m = record {
  message = record m { payload = clone_json m.payload };
  enqueue_sequence = sequence;
  attempt = 0;
  claim = none;
  acknowledgement = none;
  acknowledged_claim = none;
}

pub write_outbox :
    ℕ → List OutboxMessage → Map Text StoredOutboxMessage → Map Text StoredOutboxMessage
unfolding new_outbox_entry
write_outbox sequence [] m = m
write_outbox sequence (o ∷ os) m =
    write_outbox (sequence + 1) os (set o.message_id (new_outbox_entry (sequence + 1) o) m)

unfoldable pub advance_fence : Option StateFencing → Map Text ℕ → Map Text ℕ
advance_fence none m = m
advance_fence (some f) m = set f.resource f.epoch m

unfoldable pub change_of : ℕ → Mutation → StateChange
change_of rev (put_mutation k v e) = record {
  revision = rev;
  key = k;
  kind = change_put;
  value = some (clone_json v);
}
change_of rev (delete_mutation k e) = record {
  revision = rev;
  key = k;
  kind = change_delete;
  value = none;
}

unfoldable pub changes_of : ℕ → List Mutation → List StateChange
unfolding change_of
changes_of rev [] = []
changes_of rev (m ∷ ms) = change_of rev m ∷ changes_of rev ms

unfoldable pub publish : List StateChange → Map ℕ Watcher → Map ℕ Watcher
publish [] ws = ws
publish (c ∷ cs) ws = publish cs (push_each c ws)

unfoldable pub record_result :
    Option IdempotencyIdentity → JsonValue → Map Text IdempotencyRecord → Map Text IdempotencyRecord
record_result none v m = m
record_result (some i) v m =
    set i.key (record { fingerprint = i.fingerprint; result = clone_json v }) m

abbrev pub is_empty {ℓ} : {A : Type ℓ} → List A → Bool
is_empty [] = true
is_empty (x ∷ xs) = false

-- The writes of a commit that passed its checks and has something to write.
unfoldable pub apply_commit :
    StateTransactionOptions
    → StagedTransaction
    → Map StateKey StoredRecord
    → List Mutation
    → List OutboxMessage
    → Bool
    → MemoryStateStore
    → MemoryStateStore
unfolding write_puts persist_each write_operations write_outbox
apply_commit options staged next applied new_outbox advances s =
    let rev = s.revision + 1 in
    let persisted = persist_each rev staged.operations in
    let made = changes_of rev applied in
    record s {
      records = write_puts rev applied next;
      operation_history = s.operation_history ++ persisted;
      operations = write_operations persisted s.operations;
      outbox = write_outbox s.outbox_sequence new_outbox s.outbox;
      outbox_sequence = s.outbox_sequence + length new_outbox;
      fences = if advances then advance_fence options.fencing s.fences else s.fences;
      revision = rev;
      changes = s.changes ++ made;
      watchers = publish made s.watchers;
    }

abbrev pub mutates : StagedTransaction → List Mutation → List OutboxMessage → Bool → Bool
mutates staged applied new_outbox advances =
    not (is_empty applied)
    || (not (is_empty staged.operations) || (not (is_empty new_outbox) || advances))

-- A commit that throws writes nothing: all checks come first.
unfoldable pub commit :
    Platform
    → StateTransactionOptions
    → Option IdempotencyIdentity
    → StagedTransaction
    → JsonValue
    → MemoryStateStore
    → Outcome (JsonValue × MemoryStateStore)
commit p options identity staged result s = do
  assert_open s
  (next, applied) ← check_mutations staged.mutations s.records
  new_by_id ← check_outbox p s.outbox staged.outbox []
  advances ← check_fence options.fencing s.fences
  let new_outbox = values new_by_id
  let written =
      if mutates staged applied new_outbox advances
      then apply_commit options staged next applied new_outbox advances s
      else s
  ok (
    clone_json result,
    record written { idempotency = record_result identity result written.idempotency },
  )
