-- ===== src/Store/State.antt =====
-- memory-state-store.ts, class MemoryStateStore: its fields and its life cycle. Watchers are kept
-- under the number of the `watch` call that made them.
use tego_next.Base.{
  ℕ, ltb, Text, Bool, true, false, List, [], ◌∷◌, Map, set, filter, ok, guard, ◌>>◌, if◌then◌else◌,
  text_eq, not, nat_eq,
}
use tego_next.Contracts.Diagnostic.{Outcome, state_closed}
use tego_next.Contracts.State.{StateKey, key_eq, StateChange, PersistedOperationJournalEntry}
use tego_next.Store.Types.{StoredRecord, StoredOutboxMessage, IdempotencyRecord, clone_change}
use tego_next.Watch.{WatchIterator, new_watcher, push, close}

pub data StoreLifecycle : Type 0 where
  store_created store_open store_closed : StoreLifecycle

-- A transaction in flight: its fingerprint, and the number of the `transact` call that started it,
-- whose result others await.
pub record InFlight : Type 0 where
  pub fingerprint : Text
  pub call : ℕ

abbrev pub Watcher : Type 0
Watcher = WatchIterator StateChange

pub record MemoryStateStore : Type 0 where
  pub records : Map StateKey StoredRecord
  pub operations : Map Text PersistedOperationJournalEntry
  pub operation_history : List PersistedOperationJournalEntry
  pub outbox : Map Text StoredOutboxMessage
  pub outbox_sequence : ℕ
  pub fences : Map Text ℕ
  pub changes : List StateChange
  pub watchers : Map ℕ Watcher
  pub idempotency : Map Text IdempotencyRecord
  pub in_flight_idempotency : Map Text InFlight
  pub revision : ℕ
  pub lifecycle : StoreLifecycle

unfoldable pub new_store : MemoryStateStore
new_store = record {
  records = [];
  operations = [];
  operation_history = [];
  outbox = [];
  outbox_sequence = 0;
  fences = [];
  changes = [];
  watchers = [];
  idempotency = [];
  in_flight_idempotency = [];
  revision = 0;
  lifecycle = store_created;
}

abbrev pub is_open : StoreLifecycle → Bool
is_open store_created = false
is_open store_open = true
is_open store_closed = false

abbrev pub is_closed : StoreLifecycle → Bool
is_closed store_created = false
is_closed store_open = false
is_closed store_closed = true

unfoldable pub assert_open : MemoryStateStore → Outcome (Unit {0})
assert_open s = guard (is_open s.lifecycle) state_closed

unfoldable pub open_store : MemoryStateStore → Outcome MemoryStateStore
open_store s = do
  guard (not (is_closed s.lifecycle)) state_closed
  ok (record s { lifecycle = store_open })

pub close_each : Map ℕ Watcher → Map ℕ Watcher
close_each [] = []
close_each ((n, w) ∷ ws) = (n, close w) ∷ close_each ws

-- `close`: every watcher is closed, and by that removed from the set.
unfoldable pub close_store : MemoryStateStore → MemoryStateStore × Map ℕ Watcher
unfolding close_each
close_store s =
    if is_closed s.lifecycle
    then (s, [])
    else (record s { lifecycle = store_closed; watchers = [] }, close_each s.watchers)

-- `watch`: the changes after the cursor are queued at once.
unfoldable pub watch : ℕ → ℕ → MemoryStateStore → Outcome MemoryStateStore
watch number cursor s = do
  assert_open s
  ok (record s {
    watchers =
        set number (new_watcher clone_change (filter (λ c. ltb cursor c.revision) s.changes))
          s.watchers;
  })

-- A change goes to every watcher.
unfoldable pub push_each : StateChange → Map ℕ Watcher → Map ℕ Watcher
push_each c [] = []
push_each c ((n, w) ∷ ws) = (n, push clone_change c w) ∷ push_each c ws
