-- ===== src/Store/Session.antt =====
-- memory-state-store.ts, `transact`: an idempotent call may replay a committed result or join a
-- call in flight; a started call stages its work over a snapshot and commits it later. Commits run
-- one at a time in the order in which they were queued, so other calls may come between the two.
pub mod Cases
use tego_next.Base.{
  ℕ, Text, Bool, true, false, ◌&&◌, not, Option, none, some, Map, get, set, delete, text_beq,
  length, ltb, nat_beq, ok, err, guard, ◌>>=◌, ◌>>◌, if◌then◌else◌, text_eq, [], ◌∷◌, List,
}
use tego_next.Contracts.Json.{JsonValue}
use tego_next.Contracts.Platform.{Platform}
use tego_next.Contracts.Diagnostic.{Code, Outcome, state_idempotency_conflict}
use tego_next.Contracts.State.{StateKey, StateTransactionOptions, Versioned, key_eq}
use tego_next.Store.Types.{
  IdempotencyIdentity, IdempotencyRecord, StagedTransaction, StoredRecord, clone_json,
  assert_state_key, for_query,
}
use tego_next.Store.Transaction.{new_transaction, versioned}
use tego_next.Store.Transaction.Callback.{Work, stage}
use tego_next.Store.State.{MemoryStateStore, InFlight, assert_open}
use tego_next.Store.Commit.{commit}

abbrev non_empty : Option Text → Bool
non_empty none = false
non_empty (some []) = false
non_empty (some (c ∷ t)) = true

abbrev text_or_empty : Option Text → Text
text_or_empty none = []
text_or_empty (some t) = t

-- Both the key and the fingerprint, not empty, or neither.
identify : Option Text → Option Text → Outcome (Option IdempotencyIdentity)
identify none none = ok none
identify k f =
    if non_empty k && non_empty f
    then ok (some (record { key = text_or_empty k; fingerprint = text_or_empty f }))
    else err state_idempotency_conflict

unfoldable pub idempotency_identity : StateTransactionOptions → Outcome (Option IdempotencyIdentity)
unfolding identify
idempotency_identity o = identify o.idempotency_key o.idempotency_fingerprint

unfoldable pub assert_idempotency_fingerprint : IdempotencyIdentity → Text → Outcome (Unit {0})
assert_idempotency_fingerprint i committed =
    guard (text_beq i.fingerprint committed) state_idempotency_conflict

-- How a call of `transact` goes on.
pub data Begun : Type 0 where
  replayed : JsonValue → Begun
  joined : ℕ → Begun
  started : Option IdempotencyIdentity → Map StateKey StoredRecord → Begun

start : ℕ → IdempotencyIdentity → MemoryStateStore → Outcome (Begun × MemoryStateStore)
start call i s = ok (
  started (some i) s.records,
  record s {
    in_flight_idempotency =
        set i.key (record { fingerprint = i.fingerprint; call = call }) s.in_flight_idempotency;
  },
)

join_or_start :
    ℕ
    → IdempotencyIdentity
    → Option InFlight
    → MemoryStateStore
    → Outcome (Begun × MemoryStateStore)
unfolding start
join_or_start call i none s = start call i s
join_or_start call i (some e) s = do
  assert_idempotency_fingerprint i e.fingerprint
  ok (joined e.call, s)

replay_or_start :
    ℕ
    → IdempotencyIdentity
    → Option IdempotencyRecord
    → MemoryStateStore
    → Outcome (Begun × MemoryStateStore)
unfolding join_or_start
replay_or_start call i none s = join_or_start call i (get i.key s.in_flight_idempotency) s
replay_or_start call i (some e) s = do
  assert_idempotency_fingerprint i e.fingerprint
  ok (replayed (clone_json e.result), s)

begin_with : ℕ → Option IdempotencyIdentity → MemoryStateStore → Outcome (Begun × MemoryStateStore)
unfolding replay_or_start
begin_with call none s = ok (started none s.records, s)
begin_with call (some i) s = replay_or_start call i (get i.key s.idempotency) s

-- The synchronous part of `transact`.
unfoldable pub begin_transact :
    ℕ → StateTransactionOptions → MemoryStateStore → Outcome (Begun × MemoryStateStore)
unfolding begin_with assert_idempotency_fingerprint
begin_transact call o s = do
  assert_open s
  identity ← idempotency_identity o
  begin_with call identity s

release_entry : ℕ → Text → Option InFlight → MemoryStateStore → MemoryStateStore
release_entry call key none s = s
release_entry call key (some e) s =
    if nat_beq e.call call
    then record s { in_flight_idempotency = delete key s.in_flight_idempotency }
    else s

-- The `finally` of `transact`: the entry goes, if it is still this call's.
unfoldable pub release : ℕ → Option IdempotencyIdentity → MemoryStateStore → MemoryStateStore
unfolding release_entry
release call none s = s
release call (some i) s = release_entry call i.key (get i.key s.in_flight_idempotency) s

-- An idempotent call clones its result once more.
abbrev settled_value : Option IdempotencyIdentity → JsonValue → JsonValue
settled_value none v = v
settled_value (some i) v = clone_json v

settle :
    ℕ
    → Option IdempotencyIdentity
    → MemoryStateStore
    → Outcome (JsonValue × MemoryStateStore)
    → Outcome JsonValue × MemoryStateStore
unfolding release
settle call identity s (ok (v, s')) = (ok (settled_value identity v), release call identity s')
settle call identity s (err e) = (err e, release call identity s)

-- `#executeTransaction` of a started call: the work runs over the snapshot, then the commit over
-- the store as it is by then. A call that throws leaves only its entry removed.
unfoldable pub finish_transact :
    Platform
    → ℕ
    → StateTransactionOptions
    → Option IdempotencyIdentity
    → Map StateKey StoredRecord
    → Work
    → MemoryStateStore
    → Outcome JsonValue × MemoryStateStore
unfolding settle
finish_transact p call o identity snapshot work s = settle call identity s (do
  (result, staged) ← stage work (new_transaction snapshot)
  commit p o identity staged result s)

-- `read`.
unfoldable pub read : StateKey → MemoryStateStore → Outcome (Option Versioned)
read k s = do assert_open s; assert_state_key k for_query; ok (versioned (get k s.records))
