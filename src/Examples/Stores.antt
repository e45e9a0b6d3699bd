-- ===== src/Examples/Stores.antt =====
-- Runs of the memory store: one key is written and written again under a fencing epoch, and an
-- outbox message is enqueued, claimed and acknowledged.
use tego_next.Base.{
  Map, ℕ, ◌≤◌, ◌≡◌, refl, List, [], ◌∷◌, Option, none, some, true, false, ok, err, get, set,
  sort_by, arith, All, ◌≢◌, nat_eq, text_eq, text_beq,
}
use tego_next.Contracts.Json.{JsonValue, null, string, serialize, serialize_wire_value}
use tego_next.Contracts.Strings.{is_portable_state_string}
use tego_next.Contracts.Identity.{identity_pattern}
use tego_next.Store.Session.{Begun, begin_transact, finish_transact}
use tego_next.Store.System.{Event, opens, begins, finishes, run, initial}
use tego_next.Store.System.Replay.{run-replays}
use tego_next.Store.System.Fences.{run-stale_epoch_refused}
use tego_next.Store.Commit.Effects.{replay_key}
use tego_next.Contracts.Platform.{Platform}
use tego_next.Contracts.Diagnostic.{Outcome}
use tego_next.Contracts.State.{
  key_beq, key_eq, StateKey, absent, StateTransactionOptions, OutboxMessage, OutboxClaimRequest,
  OutboxAcknowledgementRequest, OutboxAcknowledgement, OutboxClaim, ack_completed,
}
use tego_next.Store.Types.{
  StoredRecord, IdempotencyIdentity, assert_state_key, portable_key, StagedTransaction,
  matches_expected_revision, mutation_key, mutation_expected,
}
use tego_next.Store.Transaction.{new_transaction, put_state, enqueue_outbox, finish}
use tego_next.Store.Transaction.Callback.{Work, returns, puts, enqueues, stage}
use tego_next.Store.State.{MemoryStateStore, new_store, open_store, assert_open}
use tego_next.Store.Commit.{commit, apply_commit, publish, record_result}
use tego_next.Store.Commit.Checks.{
  assert_outbox_message, valid_timestamp, stage_outbox, check_mutations, check_outbox, check_fence,
}
use tego_next.Store.Commit.Optimistic.{commit_optimistic}
use tego_next.Store.Commit.Effects.{key_effect}
use tego_next.Store.Outbox.{
  assert_outbox_claim_request, is_claimable, assert_outbox_acknowledgement_request, claim_outbox,
  acknowledge_outbox,
}
use tego_next.Store.Outbox.Acknowledge.{acknowledge_idempotent}

abbrev clock : Platform
clock = record {
  parse_date = λ t. elim t [ [] ↦ none | ◌∷◌ c r ↦ some c ];
  iso_date = λ n. n ∷ [];
  json_bytes = λ v. 10;
}

abbrev result_or {ℓ} : {A : Type ℓ} → A → Outcome A → A
result_or a (ok b) = b
result_or a (err e) = a

abbrev lamp : StateKey
lamp = record {
  namespace = (b'h' ∷ b'o' ∷ []);
  collection = (b'l' ∷ b'a' ∷ []);
  id = (b'h' ∷ b'a' ∷ []);
}

abbrev plain : StateTransactionOptions
plain = record { fencing = none; idempotency_key = none; idempotency_fingerprint = none }

abbrev fenced_by : ℕ → StateTransactionOptions
fenced_by n = record plain { fencing = some (record { resource = (b'h' ∷ b'o' ∷ []); epoch = n }) }

abbrev opened : MemoryStateStore
opened = result_or new_store (open_store new_store)

abbrev switch_on : Work
switch_on = puts lamp (string (b'o' ∷ b'n' ∷ [])) absent (λ r. returns null)

abbrev staged_on : StagedTransaction
staged_on =
    (result_or (null, record { mutations = []; operations = []; outbox = [] })
      (stage switch_on (new_transaction []))).1

abbrev switched : MemoryStateStore
switched = (result_or (null, new_store) (commit clock plain none staged_on null opened)).1

abbrev message : OutboxMessage
message = record {
  message_id = (b'm' ∷ []);
  operation_id = (b'o' ∷ []);
  topic = (b't' ∷ []);
  payload = null;
  created_at = 1 ∷ [];
  available_at = 1 ∷ [];
}

abbrev sending : Work
sending = enqueues message (λ r. returns null)

abbrev staged_sending : StagedTransaction
staged_sending =
    (result_or (null, record { mutations = []; operations = []; outbox = [] })
      (stage sending (new_transaction []))).1

abbrev sent : MemoryStateStore
sent = (result_or (null, new_store) (commit clock plain none staged_sending null opened)).1

abbrev claim_request : OutboxClaimRequest
claim_request = record {
  owner = (b'w' ∷ []);
  lease_duration_ms = 10;
  limit = none;
  topic = none;
  fencing = none;
}

abbrev claimed : MemoryStateStore
claimed = (claim_outbox clock 5 claim_request sent).1

abbrev ack_request : OutboxAcknowledgementRequest
ack_request = record {
  message_id = (b'm' ∷ []);
  owner = (b'w' ∷ []);
  claim_epoch = 1;
  outcome = ack_completed;
  retry_at = none;
  fencing = none;
}

abbrev acknowledgement : OutboxAcknowledgement
acknowledgement = record {
  message_id = (b'm' ∷ []);
  outcome = ack_completed;
  attempt = 1;
  acknowledged_at = 7 ∷ [];
  duplicate = false;
  retry_at = none;
}

abbrev acknowledged : MemoryStateStore
acknowledged = (acknowledge_outbox clock 7 ack_request claimed).1

commit_optimistic_example :
    All
      (λ m.
        matches_expected_revision (get (mutation_key m) opened.records) (mutation_expected m)
        ≡ true)
      staged_on.mutations
    × ((k : StateKey)
        → get k switched.records ≡ key_effect k 1 staged_on.mutations (get k opened.records))
unfolding commit stage put_state finish new_transaction assert_state_key portable_key
    is_portable_state_string serialize_wire_value serialize set key_beq text_beq get assert_open
    open_store new_store check_mutations check_outbox check_fence apply_commit publish record_result
    matches_expected_revision sort_by
commit_optimistic_example =
    commit_optimistic clock plain none switch_on [] staged_on null null opened switched refl refl

acknowledge_idempotent_example :
    acknowledge_outbox clock 9 ack_request acknowledged
    ≡ (ok (record acknowledgement { duplicate = true }), acknowledged)
unfolding commit stage enqueue_outbox finish new_transaction assert_state_key portable_key
    is_portable_state_string serialize_wire_value serialize set key_beq text_beq get assert_open
    open_store new_store check_mutations check_outbox check_fence apply_commit publish record_result
    matches_expected_revision sort_by acknowledge_outbox claim_outbox assert_outbox_message
    valid_timestamp stage_outbox assert_outbox_claim_request identity_pattern is_claimable
    assert_outbox_acknowledgement_request
acknowledge_idempotent_example =
    acknowledge_idempotent clock 7 9 ack_request claimed acknowledged acknowledgement refl

abbrev history : List Event
history = opens ∷ begins 1 (fenced_by 3) ∷ finishes 1 switch_on ∷ []

run-replays_example :
    let s = (run clock initial history).store in
    ((k : StateKey) → replay_key k s.changes none ≡ get k s.records)
    × All (λ c. c.revision ≤ s.revision) s.changes
run-replays_example = run-replays clock history

abbrev fenced : MemoryStateStore
fenced = (result_or (null, new_store) (commit clock (fenced_by 3) none staged_on null opened)).1

run-stale_epoch_refused_example :
    let t = (run clock (record { store = fenced; pending = [] }) history).store in
    ((o' : StateTransactionOptions) (i' : Option IdempotencyIdentity) (st' : StagedTransaction)
        (r' : JsonValue) (x : JsonValue × MemoryStateStore)
      → commit clock
          (record o' { fencing = some (record { resource = (b'h' ∷ b'o' ∷ []); epoch = 2 }) })
          i'
          st'
          r'
          t
        ≢ ok x)
    × ((call : ℕ) (o' : StateTransactionOptions) (i' : Option IdempotencyIdentity)
          (snapshot : Map StateKey StoredRecord) (work : Work) (x : JsonValue)
        → (finish_transact clock call
            (record o' { fencing = some (record { resource = (b'h' ∷ b'o' ∷ []); epoch = 2 }) })
            i'
            snapshot
            work
            t).0
          ≢ ok x)
    × ((q : OutboxClaimRequest) (cs : List OutboxClaim)
        → (claim_outbox clock 5
            (record q { fencing = some (record { resource = (b'h' ∷ b'o' ∷ []); epoch = 2 }) })
            t).0
          ≢ ok cs)
    × ((q : OutboxAcknowledgementRequest) (k : OutboxAcknowledgement)
        → (acknowledge_outbox clock 5
            (record q { fencing = some (record { resource = (b'h' ∷ b'o' ∷ []); epoch = 2 }) })
            t).0
          ≢ ok k)
    × ((call : ℕ) (o' : StateTransactionOptions) (b : Begun) (u : MemoryStateStore)
        → begin_transact call
            (record o' { fencing = some (record { resource = (b'h' ∷ b'o' ∷ []); epoch = 2 }) })
            t
          ≡ ok (b, u)
        → u ≡ record t { in_flight_idempotency = u.in_flight_idempotency })
unfolding commit stage put_state finish new_transaction assert_state_key portable_key
    is_portable_state_string serialize_wire_value serialize set key_beq text_beq get assert_open
    open_store new_store check_mutations check_outbox check_fence apply_commit publish record_result
    matches_expected_revision sort_by
run-stale_epoch_refused_example =
    run-stale_epoch_refused clock (fenced_by 3) none staged_on null null opened
      (record { store = fenced; pending = [] }) history
      (record { resource = (b'h' ∷ b'o' ∷ []); epoch = 3 })
      (record { resource = (b'h' ∷ b'o' ∷ []); epoch = 2 }) 5 refl refl refl (omega arith)
