-- ===== src/Examples/Epochs.antt =====
-- Two allocations of one worker's epoch.
use tego_next.Base.{
  delete, set, sort_by, text_beq, ◌+◌, ◌<◌, ℕ, Text, before, ◌≡◌, refl, List, [], ◌∷◌, Option, none,
  some, ok, err, get, text, nat_eq, text_eq,
}
use tego_next.Contracts.Json.{serialize, serialize_wire_value, JsonValue, null}
use tego_next.Contracts.State.{key_beq, key_eq, StateTransactionOptions}
use tego_next.Contracts.Strings.{is_portable_state_string}
use tego_next.Store.Commit.{apply_commit, record_result, commit}
use tego_next.Store.Commit.Checks.{after_check, applies, check_fence, check_mutations, check_outbox}
use tego_next.Store.Session.{begin_transact, finish_transact, idempotency_identity, release}
use tego_next.Store.State.{assert_open, open_store, MemoryStateStore, new_store}
use tego_next.Store.Transaction.{
  finish, put_state, new_transaction, get_state, staged_view, versioned,
}
use tego_next.Store.Types.{
  assert_state_key, matches_expected_revision, portable_key, StagedTransaction,
}
use tego_next.Contracts.Json.JsonValue.{string}
use tego_next.Contracts.Platform.{Platform}
use tego_next.Contracts.Diagnostic.{Outcome}
use tego_next.Store.Transaction.Callback.{stage}
use tego_next.Store.System.{Pending, Event, opens, begins, finishes, run, initial}
use tego_next.Contracts.Identity.{decimal_pattern, decimal_value, parse_decimal_identity}
use tego_next.Contracts.Identity.Printing.{decimal_text}
use tego_next.WorkerEpochs.{
  epoch_key, epoch_of, maximum_unsigned_64, next_work, previous_epoch, string_member,
}
use tego_next.WorkerEpochs.Increase.{next_epoch_increments}

abbrev wall_clock : Platform
wall_clock = record { parse_date = λ t. none; iso_date = λ n. []; json_bytes = λ v. 10 }

abbrev unfenced : StateTransactionOptions
unfenced = record { fencing = none; idempotency_key = none; idempotency_fingerprint = none }

abbrev worker : Text
worker = text "w1"

-- Call 1 allocates an epoch; calls 2 and 3 begin after it, and 2 is about to commit.
abbrev calls : List Event
calls =
    opens
    ∷ begins 1 unfenced
    ∷ finishes 1 (next_work worker)
    ∷ begins 2 unfenced
    ∷ begins 3 unfenced
    ∷ []

abbrev pending_or : Option Pending → Pending
pending_or none = record { options = unfenced; identity = none; snapshot = [] }
pending_or (some c) = c

abbrev waiting : Pending
waiting = pending_or (get 2 (run wall_clock initial calls).pending)

abbrev outcome_or {ℓ} : {A : Type ℓ} → A → Outcome A → A
outcome_or a (ok b) = b
outcome_or a (err e) = a

abbrev staged_next : JsonValue × StagedTransaction
staged_next =
    outcome_or (null, record { mutations = []; operations = []; outbox = [] })
      (stage (next_work worker) (new_transaction waiting.snapshot))

abbrev committed : JsonValue × MemoryStateStore
committed =
    outcome_or (null, new_store)
      (commit wall_clock unfenced none staged_next.1 staged_next.0
        (run wall_clock initial calls).store)

second_epoch : committed.0 ≡ string (text "2")
unfolding run get initial begin_transact assert_open open_store new_store idempotency_identity set
    delete finish_transact stage finish put_state get_state new_transaction portable_key
    is_portable_state_string commit text_beq before serialize serialize_wire_value key_beq
    check_fence check_mutations check_outbox apply_commit record_result release assert_state_key
    matches_expected_revision sort_by applies after_check next_work previous_epoch epoch_of
    string_member parse_decimal_identity decimal_pattern decimal_text decimal_value staged_view
second_epoch = refl

next_epoch_increments_example :
    (n : ℕ) × (previous_epoch worker
        (versioned (get (epoch_key worker) (run wall_clock initial calls).store.records))
      ≡ ok n)
    × (n < maximum_unsigned_64)
    × (committed.0 ≡ string (decimal_text (n + 1)))
    × (previous_epoch worker (versioned (get (epoch_key worker) committed.1.records)) ≡ ok (n + 1))
unfolding run get initial begin_transact assert_open open_store new_store idempotency_identity set
    delete finish_transact stage finish put_state get_state new_transaction portable_key
    is_portable_state_string commit text_beq before serialize serialize_wire_value key_beq
    check_fence check_mutations check_outbox apply_commit record_result release assert_state_key
    matches_expected_revision sort_by applies after_check next_work previous_epoch epoch_of
    string_member parse_decimal_identity decimal_pattern decimal_text decimal_value staged_view
next_epoch_increments_example =
    next_epoch_increments wall_clock calls 2 waiting worker staged_next.1 staged_next.0 committed.0
      committed.1 refl refl refl
