-- ===== src/Examples/Updates.antt =====
-- Two transactions on one key, the second begun before the first has committed.
use tego_next.Base.{
  delete, set, sort_by, text_beq, ◌≡◌, refl, List, [], ◌∷◌, Option, none, some, ok, err, get, All,
  filter, text, nat_eq, text_eq, length,
}
use tego_next.Contracts.Json.{serialize, serialize_wire_value, JsonValue, null}
use tego_next.Contracts.State.{
  key_beq, StateKey, key_eq, StateTransactionOptions, absent, at_revision, ExpectedRevision,
}
use tego_next.Contracts.Strings.{is_portable_state_string}
use tego_next.Store.Commit.{apply_commit, record_result, commit}
use tego_next.Store.Commit.Checks.{after_check, applies, check_fence, check_mutations, check_outbox}
use tego_next.Store.Session.{begin_transact, finish_transact, idempotency_identity, release}
use tego_next.Store.State.{assert_open, open_store, MemoryStateStore, new_store}
use tego_next.Store.Transaction.{finish, put_state, new_transaction}
use tego_next.Store.Types.{
  assert_state_key, matches_expected_revision, portable_key, StagedTransaction, mutation_key,
}
use tego_next.Contracts.Json.JsonValue.{string}
use tego_next.Contracts.Platform.{Platform}
use tego_next.Contracts.Diagnostic.{Outcome}
use tego_next.Store.Transaction.Callback.{Work, returns, puts, stage}
use tego_next.Store.System.{Pending, Event, opens, begins, finishes, run, initial}
use tego_next.Store.System.Updates.{expects_read, no_update_is_lost}

abbrev wall_clock : Platform
wall_clock = record { parse_date = λ t. none; iso_date = λ n. []; json_bytes = λ v. 10 }

abbrev counter : StateKey
counter = record { namespace = text "app"; collection = text "counters"; id = text "one" }

abbrev unfenced : StateTransactionOptions
unfenced = record { fencing = none; idempotency_key = none; idempotency_fingerprint = none }

abbrev counts : JsonValue → ExpectedRevision → Work
counts value expected = puts counter value expected (λ r. returns null)

-- Call 1 writes the counter; calls 2 and 3 begin after it, and 2 is about to commit.
abbrev calls : List Event
calls =
    opens
    ∷ begins 1 unfenced
    ∷ finishes 1 (counts (string (text "1")) absent)
    ∷ begins 2 unfenced
    ∷ begins 3 unfenced
    ∷ []

abbrev pending_or : Option Pending → Pending
pending_or none = record { options = unfenced; identity = none; snapshot = [] }
pending_or (some c) = c

abbrev waiting : Pending
waiting = pending_or (get 2 (run wall_clock initial calls).pending)

abbrev second : Work
second = counts (string (text "2")) (at_revision 1)

abbrev outcome_or {ℓ} : {A : Type ℓ} → A → Outcome A → A
outcome_or a (ok b) = b
outcome_or a (err e) = a

abbrev staged_second : StagedTransaction
staged_second =
    (outcome_or (null, record { mutations = []; operations = []; outbox = [] })
      (stage second (new_transaction waiting.snapshot))).1

abbrev left : MemoryStateStore
left =
    (outcome_or (null, new_store)
      (commit wall_clock unfenced none staged_second null (run wall_clock initial calls).store)).1

one_checked : length (filter (expects_read waiting.snapshot) staged_second.mutations) ≡ 1
unfolding run get initial begin_transact assert_open open_store new_store idempotency_identity set
    delete finish_transact stage finish put_state new_transaction portable_key
    is_portable_state_string commit text_beq serialize serialize_wire_value key_beq check_fence
    check_mutations check_outbox apply_commit record_result release assert_state_key
    matches_expected_revision expects_read sort_by applies after_check
one_checked = refl

no_update_is_lost_example :
    All
      (λ m.
        get (mutation_key m) (run wall_clock initial calls).store.records
        ≡ get (mutation_key m) waiting.snapshot)
      (filter (expects_read waiting.snapshot) staged_second.mutations)
unfolding run get initial begin_transact assert_open open_store new_store idempotency_identity set
    delete finish_transact stage finish put_state new_transaction portable_key
    is_portable_state_string commit text_beq serialize serialize_wire_value key_beq check_fence
    check_mutations check_outbox apply_commit record_result release assert_state_key
    matches_expected_revision expects_read sort_by applies after_check
no_update_is_lost_example =
    no_update_is_lost wall_clock calls 2 waiting second staged_second null null left refl refl refl
