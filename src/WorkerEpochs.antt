-- ===== src/WorkerEpochs.antt =====
-- packages/transport-websocket/src/state-worker-epoch-allocator.ts: the epochs of a worker's
-- sessions, which the state store counts. The allocation is a client's work of a transaction, in
-- the options that carry the allocator's fencing.
pub mod Staged
pub mod Increase
use tego_next.Base.{
  ℕ, suc, ◌+◌, Text, text, text_beq, text_eq, Bool, true, false, leb, Option, none, some, ok, err,
  ◌>>=◌, if◌then◌else◌,
}
use tego_next.Contracts.Json.{JsonValue, JsonObject}
use tego_next.Contracts.Json.JsonValue.{string, object}
use tego_next.Contracts.Json.JsonObject.{end, member}
use tego_next.Contracts.Diagnostic.{
  Outcome, Code, worker_epoch_record_invalid, worker_epoch_limit_exceeded,
}
use tego_next.Contracts.Identity.{
  Unknown, identity_pattern, parse_identity, parse_decimal_identity, decimal_pattern, decimal_value,
}
use tego_next.Contracts.Identity.Printing.{decimal_text}
use tego_next.Contracts.State.{StateKey, Versioned, ExpectedRevision, absent, at_revision}
use tego_next.Store.Transaction.Callback.{Work, returns, throws, gets, puts}

-- MAXIMUM_UNSIGNED_64.
abbrev pub maximum_unsigned_64 : ℕ
maximum_unsigned_64 = 18446744073709551615

abbrev pub epoch_key : (worker_id : Text) → StateKey
epoch_key worker_id = record {
  namespace = text "tego";
  collection = text "worker-session-epochs";
  id = worker_id;
}

-- A member of a record that should be a string.
unfoldable pub string_member : Text → JsonObject → Unknown
string_member k end = none
string_member k (member j (string t) rest) = if text_beq j k then some t else string_member k rest
string_member k (member j v rest) = if text_beq j k then none else string_member k rest

abbrev is_id : (worker_id : Text) → Unknown → Bool
is_id worker_id none = false
is_id worker_id (some t) = text_beq t worker_id

-- The epoch of a record whose worker is the key's, which has been parsed, so that parsing the equal
-- id of the record passes. What the checks throw is rethrown as
-- WORKER_EPOCH_RECORD_INVALID.
unfoldable pub epoch_of : (worker_id : Text) → JsonValue → Outcome ℕ
unfolding string_member parse_decimal_identity decimal_value
epoch_of worker_id (object o) =
    if is_id worker_id (string_member (text "workerId") o)
    then (elim (parse_decimal_identity (string_member (text "epoch") o)) [
      | err e ↦ err worker_epoch_record_invalid
      | ok t ↦ ok (decimal_value t)
    ])
    else err worker_epoch_record_invalid
epoch_of worker_id _ = err worker_epoch_record_invalid

unfoldable pub previous_epoch : (worker_id : Text) → Option Versioned → Outcome ℕ
unfolding epoch_of
previous_epoch worker_id none = ok 0
previous_epoch worker_id (some v) = epoch_of worker_id v.value

abbrev pub read_revision : Option Versioned → ExpectedRevision
read_revision none = absent
read_revision (some v) = at_revision v.revision

abbrev pub epoch_record : (worker_id : Text) → (epoch : Text) → JsonValue
epoch_record worker_id epoch =
    object (member (text "workerId") (string worker_id) (member (text "epoch") (string epoch) end))

abbrev pub after_put : (epoch : Text) → Outcome (Unit {0}) → Work
after_put epoch (err e) = throws e
after_put epoch (ok done) = returns (string epoch)

abbrev pub put_epoch : (worker_id : Text) → Option Versioned → Outcome Text → Work
put_epoch worker_id current (err e) = throws worker_epoch_record_invalid
put_epoch worker_id current (ok epoch) =
    puts (epoch_key worker_id) (epoch_record worker_id epoch) (read_revision current)
      (after_put epoch)

abbrev pub allocate : (worker_id : Text) → Option Versioned → ℕ → (exhausted : Bool) → Work
allocate worker_id current previous true = throws worker_epoch_limit_exceeded
allocate worker_id current previous false =
    put_epoch worker_id current (parse_decimal_identity (some (decimal_text (previous + 1))))

abbrev pub after_previous : (worker_id : Text) → Option Versioned → Outcome ℕ → Work
after_previous worker_id current (err e) = throws e
after_previous worker_id current (ok previous) =
    allocate worker_id current previous (leb maximum_unsigned_64 previous)

abbrev pub after_get : (worker_id : Text) → Outcome (Option Versioned) → Work
after_get worker_id (err e) = throws e
after_get worker_id (ok current) =
    after_previous worker_id current (previous_epoch worker_id current)

-- `next`: the work of its transaction, for a well-formed worker id.
unfoldable pub next_work : (worker_id : Text) → Work
next_work worker_id = gets (epoch_key worker_id) (after_get worker_id)

unfoldable pub next_epoch_of : Unknown → Outcome Work
next_epoch_of value = do worker_id ← parse_identity value; ok (next_work worker_id)
