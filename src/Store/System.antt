-- ===== src/Store/System.antt =====
-- A memory store and the calls that its clients have under way, step by step.
pub mod Cases
pub mod Replay
pub mod Fences
pub mod Journal
pub mod Updates
use tego_next.Base.{
  ℕ, Text, Bool, true, false, List, [], ◌∷◌, Option, none, some, Map, get, set, delete, ok, err,
  if◌then◌else◌, is_some, nat_eq,
}
use tego_next.Contracts.Platform.{Platform}
use tego_next.Contracts.Diagnostic.{Code, Outcome}
use tego_next.Contracts.State.{
  StateKey, StateTransactionOptions, OutboxClaimRequest, OutboxAcknowledgementRequest,
}
use tego_next.Store.Types.{IdempotencyIdentity, StoredRecord}
use tego_next.Store.Transaction.Callback.{Work}
use tego_next.Store.State.{MemoryStateStore, new_store, open_store, close_store, watch}
use tego_next.Store.Session.{Begun, replayed, joined, started, begin_transact, finish_transact}
use tego_next.Store.Outbox.{claim_outbox, acknowledge_outbox}

-- A started `transact` call that has not committed.
pub record Pending : Type 0 where
  pub options : StateTransactionOptions
  pub identity : Option IdempotencyIdentity
  pub snapshot : Map StateKey StoredRecord

pub record System : Type 0 where
  pub store : MemoryStateStore
  pub pending : Map ℕ Pending

pub data Event : Type 0 where
  opens closes : Event
  -- `transact`, under a call number that is not in use.
  begins : ℕ → StateTransactionOptions → Event
  -- The call's work has run over its snapshot, and its commit's turn has come.
  finishes : ℕ → Work → Event
  claims : ℕ → OutboxClaimRequest → Event
  acknowledges : ℕ → OutboxAcknowledgementRequest → Event
  watches : ℕ → ℕ → Event

abbrev pub with_store : System → MemoryStateStore → System
with_store y s = record y { store = s }

-- What a call that may throw leaves.
abbrev pub store_after : MemoryStateStore → Outcome MemoryStateStore → MemoryStateStore
store_after s (ok t) = t
store_after s (err e) = s

unfoldable pub after_begin :
    ℕ → StateTransactionOptions → System → Outcome (Begun × MemoryStateStore) → System
after_begin call o y (err e) = y
after_begin call o y (ok (replayed v, s)) = with_store y s
after_begin call o y (ok (joined n, s)) = with_store y s
after_begin call o y (ok (started identity snapshot, s)) = record {
  store = s;
  pending = set call (record { options = o; identity = identity; snapshot = snapshot }) y.pending;
}

unfoldable pub finish_pending : Platform → ℕ → Work → Option Pending → System → System
finish_pending p call work none y = y
finish_pending p call work (some c) y = record {
  store = (finish_transact p call c.options c.identity c.snapshot work y.store).1;
  pending = delete call y.pending;
}

unfoldable pub step : Platform → System → Event → System
unfolding after_begin finish_pending
step p y opens = with_store y (store_after y.store (open_store y.store))
step p y closes = with_store y (close_store y.store).0
step p y (begins call o) =
    if is_some (get call y.pending) then y else after_begin call o y (begin_transact call o y.store)
step p y (finishes call work) = finish_pending p call work (get call y.pending) y
step p y (claims now q) = with_store y (claim_outbox p now q y.store).1
step p y (acknowledges now q) = with_store y (acknowledge_outbox p now q y.store).1
step p y (watches number cursor) = with_store y (store_after y.store (watch number cursor y.store))

unfoldable pub run : Platform → System → List Event → System
unfolding step
run p y [] = y
run p y (e ∷ es) = run p (step p y e) es

unfoldable pub initial : System
initial = record { store = new_store; pending = [] }
