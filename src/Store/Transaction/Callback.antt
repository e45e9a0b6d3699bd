-- ===== src/Store/Transaction/Callback.antt =====
-- A client's callback, `work`: it calls the transaction, sees what each call returns or throws,
-- and ends by returning a value or by throwing.
use tego_next.Base.{List, Option, ok, err, ◌>>=◌}
use tego_next.Contracts.Json.{JsonValue}
use tego_next.Contracts.Diagnostic.{Code, Outcome}
use tego_next.Contracts.State.{
  StateKey, StateQuery, Versioned, ScannedState, ExpectedRevision, OperationJournalEntry,
  OutboxMessage,
}
use tego_next.Store.Types.{StagedTransaction, clone_json}
use tego_next.Store.Transaction.{
  MemoryTransaction, get_state, scan_state, put_state, delete_state, append_operation,
  enqueue_outbox, finish,
}

pub data Work : Type 0 where
  returns : JsonValue → Work
  throws : Code → Work
  gets : StateKey → (Outcome (Option Versioned) → Work) → Work
  scans : StateQuery → (Outcome (List ScannedState) → Work) → Work
  puts : StateKey → JsonValue → ExpectedRevision → (Outcome (Unit {0}) → Work) → Work
  deletes : StateKey → ExpectedRevision → (Outcome (Unit {0}) → Work) → Work
  appends : OperationJournalEntry → (Outcome (Unit {0}) → Work) → Work
  enqueues : OutboxMessage → (Outcome (Unit {0}) → Work) → Work

-- A call that throws leaves the transaction as it was.
abbrev pub after : MemoryTransaction → Outcome MemoryTransaction → MemoryTransaction
after t (ok u) = u
after t (err e) = t

abbrev pub seen : Outcome MemoryTransaction → Outcome (Unit {0})
seen (ok u) = ok tt
seen (err e) = err e

unfoldable pub run_work : Work → MemoryTransaction → Outcome (JsonValue × MemoryTransaction)
run_work (returns v) t = ok (v, t)
run_work (throws e) t = err e
run_work (gets k next) t = run_work (next (get_state k t)) t
run_work (scans q next) t = run_work (next (scan_state q t)) t
run_work (puts k v e next) t = let r = put_state k v e t in run_work (next (seen r)) (after t r)
run_work (deletes k e next) t = let r = delete_state k e t in run_work (next (seen r)) (after t r)
run_work (appends entry next) t =
    let r = append_operation entry t in run_work (next (seen r)) (after t r)
run_work (enqueues m next) t = let r = enqueue_outbox m t in run_work (next (seen r)) (after t r)

-- `#executeTransaction` up to the commit: the callback's result and what it staged.
unfoldable pub stage : Work → MemoryTransaction → Outcome (JsonValue × StagedTransaction)
unfolding run_work
stage w t = do (v, u) ← run_work w t; (staged, _) ← finish u; ok (clone_json v, staged)
