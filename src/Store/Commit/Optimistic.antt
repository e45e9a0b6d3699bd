-- ===== src/Store/Commit/Optimistic.antt =====
-- The optimistic commit, in one statement.
use tego_next.Base.{◌+◌, true, Option, get, ok, All, ◌≡◌, Map, text_eq}
use tego_next.Contracts.Json.{JsonValue}
use tego_next.Contracts.Platform.{Platform}
use tego_next.Contracts.State.{StateKey, key_eq, StateTransactionOptions}
use tego_next.Store.Types.{
  StoredRecord, StagedTransaction, IdempotencyIdentity, mutation_key, mutation_expected,
  matches_expected_revision,
}
use tego_next.Store.Transaction.{new_transaction}
use tego_next.Store.Transaction.Callback.{Work, stage}
use tego_next.Store.Transaction.Staging.{stage-HasDistinctKeys}
use tego_next.Store.State.{MemoryStateStore}
use tego_next.Store.Commit.{commit}
use tego_next.Store.Commit.Success.{commit_facts}
use tego_next.Store.Commit.Effects.{key_effect}
use tego_next.Store.Commit.Replay.{checked-IsMatched}
use tego_next.Store.Commit.Records.{get-committed}

-- Let a callback stage a transaction over any snapshot, and let its commit succeed on a store,
-- which may have moved on since the snapshot. Then every staged mutation's expected revision is
-- met by the store's record of its key at the moment of the commit; and afterwards the record of
-- each key is the one that its staged mutation makes (a put at the next revision, or none for a
-- delete), and unchanged where no mutation of it is staged.
pub commit_optimistic :
    (p : Platform) (o : StateTransactionOptions) (i : Option IdempotencyIdentity) (w : Work)
    (snapshot : Map StateKey StoredRecord) (st : StagedTransaction) (r v : JsonValue)
    (s s' : MemoryStateStore)
    → stage w (new_transaction snapshot) ≡ ok (r, st)
    → commit p o i st r s ≡ ok (v, s')
    → All
        (λ m.
          matches_expected_revision (get (mutation_key m) s.records) (mutation_expected m) ≡ true)
        st.mutations
      × ((k : StateKey)
          → get k s'.records ≡ key_effect k (s.revision + 1) st.mutations (get k s.records))
commit_optimistic p o i w snapshot st r v s s' staged done =
    let d = stage-HasDistinctKeys w snapshot staged in
    let f = commit_facts p o i st r s done in
    (checked-IsMatched st.mutations s.records d f.mutations_checked, get-committed f d)
