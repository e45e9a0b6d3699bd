-- ===== src/Store/Commit/Journal.antt =====
-- What a commit does to the operation journal.
use tego_next.Base.{
  ◌+◌, Text, List, [], ◌∷◌, Map, set, ◌≡◌, refl, Bool-cases, inl, inr, IsUnique, IsUnique-set,
  text_eq, ◌==◌, sym, Option,
}
use tego_next.Contracts.Json.{JsonValue}
use tego_next.Contracts.Platform.{Platform}
use tego_next.Contracts.State.{PersistedOperationJournalEntry, StateTransactionOptions}
use tego_next.Store.Types.{StagedTransaction, IdempotencyIdentity}
use tego_next.Store.State.{MemoryStateStore}
use tego_next.Store.Commit.{write_operations, apply_commit, persist_each}
use tego_next.Store.Commit.Success.{CommitFacts}
use tego_next.Store.Commit.Records.{left_cases}

-- Each entry stands under its operation's id.
abbrev pub IsKeyed : Map Text PersistedOperationJournalEntry → Type 0
IsKeyed [] = Unit {0}
IsKeyed ((k, e) ∷ m) = (e.entry.operation_id ≡ k) × IsKeyed m

pub record IsJournal (m : Map Text PersistedOperationJournalEntry) : Type 0 where
  pub keyed : IsKeyed m
  pub unique : IsUnique m

set-IsKeyed :
    (e : PersistedOperationJournalEntry) (m : Map Text PersistedOperationJournalEntry)
    → IsKeyed m
    → IsKeyed (set e.entry.operation_id e m)
unfolding set
set-IsKeyed e [] h = (refl, tt)
set-IsKeyed e ((k, o) ∷ m) (h, hs) = elim (Bool-cases (k == e.entry.operation_id)) [
  | inl s ↦ rw s (sym ((text_eq.beq_iff k e.entry.operation_id).0 s), hs)
  | inr s ↦ rw s (h, set-IsKeyed e m hs)
]

write_operations-IsJournal :
    (os : List PersistedOperationJournalEntry) (m : Map Text PersistedOperationJournalEntry)
    → IsJournal m
    → IsJournal (write_operations os m)
unfolding write_operations
write_operations-IsJournal [] m h = h
write_operations-IsJournal (o ∷ os) m h =
    write_operations-IsJournal os (set o.entry.operation_id o m) (record {
      keyed = set-IsKeyed o m h.keyed;
      unique = IsUnique-set o.entry.operation_id o m h.unique;
    })

module _ {p : Platform} {o : StateTransactionOptions} {i : Option IdempotencyIdentity}
    {st : StagedTransaction} {v : JsonValue} {s : MemoryStateStore} {r : JsonValue}
    {s' : MemoryStateStore} (f : CommitFacts p o i st v s r s') where
  pub commit-IsJournal : IsJournal s.operations → IsJournal s'.operations
  unfolding apply_commit
  commit-IsJournal h =
      left_cases f (λ t. IsJournal t.operations) (λ t m k. k) (λ _. h)
        (λ _.
          write_operations-IsJournal (persist_each (s.revision + 1) st.operations) s.operations h)
