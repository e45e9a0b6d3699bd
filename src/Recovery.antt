-- ===== src/Recovery.antt =====
-- packages/runtime/src/recovery.ts, recoverOperations: the journal is read page by page.
pub mod Paging
pub mod Memory
use tego_next.Base.{
  ℕ, zero, suc, List, [], ◌∷◌, ◌++◌, Option, none, some, ok, err, ltb, if◌then◌else◌, length, last,
}
use tego_next.Contracts.Diagnostic.{Outcome}
use tego_next.Contracts.State.{
  PersistedOperationJournalEntry, OperationJournalCursor, OperationJournalQuery,
}
use tego_next.Store.Reads.{cursor_of}

abbrev pub recovery_page_size : ℕ
recovery_page_size = 100

abbrev pub Entries : Type 0
Entries = List PersistedOperationJournalEntry

-- The end of a round: a short page is the last one.
abbrev after_last :
    Option PersistedOperationJournalEntry
    → Entries
    → (OperationJournalCursor → Option (Outcome Entries))
    → Option (Outcome Entries)
after_last none recovered next = some (ok recovered)
after_last (some e) recovered next = next (cursor_of e)

unfoldable pub after_page :
    Outcome Entries
    → Entries
    → (OperationJournalCursor → Entries → Option (Outcome Entries))
    → Option (Outcome Entries)
after_page (err e) recovered next = some (err e)
after_page (ok page) recovered next =
    if ltb (length page) recovery_page_size
    then some (ok (recovered ++ page))
    else after_last (last page) (recovered ++ page) (λ c. next c (recovered ++ page))

-- The loop, on fuel: none where the fuel ends before a short page. The scan of recoverable
-- operations is the store's.
module _ (scan : OperationJournalQuery → Outcome Entries) where
  unfoldable pub recover_pages :
      ℕ → Option OperationJournalCursor → Entries → Option (Outcome Entries)
  unfolding after_page
  recover_pages zero after recovered = none
  recover_pages (suc fuel) after recovered =
      after_page (scan (record { after = after; limit = some recovery_page_size })) recovered
        (λ c r. recover_pages fuel (some c) r)

  unfoldable pub recover_operations : ℕ → Option (Outcome Entries)
  unfolding recover_pages
  recover_operations fuel = recover_pages fuel none []
