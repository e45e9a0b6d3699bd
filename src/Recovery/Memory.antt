-- ===== src/Recovery/Memory.antt =====
-- Recovery over the memory store: its journal is read page by page.
use tego_next.Base.{ℕ, ◌*◌, ◌<◌, List, some, none, ◌≡◌, refl, ◌∙◌, ap, sym, length}
use tego_next.Contracts.Platform.{Platform}
use tego_next.Store.State.{MemoryStateStore, store_open}
use tego_next.Store.Commit.Journal.{IsJournal}
use tego_next.Store.Reads.{scan_recoverable_operations}
use tego_next.Store.Reads.Paging.{recoverable_entries, scan_start, scan_after, scan_whole}
use tego_next.Store.System.{Event, run, initial}
use tego_next.Store.System.Journal.{run-IsJournal}
use tego_next.Recovery.{recovery_page_size, recover_operations}
use tego_next.Recovery.Paging.{IsPaged, recover_all}

memory-IsPaged :
    (s : MemoryStateStore)
    → s.lifecycle ≡ store_open
    → IsJournal s.operations
    → IsPaged (λ q. scan_recoverable_operations q s) (recoverable_entries s)
memory-IsPaged s opened journal = record {
  from_start = scan_start s opened journal recovery_page_size refl;
  from_cursor = λ xs e ys. scan_after s opened journal recovery_page_size xs e ys refl;
}

-- In every open store that calls on a new one lead to: with a round for every 100 entries to
-- recover and one more, the loop of pages ends, and it collects exactly what one scan without a
-- limit returns, in the same order.
pub recover_operations_scan :
    (p : Platform) (es : List Event) (fuel : ℕ)
    → let s = (run p initial es).store in
      s.lifecycle ≡ store_open
      → length (recoverable_entries s) < fuel * recovery_page_size
      → recover_operations (λ q. scan_recoverable_operations q s) fuel
        ≡ some (scan_recoverable_operations (record { after = none; limit = none }) s)
recover_operations_scan p es fuel opened enough =
    let s = (run p initial es).store in
    let journal = run-IsJournal p es in
    recover_all _ (recoverable_entries s) (memory-IsPaged s opened journal) fuel enough
    ∙ ap some (sym (scan_whole s opened journal))
