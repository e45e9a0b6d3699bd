-- ===== src/Recovery/Paging.antt =====
-- Reading a journal in pages of 100.
use tego_next.Base.{
  ℕ, zero, suc, ◌*◌, ◌≤◌, ◌<◌, true, false, [], ◌∷◌, ◌++◌, Option, none, some, ok, ltb, length,
  last, last-snoc, take-all, take, drop, take-append-drop, length-take, length-drop, ◌≡◌, refl, sym,
  ap, ◌∙◌, arith,
}
use native.Mathlib.Decide.{dec_lt}
use mathlib.Core.List.{append_assoc}
use tego_next.Contracts.Diagnostic.{Outcome}
use tego_next.Contracts.State.{
  PersistedOperationJournalEntry, OperationJournalCursor, OperationJournalQuery,
}
use tego_next.Store.Reads.{cursor_of}
use tego_next.Recovery.{recovery_page_size, Entries, after_page, recover_pages, recover_operations}

-- What a scan promises: its entries in order, in pages, from the beginning or after a cursor.
pub record IsPaged (scan : OperationJournalQuery → Outcome Entries) (entries : Entries)
    : Type 0 where
  pub from_start :
      scan (record { after = none; limit = some recovery_page_size })
      ≡ ok (take recovery_page_size entries)
  pub from_cursor :
      (xs : Entries) (e : PersistedOperationJournalEntry) (ys : Entries)
      → entries ≡ (xs ++ e ∷ []) ++ ys
      → scan (record { after = some (cursor_of e); limit = some recovery_page_size })
        ≡ ok (take recovery_page_size ys)

module _ (scan : OperationJournalQuery → Outcome Entries) (entries : Entries)
    (paged : IsPaged scan entries) where
  short_page :
      (fuel : ℕ) (after : Option OperationJournalCursor) (done rest : Entries)
      → scan (record { after = after; limit = some recovery_page_size })
        ≡ ok (take recovery_page_size rest)
      → length rest < recovery_page_size
      → recover_pages scan (suc fuel) after done ≡ some (ok (done ++ rest))
  unfolding recover_pages after_page
  short_page fuel after done rest scanned short =
      let all = take-all recovery_page_size rest short in
      let test : ltb (length rest) recovery_page_size ≡ true = ground arith in
      rw (scanned, all, test) refl

  full_page :
      (fuel : ℕ) (after : Option OperationJournalCursor) (done page : Entries)
      (e : PersistedOperationJournalEntry)
      → scan (record { after = after; limit = some recovery_page_size }) ≡ ok page
      → recovery_page_size ≤ length page
      → last page ≡ some e
      → recover_pages scan (suc fuel) after done
        ≡ recover_pages scan fuel (some (cursor_of e)) (done ++ page)
  unfolding recover_pages after_page
  full_page fuel after done page e scanned full at_end =
      let test : ltb (length page) recovery_page_size ≡ false = ground arith in
      rw (scanned, test, at_end) refl

  recover_rest :
      (fuel : ℕ) (after : Option OperationJournalCursor) (done rest : Entries)
      → length rest < fuel * recovery_page_size
      → done ++ rest ≡ entries
      → scan (record { after = after; limit = some recovery_page_size })
        ≡ ok (take recovery_page_size rest)
      → recover_pages scan fuel after done ≡ some (ok entries)
  recover_rest zero after done rest enough split scanned = absurd (omega arith)
  recover_rest (suc fuel) after done rest enough split scanned =
      elim (dec_lt (length rest) recovery_page_size) [
        | yes short ↦ short_page fuel after done rest scanned short ∙ ap (λ r. some (ok r)) split
        | no full ↦
            let page = take recovery_page_size rest in
            let left = drop recovery_page_size rest in
            let long : length page ≡ recovery_page_size =
              omega (arith, length-take recovery_page_size rest) in
            let (front, e, at_end, whole) = last-snoc page (omega arith) in
            let parts : (done ++ page) ++ left ≡ entries =
              append_assoc done page left
              ∙ ap (λ r. done ++ r) (take-append-drop recovery_page_size rest)
              ∙ split in
            let joined : done ++ page ≡ (done ++ front) ++ e ∷ [] =
              ap (λ r. done ++ r) whole ∙ sym (append_assoc done front (e ∷ [])) in
            full_page fuel after done page e scanned (omega arith) at_end
            ∙ recover_rest fuel (some (cursor_of e)) (done ++ page) left
                (omega (arith, length-drop recovery_page_size rest)) parts
                (paged.from_cursor (done ++ front) e left (sym parts ∙ ap (λ r. r ++ left) joined))
      ]

  -- The loop ends within a round for every 100 entries and one more, and collects every entry, once
  -- and in order.
  pub recover_all :
      (fuel : ℕ)
      → length entries < fuel * recovery_page_size
      → recover_operations scan fuel ≡ some (ok entries)
  unfolding recover_operations
  recover_all fuel enough = recover_rest fuel none [] entries enough refl paged.from_start
