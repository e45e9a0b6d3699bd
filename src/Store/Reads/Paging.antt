-- ===== src/Store/Reads/Paging.antt =====
-- The scans of a journal in pages: each page goes on where the one before it ended.
use tego_next.Base.{
  ℕ, Bool, true, false, ◌&&◌, ◌||◌, List, [], ◌∷◌, ◌++◌, none, some, Text, text_eq, get, Map,
  length, take, filter, values, sort_by, ok, ltb, ◌≡◌, ◌≢◌, sym, ap, ◌∙◌, arith, subst,
  before_trans, before_asym, before_total, Bool-cases, inl, inr, All, IsUnique, ◌==◌, neq_ne,
  IsApart, IsIncreasing, are_apart, sort-IsIncreasing, filter-sort, filter-after, filter-filter,
  filter-and-true, take-length, IsApart-filter,
}
use tego_next.Contracts.Platform.{is_safe_integer}
use tego_next.Contracts.State.{
  PersistedOperationJournalEntry, OperationJournalCursor, compare_operation_journal_cursors,
}
use tego_next.Store.Types.{is_greater}
use tego_next.Store.State.{MemoryStateStore, store_open, assert_open}
use tego_next.Store.Commit.Journal.{IsJournal, IsKeyed}
use tego_next.Store.Reads.{
  cursor_of, is_recoverable, page, assert_operation_query, scan_operation_journal,
  scan_recoverable_operations,
}

-- The first cursor comes after the second.
abbrev later : OperationJournalCursor → OperationJournalCursor → Bool
later c d = is_greater (compare_operation_journal_cursors c d)

later_trans :
    (a b c : OperationJournalCursor) → later a b ≡ true → later b c ≡ true → later a c ≡ true
unfolding compare_operation_journal_cursors
later_trans a b c h k = ground (
  arith,
  before_trans c.operation_id b.operation_id a.operation_id,
  before_asym a.operation_id b.operation_id,
  before_asym b.operation_id c.operation_id,
  before_asym a.operation_id c.operation_id,
  before_asym c.operation_id a.operation_id,
)

later_asym : (a b : OperationJournalCursor) → later a b ≡ true → later b a ≡ false
unfolding compare_operation_journal_cursors
later_asym a b h =
    ground
      (arith, before_asym a.operation_id b.operation_id, before_asym b.operation_id a.operation_id)

later_total :
    (a b : OperationJournalCursor)
    → a.operation_id ≢ b.operation_id
    → (later a b || later b a) ≡ true
unfolding compare_operation_journal_cursors
later_total a b h = ground (
  arith,
  before_total a.operation_id b.operation_id,
  before_asym a.operation_id b.operation_id,
  before_asym b.operation_id a.operation_id,
)

abbrev follows : PersistedOperationJournalEntry → PersistedOperationJournalEntry → Bool
follows l r = later (cursor_of l) (cursor_of r)

follows_trans :
    (x y z : PersistedOperationJournalEntry)
    → follows x y ≡ true
    → follows y z ≡ true
    → follows x z ≡ true
follows_trans x y z = later_trans (cursor_of x) (cursor_of y) (cursor_of z)

follows_asym : (x y : PersistedOperationJournalEntry) → follows x y ≡ true → follows y x ≡ false
follows_asym x y = later_asym (cursor_of x) (cursor_of y)

values-apart :
    (e : PersistedOperationJournalEntry) (m : Map Text PersistedOperationJournalEntry)
    → IsKeyed m
    → get e.entry.operation_id m ≡ none
    → All (λ o. are_apart follows e o ≡ true) (values m)
unfolding get
values-apart e [] h k = tt
values-apart e ((j, o) ∷ m) (h, hs) k = elim (Bool-cases (j == e.entry.operation_id)) [
  | inl s ↦ let k' = rw s at k in cc
  | inr s ↦
      let k' = rw s at k in
      (
        later_total (cursor_of e) (cursor_of o)
            (λ q. neq_ne j e.entry.operation_id s (sym (q ∙ h))),
        values-apart e m hs k',
      )
]

journal-IsApart :
    (m : Map Text PersistedOperationJournalEntry)
    → IsKeyed m
    → IsUnique m
    → IsApart follows (values m)
journal-IsApart [] h u = tt
journal-IsApart ((j, o) ∷ m) (h, hs) (u, us) =
    (values-apart o m hs (rw h u), journal-IsApart m hs us)

-- The whole scan of the operations to recover, in order.
abbrev pub recoverable_entries : MemoryStateStore → List PersistedOperationJournalEntry
recoverable_entries s =
    sort_by follows (filter (λ e. is_recoverable e.entry.status) (values s.operations))

module _ (s : MemoryStateStore) (opened : s.lifecycle ≡ store_open)
    (journal : IsJournal s.operations) where
  apart : IsApart follows (filter (λ e. is_recoverable e.entry.status) (values s.operations))
  apart =
      IsApart-filter follows follows_trans follows_asym _ (values s.operations)
        (journal-IsApart s.operations journal.keyed journal.unique)

  increasing : IsIncreasing follows (recoverable_entries s)
  increasing = sort-IsIncreasing follows follows_trans follows_asym _ apart

  -- What is left after an entry.
  after_entry :
      (xs : List PersistedOperationJournalEntry) (e : PersistedOperationJournalEntry)
      (ys : List PersistedOperationJournalEntry)
      → recoverable_entries s ≡ (xs ++ e ∷ []) ++ ys
      → sort_by follows
          (filter (λ o. is_recoverable o.entry.status && follows o e) (values s.operations))
        ≡ ys
  after_entry xs e ys h =
      ap (sort_by follows) (
        filter-filter (λ o. is_recoverable o.entry.status) (λ o. follows o e) (values s.operations))
      ∙ sym (filter-sort follows follows_trans follows_asym (λ o. follows o e) _ apart)
      ∙ ap (filter (λ o. follows o e)) h
      ∙ filter-after follows follows_trans follows_asym e xs ys
          (subst (IsIncreasing follows) h increasing)

  -- The pages of the scan.
  pub scan_start :
      (n : ℕ)
      → (is_safe_integer n && ltb 0 n) ≡ true
      → scan_recoverable_operations (record { after = none; limit = some n }) s
        ≡ ok (take n (recoverable_entries s))
  unfolding scan_operation_journal assert_open assert_operation_query page
  scan_start n h =
      rw (opened, h)
        (ap (λ es. ok (take n (sort_by follows es)))
          (filter-and-true (λ o. is_recoverable o.entry.status) (values s.operations)))

  pub scan_after :
      (n : ℕ) (xs : List PersistedOperationJournalEntry) (e : PersistedOperationJournalEntry)
      (ys : List PersistedOperationJournalEntry)
      → (is_safe_integer n && ltb 0 n) ≡ true
      → recoverable_entries s ≡ (xs ++ e ∷ []) ++ ys
      → scan_recoverable_operations (record { after = some (cursor_of e); limit = some n }) s
        ≡ ok (take n ys)
  unfolding scan_operation_journal assert_open assert_operation_query page
  scan_after n xs e ys h split =
      rw (opened, h) (ap (λ es. ok (take n es)) (after_entry xs e ys split))

  pub scan_whole :
      scan_recoverable_operations (record { after = none; limit = none }) s
      ≡ ok (recoverable_entries s)
  unfolding scan_operation_journal assert_open assert_operation_query page
  scan_whole = rw opened (
      ap (λ es. ok (take (length (sort_by follows es)) (sort_by follows es)))
        (filter-and-true (λ o. is_recoverable o.entry.status) (values s.operations))
      ∙ ap ok (take-length (recoverable_entries s)))
