-- ===== src/Store/Commit/Records.antt =====
-- The records, the change log and the journal across a commit.
use mathlib.Core.List.{append-nil}
use tego_next.Base.{
  ℕ, ◌+◌, ◌≤◌, Text, Bool, true, false, List, [], ◌∷◌, ◌++◌, Option, none, some, Map, get, values,
  ok, if◌then◌else◌, ◌≡◌, refl, sym, ap, ◌∙◌, arith, All, All-map, All-append, subst, text_eq,
}
use tego_next.Contracts.Json.{JsonValue}
use tego_next.Contracts.Platform.{Platform}
use tego_next.Contracts.State.{StateKey, key_eq, StateTransactionOptions}
use tego_next.Store.Types.{
  StoredRecord, Mutation, put_mutation, delete_mutation, mutation_key, StagedTransaction,
  IdempotencyIdentity, IdempotencyRecord,
}
use tego_next.Store.State.{MemoryStateStore}
use tego_next.Store.Transaction.Staging.{HasDistinctKeys}
use tego_next.Store.Commit.Checks.{check_mutations, after_check, applies}
use tego_next.Store.Commit.{apply_commit, mutates, write_puts, changes_of, is_empty}
use tego_next.Store.Commit.Effects.{key_effect, replay_key, check_step, get-written}
use tego_next.Store.Commit.Replay.{replay-applied, replay-append}
use tego_next.Store.Commit.Success.{CommitFacts}

chosen {ℓ} :
    (P : MemoryStateStore → Type ℓ) (b : Bool) (s t : MemoryStateStore)
    → (b ≡ false → P s)
    → (b ≡ true → P t)
    → P (if b then t else s)
chosen P true s t old new = new refl
chosen P false s t old new = old refl

module _ {p : Platform} {o : StateTransactionOptions} {i : Option IdempotencyIdentity}
    {st : StagedTransaction} {v : JsonValue} {s : MemoryStateStore} {r : JsonValue}
    {s' : MemoryStateStore} (f : CommitFacts p o i st v s r s') where
  abbrev pub writes : Bool
  writes = mutates st f.applied (values f.new_by_id) f.advances

  abbrev pub written : MemoryStateStore
  written = apply_commit o st f.next f.applied (values f.new_by_id) f.advances s

  -- A property that the recorded results do not matter to holds of what is left, if it holds of
  -- the old store where nothing is written and of the writes otherwise.
  pub left_cases {ℓ} :
      (P : MemoryStateStore → Type ℓ)
      → ((t : MemoryStateStore) (m : Map Text IdempotencyRecord)
          → P t
          → P (record t { idempotency = m }))
      → (writes ≡ false → P s)
      → (writes ≡ true → P written)
      → P s'
  left_cases P keep same new =
      subst P (sym f.left)
        (keep (if writes then written else s) _ (chosen P writes s written same new))

changes_of-bounded :
    (rev : ℕ) (ms : List Mutation) → All (λ c. c.revision ≤ rev) (changes_of rev ms)
unfolding changes_of
changes_of-bounded rev [] = tt
changes_of-bounded rev (put_mutation k v e ∷ ms) = (omega arith, changes_of-bounded rev ms)
changes_of-bounded rev (delete_mutation k e ∷ ms) = (omega arith, changes_of-bounded rev ms)

-- At every key, replaying the whole change log gives the record.
abbrev pub IsReplayed : MemoryStateStore → Type 0
IsReplayed s = (k : StateKey) → replay_key k s.changes none ≡ get k s.records

-- A mutation that is not applied deletes a key that is not there.
not_applied :
    (m : Mutation) (current : Option StoredRecord) (next : Map StateKey StoredRecord)
    (rest : List Mutation)
    → (if applies m current then m ∷ rest else rest) ≡ []
    → (after_check m current next ≡ next) × (rest ≡ [])
unfolding applies after_check
not_applied (put_mutation j v x) current next rest e = absurd (ground arith)
not_applied (delete_mutation j x) none next rest e = (refl, e)
not_applied (delete_mutation j x) (some r) next rest e = absurd (ground arith)

-- Where nothing is applied the checked mutations delete keys that are not there.
checked_nothing :
    (ms : List Mutation) (next : Map StateKey StoredRecord) {final : Map StateKey StoredRecord}
    {applied : List Mutation}
    → check_mutations ms next ≡ ok (final, applied)
    → applied ≡ []
    → final ≡ next
unfolding check_mutations
checked_nothing [] next h e = ground arith
checked_nothing (m ∷ ms) next h e =
    let (rest, _, k, a) = check_step m ms next h in
    let (same, none_left) = not_applied m (get (mutation_key m) next) next rest (sym a ∙ e) in
    checked_nothing ms _ k none_left ∙ same

is_empty-nil {ℓ} : {A : Type ℓ} (l : List A) → is_empty l ≡ true → l ≡ []
is_empty-nil [] h = refl
is_empty-nil (x ∷ l) h = cc

module _ {p : Platform} {o : StateTransactionOptions} {i : Option IdempotencyIdentity}
    {st : StagedTransaction} {v : JsonValue} {s : MemoryStateStore} {r : JsonValue}
    {s' : MemoryStateStore} (f : CommitFacts p o i st v s r s') where
  nothing_applied : writes f ≡ false → f.applied ≡ []
  nothing_applied e = is_empty-nil f.applied (ground arith)

  kept_records :
      (k : StateKey)
      → writes f ≡ false
      → get k s.records ≡ get k (write_puts (s.revision + 1) f.applied f.next)
  unfolding write_puts
  kept_records k e =
      let a = nothing_applied e in
      rw (a, checked_nothing st.mutations s.records f.mutations_checked a)

  -- The record of a key after a successful commit.
  pub get-committed :
      HasDistinctKeys st.mutations
      → (k : StateKey)
      → get k s'.records ≡ key_effect k (s.revision + 1) st.mutations (get k s.records)
  unfolding apply_commit
  get-committed d k =
      let effect = get-written k (s.revision + 1) st.mutations s.records d f.mutations_checked in
      left_cases f
        (λ t. get k t.records ≡ key_effect k (s.revision + 1) st.mutations (get k s.records))
        (λ t m h. h) (λ e. kept_records k e ∙ effect) (λ e. effect)

  -- A commit appends to the change log the changes of what it applied.
  changes-committed : s'.changes ≡ s.changes ++ changes_of (s.revision + 1) f.applied
  unfolding apply_commit changes_of
  changes-committed =
      left_cases f (λ t. t.changes ≡ s.changes ++ changes_of (s.revision + 1) f.applied)
        (λ t m h. h) (λ e. rw (nothing_applied e) (sym (append-nil s.changes))) (λ e. refl)

  -- The log still replays to the records.
  pub commit-IsReplayed : HasDistinctKeys st.mutations → IsReplayed s → IsReplayed s'
  commit-IsReplayed d h k =
      ap (λ cs. replay_key k cs none) changes-committed
      ∙ replay-append k s.changes _ none
      ∙ ap (replay_key k (changes_of (s.revision + 1) f.applied)) (h k)
      ∙ replay-applied k (s.revision + 1) st.mutations s.records d f.mutations_checked
      ∙ sym (get-committed d k)

  -- The revision grows by one where something is written.
  pub revision-committed : s'.revision ≡ (if writes f then s.revision + 1 else s.revision)
  unfolding apply_commit
  revision-committed =
      left_cases f (λ t. t.revision ≡ (if writes f then s.revision + 1 else s.revision))
        (λ t m h. h) (λ e. rw e) (λ e. rw e)

  pub changes-bounded :
      All (λ c. c.revision ≤ s.revision) s.changes → All (λ c. c.revision ≤ s'.revision) s'.changes
  unfolding apply_commit
  changes-bounded h =
      left_cases f (λ t. All (λ c. c.revision ≤ t.revision) t.changes) (λ t m k. k) (λ _. h)
        (λ _.
          All-append (λ c. c.revision ≤ s.revision + 1) s.changes _
            (All-map (λ c. c.revision ≤ s.revision) (λ c. c.revision ≤ s.revision + 1) s.changes
              (λ c k. omega arith) h)
            (changes_of-bounded (s.revision + 1) f.applied))
