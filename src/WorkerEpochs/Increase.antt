-- ===== src/WorkerEpochs/Increase.antt =====
-- Every allocation that commits raises the stored epoch by one.
use tego_next.Base.{
  ℕ, ◌+◌, ◌<◌, Text, text_beq, text_eq, before, Bool, true, false, leb, List, [], ◌∷◌, Option, none,
  some, ok, if◌then◌else◌, ◌≡◌, refl, ap, ◌∙◌, subst, arith, Map, get, nat_eq, eq_self, inl, inr,
  All, filter, Bool-cases,
}
use tego_next.Contracts.Json.{JsonValue, serialize, serialize_wire_value}
use tego_next.Contracts.Json.JsonValue.{string}
use tego_next.Contracts.Platform.{Platform}
use tego_next.Contracts.Identity.{parse_decimal_identity, decimal_pattern}
use tego_next.Contracts.Identity.Printing.{decimal_text, decimal_value-decimal_text}
use tego_next.Contracts.State.{StateKey, key_eq, key_beq_iff, ExpectedRevision}
use tego_next.Store.Types.{
  StoredRecord, StagedTransaction, Mutation, put_mutation, mutation_key, clone_json,
  matches_expected_revision,
}
use tego_next.Store.Transaction.{new_transaction, versioned}
use tego_next.Store.Transaction.Callback.{stage}
use tego_next.Store.State.{MemoryStateStore}
use tego_next.Store.Commit.{commit}
use tego_next.Store.Commit.Effects.{key_effect}
use tego_next.Store.Commit.Success.{commit_facts}
use tego_next.Store.Commit.Optimistic.{commit_optimistic}
use tego_next.Store.System.{Pending, Event, run, initial}
use tego_next.Store.System.Updates.{no_update_is_lost, expects_read, is_checked}
use tego_next.WorkerEpochs.{
  maximum_unsigned_64, epoch_key, previous_epoch, epoch_of, read_revision, epoch_record, next_work,
  string_member,
}
use tego_next.WorkerEpochs.Staged.{stage-IsStaged}

-- The revision that an allocation expects is that of the record it reads.
expected-matches :
    (r : Option StoredRecord)
    → is_checked (read_revision (versioned r)) ≡ true
      × matches_expected_revision r (read_revision (versioned r)) ≡ true
unfolding matches_expected_revision
expected-matches none = (refl, refl)
expected-matches (some r) = (refl, eq_self r.revision)

expects_read-staged :
    (k : StateKey) (v : JsonValue) (snapshot : Map StateKey StoredRecord)
    → expects_read snapshot (put_mutation k v (read_revision (versioned (get k snapshot)))) ≡ true
unfolding expects_read
expects_read-staged k v snapshot = let (c, m) = expected-matches (get k snapshot) in rw (c, m) refl

kept_one :
    {A : Type 0} (b : Bool) (Q : A → Type 0) (m : A)
    → b ≡ true
    → All Q (if b then m ∷ [] else [])
    → Q m
kept_one true Q m e h = h.0
kept_one false Q m e h = cc

below_limit : (limit n : ℕ) → leb limit n ≡ false → n < limit
below_limit limit n h = ground arith

only_kept :
    (k : StateKey) (v : JsonValue) (snapshot records : Map StateKey StoredRecord)
    (ms : List Mutation)
    → ms ≡ put_mutation k v (read_revision (versioned (get k snapshot))) ∷ []
    → All
        (λ m. get (mutation_key m) records ≡ get (mutation_key m) snapshot)
        (filter (expects_read snapshot) ms)
    → get k records ≡ get k snapshot
only_kept k v snapshot records ms e kept =
    let one =
      subst
        (λ l.
          All (λ m. get (mutation_key m) records ≡ get (mutation_key m) snapshot)
            (filter (expects_read snapshot) l))
        e kept in
    kept_one (expects_read snapshot (put_mutation k v (read_revision (versioned (get k snapshot)))))
      (λ m. get (mutation_key m) records ≡ get (mutation_key m) snapshot) _
      (expects_read-staged k v snapshot) one

-- The record that an allocation writes is read back as the epoch it has allocated.
printed-eq :
    (n : ℕ) (epoch : Text)
    → parse_decimal_identity (some (decimal_text n)) ≡ ok epoch
    → (decimal_pattern (decimal_text n) ≡ true) × (epoch ≡ decimal_text n)
unfolding parse_decimal_identity
printed-eq n epoch h = elim (Bool-cases (decimal_pattern (decimal_text n))) [
  | inl e ↦ (e, ground arith)
  | inr e ↦ ground arith
]

epoch_of-record :
    (worker_id : Text) (n : ℕ) (epoch : Text)
    → parse_decimal_identity (some (decimal_text n)) ≡ ok epoch
    → epoch_of worker_id (clone_json (clone_json (clone_json (epoch_record worker_id epoch))))
      ≡ ok n
unfolding epoch_of string_member serialize serialize_wire_value before text_beq
epoch_of-record worker_id n epoch h =
    let (plain, same) = printed-eq n epoch h in
    rw (eq_self worker_id, same, plain) (ap ok (decimal_value-decimal_text n))

previous_epoch-written :
    (worker_id : Text) (n : ℕ) (epoch : Text) (rev : ℕ) (e : ExpectedRevision)
    (o : Option StoredRecord)
    → parse_decimal_identity (some (decimal_text n)) ≡ ok epoch
    → previous_epoch worker_id (
        versioned (
          key_effect
            (epoch_key worker_id)
            rev
            (put_mutation (epoch_key worker_id) (clone_json (epoch_record worker_id epoch)) e ∷ [])
            o))
      ≡ ok n
unfolding previous_epoch
previous_epoch-written worker_id n epoch rev e o h =
    let k = epoch_key worker_id in
    rw ((key_beq_iff k k).1 refl) (epoch_of-record worker_id n epoch h)

-- Let the work of a pending allocation stage over its snapshot, in any state that calls on a new
-- store lead to, and let its commit succeed on the store as it is by then. Then the epoch that the
-- store holds for the worker at that moment (0 where it holds none) is some n below 2^64 - 1, the
-- commit returns the decimal text of n + 1, and the store holds the epoch n + 1 afterwards.
pub next_epoch_increments :
    (p : Platform) (es : List Event) (call : ℕ) (c : Pending) (worker_id : Text)
    (st : StagedTransaction) (r v : JsonValue) (s' : MemoryStateStore)
    → get call (run p initial es).pending ≡ some c
    → stage (next_work worker_id) (new_transaction c.snapshot) ≡ ok (r, st)
    → commit p c.options c.identity st r (run p initial es).store ≡ ok (v, s')
    → (n : ℕ) × (previous_epoch worker_id
          (versioned (get (epoch_key worker_id) (run p initial es).store.records))
        ≡ ok n)
      × (n < maximum_unsigned_64)
      × (v ≡ string (decimal_text (n + 1)))
      × (previous_epoch worker_id (versioned (get (epoch_key worker_id) s'.records)) ≡ ok (n + 1))
unfolding serialize_wire_value serialize
next_epoch_increments p es call c worker_id st r v s' pending ran done =
    let k = epoch_key worker_id in
    let y = run p initial es in
    let a = stage-IsStaged worker_id c.snapshot r st ran in
    let f = commit_facts p c.options c.identity st r y.store done in
    let effect =
      (commit_optimistic p c.options c.identity (next_work worker_id) c.snapshot st r v y.store s'
          ran done).1
        k in
    let kept = no_update_is_lost p es call c (next_work worker_id) st r v s' pending ran done in
    let same =
      only_kept k (clone_json (epoch_record worker_id a.epoch)) c.snapshot y.store.records
        st.mutations a.staged kept in
    (
      a.previous,
      rw same a.read_back,
      below_limit maximum_unsigned_64 a.previous a.below,
      f.returned
          ∙ (ap clone_json a.returned
              ∙ ap string (printed-eq (a.previous + 1) a.epoch a.printed).1),
      ap (λ o. previous_epoch worker_id (versioned o))
            (effect
              ∙ ap (λ l. key_effect k (y.store.revision + 1) l (get k y.store.records)) a.staged)
          ∙ previous_epoch-written worker_id (a.previous + 1) a.epoch (y.store.revision + 1)
              (read_revision (versioned (get k c.snapshot))) (get k y.store.records) a.printed,
    )
