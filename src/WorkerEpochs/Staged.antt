-- ===== src/WorkerEpochs/Staged.antt =====
-- What an allocation reads and stages over a snapshot.
use tego_next.Base.{
  ℕ, ◌+◌, Text, text_eq, Bool, true, false, leb, [], ◌∷◌, Option, some, ok, err, ◌≡◌, refl, sym, ap,
  ◌∙◌, subst, >>=-eq-ok, ok-injective, Map, get, set, nat_eq, sort_by,
}
use tego_next.Contracts.Json.{JsonValue}
use tego_next.Contracts.Json.JsonValue.{string}
use tego_next.Contracts.Diagnostic.{Outcome}
use tego_next.Contracts.Identity.{parse_decimal_identity}
use tego_next.Contracts.Identity.Printing.{decimal_text}
use tego_next.Contracts.State.{StateKey, key_eq, Versioned, ExpectedRevision}
use tego_next.Store.Types.{
  StoredRecord, StagedTransaction, Mutation, put_mutation, mutation_key, clone_json,
  assert_state_key, for_query, for_write,
}
use tego_next.Store.Transaction.{
  MemoryTransaction, new_transaction, get_state, put_state, finish, staged_view, versioned,
  assert_active,
}
use tego_next.Store.Transaction.Callback.{run_work, stage, seen, after}
use tego_next.WorkerEpochs.{
  maximum_unsigned_64, epoch_key, previous_epoch, read_revision, epoch_record, after_put, put_epoch,
  after_previous, allocate, after_get, next_work,
}

module _ (worker_id : Text) (t : MemoryTransaction) where
  after_put_lem :
      (epoch : Text) (r : Outcome MemoryTransaction) (v : JsonValue) (u : MemoryTransaction)
      → run_work (after_put epoch (seen r)) (after t r) ≡ ok (v, u)
      → (r ≡ ok u) × (v ≡ string epoch)
  unfolding run_work
  after_put_lem epoch (ok x) v u h = (
    ap (λ (p : JsonValue × MemoryTransaction). ok p.1) (ok-injective h),
    sym (ap (λ (p : JsonValue × MemoryTransaction). p.0) (ok-injective h)),
  )
  after_put_lem epoch (err e) v u h = cc

  -- What a work that ran has read and staged.
  record Allocated (current : Option Versioned) (v : JsonValue) (u : MemoryTransaction)
      : Type 0 where
    previous : ℕ
    epoch : Text
    read_back : previous_epoch worker_id current ≡ ok previous
    below : leb maximum_unsigned_64 previous ≡ false
    printed : parse_decimal_identity (some (decimal_text (previous + 1))) ≡ ok epoch
    stored :
        put_state (epoch_key worker_id) (epoch_record worker_id epoch) (read_revision current) t
        ≡ ok u
    returned : v ≡ string epoch

  put_epoch_lem :
      (current : Option Versioned) (n : ℕ) (e : Outcome Text) (v : JsonValue)
      (u : MemoryTransaction)
      → previous_epoch worker_id current ≡ ok n
      → leb maximum_unsigned_64 n ≡ false
      → parse_decimal_identity (some (decimal_text (n + 1))) ≡ e
      → run_work (put_epoch worker_id current e) t ≡ ok (v, u)
      → Allocated current v u
  unfolding run_work
  put_epoch_lem current n (err x) v u r b p h = cc
  put_epoch_lem current n (ok epoch) v u r b p h =
      let (stored, returned) = after_put_lem epoch _ v u h in
      record {
        previous = n;
        epoch = epoch;
        read_back = r;
        below = b;
        printed = p;
        stored = stored;
        returned = returned;
      }

  allocate_lem :
      (current : Option Versioned) (n : ℕ) (exhausted : Bool) (v : JsonValue)
      (u : MemoryTransaction)
      → previous_epoch worker_id current ≡ ok n
      → leb maximum_unsigned_64 n ≡ exhausted
      → run_work (allocate worker_id current n exhausted) t ≡ ok (v, u)
      → Allocated current v u
  unfolding run_work
  allocate_lem current n true v u r b h = cc
  allocate_lem current n false v u r b h =
      put_epoch_lem current n (parse_decimal_identity (some (decimal_text (n + 1)))) v u r b refl h

  after_previous_lem :
      (current : Option Versioned) (o : Outcome ℕ) (v : JsonValue) (u : MemoryTransaction)
      → previous_epoch worker_id current ≡ o
      → run_work (after_previous worker_id current o) t ≡ ok (v, u)
      → Allocated current v u
  unfolding run_work
  after_previous_lem current (err x) v u r h = cc
  after_previous_lem current (ok n) v u r h =
      allocate_lem current n (leb maximum_unsigned_64 n) v u r refl h

  after_get_lem :
      (g : Outcome (Option Versioned)) (v : JsonValue) (u : MemoryTransaction)
      → run_work (after_get worker_id g) t ≡ ok (v, u)
      → (current : Option Versioned) × (g ≡ ok current) × Allocated current v u
  unfolding run_work
  after_get_lem (err x) v u h = cc
  after_get_lem (ok current) v u h =
      (current, refl, after_previous_lem current (previous_epoch worker_id current) v u refl h)

-- What a transaction reads at a key, and what a put stages.
get_state-eq-ok :
    (k : StateKey) (t : MemoryTransaction) (current : Option Versioned)
    → get_state k t ≡ ok current
    → current ≡ staged_view (get k t.mutations) (get k t.snapshot)
unfolding get_state
get_state-eq-ok k t current h =
    let (_, _, h₁) = >>=-eq-ok (assert_active t) _ h in
    let (_, _, h₂) = >>=-eq-ok (assert_state_key k for_query) _ h₁ in sym (ok-injective h₂)

put_state-eq-ok :
    (k : StateKey) (value : JsonValue) (e : ExpectedRevision) (t u : MemoryTransaction)
    → put_state k value e t ≡ ok u
    → u.mutations ≡ set k (put_mutation k (clone_json value) e) t.mutations
unfolding put_state
put_state-eq-ok k value e t u h =
    let (_, _, h₁) = >>=-eq-ok (assert_active t) _ h in
    let (_, _, h₂) = >>=-eq-ok (assert_state_key k for_write) _ h₁ in
    sym (ap (λ (x : MemoryTransaction). x.mutations) (ok-injective h₂))

get-fresh :
    (k : StateKey) (snapshot : Map StateKey StoredRecord) (current : Option Versioned)
    → get_state k (new_transaction snapshot) ≡ ok current
    → current ≡ versioned (get k snapshot)
unfolding new_transaction staged_view get
get-fresh k snapshot current h = get_state-eq-ok k (new_transaction snapshot) current h

put-fresh :
    (k : StateKey) (value : JsonValue) (e : ExpectedRevision) (snapshot : Map StateKey StoredRecord)
    (u : MemoryTransaction)
    → put_state k value e (new_transaction snapshot) ≡ ok u
    → u.mutations ≡ (k, put_mutation k (clone_json value) e) ∷ []
unfolding new_transaction set
put-fresh k value e snapshot u h = put_state-eq-ok k value e (new_transaction snapshot) u h

finish-mutations :
    (u x : MemoryTransaction) (st : StagedTransaction) (m : Mutation)
    → u.mutations ≡ (mutation_key m, m) ∷ []
    → finish u ≡ ok (st, x)
    → st.mutations ≡ m ∷ []
unfolding finish sort_by
finish-mutations u x st m e h =
    let (_, _, h₁) = >>=-eq-ok (assert_active u) _ h in
    let made =
      ap (λ (y : StagedTransaction × MemoryTransaction). y.0.mutations) (ok-injective h₁) in
    sym made ∙ rw e refl

-- The one mutation that an allocation stages over a snapshot, and the epoch that it returns.
pub record IsStaged (worker_id : Text) (snapshot : Map StateKey StoredRecord) (r : JsonValue)
    (st : StagedTransaction) : Type 0 where
  pub previous : ℕ
  pub epoch : Text
  pub read_back :
      previous_epoch worker_id (versioned (get (epoch_key worker_id) snapshot)) ≡ ok previous
  pub below : leb maximum_unsigned_64 previous ≡ false
  pub printed : parse_decimal_identity (some (decimal_text (previous + 1))) ≡ ok epoch
  pub staged :
      st.mutations
      ≡ put_mutation
          (epoch_key worker_id)
          (clone_json (epoch_record worker_id epoch))
          (read_revision (versioned (get (epoch_key worker_id) snapshot)))
        ∷ []
  pub returned : r ≡ clone_json (string epoch)

pub stage-IsStaged :
    (worker_id : Text) (snapshot : Map StateKey StoredRecord) (r : JsonValue)
    (st : StagedTransaction)
    → stage (next_work worker_id) (new_transaction snapshot) ≡ ok (r, st)
    → IsStaged worker_id snapshot r st
unfolding stage next_work run_work
stage-IsStaged worker_id snapshot r st h =
    let k = epoch_key worker_id in
    let t = new_transaction snapshot in
    let ((v, u), e, h₁) = >>=-eq-ok (run_work (next_work worker_id) t) _ h in
    let (current, g, a) = after_get_lem worker_id t (get_state k t) v u e in
    let ((st', x), f, h₂) = >>=-eq-ok (finish u) _ h₁ in
    let same = get-fresh k snapshot current g in
    let pair = ok-injective h₂ in
    let kept =
      put-fresh k (epoch_record worker_id a.epoch) (read_revision current) snapshot u a.stored in
    record {
      previous = a.previous;
      epoch = a.epoch;
      read_back = subst (λ c. previous_epoch worker_id c ≡ ok a.previous) same a.read_back;
      below = a.below;
      printed = a.printed;
      staged =
          sym (ap (λ (y : JsonValue × StagedTransaction). y.1.mutations) pair)
          ∙ (finish-mutations u x st' _ kept f
              ∙ ap
                  (λ c.
                    put_mutation k (clone_json (epoch_record worker_id a.epoch)) (read_revision c)
                    ∷ [])
                  same);
      returned =
          sym (ap (λ (y : JsonValue × StagedTransaction). y.0) pair) ∙ ap clone_json a.returned;
    }
