-- ===== src/Store/Transaction/Staging.antt =====
-- What a transaction stages: at most one mutation to a key.
use tego_next.Base.{
  Bool, false, List, [], ◌∷◌, Map, set, values, ok, err, ◌≡◌, refl, sym, ap, ◌∙◌, arith, All,
  Bool-cases, inl, inr, subst, sort_by, insert_by, All-insert_by, >>=-eq-ok, guard, ok-injective,
  any, text_beq, not,
}
use tego_next.Contracts.Json.{JsonValue}
use tego_next.Contracts.Diagnostic.{Outcome, state_data_invalid}
use tego_next.Contracts.State.{
  StateKey, key_eq, key_beq, key_beq_iff, ExpectedRevision, OperationJournalEntry, OutboxMessage,
}
use tego_next.Store.Types.{
  Mutation, put_mutation, delete_mutation, mutation_key, StagedTransaction, StoredRecord,
  clone_json, assert_state_key, for_write,
}
use tego_next.Store.Transaction.{
  MemoryTransaction, new_transaction, assert_active, put_state, delete_state, append_operation,
  enqueue_outbox, finish,
}
use tego_next.Store.Transaction.Callback.{
  Work, returns, throws, gets, scans, puts, deletes, appends, enqueues, after, run_work, stage,
}

-- No mutation of the list is of the key.
abbrev pub IsFresh : StateKey → List Mutation → Type 0
IsFresh k = All (λ m. key_beq (mutation_key m) k ≡ false)

-- At most one mutation to a key.
abbrev pub HasDistinctKeys : List Mutation → Type 0
HasDistinctKeys [] = Unit {0}
HasDistinctKeys (m ∷ ms) = IsFresh (mutation_key m) ms × HasDistinctKeys ms

pub key_beq_flip : (j k : StateKey) → key_beq j k ≡ false → key_beq k j ≡ false
key_beq_flip j k h = ground (arith, key_beq_iff j k, key_beq_iff k j)

module _ (order : Mutation → Mutation → Bool) where
  insert_by-HasDistinctKeys :
      (m : Mutation) (ms : List Mutation)
      → IsFresh (mutation_key m) ms
      → HasDistinctKeys ms
      → HasDistinctKeys (insert_by order m ms)
  unfolding insert_by
  insert_by-HasDistinctKeys m [] f d = (tt, tt)
  insert_by-HasDistinctKeys m (n ∷ ms) f d = elim (Bool-cases (order m n)) [
    | inl e ↦ rw e (
      All-insert_by order (λ l. key_beq (mutation_key l) (mutation_key n) ≡ false) m ms
          (key_beq_flip _ _ f.0) d.0,
      insert_by-HasDistinctKeys m ms f.1 d.1,
    )
    | inr e ↦ rw e (f, d)
  ]

  sort_by-IsFresh :
      (k : StateKey) (ms : List Mutation) → IsFresh k ms → IsFresh k (sort_by order ms)
  unfolding sort_by
  sort_by-IsFresh k [] f = tt
  sort_by-IsFresh k (m ∷ ms) f =
      All-insert_by order (λ l. key_beq (mutation_key l) k ≡ false) m (sort_by order ms) f.0
        (sort_by-IsFresh k ms f.1)

  pub sort_by-HasDistinctKeys :
      (ms : List Mutation) → HasDistinctKeys ms → HasDistinctKeys (sort_by order ms)
  unfolding sort_by
  sort_by-HasDistinctKeys [] d = tt
  sort_by-HasDistinctKeys (m ∷ ms) d =
      insert_by-HasDistinctKeys m (sort_by order ms) (sort_by-IsFresh (mutation_key m) ms d.0)
        (sort_by-HasDistinctKeys ms d.1)

-- Staged mutations stand under their own keys, each once.
abbrev pub IsStaged : Map StateKey Mutation → Type 0
IsStaged [] = Unit {0}
IsStaged ((k, m) ∷ ms) = (mutation_key m ≡ k) × IsFresh k (values ms) × IsStaged ms

IsFresh-set :
    (j k : StateKey) (m : Mutation) (ms : Map StateKey Mutation)
    → mutation_key m ≡ k
    → key_beq k j ≡ false
    → IsFresh j (values ms)
    → IsFresh j (values (set k m ms))
unfolding set
IsFresh-set j k m [] e n f = (rw e n, tt)
IsFresh-set j k m ((i, l) ∷ ms) e n f = elim (Bool-cases (key_beq i k)) [
  | inl s ↦ rw s (rw e n, f.1)
  | inr s ↦ rw s (f.0, IsFresh-set j k m ms e n f.1)
]

set-IsStaged :
    (k : StateKey) (m : Mutation) (ms : Map StateKey Mutation)
    → mutation_key m ≡ k
    → IsStaged ms
    → IsStaged (set k m ms)
unfolding set
set-IsStaged k m [] e h = (e, tt, tt)
set-IsStaged k m ((i, l) ∷ ms) e h = elim (Bool-cases (key_beq i k)) [
  | inl s ↦ rw s (e ∙ sym ((key_beq_iff i k).0 s), h.1, h.2)
  | inr s ↦ rw s (h.0, IsFresh-set i k m ms e (key_beq_flip i k s) h.1, set-IsStaged k m ms e h.2)
]

values-HasDistinctKeys : (ms : Map StateKey Mutation) → IsStaged ms → HasDistinctKeys (values ms)
values-HasDistinctKeys [] h = tt
values-HasDistinctKeys ((k, m) ∷ ms) h = (rw h.0 h.1, values-HasDistinctKeys ms h.2)

abbrev Stages : MemoryTransaction → Type 0
Stages t = IsStaged t.mutations

after-Stages :
    (t : MemoryTransaction) (r : Outcome MemoryTransaction)
    → Stages t
    → ((u : MemoryTransaction) → r ≡ ok u → Stages u)
    → Stages (after t r)
after-Stages t (ok u) h f = f u refl
after-Stages t (err e) h f = h

put_state-Stages :
    (k : StateKey) (v : JsonValue) (x : ExpectedRevision) (t u : MemoryTransaction)
    → Stages t
    → put_state k v x t ≡ ok u
    → Stages u
unfolding put_state
put_state-Stages k v x t u h e =
    let (_, _, e₁) = >>=-eq-ok (assert_active t) _ e in
    let (_, _, e₂) = >>=-eq-ok (assert_state_key k for_write) _ e₁ in
    subst Stages (ok-injective e₂)
      (set-IsStaged k (put_mutation k (clone_json v) x) t.mutations refl h)

delete_state-Stages :
    (k : StateKey) (x : ExpectedRevision) (t u : MemoryTransaction)
    → Stages t
    → delete_state k x t ≡ ok u
    → Stages u
unfolding delete_state
delete_state-Stages k x t u h e =
    let (_, _, e₁) = >>=-eq-ok (assert_active t) _ e in
    let (_, _, e₂) = >>=-eq-ok (assert_state_key k for_write) _ e₁ in
    subst Stages (ok-injective e₂) (set-IsStaged k (delete_mutation k x) t.mutations refl h)

append_operation-Stages :
    (o : OperationJournalEntry) (t u : MemoryTransaction)
    → Stages t
    → append_operation o t ≡ ok u
    → Stages u
unfolding append_operation
append_operation-Stages o t u h e =
    let (_, _, e₁) = >>=-eq-ok (assert_active t) _ e in
    let (_, _, e₂) =
      >>=-eq-ok (guard (not (any (text_beq o.operation_id) t.operation_ids)) state_data_invalid) _
        e₁ in
    subst Stages (ok-injective e₂) h

enqueue_outbox-Stages :
    (m : OutboxMessage) (t u : MemoryTransaction) → Stages t → enqueue_outbox m t ≡ ok u → Stages u
unfolding enqueue_outbox
enqueue_outbox-Stages m t u h e =
    let (_, _, e₁) = >>=-eq-ok (assert_active t) _ e in subst Stages (ok-injective e₁) h

run_work-Stages :
    (w : Work) (t : MemoryTransaction) {v : JsonValue} {u : MemoryTransaction}
    → Stages t
    → run_work w t ≡ ok (v, u)
    → Stages u
unfolding run_work
run_work-Stages (returns v) t h e = subst Stages (ap (λ p. p.1) (ok-injective e)) h
run_work-Stages (throws x) t h e = cc
run_work-Stages (gets k next) t h e = run_work-Stages (next _) t h e
run_work-Stages (scans q next) t h e = run_work-Stages (next _) t h e
run_work-Stages (puts k v x next) t h e =
    run_work-Stages (next _) _ (after-Stages t _ h (λ u. put_state-Stages k v x t u h)) e
run_work-Stages (deletes k x next) t h e =
    run_work-Stages (next _) _ (after-Stages t _ h (λ u. delete_state-Stages k x t u h)) e
run_work-Stages (appends o next) t h e =
    run_work-Stages (next _) _ (after-Stages t _ h (λ u. append_operation-Stages o t u h)) e
run_work-Stages (enqueues m next) t h e =
    run_work-Stages (next _) _ (after-Stages t _ h (λ u. enqueue_outbox-Stages m t u h)) e

-- Whatever a callback does over a fresh transaction, what it stages mutates each key at most once.
pub stage-HasDistinctKeys :
    (w : Work) (snapshot : Map StateKey StoredRecord) {v : JsonValue} {st : StagedTransaction}
    → stage w (new_transaction snapshot) ≡ ok (v, st)
    → HasDistinctKeys st.mutations
unfolding stage new_transaction finish
stage-HasDistinctKeys w snapshot {v} {st} h =
    let ((r, u), ran, h₁) = >>=-eq-ok (run_work w (new_transaction snapshot)) _ h in
    let ((st', _), finished, h₂) = >>=-eq-ok (finish u) _ h₁ in
    let (_, _, h₃) = >>=-eq-ok (assert_active u) _ finished in
    let staged = run_work-Stages w (new_transaction snapshot) tt ran in
    subst (λ x. HasDistinctKeys x.mutations)
      (ap (λ p. p.0) (ok-injective h₃) ∙ ap (λ p. p.1) (ok-injective h₂))
      (sort_by-HasDistinctKeys _ (values u.mutations) (values-HasDistinctKeys u.mutations staged))
