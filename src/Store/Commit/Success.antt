-- ===== src/Store/Commit/Success.antt =====
-- A commit that returns, taken apart.
use tego_next.Base.{
  Text, Bool, true, List, [], Option, Map, values, ok, if◌then◌else◌, ◌≡◌, arith, >>=-eq-ok,
  guard-eq-ok,
}
use tego_next.Contracts.Json.{JsonValue}
use tego_next.Contracts.Platform.{Platform}
use tego_next.Contracts.Diagnostic.{state_closed}
use tego_next.Contracts.State.{StateKey, key_eq, StateTransactionOptions, OutboxMessage}
use tego_next.Store.Types.{
  StoredRecord, Mutation, StagedTransaction, IdempotencyIdentity, clone_json,
}
use tego_next.Store.State.{MemoryStateStore, assert_open, is_open}
use tego_next.Store.Commit.Checks.{check_mutations, check_outbox, check_fence}
use tego_next.Store.Commit.{apply_commit, mutates, record_result, commit}

-- What the checks of a successful commit returned, and the store that it left.
pub record CommitFacts (p : Platform) (o : StateTransactionOptions) (i : Option IdempotencyIdentity)
    (st : StagedTransaction) (v : JsonValue) (s : MemoryStateStore) (r : JsonValue)
    (s' : MemoryStateStore) : Type 0 where
  pub next : Map StateKey StoredRecord
  pub applied : List Mutation
  pub new_by_id : Map Text OutboxMessage
  pub advances : Bool
  pub was_open : is_open s.lifecycle ≡ true
  pub mutations_checked : check_mutations st.mutations s.records ≡ ok (next, applied)
  pub outbox_checked : check_outbox p s.outbox st.outbox [] ≡ ok new_by_id
  pub fence_checked : check_fence o.fencing s.fences ≡ ok advances
  pub returned : r ≡ clone_json v
  pub left :
      let written =
        if mutates st applied (values new_by_id) advances
        then apply_commit o st next applied (values new_by_id) advances s
        else s in
      s' ≡ record written { idempotency = record_result i v written.idempotency }

pub commit_facts :
    (p : Platform) (o : StateTransactionOptions) (i : Option IdempotencyIdentity)
    (st : StagedTransaction) (v : JsonValue) (s : MemoryStateStore) {r : JsonValue}
    {s' : MemoryStateStore}
    → commit p o i st v s ≡ ok (r, s')
    → CommitFacts p o i st v s r s'
unfolding commit assert_open
commit_facts p o i st v s h =
    let (_, opened, h₁) = >>=-eq-ok (assert_open s) _ h in
    let ((next, applied), checked, h₂) = >>=-eq-ok (check_mutations st.mutations s.records) _ h₁ in
    let (new_by_id, staged, h₃) = >>=-eq-ok (check_outbox p s.outbox st.outbox []) _ h₂ in
    let (advances, fenced, h₄) = >>=-eq-ok (check_fence o.fencing s.fences) _ h₃ in
    record {
      next = next;
      applied = applied;
      new_by_id = new_by_id;
      advances = advances;
      was_open = guard-eq-ok (is_open s.lifecycle) state_closed opened;
      mutations_checked = checked;
      outbox_checked = staged;
      fence_checked = fenced;
      returned = ground arith;
      left = ground arith;
    }
