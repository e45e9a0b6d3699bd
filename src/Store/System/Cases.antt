-- ===== src/Store/System/Cases.antt =====
-- What one step of the system does to the store.
use tego_next.Base.{
  ℕ, ◌+◌, ◌≤◌, Text, Bool, true, false, ◌||◌, not, [], Option, none, some, Map, get, ok, is_some,
  ◌≡◌, arith, Bool-cases, inl, inr, nat_eq, sort_by, values, text_eq,
}
use tego_next.Contracts.Json.{JsonValue}
use tego_next.Contracts.Platform.{Platform}
use tego_next.Contracts.State.{
  StateTransactionOptions, StateFencing, OutboxClaimRequest, OutboxClaim,
  OutboxAcknowledgementRequest,
}
use tego_next.Store.Types.{IdempotencyIdentity, StagedTransaction, StoredOutboxMessage, is_greater}
use tego_next.Store.Transaction.Staging.{HasDistinctKeys, stage-HasDistinctKeys}
use tego_next.Store.State.{
  MemoryStateStore, InFlight, StoreLifecycle, Watcher, open_store, close_store, watch, assert_open,
  is_closed, is_open, store_open, store_closed,
}
use tego_next.Store.Commit.{commit, is_empty}
use tego_next.Store.Commit.Checks.{check_fence}
use tego_next.Store.Outbox.{
  claim_outbox, acknowledge_outbox, run_claim, claim_loop, compare_outbox, write_marked, bump_if,
}
use tego_next.Store.Outbox.Cases.{
  claim_cases, claim_checks_fence, ack_cases, ack_checks_fence, acknowledged_store,
}
use tego_next.Store.Fencing.{FenceLe, FenceLe-refl, advance_fence-FenceLe}
use tego_next.Store.Session.Cases.{begin_cases, release_cases, finish_cases}
use tego_next.Store.System.{
  System, Pending, Event, opens, closes, begins, finishes, claims, acknowledges, watches, step,
  after_begin, finish_pending,
}

-- The outbox calls touch the outbox, the revision and the fences.
abbrev pub delivered :
    MemoryStateStore → Map Text StoredOutboxMessage → ℕ → Map Text ℕ → MemoryStateStore
delivered s x rev f = record s { outbox = x; revision = rev; fences = f }

module _ {ℓ} (P : MemoryStateStore → Type ℓ) (s : MemoryStateStore)
    (deliver : (x : Map Text StoredOutboxMessage) (rev : ℕ) (f : Map Text ℕ)
      → s.revision ≤ rev
      → FenceLe s.fences f
      → P (delivered s x rev f)) where
  bumped :
      (f : Option StateFencing) (x : Map Text StoredOutboxMessage) (b : Bool) {a : Bool}
      → check_fence f s.fences ≡ ok a
      → P (bump_if b f (record s { outbox = x }))
  bumped f x true h =
      deliver x (s.revision + 1) _ (omega arith) (advance_fence-FenceLe f s.fences h)
  bumped f x false h = deliver x s.revision s.fences (omega arith) (FenceLe-refl s.fences)

  pub claim_frame : (p : Platform) (now : ℕ) (q : OutboxClaimRequest) → P (claim_outbox p now q s).1
  unfolding run_claim
  claim_frame p now q =
      claim_cases p now q s (λ r. P r.1)
        (λ e. deliver s.outbox s.revision s.fences (omega arith) (FenceLe-refl s.fences))
        λ limit a h.
          let fence = claim_checks_fence p now q s limit a h in
          let (cs, ms, failed) =
            claim_loop p q now limit
              (sort_by (λ l r. is_greater (compare_outbox l r)) (values s.outbox)) in
          elim (Bool-cases failed) [
            | inl e ↦ rw e (
                deliver (write_marked ms s.outbox) s.revision s.fences (omega arith)
                  (FenceLe-refl s.fences))
            | inr e ↦
                rw e (bumped q.fencing (write_marked ms s.outbox) (not (is_empty cs) || a) fence)
          ]

  pub acknowledge_frame :
      (p : Platform) (now : ℕ) (q : OutboxAcknowledgementRequest)
      → P (acknowledge_outbox p now q s).1
  acknowledge_frame p now q =
      ack_cases p now q s (λ r. P r.1)
        (λ e. deliver s.outbox s.revision s.fences (omega arith) (FenceLe-refl s.fences))
        (λ a r k h g m. bumped q.fencing s.outbox a (ack_checks_fence p now q s a h))
        (λ a r c h g m. made r c a (ack_checks_fence p now q s a h))
    where
      made :
          (r : StoredOutboxMessage) (c : OutboxClaim) (a : Bool)
          → check_fence q.fencing s.fences ≡ ok a
          → P (acknowledged_store p now q r c a s)
      made r c true h =
          deliver _ (s.revision + 1) _ (omega arith) (advance_fence-FenceLe q.fencing s.fences h)
      made r c false h = deliver _ (s.revision + 1) _ (omega arith) (FenceLe-refl s.fences)

-- A step leaves the store, or changes its life cycle and watchers, or its calls in flight, or
-- commits, or delivers.
pub step_cases {ℓ} :
    (P : MemoryStateStore → Type ℓ) (p : Platform) (y : System) (e : Event)
    → P y.store
    → ((l : StoreLifecycle) (ws : Map ℕ Watcher)
        → P (record (y.store) { lifecycle = l; watchers = ws }))
    → ((m : Map Text InFlight) → P (record (y.store) { in_flight_idempotency = m }))
    → ((o : StateTransactionOptions) (i : Option IdempotencyIdentity) (st : StagedTransaction)
          (r v : JsonValue) (s' : MemoryStateStore) (m : Map Text InFlight)
        → HasDistinctKeys st.mutations
        → commit p o i st r y.store ≡ ok (v, s')
        → P (record s' { in_flight_idempotency = m }))
    → ((x : Map Text StoredOutboxMessage) (rev : ℕ) (f : Map Text ℕ)
        → y.store.revision ≤ rev
        → FenceLe y.store.fences f
        → P (delivered y.store x rev f))
    → P (step p y e).store
unfolding step open_store close_store watch assert_open
step_cases P p y opens keep admin flight committed deliver =
    elim (Bool-cases (is_closed y.store.lifecycle)) [
      | inl e ↦ rw e keep
      | inr e ↦ rw e (admin store_open y.store.watchers)
    ]
step_cases P p y closes keep admin flight committed deliver =
    elim (Bool-cases (is_closed y.store.lifecycle)) [
      | inl e ↦ rw e keep
      | inr e ↦ rw e (admin store_closed [])
    ]
step_cases P p y (begins call o) keep admin flight committed deliver =
    elim (Bool-cases (is_some (get call y.pending))) [
      | inl e ↦ rw e keep
      | inr e ↦ rw e (
          begin_cases call y.store (λ r. P (after_begin call o y r).store) o (λ _. keep)
            (λ _ _ _ _. keep) (λ _ _ _ _. keep) keep (λ _ _ _. flight _))
    ]
step_cases P p y (finishes call work) keep admin flight committed deliver = go (get call y.pending)
  where
    go : (c : Option Pending) → P (finish_pending p call work c y).store
    go none = keep
    go (some c) =
        finish_cases call y.store (λ r. P r.1) p c.options c.identity c.snapshot work
          (λ _. release_cases call y.store P c.identity keep flight)
          λ r v st x s' staged done.
            let at = λ (m : Map Text InFlight).
              committed c.options c.identity st r v s' m
                (stage-HasDistinctKeys work c.snapshot staged) done in
            release_cases call s' P c.identity (at s'.in_flight_idempotency) at
step_cases P p y (claims now q) keep admin flight committed deliver =
    claim_frame P y.store deliver p now q
step_cases P p y (acknowledges now q) keep admin flight committed deliver =
    acknowledge_frame P y.store deliver p now q
step_cases P p y (watches number cursor) keep admin flight committed deliver =
    elim (Bool-cases (is_open y.store.lifecycle)) [
      | inl e ↦ rw e (admin y.store.lifecycle _)
      | inr e ↦ rw e keep
    ]
