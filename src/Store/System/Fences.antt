-- ===== src/Store/System/Fences.antt =====
-- Fencing over the life of a store. A `transact` call that is answered from the recorded result of
-- its idempotency key, or that joins a call in flight, executes nothing and checks no fence.
use tego_next.Base.{
  refl, ℕ, ◌≤◌, ◌<◌, List, [], ◌∷◌, Option, some, get, ok, ◌≡◌, ◌≢◌, arith, text_eq, subst,
  Bool-cases, inl, inr, sym, Map, ap, ok-injective,
}
use tego_next.Contracts.Json.{JsonValue}
use tego_next.Contracts.Platform.{Platform}
use tego_next.Contracts.State.{
  StateFencing, StateTransactionOptions, OutboxClaimRequest, OutboxClaim,
  OutboxAcknowledgementRequest, OutboxAcknowledgement, StateKey,
}
use tego_next.Contracts.Diagnostic.{Outcome}
use tego_next.Store.Transaction.Callback.{Work}
use tego_next.Store.Session.{Begun, begin_transact, finish_transact}
use tego_next.Store.Session.Cases.{begin_cases, finish_cases}
use tego_next.Store.Types.{StoredRecord, StagedTransaction, IdempotencyIdentity}
use tego_next.Store.State.{MemoryStateStore}
use tego_next.Store.Commit.{commit}
use tego_next.Store.Commit.Success.{commit_facts}
use tego_next.Store.Commit.Records.{revision-committed, writes}
use tego_next.Store.Fencing.{FenceLe, FenceLe-refl, FenceLe-trans, commit-FenceLe, commit_fence}
use tego_next.Store.Fencing.Stale.{stale_epoch_refused}
use tego_next.Store.Outbox.{claim_outbox, acknowledge_outbox}
use tego_next.Store.System.{System, Event, step, run}
use tego_next.Store.System.Cases.{step_cases}

-- The revision and the fences do not fall.
pub record Grows (s t : MemoryStateStore) : Type 0 where
  pub revision_le : s.revision ≤ t.revision
  pub fences_le : FenceLe s.fences t.fences

step-Grows : (p : Platform) (y : System) (e : Event) → Grows y.store (step p y e).store
step-Grows p y e =
    let same = FenceLe-refl y.store.fences in
    step_cases (Grows y.store) p y e (record { revision_le = omega arith; fences_le = same })
      (λ l ws. record { revision_le = omega arith; fences_le = same })
      (λ m. record { revision_le = omega arith; fences_le = same })
      (λ o i st r v s' m d done.
        let f = commit_facts p o i st r y.store done in
        record {
          revision_le = elim (Bool-cases (writes f)) [
            | inl e ↦ omega (arith, rw e at (revision-committed f))
            | inr e ↦ omega (arith, rw e at (revision-committed f))
          ];
          fences_le = commit-FenceLe f;
        })
      (λ x rev f le grown. record { revision_le = le; fences_le = grown })

-- Whatever calls follow, the store's revision never falls and every fence stays, at its epoch or a
-- later one.
pub run-Grows :
    (p : Platform) (y : System) (es : List Event)
    → let t = (run p y es).store in
      (y.store.revision ≤ t.revision) × FenceLe y.store.fences t.fences
unfolding run
run-Grows p y [] = (omega arith, FenceLe-refl y.store.fences)
run-Grows p y (e ∷ es) =
    let g = step-Grows p y e in
    let (le, f) = run-Grows p (step p y e) es in
    (omega (arith, g.revision_le), FenceLe-trans _ _ _ g.fences_le f)

finish_stale :
    (p : Platform) (s : MemoryStateStore) (call : ℕ) (o : StateTransactionOptions)
    (i : Option IdempotencyIdentity) (snapshot : Map StateKey StoredRecord) (work : Work)
    (x : JsonValue)
    → ((st : StagedTransaction) (r : JsonValue) (y : JsonValue × MemoryStateStore)
        → commit p o i st r s ≢ ok y)
    → (finish_transact p call o i snapshot work s).0 ≢ ok x
finish_stale p s call o i snapshot work x never =
    finish_cases call s (λ r. r.0 ≢ ok x) p o i snapshot work (λ e h. cc)
      (λ r v st y s' staged done h. never st r (v, s') done)

-- Beginning a call changes nothing but the table of calls in flight.
begin-kept :
    (call : ℕ) (o : StateTransactionOptions) (s : MemoryStateStore) (b : Begun)
    (s' : MemoryStateStore)
    → begin_transact call o s ≡ ok (b, s')
    → s' ≡ record s { in_flight_idempotency = s'.in_flight_idempotency }
begin-kept call o s b s' =
    let P : Outcome (Begun × MemoryStateStore) → Type 0 =
      λ r. r ≡ ok (b, s') → s' ≡ record s { in_flight_idempotency = s'.in_flight_idempotency } in
    let from : (t : MemoryStateStore)
        → t ≡ record s { in_flight_idempotency = t.in_flight_idempotency }
        → (c : Begun) → P (ok (c, t)) =
      λ t e c h.
        subst (λ u. u ≡ record s { in_flight_idempotency = u.in_flight_idempotency })
          (ap (λ (q : Begun × MemoryStateStore). q.1) (ok-injective h)) e in
    begin_cases call s P o (λ e h. cc) (λ i e g m. from s refl _) (λ i e g m. from s refl _)
      (from s refl _) (λ i g m. from _ refl _)

-- Once a transaction has committed under an epoch of a resource, and whatever calls come between,
-- of the calls that bring a lower epoch of that resource: no commit succeeds; no `transact` call
-- that has started ends with a value, whatever its work and its snapshot; no claim and no
-- acknowledgement succeeds; and the beginning of a `transact` call changes nothing in the store
-- but the table of calls in flight.
pub run-stale_epoch_refused :
    (p : Platform) (o : StateTransactionOptions) (i : Option IdempotencyIdentity)
    (st : StagedTransaction) (r v : JsonValue) (s : MemoryStateStore) (y : System) (es : List Event)
    (g h : StateFencing) (now : ℕ)
    → o.fencing ≡ some g
    → commit p o i st r s ≡ ok (v, y.store)
    → h.resource ≡ g.resource
    → h.epoch < g.epoch
    → let t = (run p y es).store in
      ((o' : StateTransactionOptions) (i' : Option IdempotencyIdentity) (st' : StagedTransaction)
          (r' : JsonValue) (x : JsonValue × MemoryStateStore)
        → commit p (record o' { fencing = some h }) i' st' r' t ≢ ok x)
      × ((call : ℕ) (o' : StateTransactionOptions) (i' : Option IdempotencyIdentity)
            (snapshot : Map StateKey StoredRecord) (work : Work) (x : JsonValue)
          → (finish_transact p call (record o' { fencing = some h }) i' snapshot work t).0 ≢ ok x)
      × ((q : OutboxClaimRequest) (cs : List OutboxClaim)
          → (claim_outbox p now (record q { fencing = some h }) t).0 ≢ ok cs)
      × ((q : OutboxAcknowledgementRequest) (k : OutboxAcknowledgement)
          → (acknowledge_outbox p now (record q { fencing = some h }) t).0 ≢ ok k)
      × ((call : ℕ) (o' : StateTransactionOptions) (b : Begun) (u : MemoryStateStore)
          → begin_transact call (record o' { fencing = some h }) t ≡ ok (b, u)
          → u ≡ record t { in_flight_idempotency = u.in_flight_idempotency })
run-stale_epoch_refused p o i st r v s y es g h now fenced done same low =
    let t = (run p y es).store in
    let held = commit_fence (commit_facts p o i st r s done) g fenced in
    let (e, later, le) = (run-Grows p y es).1 g.resource g.epoch held in
    let at_h = subst (λ x. get x t.fences ≡ some e) (sym same) later in
    let (a, b, c) = stale_epoch_refused p now t h e at_h (omega arith) in
    (
      λ o' i' st' r' x. a (record o' { fencing = some h }) i' st' r' x refl,
      λ call o' i' snapshot work x.
          finish_stale p t call (record o' { fencing = some h }) i' snapshot work x
            (λ st' r' z. a (record o' { fencing = some h }) i' st' r' z refl),
      λ q cs. b (record q { fencing = some h }) cs refl,
      λ q k. c (record q { fencing = some h }) k refl,
      λ call o' d u. begin-kept call (record o' { fencing = some h }) t d u,
    )
