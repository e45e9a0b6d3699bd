-- ===== src/Store/Fencing/Stale.antt =====
-- A call that brings a stale epoch is refused.
use tego_next.Base.{ℕ, ◌<◌, Bool, List, Option, some, get, ok, ◌≡◌, text_eq, ◌≢◌}
use tego_next.Contracts.Json.{JsonValue}
use tego_next.Contracts.Platform.{Platform}
use tego_next.Contracts.State.{
  StateFencing, StateTransactionOptions, OutboxClaimRequest, OutboxClaim,
  OutboxAcknowledgementRequest, OutboxAcknowledgement,
}
use tego_next.Store.Outbox.{ack_checks}
use tego_next.Store.Outbox.Cases.{claim_cases, claim_checks_fence, ack_cases, ack_checks_fence}
use tego_next.Store.Types.{StagedTransaction, IdempotencyIdentity}
use tego_next.Store.State.{MemoryStateStore}
use tego_next.Store.Commit.Checks.{check_fence}
use tego_next.Store.Commit.{commit}
use tego_next.Store.Outbox.{claim_outbox, acknowledge_outbox}
use tego_next.Store.Commit.Success.{commit_facts}
use tego_next.Store.Fencing.{check_fence_stale}

commit_stale :
    (p : Platform) (o : StateTransactionOptions) (i : Option IdempotencyIdentity)
    (st : StagedTransaction) (v : JsonValue) (s : MemoryStateStore) (g : StateFencing) (e : ℕ)
    {x : JsonValue × MemoryStateStore}
    → o.fencing ≡ some g
    → get g.resource s.fences ≡ some e
    → g.epoch < e
    → commit p o i st v s ≢ ok x
commit_stale p o i st v s g e {x = (r, s')} fenced held low h =
    let f = commit_facts p o i st v s h in
    let checked : check_fence (some g) s.fences ≡ ok f.advances = rw fenced at f.fence_checked in
    let stale = check_fence_stale g s.fences e held low in cc

claim_stale :
    (p : Platform) (now : ℕ) (q : OutboxClaimRequest) (s : MemoryStateStore) (g : StateFencing)
    (e : ℕ) {cs : List OutboxClaim}
    → q.fencing ≡ some g
    → get g.resource s.fences ≡ some e
    → g.epoch < e
    → (claim_outbox p now q s).0 ≢ ok cs
claim_stale p now q s g e {cs} fenced held low =
    claim_cases p now q s (λ r. r.0 ≢ ok cs) (λ _ h. cc)
      λ limit a h _.
        let checked : check_fence (some g) s.fences ≡ ok a =
          rw fenced at (claim_checks_fence p now q s limit a h) in
        let stale = check_fence_stale g s.fences e held low in cc

acknowledge_stale :
    (p : Platform) (now : ℕ) (q : OutboxAcknowledgementRequest) (s : MemoryStateStore)
    (g : StateFencing) (e : ℕ) {k : OutboxAcknowledgement}
    → q.fencing ≡ some g
    → get g.resource s.fences ≡ some e
    → g.epoch < e
    → (acknowledge_outbox p now q s).0 ≢ ok k
acknowledge_stale p now q s g e {k} fenced held low =
    ack_cases p now q s (λ r. r.0 ≢ ok k) (λ _ h. cc) (λ a _ _ h _ _ _. refuted a h)
      (λ a _ _ h _ _ _. refuted a h)
  where
    refuted : (a : Bool) → ack_checks p q s ≡ ok a → ⊥
    refuted a h =
        let checked : check_fence (some g) s.fences ≡ ok a =
          rw fenced at (ack_checks_fence p now q s a h) in
        let stale = check_fence_stale g s.fences e held low in cc

-- Where a fence stands at an epoch, no transaction, claim or acknowledgement that brings a lower
-- epoch for its resource succeeds.
pub stale_epoch_refused :
    (p : Platform) (now : ℕ) (s : MemoryStateStore) (g : StateFencing) (e : ℕ)
    → get g.resource s.fences ≡ some e
    → g.epoch < e
    → ((o : StateTransactionOptions) (i : Option IdempotencyIdentity) (st : StagedTransaction)
          (v : JsonValue) (x : JsonValue × MemoryStateStore)
        → o.fencing ≡ some g
        → commit p o i st v s ≢ ok x)
      × ((q : OutboxClaimRequest) (cs : List OutboxClaim)
          → q.fencing ≡ some g
          → (claim_outbox p now q s).0 ≢ ok cs)
      × ((q : OutboxAcknowledgementRequest) (k : OutboxAcknowledgement)
          → q.fencing ≡ some g
          → (acknowledge_outbox p now q s).0 ≢ ok k)
stale_epoch_refused p now s g e held low = (
  λ o i st v x fenced. commit_stale p o i st v s g e fenced held low,
  λ q cs fenced. claim_stale p now q s g e fenced held low,
  λ q k fenced. acknowledge_stale p now q s g e fenced held low,
)
