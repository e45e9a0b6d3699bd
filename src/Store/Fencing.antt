-- ===== src/Store/Fencing.antt =====
-- Fencing epochs: no operation lowers one.
pub mod Stale
use mathlib.Core.Path.{subst₂}
use tego_next.Base.{
  sort_by, ℕ, ◌+◌, ◌≤◌, ◌<◌, Text, text_beq, text_beq_iff, Bool, true, false, ◌&&◌, ◌||◌, not, List,
  [], ◌∷◌, Option, none, some, Map, get, set, get-set, values, ok, err, if◌then◌else◌, ◌≡◌, refl,
  sym, ap, ◌∙◌, arith, Bool-cases, Option-cases, inl, inr, subst, ltb, text_eq, guard, ◌>>=◌, ◌>>◌,
  Result, >>=-eq-ok, ◌≢◌,
}
use tego_next.Contracts.Json.{JsonValue}
use tego_next.Contracts.Platform.{Platform}
use tego_next.Contracts.Diagnostic.{Code, Outcome, state_fence_stale}
use tego_next.Contracts.State.{
  StateFencing, StateTransactionOptions, OutboxClaimRequest, OutboxClaim,
  OutboxAcknowledgementRequest, OutboxAcknowledgement,
}
use tego_next.Store.Outbox.{bump_if, ack_checks}
use tego_next.Store.Outbox.Cases.{
  claim_cases, claim_checks_fence, ack_cases, ack_checks_fence, acknowledged_store,
}
use tego_next.Store.Types.{is_greater, StoredOutboxMessage, StagedTransaction, IdempotencyIdentity}
use tego_next.Store.State.{MemoryStateStore}
use tego_next.Store.Commit.Checks.{check_fence, check_epoch}
use tego_next.Store.Commit.{advance_fence, commit, apply_commit, is_empty}
use tego_next.Store.Outbox.{claim_outbox, run_claim, claim_loop, compare_outbox, acknowledge_outbox}
use tego_next.Store.Commit.Success.{CommitFacts, commit_facts}
use tego_next.Store.Commit.Records.{writes, left_cases}

-- Every fence of `m` is in `n`, at the same epoch or a later one.
abbrev pub FenceLe : Map Text ℕ → Map Text ℕ → Type 0
FenceLe m n = (r : Text) (e : ℕ) → get r m ≡ some e → (e' : ℕ) × (get r n ≡ some e') × (e ≤ e')

pub FenceLe-refl : (m : Map Text ℕ) → FenceLe m m
FenceLe-refl m r e h = (e, h, omega arith)

pub FenceLe-trans : (l m n : Map Text ℕ) → FenceLe l m → FenceLe m n → FenceLe l n
FenceLe-trans l m n f g r e h =
    let (e', h', le) = f r e h in let (e'', h'', le') = g r e' h' in (e'', h'', omega arith)

check_epoch_le :
    (epoch : ℕ) (current : Option ℕ) {a : Bool} (e : ℕ)
    → check_epoch epoch current ≡ ok a
    → current ≡ some e
    → e ≤ epoch
unfolding check_epoch
check_epoch_le epoch none e h c = cc
check_epoch_le epoch (some x) e h c = ground arith

pub advance_fence-FenceLe :
    (f : Option StateFencing) (m : Map Text ℕ) {a : Bool}
    → check_fence f m ≡ ok a
    → FenceLe m (advance_fence f m)
unfolding check_fence advance_fence
advance_fence-FenceLe none m h r e g = (e, g, omega arith)
advance_fence-FenceLe (some f) m h r e g = elim (Bool-cases (text_beq f.resource r)) [
  | inl same ↦ (
    f.epoch,
    get-set f.resource r f.epoch m ∙ rw same,
    check_epoch_le f.epoch (get f.resource m) e h
        (ap (λ t. get t m) ((text_beq_iff f.resource r).0 same) ∙ g),
  )
  | inr other ↦ (e, get-set f.resource r f.epoch m ∙ rw other g, omega arith)
]

pub fences_if :
    (f : Option StateFencing) (m : Map Text ℕ) (b : Bool) {a : Bool}
    → check_fence f m ≡ ok a
    → FenceLe m (if b then advance_fence f m else m)
fences_if f m true h = advance_fence-FenceLe f m h
fences_if f m false h = FenceLe-refl m

-- The request that passed is the fence's epoch afterwards.
check_epoch_held :
    (epoch : ℕ) (current : Option ℕ) {a : Bool}
    → check_epoch epoch current ≡ ok a
    → a ≡ false
    → current ≡ some epoch
unfolding check_epoch
check_epoch_held epoch none h e = absurd (ground arith)
check_epoch_held epoch (some x) h e = ground arith

pub fence_held :
    (f : StateFencing) (m : Map Text ℕ) (a : Bool)
    → check_fence (some f) m ≡ ok a
    → get f.resource (if a then advance_fence (some f) m else m) ≡ some f.epoch
unfolding check_fence advance_fence
fence_held f m true h =
    ground (arith, get-set f.resource f.resource f.epoch m, text_beq_iff f.resource f.resource)
fence_held f m false h = check_epoch_held f.epoch (get f.resource m) h refl

pub check_fence_stale :
    (f : StateFencing) (m : Map Text ℕ) (e : ℕ)
    → get f.resource m ≡ some e
    → f.epoch < e
    → check_fence (some f) m ≡ err state_fence_stale
unfolding check_fence check_epoch
check_fence_stale f m e h l = ground arith

module _ {p : Platform} {o : StateTransactionOptions} {i : Option IdempotencyIdentity}
    {st : StagedTransaction} {v : JsonValue} {s : MemoryStateStore} {r : JsonValue}
    {s' : MemoryStateStore} (f : CommitFacts p o i st v s r s') where
  pub commit-FenceLe : FenceLe s.fences s'.fences
  unfolding apply_commit
  commit-FenceLe =
      left_cases f (λ t. FenceLe s.fences t.fences) (λ t m h. h) (λ _. FenceLe-refl s.fences)
        (λ _. fences_if o.fencing s.fences f.advances f.fence_checked)

  -- A fenced commit leaves its fence at the request's epoch.
  pub commit_fence :
      (g : StateFencing) → o.fencing ≡ some g → get g.resource s'.fences ≡ some g.epoch
  unfolding apply_commit
  commit_fence g e =
      let checked : check_fence (some g) s.fences ≡ ok f.advances = rw e at f.fence_checked in
      left_cases f (λ t. get g.resource t.fences ≡ some g.epoch) (λ t m h. h)
        (λ w.
          let still : f.advances ≡ false = ground arith in
          let held = fence_held g s.fences f.advances checked in rw still at held)
        (λ _.
          subst
            (λ x.
              get g.resource (if f.advances then advance_fence x s.fences else s.fences)
              ≡ some g.epoch)
            (sym e) (fence_held g s.fences f.advances checked))

-- Whatever a claim does after its checks, the fences stay or advance by the request.
run_claim_fences :
    (p : Platform) (q : OutboxClaimRequest) (now limit : ℕ) (s : MemoryStateStore) (a : Bool)
    → (b : Bool) × ((run_claim p q now limit s a).1.fences
        ≡ (if b then advance_fence q.fencing s.fences else s.fences))
unfolding run_claim
run_claim_fences p q now limit s a =
    let (claims, marked, failed) =
      claim_loop p q now limit
        (sort_by (λ l r. is_greater (compare_outbox l r)) (values s.outbox)) in
    elim (Bool-cases failed) [
      | inl e ↦ (false, rw e)
      | inr e ↦ (not (is_empty claims) || a, rw e (ground arith))
    ]

pub claim-FenceLe :
    (p : Platform) (now : ℕ) (q : OutboxClaimRequest) (s : MemoryStateStore)
    → FenceLe s.fences (claim_outbox p now q s).1.fences
claim-FenceLe p now q s =
    claim_cases p now q s (λ r. FenceLe s.fences r.1.fences) (λ e. FenceLe-refl s.fences)
      λ limit a h.
        let (b, e) = run_claim_fences p q now limit s a in
        subst (FenceLe s.fences) (sym e)
          (fences_if q.fencing s.fences b (claim_checks_fence p now q s limit a h))

pub acknowledge-FenceLe :
    (p : Platform) (now : ℕ) (q : OutboxAcknowledgementRequest) (s : MemoryStateStore)
    → FenceLe s.fences (acknowledge_outbox p now q s).1.fences
acknowledge-FenceLe p now q s =
    ack_cases p now q s (λ r. FenceLe s.fences r.1.fences) (λ e. FenceLe-refl s.fences)
      (λ a r k h g m. bumped a (ack_checks_fence p now q s a h))
      (λ a r c h g m. made a r c (ack_checks_fence p now q s a h))
  where
    bumped :
        (a : Bool)
        → check_fence q.fencing s.fences ≡ ok a
        → FenceLe s.fences (bump_if a q.fencing s).fences
    bumped true h = advance_fence-FenceLe q.fencing s.fences h
    bumped false h = FenceLe-refl s.fences

    made :
        (a : Bool) (r : StoredOutboxMessage) (c : OutboxClaim)
        → check_fence q.fencing s.fences ≡ ok a
        → FenceLe s.fences (acknowledged_store p now q r c a s).fences
    made true r c h = advance_fence-FenceLe q.fencing s.fences h
    made false r c h = FenceLe-refl s.fences
