-- ===== src/Store/Outbox/Cases.antt =====
-- The ways in which the outbox calls end.
use tego_next.Base.{
  ℕ, ◌+◌, Bool, true, ◌&&◌, Option, none, some, get, set, ok, err, if◌then◌else◌, ◌≡◌, refl, arith,
  Bool-cases, inl, inr, List, text_eq, >>=-eq-ok, ◌∙◌,
}
use tego_next.Contracts.Platform.{Platform}
use tego_next.Contracts.Diagnostic.{
  Code, Outcome, state_fence_stale, state_query_invalid, state_idempotency_conflict,
}
use tego_next.Contracts.State.{
  OutboxClaimRequest, OutboxClaim, OutboxAcknowledgementRequest, OutboxAcknowledgement,
}
use tego_next.Store.Types.{StoredOutboxMessage}
use tego_next.Store.State.{MemoryStateStore, assert_open}
use tego_next.Store.Commit.{advance_fence}
use tego_next.Store.Commit.Checks.{check_fence}
use tego_next.Store.Outbox.{
  claim_outbox, claim_checks, run_claim, acknowledge_outbox, ack_checks, acknowledge_found,
  acknowledge_record, acknowledge_claim, acknowledged_record, acknowledgement_of, claimed_by,
  bump_if, assert_outbox_claim_request, assert_outbox_acknowledgement_request, same_outcome,
  same_option,
}

module _ (p : Platform) (now : ℕ) (q : OutboxClaimRequest) (s : MemoryStateStore) where
  pub claim_cases {ℓ} :
      (P : Outcome (List OutboxClaim) × MemoryStateStore → Type ℓ)
      → ((e : Code) → P (err e, s))
      → ((limit : ℕ) (a : Bool)
          → claim_checks q s ≡ ok (limit, a)
          → P (run_claim p q now limit s a))
      → P (claim_outbox p now q s)
  unfolding claim_outbox
  claim_cases P refused runs = go (claim_checks q s) refl
    where
      go :
          (c : Outcome (ℕ × Bool))
          → claim_checks q s ≡ c
          → P (elim c [ err e ↦ (err e, s) | ok (limit, a) ↦ run_claim p q now limit s a ])
      go (err e) h = refused e
      go (ok (limit, a)) h = runs limit a h

  pub claim_checks_fence :
      (limit : ℕ) (a : Bool)
      → claim_checks q s ≡ ok (limit, a)
      → check_fence q.fencing s.fences ≡ ok a
  unfolding claim_checks
  claim_checks_fence limit a h =
      let (_, _, h₁) = >>=-eq-ok (assert_open s) _ h in
      let (_, _, h₂) = >>=-eq-ok (assert_outbox_claim_request q) _ h₁ in
      let (b, e, h₃) = >>=-eq-ok (check_fence q.fencing s.fences) _ h₂ in e ∙ ground arith

-- What an acknowledgement that is made, and not repeated, leaves.
abbrev pub acknowledged_store :
    Platform
    → ℕ
    → OutboxAcknowledgementRequest
    → StoredOutboxMessage
    → OutboxClaim
    → Bool
    → MemoryStateStore
    → MemoryStateStore
acknowledged_store p now q r c a s =
    let t = record s {
      outbox = set q.message_id (acknowledged_record p now c q r) s.outbox;
      revision = s.revision + 1;
    } in
    if a then record t { fences = advance_fence q.fencing s.fences } else t

module _ (p : Platform) (now : ℕ) (q : OutboxAcknowledgementRequest) (s : MemoryStateStore) where
  claim_made {ℓ} :
      (P : Outcome OutboxAcknowledgement × MemoryStateStore → Type ℓ) (r : StoredOutboxMessage)
      (c : Option OutboxClaim) (a : Bool)
      → P (err state_fence_stale, s)
      → ((d : OutboxClaim)
          → c ≡ some d
          → claimed_by (some d) q ≡ true
          → P (ok (acknowledgement_of p now d q), acknowledged_store p now q r d a s))
      → P (acknowledge_claim p now q r c a s)
  unfolding acknowledge_claim
  claim_made P r none a stale made = stale
  claim_made P r (some d) a stale made = elim (Bool-cases (claimed_by (some d) q)) [
    | inl e ↦ rw e (made d refl e)
    | inr e ↦ rw e stale
  ]

  abbrev pub Repeats : StoredOutboxMessage → OutboxAcknowledgement → Type 0
  Repeats r a =
      (r.acknowledgement ≡ some a)
      × (claimed_by r.acknowledged_claim q ≡ true)
      × ((same_outcome a.outcome q.outcome && same_option a.retry_at q.retry_at) ≡ true)

  abbrev pub Makes : StoredOutboxMessage → OutboxClaim → Type 0
  Makes r c = (r.claim ≡ some c) × (claimed_by (some c) q ≡ true)

  record_cases {ℓ} :
      (P : Outcome OutboxAcknowledgement × MemoryStateStore → Type ℓ) (r : StoredOutboxMessage)
      (o : Option OutboxAcknowledgement) (a : Bool)
      → r.acknowledgement ≡ o
      → ((e : Code) → P (err e, s))
      → ((k : OutboxAcknowledgement)
          → Repeats r k
          → P (ok (record k { duplicate = true }), bump_if a q.fencing s))
      → ((c : OutboxClaim)
          → Makes r c
          → P (ok (acknowledgement_of p now c q), acknowledged_store p now q r c a s))
      → P (acknowledge_record p now q r o a s)
  unfolding acknowledge_record
  record_cases P r none a h refused repeats made =
      claim_made P r r.claim a (refused state_fence_stale) (λ c e m. made c (e, m))
  record_cases P r (some k) a h refused repeats made =
      elim (Bool-cases (claimed_by r.acknowledged_claim q)) [
        | inl e ↦
            rw e
              (elim (Bool-cases
                (same_outcome k.outcome q.outcome && same_option k.retry_at q.retry_at)) [
                  | inl m ↦ rw m (repeats k (h, e, m))
                  | inr m ↦ rw m (refused state_idempotency_conflict)
                ])
        | inr e ↦
            rw e (claim_made P r r.claim a (refused state_fence_stale) (λ c x m. made c (x, m)))
      ]

  -- An acknowledgement throws, repeats an earlier one, or ends a claim.
  pub ack_cases {ℓ} :
      (P : Outcome OutboxAcknowledgement × MemoryStateStore → Type ℓ)
      → ((e : Code) → P (err e, s))
      → ((a : Bool) (r : StoredOutboxMessage) (k : OutboxAcknowledgement)
          → ack_checks p q s ≡ ok a
          → get q.message_id s.outbox ≡ some r
          → Repeats r k
          → P (ok (record k { duplicate = true }), bump_if a q.fencing s))
      → ((a : Bool) (r : StoredOutboxMessage) (c : OutboxClaim)
          → ack_checks p q s ≡ ok a
          → get q.message_id s.outbox ≡ some r
          → Makes r c
          → P (ok (acknowledgement_of p now c q), acknowledged_store p now q r c a s))
      → P (acknowledge_outbox p now q s)
  unfolding acknowledge_outbox acknowledge_found
  ack_cases P refused repeats made = go (ack_checks p q s) refl
    where
      found :
          (a : Bool) (o : Option StoredOutboxMessage)
          → ack_checks p q s ≡ ok a
          → get q.message_id s.outbox ≡ o
          → P (acknowledge_found p now q o a s)
      found a none h g = refused state_query_invalid
      found a (some r) h g =
          record_cases P r r.acknowledgement a refl refused (λ k. repeats a r k h g)
            (λ c. made a r c h g)

      go :
          (c : Outcome Bool)
          → ack_checks p q s ≡ c
          → P (elim c [
            | err e ↦ (err e, s)
            | ok a ↦ acknowledge_found p now q (get q.message_id s.outbox) a s
          ])
      go (err e) h = refused e
      go (ok a) h = found a (get q.message_id s.outbox) h refl

  pub ack_checks_fence :
      (a : Bool) → ack_checks p q s ≡ ok a → check_fence q.fencing s.fences ≡ ok a
  unfolding ack_checks
  ack_checks_fence a h =
      let (_, _, h₁) = >>=-eq-ok (assert_open s) _ h in
      let (_, _, h₂) = >>=-eq-ok (assert_outbox_acknowledgement_request p q) _ h₁ in h₂
