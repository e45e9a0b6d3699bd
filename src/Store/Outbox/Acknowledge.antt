-- ===== src/Store/Outbox/Acknowledge.antt =====
-- Repeating an acknowledgement.
use tego_next.Base.{
  ℕ, Text, Bool, true, false, Option, none, some, Map, get, set, get-set, ok, if◌then◌else◌, ◌≡◌,
  refl, subst, arith, text_eq, ap, ◌∙◌, eq_self, nat_eq, >>=-eq-ok, ok-injective,
}
use tego_next.Contracts.Platform.{Platform}
use tego_next.Contracts.Diagnostic.{Outcome}
use tego_next.Contracts.State.{
  OutboxClaim, OutboxAcknowledgementRequest, OutboxAcknowledgement, StateFencing,
}
use tego_next.Store.Types.{StoredOutboxMessage}
use tego_next.Store.State.{MemoryStateStore, assert_open}
use tego_next.Store.Commit.{advance_fence}
use tego_next.Store.Commit.Checks.{check_fence, check_epoch}
use tego_next.Store.Outbox.{
  acknowledge_outbox, ack_checks, acknowledge_found, acknowledge_record, acknowledged_record,
  acknowledgement_of, bump_if, same_outcome, same_option, assert_outbox_acknowledgement_request,
}
use tego_next.Store.Fencing.{fence_held}
use tego_next.Store.Outbox.Cases.{ack_cases, acknowledged_store, Repeats, Makes}

same_option_self : (o : Option Text) → same_option o o ≡ true
same_option_self none = refl
same_option_self (some t) = eq_self t

same_outcome_self : (q : OutboxAcknowledgementRequest) → same_outcome q.outcome q.outcome ≡ true
same_outcome_self q = ground arith

-- After it has passed once, the same request passes without advancing a fence.
rechecked :
    (f : Option StateFencing) (m : Map Text ℕ) (a : Bool)
    → check_fence f m ≡ ok a
    → check_fence f (if a then advance_fence f m else m) ≡ ok false
unfolding check_fence advance_fence check_epoch
rechecked none m a h = refl
rechecked (some f) m a h = rw (fence_held f m a h) (ground arith)

ack_rechecked :
    (p : Platform) (q : OutboxAcknowledgementRequest) (s t : MemoryStateStore) (a : Bool)
    → ack_checks p q s ≡ ok a
    → t.lifecycle ≡ s.lifecycle
    → t.fences ≡ (if a then advance_fence q.fencing s.fences else s.fences)
    → ack_checks p q t ≡ ok false
unfolding ack_checks assert_open
ack_rechecked p q s t a h l f =
    let (_, opened, h₁) = >>=-eq-ok (assert_open s) _ h in
    let (_, fine, h₂) = >>=-eq-ok (assert_outbox_acknowledgement_request p q) _ h₁ in
    rw (l, opened, fine, f) (rechecked q.fencing s.fences a h₂)

-- A request that its claim has already been acknowledged with.
ack_repeat :
    (p : Platform) (now : ℕ) (q : OutboxAcknowledgementRequest) (t : MemoryStateStore)
    (r : StoredOutboxMessage) (k : OutboxAcknowledgement)
    → ack_checks p q t ≡ ok false
    → get q.message_id t.outbox ≡ some r
    → Repeats p now q t r k
    → acknowledge_outbox p now q t ≡ (ok (record k { duplicate = true }), t)
unfolding acknowledge_outbox acknowledge_found acknowledge_record
ack_repeat p now q t r k h g (e, c, m) =
    rw (h, acknowledge_outbox) (rw (g, acknowledge_found) (rw (e, acknowledge_record) (rw (c, m))))

abbrev RepeatsNext :
    Platform
    → ℕ
    → OutboxAcknowledgementRequest
    → Outcome OutboxAcknowledgement × MemoryStateStore
    → Type 0
RepeatsNext p later q x =
    (a : OutboxAcknowledgement)
    → x.0 ≡ ok a
    → acknowledge_outbox p later q x.1 ≡ (ok (record a { duplicate = true }), x.1)

again :
    (k b : OutboxAcknowledgement) (t : MemoryStateStore)
    → ◌≡◌ {A = Outcome OutboxAcknowledgement} (ok (record k { duplicate = true })) (ok b)
    → ◌≡◌ {A = Outcome OutboxAcknowledgement × MemoryStateStore}
        (ok (record k { duplicate = true }), t)
        (ok (record b { duplicate = true }), t)
again k b t e = ap (λ x. (ok (record x { duplicate = true }), t)) (ok-injective e)

module _ (p : Platform) (now later : ℕ) (q : OutboxAcknowledgementRequest)
    (s : MemoryStateStore) where
  repeated :
      (a : Bool) (r : StoredOutboxMessage) (k : OutboxAcknowledgement)
      → ack_checks p q s ≡ ok a
      → get q.message_id s.outbox ≡ some r
      → Repeats p now q s r k
      → RepeatsNext p later q (ok (record k { duplicate = true }), bump_if a q.fencing s)
  repeated true r k h g m b e =
      ack_repeat p later q (bump_if true q.fencing s) r k
        (ack_rechecked p q s (bump_if true q.fencing s) true h refl refl) g m
      ∙ again k b (bump_if true q.fencing s) e
  repeated false r k h g m b e =
      ack_repeat p later q s r k (ack_rechecked p q s s false h refl refl) g m ∙ again k b s e

  stored :
      (r : StoredOutboxMessage) (c : OutboxClaim)
      → get q.message_id (set q.message_id (acknowledged_record p now c q r) s.outbox)
        ≡ some (acknowledged_record p now c q r)
  stored r c = simp (get-set, eq_self)

  made :
      (a : Bool) (r : StoredOutboxMessage) (c : OutboxClaim)
      → ack_checks p q s ≡ ok a
      → Makes p now q s r c
      → RepeatsNext p later q
          (ok (acknowledgement_of p now c q), acknowledged_store p now q r c a s)
  unfolding acknowledged_record
  made true r c h m b e =
      ack_repeat p later q (acknowledged_store p now q r c true s) (acknowledged_record p now c q r)
        (acknowledgement_of p now c q)
        (ack_rechecked p q s (acknowledged_store p now q r c true s) true h refl refl) (stored r c)
        (refl, m.1, rw (same_outcome_self q) (same_option_self q.retry_at))
      ∙ ap (λ k. (ok (record k { duplicate = true }), acknowledged_store p now q r c true s))
          (ok-injective e)
  made false r c h m b e =
      ack_repeat p later q (acknowledged_store p now q r c false s)
        (acknowledged_record p now c q r) (acknowledgement_of p now c q)
        (ack_rechecked p q s (acknowledged_store p now q r c false s) false h refl refl)
        (stored r c) (refl, m.1, rw (same_outcome_self q) (same_option_self q.retry_at))
      ∙ ap (λ k. (ok (record k { duplicate = true }), acknowledged_store p now q r c false s))
          (ok-injective e)

-- An acknowledgement that returns may be repeated: sent again by the same owner for the same claim
-- with the same outcome, at any later time and with no call in between, it returns the same
-- acknowledgement marked as a duplicate, and changes nothing in the store.
pub acknowledge_idempotent :
    (p : Platform) (now later : ℕ) (q : OutboxAcknowledgementRequest) (s s' : MemoryStateStore)
    (a : OutboxAcknowledgement)
    → acknowledge_outbox p now q s ≡ (ok a, s')
    → acknowledge_outbox p later q s' ≡ (ok (record a { duplicate = true }), s')
acknowledge_idempotent p now later q s s' a h =
    subst (λ t. acknowledge_outbox p later q t ≡ (ok (record a { duplicate = true }), t))
      (ap (λ x. x.1) h)
      (ack_cases p now q s (RepeatsNext p later q) (λ e b x. cc) (repeated p now later q s)
        (λ c r d k _. made p now later q s c r d k) a (ap (λ x. x.0) h))
