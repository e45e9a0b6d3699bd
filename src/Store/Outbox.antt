-- ===== src/Store/Outbox.antt =====
-- memory-state-store.ts, `claimOutbox` and `acknowledgeOutbox`: leases on messages to deliver. The
-- time is read once, when the queued call runs. A call that throws returns the store too: a claim
-- marks records before it may fail.
pub mod Cases
pub mod Acknowledge
use tego_next.Base.{
  ℕ, zero, suc, ◌+◌, ◌≤◌, ◌<◌, Text, text_beq, Bool, true, false, ◌&&◌, ◌||◌, not, List, [], ◌∷◌,
  ◌++◌, Option, none, some, Map, get, set, values, all, ltb, leb, nat_beq, is_some, length, sort_by,
  ok, err, guard, ◌>>=◌, ◌>>◌, if◌then◌else◌, text_eq,
}
use tego_next.Contracts.Platform.{Platform, is_safe_integer}
use tego_next.Contracts.Identity.{identity_pattern}
use tego_next.Contracts.Diagnostic.{
  Code, Outcome, state_query_invalid, state_data_invalid, state_fence_stale,
  state_idempotency_conflict,
}
use tego_next.Contracts.State.{
  OutboxClaimRequest, OutboxClaim, OutboxAcknowledgementRequest, OutboxAcknowledgement,
  StateFencing, AcknowledgementOutcome, ack_completed, ack_retry, OutboxMessage, Comparison, less,
  equal, greater,
}
use tego_next.Store.Types.{StoredOutboxMessage, compare_code_units, or_else, is_greater, clone_json}
use tego_next.Store.State.{MemoryStateStore, assert_open}
use tego_next.Store.Commit.Checks.{check_fence, valid_timestamp, is_retry}
use tego_next.Store.Commit.{advance_fence, is_empty}

abbrev opt_identity : Option Text → Bool
opt_identity none = true
opt_identity (some t) = identity_pattern t

abbrev claim_limit_ok : Option ℕ → Bool
claim_limit_ok none = true
claim_limit_ok (some n) = is_safe_integer n && (ltb 0 n && leb n 100)

abbrev limit_or_one : Option ℕ → ℕ
limit_or_one none = 1
limit_or_one (some n) = n

unfoldable pub assert_outbox_claim_request : OutboxClaimRequest → Outcome ℕ
assert_outbox_claim_request q =
    if identity_pattern q.owner
      && (opt_identity q.topic
          && (is_safe_integer q.lease_duration_ms
              && ((ltb 0 q.lease_duration_ms && leb q.lease_duration_ms 86400000)
                  && claim_limit_ok q.limit)))
    then ok (limit_or_one q.limit)
    else err state_query_invalid

compare_sequences : ℕ → ℕ → Comparison
compare_sequences a b = if ltb a b then less else if ltb b a then greater else equal

-- Messages by time of availability, then in the order in which they were enqueued.
pub compare_outbox : StoredOutboxMessage → StoredOutboxMessage → Comparison
unfolding compare_sequences
compare_outbox l r = or_else (compare_code_units l.message.available_at r.message.available_at) (
    or_else (compare_sequences l.enqueue_sequence r.enqueue_sequence)
      (compare_code_units l.message.message_id r.message.message_id))

abbrev is_completed : Option OutboxAcknowledgement → Bool
is_completed none = false
is_completed (some a) = not (is_retry a.outcome)

abbrev topic_matches : Option Text → Text → Bool
topic_matches none t = true
topic_matches (some q) t = text_beq t q

-- `Date.parse(t) > now`; NaN is not greater.
abbrev pub parsed_after : Option ℕ → ℕ → Bool
parsed_after none now = false
parsed_after (some ms) now = ltb now ms

abbrev pub is_leased : Platform → Option OutboxClaim → ℕ → Bool
is_leased p none now = false
is_leased p (some c) now = parsed_after (p.parse_date c.expires_at) now

-- The records that the loop passes over with `continue`.
unfoldable pub is_claimable : Platform → OutboxClaimRequest → ℕ → StoredOutboxMessage → Bool
is_claimable p q now r =
    not (is_completed r.acknowledgement)
    && (topic_matches q.topic r.message.topic
        && (not (parsed_after (p.parse_date r.message.available_at) now)
            && not (is_leased p r.claim now)))

unfoldable pub claim_of : Platform → OutboxClaimRequest → ℕ → StoredOutboxMessage → OutboxClaim
claim_of p q now r = record {
  message = record (r.message) { payload = clone_json r.message.payload };
  owner = q.owner;
  claim_epoch = r.attempt + 1;
  attempt = r.attempt + 1;
  claimed_at = p.iso_date now;
  expires_at = p.iso_date (now + q.lease_duration_ms);
}

unfoldable pub claimed_record :
    Platform → OutboxClaimRequest → ℕ → StoredOutboxMessage → StoredOutboxMessage
unfolding claim_of
claimed_record p q now r = record r {
  attempt = r.attempt + 1;
  claim = some (claim_of p q now r);
  acknowledgement = none;
  acknowledged_claim = none;
}

-- The loop over the sorted records, with the number of claims still to make: the claims, and the
-- records that were marked. The flag tells that an attempt left the safe range.
unfoldable pub claim_loop :
    Platform
    → OutboxClaimRequest
    → ℕ
    → ℕ
    → List StoredOutboxMessage
    → List OutboxClaim × List StoredOutboxMessage × Bool
unfolding claimed_record
claim_loop p q now left [] = ([], [], false)
claim_loop p q now zero (r ∷ rs) = ([], [], false)
claim_loop p q now (suc left) (r ∷ rs) =
    let skipped = claim_loop p q now (suc left) rs in
    let taken =
      let (cs, ms, failed) = claim_loop p q now left rs in
      if is_safe_integer (r.attempt + 1)
      then (claim_of p q now r ∷ cs, claimed_record p q now r ∷ ms, failed)
      else ([], [], true) in
    if is_claimable p q now r then taken else skipped

-- The marked records, written back under their ids.
unfoldable pub write_marked :
    List StoredOutboxMessage → Map Text StoredOutboxMessage → Map Text StoredOutboxMessage
write_marked [] m = m
write_marked (r ∷ rs) m = write_marked rs (set r.message.message_id r m)

-- `revision += 1` with the fence advanced.
abbrev pub bump : Option StateFencing → MemoryStateStore → MemoryStateStore
bump fencing s = record s { revision = s.revision + 1; fences = advance_fence fencing s.fences }

unfoldable pub run_claim :
    Platform
    → OutboxClaimRequest
    → ℕ
    → ℕ
    → MemoryStateStore
    → Bool
    → Outcome (List OutboxClaim) × MemoryStateStore
unfolding claim_loop write_marked compare_outbox
run_claim p q now limit s advances =
    let sorted = sort_by (λ l r. is_greater (compare_outbox l r)) (values s.outbox) in
    let (claims, marked, failed) = claim_loop p q now limit sorted in
    let t = record s { outbox = write_marked marked s.outbox } in
    if failed
    then (err state_data_invalid, t)
    else (ok claims, if not (is_empty claims) || advances then bump q.fencing t else t)

abbrev pub thrown {ℓ} : {A : Type ℓ} → Code → MemoryStateStore → Outcome A × MemoryStateStore
thrown e s = (err e, s)

pub claim_checks : OutboxClaimRequest → MemoryStateStore → Outcome (ℕ × Bool)
claim_checks q s = do
  assert_open s
  limit ← assert_outbox_claim_request q
  advances ← check_fence q.fencing s.fences
  ok (limit, advances)

-- `claimOutbox`: the request is checked when the call is made; here it runs at once.
unfoldable pub claim_outbox :
    Platform
    → ℕ
    → OutboxClaimRequest
    → MemoryStateStore
    → Outcome (List OutboxClaim) × MemoryStateStore
unfolding run_claim claim_checks
claim_outbox p now q s = elim (claim_checks q s) [
  | err e ↦ thrown e s
  | ok (limit, advances) ↦ run_claim p q now limit s advances
]

abbrev retry_at_ok : Platform → AcknowledgementOutcome → Option Text → Bool
retry_at_ok p ack_completed none = true
retry_at_ok p ack_completed (some t) = false
retry_at_ok p ack_retry none = false
retry_at_ok p ack_retry (some t) = valid_timestamp p t

unfoldable pub assert_outbox_acknowledgement_request :
    Platform → OutboxAcknowledgementRequest → Outcome (Unit {0})
assert_outbox_acknowledgement_request p q =
    guard (identity_pattern q.owner && retry_at_ok p q.outcome q.retry_at) state_query_invalid

abbrev pub same_outcome : AcknowledgementOutcome → AcknowledgementOutcome → Bool
same_outcome ack_completed b = not (is_retry b)
same_outcome ack_retry b = is_retry b

abbrev pub same_option : Option Text → Option Text → Bool
same_option none none = true
same_option none (some t) = false
same_option (some t) none = false
same_option (some t) (some u) = text_beq t u

-- The claim is the requester's: its owner and its epoch.
abbrev pub claimed_by : Option OutboxClaim → OutboxAcknowledgementRequest → Bool
claimed_by none q = false
claimed_by (some c) q = text_beq c.owner q.owner && nat_beq c.claim_epoch q.claim_epoch

abbrev with_retry : OutboxMessage → OutboxAcknowledgementRequest → OutboxMessage
with_retry m q = elim q.outcome [
  | ack_completed ↦ m
  | ack_retry ↦ elim q.retry_at [ none ↦ m | some t ↦ record m { available_at = t } ]
]

unfoldable pub acknowledgement_of :
    Platform → ℕ → OutboxClaim → OutboxAcknowledgementRequest → OutboxAcknowledgement
acknowledgement_of p now c q = record {
  message_id = q.message_id;
  outcome = q.outcome;
  attempt = c.attempt;
  acknowledged_at = p.iso_date now;
  duplicate = false;
  retry_at = q.retry_at;
}

-- The claim is given up, with the acknowledgement on record.
unfoldable pub acknowledged_record :
    Platform
    → ℕ
    → OutboxClaim
    → OutboxAcknowledgementRequest
    → StoredOutboxMessage
    → StoredOutboxMessage
unfolding acknowledgement_of
acknowledged_record p now c q r = record r {
  acknowledgement = some (acknowledgement_of p now c q);
  acknowledged_claim = some c;
  claim = none;
  message = with_retry r.message q;
}

abbrev pub bump_if : Bool → Option StateFencing → MemoryStateStore → MemoryStateStore
bump_if b fencing s = if b then bump fencing s else s

-- The claim that is acknowledged now.
pub acknowledge_claim :
    Platform
    → ℕ
    → OutboxAcknowledgementRequest
    → StoredOutboxMessage
    → Option OutboxClaim
    → Bool
    → MemoryStateStore
    → Outcome OutboxAcknowledgement × MemoryStateStore
unfolding acknowledged_record
acknowledge_claim p now q r none advances s = thrown state_fence_stale s
acknowledge_claim p now q r (some c) advances s =
    if claimed_by (some c) q
    then (
      ok (acknowledgement_of p now c q),
      let t = record s {
        outbox = set q.message_id (acknowledged_record p now c q r) s.outbox;
        revision = s.revision + 1;
      } in
          if advances then record t { fences = advance_fence q.fencing s.fences } else t,
    )
    else thrown state_fence_stale s

-- A repeat of the acknowledgement that ended the claim, or the acknowledgement of a claim.
unfoldable pub acknowledge_record :
    Platform
    → ℕ
    → OutboxAcknowledgementRequest
    → StoredOutboxMessage
    → Option OutboxAcknowledgement
    → Bool
    → MemoryStateStore
    → Outcome OutboxAcknowledgement × MemoryStateStore
unfolding acknowledge_claim
acknowledge_record p now q r none advances s = acknowledge_claim p now q r r.claim advances s
acknowledge_record p now q r (some a) advances s =
    if claimed_by r.acknowledged_claim q
    then (if same_outcome a.outcome q.outcome && same_option a.retry_at q.retry_at
        then (ok (record a { duplicate = true }), bump_if advances q.fencing s)
        else thrown state_idempotency_conflict s)
    else acknowledge_claim p now q r r.claim advances s

pub ack_checks : Platform → OutboxAcknowledgementRequest → MemoryStateStore → Outcome Bool
ack_checks p q s = do
  assert_open s
  assert_outbox_acknowledgement_request p q
  check_fence q.fencing s.fences

pub acknowledge_found :
    Platform
    → ℕ
    → OutboxAcknowledgementRequest
    → Option StoredOutboxMessage
    → Bool
    → MemoryStateStore
    → Outcome OutboxAcknowledgement × MemoryStateStore
unfolding acknowledge_record
acknowledge_found p now q none advances s = thrown state_query_invalid s
acknowledge_found p now q (some r) advances s =
    acknowledge_record p now q r r.acknowledgement advances s

-- `acknowledgeOutbox`.
unfoldable pub acknowledge_outbox :
    Platform
    → ℕ
    → OutboxAcknowledgementRequest
    → MemoryStateStore
    → Outcome OutboxAcknowledgement × MemoryStateStore
unfolding acknowledge_found ack_checks
acknowledge_outbox p now q s = elim (ack_checks p q s) [
  | err e ↦ thrown e s
  | ok advances ↦ acknowledge_found p now q (get q.message_id s.outbox) advances s
]
