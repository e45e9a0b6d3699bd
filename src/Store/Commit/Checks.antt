-- ===== src/Store/Commit/Checks.antt =====
-- memory-state-store.ts: what `#commit` and the outbox calls test before they write.
use tego_next.Base.{
  ℕ, Text, text_beq, Bool, true, false, ◌&&◌, List, [], ◌∷◌, Option, none, some, Map, get, set,
  delete, all, ltb, leb, is_some, length, ok, err, guard, ◌>>=◌, ◌>>◌, if◌then◌else◌, text_eq,
}
use tego_next.Contracts.Json.{json_beq, serialize_wire_value}
use tego_next.Contracts.Platform.{Platform}
use tego_next.Contracts.Identity.{is_alphanumeric, is_identity_unit}
use tego_next.Contracts.Diagnostic.{
  Outcome, state_fence_stale, state_data_invalid, state_idempotency_conflict,
  state_revision_conflict,
}
use tego_next.Contracts.State.{
  StateKey, key_eq, StateFencing, OutboxMessage, outbox_topic_max_length, outbox_payload_max_bytes,
  OutboxAcknowledgement, AcknowledgementOutcome, ack_completed, ack_retry,
}
use tego_next.Store.Types.{
  StoredRecord, Mutation, put_mutation, delete_mutation, mutation_key, mutation_expected,
  StoredOutboxMessage, matches_expected_revision,
}

-- What one mutation leaves of the next records, and whether it counts as applied.
unfoldable pub after_check :
    Mutation → Option StoredRecord → Map StateKey StoredRecord → Map StateKey StoredRecord
after_check (put_mutation k v e) current next = next
after_check (delete_mutation k e) none next = next
after_check (delete_mutation k e) (some r) next = delete k next

unfoldable pub applies : Mutation → Option StoredRecord → Bool
applies (put_mutation k v e) current = true
applies (delete_mutation k e) current = is_some current

unfoldable pub check_mutations :
    List Mutation → Map StateKey StoredRecord → Outcome (Map StateKey StoredRecord × List Mutation)
check_mutations [] next = ok (next, [])
check_mutations (m ∷ ms) next =
    let current = get (mutation_key m) next in
    let rest = check_mutations ms (after_check m current next) in
    do
      guard (matches_expected_revision current (mutation_expected m)) state_revision_conflict
      (final, applied) ← rest
      ok (final, if applies m current then m ∷ applied else applied)

unfoldable pub valid_timestamp : Platform → Text → Bool
valid_timestamp p t = elim (p.parse_date t) [ none ↦ false | some ms ↦ text_beq (p.iso_date ms) t ]

unfoldable pub same_outbox_message : OutboxMessage → OutboxMessage → Bool
same_outbox_message l r =
    text_beq l.message_id r.message_id
    && (text_beq l.operation_id r.operation_id
        && (text_beq l.topic r.topic
            && json_beq (serialize_wire_value l.payload) (serialize_wire_value r.payload)))

-- /^[A-Za-z0-9][A-Za-z0-9._-]*$/
topic_pattern : Text → Bool
topic_pattern [] = false
topic_pattern (c ∷ rest) = is_alphanumeric c && all is_identity_unit rest

unfoldable pub assert_outbox_message : Platform → OutboxMessage → Outcome (Unit {0})
unfolding topic_pattern
assert_outbox_message p m =
    guard
      (leb (length m.topic) outbox_topic_max_length
        && (topic_pattern m.topic && leb (p.json_bytes m.payload) outbox_payload_max_bytes))
      state_data_invalid

abbrev pub is_retry : AcknowledgementOutcome → Bool
is_retry ack_completed = false
is_retry ack_retry = true

abbrev pub acknowledged_retry : Option OutboxAcknowledgement → Bool
acknowledged_retry none = false
acknowledged_retry (some a) = is_retry a.outcome

-- A message that the store does not hold, or holds as to be retried, is new; another must repeat
-- the one that is held.
unfoldable pub admit_outbox :
    Option StoredOutboxMessage
    → OutboxMessage
    → Map Text OutboxMessage
    → Outcome (Map Text OutboxMessage)
admit_outbox none m staged = ok (set m.message_id m staged)
admit_outbox (some e) m staged =
    if acknowledged_retry e.acknowledgement
    then ok (set m.message_id m staged)
    else if same_outbox_message e.message m
    then ok staged
    else err state_idempotency_conflict

unfoldable pub stage_outbox :
    Option OutboxMessage
    → Option StoredOutboxMessage
    → OutboxMessage
    → Map Text OutboxMessage
    → Outcome (Map Text OutboxMessage)
unfolding admit_outbox
stage_outbox (some earlier) existing m staged =
    if same_outbox_message earlier m then ok staged else err state_idempotency_conflict
stage_outbox none existing m staged = admit_outbox existing m staged

unfoldable pub check_outbox :
    Platform
    → Map Text StoredOutboxMessage
    → List OutboxMessage
    → Map Text OutboxMessage
    → Outcome (Map Text OutboxMessage)
check_outbox p outbox [] staged = ok staged
check_outbox p outbox (m ∷ ms) staged = do
  assert_outbox_message p m
  guard (valid_timestamp p m.created_at && valid_timestamp p m.available_at) state_data_invalid
  staged' ← stage_outbox (get m.message_id staged) (get m.message_id outbox) m staged
  check_outbox p outbox ms staged'

-- Whether a request advances its fence; a lower epoch than the fence's is stale.
unfoldable pub check_epoch : ℕ → Option ℕ → Outcome Bool
check_epoch requested none = ok true
check_epoch requested (some current) =
    if ltb requested current then err state_fence_stale else ok (ltb current requested)

-- The test of `#commit`, and `#assertFence`.
unfoldable pub check_fence : Option StateFencing → Map Text ℕ → Outcome Bool
unfolding check_epoch
check_fence none fences = ok false
check_fence (some f) fences = check_epoch f.epoch (get f.resource fences)
