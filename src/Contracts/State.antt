-- ===== src/Contracts/State.antt =====
-- packages/contracts/src/state.ts: the data of a state store. Revisions and fencing epochs are
-- canonical decimal strings in the source, read by `BigInt`; here they are the numbers.
use tego_next.Base.{
  ℕ, Text, text_beq, text_beq_iff, Bool, true, ◌&&◌, ◌≡◌, ◌↔◌, subst, Eq, Option, ltb, before,
  if◌then◌else◌, eq_self, and_split, text_eq,
}
use tego_next.Contracts.Json.{JsonValue}

pub record StateKey : Type 0 where
  pub namespace : Text
  pub collection : Text
  pub id : Text

-- `serializedKey(left) === serializedKey(right)`: JSON text tells two triples of strings apart.
unfoldable pub key_beq : StateKey → StateKey → Bool
key_beq j k =
    text_beq j.namespace k.namespace && (text_beq j.collection k.collection && text_beq j.id k.id)

key_sound : (j k : StateKey) → key_beq j k ≡ true → j ≡ k
unfolding key_beq
key_sound j k h =
    let (p, q) =
      and_split (text_beq j.namespace k.namespace)
        (text_beq j.collection k.collection && text_beq j.id k.id) h in
    let (q₁, q₂) = and_split (text_beq j.collection k.collection) (text_beq j.id k.id) q in
    cc (
      (text_beq_iff j.namespace k.namespace).0 p,
      (text_beq_iff j.collection k.collection).0 q₁,
      (text_beq_iff j.id k.id).0 q₂,
    )

key_self : (j : StateKey) → key_beq j j ≡ true
unfolding key_beq
key_self j = rw (eq_self j.namespace, eq_self j.collection, eq_self j.id)

pub key_beq_iff : (j k : StateKey) → (key_beq j k ≡ true) ↔ (j ≡ k)
key_beq_iff j k = (key_sound j k, λ e. subst (λ i. key_beq j i ≡ true) e (key_self j))

instance abbrev pub key_eq : Eq StateKey
key_eq = record { beq = key_beq; beq_iff = key_beq_iff }

pub record Versioned : Type 0 where
  pub value : JsonValue
  pub revision : ℕ

pub record ScannedState : Type 0 where
  pub key : StateKey
  pub value : JsonValue
  pub revision : ℕ

pub record StateQuery : Type 0 where
  pub namespace : Text
  pub collection : Text
  pub id_prefix : Option Text
  pub after_id : Option Text
  pub limit : Option ℕ

-- STATE_QUERY_MAX_LIMIT.
abbrev pub state_query_max_limit : ℕ
state_query_max_limit = 100

pub data ChangeKind : Type 0 where
  change_delete change_put : ChangeKind

pub record StateChange : Type 0 where
  pub revision : ℕ
  pub key : StateKey
  pub kind : ChangeKind
  pub value : Option JsonValue

pub data ExpectedRevision : Type 0 where
  unchecked : ExpectedRevision
  absent : ExpectedRevision
  at_revision : ℕ → ExpectedRevision

pub record StateFencing : Type 0 where
  pub resource : Text
  pub epoch : ℕ

-- The key and the fingerprint may each be missing.
pub record StateTransactionOptions : Type 0 where
  pub fencing : Option StateFencing
  pub idempotency_key : Option Text
  pub idempotency_fingerprint : Option Text

pub data OperationStatus : Type 0 where
  completed executing failed planned : OperationStatus

pub record OperationJournalEntry : Type 0 where
  pub operation_id : Text
  pub kind : Text
  pub status : OperationStatus
  pub state : JsonValue
  pub updated_at : Text

pub record PersistedOperationJournalEntry : Type 0 where
  pub entry : OperationJournalEntry
  pub revision : ℕ

pub record OperationJournalCursor : Type 0 where
  pub revision : ℕ
  pub operation_id : Text

pub record OperationJournalQuery : Type 0 where
  pub after : Option OperationJournalCursor
  pub limit : Option ℕ

-- The three results -1, 0 and 1.
pub data Comparison : Type 0 where
  less equal greater : Comparison

unfoldable pub compare_operation_journal_cursors :
    OperationJournalCursor → OperationJournalCursor → Comparison
compare_operation_journal_cursors l r =
    if ltb l.revision r.revision
    then less
    else if ltb r.revision l.revision
    then greater
    else if before l.operation_id r.operation_id
    then less
    else if before r.operation_id l.operation_id
    then greater
    else equal

pub record OutboxMessage : Type 0 where
  pub message_id : Text
  pub operation_id : Text
  pub topic : Text
  pub payload : JsonValue
  pub created_at : Text
  pub available_at : Text

-- OUTBOX_TOPIC_MAX_LENGTH and OUTBOX_PAYLOAD_MAX_BYTES.
abbrev pub outbox_topic_max_length : ℕ
outbox_topic_max_length = 128

abbrev pub outbox_payload_max_bytes : ℕ
outbox_payload_max_bytes = 1048576

pub record OutboxClaimRequest : Type 0 where
  pub owner : Text
  pub lease_duration_ms : ℕ
  pub limit : Option ℕ
  pub topic : Option Text
  pub fencing : Option StateFencing

pub record OutboxClaim : Type 0 where
  pub message : OutboxMessage
  pub owner : Text
  pub claim_epoch : ℕ
  pub attempt : ℕ
  pub claimed_at : Text
  pub expires_at : Text

pub data AcknowledgementOutcome : Type 0 where
  ack_completed ack_retry : AcknowledgementOutcome

pub record OutboxAcknowledgementRequest : Type 0 where
  pub message_id : Text
  pub owner : Text
  pub claim_epoch : ℕ
  pub outcome : AcknowledgementOutcome
  pub retry_at : Option Text
  pub fencing : Option StateFencing

pub record OutboxAcknowledgement : Type 0 where
  pub message_id : Text
  pub outcome : AcknowledgementOutcome
  pub attempt : ℕ
  pub acknowledged_at : Text
  pub duplicate : Bool
  pub retry_at : Option Text
