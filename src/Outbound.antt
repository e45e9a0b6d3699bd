-- ===== src/Outbound.antt =====
-- packages/executor-node/src/process/outbound-writer.ts, class ProcessOutboundWriter: a bounded
-- queue of messages that are written one at a time. A promise is a ticket; what it settles to is
-- logged. `encode` and the outcome of a `write` come from outside.
pub mod Balance
pub mod Drain
use tego_next.Base.{
  ℕ, ◌+◌, ◌-◌, ◌*◌, Bool, true, false, ◌||◌, List, [], ◌∷◌, ◌++◌, Option, none, some, Text, ok, err,
  leb, ltb, nat_beq, if◌then◌else◌, length,
}
use tego_next.Contracts.Json.{JsonValue, object, null, boolean, number, string, array}
use tego_next.Contracts.Diagnostic.{
  Code, Outcome, protocol_process_frame_invalid, executor_output_queue_capacity_exceeded,
  foreign_error,
}
use tego_next.Framing.{JsonCodec, max_frame_bytes}

-- PROCESS_OUTBOUND_MAX_QUEUED_FRAMES and PROCESS_OUTBOUND_MAX_QUEUED_BYTES.
abbrev pub max_queued_frames : ℕ
max_queued_frames = 64

abbrev pub max_queued_bytes : ℕ
max_queued_bytes = max_frame_bytes * 2

pub data Priority : Type 0 where
  diagnostic required : Priority

pub record PendingWrite : Type 0 where
  pub ticket : ℕ
  pub value : JsonValue
  pub retained_bytes : ℕ

pub data Settlement : Type 0 where
  resolved : Settlement
  rejected : Code → Settlement

pub record OutboundWriter : Type 0 where
  pub queue : List PendingWrite
  pub in_flight : Option PendingWrite
  pub flush_waiters : List ℕ
  pub active : Bool
  pub pending_count : ℕ
  pub pending_bytes : ℕ
  pub dropped_diagnostics : ℕ
  -- The frames handed to `write`, the settled promises of admitted messages and of messages that
  -- were not admitted, and the flushes that are done.
  pub written : List (List ℕ)
  pub released : List (ℕ × Settlement)
  pub turned_away : List (ℕ × Settlement)
  pub flushed : List ℕ

abbrev pub new_writer : OutboundWriter
new_writer = record {
  queue = [];
  in_flight = none;
  flush_waiters = [];
  active = false;
  pending_count = 0;
  pending_bytes = 0;
  dropped_diagnostics = 0;
  written = [];
  released = [];
  turned_away = [];
  flushed = [];
}

-- The parsed copy must be an object.
unfoldable pub snapshot_value : ℕ → Option JsonValue → Outcome (JsonValue × ℕ)
snapshot_value size (some (object o)) = ok (object o, size)
snapshot_value size _ = err protocol_process_frame_invalid

unfoldable pub snapshot_text : JsonCodec → ℕ → Option Text → Outcome (JsonValue × ℕ)
unfolding snapshot_value
snapshot_text c size none = err protocol_process_frame_invalid
snapshot_text c size (some t) = snapshot_value size (c.parse_json t)

unfoldable pub snapshot_bytes : JsonCodec → Option (List ℕ) → Outcome (JsonValue × ℕ)
unfolding snapshot_text
snapshot_bytes c none = err protocol_process_frame_invalid
snapshot_bytes c (some bytes) = snapshot_text c (length bytes) (c.decode_utf8 bytes)

-- The message's copy and the bytes of its JSON text.
unfoldable pub snapshot : JsonCodec → JsonValue → Outcome (JsonValue × ℕ)
unfolding snapshot_bytes
snapshot c v = snapshot_bytes c (c.encode_json v)

-- The `finally` of a write.
unfoldable pub release_write : PendingWrite → Settlement → OutboundWriter → OutboundWriter
release_write p s w = record w {
  in_flight = none;
  released = w.released ++ (p.ticket, s) ∷ [];
  pending_count = w.pending_count - 1;
  pending_bytes = w.pending_bytes - p.retained_bytes;
}

-- The end of `#drain`, where the queue is empty. With a message still pending the code starts to
-- drain again, which leaves the writer active; no writer gets there (Balance).
unfoldable pub go_idle : OutboundWriter → OutboundWriter
go_idle w =
    if nat_beq w.pending_count 0
    then record w {
      queue = [];
      active = false;
      flushed = w.flushed ++ w.flush_waiters;
      flush_waiters = [];
    }
    else record w { queue = []; active = true }

-- No room: a diagnostic is dropped, any other message rejected.
unfoldable pub turn_away : Priority → ℕ → OutboundWriter → OutboundWriter
turn_away diagnostic t w = record w {
  dropped_diagnostics = w.dropped_diagnostics + 1;
  turned_away = w.turned_away ++ (t, resolved) ∷ [];
}
turn_away required t w = record w {
  turned_away = w.turned_away ++ (t, rejected executor_output_queue_capacity_exceeded) ∷ [];
}

-- `retainedBytes > MAX - pendingBytes`, with the subtraction moved over.
abbrev pub is_full : ℕ → OutboundWriter → Bool
is_full size w =
    leb max_queued_frames w.pending_count || ltb max_queued_bytes (size + w.pending_bytes)

abbrev pub settlement : Bool → Settlement
settlement true = resolved
settlement false = rejected foreign_error

-- `#drain` up to its next wait: a message that cannot be encoded is rejected, the first that can
-- is being written.
unfoldable pub begin_write :
    Outcome (List ℕ)
    → PendingWrite
    → List PendingWrite
    → OutboundWriter
    → (Code → OutboundWriter)
    → OutboundWriter
begin_write (err e) p ps w next = next e
begin_write (ok bytes) p ps w next = record w {
  queue = ps;
  in_flight = some p;
  active = true;
  written = w.written ++ bytes ∷ [];
}

module _ (encode : JsonValue → Outcome (List ℕ)) where
  unfoldable pub drain_queue : List PendingWrite → OutboundWriter → OutboundWriter
  unfolding release_write go_idle begin_write
  drain_queue [] w = go_idle w
  drain_queue (p ∷ ps) w =
      begin_write (encode p.value) p ps w (λ e. drain_queue ps (release_write p (rejected e) w))

  unfoldable pub start_drain : OutboundWriter → OutboundWriter
  unfolding drain_queue
  start_drain w = if w.active then w else drain_queue w.queue (record w { active = true })

  unfoldable pub admit : Priority → ℕ → Outcome (JsonValue × ℕ) → OutboundWriter → OutboundWriter
  unfolding start_drain turn_away
  admit priority t (err e) w = record w { turned_away = w.turned_away ++ (t, rejected e) ∷ [] }
  admit priority t (ok (v, size)) w =
      if is_full size w
      then turn_away priority t w
      else start_drain (record w {
        pending_count = w.pending_count + 1;
        pending_bytes = w.pending_bytes + size;
        queue = w.queue ++ record { ticket = t; value = v; retained_bytes = size } ∷ [];
      })

  unfoldable pub send : JsonCodec → ℕ → JsonValue → Priority → OutboundWriter → OutboundWriter
  unfolding admit
  send c t v priority w = admit priority t (snapshot c v) w

  finish_write : Bool → Option PendingWrite → OutboundWriter → OutboundWriter
  unfolding drain_queue release_write
  finish_write done none w = w
  finish_write done (some p) w = drain_queue w.queue (release_write p (settlement done) w)

  -- The write that is under way ends, and `#drain` goes on.
  unfoldable pub write_settles : Bool → OutboundWriter → OutboundWriter
  unfolding finish_write
  write_settles done w = finish_write done w.in_flight w

unfoldable pub flush : ℕ → OutboundWriter → OutboundWriter
flush t w =
    if nat_beq w.pending_count 0
    then record w { flushed = w.flushed ++ t ∷ [] }
    else record w { flush_waiters = w.flush_waiters ++ t ∷ [] }

pub data WriterEvent : Type 0 where
  sends : ℕ → JsonValue → Priority → WriterEvent
  settles : Bool → WriterEvent
  flushes : ℕ → WriterEvent

module _ (c : JsonCodec) (encode : JsonValue → Outcome (List ℕ)) where
  unfoldable pub writer_step : OutboundWriter → WriterEvent → OutboundWriter
  writer_step w (sends t v priority) = send encode c t v priority w
  writer_step w (settles done) = write_settles encode done w
  writer_step w (flushes t) = flush t w

  unfoldable pub run_writer : OutboundWriter → List WriterEvent → OutboundWriter
  unfolding writer_step
  run_writer w [] = w
  run_writer w (e ∷ es) = run_writer (writer_step w e) es
