-- ===== src/Outbound/Balance.antt =====
-- The counters and the queue of the outbound writer.
use tego_next.Base.{
  ℕ, suc, ◌+◌, ◌≤◌, ◌<◌, Bool, true, false, List, [], ◌∷◌, ◌++◌, Option, none, some, ok, err, ◌≡◌,
  refl, sym, subst, arith, nat_beq, Bool-cases, inl, inr, length, length-append,
}
use tego_next.Contracts.Json.{JsonValue}
use tego_next.Contracts.Diagnostic.{Code, Outcome}
use tego_next.Framing.{JsonCodec}
use tego_next.Outbound.{
  PendingWrite, OutboundWriter, new_writer, Settlement, rejected, Priority, diagnostic, required,
  WriterEvent, sends, settles, flushes, release_write, go_idle, drain_queue, begin_write,
  start_drain, turn_away, is_full, admit, send, snapshot, write_settles, finish_write, flush,
  writer_step, run_writer, max_queued_frames, max_queued_bytes, settlement,
}

abbrev pub total_bytes : List PendingWrite → ℕ
total_bytes [] = 0
total_bytes (p ∷ ps) = p.retained_bytes + total_bytes ps

abbrev pub flight_count : Option PendingWrite → ℕ
flight_count none = 0
flight_count (some p) = 1

abbrev pub flight_bytes : Option PendingWrite → ℕ
flight_bytes none = 0
flight_bytes (some p) = p.retained_bytes

total-append :
    (ps : List PendingWrite) (p : PendingWrite)
    → total_bytes (ps ++ p ∷ []) ≡ total_bytes ps + p.retained_bytes
total-append [] p = omega arith
total-append (q ∷ ps) p = omega (arith, total-append ps p)

-- What holds between events, of a writer that is idle and of one that writes a message.
abbrev pub IsSettled : Option PendingWrite → List PendingWrite → Bool → List ℕ → Type 0
IsSettled none queue active waiters = (queue ≡ []) × (active ≡ false) × (waiters ≡ [])
IsSettled (some p) queue active waiters = active ≡ true

pub record IsBalanced (w : OutboundWriter) : Type 0 where
  pub counted : w.pending_count ≡ length w.queue + flight_count w.in_flight
  pub weighed : w.pending_bytes ≡ total_bytes w.queue + flight_bytes w.in_flight
  pub count_le : w.pending_count ≤ max_queued_frames
  pub bytes_le : w.pending_bytes ≤ max_queued_bytes
  pub is_settled : IsSettled w.in_flight w.queue w.active w.flush_waiters

-- The writer with nothing under way, whose queue is still to be drained.
pub record IsDraining (ps : List PendingWrite) (w : OutboundWriter) : Type 0 where
  pub counted : w.pending_count ≡ length ps
  pub weighed : w.pending_bytes ≡ total_bytes ps
  pub count_le : w.pending_count ≤ max_queued_frames
  pub bytes_le : w.pending_bytes ≤ max_queued_bytes
  pub grounded : w.in_flight ≡ none

release-IsDraining :
    (p : PendingWrite) (ps : List PendingWrite) (s : Settlement) (w : OutboundWriter)
    → w.pending_count ≡ suc (length ps)
    → w.pending_bytes ≡ p.retained_bytes + total_bytes ps
    → w.pending_count ≤ max_queued_frames
    → w.pending_bytes ≤ max_queued_bytes
    → IsDraining ps (release_write p s w)
unfolding release_write
release-IsDraining p ps s w counted weighed count_le bytes_le = record {
  counted = omega arith;
  weighed = omega arith;
  count_le = omega arith;
  bytes_le = omega arith;
  grounded = refl;
}

begin_write-IsBalanced :
    (o : Outcome (List ℕ)) (p : PendingWrite) (ps : List PendingWrite) (w : OutboundWriter)
    (next : Code → OutboundWriter)
    → IsDraining (p ∷ ps) w
    → ((e : Code) → IsBalanced (next e))
    → IsBalanced (begin_write o p ps w next)
unfolding begin_write
begin_write-IsBalanced (err e) p ps w next h k = k e
begin_write-IsBalanced (ok bytes) p ps w next h k = record {
  counted = omega (arith, h.counted);
  weighed = omega (arith, h.weighed);
  count_le = h.count_le;
  bytes_le = h.bytes_le;
  is_settled = refl;
}

go_idle-IsBalanced : (w : OutboundWriter) → IsDraining [] w → IsBalanced (go_idle w)
unfolding go_idle
go_idle-IsBalanced w h =
    let counted = h.counted in
    let weighed = h.weighed in
    let none_left : nat_beq w.pending_count 0 ≡ true = ground arith in
    rw (none_left, h.grounded)
      (record {
        counted = omega arith;
        weighed = omega arith;
        count_le = h.count_le;
        bytes_le = h.bytes_le;
        is_settled = (refl, refl, refl);
      })

turn_away-IsBalanced :
    (priority : Priority) (t : ℕ) (w : OutboundWriter)
    → IsBalanced w
    → IsBalanced (turn_away priority t w)
unfolding turn_away
turn_away-IsBalanced diagnostic t w h = record {
  counted = h.counted;
  weighed = h.weighed;
  count_le = h.count_le;
  bytes_le = h.bytes_le;
  is_settled = h.is_settled;
}
turn_away-IsBalanced required t w h = record {
  counted = h.counted;
  weighed = h.weighed;
  count_le = h.count_le;
  bytes_le = h.bytes_le;
  is_settled = h.is_settled;
}

module _ (encode : JsonValue → Outcome (List ℕ)) where
  drain_queue-IsBalanced :
      (ps : List PendingWrite) (w : OutboundWriter)
      → IsDraining ps w
      → IsBalanced (drain_queue encode ps w)
  unfolding drain_queue
  drain_queue-IsBalanced [] w h = go_idle-IsBalanced w h
  drain_queue-IsBalanced (p ∷ ps) w h = begin_write-IsBalanced (encode p.value) p ps w _ h (λ e.
      drain_queue-IsBalanced ps (release_write p (rejected e) w)
        (release-IsDraining p ps (rejected e) w h.counted h.weighed h.count_le h.bytes_le))

  start_busy : (w : OutboundWriter) → w.active ≡ true → start_drain encode w ≡ w
  unfolding start_drain
  start_busy w s = rw s refl

  start_idle :
      (w : OutboundWriter)
      → w.active ≡ false
      → start_drain encode w ≡ drain_queue encode w.queue (record w { active = true })
  unfolding start_drain
  start_idle w s = rw s refl

  abbrev enqueued : ℕ → JsonValue → ℕ → OutboundWriter → OutboundWriter
  enqueued t v size w = record w {
    pending_count = w.pending_count + 1;
    pending_bytes = w.pending_bytes + size;
    queue = w.queue ++ record { ticket = t; value = v; retained_bytes = size } ∷ [];
  }

  admitted :
      (t : ℕ) (v : JsonValue) (size : ℕ) (o : Option PendingWrite) (w : OutboundWriter)
      → IsBalanced w
      → w.in_flight ≡ o
      → IsSettled o w.queue w.active w.flush_waiters
      → w.pending_count < max_queued_frames
      → size + w.pending_bytes ≤ max_queued_bytes
      → IsBalanced (start_drain encode (enqueued t v size w))
  admitted t v size none w h e (q, a, f) room fits =
      let counted = rw (e, q) at (h.counted) in
      let weighed = rw (e, q) at (h.weighed) in
      subst IsBalanced (sym (start_idle (enqueued t v size w) a)) (
        drain_queue-IsBalanced
          (w.queue ++ record { ticket = t; value = v; retained_bytes = size } ∷ []) _
          (record {
            counted = rw q (omega (arith, counted));
            weighed = rw q (omega (arith, weighed));
            count_le = omega arith;
            bytes_le = omega arith;
            grounded = e;
          }))
  admitted t v size (some p) w h e a room fits =
      let counted = rw e at (h.counted) in
      let weighed = rw e at (h.weighed) in
      subst IsBalanced (sym (start_busy (enqueued t v size w) a)) (record {
        counted = rw e (
            omega (
              arith,
              length-append w.queue (record { ticket = t; value = v; retained_bytes = size } ∷ []),
              counted,
            ));
        weighed = rw e (
            omega (
              arith,
              total-append w.queue (record { ticket = t; value = v; retained_bytes = size }),
              weighed,
            ));
        count_le = omega arith;
        bytes_le = omega arith;
        is_settled = rw e a;
      })

  admit-IsBalanced :
      (priority : Priority) (t : ℕ) (o : Outcome (JsonValue × ℕ)) (w : OutboundWriter)
      → IsBalanced w
      → IsBalanced (admit encode priority t o w)
  unfolding admit
  admit-IsBalanced priority t (err e) w h = record {
    counted = h.counted;
    weighed = h.weighed;
    count_le = h.count_le;
    bytes_le = h.bytes_le;
    is_settled = h.is_settled;
  }
  admit-IsBalanced priority t (ok (v, size)) w h = elim (Bool-cases (is_full size w)) [
    | inl s ↦ rw s (turn_away-IsBalanced priority t w h)
    | inr s ↦
        rw s (admitted t v size w.in_flight w h refl h.is_settled (ground arith) (ground arith))
  ]

  finish_write-IsBalanced :
      (done : Bool) (o : Option PendingWrite) (w : OutboundWriter)
      → IsBalanced w
      → w.in_flight ≡ o
      → IsBalanced (finish_write encode done o w)
  unfolding finish_write
  finish_write-IsBalanced done none w h e = h
  finish_write-IsBalanced done (some p) w h e =
      drain_queue-IsBalanced w.queue (release_write p (settlement done) w) (
        release-IsDraining p w.queue (settlement done) w
          (let k = rw e at (h.counted) in omega (arith, k))
          (let k = rw e at (h.weighed) in omega (arith, k)) h.count_le h.bytes_le)

-- With a message pending, one is being written.
kept_waiting :
    (o : Option PendingWrite) (t : ℕ) (w : OutboundWriter)
    → w.pending_count ≡ length w.queue + flight_count o
    → nat_beq w.pending_count 0 ≡ false
    → IsSettled o w.queue w.active w.flush_waiters
    → IsSettled o w.queue w.active (w.flush_waiters ++ t ∷ [])
kept_waiting none t w counted s (q, a, f) = let k = rw q at counted in ground (arith, k)
kept_waiting (some p) t w counted s a = a

flush-IsBalanced : (t : ℕ) (w : OutboundWriter) → IsBalanced w → IsBalanced (flush t w)
unfolding flush
flush-IsBalanced t w h = elim (Bool-cases (nat_beq w.pending_count 0)) [
  | inl s ↦ rw s (record {
    counted = h.counted;
    weighed = h.weighed;
    count_le = h.count_le;
    bytes_le = h.bytes_le;
    is_settled = h.is_settled;
  })
  | inr s ↦ rw s (record {
    counted = h.counted;
    weighed = h.weighed;
    count_le = h.count_le;
    bytes_le = h.bytes_le;
    is_settled = kept_waiting w.in_flight t w h.counted s h.is_settled;
  })
]

module _ (c : JsonCodec) (encode : JsonValue → Outcome (List ℕ)) where
  pub writer_step-IsBalanced :
      (w : OutboundWriter) (e : WriterEvent) → IsBalanced w → IsBalanced (writer_step c encode w e)
  unfolding writer_step send write_settles
  writer_step-IsBalanced w (sends t v priority) h =
      admit-IsBalanced encode priority t (snapshot c v) w h
  writer_step-IsBalanced w (settles done) h =
      finish_write-IsBalanced encode done w.in_flight w h refl
  writer_step-IsBalanced w (flushes t) h = flush-IsBalanced t w h

  run_writer-IsBalanced_from :
      (w : OutboundWriter) (es : List WriterEvent)
      → IsBalanced w
      → IsBalanced (run_writer c encode w es)
  unfolding run_writer
  run_writer-IsBalanced_from w [] h = h
  run_writer-IsBalanced_from w (e ∷ es) h =
      run_writer-IsBalanced_from (writer_step c encode w e) es (writer_step-IsBalanced w e h)

  -- After any sends, flushes and ends of writes, in any order: the counters are the number and the
  -- bytes of the messages that are queued or being written, at most 64 and at most 2 MiB; a writer
  -- that writes nothing has an empty queue, is not active and keeps no flush waiting, and one that
  -- writes is active.
  pub run_writer-IsBalanced :
      (es : List WriterEvent) → IsBalanced (run_writer c encode new_writer es)
  run_writer-IsBalanced es = run_writer-IsBalanced_from new_writer es (record {
    counted = omega arith;
    weighed = omega arith;
    count_le = omega arith;
    bytes_le = omega arith;
    is_settled = (refl, refl, refl);
  })
