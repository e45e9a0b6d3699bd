-- ===== src/Outbound/Drain/Admission.antt =====
-- The order in which the outbound writer takes messages and flushes, read off the calls.
use tego_next.Base.{
  ℕ, ◌≤◌, Bool, true, false, List, [], ◌∷◌, ◌++◌, Option, none, some, ok, err, ◌≡◌, refl, sym, ap,
  ◌∙◌, arith, nat_beq, Bool-cases, inl, inr, length, if◌then◌else◌,
}
use mathlib.Core.List.{append_assoc, append-nil}
use tego_next.Contracts.Json.{JsonValue}
use tego_next.Contracts.Diagnostic.{Outcome}
use tego_next.Framing.{JsonCodec}
use tego_next.Outbound.{
  PendingWrite, OutboundWriter, new_writer, WriterEvent, sends, settles, flushes, Priority,
  diagnostic, required, turn_away, is_full, admit, send, snapshot, start_drain, flush, writer_step,
  run_writer,
}
use tego_next.Outbound.Balance.{
  IsBalanced, IsSettled, writer_step-IsBalanced, run_writer-IsBalanced,
}
use tego_next.Outbound.Drain.{
  IsDone, tickets, released_tickets, admitted_tickets, all_flushes, all_settle, drain-Keeps,
  write_settles-Keeps, rest_drains,
}

-- The ticket of a message that can be copied and has room, by the writer that it is sent to.
abbrev accepted_copy : Outcome (JsonValue × ℕ) → ℕ → OutboundWriter → List ℕ
accepted_copy (err e) t w = []
accepted_copy (ok (v, size)) t w = if is_full size w then [] else t ∷ []

abbrev accepted_by : JsonCodec → OutboundWriter → WriterEvent → List ℕ
accepted_by c w (sends t v priority) = accepted_copy (snapshot c v) t w
accepted_by c w (settles done) = []
accepted_by c w (flushes t) = []

abbrev asked_by : WriterEvent → List ℕ
asked_by (sends t v priority) = []
asked_by (settles done) = []
asked_by (flushes t) = t ∷ []

-- The flushes, in the order of the calls.
abbrev pub asked : List WriterEvent → List ℕ
asked [] = []
asked (e ∷ es) = asked_by e ++ asked es

tickets-append :
    (ps : List PendingWrite) (p : PendingWrite)
    → tickets (ps ++ p ∷ []) ≡ tickets ps ++ p.ticket ∷ []
tickets-append [] p = refl
tickets-append (q ∷ ps) p = ap (λ l. q.ticket ∷ l) (tickets-append ps p)

-- A step adds `ts` to the messages admitted and `fs` to the flushes asked for, at the end.
record Adds (ts fs : List ℕ) (w v : OutboundWriter) : Type 0 where
  in_order : admitted_tickets v ≡ admitted_tickets w ++ ts
  in_turn : all_flushes v ≡ all_flushes w ++ fs

unchanged-Adds :
    (w v : OutboundWriter)
    → admitted_tickets v ≡ admitted_tickets w
    → all_flushes v ≡ all_flushes w
    → Adds [] [] w v
unchanged-Adds w v a f = record {
  in_order = a ∙ sym (append-nil (admitted_tickets w));
  in_turn = f ∙ sym (append-nil (all_flushes w));
}

turn_away-Adds :
    (priority : Priority) (t : ℕ) (w : OutboundWriter) → Adds [] [] w (turn_away priority t w)
unfolding turn_away
turn_away-Adds diagnostic t w = unchanged-Adds w (turn_away diagnostic t w) refl refl
turn_away-Adds required t w = unchanged-Adds w (turn_away required t w) refl refl

flush_cases :
    (o : Option PendingWrite) (t : ℕ) (w : OutboundWriter)
    → w.in_flight ≡ o
    → IsBalanced w
    → IsSettled o w.queue w.active w.flush_waiters
    → Adds [] (t ∷ []) w (flush t w)
unfolding flush
flush_cases none t w e h (q, a, f) =
    let counted = rw (e, q) at (h.counted) in
    let zero_now : nat_beq w.pending_count 0 ≡ true = ground arith in
    rw zero_now (record {
      in_order = sym (append-nil (admitted_tickets w));
      in_turn =
          rw f
            (append-nil (w.flushed ++ t ∷ []) ∙ ap (λ l. l ++ t ∷ []) (sym (append-nil w.flushed)));
    })
flush_cases (some p) t w e h a =
    let counted = rw e at (h.counted) in
    let some_now : nat_beq w.pending_count 0 ≡ false = ground arith in
    rw some_now (record {
      in_order = sym (append-nil (admitted_tickets w));
      in_turn = sym (append_assoc w.flushed w.flush_waiters (t ∷ []));
    })

module _ (encode : JsonValue → Outcome (List ℕ)) where
  start-Adds :
      (o : Option PendingWrite) (p : PendingWrite) (count bytes : ℕ) (w : OutboundWriter)
      → w.in_flight ≡ o
      → IsSettled o w.queue w.active w.flush_waiters
      → Adds (p.ticket ∷ []) [] w (
          start_drain encode
            (record w { pending_count = count; pending_bytes = bytes; queue = w.queue ++ p ∷ [] }))
  unfolding start_drain
  start-Adds none p count bytes w e (q, a, f) =
      let v : OutboundWriter = record w {
        pending_count = count;
        pending_bytes = bytes;
        queue = w.queue ++ p ∷ [];
        active = true;
      } in
      let ts = admitted_tickets w ++ p.ticket ∷ [] in
      let k =
        drain-Keeps encode (w.queue ++ p ∷ []) v count ts (omega arith) e
          (rw (e, q) (ap (λ l. l ++ p.ticket ∷ []) (append-nil (released_tickets w.released)))) in
      rw a
        (record { in_order = k.in_order; in_turn = k.flushes ∙ sym (append-nil (all_flushes w)) })
  start-Adds (some x) p count bytes w e a = rw a (record {
    in_order =
        rw (e, tickets-append w.queue p)
          (sym (
            append_assoc (released_tickets w.released) (x.ticket ∷ tickets w.queue)
              (p.ticket ∷ [])));
    in_turn = sym (append-nil (all_flushes w));
  })

  admit-Adds :
      (o : Outcome (JsonValue × ℕ)) (priority : Priority) (t : ℕ) (w : OutboundWriter)
      → IsBalanced w
      → Adds (accepted_copy o t w) [] w (admit encode priority t o w)
  unfolding admit
  admit-Adds (err e) priority t w h = unchanged-Adds w _ refl refl
  admit-Adds (ok (v, size)) priority t w h = elim (Bool-cases (is_full size w)) [
    | inl e ↦ rw e (turn_away-Adds priority t w)
    | inr e ↦ rw e (start-Adds w.in_flight _ _ _ w refl h.is_settled)
  ]

module _ (c : JsonCodec) (encode : JsonValue → Outcome (List ℕ)) where
  -- The messages that are copied and find room, in the order of the calls.
  pub accepted : OutboundWriter → List WriterEvent → List ℕ
  accepted w [] = []
  accepted w (e ∷ es) = accepted_by c w e ++ accepted (writer_step c encode w e) es

  step-Adds :
      (w : OutboundWriter) (e : WriterEvent)
      → IsBalanced w
      → Adds (accepted_by c w e) (asked_by e) w (writer_step c encode w e)
  unfolding writer_step send
  step-Adds w (sends t v priority) h = admit-Adds encode (snapshot c v) priority t w h
  step-Adds w (settles done) h =
      let k = write_settles-Keeps encode done w h in
      unchanged-Adds w (writer_step c encode w (settles done)) k.in_order k.flushes
  step-Adds w (flushes t) h = flush_cases w.in_flight t w refl h h.is_settled

  run-Adds :
      (w : OutboundWriter) (es : List WriterEvent)
      → IsBalanced w
      → Adds (accepted w es) (asked es) w (run_writer c encode w es)
  unfolding accepted run_writer
  run-Adds w [] h = unchanged-Adds w w refl refl
  run-Adds w (e ∷ es) h =
      let one = step-Adds w e h in
      let more = run-Adds (writer_step c encode w e) es (writer_step-IsBalanced c encode w e h) in
      record {
        in_order =
            more.in_order
            ∙ (ap (λ l. l ++ accepted (writer_step c encode w e) es) one.in_order
                ∙ append_assoc (admitted_tickets w) (accepted_by c w e)
                    (accepted (writer_step c encode w e) es));
        in_turn =
            more.in_turn
            ∙ (ap (λ l. l ++ asked es) one.in_turn
                ∙ append_assoc (all_flushes w) (asked_by e) (asked es));
      }

  -- Whatever was sent before, and however each write ends: after as many ends of writes as messages
  -- are pending, the messages that could be copied and found room (and no others) are released in
  -- the order in which they were sent, the flushes are resolved in the order in which they were
  -- asked for, and the writer is idle with nothing pending.
  pub writes_drain :
      (es : List WriterEvent) (ds : List Bool)
      → (run_writer c encode new_writer es).pending_count ≤ length ds
      → IsDone
          (accepted new_writer es)
          (asked es)
          (run_writer c encode (run_writer c encode new_writer es) (all_settle c encode ds))
  unfolding run_writer
  writes_drain es ds enough =
      let h = run_writer-IsBalanced c encode es in
      let added = run-Adds new_writer es (run_writer-IsBalanced c encode []) in
      rest_drains c encode (run_writer c encode new_writer es) ds (accepted new_writer es)
        (asked es) h added.in_order added.in_turn enough
