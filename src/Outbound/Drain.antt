-- ===== src/Outbound/Drain.antt =====
-- The end of the outbound writer's work: nobody sends any more, and the writes end one by one.
pub mod Admission
use tego_next.Base.{
  ℕ, suc, ◌≤◌, Bool, false, List, [], ◌∷◌, ◌++◌, Option, none, some, ok, err, ◌≡◌, refl, sym, ap,
  ◌∙◌, arith, nat_beq, Bool-cases, inl, inr, length,
}
use mathlib.Core.List.{append_assoc, append-nil}
use tego_next.Contracts.Json.{JsonValue}
use tego_next.Contracts.Diagnostic.{Code, Outcome}
use tego_next.Framing.{JsonCodec}
use tego_next.Outbound.{
  PendingWrite, OutboundWriter, new_writer, WriterEvent, Settlement, rejected, settles,
  release_write, go_idle, drain_queue, begin_write, writer_step, run_writer, settlement,
  finish_write, write_settles,
}
use tego_next.Outbound.Balance.{
  IsBalanced, IsSettled, writer_step-IsBalanced, run_writer-IsBalanced,
}

abbrev pub tickets : List PendingWrite → List ℕ
tickets [] = []
tickets (p ∷ ps) = p.ticket ∷ tickets ps

abbrev pub flight_tickets : Option PendingWrite → List ℕ
flight_tickets none = []
flight_tickets (some p) = p.ticket ∷ []

abbrev pub released_tickets : List (ℕ × Settlement) → List ℕ
released_tickets [] = []
released_tickets ((t, s) ∷ rs) = t ∷ released_tickets rs

-- The admitted messages in the order in which they are or will be released.
abbrev pub admitted_tickets : OutboundWriter → List ℕ
admitted_tickets w = released_tickets w.released ++ (flight_tickets w.in_flight ++ tickets w.queue)

abbrev pub all_flushes : OutboundWriter → List ℕ
all_flushes w = w.flushed ++ w.flush_waiters

released-append :
    (rs : List (ℕ × Settlement)) (t : ℕ) (s : Settlement)
    → released_tickets (rs ++ (t, s) ∷ []) ≡ released_tickets rs ++ t ∷ []
released-append [] t s = refl
released-append ((u, r) ∷ rs) t s = ap (λ l. u ∷ l) (released-append rs t s)

-- The writer that still has `ps` to write, seen from outside.
pub record Keeps (ts fs : List ℕ) (n : ℕ) (w : OutboundWriter) : Type 0 where
  pub in_order : admitted_tickets w ≡ ts
  pub flushes : all_flushes w ≡ fs
  pub fewer : w.pending_count ≤ n

module _ (encode : JsonValue → Outcome (List ℕ)) where
  begin-Keeps :
      (o : Outcome (List ℕ)) (p : PendingWrite) (ps : List PendingWrite) (w : OutboundWriter)
      (next : Code → OutboundWriter) (n : ℕ) (ts : List ℕ)
      → w.pending_count ≤ n
      → ts ≡ released_tickets w.released ++ tickets (p ∷ ps)
      → ((e : Code) → Keeps ts (all_flushes w) n (next e))
      → Keeps ts (all_flushes w) n (begin_write o p ps w next)
  unfolding begin_write
  begin-Keeps (err e) p ps w next n ts le q k = k e
  begin-Keeps (ok bytes) p ps w next n ts le q k = record {
    in_order = sym q;
    flushes = refl;
    fewer = le;
  }

  idle-Keeps :
      (w : OutboundWriter) (n : ℕ) (ts : List ℕ)
      → w.pending_count ≤ n
      → w.in_flight ≡ none
      → ts ≡ released_tickets w.released ++ []
      → Keeps ts (all_flushes w) n (go_idle w)
  unfolding go_idle
  idle-Keeps w n ts le e q = elim (Bool-cases (nat_beq w.pending_count 0)) [
    | inl s ↦ rw s (record {
      in_order = rw e (sym q);
      flushes = append-nil (w.flushed ++ w.flush_waiters);
      fewer = le;
    })
    | inr s ↦ rw s (record { in_order = rw e (sym q); flushes = refl; fewer = le })
  ]

  pub drain-Keeps :
      (ps : List PendingWrite) (w : OutboundWriter) (n : ℕ) (ts : List ℕ)
      → w.pending_count ≤ n
      → w.in_flight ≡ none
      → ts ≡ released_tickets w.released ++ tickets ps
      → Keeps ts (all_flushes w) n (drain_queue encode ps w)
  unfolding drain_queue release_write
  drain-Keeps [] w n ts le e q = idle-Keeps w n ts le e q
  drain-Keeps (p ∷ ps) w n ts le e q = begin-Keeps (encode p.value) p ps w _ n ts le q (λ e.
      drain-Keeps ps (release_write p (rejected e) w) n ts (omega arith) refl (
        q
        ∙ sym (append_assoc (released_tickets w.released) (p.ticket ∷ []) (tickets ps))
        ∙ ap (λ r. r ++ tickets ps) (sym (released-append w.released p.ticket (rejected e)))))

  -- A write that ends leaves one message fewer.
  finish-Keeps :
      (done : Bool) (o : Option PendingWrite) (w : OutboundWriter) (n : ℕ)
      → IsBalanced w
      → w.in_flight ≡ o
      → IsSettled o w.queue w.active w.flush_waiters
      → w.pending_count ≤ suc n
      → Keeps (admitted_tickets w) (all_flushes w) n (finish_write encode done o w)
  unfolding finish_write release_write
  finish-Keeps done none w n h e (q, a, f) le =
      let counted = rw (e, q) at (h.counted) in
      record { in_order = refl; flushes = refl; fewer = omega (arith, counted) }
  finish-Keeps done (some p) w n h e a le =
      drain-Keeps w.queue (release_write p (settlement done) w) n _ (omega arith) refl (
        rw e (
          sym (append_assoc (released_tickets w.released) (p.ticket ∷ []) (tickets w.queue))
          ∙ ap (λ r. r ++ tickets w.queue)
              (sym (released-append w.released p.ticket (settlement done)))))

  -- The end of a write keeps the order of the messages and of the flushes.
  pub write_settles-Keeps :
      (done : Bool) (w : OutboundWriter)
      → IsBalanced w
      → Keeps (admitted_tickets w) (all_flushes w) w.pending_count (write_settles encode done w)
  unfolding write_settles
  write_settles-Keeps done w h =
      finish-Keeps done w.in_flight w w.pending_count h refl h.is_settled (omega arith)

-- All that was admitted is released and nothing waits.
pub record IsDone (ts fs : List ℕ) (w : OutboundWriter) : Type 0 where
  pub all_released : released_tickets w.released ≡ ts
  pub all_flushed : w.flushed ≡ fs
  pub none_pending : w.pending_count ≡ 0
  pub none_waits : w.flush_waiters ≡ []
  pub idle : w.active ≡ false

empty-IsDone :
    (o : Option PendingWrite) (ts fs : List ℕ) (w : OutboundWriter)
    → IsBalanced w
    → w.in_flight ≡ o
    → IsSettled o w.queue w.active w.flush_waiters
    → Keeps ts fs 0 w
    → IsDone ts fs w
empty-IsDone none ts fs w h e (q, a, f) k = record {
  all_released =
      let r = rw (e, q) at (k.in_order) in sym (append-nil (released_tickets w.released)) ∙ r;
  all_flushed = let r = rw f at (k.flushes) in sym (append-nil w.flushed) ∙ r;
  none_pending = let r = k.fewer in omega (arith, r);
  none_waits = f;
  idle = a;
}
empty-IsDone (some p) ts fs w h e a k =
    let counted = rw e at (h.counted) in let few = k.fewer in absurd (omega (arith, counted, few))

kept_on :
    {ts fs : List ℕ} {n m : ℕ} {v w : OutboundWriter}
    → Keeps (admitted_tickets v) (all_flushes v) n w
    → Keeps ts fs m v
    → Keeps ts fs n w
kept_on k l = record {
  in_order = k.in_order ∙ l.in_order;
  flushes = k.flushes ∙ l.flushes;
  fewer = k.fewer;
}

module _ (c : JsonCodec) (encode : JsonValue → Outcome (List ℕ)) where
  abbrev pub all_settle : List Bool → List WriterEvent
  all_settle [] = []
  all_settle (d ∷ ds) = settles d ∷ all_settle ds

  drained :
      (w : OutboundWriter) (ds : List Bool) (ts fs : List ℕ)
      → IsBalanced w
      → Keeps ts fs (length ds) w
      → IsDone ts fs (run_writer c encode w (all_settle ds))
  unfolding run_writer writer_step write_settles
  drained w [] ts fs h k = empty-IsDone w.in_flight ts fs w h refl h.is_settled k
  drained w (d ∷ ds) ts fs h k =
      drained (writer_step c encode w (settles d)) ds ts fs
        (writer_step-IsBalanced c encode w (settles d) h)
        (kept_on (finish-Keeps encode d w.in_flight w (length ds) h refl h.is_settled k.fewer) k)

  -- After as many ends of writes as messages are pending, what a balanced writer holds is done.
  pub rest_drains :
      (w : OutboundWriter) (ds : List Bool) (ts fs : List ℕ)
      → IsBalanced w
      → admitted_tickets w ≡ ts
      → all_flushes w ≡ fs
      → w.pending_count ≤ length ds
      → IsDone ts fs (run_writer c encode w (all_settle ds))
  rest_drains w ds ts fs h in_order flushes fewer =
      drained w ds ts fs h (record { in_order = in_order; flushes = flushes; fewer = fewer })
