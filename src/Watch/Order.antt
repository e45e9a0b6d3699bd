-- ===== src/Watch/Order.antt =====
-- What a watch iterator delivers.
use tego_next.Base.{ℕ, List, [], ◌∷◌, ◌++◌, map, false, ◌≡◌, refl, ◌⊎◌, inl, inr, arith, sym, subst}
use mathlib.Core.Path.{subst₂}
use mathlib.Core.List.{append_assoc, append-nil}
use tego_next.Watch.{WatchIterator, Delivery, value, finished, new_watcher, push, next}

pub data WatchEvent {ℓ} (A : Type ℓ) : Type ℓ where
  pushes : A → WatchEvent A
  asks : ℕ → WatchEvent A

module _ {ℓ} {A : Type ℓ} (clone : A → A) where
  unfoldable pub run_events : WatchIterator A → List (WatchEvent A) → WatchIterator A
  run_events w [] = w
  run_events w (pushes c ∷ es) = run_events (push clone c w) es
  run_events w (asks t ∷ es) = run_events (next t w) es

  abbrev pub pushed : List (WatchEvent A) → List A
  pushed [] = []
  pushed (pushes c ∷ es) = clone c ∷ pushed es
  pushed (asks t ∷ es) = pushed es

module _ {ℓ} {A : Type ℓ} where
  abbrev pub asked : List (WatchEvent A) → List ℕ
  asked [] = []
  asked (pushes c ∷ es) = asked es
  asked (asks t ∷ es) = t ∷ asked es

  abbrev pub delivered : List (ℕ × Delivery A) → List A
  delivered [] = []
  delivered ((t, value c) ∷ r) = c ∷ delivered r
  delivered ((t, finished) ∷ r) = delivered r

  abbrev pub answered : List (ℕ × Delivery A) → List ℕ
  answered [] = []
  answered ((t, d) ∷ r) = t ∷ answered r

  -- Changes wait for consumers or consumers for changes, never both.
  pub record IsOpen (w : WatchIterator A) (cs : List A) (ts : List ℕ) : Type ℓ where
    pub live : w.closed ≡ false
    pub one_side : (w.queue ≡ []) ⊎ (w.waiters ≡ [])
    pub changes_kept : delivered w.settled ++ w.queue ≡ cs
    pub tickets_kept : answered w.settled ++ w.waiters ≡ ts

  abbrev pub state_of : List A → List ℕ → List (ℕ × Delivery A) → WatchIterator A
  state_of q ws s = record { queue = q; waiters = ws; settled = s; closed = false }

  delivered-snoc :
      (r : List (ℕ × Delivery A)) (t : ℕ) (c : A)
      → delivered (r ++ (t, value c) ∷ []) ≡ delivered r ++ c ∷ []
  delivered-snoc [] t c = refl
  delivered-snoc ((s, value b) ∷ r) t c = rw (delivered-snoc r t c)
  delivered-snoc ((s, finished) ∷ r) t c = delivered-snoc r t c

  answered-snoc :
      (r : List (ℕ × Delivery A)) (t : ℕ) (d : Delivery A)
      → answered (r ++ (t, d) ∷ []) ≡ answered r ++ t ∷ []
  answered-snoc [] t d = refl
  answered-snoc ((s, e) ∷ r) t d = rw (answered-snoc r t d)

module _ {ℓ} {A : Type ℓ} (clone : A → A) where
  push-IsOpen :
      (c : A) (q : List A) (ws : List ℕ) (s : List (ℕ × Delivery A)) (cs : List A) (ts : List ℕ)
      → IsOpen (state_of q ws s) cs ts
      → IsOpen (push clone c (state_of q ws s)) (cs ++ clone c ∷ []) ts
  unfolding push
  push-IsOpen c q [] s cs ts h = record {
    live = refl;
    one_side = inr refl;
    changes_kept = rw (← append_assoc, h.changes_kept);
    tickets_kept = h.tickets_kept;
  }
  push-IsOpen c q (t ∷ ws) s cs ts h =
      let e : q ≡ [] = ground (arith, h.one_side) in
      record {
        live = refl;
        one_side = inl e;
        changes_kept =
            let k : delivered s ++ [] ≡ cs = rw e at h.changes_kept in
            rw (e, delivered-snoc s t (clone c), ← k, append-nil, append-nil);
        tickets_kept = rw (answered-snoc s t (value (clone c)), append_assoc) h.tickets_kept;
      }

next-IsOpen {ℓ} :
    {A : Type ℓ} (t : ℕ) (q : List A) (ws : List ℕ) (s : List (ℕ × Delivery A)) (cs : List A)
    (ts : List ℕ)
    → IsOpen (state_of q ws s) cs ts
    → IsOpen (next t (state_of q ws s)) cs (ts ++ t ∷ [])
unfolding next
next-IsOpen t [] ws s cs ts h = record {
  live = refl;
  one_side = inl refl;
  changes_kept = h.changes_kept;
  tickets_kept = rw (← append_assoc, h.tickets_kept);
}
next-IsOpen t (c ∷ q) ws s cs ts h =
    let e : ws ≡ [] = ground (arith, h.one_side) in
    record {
      live = refl;
      one_side = inr e;
      changes_kept = rw (delivered-snoc s t c, append_assoc) h.changes_kept;
      tickets_kept =
          let k : answered s ++ [] ≡ ts = rw e at h.tickets_kept in
          rw (e, answered-snoc s t (value c), ← k, append-nil, append-nil);
    }

open_form {ℓ} :
    {A : Type ℓ} (w : WatchIterator A) → w.closed ≡ false → state_of w.queue w.waiters w.settled ≡ w
open_form w e = λ i. record w { closed = sym e i }

module _ {ℓ} {A : Type ℓ} (clone : A → A) where
  push_any-IsOpen :
      (c : A) (w : WatchIterator A) (cs : List A) (ts : List ℕ)
      → IsOpen w cs ts
      → IsOpen (push clone c w) (cs ++ clone c ∷ []) ts
  push_any-IsOpen c w cs ts h =
      let e = open_form w h.live in
      subst (λ v. IsOpen (push clone c v) (cs ++ clone c ∷ []) ts) e
        (push-IsOpen clone c w.queue w.waiters w.settled cs ts
          (subst (λ v. IsOpen v cs ts) (sym e) h))

  next_any-IsOpen :
      (t : ℕ) (w : WatchIterator A) (cs : List A) (ts : List ℕ)
      → IsOpen w cs ts
      → IsOpen (next t w) cs (ts ++ t ∷ [])
  next_any-IsOpen t w cs ts h =
      let e = open_form w h.live in
      subst (λ v. IsOpen (next t v) cs (ts ++ t ∷ [])) e
        (next-IsOpen t w.queue w.waiters w.settled cs ts (subst (λ v. IsOpen v cs ts) (sym e) h))

  run_events-IsOpen :
      (w : WatchIterator A) (es : List (WatchEvent A)) (cs : List A) (ts : List ℕ)
      → IsOpen w cs ts
      → IsOpen (run_events clone w es) (cs ++ pushed clone es) (ts ++ asked es)
  unfolding run_events
  run_events-IsOpen w [] cs ts h = subst₂ (IsOpen w) (sym (append-nil cs)) (sym (append-nil ts)) h
  run_events-IsOpen w (pushes c ∷ es) cs ts h =
      rw (← append_assoc cs (clone c ∷ []) (pushed clone es))
        (run_events-IsOpen (push clone c w) es _ ts (push_any-IsOpen c w cs ts h))
  run_events-IsOpen w (asks t ∷ es) cs ts h =
      rw (← append_assoc ts (t ∷ []) (asked es))
        (run_events-IsOpen (next t w) es cs _ (next_any-IsOpen t w cs ts h))

  -- However pushes and requests interleave on a watch iterator that is not closed, the changes
  -- that it has delivered, followed by those that it still queues, are the initial changes and
  -- then the pushed ones, cloned, in order and each once; the requests are answered in their
  -- order; and changes never wait in the queue while a request waits for one.
  pub run_events_in_order :
      (initial : List A) (es : List (WatchEvent A))
      → let w = run_events clone (new_watcher clone initial) es in
        (delivered w.settled ++ w.queue ≡ map clone initial ++ pushed clone es)
        × (answered w.settled ++ w.waiters ≡ asked es)
        × ((w.queue ≡ []) ⊎ (w.waiters ≡ []))
  unfolding new_watcher
  run_events_in_order initial es =
      let h =
        run_events-IsOpen (new_watcher clone initial) es (map clone initial) []
          (record { live = refl; one_side = inr refl; changes_kept = refl; tickets_kept = refl }) in
      (h.changes_kept, h.tickets_kept, h.one_side)
