-- ===== src/Watch.antt =====
-- The watch iterators of memory-state-store.ts (MemoryWatchIterator) and local-coordination.ts
-- (CoordinationWatchIterator): an unbounded queue of changes or of waiting consumers. A promise is
-- a ticket; a settled promise is logged with what it resolved to.
pub mod Order
use tego_next.Base.{ℕ, List, [], ◌∷◌, ◌++◌, map, Bool, true, false, if◌then◌else◌}

pub data Delivery {ℓ} (A : Type ℓ) : Type ℓ where
  value : A → Delivery A
  finished : Delivery A

pub record WatchIterator {ℓ} (A : Type ℓ) : Type ℓ where
  pub queue : List A
  pub waiters : List ℕ
  pub settled : List (ℕ × Delivery A)
  pub closed : Bool

module _ {ℓ} {A : Type ℓ} (clone : A → A) where
  unfoldable pub new_watcher : List A → WatchIterator A
  new_watcher changes = record {
    queue = map clone changes;
    waiters = [];
    settled = [];
    closed = false;
  }

  push_to : List ℕ → A → WatchIterator A → WatchIterator A
  push_to [] c w = record w { queue = w.queue ++ clone c ∷ [] }
  push_to (t ∷ ts) c w = record w { waiters = ts; settled = w.settled ++ (t, value (clone c)) ∷ [] }

  unfoldable pub push : A → WatchIterator A → WatchIterator A
  unfolding push_to
  push c w = if w.closed then w else push_to w.waiters c w

module _ {ℓ} {A : Type ℓ} where
  next_from : List A → ℕ → WatchIterator A → WatchIterator A
  next_from (c ∷ cs) t w = record w { queue = cs; settled = w.settled ++ (t, value c) ∷ [] }
  next_from [] t w =
      if w.closed
      then record w { settled = w.settled ++ (t, finished) ∷ [] }
      else record w { waiters = w.waiters ++ t ∷ [] }

  unfoldable pub next : ℕ → WatchIterator A → WatchIterator A
  unfolding next_from
  next t w = next_from w.queue t w

  abbrev pub finish_all : List ℕ → List (ℕ × Delivery A)
  finish_all [] = []
  finish_all (t ∷ ts) = (t, finished) ∷ finish_all ts

  unfoldable pub close : WatchIterator A → WatchIterator A
  close w = if w.closed then w else record w {
    closed = true;
    queue = [];
    waiters = [];
    settled = w.settled ++ finish_all w.waiters;
  }

  -- `return()` closes, and its own promise is done.
  pub return_now : ℕ → WatchIterator A → WatchIterator A
  unfolding close
  return_now t w = let v = close w in record v { settled = v.settled ++ (t, finished) ∷ [] }
