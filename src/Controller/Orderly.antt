-- ===== src/Controller/Orderly.antt =====
-- The order that the controller's calls keep, phase by phase.
use tego_next.Base.{ℕ, ◌≤◌, List, [], ◌∷◌, Option, none, some, All, Bool-cases, inl, inr}
use tego_next.Controller.{
  Leadership, Next, resumes, Phase, activating, holding, deactivating, Call, takes, activates,
  deactivates, loses, gives_back, LeadershipController, initial_retry_delay, maximum_retry_delay,
  back_off, next_round,
}

-- The calls, newest first, with the leadership that is active (`onAcquired` called and `onLost` not)
-- and the one that is owned (taken, and neither lost nor given back).
pub data IsOrderly : List Call → Option Leadership → Option Leadership → Type 0 where
  nothing : IsOrderly [] none none
  taken :
      {cs : List Call} (h : Leadership)
      → IsOrderly cs none none
      → IsOrderly (takes h ∷ cs) none (some h)
  active :
      {cs : List Call} (h : Leadership)
      → IsOrderly cs none (some h)
      → IsOrderly (activates h ∷ cs) (some h) (some h)
  inactive :
      {cs : List Call} {o : Option Leadership} (h : Leadership)
      → IsOrderly cs (some h) o
      → IsOrderly (deactivates h ∷ cs) none o
  gone :
      {cs : List Call} (h : Leadership)
      → IsOrderly cs (some h) (some h)
      → IsOrderly (loses h ∷ cs) (some h) none
  returned :
      {cs : List Call} (h : Leadership)
      → IsOrderly cs none (some h)
      → IsOrderly (gives_back h ∷ cs) none none

abbrev pub active_in : Phase → Option Leadership
active_in (activating h) = some h
active_in (holding h) = some h
active_in _ = none

abbrev pub owned_while : Next → Leadership → Option Leadership
owned_while resumes h = none
owned_while _ h = some h

abbrev pub owned_in : Phase → Option Leadership
owned_in (activating h) = some h
owned_in (holding h) = some h
owned_in (deactivating h n) = owned_while n h
owned_in _ = none

abbrev pub InBounds : ℕ → Type 0
InBounds n = (initial_retry_delay ≤ n) × (n ≤ maximum_retry_delay)

pub record IsDisciplined (s : LeadershipController) : Type 0 where
  pub orderly : IsOrderly s.calls (active_in s.phase) (owned_in s.phase)
  pub delay : InBounds s.retry_delay
  pub waits : All InBounds s.sleeps

-- The controller with nothing active and nothing owned, whatever it awaits.
pub record IsFree (s : LeadershipController) : Type 0 where
  pub orderly : IsOrderly s.calls none none
  pub delay : InBounds s.retry_delay
  pub waits : All InBounds s.sleeps

pub back_off-IsDisciplined : (s : LeadershipController) → IsFree s → IsDisciplined (back_off s)
unfolding back_off
back_off-IsDisciplined s h = elim (Bool-cases s.running) [
  | inl e ↦ rw e (record { orderly = h.orderly; delay = h.delay; waits = (h.delay, h.waits) })
  | inr e ↦ rw e (record { orderly = h.orderly; delay = h.delay; waits = h.waits })
]

pub next_round-IsDisciplined : (s : LeadershipController) → IsFree s → IsDisciplined (next_round s)
unfolding next_round
next_round-IsDisciplined s h = elim (Bool-cases s.running) [
  | inl e ↦ rw e (record { orderly = h.orderly; delay = h.delay; waits = h.waits })
  | inr e ↦ rw e (record { orderly = h.orderly; delay = h.delay; waits = h.waits })
]

-- The phase is `p`, and the rest is in order for it.
pub record IsAt (p : Phase) (s : LeadershipController) : Type 0 where
  pub orderly : IsOrderly s.calls (active_in p) (owned_in p)
  pub delay : InBounds s.retry_delay
  pub waits : All InBounds s.sleeps
