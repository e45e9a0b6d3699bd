-- ===== src/Controller/Discipline.antt =====
-- In what order the controller calls, and how long it waits.
use tego_next.Base.{Text, List, [], ◌∷◌, arith, Bool-cases, inl, inr}
use tego_next.Controller.{
  LeadershipController, started_controller, Answer, wins, campaign_fails, activated, deactivated,
  released, lost, slept, stops, stop, controller_step, controller_run,
}
use tego_next.Controller.Orderly.{nothing, IsDisciplined, IsAt}
use tego_next.Controller.Handlers.{
  campaign_won-IsDisciplined, campaign_failed-IsDisciplined, activation_done-IsDisciplined,
  leadership_lost-IsDisciplined, deactivation_done-IsDisciplined, release_done-IsDisciplined,
  sleep_done-IsDisciplined, interrupted-IsDisciplined,
}

phase-IsAt : (s : LeadershipController) → IsDisciplined s → IsAt s.phase s
phase-IsAt s d = record { orderly = d.orderly; delay = d.delay; waits = d.waits }

pub stop-IsDisciplined : (s : LeadershipController) → IsDisciplined s → IsDisciplined (stop s)
unfolding stop
stop-IsDisciplined s d = elim (Bool-cases s.running) [
  | inl e ↦ rw e (
      interrupted-IsDisciplined s.phase _
        (record { orderly = d.orderly; delay = d.delay; waits = d.waits })
        (record { orderly = d.orderly; delay = d.delay; waits = d.waits }))
  | inr e ↦ rw e (record { orderly = d.orderly; delay = d.delay; waits = d.waits })
]

module _ (resource : Text) where
  controller_step-IsDisciplined :
      (s : LeadershipController) (a : Answer)
      → IsDisciplined s
      → IsDisciplined (controller_step resource s a)
  unfolding controller_step
  controller_step-IsDisciplined s (wins h) d =
      campaign_won-IsDisciplined resource h s.phase s d (phase-IsAt s d)
  controller_step-IsDisciplined s campaign_fails d =
      campaign_failed-IsDisciplined s.phase s d (phase-IsAt s d)
  controller_step-IsDisciplined s (activated b) d =
      activation_done-IsDisciplined b s.phase s d (phase-IsAt s d)
  controller_step-IsDisciplined s (deactivated b) d =
      deactivation_done-IsDisciplined b s.phase s d (phase-IsAt s d)
  controller_step-IsDisciplined s (released b) d =
      release_done-IsDisciplined b s.phase s d (phase-IsAt s d)
  controller_step-IsDisciplined s lost d =
      leadership_lost-IsDisciplined s.phase s d (phase-IsAt s d)
  controller_step-IsDisciplined s (slept b) d =
      sleep_done-IsDisciplined b s.phase s d (phase-IsAt s d)
  controller_step-IsDisciplined s stops d = stop-IsDisciplined s d

  pub run_from-IsDisciplined :
      (s : LeadershipController) (answers : List Answer)
      → IsDisciplined s
      → IsDisciplined (controller_run resource s answers)
  unfolding controller_run
  run_from-IsDisciplined s [] d = d
  run_from-IsDisciplined s (a ∷ rest) d =
      run_from-IsDisciplined (controller_step resource s a) rest
        (controller_step-IsDisciplined s a d)

  -- Whatever is answered, in any order: `onAcquired` and `onLost` are called in turn and for the same
  -- leadership; every leadership that is taken is lost or given back before the next is taken, and
  -- given back only when it is not active; between the calls exactly the one that the phase names is
  -- active or owned, none at the end; and every backoff waits from 100 to 1000 milliseconds.
  pub controller_run-IsDisciplined :
      (answers : List Answer) → IsDisciplined (controller_run resource started_controller answers)
  controller_run-IsDisciplined answers =
      run_from-IsDisciplined started_controller answers
        (record { orderly = nothing; delay = (omega arith, omega arith); waits = tt })
