-- ===== src/Examples/Leaders.antt =====
-- A run of the leadership controller: a campaign fails, the next is won, `onAcquired` throws, the
-- leadership is given up, and after another backoff and a third campaign the controller is stopped.
use tego_next.Base.{List, [], ◌∷◌, true, false, none, text_beq, ◌≡◌, refl}
use tego_next.Controller.{
  Leadership, Answer, wins, campaign_fails, activated, deactivated, released, slept, stops,
  started_controller, controller_run, controller_step, campaign_won, take_handle, stop,
}
use tego_next.Controller.Orderly.{IsOrderly, IsDisciplined}
use tego_next.Controller.Discipline.{controller_run-IsDisciplined}
use tego_next.Controller.Ending.{is_over, replies, stop_ends}

abbrev kernel : Leadership
kernel = record { resource = b'k' ∷ []; epoch = 1 }

abbrev answers : List Answer
answers =
    campaign_fails
    ∷ slept true
    ∷ wins kernel
    ∷ activated false
    ∷ deactivated true
    ∷ released true
    ∷ slept true
    ∷ wins kernel
    ∷ activated true
    ∷ stops
    ∷ deactivated true
    ∷ released true
    ∷ []

controller_run-IsDisciplined_example :
    IsDisciplined (controller_run (b'k' ∷ []) started_controller answers)
controller_run-IsDisciplined_example = controller_run-IsDisciplined (b'k' ∷ []) answers

stop_ends_example :
    let t =
      controller_run
        (b'k' ∷ [])
        (stop (controller_run (b'k' ∷ []) started_controller (wins kernel ∷ [])))
        (replies true false true) in
    (is_over t.phase ≡ true) × IsOrderly t.calls none none
unfolding controller_run controller_step campaign_won take_handle text_beq
stop_ends_example = stop_ends (b'k' ∷ []) (wins kernel ∷ []) true false true refl
