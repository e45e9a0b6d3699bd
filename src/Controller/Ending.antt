-- ===== src/Controller/Ending.antt =====
-- How a stop ends the controller's loop.
use tego_next.Base.{Text, Bool, true, false, List, [], ◌∷◌, none, ◌≡◌, arith}
use tego_next.Controller.{
  retries, shuts_down, resumes, refuses, Phase, campaigning, activating, holding, deactivating,
  releasing, backing_off, late, finished, Call, LeadershipController, started_controller, back_off,
  next_round, Answer, activated, deactivated, released, activation_done, deactivation_done,
  after_release, release_done, interrupted, settle_authority, granted, stop, controller_step,
  controller_run,
}
use tego_next.Controller.Orderly.{IsOrderly, active_in, owned_in}
use tego_next.Controller.Discipline.{
  run_from-IsDisciplined, stop-IsDisciplined, controller_run-IsDisciplined,
}

-- The loop has returned or thrown.
abbrev pub is_over : Phase → Bool
is_over late = true
is_over (finished failed) = true
is_over _ = false

-- What may be under way at a stop: `onAcquired`, `onLost` and a release answer.
abbrev pub replies : Bool → Bool → Bool → List Answer
replies a b c = activated a ∷ deactivated b ∷ released c ∷ []

replies_end :
    (resource : Text) (p : Phase) (s : LeadershipController) (a b c : Bool)
    → is_over
        (controller_run resource
          (interrupted p (record s { phase = p; running = false }))
          (replies a b c)).phase
      ≡ true
unfolding controller_run controller_step interrupted activation_done deactivation_done release_done
    after_release back_off next_round
replies_end resource campaigning s a b c = ground arith
replies_end resource (activating h) s a b c = ground arith
replies_end resource (holding h) s a b c = ground arith
replies_end resource (deactivating h retries) s a b c = ground arith
replies_end resource (deactivating h shuts_down) s a b c = ground arith
replies_end resource (deactivating h resumes) s a b c = ground arith
replies_end resource (deactivating h refuses) s a b c = ground arith
replies_end resource (releasing h retries true) s a b c = ground arith
replies_end resource (releasing h retries false) s a b c = ground arith
replies_end resource (releasing h shuts_down true) s a b c = ground arith
replies_end resource (releasing h shuts_down false) s a b c = ground arith
replies_end resource (releasing h resumes true) s a b c = ground arith
replies_end resource (releasing h resumes false) s a b c = ground arith
replies_end resource (releasing h refuses true) s a b c = ground arith
replies_end resource (releasing h refuses false) s a b c = ground arith
replies_end resource backing_off s a b c = ground arith
replies_end resource late s a b c = ground arith
replies_end resource (finished e) s a b c = ground arith

over-IsOrderly :
    (p : Phase) (cs : List Call)
    → is_over p ≡ true
    → IsOrderly cs (active_in p) (owned_in p)
    → IsOrderly cs none none
over-IsOrderly late cs h k = k
over-IsOrderly (finished failed) cs h k = k
over-IsOrderly _ cs h k = cc

stopped :
    (resource : Text) (s : LeadershipController) (a b c : Bool)
    → s.running ≡ true
    → is_over (controller_run resource (stop s) (replies a b c)).phase ≡ true
unfolding stop
stopped resource s a b c h = rw h (
    replies_end resource s.phase
      (record s { first_authority = settle_authority granted s.first_authority }) a b c)

-- Whatever was answered before, a controller that is stopped while it runs ends: when the
-- callbacks and the release that may be under way have returned or thrown, its loop has ended,
-- no leadership is active and every leadership that was taken is lost or given back.
pub stop_ends :
    (resource : Text) (answers : List Answer) (a b c : Bool)
    → (controller_run resource started_controller answers).running ≡ true
    → let t =
        controller_run resource
          (stop (controller_run resource started_controller answers))
          (replies a b c) in
      (is_over t.phase ≡ true) × IsOrderly t.calls none none
stop_ends resource answers a b c h =
    let s = controller_run resource started_controller answers in
    let over = stopped resource s a b c h in
    let d =
      run_from-IsDisciplined resource (stop s) (replies a b c)
        (stop-IsDisciplined s (controller_run-IsDisciplined resource answers)) in
    (over, over-IsOrderly (controller_run resource (stop s) (replies a b c)).phase _ over d.orderly)
