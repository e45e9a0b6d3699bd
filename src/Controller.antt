-- ===== src/Controller.antt =====
-- packages/runtime/src/leadership-controller.ts, class LeadershipController: the campaign loop, one
-- step for each answer that it awaits. Callbacks, the provider's calls and the clock answer from
-- outside. A handle is its leadership, which the provider returns well formed.
pub mod Orderly
pub mod Handlers
pub mod Discipline
pub mod Ending
use tego_next.Base.{
  ℕ, ◌*◌, min, Text, text_beq, Bool, true, false, ◌||◌, List, [], ◌∷◌, if◌then◌else◌,
}

-- initialRetryDelayMs and maximumRetryDelayMs.
abbrev pub initial_retry_delay : ℕ
initial_retry_delay = 100

abbrev pub maximum_retry_delay : ℕ
maximum_retry_delay = 1000

pub record Leadership : Type 0 where
  pub resource : Text
  pub epoch : ℕ

-- What follows when a leadership is given up.
pub data Next : Type 0 where
  retries shuts_down resumes refuses : Next

-- What the loop awaits: a campaign, `onAcquired`, the loss, `onLost`, `release`, the clock; or, after
-- it returned at a stop, a campaign that may still be won; or nothing any more. A release and the end
-- carry whether an error was caught.
pub data Phase : Type 0 where
  campaigning : Phase
  activating holding : Leadership → Phase
  deactivating : Leadership → Next → Phase
  releasing : Leadership → Next → Bool → Phase
  backing_off : Phase
  late : Phase
  finished : Bool → Phase

pub data Authority : Type 0 where
  pending granted refused : Authority

-- A handle is taken, `onAcquired` or `onLost` is called, the loss is signalled, `release` is called.
pub data Call : Type 0 where
  takes activates deactivates loses gives_back : Leadership → Call

-- The calls are kept newest first, and so are the delays of the backoffs.
pub record LeadershipController : Type 0 where
  pub phase : Phase
  pub running : Bool
  pub retry_delay : ℕ
  pub first_authority : Authority
  pub calls : List Call
  pub sleeps : List ℕ

-- The controller that `start` has just begun to run.
abbrev pub started_controller : LeadershipController
started_controller = record {
  phase = campaigning;
  running = true;
  retry_delay = initial_retry_delay;
  first_authority = pending;
  calls = [];
  sleeps = [];
}

-- The first settlement stays.
abbrev pub settle_authority : Authority → Authority → Authority
settle_authority a pending = a
settle_authority a granted = granted
settle_authority a refused = refused

abbrev pub calling : Call → Phase → LeadershipController → LeadershipController
calling c p s = record s { calls = c ∷ s.calls; phase = p }

-- `#backoff` up to its wait.
unfoldable pub back_off : LeadershipController → LeadershipController
back_off s =
    if s.running
    then record s { phase = backing_off; sleeps = s.retry_delay ∷ s.sleeps }
    else record s { phase = finished false }

-- The head of the loop.
unfoldable pub next_round : LeadershipController → LeadershipController
next_round s =
    if s.running then record s { phase = campaigning } else record s { phase = finished false }

-- The loop throws: `start` keeps the error and refuses the first authority.
abbrev pub fail_run : LeadershipController → LeadershipController
fail_run s = record s {
  phase = finished true;
  running = false;
  first_authority = settle_authority refused s.first_authority;
}

pub data Answer : Type 0 where
  wins : Leadership → Answer
  campaign_fails : Answer
  activated deactivated released : Bool → Answer
  lost : Answer
  slept : Bool → Answer
  stops : Answer

module _ (resource : Text) where
  -- `#validateLeadership`, and what follows.
  unfoldable pub take_handle : Leadership → LeadershipController → LeadershipController
  take_handle h s =
      let taken = record s { calls = takes h ∷ s.calls } in
      if text_beq h.resource resource
      then calling (activates h) (activating h) taken
      else calling (gives_back h) (releasing h refuses false)
          (record taken { first_authority = settle_authority refused s.first_authority })

  unfoldable pub campaign_won : Leadership → Phase → LeadershipController → LeadershipController
  unfolding take_handle
  campaign_won h campaigning s = take_handle h s
  campaign_won h late s = record s {
    calls = gives_back h ∷ takes h ∷ s.calls;
    phase = finished false;
  }
  campaign_won h _ s = s

unfoldable pub campaign_failed : Phase → LeadershipController → LeadershipController
unfolding back_off
campaign_failed campaigning s = back_off s
campaign_failed late s = record s { phase = finished false }
campaign_failed _ s = s

-- `onAcquired` has returned or thrown.
unfoldable pub activation_done : Bool → Phase → LeadershipController → LeadershipController
activation_done true (activating h) s =
    let granting = record s {
      first_authority = settle_authority granted s.first_authority;
      retry_delay = initial_retry_delay;
    } in
    if s.running
    then record granting { phase = holding h }
    else calling (deactivates h) (deactivating h shuts_down) granting
activation_done false (activating h) s = calling (deactivates h) (deactivating h retries) s
activation_done _ _ s = s

unfoldable pub leadership_lost : Phase → LeadershipController → LeadershipController
leadership_lost (holding h) s =
    calling (deactivates h) (deactivating h resumes) (record s { calls = loses h ∷ s.calls })
leadership_lost _ s = s

-- `onLost` has returned or thrown. After a loss there is nothing to release.
unfoldable pub deactivation_done : Bool → Phase → LeadershipController → LeadershipController
unfolding next_round
deactivation_done true (deactivating h resumes) s = next_round s
deactivation_done false (deactivating h resumes) s = fail_run s
deactivation_done true (deactivating h n) s = calling (gives_back h) (releasing h n false) s
deactivation_done false (deactivating h n) s = calling (gives_back h) (releasing h n true) s
deactivation_done _ _ s = s

-- The loop ends where an error was caught or it was to shut down, and else goes on to retry.
unfoldable pub after_release : Bool → Next → LeadershipController → LeadershipController
unfolding back_off
after_release true n s = fail_run s
after_release false retries s = back_off s
after_release false n s = record s { phase = finished false; running = false }

unfoldable pub release_done : Bool → Phase → LeadershipController → LeadershipController
unfolding after_release
release_done true (releasing h n failed) s = after_release failed n s
release_done false (releasing h n failed) s = after_release true n s
release_done _ _ s = s

-- The clock has waited, or thrown an error that is no abort.
unfoldable pub sleep_done : Bool → Phase → LeadershipController → LeadershipController
unfolding next_round
sleep_done true backing_off s =
    next_round (record s { retry_delay = min (s.retry_delay * 2) maximum_retry_delay })
sleep_done false backing_off s = fail_run s
sleep_done _ _ s = s

-- What a stop does to what is awaited.
unfoldable pub interrupted : Phase → LeadershipController → LeadershipController
interrupted campaigning s = record s { phase = late }
interrupted (holding h) s = calling (deactivates h) (deactivating h shuts_down) s
interrupted backing_off s = record s { phase = finished false }
interrupted _ s = s

unfoldable pub stop : LeadershipController → LeadershipController
unfolding interrupted
stop s =
    if s.running
    then interrupted s.phase
        (record s { running = false; first_authority = settle_authority granted s.first_authority })
    else s

module _ (resource : Text) where
  unfoldable pub controller_step : LeadershipController → Answer → LeadershipController
  controller_step s (wins h) = campaign_won resource h s.phase s
  controller_step s campaign_fails = campaign_failed s.phase s
  controller_step s (activated done) = activation_done done s.phase s
  controller_step s (deactivated done) = deactivation_done done s.phase s
  controller_step s (released done) = release_done done s.phase s
  controller_step s lost = leadership_lost s.phase s
  controller_step s (slept done) = sleep_done done s.phase s
  controller_step s stops = stop s

  unfoldable pub controller_run : LeadershipController → List Answer → LeadershipController
  unfolding controller_step
  controller_run s [] = s
  controller_run s (a ∷ as') = controller_run (controller_step s a) as'
