-- ===== src/Controller/Handlers.antt =====
-- Each answer keeps the controller's calls in order.
use tego_next.Base.{◌*◌, min, Text, text_beq, Bool, true, false, arith, Bool-cases, inl, inr}
use tego_next.Controller.{
  Leadership, Next, retries, shuts_down, resumes, refuses, Phase, campaigning, activating, holding,
  deactivating, releasing, backing_off, late, LeadershipController, maximum_retry_delay,
  take_handle, campaign_won, campaign_failed, activation_done, leadership_lost, deactivation_done,
  after_release, release_done, sleep_done, interrupted,
}
use tego_next.Controller.Orderly.{
  taken, active, inactive, gone, returned, IsDisciplined, IsFree, IsAt, back_off-IsDisciplined,
  next_round-IsDisciplined,
}

pub after_release-IsDisciplined :
    (failed : Bool) (n : Next) (s : LeadershipController)
    → IsFree s
    → IsDisciplined (after_release failed n s)
unfolding after_release
after_release-IsDisciplined true n s h = record {
  orderly = h.orderly;
  delay = h.delay;
  waits = h.waits;
}
after_release-IsDisciplined false retries s h = back_off-IsDisciplined s h
after_release-IsDisciplined false shuts_down s h = record {
  orderly = h.orderly;
  delay = h.delay;
  waits = h.waits;
}
after_release-IsDisciplined false resumes s h = record {
  orderly = h.orderly;
  delay = h.delay;
  waits = h.waits;
}
after_release-IsDisciplined false refuses s h = record {
  orderly = h.orderly;
  delay = h.delay;
  waits = h.waits;
}

module _ (resource : Text) where
  pub campaign_won-IsDisciplined :
      (h : Leadership) (p : Phase) (s : LeadershipController)
      → IsDisciplined s
      → IsAt p s
      → IsDisciplined (campaign_won resource h p s)
  unfolding campaign_won take_handle
  campaign_won-IsDisciplined h campaigning s d k =
      elim (Bool-cases (text_beq h.resource resource)) [
        | inl t ↦
            rw t
              (record { orderly = active h (taken h k.orderly); delay = k.delay; waits = k.waits })
        | inr t ↦
            rw t (record {
              orderly = returned h (taken h k.orderly);
              delay = k.delay;
              waits = k.waits;
            })
      ]
  campaign_won-IsDisciplined h late s d k = record {
    orderly = returned h (taken h k.orderly);
    delay = k.delay;
    waits = k.waits;
  }
  campaign_won-IsDisciplined h _ s d k = d

pub campaign_failed-IsDisciplined :
    (p : Phase) (s : LeadershipController)
    → IsDisciplined s
    → IsAt p s
    → IsDisciplined (campaign_failed p s)
unfolding campaign_failed
campaign_failed-IsDisciplined campaigning s d k =
    back_off-IsDisciplined s (record { orderly = k.orderly; delay = k.delay; waits = k.waits })
campaign_failed-IsDisciplined late s d k = record {
  orderly = k.orderly;
  delay = k.delay;
  waits = k.waits;
}
campaign_failed-IsDisciplined _ s d k = d

pub activation_done-IsDisciplined :
    (b : Bool) (p : Phase) (s : LeadershipController)
    → IsDisciplined s
    → IsAt p s
    → IsDisciplined (activation_done b p s)
unfolding activation_done
activation_done-IsDisciplined true (activating h) s d k = elim (Bool-cases s.running) [
  | inl e ↦
      rw e (record { orderly = k.orderly; delay = (omega arith, omega arith); waits = k.waits })
  | inr e ↦ rw e (record {
    orderly = inactive h k.orderly;
    delay = (omega arith, omega arith);
    waits = k.waits;
  })
]
activation_done-IsDisciplined false (activating h) s d k = record {
  orderly = inactive h k.orderly;
  delay = k.delay;
  waits = k.waits;
}
activation_done-IsDisciplined true _ s d k = d
activation_done-IsDisciplined false _ s d k = d

pub leadership_lost-IsDisciplined :
    (p : Phase) (s : LeadershipController)
    → IsDisciplined s
    → IsAt p s
    → IsDisciplined (leadership_lost p s)
unfolding leadership_lost
leadership_lost-IsDisciplined (holding h) s d k = record {
  orderly = inactive h (gone h k.orderly);
  delay = k.delay;
  waits = k.waits;
}
leadership_lost-IsDisciplined _ s d k = d

pub deactivation_done-IsDisciplined :
    (b : Bool) (p : Phase) (s : LeadershipController)
    → IsDisciplined s
    → IsAt p s
    → IsDisciplined (deactivation_done b p s)
unfolding deactivation_done
deactivation_done-IsDisciplined true (deactivating h resumes) s d k =
    next_round-IsDisciplined s (record { orderly = k.orderly; delay = k.delay; waits = k.waits })
deactivation_done-IsDisciplined false (deactivating h resumes) s d k = record {
  orderly = k.orderly;
  delay = k.delay;
  waits = k.waits;
}
deactivation_done-IsDisciplined true (deactivating h retries) s d k = record {
  orderly = returned h k.orderly;
  delay = k.delay;
  waits = k.waits;
}
deactivation_done-IsDisciplined true (deactivating h shuts_down) s d k = record {
  orderly = returned h k.orderly;
  delay = k.delay;
  waits = k.waits;
}
deactivation_done-IsDisciplined true (deactivating h refuses) s d k = record {
  orderly = returned h k.orderly;
  delay = k.delay;
  waits = k.waits;
}
deactivation_done-IsDisciplined false (deactivating h retries) s d k = record {
  orderly = returned h k.orderly;
  delay = k.delay;
  waits = k.waits;
}
deactivation_done-IsDisciplined false (deactivating h shuts_down) s d k = record {
  orderly = returned h k.orderly;
  delay = k.delay;
  waits = k.waits;
}
deactivation_done-IsDisciplined false (deactivating h refuses) s d k = record {
  orderly = returned h k.orderly;
  delay = k.delay;
  waits = k.waits;
}
deactivation_done-IsDisciplined true _ s d k = d
deactivation_done-IsDisciplined false _ s d k = d

pub release_done-IsDisciplined :
    (b : Bool) (p : Phase) (s : LeadershipController)
    → IsDisciplined s
    → IsAt p s
    → IsDisciplined (release_done b p s)
unfolding release_done
release_done-IsDisciplined true (releasing h n failed) s d k =
    after_release-IsDisciplined failed n s
      (record { orderly = k.orderly; delay = k.delay; waits = k.waits })
release_done-IsDisciplined false (releasing h n failed) s d k =
    after_release-IsDisciplined true n s
      (record { orderly = k.orderly; delay = k.delay; waits = k.waits })
release_done-IsDisciplined true _ s d k = d
release_done-IsDisciplined false _ s d k = d

pub sleep_done-IsDisciplined :
    (b : Bool) (p : Phase) (s : LeadershipController)
    → IsDisciplined s
    → IsAt p s
    → IsDisciplined (sleep_done b p s)
unfolding sleep_done
sleep_done-IsDisciplined true backing_off s d k =
    let delay = k.delay in
    next_round-IsDisciplined
      (record s { retry_delay = min (s.retry_delay * 2) maximum_retry_delay })
      (record { orderly = k.orderly; delay = (omega arith, omega arith); waits = k.waits })
sleep_done-IsDisciplined false backing_off s d k = record {
  orderly = k.orderly;
  delay = k.delay;
  waits = k.waits;
}
sleep_done-IsDisciplined true _ s d k = d
sleep_done-IsDisciplined false _ s d k = d

pub interrupted-IsDisciplined :
    (p : Phase) (s : LeadershipController)
    → IsDisciplined s
    → IsAt p s
    → IsDisciplined (interrupted p s)
unfolding interrupted
interrupted-IsDisciplined campaigning s d k = record {
  orderly = k.orderly;
  delay = k.delay;
  waits = k.waits;
}
interrupted-IsDisciplined (holding h) s d k = record {
  orderly = inactive h k.orderly;
  delay = k.delay;
  waits = k.waits;
}
interrupted-IsDisciplined backing_off s d k = record {
  orderly = k.orderly;
  delay = k.delay;
  waits = k.waits;
}
interrupted-IsDisciplined _ s d k = d
