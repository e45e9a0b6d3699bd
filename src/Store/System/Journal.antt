-- ===== src/Store/System/Journal.antt =====
-- The operation journal in every state that the store reaches.
use tego_next.Base.{List, [], ◌∷◌}
use tego_next.Contracts.Platform.{Platform}
use tego_next.Store.State.{new_store}
use tego_next.Store.Commit.Success.{commit_facts}
use tego_next.Store.Commit.Journal.{IsJournal, commit-IsJournal}
use tego_next.Store.System.{System, Event, step, run, initial}
use tego_next.Store.System.Cases.{step_cases}

step-IsJournal :
    (p : Platform) (y : System) (e : Event)
    → IsJournal y.store.operations
    → IsJournal (step p y e).store.operations
step-IsJournal p y e h =
    step_cases (λ s. IsJournal s.operations) p y e h (λ l ws. h) (λ m. h)
      (λ o i st r v s' m d done. commit-IsJournal (commit_facts p o i st r y.store done) h)
      (λ x rev f le _. h)

run-IsJournal_from :
    (p : Platform) (y : System) (es : List Event)
    → IsJournal y.store.operations
    → IsJournal (run p y es).store.operations
unfolding run
run-IsJournal_from p y [] h = h
run-IsJournal_from p y (e ∷ es) h = run-IsJournal_from p (step p y e) es (step-IsJournal p y e h)

pub run-IsJournal : (p : Platform) (es : List Event) → IsJournal (run p initial es).store.operations
unfolding initial new_store
run-IsJournal p es = run-IsJournal_from p initial es (record { keyed = tt; unique = tt })
