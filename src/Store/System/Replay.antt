-- ===== src/Store/System/Replay.antt =====
-- The change log replays to the records in every state that the store reaches.
use tego_next.Base.{◌≤◌, List, [], ◌∷◌, none, get, ◌≡◌, refl, arith, All, All-map}
use tego_next.Contracts.Platform.{Platform}
use tego_next.Contracts.State.{StateKey, key_eq}
use tego_next.Store.State.{MemoryStateStore, new_store}
use tego_next.Store.Commit.Success.{commit_facts}
use tego_next.Store.Commit.Effects.{replay_key}
use tego_next.Store.Commit.Records.{IsReplayed, commit-IsReplayed, changes-bounded}
use tego_next.Store.System.{System, Event, step, run, initial}
use tego_next.Store.System.Cases.{step_cases}

-- The log replays to the records, and no change is of a later revision than the store's.
pub record IsLogged (s : MemoryStateStore) : Type 0 where
  pub replays : IsReplayed s
  pub bounded : All (λ c. c.revision ≤ s.revision) s.changes

pub step-IsLogged :
    (p : Platform) (y : System) (e : Event) → IsLogged y.store → IsLogged (step p y e).store
step-IsLogged p y e h =
    step_cases IsLogged p y e h (λ l ws. record { replays = h.replays; bounded = h.bounded })
      (λ m. record { replays = h.replays; bounded = h.bounded })
      (λ o i st r v s' m d done.
        let f = commit_facts p o i st r y.store done in
        record { replays = commit-IsReplayed f d h.replays; bounded = changes-bounded f h.bounded })
      (λ x rev f le _. record {
        replays = h.replays;
        bounded =
            All-map (λ c. c.revision ≤ y.store.revision) (λ c. c.revision ≤ rev) y.store.changes
              (λ c b. omega arith) h.bounded;
      })

run-IsLogged :
    (p : Platform) (y : System) (es : List Event) → IsLogged y.store → IsLogged (run p y es).store
unfolding run
run-IsLogged p y [] h = h
run-IsLogged p y (e ∷ es) h = run-IsLogged p (step p y e) es (step-IsLogged p y e h)

-- After any sequence of calls on a new store, whatever order their commits come in: replaying the
-- whole change log gives, at every key, exactly the stored record (its value and revision, or
-- none); and no logged change has a later revision than the store's.
pub run-replays :
    (p : Platform) (es : List Event)
    → let s = (run p initial es).store in
      ((k : StateKey) → replay_key k s.changes none ≡ get k s.records)
      × All (λ c. c.revision ≤ s.revision) s.changes
unfolding initial new_store get
run-replays p es =
    let h = run-IsLogged p initial es (record { replays = λ k. refl; bounded = tt }) in
    (h.replays, h.bounded)
