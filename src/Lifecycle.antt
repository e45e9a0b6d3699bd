-- ===== src/Lifecycle.antt =====
-- packages/runtime/src/runtime-state.ts: the table of a runtime's life-cycle transitions.
use tego_next.Base.{
  ℕ, nat_beq, Bool, true, false, List, [], ◌∷◌, any, if◌then◌else◌, ok, err, ◌≡◌, refl, arith,
  ◌>>=◌, inl, ◌⊎◌, >>=-eq-ok,
}
use tego_next.Contracts.Diagnostic.{Outcome, lifecycle_transition_invalid}

pub data RuntimeLifecycleState : Type 0 where
  created opening recovering electing running draining stopping stopped failed :
      RuntimeLifecycleState

-- The place of a state in the union type, by which states are compared.
abbrev index : RuntimeLifecycleState → ℕ
index created = 0
index opening = 1
index recovering = 2
index electing = 3
index running = 4
index draining = 5
index stopping = 6
index stopped = 7
index failed = 8

abbrev transitions : RuntimeLifecycleState → List RuntimeLifecycleState
transitions created = failed ∷ opening ∷ stopping ∷ []
transitions opening = failed ∷ recovering ∷ stopping ∷ []
transitions recovering = electing ∷ failed ∷ stopping ∷ []
transitions electing = failed ∷ running ∷ stopping ∷ []
transitions running = draining ∷ failed ∷ []
transitions draining = failed ∷ stopping ∷ []
transitions stopping = failed ∷ stopped ∷ []
transitions stopped = []
transitions failed = stopping ∷ []

unfoldable pub transition_runtime_state :
    RuntimeLifecycleState → RuntimeLifecycleState → Outcome RuntimeLifecycleState
transition_runtime_state current next =
    if any (λ s. nat_beq (index s) (index next)) (transitions current)
    then ok next
    else err lifecycle_transition_invalid

-- A sequence of transitions, which stops at the first that throws.
unfoldable pub transition_all :
    RuntimeLifecycleState → List RuntimeLifecycleState → Outcome RuntimeLifecycleState
unfolding transition_runtime_state
transition_all s [] = ok s
transition_all s (n ∷ ns) = transition_runtime_state s n >>= λ t. transition_all t ns

-- The states that a runtime is in before it has run, and the states after.
abbrev pub is_over : RuntimeLifecycleState → Bool
is_over created = false
is_over opening = false
is_over recovering = false
is_over electing = false
is_over running = false
is_over draining = true
is_over stopping = true
is_over stopped = true
is_over failed = true

over_step :
    (s n : RuntimeLifecycleState) {t : RuntimeLifecycleState}
    → (is_over s ≡ true) ⊎ (s ≡ running)
    → transition_runtime_state s n ≡ ok t
    → is_over t ≡ true
unfolding transition_runtime_state
over_step s n h e = ground arith

over_all :
    (s : RuntimeLifecycleState) (ns : List RuntimeLifecycleState) {t : RuntimeLifecycleState}
    → is_over s ≡ true
    → transition_all s ns ≡ ok t
    → is_over t ≡ true
unfolding transition_all
over_all s [] h e = ground arith
over_all s (n ∷ ns) h e =
    let (t, f, g) = >>=-eq-ok (transition_runtime_state s n) _ e in
    over_all t ns (over_step s n (inl h) f) g

-- A runtime that leaves the running state, or has drained, stopped or failed, is never again in
-- any state up to running: no sequence of accepted transitions leads there.
pub running_once :
    (s n : RuntimeLifecycleState) (ns : List RuntimeLifecycleState) (t : RuntimeLifecycleState)
    → (is_over s ≡ true) ⊎ (s ≡ running)
    → transition_all s (n ∷ ns) ≡ ok t
    → is_over t ≡ true
unfolding transition_all
running_once s n ns t h e =
    let (u, f, g) = >>=-eq-ok (transition_runtime_state s n) _ e in
    over_all u ns (over_step s n h f) g

-- The transitions by which a state is stopped.
abbrev pub way_to_stop : RuntimeLifecycleState → List RuntimeLifecycleState
way_to_stop running = draining ∷ stopping ∷ stopped ∷ []
way_to_stop stopping = stopped ∷ []
way_to_stop stopped = []
way_to_stop s = stopping ∷ stopped ∷ []

-- Every state can be brought to stopped by accepted transitions, in one that runs by way of
-- draining; and a stopped runtime accepts no transition.
pub stops_and_stays :
    (s : RuntimeLifecycleState)
    → (transition_all s (way_to_stop s) ≡ ok stopped)
      × ((n : RuntimeLifecycleState)
          → transition_runtime_state stopped n ≡ err lifecycle_transition_invalid)
unfolding transition_all
stops_and_stays s = (reach s, λ n. refl)
  where
    reach : (u : RuntimeLifecycleState) → transition_all u (way_to_stop u) ≡ ok stopped
    reach running = refl
    reach _ = refl
