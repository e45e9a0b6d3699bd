-- ===== src/Components/Starting.antt =====
-- How a component gets ready and how it stops.
use tego_next.Base.{
  leb, Bool, true, false, ◌&&◌, ◌||◌, List, [], ◌∷◌, any, ok, err, ◌≡◌, refl, >>=-eq-ok, arith,
  Bool-cases, inl, inr, ok-injective, subst,
}
use tego_next.Contracts.Diagnostic.{lifecycle_transition_invalid}
use tego_next.Components.{
  ComponentLifecycleState, created, preparing, starting, ready, degraded, draining, stopping,
  stopped, failed, index, state_beq, legal_transitions, transition_component_lifecycle,
  transition_through,
}

-- The component is starting or runs.
abbrev pub is_up : ComponentLifecycleState → Bool
is_up s = leb 2 (index s) && leb (index s) 4

legal_up :
    (s n : ComponentLifecycleState)
    → any (λ t. state_beq t n) (legal_transitions s) ≡ true
    → is_up s ≡ false
    → is_up n ≡ true
    → state_beq n starting ≡ true
legal_up created n h k u = ground arith
legal_up preparing n h k u = ground arith
legal_up starting n h k u = cc
legal_up ready n h k u = cc
legal_up degraded n h k u = cc
legal_up draining n h k u = ground arith
legal_up stopping n h k u = ground arith
legal_up stopped n h k u = cc
legal_up failed n h k u = ground arith

accepted :
    (s n t : ComponentLifecycleState)
    → transition_component_lifecycle s n ≡ ok t
    → (n ≡ t) × (any (λ t. state_beq t n) (legal_transitions s) ≡ true)
unfolding transition_component_lifecycle
accepted s n t h = elim (Bool-cases (any (λ t. state_beq t n) (legal_transitions s))) [
  | inl e ↦ let h' = rw e at h in (ok-injective h', e)
  | inr e ↦ let h' = rw e at h in cc
]

true_last : (b : Bool) → (b || true) ≡ true
true_last true = refl
true_last false = refl

-- However often it fails and is tried again: a component that is not up and goes through a sequence
-- of accepted states to one that is up has been starting on the way.
pub up_needs_start :
    (s t : ComponentLifecycleState) (ns : List ComponentLifecycleState)
    → is_up s ≡ false
    → transition_through s ns ≡ ok t
    → is_up t ≡ true
    → any (λ n. state_beq n starting) ns ≡ true
unfolding transition_through
up_needs_start s t [] down h up = let same = ok-injective h in cc
up_needs_start s t (n ∷ ns) down h up =
    let (u, f, g) = >>=-eq-ok (transition_component_lifecycle s n) _ h in
    let (same, legal) = accepted s n u f in
    elim (Bool-cases (is_up n)) [
      | inl e ↦ let first = legal_up s n legal down e in rw first refl
      | inr e ↦
          let later = up_needs_start u t ns (subst (λ x. is_up x ≡ false) same e) g up in
          rw later (true_last (state_beq n starting))
    ]

abbrev pub way_to_stopped : ComponentLifecycleState → List ComponentLifecycleState
way_to_stopped draining = stopping ∷ stopped ∷ []
way_to_stopped stopping = stopped ∷ []
way_to_stopped stopped = []
way_to_stopped s = draining ∷ stopping ∷ stopped ∷ []

-- From every state a component can be stopped by accepted transitions, and a stopped component
-- accepts none.
pub component_stops :
    (s : ComponentLifecycleState)
    → (transition_through s (way_to_stopped s) ≡ ok stopped)
      × ((n : ComponentLifecycleState)
          → transition_component_lifecycle stopped n ≡ err lifecycle_transition_invalid)
unfolding transition_through transition_component_lifecycle
component_stops s = (reach s, λ n. refl)
  where
    reach : (u : ComponentLifecycleState) → transition_through u (way_to_stopped u) ≡ ok stopped
    reach draining = refl
    reach _ = refl
