-- ===== src/Components.antt =====
-- packages/runtime/src/reconcile/component-lifecycle.ts: the table of a component's life-cycle
-- transitions, and when its application counts as ready.
pub mod Starting
use tego_next.Base.{
  ℕ, nat_beq, Bool, true, false, ◌&&◌, ◌||◌, not, List, [], ◌∷◌, any, if◌then◌else◌, ok, err, ◌>>=◌,
}
use tego_next.Contracts.Diagnostic.{Outcome, lifecycle_transition_invalid}

pub data ComponentLifecycleState : Type 0 where
  created preparing starting ready degraded draining stopping stopped failed :
      ComponentLifecycleState

-- The place of a state in the union type, by which states are compared.
abbrev pub index : ComponentLifecycleState → ℕ
index created = 0
index preparing = 1
index starting = 2
index ready = 3
index degraded = 4
index draining = 5
index stopping = 6
index stopped = 7
index failed = 8

abbrev pub state_beq : ComponentLifecycleState → ComponentLifecycleState → Bool
state_beq s t = nat_beq (index s) (index t)

abbrev pub legal_transitions : ComponentLifecycleState → List ComponentLifecycleState
legal_transitions created = preparing ∷ draining ∷ failed ∷ []
legal_transitions preparing = starting ∷ draining ∷ failed ∷ []
legal_transitions starting = ready ∷ degraded ∷ draining ∷ failed ∷ []
legal_transitions ready = degraded ∷ draining ∷ failed ∷ []
legal_transitions degraded = ready ∷ draining ∷ failed ∷ []
legal_transitions draining = stopping ∷ failed ∷ []
legal_transitions stopping = stopped ∷ failed ∷ []
legal_transitions stopped = []
legal_transitions failed = draining ∷ preparing ∷ starting ∷ stopping ∷ []

unfoldable pub transition_component_lifecycle :
    ComponentLifecycleState → ComponentLifecycleState → Outcome ComponentLifecycleState
transition_component_lifecycle current next =
    if any (λ s. state_beq s next) (legal_transitions current)
    then ok next
    else err lifecycle_transition_invalid

-- A component that goes through the given states, up to the first that is refused.
unfoldable pub transition_through :
    ComponentLifecycleState → List ComponentLifecycleState → Outcome ComponentLifecycleState
unfolding transition_component_lifecycle
transition_through s [] = ok s
transition_through s (n ∷ ns) = transition_component_lifecycle s n >>= λ t. transition_through t ns

pub record ComponentReadinessInput : Type 0 where
  pub desired : Bool
  pub essential : Bool
  pub kernel_running : Bool
  pub instances : List ComponentLifecycleState

unfoldable pub component_application_ready : ComponentReadinessInput → Bool
component_application_ready q =
    if not q.kernel_running
    then false
    else if not q.desired || not q.essential
    then true
    else any (λ s. state_beq s ready) q.instances
