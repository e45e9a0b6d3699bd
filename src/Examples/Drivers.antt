-- ===== src/Examples/Drivers.antt =====
-- Runs of a runtime's drivers and of a component's life cycle.
use mathlib.Core.List.{reverse}
use tego_next.Base.{ok, err, ◌≡◌, refl, [], ◌∷◌, List, any, true}
use tego_next.Contracts.Diagnostic.{Outcome, foreign_error}
use tego_next.Supervisor.{
  DriverName, coordination, artifacts, new_supervisor, drivers, open_drivers, close_drivers,
}
use tego_next.Supervisor.Closing.{Stopped, errors_of, open_then_close}
use tego_next.Components.{
  ComponentLifecycleState, created, preparing, starting, ready, failed, state_beq,
  transition_component_lifecycle, transition_through,
}
use tego_next.Components.Starting.{up_needs_start}

abbrev artifacts_fail : DriverName → Outcome (Unit {0})
artifacts_fail artifacts = err foreign_error
artifacts_fail _ = ok tt

abbrev coordination_fails : DriverName → Outcome (Unit {0})
coordination_fails coordination = err foreign_error
coordination_fails _ = ok tt

open_then_close_example :
    let (o, s) = open_drivers artifacts_fail new_supervisor in
    let (es, t) = close_drivers coordination_fails s in
    Stopped artifacts_fail drivers s.open_calls o
    × (t.close_calls ≡ reverse s.open_calls)
    × (es ≡ errors_of coordination_fails (reverse s.open_calls))
    × (close_drivers coordination_fails t ≡ ([], t))
open_then_close_example = open_then_close artifacts_fail coordination_fails

abbrev second_try : List ComponentLifecycleState
second_try = preparing ∷ failed ∷ starting ∷ ready ∷ []

up_needs_start_example : any (λ n. state_beq n starting) second_try ≡ true
unfolding transition_through transition_component_lifecycle
up_needs_start_example = up_needs_start created ready second_try refl refl refl
