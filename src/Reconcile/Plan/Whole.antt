-- ===== src/Reconcile/Plan/Whole.antt =====
-- packages/runtime/src/reconcile/plan.ts: `planReconcile` over all instances and components.
use tego_next.Base.{
  Text, text, Bool, true, false, ◌&&◌, ◌||◌, not, List, [], ◌∷◌, ◌++◌, ltb, length, before, filter,
  map, text_beq, text_eq, sort_by, if◌then◌else◌, ok, ◌>>=◌, Option, none, some,
}
use tego_next.Contracts.Json.{JsonValue}
use tego_next.Contracts.Json.JsonValue.{array}
use tego_next.Contracts.Json.JsonArray.{nil}
use tego_next.Contracts.Diagnostic.{Outcome}
use tego_next.Contracts.Identity.{decimal_value}
use tego_next.Components.{stopped, failed, state_beq}
use tego_next.Reconcile.Placement.{
  ComponentPlacement, PlacementDiagnostic, PluginComponent, PlacementDecision, PlacementInput,
  plan_placement,
}
use tego_next.Reconcile.Plan.{
  ComponentInstance, DeploymentState, active, disabled, ReconcilePlanStep, ReconcileSnapshot,
  PlanDiagnostic, gate_diagnostic, placement_diagnostic, instance_inconsistent, ReconcilePlan,
}
use tego_next.Reconcile.Plan.Steps.{old_instance_step, current_instance_step}

abbrev pub is_active : DeploymentState → Bool
is_active active = true
is_active disabled = false

abbrev instance_after : ComponentInstance → ComponentInstance → Bool
instance_after left right = before right.instance_id left.instance_id

-- The instances of the application, in the order of their names.
unfoldable pub own_instances : ReconcileSnapshot → List ComponentInstance
own_instances q =
    sort_by instance_after
      (filter (λ i. text_beq i.application_id q.deployment.identity.application_id) q.instances)

abbrev pub is_current : ReconcileSnapshot → ComponentInstance → Bool
is_current q i = text_beq i.deployment_generation q.deployment.identity.generation

abbrev pub is_instance_of : ReconcileSnapshot → PluginComponent → ComponentInstance → Bool
is_instance_of q component i = text_beq i.component_id component.component_id && is_current q i

abbrev pub is_live : ComponentInstance → Bool
is_live i = not (state_beq i.lifecycle failed) && not (state_beq i.lifecycle stopped)

abbrev live_instances : ReconcileSnapshot → PluginComponent → List ComponentInstance
live_instances q component =
    filter (λ i. is_instance_of q component i && is_live i) (own_instances q)

-- The components of which a generation has more than one live instance.
unfoldable pub inconsistent : ReconcileSnapshot → List PluginComponent → List PlanDiagnostic
unfolding own_instances
inconsistent q [] = []
inconsistent q (component ∷ components) =
    let live = live_instances q component in
    let rest = inconsistent q components in
    if ltb 1 (length live)
    then instance_inconsistent component.component_id (map (λ i. i.instance_id) live) ∷ rest
    else rest

abbrev pub is_obsolete : ReconcileSnapshot → ComponentInstance → Bool
is_obsolete q i = not (is_active q.deployment.state) || (not (is_current q i) || q.suspended)

abbrev pub with_step : Option ReconcilePlanStep → List ReconcilePlanStep → List ReconcilePlanStep
with_step none steps = steps
with_step (some s) steps = s ∷ steps

abbrev pub permissions_of : Option JsonValue → JsonValue
permissions_of none = array nil
permissions_of (some granted) = granted

abbrev pub placement_input : ReconcileSnapshot → PluginComponent → PlacementInput
placement_input q component = record {
  artifact_digest = q.deployment.artifact_digest;
  component = component;
  granted_permissions = permissions_of q.gate.permission_granted;
  supported_executors = q.supported_executors;
  workers = q.workers;
}

-- `currentInstances.reduce(...)`, from the highest so far.
highest : Option Text → List ComponentInstance → Option Text
highest best [] = best
highest none (i ∷ is) = highest (some i.activation) is
highest (some best) (i ∷ is) =
    highest
      (if ltb (decimal_value best) (decimal_value i.activation)
        then some i.activation
        else some best)
      is

abbrev or_else {ℓ} : {A : Type ℓ} → Option A → Option A → Option A
or_else none other = other
or_else (some a) other = some a

-- "1" where there is neither a given activation nor an instance.
unfoldable pub activation_of : ReconcileSnapshot → PluginComponent → List ComponentInstance → Text
unfolding highest
activation_of q component current =
    elim (or_else (q.activations component.component_id) (highest none current)) [
      | none ↦ text "1"
      | some a ↦ a
    ]

abbrev pub find_activation : Text → List ComponentInstance → Option ComponentInstance
find_activation activation [] = none
find_activation activation (i ∷ is) =
    if text_beq i.activation activation then some i else find_activation activation is

-- `!placement.ok || placement.placement === undefined` is `none`.
abbrev pub accepted_placement : PlacementDecision → Option ComponentPlacement
accepted_placement d = if d.ok then d.placement else none

-- The steps, and the diagnostics of the components that have no placement.
abbrev pub Planned : Type 0
Planned = List ReconcilePlanStep × List PlacementDiagnostic

abbrev pub gate_diagnostics : ReconcileSnapshot → List PlanDiagnostic
gate_diagnostics q =
    map gate_diagnostic (q.gate.resolution_diagnostics ++ q.gate.permission_diagnostics)

abbrev pub blocked_plan : ReconcileSnapshot → List PlanDiagnostic → ReconcilePlan
blocked_plan q diagnostics = record {
  deployment_generation = q.deployment.identity.generation;
  blocked = true;
  diagnostics = diagnostics;
  steps = [];
}

-- Steps are kept only when every component has a placement.
abbrev pub whole_plan : ReconcileSnapshot → List ReconcilePlanStep → Planned → ReconcilePlan
whole_plan q obsolete (steps, diagnostics) =
    let unplaced = ltb 0 (length diagnostics) in
    record {
      deployment_generation = q.deployment.identity.generation;
      blocked = unplaced;
      diagnostics = gate_diagnostics q ++ map placement_diagnostic diagnostics;
      steps = (if unplaced then [] else obsolete ++ steps);
    }

module _ (digest_of : List Text → Text) where
  -- The loop over the instances.
  unfoldable pub obsolete_steps :
      ReconcileSnapshot → List ComponentInstance → Outcome (List ReconcilePlanStep)
  obsolete_steps q [] = ok []
  obsolete_steps q (i ∷ is) =
      let step = old_instance_step digest_of q.deployment i q.now in
      do
        s ← if is_obsolete q i then step else ok none
        rest ← obsolete_steps q is
        ok (with_step s rest)

  abbrev pub component_step :
      ReconcileSnapshot → PluginComponent → ComponentPlacement → Outcome (Option ReconcilePlanStep)
  component_step q component placement =
      let current = filter (is_instance_of q component) (own_instances q) in
      let activation = activation_of q component current in
      current_instance_step digest_of q.deployment q.now (find_activation activation current)
        component.component_id placement activation

  -- A component without a placement adds its diagnostics and no step.
  abbrev pub place_component :
      ReconcileSnapshot
      → PluginComponent
      → List PlacementDiagnostic
      → Option ComponentPlacement
      → Outcome Planned
  place_component q component diagnostics none = ok ([], diagnostics)
  place_component q component diagnostics (some placement) = do
    s ← component_step q component placement
    ok (with_step s [], [])

abbrev pub component_after : PluginComponent → PluginComponent → Bool
component_after left right = before right.component_id left.component_id

module _ (domain_to_ascii : Text → Text) (digest_of : List Text → Text) where
  -- The loop over the components.
  unfoldable pub component_steps : ReconcileSnapshot → List PluginComponent → Outcome Planned
  unfolding own_instances activation_of
  component_steps q [] = ok ([], [])
  component_steps q (component ∷ components) = do
    let decision = plan_placement domain_to_ascii (placement_input q component)
    (steps, diagnostics) ←
        place_component digest_of q component decision.diagnostics (accepted_placement decision)
    (more, others) ← component_steps q components
    ok (steps ++ more, diagnostics ++ others)

  abbrev pub active_steps : ReconcileSnapshot → Outcome Planned
  active_steps q =
      let planned = component_steps q (sort_by component_after q.gate.components) in
      if is_active q.deployment.state && not q.suspended then planned else ok ([], [])

  abbrev pub open_plan : ReconcileSnapshot → Outcome ReconcilePlan
  open_plan q = do
    obsolete ← obsolete_steps digest_of q (own_instances q)
    planned ← active_steps q
    ok (whole_plan q obsolete planned)

  unfoldable pub plan_reconcile : ReconcileSnapshot → Outcome ReconcilePlan
  unfolding inconsistent obsolete_steps component_steps own_instances
  plan_reconcile q =
      let conflicts = inconsistent q q.gate.components in
      let plan = open_plan q in
      if not q.gate.resolution_ok || not q.gate.permission_allowed
      then ok (blocked_plan q (gate_diagnostics q))
      else if ltb 0 (length conflicts)
      then ok (blocked_plan q conflicts)
      else plan
