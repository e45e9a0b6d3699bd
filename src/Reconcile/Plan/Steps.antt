-- ===== src/Reconcile/Plan/Steps.antt =====
-- packages/runtime/src/reconcile/plan.ts: the next step for one instance or component.
use tego_next.Base.{
  Text, text, Bool, false, ◌&&◌, ◌||◌, List, any, text_beq, text_eq, if◌then◌else◌, ok, ◌>>=◌,
  Option, none, some,
}
use tego_next.Contracts.Diagnostic.{Outcome}
use tego_next.Components.{
  ComponentLifecycleState, created, preparing, starting, draining, stopping, stopped, failed,
  state_beq,
}
use tego_next.Reconcile.Placement.{ComponentPlacement}
use tego_next.Reconcile.Identities.{ReconcileEffectKind, drain, prepare, start, stop}
use tego_next.Reconcile.Plan.{
  ComponentInstance, PluginDeployment, ReconcilePlanStep, is_later, step, step_identities,
}

-- A failed instance retries its effect once the time for it has come.
abbrev pub due_retry : ComponentInstance → (now : Text) → Option ReconcileEffectKind
due_retry instance now = if is_later instance.retry_at now then none else instance.retry_effect

-- "LIFECYCLE_RESTORE_FAILED", until the time to retry.
abbrev pub waits_for_restore : ComponentInstance → (now : Text) → Bool
waits_for_restore instance now =
    elim instance.diagnostic_code [
      | none ↦ false
      | some code ↦ text_beq code (text "LIFECYCLE_RESTORE_FAILED")
    ]
    && is_later instance.retry_at now

abbrev is_text : Text → Option Text → Bool
is_text t none = false
is_text t (some u) = text_beq u t

abbrev pub has_completed : ComponentInstance → (operation_id : Text) → Bool
has_completed instance operation_id =
    is_text operation_id instance.completed_operation_id
    || any (text_beq operation_id) instance.completed_operation_ids

-- `kind` is `undefined` where no step is due.
abbrev pub optional_step :
    Option ReconcileEffectKind
    → (ReconcileEffectKind → Outcome ReconcilePlanStep)
    → Outcome (Option ReconcilePlanStep)
optional_step none make = ok none
optional_step (some kind) make = do s ← make kind; ok (some s)

-- The effect that retires an instance, by its life cycle.
unfoldable pub retiring_effect :
    ComponentLifecycleState
    → (retry : Option ReconcileEffectKind) → (drained : Outcome Bool)
    → Outcome (Option ReconcileEffectKind)
retiring_effect failed retry drained = ok retry
retiring_effect draining retry drained = do
  done ← drained
  ok (if done then some stop else some drain)
retiring_effect stopping retry drained = ok (some stop)
retiring_effect stopped retry drained = ok none
retiring_effect _ retry drained = ok (some drain)

-- The effect that brings an instance on, by its life cycle.
unfoldable pub advancing_effect :
    ComponentLifecycleState → (retry : Option ReconcileEffectKind) → Option ReconcileEffectKind
advancing_effect created retry = some prepare
advancing_effect preparing retry = some start
advancing_effect starting retry = some start
advancing_effect draining retry = some stop
advancing_effect stopping retry = some stop
advancing_effect failed retry = retry
advancing_effect _ retry = none

module _ (digest_of : List Text → Text) where
  abbrev pub old_deployment : PluginDeployment → ComponentInstance → PluginDeployment
  old_deployment deployment instance = record deployment {
    identity = record deployment.identity { generation = instance.deployment_generation };
    artifact_digest = elim instance.artifact_digest [
      | none ↦ deployment.artifact_digest
      | some d ↦ d
    ];
  }

  abbrev pub is_drained : PluginDeployment → ComponentInstance → Outcome Bool
  is_drained deployment instance = do
    drained ←
        step_identities digest_of (old_deployment deployment instance).identity
          instance.component_id drain instance.activation instance.legacy_activation
    ok (has_completed instance drained.operation_id)

  abbrev pub old_step :
      PluginDeployment → ComponentInstance → ReconcileEffectKind → Outcome ReconcilePlanStep
  old_step deployment instance kind =
      step digest_of (old_deployment deployment instance) instance.component_id kind
        (record { executor = instance.executor; worker_id = instance.worker_id })
        (some instance.revision) instance.lifecycle instance.activation instance.legacy_activation
        instance.execution_binding

  unfoldable pub old_instance_step :
      PluginDeployment → ComponentInstance → (now : Text) → Outcome (Option ReconcilePlanStep)
  unfolding retiring_effect
  old_instance_step deployment instance now = do
    kind ←
        retiring_effect instance.lifecycle (due_retry instance now) (is_drained deployment instance)
    optional_step kind (old_step deployment instance)

  abbrev pub first_step :
      PluginDeployment
      → (component_id : Text) → ComponentPlacement
      → (activation : Text) → Outcome (Option ReconcilePlanStep)
  first_step deployment component_id placement activation = optional_step (some prepare) (λ kind.
      step digest_of deployment component_id kind placement none created activation false none)

  abbrev pub next_step :
      PluginDeployment
      → ComponentInstance
      → (component_id : Text) → ComponentPlacement
      → (activation : Text) → ReconcileEffectKind
      → Outcome ReconcilePlanStep
  next_step deployment instance component_id placement activation kind =
      step digest_of deployment component_id kind placement (some instance.revision)
        instance.lifecycle activation instance.legacy_activation instance.execution_binding

  unfoldable pub current_instance_step :
      PluginDeployment
      → (now : Text) → Option ComponentInstance
      → (component_id : Text) → ComponentPlacement
      → (activation : Text) → Outcome (Option ReconcilePlanStep)
  unfolding advancing_effect
  current_instance_step deployment now none component_id placement activation =
      first_step deployment component_id placement activation
  current_instance_step deployment now (some instance) component_id placement activation =
      if waits_for_restore instance now
      then ok none
      else if state_beq instance.lifecycle stopped
      then first_step deployment component_id placement activation
      else optional_step (advancing_effect instance.lifecycle (due_retry instance now))
          (next_step deployment instance component_id placement activation)
