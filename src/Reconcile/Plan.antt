-- ===== src/Reconcile/Plan.antt =====
-- packages/runtime/src/reconcile/plan.ts: `planReconcile`. The fields that planning does not read
-- are left out; times are ISO strings, compared as strings.

pub mod Steps
pub mod Whole
pub mod Legal
pub mod Settled
use tego_next.Base.{
  ℕ, Text, text, Bool, true, false, ◌&&◌, ◌||◌, not, List, [], ◌∷◌, ◌++◌, ltb, length, before,
  filter, any, map, text_beq, text_eq, sort_by, if◌then◌else◌, ok, err, ◌>>=◌, Option, none, some,
}
use tego_next.Contracts.Json.{JsonValue}
use tego_next.Contracts.Json.JsonValue.{array}
use tego_next.Contracts.Json.JsonArray.{nil}
use tego_next.Contracts.Diagnostic.{Outcome}
use tego_next.Contracts.Identity.{decimal_value}
use tego_next.Components.{
  ComponentLifecycleState, created, preparing, starting, draining, stopping, stopped, failed,
  state_beq,
}
use tego_next.Selection.{ExecutorKind}
use tego_next.Reconcile.Placement.{
  PlacementWorker, ComponentPlacement, PlacementDiagnostic, PluginComponent, PlacementDecision,
  plan_placement,
}
use tego_next.Reconcile.Identities.{
  ReconcileEffectKind, drain, prepare, start, stop, DeploymentIdentity, EffectIdentities,
  reconcile_effect_identities, legacy_reconcile_effect_identities,
}

pub record ComponentInstance : Type 0 where
  pub instance_id : Text
  pub activation : Text
  pub legacy_activation : Bool
  pub application_id : Text
  pub plugin_id : Text
  pub component_id : Text
  pub deployment_generation : Text
  pub lifecycle : ComponentLifecycleState
  pub executor : ExecutorKind
  pub worker_id : Option Text
  pub artifact_digest : Option Text
  pub execution_binding : Option JsonValue
  pub retry_at : Option Text
  pub retry_effect : Option ReconcileEffectKind
  pub diagnostic_code : Option Text
  pub completed_operation_id : Option Text
  pub completed_operation_ids : List Text
  pub revision : Text

pub data DeploymentState : Type 0 where
  active disabled : DeploymentState

-- What planning reads of a PluginDeployment.
pub record PluginDeployment : Type 0 where
  pub identity : DeploymentIdentity
  pub artifact_digest : Text
  pub state : DeploymentState

-- What planning reads of the artifact, of the capabilities' resolution and of the permissions'
-- decision. Diagnostics are passed on as they are.
pub record ArtifactDeploymentGate : Type 0 where
  pub components : List PluginComponent
  pub resolution_ok : Bool
  pub resolution_diagnostics : List JsonValue
  pub permission_allowed : Bool
  pub permission_diagnostics : List JsonValue
  pub permission_granted : Option JsonValue

pub record ReconcileEffect : Type 0 where
  pub kind : ReconcileEffectKind
  pub activation : Text
  pub identities : EffectIdentities
  pub application_id : Text
  pub plugin_id : Text
  pub component_id : Text
  pub deployment_generation : Text
  pub artifact_digest : Text
  pub executor : ExecutorKind
  pub worker_id : Option Text
  pub execution_binding : Option JsonValue

-- An expected revision of "absent" is `none`.
pub record ReconcilePlanStep : Type 0 where
  pub identities : EffectIdentities
  pub deployment_generation : Text
  pub effect : ReconcileEffect
  pub expected_revision : Option Text
  pub current_lifecycle : ComponentLifecycleState
  pub legacy_activation : Bool

pub record ReconcileSnapshot : Type 0 where
  pub deployment : PluginDeployment
  pub gate : ArtifactDeploymentGate
  pub instances : List ComponentInstance
  pub now : Text
  pub supported_executors : List ExecutorKind
  pub workers : Option (List PlacementWorker)
  pub suspended : Bool
  pub activations : Text → Option Text

pub data PlanDiagnostic : Type 0 where
  gate_diagnostic : JsonValue → PlanDiagnostic
  placement_diagnostic : PlacementDiagnostic → PlanDiagnostic
  instance_inconsistent : (component_id : Text) → (instance_ids : List Text) → PlanDiagnostic

pub record ReconcilePlan : Type 0 where
  pub deployment_generation : Text
  pub blocked : Bool
  pub diagnostics : List PlanDiagnostic
  pub steps : List ReconcilePlanStep

-- `left !== undefined && left > right`, and its likes.
abbrev pub is_later : Option Text → Text → Bool
is_later none now = false
is_later (some at) now = before now at

-- The digest of a name's parts.
module _ (digest_of : List Text → Text) where
  abbrev pub step_identities :
      DeploymentIdentity
      → (component_id : Text) → ReconcileEffectKind
      → (activation : Text) → (legacy : Bool) → Outcome EffectIdentities
  step_identities d component_id kind activation true =
      legacy_reconcile_effect_identities digest_of d component_id kind
  step_identities d component_id kind activation false =
      reconcile_effect_identities digest_of d component_id kind activation

  unfoldable pub step :
      PluginDeployment
      → (component_id : Text) → ReconcileEffectKind
      → ComponentPlacement
      → (expected_revision : Option Text) → (current_lifecycle : ComponentLifecycleState)
      → (activation : Text) → (legacy_activation : Bool) → (execution_binding : Option JsonValue)
      → Outcome ReconcilePlanStep
  step deployment component_id kind placement expected current activation legacy binding = do
    identity ← step_identities deployment.identity component_id kind activation legacy
    ok (record {
      identities = identity;
      deployment_generation = deployment.identity.generation;
      effect = record {
        kind = kind;
        activation = activation;
        identities = identity;
        application_id = deployment.identity.application_id;
        plugin_id = deployment.identity.plugin_id;
        component_id = component_id;
        deployment_generation = deployment.identity.generation;
        artifact_digest = deployment.artifact_digest;
        executor = placement.executor;
        worker_id = placement.worker_id;
        execution_binding = binding;
      };
      expected_revision = expected;
      current_lifecycle = current;
      legacy_activation = legacy;
    })
