-- ===== src/Examples/Reconcile.antt =====
-- Permissions, placements and plans on concrete data.
use tego_next.Base.{
  Text, text, true, false, ◌≡◌, refl, List, [], ◌∷◌, ◌++◌, none, some, ok, err, All, all, filter,
  length, arith, sort_by, text_beq, before,
}
use tego_next.Contracts.Diagnostic.{Outcome}
use tego_next.Components.{ComponentLifecycleState, ready, stopped}
use tego_next.Selection.{process, remote, thread}
use tego_next.Reconcile.Placement.{
  PluginComponent, PlacementInput, allows_executor, plan_placement, placement_is_eligible,
  executor_preference,
}
use tego_next.Reconcile.Placement.Eligible.{planned_placement_is_eligible}
use tego_next.Reconcile.Placement.Preference.{plan_placement_prefers, executor_of, first_usable}
use tego_next.Reconcile.Identities.{
  DeploymentIdentity, EffectIdentities, start, reconcile_effect_identities, stable_candidate,
  parse_activation,
}
use tego_next.Reconcile.Identities.Distinct.{operations_are_distinct}
use tego_next.Contracts.Identity.{parse_identity}
use tego_next.Reconcile.Plan.Steps.{old_instance_step, current_instance_step}
use tego_next.Reconcile.Plan.{step, ComponentInstance, ReconcileSnapshot, ReconcilePlan, active}
use tego_next.Reconcile.Plan.Whole.{plan_reconcile, is_obsolete, own_instances}
use tego_next.Reconcile.Plan.Legal.{IsLegal}
use tego_next.Reconcile.Plan.Legal.Loops.{plan_reconcile-IsLegal}
use tego_next.Reconcile.Plan.Settled.{is_retired}
use tego_next.Reconcile.Plan.Settled.Idle.{are_settled, idle_plan_is_settled}
use tego_next.Contracts.Json.{JsonValue}
use tego_next.Contracts.Json.JsonValue.{string, array, object}
use tego_next.Contracts.Json.JsonArray.{nil, item}
use tego_next.Contracts.Json.JsonObject.{end, member}
use tego_next.Contracts.Permissions.Grant.{validate_permission_grant}
use tego_next.Contracts.Permissions.Gate.{gate_permission}
use tego_next.Contracts.Permissions.Gate.Grants.{grant_stays_within_request}

-- Names of ASCII letters stand for themselves.
abbrev ascii_host : Text → Text
ascii_host t = t

abbrev one : JsonValue → JsonValue
one v = array (item v nil)

-- [{"kind": "filesystem", "roots": [{"path": path, "access": ["read"]}]}]
abbrev reads_under : Text → JsonValue
reads_under path = one (
    object (
      member (text "kind") (string (text "filesystem")) (
        member (text "roots")
          (one (
            object (
              member (text "path") (string path)
                (member (text "access") (one (string (text "read"))) end))))
          end)))

abbrev read_call_of : Text → JsonValue
read_call_of path = object (
    member (text "kind") (string (text "filesystem"))
      (member (text "path") (string path) (member (text "access") (string (text "read")) end)))

grant_stays_within_request_example :
    (gate_permission ascii_host
      (some (reads_under (text "/a")))
      (some (read_call_of (text "/a/b/c")))).allowed
    ≡ true
unfolding validate_permission_grant gate_permission
grant_stays_within_request_example =
    grant_stays_within_request ascii_host (some (reads_under (text "/a")))
      (some (reads_under (text "/a/b"))) (some (read_call_of (text "/a/b/c"))) refl refl

-- [{"kind": "executor", "executors": ["process"]}]
abbrev process_granted : JsonValue
process_granted = one (
    object (
      member (text "kind") (string (text "executor"))
        (member (text "executors") (one (string (text "process"))) end)))

abbrev web : PluginComponent
web = record { component_id = text "web"; executors = remote ∷ process ∷ [] }

abbrev web_input : PlacementInput
web_input = record {
  artifact_digest = text "d";
  component = web;
  granted_permissions = process_granted;
  supported_executors = thread ∷ process ∷ [];
  workers = none;
}

planned_placement_is_eligible_example :
    placement_is_eligible ascii_host web_input (record { executor = process; worker_id = none })
    ≡ true
unfolding plan_placement allows_executor gate_permission
planned_placement_is_eligible_example =
    planned_placement_is_eligible ascii_host web_input
      (record { executor = process; worker_id = none }) refl

plan_placement_prefers_example :
    executor_of (plan_placement ascii_host web_input)
    ≡ first_usable ascii_host web_input executor_preference
plan_placement_prefers_example = plan_placement_prefers ascii_host web_input

-- A digest that is no digest; no name here is long enough for one.
abbrev no_digest : List Text → Text
no_digest parts = []

abbrev deployed : DeploymentIdentity
deployed = record {
  application_id = text "app";
  plugin_id = text "plugin.a";
  generation = text "2";
}

abbrev value_or {ℓ} : {A : Type ℓ} → A → Outcome A → A
value_or fallback (ok a) = a
value_or fallback (err e) = fallback

abbrev unnamed : EffectIdentities
unnamed = record { instance_id = []; operation_id = []; message_id = [] }

abbrev named : Outcome EffectIdentities
named = reconcile_effect_identities no_digest deployed (text "web") start (text "1")

operations_are_distinct_example :
    (deployed ≡ deployed)
    × (◌≡◌ {A = Text} (text "web") (text "web"))
    × (◌≡◌ {A = Text} (text "1") (text "1"))
    × (start ≡ start)
unfolding reconcile_effect_identities stable_candidate parse_activation parse_identity
operations_are_distinct_example =
    operations_are_distinct no_digest deployed deployed (text "web") (text "web") (text "1")
      (text "1") start start (value_or unnamed named) (value_or unnamed named) refl refl
      (omega arith) (omega arith) refl

abbrev web_instance : (generation : Text) → ComponentLifecycleState → ComponentInstance
web_instance generation lifecycle = record {
  instance_id = text "i" ++ generation;
  activation = text "1";
  legacy_activation = false;
  application_id = text "app";
  plugin_id = text "plugin.a";
  component_id = text "web";
  deployment_generation = generation;
  lifecycle = lifecycle;
  executor = process;
  worker_id = none;
  artifact_digest = none;
  execution_binding = none;
  retry_at = none;
  retry_effect = none;
  diagnostic_code = none;
  completed_operation_id = none;
  completed_operation_ids = [];
  revision = text "5";
}

abbrev snapshot_of : List ComponentInstance → ReconcileSnapshot
snapshot_of instances = record {
  deployment = record { identity = deployed; artifact_digest = text "d"; state = active };
  gate = record {
    components = web ∷ [];
    resolution_ok = true;
    resolution_diagnostics = [];
    permission_allowed = true;
    permission_diagnostics = [];
    permission_granted = some process_granted;
  };
  instances = instances;
  now = text "2026-01-01T00:00:00.000Z";
  supported_executors = process ∷ [];
  workers = none;
  suspended = false;
  activations = λ component_id. none;
}

abbrev no_plan : ReconcilePlan
no_plan = record { deployment_generation = []; blocked = true; diagnostics = []; steps = [] }

-- An older generation runs, and the deployed one has no instance.
abbrev rollout : ReconcileSnapshot
rollout = snapshot_of (web_instance (text "1") ready ∷ [])

abbrev rollout_plan : ReconcilePlan
rollout_plan = value_or no_plan (plan_reconcile ascii_host no_digest rollout)

rollout_has_two_steps : length rollout_plan.steps ≡ 2
unfolding plan_reconcile sort_by text_beq before old_instance_step plan_placement gate_permission
    current_instance_step step reconcile_effect_identities parse_activation parse_identity
rollout_has_two_steps = refl

plan_reconcile-IsLegal_example : All (IsLegal (own_instances rollout)) rollout_plan.steps
unfolding plan_reconcile sort_by text_beq before old_instance_step plan_placement gate_permission
    current_instance_step step reconcile_effect_identities parse_activation parse_identity
plan_reconcile-IsLegal_example =
    plan_reconcile-IsLegal ascii_host no_digest rollout rollout_plan refl

-- The old instance is stopped and the new one is ready.
abbrev rolled_out : ReconcileSnapshot
rolled_out = snapshot_of (web_instance (text "1") stopped ∷ web_instance (text "2") ready ∷ [])

idle_plan_is_settled_example :
    (all (is_retired rolled_out.now) (filter (is_obsolete rolled_out) (own_instances rolled_out))
      ≡ true)
    × (are_settled rolled_out ≡ true)
unfolding plan_reconcile sort_by text_beq before old_instance_step plan_placement gate_permission
    current_instance_step step reconcile_effect_identities parse_activation parse_identity
idle_plan_is_settled_example =
    idle_plan_is_settled ascii_host no_digest rolled_out
      (value_or no_plan (plan_reconcile ascii_host no_digest rolled_out)) refl refl refl
