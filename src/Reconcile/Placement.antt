-- ===== src/Reconcile/Placement.antt =====
-- packages/runtime/src/reconcile/placement.ts: the choice of an executor, and of a worker, for a
-- component. The permissions and a worker's labels and resources are the JSON data that the gate
-- reads.
pub mod Eligible
pub mod Preference
use tego_next.Base.{
  Text, text, Bool, true, false, ◌&&◌, not, List, [], ◌∷◌, Option, none, some, any, filter,
  text_beq, text_eq, before, sort_by, if◌then◌else◌,
}
use tego_next.Contracts.Json.{JsonValue}
use tego_next.Contracts.Json.JsonValue.{string, object}
use tego_next.Contracts.Json.JsonObject.{end, member}
use tego_next.Contracts.Diagnostic.{
  Code, permission_grant_exceeds_request, deployment_executor_unavailable,
}
use tego_next.Contracts.Permissions.Names.{includes}
use tego_next.Contracts.Permissions.Gate.{gate_permission}
use tego_next.Selection.{ExecutorKind, process, remote, thread, kind_beq, has_kind}

pub record PlacementWorker : Type 0 where
  pub worker_id : Text
  pub labels : JsonValue
  pub resources : JsonValue
  pub executors : List ExecutorKind
  pub prepared_artifacts : List Text

pub record ComponentPlacement : Type 0 where
  pub executor : ExecutorKind
  pub worker_id : Option Text

pub record PlacementDiagnostic : Type 0 where
  pub code : Code
  pub component_id : Text

-- What placement reads of a PluginComponent.
pub record PluginComponent : Type 0 where
  pub component_id : Text
  pub executors : List ExecutorKind

pub record PlacementInput : Type 0 where
  pub artifact_digest : Text
  pub component : PluginComponent
  pub granted_permissions : JsonValue
  pub supported_executors : List ExecutorKind
  pub workers : Option (List PlacementWorker)

pub record PlacementDecision : Type 0 where
  pub ok : Bool
  pub diagnostics : List PlacementDiagnostic
  pub placement : Option ComponentPlacement

-- executorPreference.
abbrev pub executor_preference : List ExecutorKind
executor_preference = process ∷ thread ∷ remote ∷ []

abbrev pub executor_text : ExecutorKind → Text
executor_text process = text "process"
executor_text remote = text "remote"
executor_text thread = text "thread"

abbrev executor_call : ExecutorKind → JsonValue
executor_call kind = object (
    member (text "kind") (string (text "executor"))
      (member (text "executor") (string (executor_text kind)) end))

abbrev worker_call : PlacementWorker → JsonValue
worker_call w = object (
    member (text "kind") (string (text "worker"))
      (member (text "labels") w.labels (member (text "resources") w.resources end)))

abbrev pub workers_of : PlacementInput → List PlacementWorker
workers_of input = elim input.workers [ none ↦ [] | some ws ↦ ws ]

abbrev worker_after : PlacementWorker → PlacementWorker → Bool
worker_after left right = before right.worker_id left.worker_id

abbrev placed : ComponentPlacement → PlacementDecision
placed p = record { ok = true; diagnostics = []; placement = some p }

abbrev pub unplaced : PlacementInput → (permission_denied : Bool) → PlacementDecision
unplaced input permission_denied = record {
  ok = false;
  diagnostics =
      record {
        code =
            (if permission_denied
              then permission_grant_exceeds_request
              else deployment_executor_unavailable);
        component_id = input.component.component_id;
      }
      ∷ [];
  placement = none;
}

abbrev pub on_worker : Option PlacementWorker → PlacementDecision → PlacementDecision
on_worker none rest = rest
on_worker (some w) rest = placed (record { executor = remote; worker_id = some w.worker_id })

abbrev pub same_worker : Option Text → Option Text → Bool
same_worker none none = true
same_worker (some a) (some b) = text_beq a b
same_worker _ _ = false

-- `worker.workerId === expected.workerId`.
abbrev pub is_worker : Option Text → PlacementWorker → Bool
is_worker id w = same_worker (some w.worker_id) id

abbrev pub only_worker : PlacementInput → ComponentPlacement → Option (List PlacementWorker)
only_worker input expected =
    if kind_beq expected.executor remote
    then some (filter (is_worker expected.worker_id) (workers_of input))
    else input.workers

abbrev pub is_placement : PlacementDecision → ComponentPlacement → Bool
is_placement d expected = elim d.placement [
  | none ↦ false
  | some p ↦
      d.ok && (kind_beq p.executor expected.executor && same_worker p.worker_id expected.worker_id)
]

-- `domainToASCII` is node's; the gate takes it.
module _ (domain_to_ascii : Text → Text) where
  unfoldable pub allows_executor : PlacementInput → ExecutorKind → Bool
  allows_executor input kind =
      let call = some (executor_call kind) in
      (gate_permission domain_to_ascii (some input.granted_permissions) call).allowed

  unfoldable pub accepts_worker : PlacementInput → PlacementWorker → Bool
  accepts_worker input w =
      let call = some (worker_call w) in
      includes w.prepared_artifacts input.artifact_digest
      && (any (has_kind input.component.executors) w.executors
          && (gate_permission domain_to_ascii (some input.granted_permissions) call).allowed)

  -- The loop over the sorted workers.
  unfoldable pub first_worker : PlacementInput → List PlacementWorker → Option PlacementWorker
  first_worker input [] = none
  first_worker input (w ∷ ws) =
      let rest = first_worker input ws in if accepts_worker input w then some w else rest

  -- The body of the loop for an executor that is allowed; `rest` is what the loop goes on with.
  abbrev place_on : PlacementInput → ExecutorKind → PlacementDecision → PlacementDecision
  place_on input remote rest =
      on_worker (first_worker input (sort_by worker_after (workers_of input))) rest
  place_on input kind rest = placed (record { executor = kind; worker_id = none })

  -- The loop over the executors, in order of preference.
  unfoldable pub place :
      PlacementInput → List ExecutorKind → (permission_denied : Bool) → PlacementDecision
  unfolding allows_executor first_worker
  place input [] permission_denied = unplaced input permission_denied
  place input (kind ∷ kinds) permission_denied =
      let denied = place input kinds true in
      let rest = place input kinds permission_denied in
      if not (has_kind input.component.executors kind && has_kind input.supported_executors kind)
      then rest
      else if not (allows_executor input kind)
      then denied
      else place_on input kind rest

  unfoldable pub plan_placement : PlacementInput → PlacementDecision
  unfolding place
  plan_placement input = place input executor_preference false

  unfoldable pub placement_is_eligible : PlacementInput → ComponentPlacement → Bool
  unfolding plan_placement
  placement_is_eligible input expected =
      if not (has_kind input.supported_executors expected.executor)
      then false
      else is_placement
          (plan_placement (record input {
            supported_executors = expected.executor ∷ [];
            workers = only_worker input expected;
          }))
          expected
