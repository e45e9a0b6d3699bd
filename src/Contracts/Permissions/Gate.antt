-- ===== src/Contracts/Permissions/Gate.antt =====
-- packages/runtime/src/permissions/gate.ts: `gatePermission`, which decides one call against the
-- permissions granted.
pub mod Within
pub mod Grants
use tego_next.Base.{
  ℕ, Text, text, Bool, true, false, ◌&&◌, List, [], ◌∷◌, Option, none, some, ok, err, all, any,
  if◌then◌else◌, text_beq, text_eq, ◌>>=◌, ◌>>◌, Map,
}
use tego_next.Contracts.Json.{JsonValue, JsonObject}
use tego_next.Contracts.Json.JsonValue.{string, array, object}
use tego_next.Contracts.Json.JsonArray.{nil, item}
use tego_next.Contracts.Json.JsonObject.{end, member}
use tego_next.Contracts.Diagnostic.{Code, Outcome, permission_grant_exceeds_request}
use tego_next.Selection.{ExecutorKind, process, has_kind, WorkerResourceCeilings}
use tego_next.Contracts.Permissions.{
  PermissionKind, capability, environment, executor, filesystem, network, secret, worker,
  FilesystemAccess, read, CapabilityPermissionEntry, FilesystemRootPermission, Permission,
  capabilities, environments, executors, roots, networks, secrets, workers, find_permission,
  PermissionCallAttempt, call_capability, call_environment, call_executor, call_filesystem,
  call_network, call_secret, call_worker, attempt_kind,
}
use tego_next.Contracts.Permissions.Input.{Input, invalid, object_at, string_at, field, exact_keys}
use tego_next.Contracts.Permissions.Names.{includes}
use tego_next.Contracts.Permissions.Canonical.{canonicalize_permission_set, parse_kind}
use tego_next.Contracts.Permissions.Grant.{
  includes_port, includes_access, contains_logical_path, has_label, fits,
}

-- A member that the check of the fields found present.
abbrev given : Input → Outcome JsonValue
given none = invalid
given (some v) = ok v

abbrev singleton : JsonValue → JsonValue
singleton v = array (item v nil)

abbrev with_kind : Text → JsonObject → JsonValue
with_kind kind rest = object (member (text "kind") (string kind) rest)

-- The permission set of one permission that allows just the call.
holder_input : PermissionKind → Text → JsonObject → Outcome JsonValue
unfolding exact_keys field
holder_input network kind call = do
  exact_keys call (text "host" ∷ text "kind" ∷ text "method" ∷ text "port" ∷ [])
  host ← given (field (text "host") call)
  port ← given (field (text "port") call)
  method ← given (field (text "method") call)
  ok (
      with_kind kind (
        member (text "hosts") (singleton host) (
          member (text "ports") (singleton port) (member (text "methods") (singleton method) end))))
holder_input filesystem kind call = do
  exact_keys call (text "access" ∷ text "kind" ∷ text "path" ∷ [])
  path ← given (field (text "path") call)
  access ← given (field (text "access") call)
  let root = member (text "path") path (member (text "access") (singleton access) end)
  ok (with_kind kind (member (text "roots") (singleton (object root)) end))
holder_input worker kind call = do
  exact_keys call (text "kind" ∷ text "labels" ∷ text "resources" ∷ [])
  labels ← given (field (text "labels") call)
  resources ← given (field (text "resources") call)
  ok (with_kind kind (member (text "labels") labels (member (text "resources") resources end)))
holder_input capability kind call = do
  exact_keys call (text "kind" ∷ text "method" ∷ text "name" ∷ [])
  name ← given (field (text "name") call)
  method ← given (field (text "method") call)
  let entry = member (text "name") name (member (text "methods") (singleton method) end)
  ok (with_kind kind (member (text "capabilities") (singleton (object entry)) end))
holder_input executor kind call = do
  exact_keys call (text "executor" ∷ text "kind" ∷ [])
  value ← given (field (text "executor") call)
  ok (with_kind kind (member (text "executors") (singleton value) end))
holder_input environment kind call = do
  exact_keys call (text "kind" ∷ text "name" ∷ [])
  name ← given (field (text "name") call)
  ok (with_kind kind (member (text "names") (singleton name) end))
holder_input secret kind call = do
  exact_keys call (text "kind" ∷ text "name" ∷ [])
  name ← given (field (text "name") call)
  ok (with_kind kind (member (text "names") (singleton name) end))

-- `values[0] ?? fallback`.
abbrev first_or {ℓ} : {A : Type ℓ} → A → List A → A
first_or fallback [] = fallback
first_or fallback (a ∷ as') = a

abbrev first_entry : List CapabilityPermissionEntry → Outcome PermissionCallAttempt
first_entry [] = invalid
first_entry (e ∷ es) = ok (call_capability e.name (first_or [] e.methods))

abbrev first_root : List FilesystemRootPermission → Outcome PermissionCallAttempt
first_root [] = invalid
first_root (r ∷ rs) = ok (call_filesystem r.path (first_or read r.access))

-- The `switch` on the kind of the holder.
unfoldable pub attempt_of : List Permission → Outcome PermissionCallAttempt
attempt_of [] = invalid
attempt_of (capabilities entries ∷ _) = first_entry entries
attempt_of (environments names ∷ _) = ok (call_environment (first_or [] names))
attempt_of (secrets names ∷ _) = ok (call_secret (first_or [] names))
attempt_of (executors kinds ∷ _) = ok (call_executor (first_or process kinds))
attempt_of (roots entries ∷ _) = first_root entries
attempt_of (networks hosts ports methods ∷ _) =
    ok (call_network (first_or [] hosts) (first_or 0 ports) (first_or [] methods))
attempt_of (workers labels resources ∷ _) = ok (call_worker labels resources)

abbrev expected_kind : Text → Outcome PermissionKind
expected_kind t = elim (parse_kind t) [ none ↦ invalid | some k ↦ ok k ]

unfoldable pub normalize_call :
    (domain_to_ascii : Text → Text) → Input → Outcome PermissionCallAttempt
unfolding attempt_of holder_input object_at string_at field canonicalize_permission_set parse_kind
normalize_call domain_to_ascii input = do
  call ← object_at input
  name ← string_at (field (text "kind") call)
  kind ← expected_kind name
  holder ← holder_input kind name call
  permissions ← canonicalize_permission_set domain_to_ascii (some (singleton holder))
  attempt_of permissions

-- Whether a permission of the call's kind allows it.
unfoldable pub allows : Permission → PermissionCallAttempt → Bool
unfolding contains_logical_path
allows (capabilities entries) (call_capability name method) =
    any (λ e. text_beq e.name name && includes e.methods method) entries
allows (environments names) (call_environment name) = includes names name
allows (secrets names) (call_secret name) = includes names name
allows (executors kinds) (call_executor kind) = has_kind kinds kind
allows (roots entries) (call_filesystem path access) =
    any (λ r. contains_logical_path r.path path && includes_access r.access access) entries
allows (networks hosts ports methods) (call_network host port method) =
    includes hosts host && (includes_port ports port && includes methods method)
allows (workers labels ceilings) (call_worker labels' resources) =
    all (has_label labels') labels && fits resources ceilings
allows _ _ = false

pub record PermissionGateDecision : Type 0 where
  pub allowed : Bool
  pub diagnostics : List Code

abbrev decision : Bool → PermissionGateDecision
decision true = record { allowed = true; diagnostics = [] }
decision false = record { allowed = false; diagnostics = permission_grant_exceeds_request ∷ [] }

unfoldable pub gate_attempt : List Permission → PermissionCallAttempt → PermissionGateDecision
unfolding allows find_permission
gate_attempt granted attempt = elim (find_permission (attempt_kind attempt) granted) [
  | none ↦ decision false
  | some p ↦ decision (allows p attempt)
]

abbrev read_call : (Text → Text) → Input → Input → Outcome (List Permission × PermissionCallAttempt)
read_call domain_to_ascii granted_input attempt_input = do
  granted ← canonicalize_permission_set domain_to_ascii granted_input
  attempt ← normalize_call domain_to_ascii attempt_input
  ok (granted, attempt)

unfoldable pub decide_call :
    Outcome (List Permission × PermissionCallAttempt) → PermissionGateDecision
unfolding gate_attempt
decide_call (err e) = record { allowed = false; diagnostics = e ∷ [] }
decide_call (ok (granted, attempt)) = gate_attempt granted attempt

unfoldable pub gate_permission :
    (domain_to_ascii : Text → Text) → Input → Input → PermissionGateDecision
unfolding normalize_call decide_call canonicalize_permission_set
gate_permission domain_to_ascii granted_input attempt_input =
    decide_call (read_call domain_to_ascii granted_input attempt_input)
