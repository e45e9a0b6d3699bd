-- ===== src/Contracts/Permissions/Canonical.antt =====
-- packages/contracts/src/permission-grant.ts: `canonicalizePermissionSet`. `domainToASCII` is
-- node's, from node:url.
pub mod Rooted
use tego_next.Base.{
  before, ℕ, Text, text, Bool, true, false, ◌||◌, ◌&&◌, not, List, [], ◌∷◌, leb, ltb, nat_beq, any,
  text_beq, text_eq, sort_by, if◌then◌else◌, ok, err, ◌>>=◌, ◌>>◌, Option, none, some, Map, set,
  get,
}
use tego_next.Contracts.Json.{JsonValue, JsonObject}
use tego_next.Contracts.Json.JsonValue.{number, string, object}
use tego_next.Contracts.Identity.{decimal_pattern, decimal_value}
use tego_next.Contracts.Diagnostic.{Outcome}
use tego_next.Selection.{ExecutorKind, process, remote, thread, kind_index, WorkerResourceCeilings}
use tego_next.Contracts.Permissions.{
  PermissionKind, capability, environment, executor, filesystem, network, secret, worker,
  kind_place, FilesystemAccess, read, write, access_place, CapabilityPermissionEntry,
  FilesystemRootPermission, Permission, capabilities, environments, executors, roots, networks,
  secrets, workers, kind_of,
}
use tego_next.Contracts.Permissions.Input.{
  invalid, check, object_at, keys, field, exact_keys, array_at, string_at, read_all, sorted_unique,
  text_after, Input,
}
use tego_next.Contracts.Permissions.Names.{
  includes, portable_name, environment_name, canonical_host, canonical_root, canonical_method,
  natural_at, port_at,
}

canonical_methods : Input → Outcome (List Text)
unfolding array_at canonical_method read_all sorted_unique before
canonical_methods v = do
  values ← array_at v
  methods ← read_all canonical_method values
  ok (sorted_unique text_after methods)

canonical_names : (Input → Outcome Text) → JsonObject → Outcome (List Text)
unfolding array_at exact_keys field read_all sorted_unique before
canonical_names parse_name o = do
  exact_keys o (text "kind" ∷ text "names" ∷ [])
  values ← array_at (field (text "names") o)
  names ← read_all parse_name values
  ok (sorted_unique text_after names)

canonical_entries : (seen : List Text) → List JsonValue → Outcome (List CapabilityPermissionEntry)
unfolding array_at exact_keys field text_beq object_at portable_name read_all sorted_unique before
canonical_entries seen [] = ok []
canonical_entries seen (v ∷ vs) = do
  entry ← object_at (some v)
  exact_keys entry (text "methods" ∷ text "name" ∷ [])
  name ← portable_name (field (text "name") entry)
  check (not (includes seen name))
  values ← array_at (field (text "methods") entry)
  methods ← read_all portable_name values
  rest ← canonical_entries (name ∷ seen) vs
  ok (record { name = name; methods = sorted_unique text_after methods } ∷ rest)

abbrev entry_after : CapabilityPermissionEntry → CapabilityPermissionEntry → Bool
entry_after left right = text_after left.name right.name

-- The readers of one kind return the permission without its kind, which `canonical_permission`
-- adds.
canonical_capability : JsonObject → Outcome (List CapabilityPermissionEntry)
unfolding array_at canonical_entries before exact_keys field sort_by
canonical_capability o = do
  exact_keys o (text "capabilities" ∷ text "kind" ∷ [])
  values ← array_at (field (text "capabilities") o)
  entries ← canonical_entries [] values
  ok (sort_by entry_after entries)

unfoldable pub parse_executor : Text → Option ExecutorKind
unfolding text_beq
parse_executor t =
    if text_beq t (text "process")
    then some process
    else if text_beq t (text "remote")
    then some remote
    else if text_beq t (text "thread")
    then some thread
    else none

executor_at : Input → Outcome ExecutorKind
unfolding parse_executor string_at
executor_at v = do t ← string_at v; elim (parse_executor t) [ none ↦ invalid | some k ↦ ok k ]

canonical_executor : JsonObject → Outcome (List ExecutorKind)
unfolding array_at exact_keys executor_at field read_all sorted_unique
canonical_executor o = do
  exact_keys o (text "executors" ∷ text "kind" ∷ [])
  values ← array_at (field (text "executors") o)
  kinds ← read_all executor_at values
  ok (sorted_unique (λ a b. ltb (kind_index b) (kind_index a)) kinds)

canonical_network :
    (domain_to_ascii : Text → Text) → JsonObject → Outcome (List Text × List ℕ × List Text)
unfolding array_at canonical_host canonical_methods exact_keys field port_at read_all sorted_unique
    before
canonical_network domain_to_ascii o = do
  exact_keys o (text "hosts" ∷ text "kind" ∷ text "methods" ∷ text "ports" ∷ [])
  host_values ← array_at (field (text "hosts") o)
  hosts ← read_all (canonical_host domain_to_ascii) host_values
  port_values ← array_at (field (text "ports") o)
  ports ← read_all port_at port_values
  methods ← canonical_methods (field (text "methods") o)
  ok (sorted_unique text_after hosts, sorted_unique (λ a b. ltb b a) ports, methods)

parse_access : Text → Outcome FilesystemAccess
unfolding text_beq
parse_access t =
    if text_beq t (text "read")
    then ok read
    else if text_beq t (text "write")
    then ok write
    else invalid

access_at : Input → Outcome FilesystemAccess
unfolding parse_access string_at
access_at v = do t ← string_at v; parse_access t

canonical_roots : (seen : List Text) → List JsonValue → Outcome (List FilesystemRootPermission)
unfolding access_at array_at canonical_root exact_keys field text_beq object_at read_all
    sorted_unique
canonical_roots seen [] = ok []
canonical_roots seen (v ∷ vs) = do
  entry ← object_at (some v)
  exact_keys entry (text "access" ∷ text "path" ∷ [])
  path ← canonical_root (field (text "path") entry)
  check (not (includes seen path))
  values ← array_at (field (text "access") entry)
  modes ← read_all access_at values
  let access = sorted_unique (λ a b. ltb (access_place b) (access_place a)) modes
  rest ← canonical_roots (path ∷ seen) vs
  ok (record { path = path; access = access } ∷ rest)

abbrev root_after : FilesystemRootPermission → FilesystemRootPermission → Bool
root_after left right = text_after left.path right.path

canonical_filesystem : JsonObject → Outcome (List FilesystemRootPermission)
unfolding array_at canonical_roots exact_keys field before sort_by
canonical_filesystem o = do
  exact_keys o (text "kind" ∷ text "roots" ∷ [])
  values ← array_at (field (text "roots") o)
  entries ← canonical_roots [] values
  ok (sort_by root_after entries)

canonical_labels : List Text → JsonObject → Map Text Text → Outcome (Map Text Text)
unfolding field portable_name set
canonical_labels [] source labels = ok labels
canonical_labels (k ∷ ks) source labels = do
  name ← portable_name (some (string k))
  value ← portable_name (field k source)
  canonical_labels ks source (set name value labels)

canonical_resources : Input → Outcome WorkerResourceCeilings
unfolding exact_keys field natural_at object_at
canonical_resources v = do
  resources ← object_at v
  exact_keys resources (text "cpuMillis" ∷ text "memoryBytes" ∷ text "storageBytes" ∷ [])
  cpu ← natural_at (field (text "cpuMillis") resources)
  memory ← natural_at (field (text "memoryBytes") resources)
  storage ← natural_at (field (text "storageBytes") resources)
  ok (record { cpu_millis = cpu; memory_bytes = memory; storage_bytes = storage })

canonical_worker : JsonObject → Outcome (Map Text Text × WorkerResourceCeilings)
unfolding canonical_labels canonical_resources exact_keys field keys object_at sort_by before
canonical_worker o = do
  exact_keys o (text "kind" ∷ text "labels" ∷ text "resources" ∷ [])
  source ← object_at (field (text "labels") o)
  labels ← canonical_labels (sort_by text_after (keys source)) source []
  ceilings ← canonical_resources (field (text "resources") o)
  ok (labels, ceilings)

unfoldable pub parse_kind : Text → Option PermissionKind
unfolding text_beq
parse_kind t =
    if text_beq t (text "capability")
    then some capability
    else if text_beq t (text "environment")
    then some environment
    else if text_beq t (text "executor")
    then some executor
    else if text_beq t (text "filesystem")
    then some filesystem
    else if text_beq t (text "network")
    then some network
    else if text_beq t (text "secret")
    then some secret
    else if text_beq t (text "worker")
    then some worker
    else none

-- The `switch` on the kind.
canonical_permission : (Text → Text) → Option PermissionKind → JsonObject → Outcome Permission
unfolding canonical_capability canonical_executor canonical_filesystem canonical_names
    canonical_network canonical_worker environment_name portable_name
canonical_permission to_ascii none o = invalid
canonical_permission to_ascii (some capability) o = do
  entries ← canonical_capability o
  ok (capabilities entries)
canonical_permission to_ascii (some environment) o = do
  names ← canonical_names environment_name o
  ok (environments names)
canonical_permission to_ascii (some secret) o = do
  names ← canonical_names portable_name o
  ok (secrets names)
canonical_permission to_ascii (some executor) o = do
  kinds ← canonical_executor o
  ok (executors kinds)
canonical_permission to_ascii (some filesystem) o = do
  entries ← canonical_filesystem o
  ok (roots entries)
canonical_permission to_ascii (some network) o = do
  (hosts, ports, methods) ← canonical_network to_ascii o
  ok (networks hosts ports methods)
canonical_permission to_ascii (some worker) o = do
  (labels, ceilings) ← canonical_worker o
  ok (workers labels ceilings)

canonical_permissions :
    (Text → Text) → (seen : List Text) → List JsonValue → Outcome (List Permission)
unfolding canonical_permission field text_beq object_at parse_kind string_at
canonical_permissions to_ascii seen [] = ok []
canonical_permissions to_ascii seen (v ∷ vs) = do
  entry ← object_at (some v)
  kind ← string_at (field (text "kind") entry)
  check (not (includes seen kind))
  permission ← canonical_permission to_ascii (parse_kind kind) entry
  rest ← canonical_permissions to_ascii (kind ∷ seen) vs
  ok (permission ∷ rest)

abbrev permission_after : Permission → Permission → Bool
permission_after left right = ltb (kind_place (kind_of right)) (kind_place (kind_of left))

unfoldable pub canonicalize_permission_set :
    (domain_to_ascii : Text → Text) → Input → Outcome (List Permission)
unfolding array_at canonical_permissions sort_by
canonicalize_permission_set domain_to_ascii input = do
  entries ← array_at input
  permissions ← canonical_permissions domain_to_ascii [] entries
  ok (sort_by permission_after permissions)
