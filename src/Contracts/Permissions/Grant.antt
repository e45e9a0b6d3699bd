-- ===== src/Contracts/Permissions/Grant.antt =====
-- packages/contracts/src/permission-grant.ts: `validatePermissionGrant`, which compares the
-- permissions granted to a plugin with those that its manifest requests.
pub mod Paths
use tego_next.Base.{
  ◌++◌, ℕ, Text, Bool, true, false, ◌&&◌, ◌||◌, List, [], ◌∷◌, Option, none, some, ok, err, all,
  any, leb, nat_beq, text_beq, text_eq, Map, get, if◌then◌else◌, ◌>>=◌,
}
use tego_next.Contracts.Diagnostic.{Code, Outcome, permission_grant_exceeds_request}
use tego_next.Selection.{ExecutorKind, has_kind, WorkerResourceCeilings}
use tego_next.Contracts.Permissions.{
  FilesystemAccess, same_access, CapabilityPermissionEntry, FilesystemRootPermission, Permission,
  capabilities, environments, executors, roots, networks, secrets, workers, kind_of,
  find_permission,
}
use tego_next.Contracts.Permissions.Input.{Input}
use tego_next.Contracts.Permissions.Names.{includes}
use tego_next.Contracts.Permissions.Canonical.{canonicalize_permission_set}

-- `containsAll(requested, granted)` on names, ports, executors and modes.
abbrev pub contains_all : List Text → List Text → Bool
contains_all requested granted = all (includes requested) granted

abbrev pub includes_port : List ℕ → ℕ → Bool
includes_port ports port = any (nat_beq port) ports

abbrev pub includes_access : List FilesystemAccess → FilesystemAccess → Bool
includes_access modes mode = any (same_access mode) modes

-- `target.startsWith(prefix)`.
unfoldable pub begins_with : (prefix : Text) → Text → Bool
begins_with [] target = true
begins_with (p ∷ prefix) [] = false
begins_with (p ∷ prefix) (c ∷ target) = nat_beq p c && begins_with prefix target

unfoldable pub contains_logical_path : (root : Text) → (target : Text) → Bool
unfolding begins_with
contains_logical_path root target =
    text_beq root (b'/' ∷ []) || (text_beq target root || begins_with (root ++ b'/' ∷ []) target)

-- `maximum.capabilities.find(...)`.
unfoldable pub find_entry : Text → List CapabilityPermissionEntry → Option CapabilityPermissionEntry
find_entry name [] = none
find_entry name (e ∷ es) =
    let rest = find_entry name es in if text_beq e.name name then some e else rest

abbrev pub entry_within : List CapabilityPermissionEntry → CapabilityPermissionEntry → Bool
entry_within maximum entry = elim (find_entry entry.name maximum) [
  | none ↦ false
  | some found ↦ contains_all found.methods entry.methods
]

abbrev pub root_within : List FilesystemRootPermission → FilesystemRootPermission → Bool
root_within maximum root =
    any
      (λ requested.
        contains_logical_path requested.path root.path
        && all (includes_access requested.access) root.access)
      maximum

abbrev pub has_label : Map Text Text → Text × Text → Bool
has_label labels (name, value) = elim (get name labels) [
  | none ↦ false
  | some found ↦ text_beq found value
]

abbrev pub fits : (resources : WorkerResourceCeilings) → (ceilings : WorkerResourceCeilings) → Bool
fits resources ceilings =
    leb resources.cpu_millis ceilings.cpu_millis
    && (leb resources.memory_bytes ceilings.memory_bytes
        && leb resources.storage_bytes ceilings.storage_bytes)

unfoldable pub category_subset : (requested : Permission) → (granted : Permission) → Bool
unfolding find_entry contains_logical_path
category_subset (capabilities maximum) (capabilities entries) = all (entry_within maximum) entries
category_subset (environments maximum) (environments names) = contains_all maximum names
category_subset (executors maximum) (executors kinds) = all (has_kind maximum) kinds
category_subset (roots maximum) (roots entries) = all (root_within maximum) entries
category_subset (networks hosts ports methods) (networks hosts' ports' methods') =
    contains_all hosts hosts' && (all (includes_port ports) ports' && contains_all methods methods')
category_subset (secrets maximum) (secrets names) = contains_all maximum names
category_subset (workers labels ceilings) (workers labels' ceilings') =
    all (has_label labels') labels && fits ceilings' ceilings
category_subset _ _ = false

pub record PermissionDecision : Type 0 where
  pub allowed : Bool
  pub diagnostics : List Code
  pub requested : Option (List Permission)
  pub granted : Option (List Permission)

-- The test in the loop over the granted permissions.
unfoldable pub is_within : (requested : List Permission) → Permission → Bool
unfolding category_subset find_permission
is_within requested p = elim (find_permission (kind_of p) requested) [
  | none ↦ false
  | some maximum ↦ category_subset maximum p
]

abbrev pub read_both :
    (domain_to_ascii : Text → Text) → Input → Input → Outcome (List Permission × List Permission)
read_both domain_to_ascii requested_input granted_input = do
  requested ← canonicalize_permission_set domain_to_ascii requested_input
  granted ← canonicalize_permission_set domain_to_ascii granted_input
  ok (requested, granted)

abbrev exceeded : Bool → List Code
exceeded true = []
exceeded false = permission_grant_exceeds_request ∷ []

-- The decision from what was read, or from the error thrown.
unfoldable pub decide_grant : Outcome (List Permission × List Permission) → PermissionDecision
unfolding is_within
decide_grant (err e) = record {
  allowed = false;
  diagnostics = e ∷ [];
  requested = none;
  granted = none;
}
decide_grant (ok (requested, granted)) =
    let within = all (is_within requested) granted in
    record {
      allowed = within;
      diagnostics = exceeded within;
      requested = some requested;
      granted = some granted;
    }

unfoldable pub validate_permission_grant :
    (domain_to_ascii : Text → Text) → Input → Input → PermissionDecision
unfolding decide_grant canonicalize_permission_set
validate_permission_grant domain_to_ascii requested_input granted_input =
    decide_grant (read_both domain_to_ascii requested_input granted_input)
