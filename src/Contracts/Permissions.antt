-- ===== src/Contracts/Permissions.antt =====
-- packages/contracts/src/permission.ts: permissions, and the calls that they allow. The types of
-- TypeScript are structural; here a canonical permission is a value of `Permission`.
pub mod Input
pub mod Canonical
pub mod Grant
pub mod Gate
pub mod Names
use tego_next.Base.{ℕ, nat_beq, Text, Bool, List, Option, none, some, ◌∷◌, [], Map, if◌then◌else◌}
use tego_next.Selection.{ExecutorKind, WorkerResourceCeilings}

-- In the order of their names.
pub data PermissionKind : Type 0 where
  capability environment executor filesystem network secret worker : PermissionKind

abbrev pub kind_place : PermissionKind → ℕ
kind_place capability = 0
kind_place environment = 1
kind_place executor = 2
kind_place filesystem = 3
kind_place network = 4
kind_place secret = 5
kind_place worker = 6

abbrev pub same_kind : PermissionKind → PermissionKind → Bool
same_kind a b = nat_beq (kind_place a) (kind_place b)

pub data FilesystemAccess : Type 0 where
  read write : FilesystemAccess

abbrev pub access_place : FilesystemAccess → ℕ
access_place read = 0
access_place write = 1

abbrev pub same_access : FilesystemAccess → FilesystemAccess → Bool
same_access a b = nat_beq (access_place a) (access_place b)

pub record CapabilityPermissionEntry : Type 0 where
  pub name : Text
  pub methods : List Text

pub record FilesystemRootPermission : Type 0 where
  pub path : Text
  pub access : List FilesystemAccess

pub data Permission : Type 0 where
  capabilities : List CapabilityPermissionEntry → Permission
  environments : List Text → Permission
  executors : List ExecutorKind → Permission
  roots : List FilesystemRootPermission → Permission
  networks : (hosts : List Text) (ports : List ℕ) (methods : List Text) → Permission
  secrets : List Text → Permission
  workers : (labels : Map Text Text) → WorkerResourceCeilings → Permission

abbrev pub kind_of : Permission → PermissionKind
kind_of (capabilities entries) = capability
kind_of (environments names) = environment
kind_of (executors kinds) = executor
kind_of (roots entries) = filesystem
kind_of (networks hosts ports methods) = network
kind_of (secrets names) = secret
kind_of (workers labels resources) = worker

-- PermissionCallAttempt, packages/runtime/src/permissions/gate.ts.
pub data PermissionCallAttempt : Type 0 where
  call_capability : (name : Text) (method : Text) → PermissionCallAttempt
  call_environment : Text → PermissionCallAttempt
  call_executor : ExecutorKind → PermissionCallAttempt
  call_filesystem : (path : Text) → FilesystemAccess → PermissionCallAttempt
  call_network : (host : Text) (port : ℕ) (method : Text) → PermissionCallAttempt
  call_secret : Text → PermissionCallAttempt
  call_worker : (labels : Map Text Text) → WorkerResourceCeilings → PermissionCallAttempt

abbrev pub attempt_kind : PermissionCallAttempt → PermissionKind
attempt_kind (call_capability name method) = capability
attempt_kind (call_environment name) = environment
attempt_kind (call_executor kind) = executor
attempt_kind (call_filesystem path access) = filesystem
attempt_kind (call_network host port method) = network
attempt_kind (call_secret name) = secret
attempt_kind (call_worker labels resources) = worker

-- `permissions.find((candidate) => candidate.kind === kind)`.
unfoldable pub find_permission : PermissionKind → List Permission → Option Permission
find_permission kind [] = none
find_permission kind (p ∷ ps) =
    if same_kind (kind_of p) kind then some p else find_permission kind ps
