-- ===== src/Contracts/Permissions/Canonical/Rooted.antt =====
-- The file system roots of a canonical permission set begin with a slash.
use tego_next.Base.{
  Text, text, true, ◌≡◌, List, [], ◌∷◌, ok, >>=-eq-ok, ok-injective, subst, All, All-sort_by, not,
  guard->>-eq-ok, some, Option, none,
}
use tego_next.Contracts.Json.{JsonValue, JsonObject}
use tego_next.Contracts.Permissions.{
  PermissionKind, capability, environment, executor, filesystem, network, secret, worker,
  FilesystemRootPermission, Permission, roots,
}
use tego_next.Contracts.Permissions.Input.{
  Input, object_at, array_at, string_at, read_all, exact_keys, field,
}
use tego_next.Contracts.Permissions.Names.{
  starts_with_slash, canonical_root, includes, portable_name, environment_name,
}
use tego_next.Contracts.Permissions.Names.Rooted.{canonical_root-slash}
use tego_next.Contracts.Permissions.Canonical.{
  canonical_roots, canonical_filesystem, canonical_permission, canonical_permissions,
  canonicalize_permission_set, parse_kind, access_at, root_after, permission_after,
  canonical_capability, canonical_executor, canonical_network, canonical_worker, canonical_names,
}

abbrev pub HasSlash : FilesystemRootPermission → Type 0
HasSlash r = starts_with_slash r.path ≡ true

abbrev pub IsRooted : Permission → Type 0
IsRooted (roots entries) = All HasSlash entries
IsRooted _ = Unit

canonical_roots-HasSlash :
    (seen : List Text) (vs : List JsonValue) (rs : List FilesystemRootPermission)
    → canonical_roots seen vs ≡ ok rs
    → All HasSlash rs
unfolding canonical_roots
canonical_roots-HasSlash seen [] rs h = subst (All HasSlash) (ok-injective h) tt
canonical_roots-HasSlash seen (v ∷ vs) rs h =
    let (entry, _, h₁) = >>=-eq-ok (object_at (some v)) _ h in
    let (_, _, h₂) = >>=-eq-ok (exact_keys entry _) _ h₁ in
    let (path, p, h₃) = >>=-eq-ok (canonical_root (field (text "path") entry)) _ h₂ in
    let (_, h₄) = guard->>-eq-ok (not (includes seen path)) _ _ h₃ in
    let (values, _, h₅) = >>=-eq-ok (array_at (field (text "access") entry)) _ h₄ in
    let (modes, _, h₆) = >>=-eq-ok (read_all access_at values) _ h₅ in
    let (rest, r, h₇) = >>=-eq-ok (canonical_roots (path ∷ seen) vs) _ h₆ in
    subst (All HasSlash) (ok-injective h₇) (
      canonical_root-slash (field (text "path") entry) path p,
      canonical_roots-HasSlash (path ∷ seen) vs rest r,
    )

canonical_filesystem-HasSlash :
    (o : JsonObject) (rs : List FilesystemRootPermission)
    → canonical_filesystem o ≡ ok rs
    → All HasSlash rs
unfolding canonical_filesystem
canonical_filesystem-HasSlash o rs h =
    let (_, _, h₁) = >>=-eq-ok (exact_keys o _) _ h in
    let (values, _, h₂) = >>=-eq-ok (array_at (field (text "roots") o)) _ h₁ in
    let (entries, e, h₃) = >>=-eq-ok (canonical_roots [] values) _ h₂ in
    subst (All HasSlash) (ok-injective h₃)
      (All-sort_by root_after HasSlash entries (canonical_roots-HasSlash [] values entries e))

canonical_permission-IsRooted :
    (to_ascii : Text → Text) (kind : Option PermissionKind) (o : JsonObject) (p : Permission)
    → canonical_permission to_ascii kind o ≡ ok p
    → IsRooted p
unfolding canonical_permission
canonical_permission-IsRooted to_ascii none o p h = cc
canonical_permission-IsRooted to_ascii (some capability) o p h =
    let (_, _, e) = >>=-eq-ok (canonical_capability o) _ h in subst IsRooted (ok-injective e) tt
canonical_permission-IsRooted to_ascii (some environment) o p h =
    let (_, _, e) = >>=-eq-ok (canonical_names environment_name o) _ h in
    subst IsRooted (ok-injective e) tt
canonical_permission-IsRooted to_ascii (some secret) o p h =
    let (_, _, e) = >>=-eq-ok (canonical_names portable_name o) _ h in
    subst IsRooted (ok-injective e) tt
canonical_permission-IsRooted to_ascii (some executor) o p h =
    let (_, _, e) = >>=-eq-ok (canonical_executor o) _ h in subst IsRooted (ok-injective e) tt
canonical_permission-IsRooted to_ascii (some filesystem) o p h =
    let (rs, r, e) = >>=-eq-ok (canonical_filesystem o) _ h in
    subst IsRooted (ok-injective e) (canonical_filesystem-HasSlash o rs r)
canonical_permission-IsRooted to_ascii (some network) o p h =
    let (_, _, e) = >>=-eq-ok (canonical_network to_ascii o) _ h in
    subst IsRooted (ok-injective e) tt
canonical_permission-IsRooted to_ascii (some worker) o p h =
    let (_, _, e) = >>=-eq-ok (canonical_worker o) _ h in subst IsRooted (ok-injective e) tt

canonical_permissions-IsRooted :
    (to_ascii : Text → Text) (seen : List Text) (vs : List JsonValue) (ps : List Permission)
    → canonical_permissions to_ascii seen vs ≡ ok ps
    → All IsRooted ps
unfolding canonical_permissions
canonical_permissions-IsRooted to_ascii seen [] ps h = subst (All IsRooted) (ok-injective h) tt
canonical_permissions-IsRooted to_ascii seen (v ∷ vs) ps h =
    let (entry, _, h₁) = >>=-eq-ok (object_at (some v)) _ h in
    let (kind, _, h₂) = >>=-eq-ok (string_at (field (text "kind") entry)) _ h₁ in
    let (_, h₃) = guard->>-eq-ok (not (includes seen kind)) _ _ h₂ in
    let (p, e, h₄) = >>=-eq-ok (canonical_permission to_ascii (parse_kind kind) entry) _ h₃ in
    let (rest, r, h₅) = >>=-eq-ok (canonical_permissions to_ascii (kind ∷ seen) vs) _ h₄ in
    subst (All IsRooted) (ok-injective h₅) (
      canonical_permission-IsRooted to_ascii (parse_kind kind) entry p e,
      canonical_permissions-IsRooted to_ascii (kind ∷ seen) vs rest r,
    )

pub canonicalize_permission_set-IsRooted :
    (to_ascii : Text → Text) (input : Input) (ps : List Permission)
    → canonicalize_permission_set to_ascii input ≡ ok ps
    → All IsRooted ps
unfolding canonicalize_permission_set
canonicalize_permission_set-IsRooted to_ascii input ps h =
    let (values, _, h₁) = >>=-eq-ok (array_at input) _ h in
    let (entries, e, h₂) = >>=-eq-ok (canonical_permissions to_ascii [] values) _ h₁ in
    subst (All IsRooted) (ok-injective h₂) (
      All-sort_by permission_after IsRooted entries
        (canonical_permissions-IsRooted to_ascii [] values entries e))
