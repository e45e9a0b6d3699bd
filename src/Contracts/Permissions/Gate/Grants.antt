-- ===== src/Contracts/Permissions/Gate/Grants.antt =====
-- The gate after a valid grant.
use tego_next.Base.{
  Text, text, true, ◌≡◌, refl, List, ok, err, all, >>=-eq-ok, ok-injective, some, subst, sym, ◌∙◌,
  All, [], ◌∷◌,
}
use tego_next.Contracts.Diagnostic.{Outcome}
use tego_next.Contracts.Permissions.{
  Permission, PermissionCallAttempt, capabilities, environments, executors, roots, networks,
  secrets, workers,
}
use tego_next.Contracts.Permissions.Input.{Input, object_at, string_at, field}
use tego_next.Contracts.Permissions.Canonical.{canonicalize_permission_set}
use tego_next.Contracts.Permissions.Canonical.Rooted.{
  canonicalize_permission_set-IsRooted, IsRooted,
}
use tego_next.Contracts.Permissions.Grant.{
  validate_permission_grant, is_within, read_both, decide_grant,
}
use tego_next.Contracts.Permissions.Gate.{
  gate_permission, gate_attempt, decide_call, normalize_call, attempt_of, read_call, holder_input,
  expected_kind, singleton,
}
use tego_next.Contracts.Permissions.Gate.Within.{IsAbsolute, within-gate_attempt}

attempt_of-IsAbsolute :
    (ps : List Permission) (attempt : PermissionCallAttempt)
    → All IsRooted ps
    → attempt_of ps ≡ ok attempt
    → IsAbsolute attempt
unfolding attempt_of
attempt_of-IsAbsolute [] attempt r h = cc
attempt_of-IsAbsolute (capabilities [] ∷ ps) attempt r h = cc
attempt_of-IsAbsolute (capabilities (e ∷ es) ∷ ps) attempt r h =
    subst IsAbsolute (ok-injective h) tt
attempt_of-IsAbsolute (environments ns ∷ ps) attempt r h = subst IsAbsolute (ok-injective h) tt
attempt_of-IsAbsolute (secrets ns ∷ ps) attempt r h = subst IsAbsolute (ok-injective h) tt
attempt_of-IsAbsolute (executors ks ∷ ps) attempt r h = subst IsAbsolute (ok-injective h) tt
attempt_of-IsAbsolute (roots [] ∷ ps) attempt r h = cc
attempt_of-IsAbsolute (roots (e ∷ es) ∷ ps) attempt r h = subst IsAbsolute (ok-injective h) r.0.0
attempt_of-IsAbsolute (networks a b c ∷ ps) attempt r h = subst IsAbsolute (ok-injective h) tt
attempt_of-IsAbsolute (workers l c ∷ ps) attempt r h = subst IsAbsolute (ok-injective h) tt

normalize_call-IsAbsolute :
    (to_ascii : Text → Text) (input : Input) (attempt : PermissionCallAttempt)
    → normalize_call to_ascii input ≡ ok attempt
    → IsAbsolute attempt
unfolding normalize_call
normalize_call-IsAbsolute to_ascii input attempt h =
    let (call, _, h₁) = >>=-eq-ok (object_at input) _ h in
    let (name, _, h₂) = >>=-eq-ok (string_at (field (text "kind") call)) _ h₁ in
    let (kind, _, h₃) = >>=-eq-ok (expected_kind name) _ h₂ in
    let (holder, _, h₄) = >>=-eq-ok (holder_input kind name call) _ h₃ in
    let (ps, e, h₅) =
      >>=-eq-ok (canonicalize_permission_set to_ascii (some (singleton holder))) _ h₄ in
    attempt_of-IsAbsolute ps attempt
      (canonicalize_permission_set-IsRooted to_ascii (some (singleton holder)) ps e) h₅

-- An allowed grant: both sets are read, and each granted permission is within the request.
decide_grant-allowed :
    (r : Outcome (List Permission × List Permission))
    → (decide_grant r).allowed ≡ true
    → (rs : List Permission) × (gs : List Permission) × (r ≡ ok (rs, gs))
      × (all (is_within rs) gs ≡ true)
unfolding decide_grant
decide_grant-allowed (ok (rs, gs)) h = (rs, gs, refl, h)
decide_grant-allowed (err e) h = cc

decide_call-allowed :
    (r : Outcome (List Permission × PermissionCallAttempt))
    → (decide_call r).allowed ≡ true
    → (gs : List Permission) × (attempt : PermissionCallAttempt) × (r ≡ ok (gs, attempt))
      × ((gate_attempt gs attempt).allowed ≡ true)
unfolding decide_call
decide_call-allowed (ok (gs, attempt)) h = (gs, attempt, refl, h)
decide_call-allowed (err e) h = cc

read_both-ok :
    (to_ascii : Text → Text) (requested granted : Input) (rs gs : List Permission)
    → read_both to_ascii requested granted ≡ ok (rs, gs)
    → (canonicalize_permission_set to_ascii requested ≡ ok rs)
      × (canonicalize_permission_set to_ascii granted ≡ ok gs)
read_both-ok to_ascii requested granted rs gs h =
    let (r, f, h₁) = >>=-eq-ok (canonicalize_permission_set to_ascii requested) _ h in
    let (g, k, h₂) = >>=-eq-ok (canonicalize_permission_set to_ascii granted) _ h₁ in
    (cc (f, ok-injective h₂), cc (k, ok-injective h₂))

read_call-ok :
    (to_ascii : Text → Text) (granted call : Input) (gs : List Permission)
    (attempt : PermissionCallAttempt)
    → read_call to_ascii granted call ≡ ok (gs, attempt)
    → (canonicalize_permission_set to_ascii granted ≡ ok gs)
      × (normalize_call to_ascii call ≡ ok attempt)
read_call-ok to_ascii granted call gs attempt h =
    let (g, f, h₁) = >>=-eq-ok (canonicalize_permission_set to_ascii granted) _ h in
    let (a, k, h₂) = >>=-eq-ok (normalize_call to_ascii call) _ h₁ in
    (cc (f, ok-injective h₂), cc (k, ok-injective h₂))

-- When `validatePermissionGrant` allows the permissions granted against those requested, every
-- call that `gatePermission` allows under the permissions granted it also allows under those
-- requested.
pub grant_stays_within_request :
    (to_ascii : Text → Text) (requested granted call : Input)
    → (validate_permission_grant to_ascii requested granted).allowed ≡ true
    → (gate_permission to_ascii granted call).allowed ≡ true
    → (gate_permission to_ascii requested call).allowed ≡ true
unfolding validate_permission_grant gate_permission decide_call
grant_stays_within_request to_ascii requested granted call h k =
    let (rs, gs, e, w) = decide_grant-allowed (read_both to_ascii requested granted) h in
    let (gs', attempt, f, a) = decide_call-allowed (read_call to_ascii granted call) k in
    let (e₁, e₂) = read_both-ok to_ascii requested granted rs gs e in
    let (f₁, f₂) = read_call-ok to_ascii granted call gs' attempt f in
    let same : gs' ≡ gs = ok-injective (sym f₁ ∙ e₂) in
    let kept = subst (λ ps. (gate_attempt ps attempt).allowed ≡ true) same a in
    rw (e₁, f₂)
      (within-gate_attempt rs gs attempt (normalize_call-IsAbsolute to_ascii call attempt f₂) w
        kept)
