-- ===== src/Reconcile/Identities/Distinct.antt =====
-- Operations of different effects have different names.
use tego_next.Base.{
  ◌≤◌, Text, text, ◌≡◌, refl, ap, List, length, sym, ◌∙◌, ok, some, Option, none, text_beq,
  >>=-eq-ok, ok-injective, arith, if◌then◌else◌, Bool-cases, inl, inr, guard,
}
use tego_next.Contracts.Diagnostic.{activation_invalid}
use tego_next.Contracts.Identity.{parse_identity, identity_pattern}
use tego_next.Reconcile.Identities.{
  ReconcileEffectKind, drain, prepare, start, stop, effect_text, DeploymentIdentity,
  EffectIdentities, effect_parts, stable_candidate, portable_stable_id, reconcile_effect_identities,
  parse_activation, is_activation,
}
use tego_next.Reconcile.Identities.Decoding.{parts_of, parts_of-portable_stable_id}

effect_of : Text → Option ReconcileEffectKind
effect_of t =
    if text_beq t (text "drain")
    then some drain
    else if text_beq t (text "prepare")
    then some prepare
    else if text_beq t (text "start")
    then some start
    else if text_beq t (text "stop")
    then some stop
    else none

effect_of-text : (k : ReconcileEffectKind) → effect_of (effect_text k) ≡ some k
unfolding effect_of text_beq
effect_of-text drain = refl
effect_of-text prepare = refl
effect_of-text start = refl
effect_of-text stop = refl

effect_text_injective : (a b : ReconcileEffectKind) → effect_text a ≡ effect_text b → a ≡ b
effect_text_injective a b h =
    let same = sym (effect_of-text a) ∙ (ap effect_of h ∙ effect_of-text b) in cc

parse_identity-eq-ok : (t u : Text) → parse_identity (some t) ≡ ok u → u ≡ t
unfolding parse_identity
parse_identity-eq-ok t u h = elim (Bool-cases (identity_pattern t)) [
  | inl e ↦ ground arith
  | inr e ↦ ground arith
]

parse_activation-eq-ok : (t u : Text) → parse_activation t ≡ ok u → u ≡ t
unfolding parse_activation
parse_activation-eq-ok t u h =
    let (_, _, e) = >>=-eq-ok (guard (is_activation t) activation_invalid) _ h in
    sym (ok-injective e)

module _ (digest_of : List Text → Text) where
  operation_of :
      (d : DeploymentIdentity) (component_id activation : Text) (kind : ReconcileEffectKind)
      (i : EffectIdentities)
      → reconcile_effect_identities digest_of d component_id kind activation ≡ ok i
      → i.operation_id ≡ portable_stable_id digest_of (effect_parts d component_id activation kind)
  unfolding reconcile_effect_identities
  operation_of d component_id activation kind i h =
      let (canonical, c, h₁) = >>=-eq-ok (parse_activation activation) _ h in
      let same = parse_activation-eq-ok activation canonical c in
      let id = portable_stable_id digest_of (effect_parts d component_id canonical kind) in
      let (operation, o, h₂) = >>=-eq-ok (parse_identity (some id)) _ h₁ in
      let (message, m, h₃) = >>=-eq-ok (parse_identity (some id)) _ h₂ in
      sym (ap (λ j. j.operation_id) (ok-injective h₃))
      ∙ (parse_identity-eq-ok id operation o
          ∙ ap (λ a. portable_stable_id digest_of (effect_parts d component_id a kind)) same)

  parts_injective :
      (d e : DeploymentIdentity) (c b a₁ a₂ : Text) (k l : ReconcileEffectKind)
      → effect_parts d c a₁ k ≡ effect_parts e b a₂ l
      → (d ≡ e) × (c ≡ b) × (a₁ ≡ a₂) × (k ≡ l)
  parts_injective d e c b a₁ a₂ k l h = (cc h, cc h, cc h, effect_text_injective k l (cc h))

  -- When the stable names of two effects are not cut, the effects have the same operation name only
  -- if they are the same: the same deployment generation, component, activation and kind.
  pub operations_are_distinct :
      (d e : DeploymentIdentity) (c b a₁ a₂ : Text) (k l : ReconcileEffectKind)
      (i j : EffectIdentities)
      → reconcile_effect_identities digest_of d c k a₁ ≡ ok i
      → reconcile_effect_identities digest_of e b l a₂ ≡ ok j
      → length (stable_candidate (effect_parts d c a₁ k)) ≤ 128
      → length (stable_candidate (effect_parts e b a₂ l)) ≤ 128
      → i.operation_id ≡ j.operation_id
      → (d ≡ e) × (c ≡ b) × (a₁ ≡ a₂) × (k ≡ l)
  operations_are_distinct d e c b a₁ a₂ k l i j hi hj si sj same =
      parts_injective d e c b a₁ a₂ k l (
        sym (parts_of-portable_stable_id digest_of _ _ si)
        ∙ (ap parts_of (sym (operation_of d c a₁ k i hi) ∙ (same ∙ operation_of e b a₂ l j hj))
            ∙ parts_of-portable_stable_id digest_of _ _ sj))
