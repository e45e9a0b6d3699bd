-- ===== src/Reconcile/Identities.antt =====
-- packages/runtime/src/reconcile/plan.ts: the names of instances and of the operations on them.
pub mod Decoding
pub mod Distinct
use tego_next.Base.{
  ℕ, Text, text, Bool, true, false, ◌&&◌, ◌||◌, not, List, [], ◌∷◌, ◌++◌, leb, ltb, nat_beq, length,
  take, before, if◌then◌else◌, ok, err, ◌>>=◌, ◌>>◌, guard, map, some,
}
use tego_next.Contracts.Diagnostic.{Outcome, activation_invalid}
use tego_next.Contracts.Identity.{Unknown, decimal_pattern, uint64_max, parse_identity}

pub data ReconcileEffectKind : Type 0 where
  drain prepare start stop : ReconcileEffectKind

abbrev pub effect_text : ReconcileEffectKind → Text
effect_text drain = text "drain"
effect_text prepare = text "prepare"
effect_text start = text "start"
effect_text stop = text "stop"

is_activation : Text → Bool
unfolding decimal_pattern before
is_activation t =
    decimal_pattern t
    && (not (ltb (length uint64_max) (length t))
        && not (nat_beq (length t) (length uint64_max) && before uint64_max t))

unfoldable pub parse_activation : Text → Outcome Text
unfolding is_activation
parse_activation t = do guard (is_activation t) activation_invalid; ok t

-- `part.replaceAll("_", "_u").replaceAll(".", "_d")`.
abbrev replace_all : ℕ → Text → Text → Text
replace_all c new [] = []
replace_all c new (d ∷ rest) =
    let done = replace_all c new rest in if nat_beq d c then new ++ done else d ∷ done

unfoldable pub escape : Text → Text
escape part = replace_all b'.' (b'_' ∷ b'd' ∷ []) (replace_all b'_' (b'_' ∷ b'u' ∷ []) part)

-- `parts.join(".")`.
unfoldable pub join_dots : List Text → Text
join_dots [] = []
join_dots (t ∷ []) = t
join_dots (t ∷ u ∷ rest) = t ++ b'.' ∷ join_dots (u ∷ rest)

unfoldable pub stable_candidate : List Text → Text
unfolding escape join_dots
stable_candidate parts = join_dots (map escape parts)

-- What an identity is read from of a PluginDeployment.
pub record DeploymentIdentity : Type 0 where
  pub application_id : Text
  pub plugin_id : Text
  pub generation : Text

pub record EffectIdentities : Type 0 where
  pub instance_id : Text
  pub operation_id : Text
  pub message_id : Text

abbrev instance_parts : DeploymentIdentity → (component_id : Text) → List Text
instance_parts d component_id =
    d.application_id ∷ d.plugin_id ∷ component_id ∷ (b'g' ∷ d.generation) ∷ []

abbrev pub effect_parts :
    DeploymentIdentity
    → (component_id : Text) → (activation : Text) → ReconcileEffectKind
    → List Text
effect_parts d component_id activation kind =
    text "reconcile" ∷ instance_parts d component_id ++ (b'a' ∷ activation) ∷ effect_text kind ∷ []

-- `digest_of parts`: the SHA-256 digest, in hexadecimal, of the JSON text of the parts, as node's
-- `createHash` and `JSON.stringify` compute it.
module _ (digest_of : List Text → Text) where
  unfoldable pub portable_stable_id : List Text → Text
  unfolding stable_candidate
  portable_stable_id parts =
      let candidate = stable_candidate parts in
      if leb (length candidate) 128 then candidate else take 63 candidate ++ b'.' ∷ digest_of parts

  -- `parseOperationId` and `parseMessageId` are `parseIdentity`.
  abbrev effect_identities : (instance_id : Text) → (effect_id : Text) → Outcome EffectIdentities
  effect_identities instance_id effect_id = do
    operation ← parse_identity (some effect_id)
    message ← parse_identity (some effect_id)
    ok (record { instance_id = instance_id; operation_id = operation; message_id = message })

  unfoldable pub reconcile_effect_identities :
      DeploymentIdentity
      → (component_id : Text) → ReconcileEffectKind
      → (activation : Text) → Outcome EffectIdentities
  unfolding portable_stable_id
  reconcile_effect_identities d component_id kind activation = do
    canonical ← parse_activation activation
    effect_identities
        (portable_stable_id (instance_parts d component_id ++ (b'a' ∷ canonical) ∷ []))
        (portable_stable_id (effect_parts d component_id canonical kind))

  unfoldable pub legacy_reconcile_instance_id : DeploymentIdentity → (component_id : Text) → Text
  unfolding portable_stable_id
  legacy_reconcile_instance_id d component_id = portable_stable_id (instance_parts d component_id)

  unfoldable pub legacy_reconcile_effect_identities :
      DeploymentIdentity → (component_id : Text) → ReconcileEffectKind → Outcome EffectIdentities
  unfolding legacy_reconcile_instance_id portable_stable_id
  legacy_reconcile_effect_identities d component_id kind =
      effect_identities (legacy_reconcile_instance_id d component_id) (
        portable_stable_id
          (text "reconcile" ∷ instance_parts d component_id ++ effect_text kind ∷ []))
