-- ===== src/Reconcile/Plan/Legal.antt =====
-- Each step for an instance or a component continues its life cycle.
pub mod Loops
use tego_next.Base.{
  Text, Bool, true, false, ◌≡◌, refl, ap, List, [], ◌∷◌, ◌++◌, ok, err, >>=-eq-ok, ok-injective,
  Option, none, some, Option-cases, by_branch, filter, All, All-append, ◌⊎◌, inl, inr, Bool-cases,
  if◌then◌else◌, subst, sym, ◌∙◌, sort_by, ltb, length, ◌&&◌, not, ◌||◌, arith,
}
use tego_next.Contracts.Json.{JsonValue}
use tego_next.Contracts.Diagnostic.{Outcome}
use tego_next.Components.{
  ComponentLifecycleState, created, preparing, starting, ready, degraded, draining, stopping,
  stopped, failed, state_beq, transition_component_lifecycle,
}
use tego_next.Reconcile.Placement.{
  ComponentPlacement, PluginComponent, PlacementDiagnostic, plan_placement,
}
use tego_next.Reconcile.Identities.{ReconcileEffectKind, drain, prepare, start, stop}
use tego_next.Reconcile.Plan.{
  ComponentInstance, PluginDeployment, ReconcilePlanStep, ReconcileSnapshot, ReconcilePlan, step,
  step_identities,
}
use tego_next.Reconcile.Plan.Steps.{
  optional_step, retiring_effect, old_instance_step, advancing_effect, current_instance_step,
  due_retry, is_drained, old_step, next_step, first_step, waits_for_restore,
}
use tego_next.Reconcile.Plan.Whole.{
  Planned, accepted_placement, with_step, is_obsolete, obsolete_steps, place_component,
  component_step, component_steps, placement_input, active_steps, whole_plan, open_plan,
  plan_reconcile, own_instances, is_instance_of, activation_of, find_activation, is_active,
  inconsistent,
}

-- The state that an effect puts its component in.
abbrev pub state_during : ReconcileEffectKind → ComponentLifecycleState
state_during drain = draining
state_during prepare = preparing
state_during start = starting
state_during stop = stopping

-- An effect fits a state that it has already begun in, or may begin in.
abbrev pub Fits : ComponentLifecycleState → ReconcileEffectKind → Type 0
Fits current kind =
    (current ≡ state_during kind)
    ⊎ (transition_component_lifecycle current (state_during kind) ≡ ok (state_during kind))

-- The step is about the component, activation and generation.
pub record IsAbout (component_id activation generation : Text) (s : ReconcilePlanStep)
    : Type 0 where
  pub same_component : s.effect.component_id ≡ component_id
  pub same_activation : s.effect.activation ≡ activation
  pub same_generation : s.effect.deployment_generation ≡ generation

abbrev pub Concerns : ReconcilePlanStep → ComponentInstance → Type 0
Concerns s i = IsAbout i.component_id i.activation i.deployment_generation s

-- The step expects the instance's revision, and its effect fits the instance's life cycle.
abbrev pub Continues : ReconcilePlanStep → ComponentInstance → Type 0
Continues s i =
    Concerns s i × (s.expected_revision ≡ some i.revision) × Fits i.lifecycle s.effect.kind

-- The step prepares, and expects no revision.
abbrev pub Begins : ReconcilePlanStep → Type 0
Begins s = (s.effect.kind ≡ prepare) × (s.expected_revision ≡ none)

abbrev pub Any : {A : Type 0} (P : A → Type 0) → List A → Type 0
Any P [] = ⊥
Any P (x ∷ xs) = P x ⊎ Any P xs

-- The step continues one of the instances; or it begins anew, where one that it is about is stopped
-- or none is there that it is about.
abbrev pub IsLegal : List ComponentInstance → ReconcilePlanStep → Type 0
IsLegal is s =
    Any (Continues s) is
    ⊎ (Begins s
        × (Any (λ i. Concerns s i × (i.lifecycle ≡ stopped)) is ⊎ All (λ i. Concerns s i → ⊥) is))

abbrev FitsWhere : ComponentLifecycleState → Option ReconcileEffectKind → Type 0
FitsWhere current none = Unit
FitsWhere current (some kind) = Fits current kind

abbrev pub Where : (ReconcilePlanStep → Type 0) → Option ReconcilePlanStep → Type 0
Where P none = Unit
Where P (some s) = P s

pub Where-map :
    (P Q : ReconcilePlanStep → Type 0)
    → ((t : ReconcilePlanStep) → P t → Q t)
    → (s : Option ReconcilePlanStep) → Where P s
    → Where Q s
Where-map P Q f none h = tt
Where-map P Q f (some t) h = f t h

is_stopped : (s : ComponentLifecycleState) → state_beq s stopped ≡ true → s ≡ stopped
is_stopped stopped h = refl
is_stopped _ h = cc

-- A failed instance may be taken up by any effect.
failed-Fits : (retry : Option ReconcileEffectKind) → FitsWhere failed retry
unfolding transition_component_lifecycle
failed-Fits none = tt
failed-Fits (some drain) = inr refl
failed-Fits (some prepare) = inr refl
failed-Fits (some start) = inr refl
failed-Fits (some stop) = inr refl

advancing_effect-Fits :
    (current : ComponentLifecycleState) (retry : Option ReconcileEffectKind)
    → FitsWhere current (advancing_effect current retry)
unfolding advancing_effect transition_component_lifecycle
advancing_effect-Fits created retry = inr refl
advancing_effect-Fits preparing retry = inr refl
advancing_effect-Fits starting retry = inl refl
advancing_effect-Fits ready retry = tt
advancing_effect-Fits degraded retry = tt
advancing_effect-Fits draining retry = inr refl
advancing_effect-Fits stopping retry = inl refl
advancing_effect-Fits stopped retry = tt
advancing_effect-Fits failed retry = failed-Fits retry

draining-Fits : (done : Bool) → FitsWhere draining (if done then some stop else some drain)
unfolding transition_component_lifecycle
draining-Fits true = inr refl
draining-Fits false = inl refl

retiring_effect-Fits :
    (current : ComponentLifecycleState) (retry : Option ReconcileEffectKind)
    (drained : Outcome Bool) (kind : Option ReconcileEffectKind)
    → retiring_effect current retry drained ≡ ok kind
    → FitsWhere current kind
unfolding retiring_effect transition_component_lifecycle
retiring_effect-Fits failed retry drained kind h =
    subst (FitsWhere failed) (ok-injective h) (failed-Fits retry)
retiring_effect-Fits draining retry drained kind h =
    let (done, _, e) = >>=-eq-ok drained _ h in
    subst (FitsWhere draining) (ok-injective e) (draining-Fits done)
retiring_effect-Fits stopping retry drained kind h =
    subst (FitsWhere stopping) (ok-injective h) (inl refl)
retiring_effect-Fits stopped retry drained kind h = subst (FitsWhere stopped) (ok-injective h) tt
retiring_effect-Fits created retry drained kind h =
    subst (FitsWhere created) (ok-injective h) (inr refl)
retiring_effect-Fits preparing retry drained kind h =
    subst (FitsWhere preparing) (ok-injective h) (inr refl)
retiring_effect-Fits starting retry drained kind h =
    subst (FitsWhere starting) (ok-injective h) (inr refl)
retiring_effect-Fits ready retry drained kind h =
    subst (FitsWhere ready) (ok-injective h) (inr refl)
retiring_effect-Fits degraded retry drained kind h =
    subst (FitsWhere degraded) (ok-injective h) (inr refl)

-- The step for a component that has the instance, or has none.
abbrev pub Advances :
    PluginDeployment → Text → Text → Option ComponentInstance → ReconcilePlanStep → Type 0
Advances deployment component_id activation none t =
    IsAbout component_id activation deployment.identity.generation t × Begins t
Advances deployment component_id activation (some i) t =
    IsAbout component_id activation deployment.identity.generation t
    × (((t.expected_revision ≡ some i.revision) × Fits i.lifecycle t.effect.kind)
        ⊎ (Begins t × (i.lifecycle ≡ stopped)))

module _ (digest_of : List Text → Text) where
  -- What a step is made of.
  step-eq-ok :
      (deployment : PluginDeployment) (component_id : Text) (kind : ReconcileEffectKind)
      (placement : ComponentPlacement) (expected : Option Text) (current : ComponentLifecycleState)
      (activation : Text) (legacy : Bool) (binding : Option JsonValue) (s : ReconcilePlanStep)
      → step digest_of deployment component_id kind placement expected current activation legacy
          binding
        ≡ ok s
      → IsAbout component_id activation deployment.identity.generation s
        × (s.expected_revision ≡ expected)
        × (s.effect.kind ≡ kind)
  unfolding step
  step-eq-ok deployment component_id kind placement expected current activation legacy binding s h =
      let (_, _, e) =
        >>=-eq-ok
          (step_identities digest_of deployment.identity component_id kind activation legacy) _ h in
      subst
        (λ t.
          IsAbout component_id activation deployment.identity.generation t
          × (t.expected_revision ≡ expected)
          × (t.effect.kind ≡ kind))
        (ok-injective e)
        (
          record { same_component = refl; same_activation = refl; same_generation = refl },
          refl,
          refl,
        )

  -- A due step has a property when each step made for its effect has.
  optional_step-Where :
      (P : ReconcilePlanStep → Type 0) (kind : Option ReconcileEffectKind)
      (make : ReconcileEffectKind → Outcome ReconcilePlanStep) (current : ComponentLifecycleState)
      (s : Option ReconcilePlanStep)
      → ((k : ReconcileEffectKind) (t : ReconcilePlanStep) → make k ≡ ok t → Fits current k → P t)
      → FitsWhere current kind
      → optional_step kind make ≡ ok s
      → Where P s
  optional_step-Where P none make current s f fits h = subst (Where P) (ok-injective h) tt
  optional_step-Where P (some k) make current s f fits h =
      let (t, e, h₁) = >>=-eq-ok (make k) _ h in subst (Where P) (ok-injective h₁) (f k t e fits)

  pub old_instance_step-Where :
      (deployment : PluginDeployment) (i : ComponentInstance) (now : Text)
      (s : Option ReconcilePlanStep)
      → old_instance_step digest_of deployment i now ≡ ok s
      → Where (λ t. Continues t i) s
  unfolding old_instance_step
  old_instance_step-Where deployment i now s h =
      let (kind, e, h₁) =
        >>=-eq-ok
          (retiring_effect i.lifecycle (due_retry i now) (is_drained digest_of deployment i)) _ h in
      optional_step-Where (λ t. Continues t i) kind (old_step digest_of deployment i) i.lifecycle s
        (λ k t made fits.
          let (about, expected, same) = step-eq-ok _ _ k _ _ i.lifecycle _ _ _ t made in
          (about, expected, subst (Fits i.lifecycle) (sym same) fits))
        (retiring_effect-Fits i.lifecycle (due_retry i now) (is_drained digest_of deployment i) kind
          e)
        h₁

  first_step-Where :
      (deployment : PluginDeployment) (component_id : Text) (placement : ComponentPlacement)
      (activation : Text) (s : Option ReconcilePlanStep)
      → first_step digest_of deployment component_id placement activation ≡ ok s
      → Where (λ t. IsAbout component_id activation deployment.identity.generation t × Begins t) s
  first_step-Where deployment component_id placement activation s h =
      let (t, e, h₁) = >>=-eq-ok _ _ h in
      let (about, expected, same) =
        step-eq-ok deployment component_id prepare placement none created activation false none t
          e in
      subst
        (Where (λ u. IsAbout component_id activation deployment.identity.generation u × Begins u))
        (ok-injective h₁) (about, (same, expected))

  pub current_instance_step-Where :
      (deployment : PluginDeployment) (now : Text) (i : Option ComponentInstance)
      (component_id : Text) (placement : ComponentPlacement) (activation : Text)
      (s : Option ReconcilePlanStep)
      → current_instance_step digest_of deployment now i component_id placement activation ≡ ok s
      → Where (Advances deployment component_id activation i) s
  unfolding current_instance_step
  current_instance_step-Where deployment now none component_id placement activation s h =
      first_step-Where deployment component_id placement activation s h
  current_instance_step-Where deployment now (some i) component_id placement activation s h =
      by_branch (waits_for_restore i now) (ok none) _ h
        (λ e.
          subst (Where (Advances deployment component_id activation (some i))) (ok-injective e) tt)
        (λ h₁. elim (Bool-cases (state_beq i.lifecycle stopped)) [
          | inl e ↦
              let first =
                first_step-Where deployment component_id placement activation s (rw e at (h₁)) in
              Where-map _ _ (λ t (about, begins). (about, inr (begins, is_stopped i.lifecycle e))) s
                first
          | inr e ↦
              optional_step-Where (Advances deployment component_id activation (some i))
                (advancing_effect i.lifecycle (due_retry i now))
                (next_step digest_of deployment i component_id placement activation) i.lifecycle s
                (λ k t made fits.
                  let (about, expected, same) = step-eq-ok _ _ k _ _ i.lifecycle _ _ _ t made in
                  (about, inl (expected, subst (Fits i.lifecycle) (sym same) fits)))
                (advancing_effect-Fits i.lifecycle (due_retry i now)) (rw e at (h₁))
        ])
