-- ===== src/Reconcile/Plan/Settled.antt =====
-- An instance or a component without a next step needs none.
pub mod Idle
use tego_next.Base.{
  Text, Bool, true, false, ◌≡◌, refl, List, [], ◌∷◌, ok, >>=-eq-ok, ok-injective, Option, none,
  some, is_some, by_branch, by_test, if◌then◌else◌, ◌&&◌, ◌||◌, not, arith, ◌∙◌, ap, Bool-cases,
  inl, inr,
}
use tego_next.Contracts.Diagnostic.{Outcome}
use tego_next.Components.{
  ComponentLifecycleState, created, preparing, starting, ready, degraded, draining, stopping,
  stopped, failed, state_beq,
}
use tego_next.Reconcile.Placement.{ComponentPlacement}
use tego_next.Reconcile.Identities.{ReconcileEffectKind, drain, prepare, stop}
use tego_next.Reconcile.Plan.{ComponentInstance, PluginDeployment, ReconcilePlanStep, step}
use tego_next.Reconcile.Plan.Steps.{
  optional_step, retiring_effect, old_instance_step, advancing_effect, current_instance_step,
  due_retry, is_drained, old_step, next_step, first_step, waits_for_restore,
}

-- An instance that is stopped, or has failed with no retry due.
abbrev pub is_retired : (now : Text) → ComponentInstance → Bool
is_retired now i =
    state_beq i.lifecycle stopped
    || (state_beq i.lifecycle failed && not (is_some (due_retry i now)))

-- An instance that is ready or degraded, has failed with no retry due, or waits for its restore.
abbrev pub is_settled : (now : Text) → Option ComponentInstance → Bool
is_settled now none = false
is_settled now (some i) =
    waits_for_restore i now
    || (state_beq i.lifecycle ready
        || (state_beq i.lifecycle degraded
            || (state_beq i.lifecycle failed && not (is_some (due_retry i now)))))

optional_step-none :
    (kind : Option ReconcileEffectKind) (make : ReconcileEffectKind → Outcome ReconcilePlanStep)
    → optional_step kind make ≡ ok none
    → kind ≡ none
optional_step-none none make h = refl
optional_step-none (some k) make h = let (s, _, e) = >>=-eq-ok (make k) _ h in cc

retiring_effect-none :
    (current : ComponentLifecycleState) (retry : Option ReconcileEffectKind)
    (drained : Outcome Bool)
    → retiring_effect current retry drained ≡ ok none
    → (state_beq current stopped || (state_beq current failed && not (is_some retry))) ≡ true
unfolding retiring_effect
retiring_effect-none stopped retry drained h = refl
retiring_effect-none failed none drained h = refl
retiring_effect-none failed (some k) drained h = cc
retiring_effect-none draining retry drained h =
    let (done, _, e) = >>=-eq-ok drained _ h in
    by_branch done (some stop) (some drain) (ok-injective e) (λ n. cc) (λ n. cc)
retiring_effect-none stopping retry drained h = cc
retiring_effect-none created retry drained h = cc
retiring_effect-none preparing retry drained h = cc
retiring_effect-none starting retry drained h = cc
retiring_effect-none ready retry drained h = cc
retiring_effect-none degraded retry drained h = cc

advancing_effect-none :
    (current : ComponentLifecycleState) (retry : Option ReconcileEffectKind)
    → state_beq current stopped ≡ false
    → advancing_effect current retry ≡ none
    → (state_beq current ready
        || (state_beq current degraded || (state_beq current failed && not (is_some retry))))
      ≡ true
unfolding advancing_effect
advancing_effect-none ready retry s h = refl
advancing_effect-none degraded retry s h = refl
advancing_effect-none failed none s h = refl
advancing_effect-none failed (some k) s h = cc
advancing_effect-none _ retry s h = cc

or_right : (a b : Bool) → b ≡ true → (a || b) ≡ true
or_right a b h = ground arith

module _ (digest_of : List Text → Text) where
  pub old_instance_step-none :
      (deployment : PluginDeployment) (i : ComponentInstance) (now : Text)
      → old_instance_step digest_of deployment i now ≡ ok none
      → is_retired now i ≡ true
  unfolding old_instance_step
  old_instance_step-none deployment i now h =
      let drained = is_drained digest_of deployment i in
      let (kind, e, h₁) = >>=-eq-ok (retiring_effect i.lifecycle (due_retry i now) drained) _ h in
      let nothing = optional_step-none kind (old_step digest_of deployment i) h₁ in
      retiring_effect-none i.lifecycle (due_retry i now) drained (e ∙ ap ok nothing)

  first_step-none :
      (deployment : PluginDeployment) (component_id : Text) (placement : ComponentPlacement)
      (activation : Text)
      → first_step digest_of deployment component_id placement activation ≡ ok none
      → some prepare ≡ none
  first_step-none deployment component_id placement activation h =
      let make = λ (k : ReconcileEffectKind).
        step digest_of deployment component_id k placement none created activation false none in
      optional_step-none (some prepare) make h

  pub current_instance_step-none :
      (deployment : PluginDeployment) (now : Text) (i : Option ComponentInstance)
      (component_id : Text) (placement : ComponentPlacement) (activation : Text)
      → current_instance_step digest_of deployment now i component_id placement activation ≡ ok none
      → is_settled now i ≡ true
  unfolding current_instance_step
  current_instance_step-none deployment now none component_id placement activation h =
      cc (first_step-none deployment component_id placement activation h)
  current_instance_step-none deployment now (some i) component_id placement activation h =
      by_test (waits_for_restore i now) (ok none) _ h (λ e _. rw e refl)
        (λ _ h₁.
          by_test (state_beq i.lifecycle stopped) _ _ h₁
            (λ _ f. cc (first_step-none deployment component_id placement activation f))
            (λ s f.
              let rests = advancing_effect-none i.lifecycle (due_retry i now) s (
                optional_step-none (advancing_effect i.lifecycle (due_retry i now))
                  (next_step digest_of deployment i component_id placement activation) f) in
              or_right (waits_for_restore i now) _ rests))
