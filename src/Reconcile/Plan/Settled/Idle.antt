-- ===== src/Reconcile/Plan/Settled/Idle.antt =====
-- A plan without steps leaves nothing to do.
use tego_next.Base.{
  Text, Bool, true, false, ◌≡◌, refl, List, [], ◌∷◌, ◌++◌, ok, >>=-eq-ok, ok-injective, Option,
  none, some, is_some, ap, ◌∙◌, sym, by_branch, by_test, if◌then◌else◌, ◌&&◌, ◌||◌, not, arith, all,
  filter, ltb, length, sort_by, insert_by, subst,
}
use tego_next.Reconcile.Placement.{
  ComponentPlacement, PluginComponent, PlacementDiagnostic, plan_placement,
}
use tego_next.Reconcile.Placement.Preference.{plan_placement-is_answer}
use tego_next.Reconcile.Plan.{
  ComponentInstance, ReconcilePlanStep, ReconcileSnapshot, ReconcilePlan,
}
use tego_next.Reconcile.Plan.Steps.{old_instance_step}
use tego_next.Reconcile.Plan.Settled.{
  is_retired, is_settled, old_instance_step-none, current_instance_step-none,
}
use tego_next.Reconcile.Plan.Whole.{
  Planned, accepted_placement, with_step, is_obsolete, obsolete_steps, place_component,
  component_step, component_steps, placement_input, active_steps, open_plan, plan_reconcile,
  own_instances, is_instance_of, activation_of, find_activation, is_active, inconsistent,
  component_after,
}

-- The instance that the plan takes for a component.
abbrev pub current_instance : ReconcileSnapshot → PluginComponent → Option ComponentInstance
current_instance q component =
    let current = filter (is_instance_of q component) (own_instances q) in
    find_activation (activation_of q component current) current

with_step-none :
    (s : Option ReconcilePlanStep) (rest : List ReconcilePlanStep)
    → with_step s rest ≡ []
    → (s ≡ none) × (rest ≡ [])
with_step-none none rest h = (refl, h)
with_step-none (some s) rest h = cc

append-none : (xs ys : List ReconcilePlanStep) → xs ++ ys ≡ [] → (xs ≡ []) × (ys ≡ [])
append-none [] ys h = (refl, h)
append-none (x ∷ xs) ys h = cc

module _ (test : PluginComponent → Bool) (after : PluginComponent → PluginComponent → Bool) where
  all-insert_by :
      (c : PluginComponent) (cs : List PluginComponent)
      → all test (insert_by after c cs) ≡ (test c && all test cs)
  unfolding insert_by
  all-insert_by c [] = refl
  all-insert_by c (d ∷ cs) = ground (arith, all-insert_by c cs)

  all-sort_by : (cs : List PluginComponent) → all test (sort_by after cs) ≡ all test cs
  unfolding sort_by
  all-sort_by [] = refl
  all-sort_by (c ∷ cs) = ground (arith, all-insert_by c (sort_by after cs), all-sort_by cs)

module _ (digest_of : List Text → Text) where
  obsolete_steps-none :
      (q : ReconcileSnapshot) (is : List ComponentInstance)
      → obsolete_steps digest_of q is ≡ ok []
      → all (is_retired q.now) (filter (is_obsolete q) is) ≡ true
  unfolding obsolete_steps
  obsolete_steps-none q [] h = refl
  obsolete_steps-none q (i ∷ is) h =
      let taken = old_instance_step digest_of q.deployment i q.now in
      let (s, e, h₁) = >>=-eq-ok (if is_obsolete q i then taken else ok none) _ h in
      let (rest, r, h₂) = >>=-eq-ok (obsolete_steps digest_of q is) _ h₁ in
      let (nothing, empty) = with_step-none s rest (ok-injective h₂) in
      let later = obsolete_steps-none q is (r ∙ ap ok empty) in
      by_test (is_obsolete q i) taken (ok none) e
        (λ o f.
          rw (o, old_instance_step-none digest_of q.deployment i q.now (f ∙ ap ok nothing)) later)
        (λ o _. rw o later)

  place_component-none :
      (q : ReconcileSnapshot) (component : PluginComponent) (diagnostics : List PlacementDiagnostic)
      (placement : ComponentPlacement) (planned : Planned)
      → place_component digest_of q component diagnostics (some placement) ≡ ok planned
      → planned.0 ≡ []
      → is_settled q.now (current_instance q component) ≡ true
  place_component-none q component diagnostics placement planned h k =
      let (s, e, h₁) = >>=-eq-ok (component_step digest_of q component placement) _ h in
      let (nothing, _) = with_step-none s [] (ap (λ p. p.0) (ok-injective h₁) ∙ k) in
      current_instance_step-none digest_of q.deployment q.now (current_instance q component)
        component.component_id placement
        (activation_of q component (filter (is_instance_of q component) (own_instances q)))
        (e ∙ ap ok nothing)

length-none : (ds : List PlacementDiagnostic) → ltb 0 (length ds) ≡ false → ds ≡ []
length-none [] h = refl
length-none (d ∷ ds) h = ground arith

unblocked :
    (blocked : Bool) (steps : List ReconcilePlanStep)
    → blocked ≡ false
    → (if blocked then [] else steps) ≡ []
    → steps ≡ []
unblocked true steps h k = cc
unblocked false steps h k = k

diagnostics-none : (xs ys : List PlacementDiagnostic) → xs ++ ys ≡ [] → (xs ≡ []) × (ys ≡ [])
diagnostics-none [] ys h = (refl, h)
diagnostics-none (x ∷ xs) ys h = cc

module _ (to_ascii : Text → Text) (digest_of : List Text → Text) where
  -- A component that has an answer without diagnostics is placed, and so settled without a step.
  component-none :
      (q : ReconcileSnapshot) (component : PluginComponent) (diagnostics : List PlacementDiagnostic)
      (placement : Option ComponentPlacement) (planned : Planned)
      → (is_some placement || ltb 0 (length diagnostics)) ≡ true
      → place_component digest_of q component diagnostics placement ≡ ok planned
      → planned.0 ≡ []
      → planned.1 ≡ []
      → is_settled q.now (current_instance q component) ≡ true
  component-none q component diagnostics (some placement) planned a h k l =
      place_component-none digest_of q component diagnostics placement planned h k
  component-none q component [] none planned a h k l = cc
  component-none q component (d ∷ ds) none planned a h k l =
      let none_left : ◌≡◌ {A = List PlacementDiagnostic} (d ∷ ds) [] =
        ap (λ p. p.1) (ok-injective h) ∙ l in
      cc

  component_steps-none :
      (q : ReconcileSnapshot) (components : List PluginComponent) (planned : Planned)
      → component_steps to_ascii digest_of q components ≡ ok planned
      → planned.0 ≡ []
      → planned.1 ≡ []
      → all (λ c. is_settled q.now (current_instance q c)) components ≡ true
  unfolding component_steps
  component_steps-none q [] planned h k l = refl
  component_steps-none q (component ∷ components) planned h k l =
      let decision = plan_placement to_ascii (placement_input q component) in
      let ((steps, diagnostics), e, h₁) =
        >>=-eq-ok
          (place_component digest_of q component decision.diagnostics (accepted_placement decision))
          _ h in
      let ((more, others), r, h₂) =
        >>=-eq-ok (component_steps to_ascii digest_of q components) _ h₁ in
      let (k₁, k₂) = append-none steps more (ap (λ p. p.0) (ok-injective h₂) ∙ k) in
      let (l₁, l₂) = diagnostics-none diagnostics others (ap (λ p. p.1) (ok-injective h₂) ∙ l) in
      rw
        (component-none q component decision.diagnostics (accepted_placement decision)
          (steps, diagnostics) (plan_placement-is_answer to_ascii (placement_input q component)) e
          k₁ l₁)
        (component_steps-none q components (more, others) r k₂ l₂)

-- The components of an active deployment that is not suspended are settled; another has none to
-- bring on.
abbrev pub are_settled : ReconcileSnapshot → Bool
are_settled q =
    if is_active q.deployment.state && not q.suspended
    then all (λ c. is_settled q.now (current_instance q c)) q.gate.components
    else true

module _ (to_ascii : Text → Text) (digest_of : List Text → Text) where
  active_steps-none :
      (q : ReconcileSnapshot) (planned : Planned)
      → active_steps to_ascii digest_of q ≡ ok planned
      → planned.0 ≡ []
      → planned.1 ≡ []
      → are_settled q ≡ true
  active_steps-none q planned h k l =
      by_test (is_active q.deployment.state && not q.suspended) _ _ h
        (λ b e. rw b (
          sym (
            all-sort_by (λ c. is_settled q.now (current_instance q c)) component_after
              q.gate.components)
          ∙ component_steps-none to_ascii digest_of q (sort_by component_after q.gate.components)
              planned e k l))
        (λ b _. rw b refl)

  abbrev IsQuiet : ReconcilePlan → Type 0
  IsQuiet plan = (plan.blocked ≡ false) × (plan.steps ≡ [])

  abbrev IsIdle : ReconcileSnapshot → Type 0
  IsIdle q =
      (all (is_retired q.now) (filter (is_obsolete q) (own_instances q)) ≡ true)
      × (are_settled q ≡ true)

  open_plan-none :
      (q : ReconcileSnapshot) (plan : ReconcilePlan)
      → open_plan to_ascii digest_of q ≡ ok plan
      → IsQuiet plan
      → IsIdle q
  open_plan-none q plan h quiet =
      let (obsolete, e, h₁) = >>=-eq-ok (obsolete_steps digest_of q (own_instances q)) _ h in
      let ((steps, diagnostics), f, h₂) = >>=-eq-ok (active_steps to_ascii digest_of q) _ h₁ in
      let (free, empty) = subst IsQuiet (sym (ok-injective h₂)) quiet in
      let (o, s) =
        append-none obsolete steps (unblocked (ltb 0 (length diagnostics)) _ free empty) in
      (
        obsolete_steps-none digest_of q (own_instances q) (e ∙ ap ok o),
        active_steps-none q (steps, diagnostics) f s (length-none diagnostics free),
      )

  -- When `planReconcile` returns a plan that is not blocked and has no step, nothing is left to do:
  -- each obsolete instance of the application (of another generation, or any one of a deployment
  -- that is disabled or suspended) is stopped, or has failed with no retry due; and each component
  -- of an active deployment that is not suspended has an instance that is ready or degraded, has
  -- failed with no retry due, or waits to be restored.
  pub idle_plan_is_settled :
      (q : ReconcileSnapshot) (plan : ReconcilePlan)
      → plan_reconcile to_ascii digest_of q ≡ ok plan
      → plan.blocked ≡ false
      → plan.steps ≡ []
      → (all (is_retired q.now) (filter (is_obsolete q) (own_instances q)) ≡ true)
        × (are_settled q ≡ true)
  unfolding plan_reconcile
  idle_plan_is_settled q plan h k l =
      by_branch (not q.gate.resolution_ok || not q.gate.permission_allowed) _ _ h
        (λ e. cc (ap (λ p. p.blocked) (ok-injective e) ∙ k))
        (λ h₁.
          by_branch (ltb 0 (length (inconsistent q q.gate.components))) _ _ h₁
            (λ e. cc (ap (λ p. p.blocked) (ok-injective e) ∙ k))
            (λ e. open_plan-none q plan e (k, l)))
