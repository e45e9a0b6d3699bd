-- ===== src/Reconcile/Plan/Legal/Loops.antt =====
-- The steps of the loops, and of the plan.
use tego_next.Base.{
  Text, Bool, true, false, ◌≡◌, refl, List, [], ◌∷◌, ◌++◌, ok, >>=-eq-ok, ok-injective, Option,
  none, some, by_branch, filter, All, All-append, sym, ◌∙◌, Bool-cases, inl, inr, text_beq,
  text_beq_iff, text_eq, neq_ne, and_split, if◌then◌else◌, subst, ltb, length, ◌&&◌, not, ◌||◌,
}
use tego_next.Reconcile.Placement.{
  ComponentPlacement, PluginComponent, PlacementDiagnostic, plan_placement,
}
use tego_next.Components.{stopped}
use tego_next.Reconcile.Plan.{
  ComponentInstance, ReconcilePlanStep, ReconcileSnapshot, ReconcilePlan,
}
use tego_next.Reconcile.Plan.Steps.{old_instance_step}
use tego_next.Reconcile.Plan.Whole.{
  Planned, accepted_placement, with_step, is_obsolete, obsolete_steps, place_component,
  component_step, component_steps, placement_input, active_steps, whole_plan, open_plan,
  plan_reconcile, own_instances, is_instance_of, activation_of, find_activation, is_active,
  inconsistent,
}
use tego_next.Reconcile.Plan.Legal.{
  IsLegal, IsAbout, Concerns, Continues, Any, Where, Where-map, Advances, old_instance_step-Where,
  current_instance_step-Where,
}

Any-map :
    {A : Type 0} {P Q : A → Type 0} (xs : List A) → ((x : A) → P x → Q x) → Any P xs → Any Q xs
Any-map (x ∷ xs) f (inl h) = inl (f x h)
Any-map (x ∷ xs) f (inr h) = inr (Any-map xs f h)
Any-map [] f h = absurd h

-- The instance that is found is the component's, of the current generation and of the activation.
found_instance :
    (q : ReconcileSnapshot) (component : PluginComponent) (activation : Text)
    (is : List ComponentInstance) (i : ComponentInstance)
    → find_activation activation (filter (is_instance_of q component) is) ≡ some i
    → (i.component_id ≡ component.component_id)
      × (i.deployment_generation ≡ q.deployment.identity.generation)
      × (i.activation ≡ activation)
      × Any (λ j. j ≡ i) is
found_instance q component activation [] i h = cc
found_instance q component activation (j ∷ is) i h =
    elim (Bool-cases (is_instance_of q component j)) [
      | inl e ↦ elim (Bool-cases (text_beq j.activation activation)) [
        | inl a ↦
            let one : ◌≡◌ {A = Option ComponentInstance} (some j) (some i) = rw (e, a) at (h) in
            let same : j ≡ i = cc one in
            let (c, g) = and_split (text_beq j.component_id component.component_id) _ e in
            let component_same = (text_beq_iff j.component_id component.component_id).0 c in
            let generation_same =
              (text_beq_iff j.deployment_generation q.deployment.identity.generation).0 g in
            let activation_same = (text_beq_iff j.activation activation).0 a in
            subst
              (λ k.
                (k.component_id ≡ component.component_id)
                × (k.deployment_generation ≡ q.deployment.identity.generation)
                × (k.activation ≡ activation)
                × Any (λ l. l ≡ k) (j ∷ is))
              same (component_same, generation_same, activation_same, inl refl)
        | inr a ↦
            let (c, g, b, m) = found_instance q component activation is i (rw (e, a) at (h)) in
            (c, g, b, inr m)
      ]
      | inr e ↦
          let (c, g, b, m) = found_instance q component activation is i (rw e at (h)) in
          (c, g, b, inr m)
    ]

-- Where none is found, no instance is the component's, of that generation and activation.
no_instance :
    (q : ReconcileSnapshot) (component : PluginComponent) (activation : Text)
    (s : ReconcilePlanStep) (is : List ComponentInstance)
    → find_activation activation (filter (is_instance_of q component) is) ≡ none
    → IsAbout component.component_id activation q.deployment.identity.generation s
    → All (λ i. Concerns s i → ⊥) is
no_instance q component activation s [] h a = tt
no_instance q component activation s (j ∷ is) h a =
    elim (Bool-cases (is_instance_of q component j)) [
      | inl e ↦ elim (Bool-cases (text_beq j.activation activation)) [
        | inl b ↦
            let impossible : ◌≡◌ {A = Option ComponentInstance} (some j) none = rw (e, b) at (h) in
            cc impossible
        | inr b ↦ (
          λ k. neq_ne j.activation activation b (sym k.same_activation ∙ a.same_activation),
          no_instance q component activation s is (rw (e, b) at (h)) a,
        )
      ]
      | inr e ↦ (
        λ k.
            let c =
              (text_beq_iff j.component_id component.component_id).1
                (sym k.same_component ∙ a.same_component) in
            let g =
              (text_beq_iff j.deployment_generation q.deployment.identity.generation).1
                (sym k.same_generation ∙ a.same_generation) in
            cc (e, c, g),
        no_instance q component activation s is (rw e at (h)) a,
      )
    ]

advanced-IsLegal :
    (q : ReconcileSnapshot) (component : PluginComponent) (activation : Text)
    (is : List ComponentInstance) (o : Option ComponentInstance) (s : ReconcilePlanStep)
    → find_activation activation (filter (is_instance_of q component) is) ≡ o
    → Advances q.deployment component.component_id activation o s
    → IsLegal is s
advanced-IsLegal q component activation is none s h (about, begins) =
    inr (begins, inr (no_instance q component activation s is h about))
advanced-IsLegal q component activation is (some i) s h (about, how) =
    let (c, g, a, m) = found_instance q component activation is i h in
    let concerns : Concerns s i = record {
      same_component = about.same_component ∙ sym c;
      same_activation = about.same_activation ∙ sym a;
      same_generation = about.same_generation ∙ sym g;
    } in
    elim how [
      | inl (expected, fits) ↦
          inl (Any-map is (λ j e. subst (Continues s) (sym e) (concerns, expected, fits)) m)
      | inr (begins, over) ↦ inr (
        begins,
        inl (
            Any-map is
              (λ j e. subst (λ k. Concerns s k × (k.lifecycle ≡ stopped)) (sym e) (concerns, over))
              m),
      )
    ]

module _ (digest_of : List Text → Text) where
  with_step-IsLegal :
      (is : List ComponentInstance) (s : Option ReconcilePlanStep) (rest : List ReconcilePlanStep)
      → Where (IsLegal is) s
      → All (IsLegal is) rest
      → All (IsLegal is) (with_step s rest)
  with_step-IsLegal is none rest h k = k
  with_step-IsLegal is (some s) rest h k = (h, k)

  -- The steps for the instances `is`, which are some of `all_of_them`.
  obsolete_steps-IsLegal :
      (q : ReconcileSnapshot) (all_of_them is : List ComponentInstance)
      (steps : List ReconcilePlanStep)
      → ((P : ComponentInstance → Type 0) → Any P is → Any P all_of_them)
      → obsolete_steps digest_of q is ≡ ok steps
      → All (IsLegal all_of_them) steps
  unfolding obsolete_steps
  obsolete_steps-IsLegal q all_of_them [] steps among h =
      subst (All (IsLegal all_of_them)) (ok-injective h) tt
  obsolete_steps-IsLegal q all_of_them (i ∷ is) steps among h =
      let taken = old_instance_step digest_of q.deployment i q.now in
      let (s, e, h₁) = >>=-eq-ok (if is_obsolete q i then taken else ok none) _ h in
      let (rest, r, h₂) = >>=-eq-ok (obsolete_steps digest_of q is) _ h₁ in
      let legal : Where (IsLegal all_of_them) s =
        by_branch (is_obsolete q i) taken (ok none) e
          (λ t.
            Where-map (λ u. Continues u i) (IsLegal all_of_them)
              (λ u c. inl (among (Continues u) (inl c))) s
              (old_instance_step-Where digest_of q.deployment i q.now s t))
          (λ n. subst (Where (IsLegal all_of_them)) (ok-injective n) tt) in
      subst (All (IsLegal all_of_them)) (ok-injective h₂) (
        with_step-IsLegal all_of_them s rest legal
          (obsolete_steps-IsLegal q all_of_them is rest (λ P m. among P (inr m)) r))

  place_component-IsLegal :
      (q : ReconcileSnapshot) (component : PluginComponent) (diagnostics : List PlacementDiagnostic)
      (placement : Option ComponentPlacement) (planned : Planned)
      → place_component digest_of q component diagnostics placement ≡ ok planned
      → All (IsLegal (own_instances q)) planned.0
  place_component-IsLegal q component diagnostics none planned h =
      subst (λ p. All (IsLegal (own_instances q)) p.0) (ok-injective h) tt
  place_component-IsLegal q component diagnostics (some placement) planned h =
      let current = filter (is_instance_of q component) (own_instances q) in
      let activation = activation_of q component current in
      let (s, e, h₁) = >>=-eq-ok (component_step digest_of q component placement) _ h in
      let found = find_activation activation current in
      subst (λ p. All (IsLegal (own_instances q)) p.0) (ok-injective h₁)
        (with_step-IsLegal (own_instances q) s []
          (Where-map (Advances q.deployment component.component_id activation found)
            (IsLegal (own_instances q))
            (λ t. advanced-IsLegal q component activation (own_instances q) found t refl) s
            (current_instance_step-Where digest_of q.deployment q.now found component.component_id
              placement activation s e))
          tt)

kept :
    (q : ReconcileSnapshot) (blocked : Bool) (steps : List ReconcilePlanStep)
    → All (IsLegal (own_instances q)) steps
    → All (IsLegal (own_instances q)) (if blocked then [] else steps)
kept q true steps h = tt
kept q false steps h = h

whole_plan-IsLegal :
    (q : ReconcileSnapshot) (obsolete : List ReconcilePlanStep) (planned : Planned)
    → All (IsLegal (own_instances q)) obsolete
    → All (IsLegal (own_instances q)) planned.0
    → All (IsLegal (own_instances q)) (whole_plan q obsolete planned).steps
whole_plan-IsLegal q obsolete (steps, diagnostics) h k =
    kept q (ltb 0 (length diagnostics)) (obsolete ++ steps)
      (All-append (IsLegal (own_instances q)) obsolete steps h k)

module _ (to_ascii : Text → Text) (digest_of : List Text → Text) where
  component_steps-IsLegal :
      (q : ReconcileSnapshot) (components : List PluginComponent) (planned : Planned)
      → component_steps to_ascii digest_of q components ≡ ok planned
      → All (IsLegal (own_instances q)) planned.0
  unfolding component_steps
  component_steps-IsLegal q [] planned h =
      subst (λ p. All (IsLegal (own_instances q)) p.0) (ok-injective h) tt
  component_steps-IsLegal q (component ∷ components) planned h =
      let decision = plan_placement to_ascii (placement_input q component) in
      let ((steps, diagnostics), e, h₁) =
        >>=-eq-ok
          (place_component digest_of q component decision.diagnostics (accepted_placement decision))
          _ h in
      let ((more, others), r, h₂) =
        >>=-eq-ok (component_steps to_ascii digest_of q components) _ h₁ in
      subst (λ p. All (IsLegal (own_instances q)) p.0) (ok-injective h₂)
        (All-append (IsLegal (own_instances q)) steps more
          (place_component-IsLegal digest_of q component decision.diagnostics
            (accepted_placement decision) (steps, diagnostics) e)
          (component_steps-IsLegal q components (more, others) r))

  active_steps-IsLegal :
      (q : ReconcileSnapshot) (planned : Planned)
      → active_steps to_ascii digest_of q ≡ ok planned
      → All (IsLegal (own_instances q)) planned.0
  active_steps-IsLegal q planned h =
      by_branch (is_active q.deployment.state && not q.suspended) _ _ h
        (component_steps-IsLegal q _ planned)
        (λ e. subst (λ p. All (IsLegal (own_instances q)) p.0) (ok-injective e) tt)

  open_plan-IsLegal :
      (q : ReconcileSnapshot) (plan : ReconcilePlan)
      → open_plan to_ascii digest_of q ≡ ok plan
      → All (IsLegal (own_instances q)) plan.steps
  open_plan-IsLegal q plan h =
      let (obsolete, e, h₁) = >>=-eq-ok (obsolete_steps digest_of q (own_instances q)) _ h in
      let (planned, f, h₂) = >>=-eq-ok (active_steps to_ascii digest_of q) _ h₁ in
      subst (λ p. All (IsLegal (own_instances q)) p.steps) (ok-injective h₂)
        (whole_plan-IsLegal q obsolete planned
          (obsolete_steps-IsLegal digest_of q (own_instances q) (own_instances q) obsolete
            (λ P m. m) e)
          (active_steps-IsLegal q planned f))

  -- Each step of a plan that `planReconcile` returns continues the life cycle of an instance of the
  -- application that has the step's component, activation and generation: it expects the
  -- instance's revision, and the instance is in the state that the effect works in (draining,
  -- preparing, starting or stopping), or `transitionComponentLifecycle` allows it to go there. Or
  -- it begins anew: it prepares and expects no revision, where an instance with the step's
  -- component, activation and generation is stopped, or where there is none.
  pub plan_reconcile-IsLegal :
      (q : ReconcileSnapshot) (plan : ReconcilePlan)
      → plan_reconcile to_ascii digest_of q ≡ ok plan
      → All (IsLegal (own_instances q)) plan.steps
  unfolding plan_reconcile
  plan_reconcile-IsLegal q plan h =
      by_branch (not q.gate.resolution_ok || not q.gate.permission_allowed) _ _ h
        (λ e. subst (λ p. All (IsLegal (own_instances q)) p.steps) (ok-injective e) tt)
        (λ h₁.
          by_branch (ltb 0 (length (inconsistent q q.gate.components))) _ _ h₁
            (λ e. subst (λ p. All (IsLegal (own_instances q)) p.steps) (ok-injective e) tt)
            (open_plan-IsLegal q plan))
