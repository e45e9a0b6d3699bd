-- ===== src/Reconcile/Placement/Eligible.antt =====
-- A planned placement is eligible again.
use tego_next.Base.{
  Text, Bool, true, false, ◌≡◌, refl, List, [], ◌∷◌, arith, any, filter, ◌&&◌, ◌||◌, Option, none,
  some, sort_by, insert_by, All, All-sort_by, Bool-cases, inl, inr, text_beq, text_beq_iff, text_eq,
  sym, ◌∙◌, Option-cases, subst, and_split, eq_self,
}
use tego_next.Selection.{ExecutorKind, process, remote, thread, has_kind}
use tego_next.Reconcile.Placement.{
  PlacementWorker, PlacementInput, ComponentPlacement, workers_of, worker_after, allows_executor,
  accepts_worker, first_worker, place, place_on, plan_placement, placement_is_eligible, is_worker,
  PlacementDecision, executor_preference,
}

module _ {A : Type 0} (test : A → Bool) (after : A → A → Bool) where
  any-insert_by : (x : A) (ys : List A) → any test (insert_by after x ys) ≡ (test x || any test ys)
  unfolding insert_by
  any-insert_by x [] = refl
  any-insert_by x (y ∷ ys) = ground (arith, any-insert_by x ys)

  pub any-sort_by : (xs : List A) → any test (sort_by after xs) ≡ any test xs
  unfolding sort_by
  any-sort_by [] = refl
  any-sort_by (x ∷ xs) = ground (arith, any-insert_by x (sort_by after xs), any-sort_by xs)

any-filter :
    {A : Type 0} (p q : A → Bool) (xs : List A) → any p (filter q xs) ≡ any (λ x. p x && q x) xs
any-filter p q [] = refl
any-filter p q (x ∷ xs) = ground (arith, any-filter p q xs)

filter-named :
    (id : Text) (ws : List PlacementWorker)
    → All (λ w. w.worker_id ≡ id) (filter (is_worker (some id)) ws)
filter-named id [] = tt
filter-named id (w ∷ ws) = elim (Bool-cases (text_beq w.worker_id id)) [
  | inl e ↦ rw e ((text_beq_iff w.worker_id id).0 e, filter-named id ws)
  | inr e ↦ rw e (filter-named id ws)
]

module _ (to_ascii : Text → Text) (input : PlacementInput) where
  first_worker-any :
      (ws : List PlacementWorker)
      → any (accepts_worker to_ascii input) ws ≡ true
      → (w : PlacementWorker) × (first_worker to_ascii input ws ≡ some w)
  unfolding first_worker
  first_worker-any [] h = cc
  first_worker-any (w ∷ ws) h = elim (Bool-cases (accepts_worker to_ascii input w)) [
    | inl e ↦ (w, rw e refl)
    | inr e ↦ rw e (first_worker-any ws (ground arith))
  ]

  any-first_worker :
      (ws : List PlacementWorker) (w : PlacementWorker)
      → first_worker to_ascii input ws ≡ some w
      → any (λ v. accepts_worker to_ascii input v && is_worker (some w.worker_id) v) ws ≡ true
  unfolding first_worker
  any-first_worker [] w h = cc
  any-first_worker (v ∷ ws) w h = elim (Bool-cases (accepts_worker to_ascii input v)) [
    | inl e ↦
        let here : text_beq v.worker_id w.worker_id ≡ true =
          (text_beq_iff v.worker_id w.worker_id).1 (ground arith) in
        rw (e, here) refl
    | inr e ↦ rw e (any-first_worker ws w (ground arith))
  ]

  first_worker-All :
      (P : PlacementWorker → Type 0) (ws : List PlacementWorker) (w : PlacementWorker)
      → All P ws
      → first_worker to_ascii input ws ≡ some w
      → P w
  unfolding first_worker
  first_worker-All P [] w a h = cc
  first_worker-All P (v ∷ ws) w a h = elim (Bool-cases (accepts_worker to_ascii input v)) [
    | inl e ↦ subst P (ground arith) a.0
    | inr e ↦ first_worker-All P ws w a.1 (ground arith)
  ]

sorted : List PlacementWorker → List PlacementWorker
sorted ws = sort_by worker_after ws

-- Among the workers of the name that was chosen, one is chosen again, and it has that name.
again :
    (to_ascii : Text → Text) (input : PlacementInput) (ws : List PlacementWorker)
    (w : PlacementWorker)
    → first_worker to_ascii input (sorted ws) ≡ some w
    → (v : PlacementWorker) × (first_worker to_ascii input
          (sorted (filter (is_worker (some w.worker_id)) ws))
        ≡ some v)
      × (v.worker_id ≡ w.worker_id)
unfolding sorted
again to_ascii input ws w h =
    let named = is_worker (some w.worker_id) in
    let chosen = accepts_worker to_ascii input in
    let present =
      any-sort_by chosen worker_after (filter named ws)
      ∙ (any-filter chosen named ws
          ∙ (sym (any-sort_by (λ v. chosen v && named v) worker_after ws)
              ∙ any-first_worker to_ascii input (sorted ws) w h)) in
    let (v, e) = first_worker-any to_ascii input (sorted (filter named ws)) present in
    let all_named =
      All-sort_by worker_after (λ x. x.worker_id ≡ w.worker_id) (filter named ws)
        (filter-named w.worker_id ws) in
    (
      v,
      e,
      first_worker-All to_ascii input (λ x. x.worker_id ≡ w.worker_id) (sorted (filter named ws)) v
          all_named e,
    )

some-injective : {A : Type 0} {a b : A} → ◌≡◌ {A = Option A} (some a) (some b) → a ≡ b
some-injective h = cc

-- The worker of a placement: the first that accepts the component for a remote one, else none.
WorkerOf : (Text → Text) → PlacementInput → ExecutorKind → Option Text → Type 0
WorkerOf to_ascii input remote id =
    (w : PlacementWorker) × (first_worker to_ascii input (sorted (workers_of input)) ≡ some w)
    × (id ≡ some w.worker_id)
WorkerOf to_ascii input process id = id ≡ none
WorkerOf to_ascii input thread id = id ≡ none

abbrev IsChosen : (Text → Text) → PlacementInput → ComponentPlacement → Type 0
IsChosen to_ascii input p =
    (has_kind input.component.executors p.executor ≡ true)
    × (has_kind input.supported_executors p.executor ≡ true)
    × (allows_executor to_ascii input p.executor ≡ true)
    × WorkerOf to_ascii input p.executor p.worker_id

module _ (to_ascii : Text → Text) (input : PlacementInput) (p : ComponentPlacement) where
  place_on-IsChosen :
      (kind : ExecutorKind) (rest : PlacementDecision)
      → has_kind input.component.executors kind ≡ true
      → has_kind input.supported_executors kind ≡ true
      → allows_executor to_ascii input kind ≡ true
      → (rest.placement ≡ some p → IsChosen to_ascii input p)
      → (place_on to_ascii input kind rest).placement ≡ some p
      → IsChosen to_ascii input p
  unfolding WorkerOf sorted
  place_on-IsChosen process rest l s a f h =
      subst (IsChosen to_ascii input) (some-injective h) (l, s, a, refl)
  place_on-IsChosen thread rest l s a f h =
      subst (IsChosen to_ascii input) (some-injective h) (l, s, a, refl)
  place_on-IsChosen remote rest l s a f h =
      elim (Option-cases (first_worker to_ascii input (sorted (workers_of input)))) [
        | inl e ↦ f (ground arith)
        | inr (w, e) ↦
            let same : ◌≡◌ {A = Option ComponentPlacement}
                (some (record { executor = remote; worker_id = some w.worker_id })) (some p) =
              ground arith in
            subst (IsChosen to_ascii input) (some-injective same) (l, s, a, (w, e, refl))
      ]

  place-IsChosen :
      (kinds : List ExecutorKind) (denied : Bool)
      → (place to_ascii input kinds denied).placement ≡ some p
      → IsChosen to_ascii input p
  unfolding place
  place-IsChosen [] denied h = cc
  place-IsChosen (kind ∷ kinds) denied h =
      elim (Bool-cases
        (has_kind input.component.executors kind && has_kind input.supported_executors kind)) [
          | inr e ↦ place-IsChosen kinds denied (ground arith)
          | inl e ↦
              let (l, s) = and_split (has_kind input.component.executors kind) _ e in
              elim (Bool-cases (allows_executor to_ascii input kind)) [
                | inr n ↦ place-IsChosen kinds true (ground arith)
                | inl a ↦
                    place_on-IsChosen kind (place to_ascii input kinds denied) l s a
                      (place-IsChosen kinds denied) (ground arith)
              ]
        ]

abbrev placement_on : ExecutorKind → Option Text → ComponentPlacement
placement_on kind id = record { executor = kind; worker_id = id }

and_false : (b : Bool) → (b && false) ≡ false
and_false b = ground arith

-- The candidates and the workers do not bear on which worker of a list is accepted_placement.
first_worker-only :
    (to_ascii : Text → Text) (input : PlacementInput) (kinds : List ExecutorKind)
    (among : Option (List PlacementWorker)) (ws : List PlacementWorker)
    → first_worker to_ascii (record input { supported_executors = kinds; workers = among }) ws
      ≡ first_worker to_ascii input ws
unfolding first_worker accepts_worker
first_worker-only to_ascii input kinds among [] = refl
first_worker-only to_ascii input kinds among (w ∷ ws) =
    rw (first_worker-only to_ascii input kinds among ws) refl

IsChosen-eligible :
    (to_ascii : Text → Text) (input : PlacementInput) (kind : ExecutorKind) (id : Option Text)
    → IsChosen to_ascii input (placement_on kind id)
    → placement_is_eligible to_ascii input (placement_on kind id) ≡ true
unfolding placement_is_eligible place WorkerOf allows_executor sorted
IsChosen-eligible to_ascii input process id (l, s, a, w) = rw (l, s, a, w) refl
IsChosen-eligible to_ascii input thread id (l, s, a, w) =
    rw (l, s, a, w, and_false (has_kind input.component.executors process)) refl
IsChosen-eligible to_ascii input remote id (l, s, a, (w, e, f)) =
    let (v, g, n) = again to_ascii input (workers_of input) w e in
    rw
      (
        l,
        s,
        a,
        f,
        and_false (has_kind input.component.executors process),
        and_false (has_kind input.component.executors thread),
        first_worker-only to_ascii input (remote ∷ []),
        g,
        n,
        eq_self w.worker_id,
      )
      refl

-- The placement that `planPlacement` plans passes `placementIsEligible` for the same input.
pub planned_placement_is_eligible :
    (to_ascii : Text → Text) (input : PlacementInput) (p : ComponentPlacement)
    → (plan_placement to_ascii input).placement ≡ some p
    → placement_is_eligible to_ascii input p ≡ true
unfolding plan_placement
planned_placement_is_eligible to_ascii input p h =
    IsChosen-eligible to_ascii input p.executor p.worker_id
      (place-IsChosen to_ascii input p executor_preference false h)
