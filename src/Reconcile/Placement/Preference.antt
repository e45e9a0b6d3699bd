-- ===== src/Reconcile/Placement/Preference.antt =====
-- Which executor a component is placed on: the first usable one.
use tego_next.Base.{
  Text, Bool, true, false, ◌≡◌, refl, List, [], ◌∷◌, arith, any, ◌&&◌, ◌||◌, ltb, length, Option,
  none, some, Option-cases, Bool-cases, inl, inr, if◌then◌else◌, sort_by, is_some, ◌∙◌,
}
use tego_next.Selection.{ExecutorKind, process, remote, thread, has_kind}
use tego_next.Reconcile.Placement.{
  PlacementWorker, PlacementInput, PlacementDecision, workers_of, worker_after, allows_executor,
  accepts_worker, first_worker, place, place_on, plan_placement, executor_preference,
}
use tego_next.Reconcile.Placement.Eligible.{any-sort_by}

abbrev pub executor_of : PlacementDecision → Option ExecutorKind
executor_of d = elim d.placement [ none ↦ none | some p ↦ some p.executor ]

module _ (to_ascii : Text → Text) (input : PlacementInput) where
  -- Whether some worker can take a remote component.
  has_worker : ExecutorKind → Bool
  has_worker remote = any (accepts_worker to_ascii input) (workers_of input)
  has_worker process = true
  has_worker thread = true

  -- An executor that the component lists, that is supported and granted, and has a worker.
  unfoldable pub is_usable : ExecutorKind → Bool
  unfolding has_worker
  is_usable kind =
      (has_kind input.component.executors kind && has_kind input.supported_executors kind)
      && (allows_executor to_ascii input kind && has_worker kind)

  abbrev pub first_usable : List ExecutorKind → Option ExecutorKind
  first_usable [] = none
  first_usable (kind ∷ kinds) =
      let rest = first_usable kinds in if is_usable kind then some kind else rest

  first_worker-found :
      (ws : List PlacementWorker)
      → is_some (first_worker to_ascii input ws) ≡ any (accepts_worker to_ascii input) ws
  unfolding first_worker
  first_worker-found [] = refl
  first_worker-found (w ∷ ws) = ground (arith, first_worker-found ws)

  place_on-executor :
      (kind : ExecutorKind) (rest : PlacementDecision)
      → executor_of (place_on to_ascii input kind rest)
        ≡ (if has_worker kind then some kind else executor_of rest)
  unfolding has_worker
  place_on-executor process rest = refl
  place_on-executor thread rest = refl
  place_on-executor remote rest =
      let ws = sort_by worker_after (workers_of input) in
      let found =
        first_worker-found ws
        ∙ any-sort_by (accepts_worker to_ascii input) worker_after (workers_of input) in
      elim (Option-cases (first_worker to_ascii input ws)) [
        | inl e ↦ ground arith
        | inr (w, e) ↦ ground arith
      ]

  place-executor :
      (kinds : List ExecutorKind) (denied : Bool)
      → executor_of (place to_ascii input kinds denied) ≡ first_usable kinds
  unfolding place is_usable
  place-executor [] denied = refl
  place-executor (kind ∷ kinds) denied =
      let on = place_on-executor kind (place to_ascii input kinds denied) in
      let rest = place-executor kinds denied in
      let after_denied = place-executor kinds true in ground arith

-- A decision has a placement, or says why not.
abbrev pub is_answer : PlacementDecision → Bool
is_answer d = is_some (if d.ok then d.placement else none) || ltb 0 (length d.diagnostics)

module _ (to_ascii : Text → Text) (input : PlacementInput) where
  place_on-is_answer :
      (kind : ExecutorKind) (rest : PlacementDecision)
      → is_answer rest ≡ true
      → is_answer (place_on to_ascii input kind rest) ≡ true
  place_on-is_answer process rest h = refl
  place_on-is_answer thread rest h = refl
  place_on-is_answer remote rest h =
      elim (Option-cases (first_worker to_ascii input (sort_by worker_after (workers_of input)))) [
        | inl e ↦ ground arith
        | inr (w, e) ↦ ground arith
      ]

  pub place-is_answer :
      (kinds : List ExecutorKind) (denied : Bool)
      → is_answer (place to_ascii input kinds denied) ≡ true
  unfolding place
  place-is_answer [] denied = refl
  place-is_answer (kind ∷ kinds) denied =
      let on =
        place_on-is_answer kind (place to_ascii input kinds denied)
          (place-is_answer kinds denied) in
      let rest = place-is_answer kinds denied in
      let after_denied = place-is_answer kinds true in
      elim (Bool-cases
        (has_kind input.component.executors kind && has_kind input.supported_executors kind)) [
          | inr e ↦ rw e rest
          | inl e ↦ elim (Bool-cases (allows_executor to_ascii input kind)) [
            | inl a ↦ rw (e, a) on
            | inr a ↦ rw (e, a) after_denied
          ]
        ]

pub plan_placement-is_answer :
    (to_ascii : Text → Text) (input : PlacementInput)
    → is_answer (plan_placement to_ascii input) ≡ true
unfolding plan_placement
plan_placement-is_answer to_ascii input = place-is_answer to_ascii input executor_preference false

-- `planPlacement` places the component on the first executor, in the order process, thread,
-- remote, that the component lists, that is supported, that the granted permissions allow and, for
-- a remote one, that some worker accepts; when there is none, it plans no placement.
pub plan_placement_prefers :
    (to_ascii : Text → Text) (input : PlacementInput)
    → executor_of (plan_placement to_ascii input) ≡ first_usable to_ascii input executor_preference
unfolding plan_placement
plan_placement_prefers to_ascii input = place-executor to_ascii input executor_preference false
