-- ===== src/Store/Commit/Replay.antt =====
-- The changes that a commit publishes, and the revisions that it was checked against.
use tego_next.Base.{
  ℕ, Bool, true, false, List, [], ◌∷◌, ◌++◌, Option, none, some, Map, get, ok, if◌then◌else◌, ◌≡◌,
  refl, ap, ◌∙◌, arith, All, Bool-cases, inl, inr, subst,
}
use tego_next.Contracts.State.{StateKey, key_eq, key_beq, key_beq_iff, StateChange}
use tego_next.Store.Types.{
  StoredRecord, Mutation, put_mutation, delete_mutation, mutation_key, mutation_expected,
  matches_expected_revision,
}
use tego_next.Store.Transaction.Staging.{IsFresh, HasDistinctKeys, key_beq_flip}
use tego_next.Store.Commit.Checks.{check_mutations, after_check, applies}
use tego_next.Store.Commit.{changes_of}
use tego_next.Store.Commit.Effects.{
  mutation_effect, key_effect, replay_key, check_step, IsFresh-of_eq, get-after_check_ne,
}

pub replay-append :
    (k : StateKey) (cs ds : List StateChange) (r : Option StoredRecord)
    → replay_key k (cs ++ ds) r ≡ replay_key k ds (replay_key k cs r)
replay-append k [] ds r = refl
replay-append k (c ∷ cs) ds r = replay-append k cs ds _

-- The revision that a mutation expects is that of the record of its key.
abbrev pub IsMatched : Map StateKey StoredRecord → Mutation → Type 0
IsMatched records m =
    matches_expected_revision (get (mutation_key m) records) (mutation_expected m) ≡ true

abbrev step_effect : StateKey → ℕ → Mutation → Bool → Option StoredRecord → Option StoredRecord
step_effect k rev m b r =
    if b then (if key_beq (mutation_key m) k then mutation_effect rev m else r) else r

replay_step :
    (k : StateKey) (rev : ℕ) (m : Mutation) (b : Bool) (l : List Mutation) (r : Option StoredRecord)
    → replay_key k (changes_of rev (if b then m ∷ l else l)) r
      ≡ replay_key k (changes_of rev l) (step_effect k rev m b r)
unfolding changes_of
replay_step k rev (put_mutation j v x) true l r = refl
replay_step k rev (delete_mutation j x) true l r = refl
replay_step k rev _ false l r = refl

step_effect-fresh :
    (k : StateKey) (rev : ℕ) (m : Mutation) (b : Bool) (r : Option StoredRecord)
    → key_beq (mutation_key m) k ≡ false
    → step_effect k rev m b r ≡ r
step_effect-fresh k rev m true r f = rw f
step_effect-fresh k rev m false r f = refl

replay-fresh :
    (k : StateKey) (rev : ℕ) (ms : List Mutation) (next : Map StateKey StoredRecord)
    (r : Option StoredRecord) {final : Map StateKey StoredRecord} {applied : List Mutation}
    → IsFresh k ms
    → check_mutations ms next ≡ ok (final, applied)
    → replay_key k (changes_of rev applied) r ≡ r
unfolding check_mutations changes_of
replay-fresh k rev [] next r f h = ground arith
replay-fresh k rev (m ∷ ms) next r f h =
    let (rest, _, e, a) = check_step m ms next h in
    let b = applies m (get (mutation_key m) next) in
    ap (λ l. replay_key k (changes_of rev l) r) a
    ∙ replay_step k rev m b rest r
    ∙ ap (replay_key k (changes_of rev rest)) (step_effect-fresh k rev m b r f.0)
    ∙ replay-fresh k rev ms _ r f.1 e

-- A delete of a key that is not there is not applied, and would change nothing.
step_view :
    (k : StateKey) (rev : ℕ) (m : Mutation) (next : Map StateKey StoredRecord)
    (current : Option StoredRecord)
    → get (mutation_key m) next ≡ current
    → step_effect k rev m (applies m current) (get k next)
      ≡ (if key_beq (mutation_key m) k then mutation_effect rev m else get k next)
unfolding applies
step_view k rev (put_mutation j v x) next current e = refl
step_view k rev (delete_mutation j x) next (some r) e = refl
step_view k rev (delete_mutation j x) next none e =
    ground (arith, ap (λ i. get i next) {x = j} {y = k}, key_beq_iff j k)

-- The changes that a commit publishes, replayed on the old record of a key, give the new one.
pub replay-applied :
    (k : StateKey) (rev : ℕ) (ms : List Mutation) (next : Map StateKey StoredRecord)
    {final : Map StateKey StoredRecord} {applied : List Mutation}
    → HasDistinctKeys ms
    → check_mutations ms next ≡ ok (final, applied)
    → replay_key k (changes_of rev applied) (get k next) ≡ key_effect k rev ms (get k next)
unfolding check_mutations changes_of
replay-applied k rev [] next d h = ground arith
replay-applied k rev (m ∷ ms) next {applied = applied} d h =
    let (rest, _, e, a) = check_step m ms next h in
    let b = applies m (get (mutation_key m) next) in
    let front : replay_key k (changes_of rev applied) (get k next)
        ≡ replay_key k (changes_of rev rest)
            (if key_beq (mutation_key m) k then mutation_effect rev m else get k next) =
      ap (λ l. replay_key k (changes_of rev l) (get k next)) a
      ∙ replay_step k rev m b rest (get k next)
      ∙ ap (replay_key k (changes_of rev rest)) (step_view k rev m next _ refl) in
    elim (Bool-cases (key_beq (mutation_key m) k)) [
      | inl p ↦
          let f = IsFresh-of_eq (mutation_key m) k ms p d.0 in
          front ∙ rw p (replay-fresh k rev ms _ (mutation_effect rev m) f e)
      | inr p ↦
          let same = get-after_check_ne m k next p in
          front ∙ rw (p, ← same) (replay-applied k rev ms _ d.1 e)
    ]

IsMatched-under :
    (m : Mutation) (ms : List Mutation) (next : Map StateKey StoredRecord)
    → IsFresh (mutation_key m) ms
    → All (IsMatched (after_check m (get (mutation_key m) next) next)) ms
    → All (IsMatched next) ms
IsMatched-under m [] next f h = tt
IsMatched-under m (n ∷ ms) next f h = (
  subst (λ r. matches_expected_revision r (mutation_expected n) ≡ true)
      (get-after_check_ne m (mutation_key n) next (key_beq_flip _ _ f.0)) h.0,
  IsMatched-under m ms next f.1 h.1,
)

-- Mutations that pass the check all expected the revision that the store had.
pub checked-IsMatched :
    (ms : List Mutation) (next : Map StateKey StoredRecord) {final : Map StateKey StoredRecord}
    {applied : List Mutation}
    → HasDistinctKeys ms
    → check_mutations ms next ≡ ok (final, applied)
    → All (IsMatched next) ms
checked-IsMatched [] next d h = tt
checked-IsMatched (m ∷ ms) next d h =
    let (rest, p, e, _) = check_step m ms next h in
    (p, IsMatched-under m ms next d.0 (checked-IsMatched ms _ d.1 e))
