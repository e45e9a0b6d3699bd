-- ===== src/Store/Commit/Effects.antt =====
-- What a list of mutations does to one key, seen through the checks, the writes and the changes.
use tego_next.Base.{
  ℕ, Bool, true, false, List, [], ◌∷◌, Option, none, some, Map, get, get-set, get-delete, ok, err,
  if◌then◌else◌, ◌≡◌, refl, ap, ◌∙◌, arith, Bool-cases, inl, inr, subst, guard, ◌>>=◌, ◌>>◌,
}
use tego_next.Contracts.Diagnostic.{Outcome, state_revision_conflict}
use tego_next.Contracts.State.{
  StateKey, ExpectedRevision, key_eq, key_beq, key_beq_iff, StateChange, ChangeKind, change_put,
  change_delete,
}
use tego_next.Contracts.Json.{JsonValue}
use tego_next.Store.Types.{
  StoredRecord, Mutation, put_mutation, delete_mutation, mutation_key, mutation_expected,
  clone_json, matches_expected_revision,
}
use tego_next.Store.Transaction.Staging.{IsFresh, HasDistinctKeys}
use tego_next.Store.Commit.Checks.{check_mutations, after_check, applies}
use tego_next.Store.Commit.{write_puts}

abbrev pub mutation_effect : ℕ → Mutation → Option StoredRecord
mutation_effect rev (put_mutation k v e) =
    some (record { key = k; value = clone_json v; revision = rev })
mutation_effect rev (delete_mutation k e) = none

-- The record of a key after the mutations: that of the mutation to it, or the old one.
abbrev pub key_effect : StateKey → ℕ → List Mutation → Option StoredRecord → Option StoredRecord
key_effect k rev [] r = r
key_effect k rev (m ∷ ms) r =
    let rest = key_effect k rev ms r in
    if key_beq (mutation_key m) k then mutation_effect rev m else rest

abbrev deletes_effect : StateKey → List Mutation → Option StoredRecord → Option StoredRecord
deletes_effect k [] r = r
deletes_effect k (put_mutation j v e ∷ ms) r = deletes_effect k ms r
deletes_effect k (delete_mutation j e ∷ ms) r =
    deletes_effect k ms (if key_beq j k then none else r)

abbrev puts_effect : StateKey → ℕ → List Mutation → Option StoredRecord → Option StoredRecord
puts_effect k rev [] r = r
puts_effect k rev (delete_mutation j e ∷ ms) r = puts_effect k rev ms r
puts_effect k rev (put_mutation j v e ∷ ms) r =
    puts_effect k rev ms
      (if key_beq j k then some (record { key = j; value = clone_json v; revision = rev }) else r)

abbrev pub change_effect : ChangeKind → StateChange → Option JsonValue → Option StoredRecord
change_effect change_delete c v = none
change_effect change_put c none = none
change_effect change_put c (some v) =
    some (record { key = c.key; value = v; revision = c.revision })

-- Replaying changes, seen at one key.
abbrev pub replay_key : StateKey → List StateChange → Option StoredRecord → Option StoredRecord
replay_key k [] r = r
replay_key k (c ∷ cs) r =
    replay_key k cs (if key_beq c.key k then change_effect c.kind c c.value else r)

abbrev Checked : Type 0
Checked = Map StateKey StoredRecord × List Mutation

abbrev check_tail : Outcome Checked → Bool → Bool → Mutation → Outcome Checked
check_tail r b a m = do guard b state_revision_conflict; (f, l) ← r; ok (f, if a then m ∷ l else l)

check_cases :
    (r : Outcome Checked) (b : Bool) (a : Bool) (m : Mutation) {final : Map StateKey StoredRecord}
    {applied : List Mutation}
    → check_tail r b a m ≡ ok (final, applied)
    → (rest : List Mutation) × (b ≡ true)
      × (r ≡ ok (final, rest))
      × (applied ≡ (if a then m ∷ rest else rest))
check_cases (ok (f, l)) true a m h = (l, refl, ground arith, ground arith)
check_cases (ok (f, l)) false a m h = cc
check_cases (err e) true a m h = cc
check_cases (err e) false a m h = cc

pub check_step :
    (m : Mutation) (ms : List Mutation) (next : Map StateKey StoredRecord)
    {final : Map StateKey StoredRecord} {applied : List Mutation}
    → check_mutations (m ∷ ms) next ≡ ok (final, applied)
    → let current = get (mutation_key m) next in
      (rest : List Mutation) × (matches_expected_revision current (mutation_expected m) ≡ true)
      × (check_mutations ms (after_check m current next) ≡ ok (final, rest))
      × (applied ≡ (if applies m current then m ∷ rest else rest))
unfolding check_mutations
check_step m ms next h = check_cases _ _ (applies m (get (mutation_key m) next)) m h

-- A mutation leaves every other key alone in the next records.
pub get-after_check_ne :
    (m : Mutation) (k : StateKey) (next : Map StateKey StoredRecord)
    → key_beq (mutation_key m) k ≡ false
    → get k (after_check m (get (mutation_key m) next) next) ≡ get k next
unfolding after_check
get-after_check_ne (put_mutation j v e) k next h = refl
get-after_check_ne (delete_mutation j e) k next h = ground (arith, get-delete j k next)

deletes_effect-fresh :
    (k : StateKey) (ms : List Mutation) (r : Option StoredRecord)
    → IsFresh k ms
    → deletes_effect k ms r ≡ r
deletes_effect-fresh k [] r f = refl
deletes_effect-fresh k (put_mutation j v e ∷ ms) r f = deletes_effect-fresh k ms r f.1
deletes_effect-fresh k (delete_mutation j e ∷ ms) r f = rw f.0 (deletes_effect-fresh k ms r f.1)

puts_effect-fresh :
    (k : StateKey) (rev : ℕ) (ms : List Mutation) (r : Option StoredRecord)
    → IsFresh k ms
    → puts_effect k rev ms r ≡ r
puts_effect-fresh k rev [] r f = refl
puts_effect-fresh k rev (put_mutation j v e ∷ ms) r f = rw f.0 (puts_effect-fresh k rev ms r f.1)
puts_effect-fresh k rev (delete_mutation j e ∷ ms) r f = puts_effect-fresh k rev ms r f.1

pub key_effect-fresh :
    (k : StateKey) (rev : ℕ) (ms : List Mutation) (r : Option StoredRecord)
    → IsFresh k ms
    → key_effect k rev ms r ≡ r
key_effect-fresh k rev [] r f = refl
key_effect-fresh k rev (m ∷ ms) r f = rw f.0 (key_effect-fresh k rev ms r f.1)

pub IsFresh-of_eq :
    (j k : StateKey) (ms : List Mutation) → key_beq j k ≡ true → IsFresh j ms → IsFresh k ms
IsFresh-of_eq j k ms e f = subst (λ i. IsFresh i ms) ((key_beq_iff j k).0 e) f

-- Deletes first and puts afterwards have the effect of each key's one mutation.
puts-deletes_effect :
    (k : StateKey) (rev : ℕ) (ms : List Mutation) (r : Option StoredRecord)
    → HasDistinctKeys ms
    → puts_effect k rev ms (deletes_effect k ms r) ≡ key_effect k rev ms r
puts-deletes_effect k rev [] r d = refl
puts-deletes_effect k rev (put_mutation j v e ∷ ms) r d = elim (Bool-cases (key_beq j k)) [
  | inl p ↦ let f = IsFresh-of_eq j k ms p d.0 in rw (p, puts_effect-fresh k rev ms _ f)
  | inr p ↦ rw p (puts-deletes_effect k rev ms r d.1)
]
puts-deletes_effect k rev (delete_mutation j e ∷ ms) r d = elim (Bool-cases (key_beq j k)) [
  | inl p ↦
      let f = IsFresh-of_eq j k ms p d.0 in
      rw (p, deletes_effect-fresh k ms none f, puts_effect-fresh k rev ms none f)
  | inr p ↦ rw p (puts-deletes_effect k rev ms r d.1)
]

get-after_delete :
    (j k : StateKey) (x : ExpectedRevision) (current : Option StoredRecord)
    (next : Map StateKey StoredRecord)
    → get j next ≡ current
    → get k (after_check (delete_mutation j x) current next)
      ≡ (if key_beq j k then none else get k next)
unfolding after_check
get-after_delete j k x none next e =
    ground (arith, ap (λ i. get i next) {x = j} {y = k}, key_beq_iff j k)
get-after_delete j k x (some r) next e = get-delete j k next

get-checked :
    (k : StateKey) (ms : List Mutation) (next : Map StateKey StoredRecord)
    {final : Map StateKey StoredRecord} {applied : List Mutation}
    → check_mutations ms next ≡ ok (final, applied)
    → get k final ≡ deletes_effect k ms (get k next)
unfolding check_mutations after_check
get-checked k [] next h = ground arith
get-checked k (put_mutation j v x ∷ ms) next h =
    let (rest, _, e, _) = check_step (put_mutation j v x) ms next h in get-checked k ms _ e
get-checked k (delete_mutation j x ∷ ms) next h =
    let (rest, _, e, _) = check_step (delete_mutation j x) ms next h in
    get-checked k ms _ e ∙ ap (deletes_effect k ms) (get-after_delete j k x _ next refl)

get-write_puts :
    (k : StateKey) (rev : ℕ) (ms : List Mutation) (m : Map StateKey StoredRecord)
    → get k (write_puts rev ms m) ≡ puts_effect k rev ms (get k m)
unfolding write_puts
get-write_puts k rev [] m = refl
get-write_puts k rev (delete_mutation j x ∷ ms) m = get-write_puts k rev ms m
get-write_puts k rev (put_mutation j v x ∷ ms) m =
    get-write_puts k rev ms _ ∙ ap (puts_effect k rev ms) (get-set j k _ m)

puts_effect-drop :
    (k : StateKey) (rev : ℕ) (j : StateKey) (x : ExpectedRevision) (b : Bool) (ms : List Mutation)
    (r : Option StoredRecord)
    → puts_effect k rev (if b then delete_mutation j x ∷ ms else ms) r ≡ puts_effect k rev ms r
puts_effect-drop k rev j x true ms r = refl
puts_effect-drop k rev j x false ms r = refl

puts_effect-applied :
    (k : StateKey) (rev : ℕ) (ms : List Mutation) (next : Map StateKey StoredRecord)
    (r : Option StoredRecord) {final : Map StateKey StoredRecord} {applied : List Mutation}
    → check_mutations ms next ≡ ok (final, applied)
    → puts_effect k rev applied r ≡ puts_effect k rev ms r
unfolding check_mutations applies
puts_effect-applied k rev [] next r h = ground arith
puts_effect-applied k rev (put_mutation j v x ∷ ms) next r h =
    let (rest, _, e, a) = check_step (put_mutation j v x) ms next h in
    rw a (puts_effect-applied k rev ms _ _ e)
puts_effect-applied k rev (delete_mutation j x ∷ ms) next r h =
    let (rest, _, e, a) = check_step (delete_mutation j x) ms next h in
    ap (λ l. puts_effect k rev l r) a
    ∙ puts_effect-drop k rev j x _ rest r
    ∙ puts_effect-applied k rev ms _ r e

-- The records that a commit writes, at any key.
pub get-written :
    (k : StateKey) (rev : ℕ) (ms : List Mutation) (next : Map StateKey StoredRecord)
    {final : Map StateKey StoredRecord} {applied : List Mutation}
    → HasDistinctKeys ms
    → check_mutations ms next ≡ ok (final, applied)
    → get k (write_puts rev applied final) ≡ key_effect k rev ms (get k next)
get-written k rev ms next {final} {applied} d h =
    get-write_puts k rev applied final
    ∙ puts_effect-applied k rev ms next _ h
    ∙ ap (puts_effect k rev ms) (get-checked k ms next h)
    ∙ puts-deletes_effect k rev ms _ d
