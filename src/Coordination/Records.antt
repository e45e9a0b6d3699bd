-- ===== src/Coordination/Records.antt =====
-- The records of the local provider and its change log.
use tego_next.Base.{
  ℕ, ◌+◌, true, false, List, [], ◌∷◌, ◌++◌, Option, none, some, Text, Map, get, if◌then◌else◌, ok,
  ◌≡◌, refl, sym, ap, ◌∙◌, Bool-cases, inl, inr, length, text_eq, get-set, ◌==◌, length-append,
  arith, subst, nat_eq, is_some, values, ◌&&◌, eq_self,
}
use tego_next.Contracts.Json.{JsonValue}
use tego_next.Contracts.State.{ExpectedRevision}
use tego_next.Contracts.Json.Canonical.{serialize_wire_value_idem}
use tego_next.Store.Types.{clone_json}
use tego_next.Coordination.{
  CoordinationRecord, CoordinationChange, LocalCoordination, CoordinationEvent, opens, closes,
  campaigns, releases, sets, watches, call, call_all, new_coordination, compare_and_set,
  expected_matches, is_live, non_blank, release_leadership, release_each, store_value, campaign,
  CasResult, refused, is_ended, coordination_open, coordination_closed_down, second_or, after_or,
  assert_live, open_coordination, close_coordination, watch_changes,
}

-- The record that the log gives a key: its last change.
abbrev pub latest :
    Text → List CoordinationChange → Option CoordinationRecord → Option CoordinationRecord
latest key [] r = r
latest key (x ∷ xs) r =
    latest key xs
      (if x.key == key then some (record { value = x.value; revision = x.revision }) else r)

latest-append :
    (key : Text) (xs : List CoordinationChange) (x : CoordinationChange)
    (r : Option CoordinationRecord)
    → latest key (xs ++ x ∷ []) r ≡ (
        if x.key == key
        then some (record { value = x.value; revision = x.revision })
        else latest key xs r)
latest-append key [] x r = refl
latest-append key (y ∷ ys) x r = latest-append key ys x _

-- What is kept of a state here: the records, the log and the revision.
abbrev Logged : Type 0
Logged = Map Text CoordinationRecord × List CoordinationChange × ℕ

abbrev logged : LocalCoordination → Logged
logged c = (c.records, c.changes, c.revision)

release_leadership-logged :
    (n : ℕ) (c : LocalCoordination) → logged (release_leadership n c) ≡ logged c
unfolding release_leadership
release_leadership-logged n c = ground arith

abbrev IsReplayed : Logged → Type 0
IsReplayed (records, changes, rev) =
    ((key : Text) → latest key changes none ≡ get key records) × (rev ≡ length changes)

serialize_twice : (v : JsonValue) → clone_json (clone_json v) ≡ clone_json v
serialize_twice v = (serialize_wire_value_idem v).1

store_value-IsReplayed :
    (key : Text) (value : JsonValue) (c : LocalCoordination)
    → IsReplayed (logged c)
    → IsReplayed (logged (store_value key value c).1)
unfolding store_value
store_value-IsReplayed key value c h = (
  λ j. rw (serialize_twice value) (
      latest-append j c.changes _ none
      ∙ ap
          (λ r.
            if key == j
            then some (record { value = clone_json value; revision = c.revision + 1 })
            else r)
          (h.0 j)
      ∙ sym (get-set key j _ c.records)),
  rw
      (length-append c.changes (
        record { key = key; revision = c.revision + 1; value = clone_json (clone_json value) }
        ∷ []))
      (omega (arith, h.1)),
)

compare_and_set-IsReplayed :
    (key : Text) (e : ExpectedRevision) (value : JsonValue) (c : LocalCoordination)
    → IsReplayed (logged c)
    → IsReplayed (logged (second_or c (compare_and_set key e value c)))
unfolding compare_and_set assert_live get
compare_and_set-IsReplayed key e value c h = elim (Bool-cases (is_live c.lifecycle)) [
  | inl s ↦ elim (Bool-cases (non_blank key)) [
    | inl t ↦ elim (Bool-cases (expected_matches (get key c.records) e)) [
      | inl u ↦ rw (s, t, u) (store_value-IsReplayed key value c h)
      | inr u ↦ rw (s, t, u) h
    ]
    | inr t ↦ rw (s, t) h
  ]
  | inr s ↦ rw s h
]

release_each-logged : (ns : List ℕ) (c : LocalCoordination) → logged (release_each ns c) ≡ logged c
unfolding release_each
release_each-logged [] c = refl
release_each-logged (n ∷ ns) c =
    release_each-logged ns (release_leadership n c) ∙ release_leadership-logged n c

close-logged : (c : LocalCoordination) → logged (close_coordination c).0 ≡ logged c
unfolding close_coordination
close-logged c = elim (Bool-cases (is_ended c.lifecycle)) [
  | inl s ↦ rw s refl
  | inr s ↦ rw s (
      release_each-logged (values c.leadership) (record c { lifecycle = coordination_closed_down }))
]

campaign-logged :
    (n : ℕ) (resource : Text) (c : LocalCoordination)
    → logged (second_or c (campaign n resource c)) ≡ logged c
unfolding campaign
campaign-logged n resource c = ground arith

open-logged : (c : LocalCoordination) → logged (after_or c (open_coordination c)) ≡ logged c
unfolding open_coordination
open-logged c = ground arith

watch-logged :
    (n cursor : ℕ) (c : LocalCoordination)
    → logged (after_or c (watch_changes n cursor c)) ≡ logged c
unfolding watch_changes assert_live
watch-logged n cursor c = ground arith

kept : (a b : Logged) → a ≡ b → IsReplayed b → IsReplayed a
kept a b e h = subst IsReplayed (sym e) h

call-IsReplayed :
    (c : LocalCoordination) (e : CoordinationEvent)
    → IsReplayed (logged c)
    → IsReplayed (logged (call c e))
unfolding call
call-IsReplayed c opens h = kept _ _ (open-logged c) h
call-IsReplayed c closes h = kept _ _ (close-logged c) h
call-IsReplayed c (campaigns n resource) h = elim (Bool-cases (is_some (get n c.handles))) [
  | inl s ↦ rw s h
  | inr s ↦ rw s (kept _ _ (campaign-logged n resource c) h)
]
call-IsReplayed c (releases n) h = kept _ _ (release_leadership-logged n c) h
call-IsReplayed c (sets key e value) h = compare_and_set-IsReplayed key e value c h
call-IsReplayed c (watches n cursor) h = kept _ _ (watch-logged n cursor c) h

call_all-IsReplayed :
    (c : LocalCoordination) (es : List CoordinationEvent)
    → IsReplayed (logged c)
    → IsReplayed (logged (call_all c es))
unfolding call_all
call_all-IsReplayed c [] h = h
call_all-IsReplayed c (e ∷ es) h = call_all-IsReplayed (call c e) es (call-IsReplayed c e h)

-- After any sequence of calls on a new provider: the record of each key is the last change that
-- the log has for it, with its value and revision, or none; and the revision is the number of
-- changes logged.
pub coordination_replays :
    (es : List CoordinationEvent)
    → let c = call_all new_coordination es in
      ((key : Text) → latest key c.changes none ≡ get key c.records)
      × (c.revision ≡ length c.changes)
unfolding new_coordination get
coordination_replays es = call_all-IsReplayed new_coordination es (λ key. refl, refl)

abbrev pub recorded_value : Option CoordinationRecord → Option JsonValue
recorded_value none = none
recorded_value (some r) = some (clone_json r.value)

abbrev pub recorded_revision : Option CoordinationRecord → Option ℕ
recorded_revision none = none
recorded_revision (some r) = some r.revision

abbrev new_record : JsonValue → LocalCoordination → CoordinationRecord
new_record value c = record { value = clone_json value; revision = c.revision + 1 }

abbrev attempt :
    Text → ExpectedRevision → JsonValue → LocalCoordination → CasResult × LocalCoordination
attempt key e value c =
    if expected_matches (get key c.records) e
    then store_value key value c
    else (refused (get key c.records), c)

refused_reports :
    (o : Option CoordinationRecord)
    → ((refused o).applied ≡ false)
      × ((refused o).value ≡ recorded_value o)
      × ((refused o).revision ≡ recorded_revision o)
refused_reports none = (refl, refl, refl)
refused_reports (some r) = (refl, refl, refl)

-- A compare-and-set of a non-empty key on an open provider returns. It applies exactly when the
-- expected revision is met by the key's record; it then gives the key the value at the next
-- revision, and otherwise changes no record and no revision; the records of the other keys stay.
-- What it reports is the value and the revision of the key's record as the call leaves it.
pub compare_and_set_lem :
    (key : Text) (e : ExpectedRevision) (value : JsonValue) (c : LocalCoordination)
    → c.lifecycle ≡ coordination_open
    → non_blank key ≡ true
    → (r : CasResult) × (d : LocalCoordination) × (compare_and_set key e value c ≡ ok (r, d))
      × (r.applied ≡ expected_matches (get key c.records) e)
      × ((j : Text)
          → get j d.records ≡ (
              if r.applied && key == j
              then some (record { value = clone_json value; revision = c.revision + 1 })
              else get j c.records))
      × (d.revision ≡ (if r.applied then c.revision + 1 else c.revision))
      × (r.value ≡ recorded_value (get key d.records))
      × (r.revision ≡ recorded_revision (get key d.records))
unfolding compare_and_set assert_live store_value
compare_and_set_lem key e value c o k =
    let returns : compare_and_set key e value c ≡ ok (attempt key e value c) = rw (o, k) refl in
    elim (Bool-cases (expected_matches (get key c.records) e)) [
      | inl u ↦
          let stored : get key (store_value key value c).1.records ≡ some (new_record value c) =
            get-set key key _ c.records ∙ rw (eq_self key) refl in
          (
            (store_value key value c).0,
            (store_value key value c).1,
            returns ∙ ap ok (rw u refl),
            sym u,
            λ j. get-set key j _ c.records,
            refl,
            sym (ap recorded_value stored),
            sym (ap recorded_revision stored),
          )
      | inr u ↦
          let (a, v, r) = refused_reports (get key c.records) in
          (
            refused (get key c.records),
            c,
            returns ∙ ap ok (rw u refl),
            a ∙ sym u,
            λ j. rw a refl,
            rw a refl,
            v,
            r,
          )
    ]
