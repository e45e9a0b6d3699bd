-- ===== src/Store/Reads/Lookup.antt =====
-- What scans find: the records that reads of single keys return.
use tego_next.Base.{
  Bool, true, false, ◌&&◌, List, [], ◌∷◌, Option, none, some, Map, get, set, delete, get-set,
  get-delete, values, map, filter, take, take-length, length, sort_by, insert_by, ok, ◌≡◌, refl,
  sym, ap, ◌∙◌, subst, All, Bool-cases, inl, inr, text_beq, text_eq, if◌then◌else◌, IsUnique,
  >>=-eq-ok, ok-injective, before_irrefl,
}
use tego_next.Contracts.State.{
  StateKey, key_eq, key_beq, key_beq_iff, StateQuery, ScannedState, Versioned,
}
use tego_next.Store.Types.{
  StoredRecord, Mutation, put_mutation, delete_mutation, mutation_key, scanned_record, is_greater,
  compare_code_units, has_prefix, is_after, matches_query, assert_state_query, assert_state_key,
  for_query,
}
use tego_next.Store.Transaction.{
  MemoryTransaction, assert_active, get_state, scan_state, scan_records, overlay, staged_view,
  versioned, shown_revision, limit_or,
}
use tego_next.Store.State.{MemoryStateStore, assert_open}
use tego_next.Store.Session.{read}
use tego_next.Store.Reads.{scan, is_scanned, scanned_after}

-- The keys that a query asks for, but for its limit.
abbrev pub asks : StateQuery → StateKey → Bool
asks q k =
    text_beq k.namespace q.namespace
    && (text_beq k.collection q.collection
        && (has_prefix q.id_prefix k.id && is_after q.after_id k.id))

-- What a scan has returned for a key.
abbrev pub found : StateKey → List ScannedState → Option Versioned
found k [] = none
found k (x ∷ xs) =
    let rest = found k xs in
    if key_beq x.key k then some (record { value = x.value; revision = x.revision }) else rest

abbrev locate : StateKey → List StoredRecord → Option StoredRecord
locate k [] = none
locate k (r ∷ rs) = let rest = locate k rs in if key_beq r.key k then some r else rest

abbrev pub only_if {ℓ} : {A : Type ℓ} → Bool → Option A → Option A
only_if true o = o
only_if false o = none

found-map :
    (k : StateKey) (rs : List StoredRecord)
    → found k (map scanned_record rs) ≡ versioned (locate k rs)
unfolding scanned_record
found-map k [] = refl
found-map k (r ∷ rs) = elim (Bool-cases (key_beq r.key k)) [
  | inl e ↦ rw e refl
  | inr e ↦ rw e (found-map k rs)
]

-- Records under the keys that they name.
abbrev pub AreKeyed : Map StateKey StoredRecord → Type 0
AreKeyed m = All (λ e. e.1.key ≡ e.0) m

abbrev pub AreStaged : Map StateKey Mutation → Type 0
AreStaged m = All (λ e. mutation_key e.1 ≡ e.0) m

locate-values :
    (k : StateKey) (m : Map StateKey StoredRecord) → AreKeyed m → locate k (values m) ≡ get k m
unfolding get
locate-values k [] h = refl
locate-values k ((j, r) ∷ m) h = rw (h.0, locate-values k m h.1) refl

locate-filter :
    (k : StateKey) (keep : StoredRecord → Bool) (asked : StateKey → Bool) (rs : List StoredRecord)
    → ((r : StoredRecord) → keep r ≡ asked r.key)
    → locate k (filter keep rs) ≡ only_if (asked k) (locate k rs)
locate-filter k keep asked [] h = elim (Bool-cases (asked k)) [
  | inl e ↦ rw e refl
  | inr e ↦ rw e refl
]
locate-filter k keep asked (r ∷ rs) h = elim (Bool-cases (key_beq r.key k)) [
  | inl e ↦
      let same = h r ∙ ap asked ((key_beq_iff r.key k).0 e) in
      elim (Bool-cases (asked k)) [
        | inl a ↦ rw (same ∙ a, e, a) refl
        | inr a ↦ rw (same ∙ a, e, a) (locate-filter k keep asked rs h ∙ rw a refl)
      ]
  | inr e ↦ elim (Bool-cases (keep r)) [
    | inl b ↦ rw (b, e) (locate-filter k keep asked rs h)
    | inr b ↦ rw (b, e) (locate-filter k keep asked rs h)
  ]
]

-- Of two records of one key, neither is sorted after the other.
module _ (gt : StoredRecord → StoredRecord → Bool)
    (apart : (r s : StoredRecord) → r.key ≡ s.key → gt r s ≡ false) where
  locate-insert :
      (k : StateKey) (r : StoredRecord) (rs : List StoredRecord)
      → locate k (insert_by gt r rs) ≡ locate k (r ∷ rs)
  unfolding insert_by
  locate-insert k r [] = refl
  locate-insert k r (s ∷ rs) = elim (Bool-cases (gt r s)) [
    | inr e ↦ rw e refl
    | inl e ↦ elim (Bool-cases (key_beq s.key k)) [
      | inr f ↦ rw (e, f) (locate-insert k r rs)
      | inl f ↦ elim (Bool-cases (key_beq r.key k)) [
        | inr g ↦ rw (e, f, g) refl
        | inl g ↦
            let same = apart r s ((key_beq_iff r.key k).0 g ∙ sym ((key_beq_iff s.key k).0 f)) in
            cc (e, same)
      ]
    ]
  ]

  locate-sort : (k : StateKey) (rs : List StoredRecord) → locate k (sort_by gt rs) ≡ locate k rs
  unfolding sort_by
  locate-sort k [] = refl
  locate-sort k (r ∷ rs) =
      locate-insert k r (sort_by gt rs)
      ∙ ap (λ (o : Option StoredRecord). if key_beq r.key k then some r else o) (locate-sort k rs)

after-apart :
    (r s : StoredRecord) → r.key ≡ s.key → is_greater (compare_code_units r.key.id s.key.id) ≡ false
unfolding compare_code_units
after-apart r s e = rw (e, before_irrefl s.key.id) refl

-- A page without a limit, whatever the list.
page_finds :
    (q : StateQuery) (k : StateKey) (keep : StoredRecord → Bool)
    (gt : StoredRecord → StoredRecord → Bool) (m : Map StateKey StoredRecord)
    → ((r s : StoredRecord) → r.key ≡ s.key → gt r s ≡ false)
    → ((r : StoredRecord) → keep r ≡ asks q r.key)
    → q.limit ≡ none
    → AreKeyed m
    → let matching = sort_by gt (filter keep (values m)) in
      found k (map scanned_record (take (limit_or q.limit (length matching)) matching))
      ≡ versioned (only_if (asks q k) (get k m))
page_finds q k keep gt m apart same unlimited keyed =
    let matching = sort_by gt (filter keep (values m)) in
    rw
      (
        unlimited,
        take-length matching,
        found-map k matching,
        locate-sort gt apart k (filter keep (values m)),
        locate-filter k keep (asks q) (values m) same,
        locate-values k m keyed,
      )
      refl

AreKeyed-set :
    (k : StateKey) (r : StoredRecord) (m : Map StateKey StoredRecord)
    → r.key ≡ k
    → AreKeyed m
    → AreKeyed (set k r m)
unfolding set
AreKeyed-set k r [] e h = (e, tt)
AreKeyed-set k r ((j, s) ∷ m) e h = elim (Bool-cases (key_beq j k)) [
  | inl a ↦ rw a (e ∙ sym ((key_beq_iff j k).0 a), h.1)
  | inr a ↦ rw a (h.0, AreKeyed-set k r m e h.1)
]

AreKeyed-delete :
    (k : StateKey) (m : Map StateKey StoredRecord) → AreKeyed m → AreKeyed (delete k m)
unfolding delete
AreKeyed-delete k [] h = tt
AreKeyed-delete k ((j, s) ∷ m) h = elim (Bool-cases (key_beq j k)) [
  | inl a ↦ rw a (AreKeyed-delete k m h.1)
  | inr a ↦ rw a (h.0, AreKeyed-delete k m h.1)
]

AreKeyed-overlay :
    (snapshot : Map StateKey StoredRecord) (ms : Map StateKey Mutation)
    (m : Map StateKey StoredRecord)
    → AreStaged ms
    → AreKeyed m
    → AreKeyed (overlay snapshot ms m)
unfolding overlay
AreKeyed-overlay snapshot [] m s h = h
AreKeyed-overlay snapshot ((k, delete_mutation j e) ∷ ms) m s h =
    AreKeyed-overlay snapshot ms (delete k m) s.1 (AreKeyed-delete k m h)
AreKeyed-overlay snapshot ((k, put_mutation j v e) ∷ ms) m s h =
    AreKeyed-overlay snapshot ms _ s.1 (AreKeyed-set k _ m s.0 h)

-- The record that a mutation leaves of one, over the snapshot's.
abbrev laid : Option Mutation → Option StoredRecord → Option StoredRecord → Option StoredRecord
laid none s r = r
laid (some (delete_mutation j e)) s r = none
laid (some (put_mutation j v e)) s r =
    some (record { key = j; value = v; revision = shown_revision s })

get-overlay :
    (k : StateKey) (snapshot : Map StateKey StoredRecord) (ms : Map StateKey Mutation)
    (m : Map StateKey StoredRecord)
    → IsUnique ms
    → get k (overlay snapshot ms m) ≡ laid (get k ms) (get k snapshot) (get k m)
unfolding overlay get
get-overlay k snapshot [] m u = refl
get-overlay k snapshot ((j, delete_mutation i e) ∷ ms) m u = elim (Bool-cases (key_beq j k)) [
  | inl a ↦
      let same = (key_beq_iff j k).0 a in
      let absent : get k ms ≡ none = subst (λ x. get x ms ≡ none) same u.0 in
      let gone : get k (delete j m) ≡ none = get-delete j k m ∙ rw a refl in
      rw a (get-overlay k snapshot ms (delete j m) u.1 ∙ rw (absent, gone) refl)
  | inr a ↦
      let kept : get k (delete j m) ≡ get k m = get-delete j k m ∙ rw a refl in
      rw a (get-overlay k snapshot ms (delete j m) u.1 ∙ rw kept refl)
]
get-overlay k snapshot ((j, put_mutation i v e) ∷ ms) m u =
    let r : StoredRecord = record {
      key = i;
      value = v;
      revision = shown_revision (get j snapshot);
    } in
    elim (Bool-cases (key_beq j k)) [
      | inl a ↦
          let same = (key_beq_iff j k).0 a in
          let absent : get k ms ≡ none = subst (λ x. get x ms ≡ none) same u.0 in
          let written : get k (set j r m) ≡ some r = get-set j k r m ∙ rw a refl in
          rw a (
            get-overlay k snapshot ms (set j r m) u.1
            ∙ rw (absent, written)
                (ap
                  (λ x.
                    some
                      (record { key = i; value = v; revision = shown_revision (get x snapshot) }))
                  same))
      | inr a ↦
          let kept : get k (set j r m) ≡ get k m = get-set j k r m ∙ rw a refl in
          rw a (get-overlay k snapshot ms (set j r m) u.1 ∙ rw kept refl)
    ]

versioned-laid :
    (o : Option Mutation) (r : Option StoredRecord) → versioned (laid o r r) ≡ staged_view o r
unfolding staged_view
versioned-laid none r = refl
versioned-laid (some (delete_mutation j e)) r = refl
versioned-laid (some (put_mutation j v e)) r = refl

only_if-versioned :
    (b : Bool) (o : Option StoredRecord) → versioned (only_if b o) ≡ only_if b (versioned o)
only_if-versioned true o = refl
only_if-versioned false o = refl

-- A scan of the store without a limit finds, for a key that its query asks for, what a read of the
-- key returns, and nothing for any other key; a scan in a transaction finds so what its own `get`
-- returns, with everything staged so far. This is where each record of the store or of the
-- transaction's snapshot stands under the key that it names, each staged mutation too, and no key
-- has two mutations.
pub scans_find_reads :
    (q : StateQuery) (k : StateKey) (s : MemoryStateStore) (t : MemoryTransaction)
    (xs ys : List ScannedState) (u v : Option Versioned)
    → q.limit ≡ none
    → AreKeyed s.records
    → AreKeyed t.snapshot
    → AreStaged t.mutations
    → IsUnique t.mutations
    → scan q s ≡ ok xs
    → read k s ≡ ok u
    → scan_state q t ≡ ok ys
    → get_state k t ≡ ok v
    → (found k xs ≡ only_if (asks q k) u) × (found k ys ≡ only_if (asks q k) v)
unfolding scan read scan_state get_state scan_records matches_query
scans_find_reads q k s t xs ys u v unlimited keyed snapped staged unique hx hu hy hv =
    let (_, _, x₁) = >>=-eq-ok (assert_open s) _ hx in
    let (_, _, x₂) = >>=-eq-ok (assert_state_query q) _ x₁ in
    let (_, _, u₁) = >>=-eq-ok (assert_open s) _ hu in
    let (_, _, u₂) = >>=-eq-ok (assert_state_key k for_query) _ u₁ in
    let (_, _, y₁) = >>=-eq-ok (assert_active t) _ hy in
    let (_, _, y₂) = >>=-eq-ok (assert_state_query q) _ y₁ in
    let (_, _, v₁) = >>=-eq-ok (assert_active t) _ hv in
    let (_, _, v₂) = >>=-eq-ok (assert_state_key k for_query) _ v₁ in
    let shown = overlay t.snapshot t.mutations t.snapshot in
    let one =
      page_finds q k (is_scanned q) scanned_after s.records after-apart (λ r. refl) unlimited
        keyed in
    let two =
      page_finds q k (matches_query q) (λ l r. is_greater (compare_code_units l.key.id r.key.id))
        shown after-apart (λ r. refl) unlimited
        (AreKeyed-overlay t.snapshot t.mutations t.snapshot staged snapped) in
    let seen =
      ap versioned (get-overlay k t.snapshot t.mutations t.snapshot unique)
      ∙ versioned-laid (get k t.mutations) (get k t.snapshot) in
    (
      ap (found k) (sym (ok-injective x₂))
          ∙ (one
              ∙ (only_if-versioned (asks q k) (get k s.records)
                  ∙ ap (only_if (asks q k)) (ok-injective u₂))),
      ap (found k) (sym (ok-injective y₂))
          ∙ (two
              ∙ (only_if-versioned (asks q k) (get k shown)
                  ∙ ap (only_if (asks q k)) (seen ∙ ok-injective v₂))),
    )
