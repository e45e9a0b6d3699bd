-- ===== src/Dedupe.antt =====
-- packages/transport-websocket/src/capability-dedupe.ts: a map of calls in which settled entries
-- may be evicted, the least recently used first, and pending ones never.
use tego_next.Base.{
  ℕ, zero, suc, ◌≤◌, Bool, true, false, [], ◌∷◌, Option, none, some, Map, Eq, ◌==◌, get, set,
  delete, ltb, length, if◌then◌else◌, ◌≡◌, refl, sym, ap, ◌∙◌, arith, Bool-cases, inl, inr,
  Option-cases, get-delete, IsUnique, delete_absent, ◌≢◌,
}

module _ {K E : Type 0} ⦃k : Eq K⦄ (settled : E → Bool) where
  touch : K → Option E → Map K E → Map K E
  touch key none m = m
  touch key (some e) m = if settled e then set key e (delete key m) else m

  -- A settled entry that is read becomes the most recently used.
  unfoldable pub get_capability_entry : Map K E → K → Option E × Map K E
  unfolding touch
  get_capability_entry m key = (get key m, touch key (get key m) m)

  -- The key of the first settled entry.
  pub least_recently_used : Map K E → Option K
  least_recently_used [] = none
  least_recently_used ((j, e) ∷ m) =
      let rest = least_recently_used m in if settled e then some j else rest

  -- The loop evicts an entry in each round, so the number of entries bounds the rounds.
  reserve_rounds : ℕ → Map K E → ℕ → Bool × Map K E
  reserve_rounds zero m maximum = (ltb (length m) maximum, m)
  reserve_rounds (suc fuel) m maximum =
      let evicted = λ (j : K). reserve_rounds fuel (delete j m) maximum in
      if ltb (length m) maximum
      then (true, m)
      else elim (least_recently_used m) [ none ↦ (false, m) | some j ↦ evicted j ]

  unfoldable pub reserve_capability_entry : Map K E → ℕ → Bool × Map K E
  unfolding reserve_rounds
  reserve_capability_entry m maximum = reserve_rounds (length m) m maximum

  unfoldable pub count_pending_capability_entries : Map K E → ℕ
  count_pending_capability_entries [] = 0
  count_pending_capability_entries ((j, e) ∷ m) =
      let rest = count_pending_capability_entries m in if settled e then rest else suc rest

  abbrev pending_entries : Map K E → Map K E
  pending_entries [] = []
  pending_entries ((j, e) ∷ m) =
      let rest = pending_entries m in if settled e then rest else (j, e) ∷ rest

  lru_here : (j : K) (m : Map K E) → least_recently_used m ≡ some j → get j m ≢ none
  unfolding least_recently_used get
  lru_here j [] h g = cc
  lru_here j ((i, e) ∷ m) h g = ground (arith, lru_here j m, k.beq_iff i j)

  apart : (i j : K) (m : Map K E) → get i m ≡ none → get j m ≢ none → (i == j) ≡ false
  apart i j m h g = elim (Bool-cases (i == j)) [
    | inl s ↦ absurd (g (ap (λ x. get x m) (sym ((k.beq_iff i j).0 s)) ∙ h))
    | inr s ↦ s
  ]

  -- Evicting the least recently used entry takes one settled entry and nothing else.
  evict :
      (j : K) (m : Map K E)
      → IsUnique m
      → least_recently_used m ≡ some j
      → (length m ≡ suc (length (delete j m)))
        × (pending_entries (delete j m) ≡ pending_entries m)
        × IsUnique (delete j m)
  unfolding least_recently_used delete get
  evict j [] u h = absurd (ground arith)
  evict j ((i, e) ∷ m) u h = elim (Bool-cases (settled e)) [
    | inl s ↦
        let same : i ≡ j = ground arith in
        let gone : delete j m ≡ m = delete_absent j m (ap (λ x. get x m) (sym same) ∙ u.0) in
        let found = (k.beq_iff i j).1 same in rw (s, found, gone) (refl, refl, u.1)
    | inr s ↦
        let later : least_recently_used m ≡ some j = ground arith in
        let (p, q, r) = evict j m u.1 later in
        let other : (i == j) ≡ false = apart i j m u.0 (lru_here j m later) in
        rw (s, other)
          (
            omega arith,
            rw (s, q) refl,
            (get-delete j i m ∙ ground (arith, k.beq_iff j i, k.beq_iff i j), r),
          )
  ]

  all_pending : (m : Map K E) → least_recently_used m ≡ none → pending_entries m ≡ m
  unfolding least_recently_used
  all_pending [] h = refl
  all_pending ((i, e) ∷ m) h = elim (Bool-cases (settled e)) [
    | inl s ↦ absurd (ground arith)
    | inr s ↦ rw (s, all_pending m (ground arith)) refl
  ]

  pending_le : (m : Map K E) → length (pending_entries m) ≤ length m
  pending_le [] = omega arith
  pending_le ((i, e) ∷ m) = elim (Bool-cases (settled e)) [
    | inl s ↦ rw s (omega (arith, pending_le m))
    | inr s ↦ rw s (omega (arith, pending_le m))
  ]

  count_pending : (m : Map K E) → count_pending_capability_entries m ≡ length (pending_entries m)
  unfolding count_pending_capability_entries
  count_pending [] = refl
  count_pending ((i, e) ∷ m) = elim (Bool-cases (settled e)) [
    | inl s ↦ rw s (count_pending m)
    | inr s ↦ rw s (ap suc (count_pending m))
  ]

  abbrev pub IsReserved : Map K E → ℕ → Bool × Map K E → Type 0
  IsReserved m maximum (answer, n) =
      (pending_entries n ≡ pending_entries m)
      × IsUnique n
      × (answer ≡ ltb (length n) maximum)
      × (answer ≡ ltb (length (pending_entries m)) maximum)

  IsReserved-at_once :
      (m : Map K E) (maximum : ℕ)
      → IsUnique m
      → ltb (length m) maximum ≡ true
      → IsReserved m maximum (true, m)
  IsReserved-at_once m maximum u h = (refl, u, sym h, let small = pending_le m in ground arith)

  reserve_rounds-IsReserved :
      (fuel : ℕ) (m : Map K E) (maximum : ℕ)
      → IsUnique m
      → length m ≤ fuel
      → IsReserved m maximum (reserve_rounds fuel m maximum)
  unfolding reserve_rounds
  reserve_rounds-IsReserved zero [] maximum u h = (refl, u, refl, refl)
  reserve_rounds-IsReserved zero (x ∷ m) maximum u h = absurd (omega arith)
  reserve_rounds-IsReserved (suc fuel) m maximum u h = elim (Bool-cases (ltb (length m) maximum)) [
    | inl s ↦ rw s (IsReserved-at_once m maximum u s)
    | inr s ↦ elim (Option-cases (least_recently_used m)) [
      | inl e ↦ rw (s, e) (refl, u, sym s, rw (all_pending m e) (sym s))
      | inr (j, e) ↦
          let (p, q, v) = evict j m u e in
          let (q', v', a, b) =
            reserve_rounds-IsReserved fuel (delete j m) maximum v (omega arith) in
          rw (s, e) (q' ∙ q, v', a, b ∙ ap (λ x. ltb (length x) maximum) q)
    ]
  ]

  -- In a map in which each key stands once, reserving answers whether fewer entries are pending
  -- than the maximum, which is also whether fewer entries than the maximum are left; the pending
  -- entries are left as they were and in their order, each key stands once again, and the count
  -- of the pending entries is their number.
  pub reserve_keeps_pending :
      (m : Map K E) (maximum : ℕ)
      → IsUnique m
      → IsReserved m maximum (reserve_capability_entry m maximum)
        × (count_pending_capability_entries m ≡ length (pending_entries m))
  unfolding reserve_capability_entry
  reserve_keeps_pending m maximum u =
      (reserve_rounds-IsReserved (length m) m maximum u (omega arith), count_pending m)
