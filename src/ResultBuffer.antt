-- ===== src/ResultBuffer.antt =====
-- packages/transport-websocket/src/result-buffer.ts: terminal results that a worker keeps until
-- they are acknowledged, within a count and a number of bytes. A result is JSON data, of which a
-- clone is kept; its size (`jsonBytes`) and its attempt (`attemptKey` of its ids) are parameters.
-- Two results are compared by their JSON texts, which list the members as the data does.
use tego_next.Base.{
  ℕ, suc, ◌+◌, ◌-◌, ◌≤◌, Bool, true, false, ◌||◌, ◌&&◌, List, [], ◌∷◌, Option, none, some, Map, Eq,
  ◌==◌, get, set, delete, values, leb, ltb, length, if◌then◌else◌, ok, err, ◌≡◌, refl, sym, ap, ◌∙◌,
  arith, Bool-cases, inl, inr, get-set, get-delete, IsUnique, IsUnique-set, subst, delete_absent,
  eq_self, Option-cases, map, ◌>>=◌, nat_eq,
}
use tego_next.Contracts.Json.{JsonValue, json_beq, json_beq_iff, serialize_wire_value}
use tego_next.Contracts.Json.Canonical.{serialize_wire_value_idem}
use tego_next.Contracts.Platform.{is_safe_integer}
use tego_next.Contracts.Diagnostic.{
  Outcome, executor_remote_result_conflict, executor_remote_result_buffer_exhausted, foreign_error,
}

-- packages/transport-websocket/src/remote-protocol.ts, `positiveLimit`.
unfoldable pub positive_limit : Option ℕ → ℕ → Outcome ℕ
positive_limit none fallback = ok fallback
positive_limit (some n) fallback = if is_safe_integer n && ltb 0 n then ok n else err foreign_error

pub record BufferedResult : Type 0 where
  pub result : JsonValue
  pub bytes : ℕ

pub record ResultBuffer (K : Type 0) : Type 0 where
  pub max_count : ℕ
  pub max_bytes : ℕ
  pub entries : Map K BufferedResult
  pub bytes : ℕ

abbrev pub entry_bytes : {K : Type 0} → Map K BufferedResult → ℕ
entry_bytes [] = 0
entry_bytes ((k, e) ∷ m) = e.bytes + entry_bytes m

module _ {K : Type 0} ⦃k : Eq K⦄ (key_of : JsonValue → K) (bytes_of : JsonValue → ℕ) where
  unfoldable pub new_buffer : Option ℕ → Option ℕ → Outcome (ResultBuffer K)
  new_buffer max_count max_bytes = do
    count ← positive_limit max_count 256
    bytes ← positive_limit max_bytes 1048576
    ok (record { max_count = count; max_bytes = bytes; entries = []; bytes = 0 })

  put_new : JsonValue → ResultBuffer K → Outcome (ResultBuffer K)
  put_new r b =
      if leb b.max_count (length b.entries) || ltb b.max_bytes (b.bytes + bytes_of r)
      then err executor_remote_result_buffer_exhausted
      else ok (record b {
        entries =
            set (key_of r) (record { result = serialize_wire_value r; bytes = bytes_of r })
              b.entries;
        bytes = b.bytes + bytes_of r;
      })

  put_over : Option BufferedResult → JsonValue → ResultBuffer K → Outcome (ResultBuffer K)
  unfolding put_new
  put_over none r b = put_new r b
  put_over (some x) r b = if json_beq x.result r then ok b else err executor_remote_result_conflict

  unfoldable pub put : JsonValue → ResultBuffer K → Outcome (ResultBuffer K)
  unfolding put_over
  put r b = put_over (get (key_of r) b.entries) r b

abbrev result_of : Option BufferedResult → Option JsonValue
result_of none = none
result_of (some x) = some (serialize_wire_value x.result)

result_of-if :
    (c : Bool) (o : Option BufferedResult)
    → result_of (if c then none else o) ≡ (if c then none else result_of o)
result_of-if true o = refl
result_of-if false o = refl

module _ {K : Type 0} ⦃k : Eq K⦄ where
  unfoldable pub find : K → ResultBuffer K → Option JsonValue
  find key b = result_of (get key b.entries)

  acknowledge_entry : K → Option BufferedResult → ResultBuffer K → ResultBuffer K
  acknowledge_entry key none b = b
  acknowledge_entry key (some x) b = record b {
    entries = delete key b.entries;
    bytes = b.bytes - x.bytes;
  }

  unfoldable pub acknowledge : K → ResultBuffer K → ResultBuffer K
  unfolding acknowledge_entry
  acknowledge key b = acknowledge_entry key (get key b.entries) b

  -- `list`, clones of the results in the order in which they were put.
  pub list_results : ResultBuffer K → List JsonValue
  list_results b = map (λ x. serialize_wire_value x.result) (values b.entries)

  -- The counter is the bytes of the entries, each key stands once, and both limits are kept.
  pub record IsWithin (b : ResultBuffer K) : Type 0 where
    pub counted : b.bytes ≡ entry_bytes b.entries
    pub unique : IsUnique b.entries
    pub count_le : length b.entries ≤ b.max_count
    pub bytes_le : b.bytes ≤ b.max_bytes

  entry_bytes-set :
      (key : K) (x : BufferedResult) (m : Map K BufferedResult)
      → get key m ≡ none
      → (entry_bytes (set key x m) ≡ entry_bytes m + x.bytes)
        × (length (set key x m) ≡ length m + 1)
  unfolding get set
  entry_bytes-set key x [] h = (omega arith, omega arith)
  entry_bytes-set key x ((j, y) ∷ m) h = ground (arith, entry_bytes-set key x m)

  entry_bytes-delete :
      (key : K) (x : BufferedResult) (m : Map K BufferedResult)
      → IsUnique m
      → get key m ≡ some x
      → (entry_bytes m ≡ x.bytes + entry_bytes (delete key m))
        × (length m ≡ suc (length (delete key m)))
        × IsUnique (delete key m)
  unfolding get delete
  entry_bytes-delete key x [] u h = absurd (ground arith)
  entry_bytes-delete key x ((j, y) ∷ m) u h = elim (Bool-cases (j == key)) [
    | inl s ↦
        let gone : delete key m ≡ m =
          delete_absent key m (ap (λ i. get i m) (sym ((k.beq_iff j key).0 s)) ∙ u.0) in
        let e : y ≡ x = ground arith in rw (s, gone, e) (refl, refl, u.1)
    | inr s ↦
        let (p, q, r) = entry_bytes-delete key x m u.1 (ground arith) in
        rw s (omega arith, omega arith, (get-delete key j m ∙ ground arith, r))
  ]

  find-none : (key : K) (b : ResultBuffer K) → get key b.entries ≡ none → find key b ≡ none
  unfolding find
  find-none key b h = ap result_of h

  find-some :
      (key : K) (b : ResultBuffer K) (x : BufferedResult)
      → get key b.entries ≡ some x
      → find key b ≡ some (serialize_wire_value x.result)
  unfolding find
  find-some key b x h = ap result_of h

  -- In a buffer whose counter is the bytes of its entries, in which each attempt stands once and
  -- which keeps both limits, acknowledging an attempt keeps all of that, and forgets the result of
  -- that attempt alone.
  pub acknowledge-IsWithin :
      (key : K) (b : ResultBuffer K)
      → IsWithin b
      → IsWithin (acknowledge key b)
        × ((j : K) → find j (acknowledge key b) ≡ (if key == j then none else find j b))
  unfolding acknowledge find
  acknowledge-IsWithin key b w = elim (Option-cases (get key b.entries)) [
    | inl e ↦ rw e (
      w,
      λ j. elim (Bool-cases (key == j)) [
        | inl s ↦
            let same = (k.beq_iff key j).0 s in
            rw s (find-none j b (ap (λ i. get i b.entries) (sym same) ∙ e))
        | inr s ↦ rw s refl
      ],
    )
    | inr (x, e) ↦
        let (p, q, u) = entry_bytes-delete key x b.entries w.unique e in
        let counted = w.counted in
        let count_le = w.count_le in
        let bytes_le = w.bytes_le in
        rw e (
          record {
            counted = omega arith;
            unique = u;
            count_le = omega arith;
            bytes_le = omega arith;
          },
          λ j.
              ap result_of (get-delete key j b.entries) ∙ result_of-if (key == j) (get j b.entries),
        )
  ]

module _ {K : Type 0} ⦃k : Eq K⦄ (key_of : JsonValue → K) (bytes_of : JsonValue → ℕ) where
  abbrev IsPut : JsonValue → (b : ResultBuffer K) → Outcome (ResultBuffer K) → Type 0
  IsPut r b (err e) = Unit {0}
  IsPut r b (ok b') =
      IsWithin b'
      × (find (key_of r) b' ≡ some (serialize_wire_value r))
      × ((j : K) → (key_of r == j) ≡ false → find j b' ≡ find j b)

  put_new-IsPut :
      (r : JsonValue) (b : ResultBuffer K)
      → IsWithin b
      → get (key_of r) b.entries ≡ none
      → IsPut r b (put_new key_of bytes_of r b)
  unfolding put_new find
  put_new-IsPut r b w e' =
      let x : BufferedResult = record { result = serialize_wire_value r; bytes = bytes_of r } in
      let (p, q) = entry_bytes-set (key_of r) x b.entries e' in
      let counted = w.counted in
      let found : get (key_of r) (set (key_of r) x b.entries) ≡ some x =
        get-set (key_of r) (key_of r) x b.entries ∙ rw (eq_self (key_of r)) refl in
      elim (Bool-cases
        (leb b.max_count (length b.entries) || ltb b.max_bytes (b.bytes + bytes_of r))) [
          | inl s ↦ rw s tt
          | inr s ↦ rw s (
            record {
              counted = omega arith;
              unique = IsUnique-set (key_of r) x b.entries w.unique;
              count_le = ground arith;
              bytes_le = ground arith;
            },
            ap result_of found ∙ ap some (serialize_wire_value_idem r).1,
            λ j other. ap result_of (get-set (key_of r) j x b.entries ∙ rw other refl),
          )
        ]

  put-IsPut :
      (r : JsonValue) (b : ResultBuffer K) → IsWithin b → IsPut r b (put key_of bytes_of r b)
  unfolding put
  put-IsPut r b w = elim (Option-cases (get (key_of r) b.entries)) [
    | inl e' ↦ rw e' (put_new-IsPut r b w e')
    | inr (x, e') ↦ elim (Bool-cases (json_beq x.result r)) [
      | inl s ↦
          rw (e', s)
            (
              w,
              find-some (key_of r) b x e'
                  ∙ ap (λ v. some (serialize_wire_value v)) ((json_beq_iff x.result r).0 s),
              λ j other. refl,
            )
      | inr s ↦ rw (e', s) tt
    ]
  ]

  -- From a buffer whose counter is the bytes of its entries, in which each attempt stands once and
  -- which keeps both limits, a put that takes a result leaves such a buffer; the wire form of the
  -- result is then found under its attempt, and what is found under any other attempt is what was
  -- found before.
  pub put-IsWithin :
      (r : JsonValue) (b b' : ResultBuffer K)
      → IsWithin b
      → put key_of bytes_of r b ≡ ok b'
      → IsWithin b'
        × (find (key_of r) b' ≡ some (serialize_wire_value r))
        × ((j : K) → (key_of r == j) ≡ false → find j b' ≡ find j b)
  put-IsWithin r b b' w h = subst (IsPut r b) h (put-IsPut r b w)
