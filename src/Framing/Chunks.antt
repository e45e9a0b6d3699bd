-- ===== src/Framing/Chunks.antt =====
-- A byte stream that is decoded however it is cut.
use mathlib.Core.Path.{fun_ext}
use tego_next.Base.{
  subst, ℕ, List, [], ◌∷◌, ◌++◌, Option, none, some, ok, err, ◌≡◌, refl, sym, ap, ◌∙◌, arith, ltb,
  Bool-cases, inl, inr, length,
}
use tego_next.Contracts.Json.{JsonValue}
use tego_next.Contracts.Diagnostic.{Outcome}
use tego_next.Framing.{
  JsonCodec, FrameDecoder, new_decoder, Decoded, decode_payload, length_in_range, read_uint32_be,
  push_chunk,
}
use tego_next.Framing.Bytewise.{
  fed_after, then_values, feed, byte_step, payload_step, header_step, value_step, IsPartial,
  fed_after_append, fed_after_nil, push_chunk-feed, in_range_pos,
}

abbrev pub concat {ℓ} : {A : Type ℓ} → List (List A) → List A
concat [] = []
concat (x ∷ xs) = x ++ concat xs

module _ (c : JsonCodec) where
  -- A reader that pushes one chunk after another; the first throw ends it.
  unfoldable pub push_chunks : List (List ℕ) → FrameDecoder → Decoded (List JsonValue)
  push_chunks [] d = (ok [], d)
  push_chunks (x ∷ xs) d = then_values c (push_chunk c x d) (push_chunks xs)

  then_assoc :
      (x : Decoded (List JsonValue)) (f g : FrameDecoder → Decoded (List JsonValue))
      → then_values c (then_values c x f) g ≡ then_values c x (λ d. then_values c (f d) g)
  then_assoc (err e, d) f g = refl
  then_assoc (ok vs, d) f g = after (f d)
    where
      after :
          (y : Decoded (List JsonValue))
          → then_values c (fed_after c vs y) g ≡ fed_after c vs (then_values c y g)
      after (err e, d') = refl
      after (ok ws, d') = sym (fed_after_append c vs ws (g d'))

  pub feed-append :
      (xs ys : List ℕ) (d : FrameDecoder)
      → feed c (xs ++ ys) d ≡ then_values c (feed c xs d) (feed c ys)
  unfolding feed
  feed-append [] ys d = sym (fed_after_nil c (feed c ys d))
  feed-append (x ∷ xs) ys d =
      ap (then_values c (byte_step c x d)) (fun_ext (feed-append xs ys))
      ∙ sym (then_assoc (byte_step c x d) (feed c xs) (feed c ys))

  -- What a call leaves is partial again, also one that throws.
  abbrev pub LeavesPartial : Decoded (List JsonValue) → Type 0
  LeavesPartial (o, d) = IsPartial c d.header d.payload

  value_step-IsPartial : (o : Outcome JsonValue) → LeavesPartial (value_step c o)
  unfolding value_step
  value_step-IsPartial (err e) = omega arith
  value_step-IsPartial (ok v) = omega arith

  header_step-IsPartial : (h : List ℕ) → LeavesPartial (header_step c h)
  unfolding header_step
  header_step-IsPartial h = elim (Bool-cases (ltb (length h) 4)) [
    | inl s ↦ rw s (ground arith)
    | inr s ↦ elim (Bool-cases (length_in_range (read_uint32_be h))) [
      | inl t ↦ rw (s, t) (in_range_pos c _ t, refl)
      | inr t ↦ rw (s, t) (omega arith)
    ]
  ]

  payload_step-IsPartial : (size : ℕ) (r : List ℕ) → LeavesPartial (payload_step c size r)
  unfolding payload_step
  payload_step-IsPartial size r = elim (Bool-cases (ltb (length r) size)) [
    | inl s ↦ rw s (ground arith, refl)
    | inr s ↦ rw s (value_step-IsPartial (decode_payload c r))
  ]

  byte_step-IsPartial :
      (b : ℕ) (h : List ℕ) (p : Option (ℕ × List ℕ))
      → LeavesPartial (byte_step c b (record { header = h; payload = p }))
  unfolding byte_step
  byte_step-IsPartial b h none = header_step-IsPartial (h ++ b ∷ [])
  byte_step-IsPartial b h (some (size, r)) = payload_step-IsPartial size (r ++ b ∷ [])

  then_values-IsPartial :
      (x : Decoded (List JsonValue)) (f : FrameDecoder → Decoded (List JsonValue))
      → LeavesPartial x
      → ((d : FrameDecoder) → IsPartial c d.header d.payload → LeavesPartial (f d))
      → LeavesPartial (then_values c x f)
  then_values-IsPartial (err e, d) f h k = h
  then_values-IsPartial (ok vs, d) f h k = after (f d) (k d h)
    where
      after : (y : Decoded (List JsonValue)) → LeavesPartial y → LeavesPartial (fed_after c vs y)
      after (err e, d') i = i
      after (ok ws, d') i = i

  feed-IsPartial :
      (xs : List ℕ) (d : FrameDecoder)
      → IsPartial c d.header d.payload
      → LeavesPartial (feed c xs d)
  unfolding feed
  feed-IsPartial [] d h = h
  feed-IsPartial (x ∷ xs) d h =
      then_values-IsPartial (byte_step c x d) (feed c xs) (byte_step-IsPartial x d.header d.payload)
        (feed-IsPartial xs)

  then_same :
      (x : Decoded (List JsonValue)) (f g : FrameDecoder → Decoded (List JsonValue))
      → LeavesPartial x
      → ((d : FrameDecoder) → IsPartial c d.header d.payload → f d ≡ g d)
      → then_values c x f ≡ then_values c x g
  then_same (err e, d) f g h k = refl
  then_same (ok vs, d) f g h k = ap (fed_after c vs) (k d h)

  push_chunks-feed :
      (xs : List (List ℕ)) (d : FrameDecoder)
      → IsPartial c d.header d.payload
      → push_chunks xs d ≡ feed c (concat xs) d
  unfolding push_chunks feed
  push_chunks-feed [] d h = refl
  push_chunks-feed (x ∷ xs) d h =
      ap (λ y. then_values c y (push_chunks xs)) (push_chunk-feed c x d h)
      ∙ then_same (feed c x d) (push_chunks xs) (feed c (concat xs)) (feed-IsPartial x d h)
          (push_chunks-feed xs)
      ∙ sym (feed-append x (concat xs) d)

  -- However the bytes of a stream are cut into chunks, pushing the chunks one after another into a
  -- new decoder does what pushing all the bytes at once does: it gives the same values in the same
  -- order or throws the same error, and leaves the same decoder. What a chunk leaves begun is never
  -- complete, whatever it was.
  pub chunks_do_not_matter :
      (xs : List (List ℕ))
      → (push_chunks xs new_decoder ≡ push_chunk c (concat xs) new_decoder)
        × LeavesPartial (push_chunks xs new_decoder)
  chunks_do_not_matter xs =
      let fed = push_chunks-feed xs new_decoder (omega arith) in
      (
        fed ∙ sym (push_chunk-feed c (concat xs) new_decoder (omega arith)),
        subst LeavesPartial (sym fed) (feed-IsPartial (concat xs) new_decoder (omega arith)),
      )
