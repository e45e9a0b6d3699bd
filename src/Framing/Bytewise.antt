-- ===== src/Framing/Bytewise.antt =====
-- The frame decoder against a machine that takes one byte at a time.
use mathlib.Core.List.{append_assoc, append-nil}
use tego_next.Base.{
  ℕ, zero, suc, ◌+◌, ◌-◌, ◌≤◌, ◌<◌, min, true, false, List, [], ◌∷◌, ◌++◌, Option, none, some, ok,
  err, ◌≡◌, refl, sym, ap, ◌∙◌, arith, ltb, Bool-cases, inl, inr, if◌then◌else◌, length, take, drop,
  take-append-drop, length-drop, length-take, length-append,
}
use tego_next.Contracts.Json.{JsonValue}
use tego_next.Contracts.Diagnostic.{Outcome, protocol_process_frame_length_invalid}
use tego_next.Framing.{
  JsonCodec, FrameDecoder, new_decoder, Decoded, decode_payload, length_in_range, read_uint32_be,
  after_value, fill_payload, fill_header, decode_round, decode_rounds, push_chunk,
}

module _ (c : JsonCodec) where
  -- What one byte makes of a decoder: it may complete a value, or be refused.
  unfoldable pub value_step : Outcome JsonValue → Decoded (List JsonValue)
  value_step (err e) = (err e, new_decoder)
  value_step (ok v) = (ok (v ∷ []), new_decoder)

  unfoldable pub payload_step : ℕ → List ℕ → Decoded (List JsonValue)
  unfolding value_step
  payload_step size received =
      if ltb (length received) size
      then (ok [], record { header = []; payload = some (size, received) })
      else value_step (decode_payload c received)

  unfoldable pub header_step : List ℕ → Decoded (List JsonValue)
  header_step header =
      if ltb (length header) 4
      then (ok [], record { header = header; payload = none })
      else if length_in_range (read_uint32_be header)
      then (ok [], record { header = []; payload = some (read_uint32_be header, []) })
      else (err protocol_process_frame_length_invalid, new_decoder)

  unfoldable pub byte_step : ℕ → FrameDecoder → Decoded (List JsonValue)
  unfolding payload_step header_step
  byte_step b d = elim d.payload [
    | none ↦ header_step (d.header ++ b ∷ [])
    | some (size, received) ↦ payload_step size (received ++ b ∷ [])
  ]

  -- The same with the values of the bytes before.
  abbrev pub fed_after : List JsonValue → Decoded (List JsonValue) → Decoded (List JsonValue)
  fed_after values (err e, d) = (err e, d)
  fed_after values (ok ws, d) = (ok (values ++ ws), d)

  -- The values of what follows come after; a refused byte ends the run.
  abbrev pub then_values :
      Decoded (List JsonValue)
      → (FrameDecoder → Decoded (List JsonValue))
      → Decoded (List JsonValue)
  then_values (err e, d) rest = (err e, d)
  then_values (ok vs, d) rest = fed_after vs (rest d)

  unfoldable pub feed : List ℕ → FrameDecoder → Decoded (List JsonValue)
  unfolding byte_step
  feed [] d = (ok [], d)
  feed (b ∷ bs) d = then_values (byte_step b d) (feed bs)

  pub fed_after_nil : (x : Decoded (List JsonValue)) → fed_after [] x ≡ x
  fed_after_nil (err e, d) = refl
  fed_after_nil (ok vs, d) = refl

  pub fed_after_append :
      (vs ws : List JsonValue) (x : Decoded (List JsonValue))
      → fed_after vs (fed_after ws x) ≡ fed_after (vs ++ ws) x
  fed_after_append vs ws (err e, d) = refl
  fed_after_append vs ws (ok us, d) = ap (λ r. (ok r, d)) (sym (append_assoc vs ws us))

  abbrev heading : List ℕ → FrameDecoder
  heading h = record { header = h; payload = none }

  abbrev filling : ℕ → List ℕ → FrameDecoder
  filling size r = record { header = []; payload = some (size, r) }

  snoc_length : (h : List ℕ) (x : ℕ) → length (h ++ x ∷ []) ≡ length h + 1
  snoc_length h x = length-append h (x ∷ [])

  header_bytes :
      (h xs ys : List ℕ)
      → length h + length xs < 4
      → feed (xs ++ ys) (heading h) ≡ feed ys (heading (h ++ xs))
  unfolding feed header_step
  header_bytes h [] ys lt = rw (append-nil h) refl
  header_bytes h (x ∷ xs) ys lt =
      let short : ltb (length (h ++ x ∷ [])) 4 ≡ true = ground (arith, snoc_length h x) in
      rw short (
        fed_after_nil (feed (xs ++ ys) (heading (h ++ x ∷ [])))
        ∙ header_bytes (h ++ x ∷ []) xs ys (omega (arith, snoc_length h x))
        ∙ ap (λ r. feed ys (heading r)) (append_assoc h (x ∷ []) xs))

  pub header_full :
      (h : List ℕ) (x : ℕ) (xs ys : List ℕ)
      → length h + suc (length xs) ≡ 4
      → feed ((x ∷ xs) ++ ys) (heading h) ≡ then_values (header_step (h ++ x ∷ xs)) (feed ys)
  unfolding feed
  header_full h x [] ys e = refl
  header_full h x (y ∷ xs) ys e =
      header_bytes h (x ∷ []) ((y ∷ xs) ++ ys) (omega arith)
      ∙ header_full (h ++ x ∷ []) y xs ys (omega (arith, snoc_length h x))
      ∙ ap (λ r. then_values (header_step r) (feed ys)) (append_assoc h (x ∷ []) (y ∷ xs))

  payload_bytes :
      (size : ℕ) (r xs ys : List ℕ)
      → length r + length xs < size
      → feed (xs ++ ys) (filling size r) ≡ feed ys (filling size (r ++ xs))
  unfolding feed payload_step
  payload_bytes size r [] ys lt = rw (append-nil r) refl
  payload_bytes size r (x ∷ xs) ys lt =
      let short : ltb (length (r ++ x ∷ [])) size ≡ true = ground (arith, snoc_length r x) in
      rw short (
        fed_after_nil (feed (xs ++ ys) (filling size (r ++ x ∷ [])))
        ∙ payload_bytes size (r ++ x ∷ []) xs ys (omega (arith, snoc_length r x))
        ∙ ap (λ q. feed ys (filling size q)) (append_assoc r (x ∷ []) xs))

  pub payload_full :
      (size : ℕ) (r : List ℕ) (x : ℕ) (xs ys : List ℕ)
      → length r + suc (length xs) ≡ size
      → feed ((x ∷ xs) ++ ys) (filling size r)
        ≡ then_values (value_step (decode_payload c (r ++ x ∷ xs))) (feed ys)
  unfolding feed payload_step
  payload_full size r x [] ys e =
      let full : ltb (length (r ++ x ∷ [])) size ≡ false = ground (arith, snoc_length r x) in
      rw full refl
  payload_full size r x (y ∷ xs) ys e =
      payload_bytes size r (x ∷ []) ((y ∷ xs) ++ ys) (omega arith)
      ∙ payload_full size (r ++ x ∷ []) y xs ys (omega (arith, snoc_length r x))
      ∙ ap (λ q. then_values (value_step (decode_payload c q)) (feed ys))
          (append_assoc r (x ∷ []) (y ∷ xs))

  -- What holds between pushes: a header or a payload that is begun is not complete.
  abbrev pub IsPartial : List ℕ → Option (ℕ × List ℕ) → Type 0
  IsPartial header none = length header < 4
  IsPartial header (some (size, received)) = (length received < size) × (header ≡ [])

  -- The rounds that are left behave as the bytes that are left.
  abbrev FeedsUpTo :
      ℕ → (List ℕ → FrameDecoder → List JsonValue → Decoded (List JsonValue)) → Type 0
  FeedsUpTo fuel more =
      (input : List ℕ) (d : FrameDecoder) (values : List JsonValue)
      → length input ≤ fuel
      → IsPartial d.header d.payload
      → more input d values ≡ fed_after values (feed input d)

  after_value-feed :
      (fuel : ℕ) (o : Outcome JsonValue) (values : List JsonValue) (ys : List ℕ)
      (more : List ℕ → FrameDecoder → List JsonValue → Decoded (List JsonValue))
      → FeedsUpTo fuel more
      → length ys ≤ fuel
      → after_value c o values (more ys new_decoder)
        ≡ fed_after values (then_values (value_step o) (feed ys))
  unfolding after_value value_step
  after_value-feed fuel (err e) values ys more ih room = refl
  after_value-feed fuel (ok v) values ys more ih room =
      ih ys new_decoder (values ++ v ∷ []) room (omega arith)
      ∙ sym (fed_after_append values (v ∷ []) (feed ys new_decoder))

  filled :
      (fuel size : ℕ) (r xs ys : List ℕ) (values : List JsonValue)
      (more : List ℕ → FrameDecoder → List JsonValue → Decoded (List JsonValue))
      → FeedsUpTo fuel more
      → length r < size
      → length xs ≡ min (size - length r) (length xs + length ys)
      → length ys ≤ fuel
      → (if ltb (length (r ++ xs)) size
          then more ys (filling size (r ++ xs)) values
          else after_value c (decode_payload c (r ++ xs)) values (more ys new_decoder))
        ≡ fed_after values (feed (xs ++ ys) (filling size r))
  filled fuel size r [] ys values more ih lt e room =
      let short : ltb (length (r ++ [])) size ≡ true = ground (arith, length-append r []) in
      rw short (
        ih ys (filling size (r ++ [])) values room (omega (arith, length-append r []), refl)
        ∙ ap (λ q. fed_after values (feed ys (filling size q))) (append-nil r))
  filled fuel size r (x ∷ xs) ys values more ih lt e room =
      elim (Bool-cases (ltb (length (r ++ x ∷ xs)) size)) [
        | inl s ↦
            let bound : length r + suc (length xs) < size =
              ground (arith, length-append r (x ∷ xs)) in
            rw s (
              ih ys (filling size (r ++ x ∷ xs)) values room
                (omega (arith, length-append r (x ∷ xs)), refl)
              ∙ ap (fed_after values) (sym (payload_bytes size r (x ∷ xs) ys bound)))
        | inr s ↦
            let full : length r + suc (length xs) ≡ size =
              ground (arith, length-append r (x ∷ xs)) in
            rw s (
              after_value-feed fuel (decode_payload c (r ++ x ∷ xs)) values ys more ih room
              ∙ ap (fed_after values) (sym (payload_full size r x xs ys full)))
      ]

  take-min :
      (n : ℕ) (xs : List ℕ)
      → length (take (min n (length xs)) xs)
        ≡ min n (length (take (min n (length xs)) xs) + length (drop (min n (length xs)) xs))
  take-min n xs =
      omega (arith, length-take (min n (length xs)) xs, length-drop (min n (length xs)) xs)

  fill_payload-feed :
      (fuel size : ℕ) (r input : List ℕ) (values : List JsonValue)
      (more : List ℕ → FrameDecoder → List JsonValue → Decoded (List JsonValue))
      → FeedsUpTo fuel more
      → length r < size
      → length (drop (min (size - length r) (length input)) input) ≤ fuel
      → fill_payload c size r input values more ≡ fed_after values (feed input (filling size r))
  unfolding fill_payload
  fill_payload-feed fuel size r input values more ih lt room =
      let n = min (size - length r) (length input) in
      filled fuel size r (take n input) (drop n input) values more ih lt
        (take-min (size - length r) input) room
      ∙ ap (λ i. fed_after values (feed i (filling size r))) (take-append-drop n input)

  pub in_range_pos : (n : ℕ) → length_in_range n ≡ true → 0 < n
  unfolding length_in_range
  in_range_pos n h = ground arith

  headed :
      (fuel : ℕ) (h xs ys : List ℕ) (values : List JsonValue)
      (more : List ℕ → FrameDecoder → List JsonValue → Decoded (List JsonValue))
      → FeedsUpTo fuel more
      → length h < 4
      → length xs ≡ min (4 - length h) (length xs + length ys)
      → length ys ≤ fuel
      → (if ltb (length (h ++ xs)) 4
          then more ys (heading (h ++ xs)) values
          else if length_in_range (read_uint32_be (h ++ xs))
          then fill_payload c (read_uint32_be (h ++ xs)) [] ys values more
          else (err protocol_process_frame_length_invalid, new_decoder))
        ≡ fed_after values (feed (xs ++ ys) (heading h))
  unfolding header_step
  headed fuel h [] ys values more ih lt e room =
      let short : ltb (length (h ++ [])) 4 ≡ true = ground (arith, length-append h []) in
      rw short (
        ih ys (heading (h ++ [])) values room (omega (arith, length-append h []))
        ∙ ap (λ q. fed_after values (feed ys (heading q))) (append-nil h))
  headed fuel h (x ∷ xs) ys values more ih lt e room =
      elim (Bool-cases (ltb (length (h ++ x ∷ xs)) 4)) [
        | inl s ↦
            let bound : length h + suc (length xs) < 4 = ground (arith, length-append h (x ∷ xs)) in
            rw s (
              ih ys (heading (h ++ x ∷ xs)) values room (omega (arith, length-append h (x ∷ xs)))
              ∙ ap (fed_after values) (sym (header_bytes h (x ∷ xs) ys bound)))
        | inr s ↦
            let full : length h + suc (length xs) ≡ 4 = ground (arith, length-append h (x ∷ xs)) in
            rw (header_full h x xs ys full, s)
              (elim (Bool-cases (length_in_range (read_uint32_be (h ++ x ∷ xs)))) [
                | inl t ↦ rw t (
                    fill_payload-feed fuel (read_uint32_be (h ++ x ∷ xs)) [] ys values more ih
                      (in_range_pos _ t)
                      (omega (
                        arith,
                        length-drop (min (read_uint32_be (h ++ x ∷ xs) - 0) (length ys)) ys,
                      ))
                    ∙ ap (fed_after values) (sym (fed_after_nil _)))
                | inr t ↦ rw t refl
              ])
      ]

  decode_round-feed :
      (fuel b : ℕ) (bs : List ℕ) (h : List ℕ) (p : Option (ℕ × List ℕ)) (values : List JsonValue)
      (more : List ℕ → FrameDecoder → List JsonValue → Decoded (List JsonValue))
      → FeedsUpTo fuel more
      → length bs ≤ fuel
      → IsPartial h p
      → decode_round c (b ∷ bs) (record { header = h; payload = p }) values more
        ≡ fed_after values (feed (b ∷ bs) (record { header = h; payload = p }))
  unfolding decode_round fill_header feed
  decode_round-feed fuel b bs h none values more ih room q =
      let n = min (4 - length h) (length (b ∷ bs)) in
      headed fuel h (take n (b ∷ bs)) (drop n (b ∷ bs)) values more ih q
        (take-min (4 - length h) (b ∷ bs)) (omega (arith, length-drop n (b ∷ bs)))
      ∙ ap (λ i. fed_after values (feed i (heading h))) (take-append-drop n (b ∷ bs))
  decode_round-feed fuel b bs h (some (size, r)) values more ih room q =
      let n = min (size - length r) (length (b ∷ bs)) in
      fill_payload-feed fuel size r (b ∷ bs) values more ih q.0
        (omega (arith, length-drop n (b ∷ bs), q.0))

  decode_rounds-feed :
      (fuel : ℕ) (input : List ℕ) (d : FrameDecoder) (values : List JsonValue)
      → length input ≤ fuel
      → IsPartial d.header d.payload
      → decode_rounds c fuel input d values ≡ fed_after values (feed input d)
  unfolding decode_rounds feed
  decode_rounds-feed fuel [] d values room q = ap (λ r. (ok r, d)) (sym (append-nil values))
  decode_rounds-feed zero (b ∷ bs) d values room q = absurd (omega arith)
  decode_rounds-feed (suc fuel) (b ∷ bs) d values room q =
      decode_round-feed fuel b bs d.header d.payload values (decode_rounds c fuel)
        (decode_rounds-feed fuel) (omega arith) q

  -- Pushing a chunk into a decoder does what taking its bytes one at a time does: it returns the
  -- same values in the same order or throws the same error, and leaves the same decoder. (Between
  -- pushes, a header or payload that is begun is not complete.)
  pub push_chunk-feed :
      (chunk : List ℕ) (d : FrameDecoder)
      → IsPartial d.header d.payload
      → push_chunk c chunk d ≡ feed chunk d
  unfolding push_chunk
  push_chunk-feed chunk d q =
      decode_rounds-feed (length chunk) chunk d [] (omega arith) q ∙ fed_after_nil (feed chunk d)
