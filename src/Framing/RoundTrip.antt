-- ===== src/Framing/RoundTrip.antt =====
-- Frames that are encoded, sent, cut anywhere and decoded.
use tego_next.Base.{
  ℕ, ◌/◌, ◌%◌, ◌<◌, ◌||◌, true, List, [], ◌∷◌, ◌++◌, some, Text, ok, ◌≡◌, refl, sym, ap, ◌∙◌, arith,
  ltb, nat_beq, Bool-cases, inl, inr, length, ok-injective,
}
use tego_next.Contracts.Json.{JsonValue}
use tego_next.Contracts.Diagnostic.{Code}
use tego_next.Framing.{
  JsonCodec, new_decoder, decode_payload, length_in_range, write_uint32_be, read_uint32_be,
  encode_payload, encode_process_frame, validate_complexity, max_frame_bytes, finish_decoder,
}
use tego_next.Framing.Bytewise.{
  fed_after, then_values, feed, header_full, payload_full, header_step, value_step, fed_after_nil,
  push_chunk-feed,
}
use tego_next.Framing.Chunks.{push_chunks, concat, chunks_do_not_matter}

read-write_uint32_be : (n : ℕ) → n < 4294967296 → read_uint32_be (write_uint32_be n) ≡ n
unfolding read_uint32_be write_uint32_be
read-write_uint32_be n h = omega arith

in_range_small : (n : ℕ) → length_in_range n ≡ true → n < 4294967296
unfolding length_in_range
in_range_small n h = ground arith

module _ (c : JsonCodec) where
  -- What the platform's JSON and UTF-8 do to a value that is sent: read back, it is the value; and
  -- the value is not too complex.
  pub record IsSendable (v : JsonValue) (bytes : List ℕ) : Type 0 where
    pub text : Text
    pub encoded : c.encode_json v ≡ some bytes
    pub decoded : c.decode_utf8 bytes ≡ some text
    pub parsed : c.parse_json text ≡ some v
    pub simple : validate_complexity v ≡ ok tt

  -- Frames of values, each encoded with the code for a frame that is too large.
  abbrev pub AreFrames : Code → List JsonValue → List (List ℕ) → Type 0
  AreFrames oversized [] [] = Unit {0}
  AreFrames oversized (v ∷ vs) (f ∷ fs) =
      ((bytes : List ℕ) × IsSendable v bytes)
      × (encode_process_frame c v oversized ≡ ok f)
      × AreFrames oversized vs fs
  AreFrames oversized _ _ = ⊥

  decode_sendable :
      (v : JsonValue) (bytes : List ℕ) → IsSendable v bytes → decode_payload c bytes ≡ ok v
  unfolding decode_payload
  decode_sendable v bytes s = rw (s.decoded, s.parsed, s.simple) refl

  encoded_frame :
      (v : JsonValue) (oversized : Code) (bytes f : List ℕ)
      → c.encode_json v ≡ some bytes
      → encode_process_frame c v oversized ≡ ok f
      → (f ≡ write_uint32_be (length bytes) ++ bytes) × (length_in_range (length bytes) ≡ true)
  unfolding encode_process_frame length_in_range
  encoded_frame v oversized bytes f e h =
      let h' : encode_payload oversized (some bytes) ≡ ok f =
        ap (encode_payload oversized) (sym e) ∙ h in
      elim (Bool-cases (nat_beq (length bytes) 0 || ltb max_frame_bytes (length bytes))) [
        | inl t ↦ absurd (ground (arith, rw t at h'))
        | inr t ↦ (sym (ok-injective (rw t at h')), ground arith)
      ]

  -- A header's length in range is below 2 ^ 32.
  header_read :
      (n : ℕ)
      → length_in_range n ≡ true
      → header_step c (write_uint32_be n) ≡ (ok [], record { header = []; payload = some (n, []) })
  unfolding header_step write_uint32_be
  header_read n h = rw (read-write_uint32_be n (in_range_small n h), h) refl

  feed_frame :
      (v : JsonValue) (bytes rest : List ℕ)
      → IsSendable v bytes
      → length_in_range (length bytes) ≡ true
      → feed c ((write_uint32_be (length bytes) ++ bytes) ++ rest) new_decoder
        ≡ fed_after c (v ∷ []) (feed c rest new_decoder)
  unfolding write_uint32_be value_step length_in_range
  feed_frame v [] rest s h = absurd (ground arith)
  feed_frame v (x ∷ xs) rest s h =
      let n = length (x ∷ xs) in
      header_full c [] (n / 16777216 % 256) (n / 65536 % 256 ∷ n / 256 % 256 ∷ n % 256 ∷ [])
        ((x ∷ xs) ++ rest) refl
      ∙ ap (λ y. then_values c y (feed c ((x ∷ xs) ++ rest))) (header_read n h)
      ∙ fed_after_nil c _
      ∙ payload_full c n [] x xs rest (omega arith)
      ∙ ap (λ o. then_values c (value_step c o) (feed c rest)) (decode_sendable v (x ∷ xs) s)

  feed_frames :
      (oversized : Code) (vs : List JsonValue) (fs : List (List ℕ))
      → AreFrames oversized vs fs
      → feed c (concat fs) new_decoder ≡ (ok vs, new_decoder)
  unfolding feed
  feed_frames oversized [] [] a = refl
  feed_frames oversized [] (f ∷ fs) a = absurd a
  feed_frames oversized (v ∷ vs) [] a = absurd a
  feed_frames oversized (v ∷ vs) (f ∷ fs) ((bytes, s), e, a) =
      let (g, h) = encoded_frame v oversized bytes f s.encoded e in
      ap (λ x. feed c (x ++ concat fs) new_decoder) g
      ∙ feed_frame v bytes (concat fs) s h
      ∙ ap (fed_after c (v ∷ [])) (feed_frames oversized vs fs a)

  -- Frames that are encoded and sent one after another, and arrive cut into any chunks, are decoded
  -- to their values, in order and each once, and the decoder is then at a frame's end, where
  -- finishing does not throw. Of each value it is asked that the platform's JSON and UTF-8 give it
  -- back, and that it passes the complexity check.
  pub frames_round_trip :
      (oversized : Code) (vs : List JsonValue) (fs chunks : List (List ℕ))
      → AreFrames oversized vs fs
      → concat chunks ≡ concat fs
      → (push_chunks c chunks new_decoder ≡ (ok vs, new_decoder))
        × (finish_decoder new_decoder ≡ ok tt)
  unfolding finish_decoder
  frames_round_trip oversized vs fs chunks a cut = (
    (chunks_do_not_matter c chunks).0
        ∙ push_chunk-feed c (concat chunks) new_decoder (omega arith)
        ∙ ap (λ x. feed c x new_decoder) cut
        ∙ feed_frames oversized vs fs a,
    refl,
  )
