-- ===== src/Framing.antt =====
-- packages/executor-node/src/process/framing.ts: frames of a four-byte big-endian length and a
-- JSON payload, over a byte stream that arrives in chunks of any size. A byte is a number below
-- 256. UTF-8 and JSON text belong to the platform and are the parameter `c`.
pub mod Complexity
pub mod Bytewise
pub mod Chunks
pub mod RoundTrip
use tego_next.Base.{
  ℕ, zero, suc, ◌+◌, ◌-◌, ◌*◌, ◌/◌, ◌%◌, ◌^◌, min, Bool, ◌||◌, ◌&&◌, List, [], ◌∷◌, ◌++◌, Option,
  none, some, Text, ok, err, guard, ◌>>=◌, ◌>>◌, leb, ltb, nat_beq, length, take, drop,
  if◌then◌else◌,
}
use tego_next.Contracts.Json.{
  JsonValue, JsonArray, JsonObject, null, boolean, number, string, array, object, nil, item, end,
  member,
}
use tego_next.Contracts.Diagnostic.{
  Code, Outcome, protocol_process_frame_invalid, protocol_process_frame_length_invalid,
  protocol_process_frame_complexity_exceeded, protocol_process_frame_truncated,
}

-- PROCESS_EXECUTOR_MAX_FRAME_BYTES, PROCESS_EXECUTOR_MAX_FRAME_DEPTH and
-- PROCESS_EXECUTOR_MAX_FRAME_NODES.
abbrev pub max_frame_bytes : ℕ
max_frame_bytes = 1048576

abbrev pub max_frame_depth : ℕ
max_frame_depth = 64

abbrev pub max_frame_nodes : ℕ
max_frame_nodes = 100000

-- The values that wait, the top of the stack first, each with its depth.
abbrev pub Waiting : Type 0
Waiting = List (JsonValue × ℕ)

-- `pending.push` for each child in turn.
unfoldable pub push_items : JsonArray → ℕ → Waiting → Waiting
push_items nil d w = w
push_items (item v r) d w = push_items r d ((v, d) ∷ w)

unfoldable pub push_members : JsonObject → ℕ → Waiting → Waiting
push_members end d w = w
push_members (member k v r) d w = push_members r d ((v, d) ∷ w)

unfoldable pub push_children : JsonValue → ℕ → Waiting → Waiting
unfolding push_items push_members
push_children (array a) d w = push_items a d w
push_children (object o) d w = push_members o d w
push_children _ d w = w

-- The loop, with the number of nodes that may still be counted.
unfoldable pub validate_rounds : ℕ → Waiting → Outcome (Unit {0})
validate_rounds left [] = ok tt
validate_rounds zero (v ∷ w) = err protocol_process_frame_complexity_exceeded
validate_rounds (suc left) ((v, d) ∷ w) =
    let rest = validate_rounds left (push_children v (d + 1) w) in
    if ltb max_frame_depth d then err protocol_process_frame_complexity_exceeded else rest

unfoldable pub validate_complexity : JsonValue → Outcome (Unit {0})
validate_complexity v = validate_rounds max_frame_nodes ((v, 0) ∷ [])

pub record JsonCodec : Type 0 where
  -- `Buffer.from(JSON.stringify(value), "utf8")`; `none` where it throws.
  pub encode_json : JsonValue → Option (List ℕ)
  -- `new TextDecoder("utf-8", { fatal: true }).decode`.
  pub decode_utf8 : List ℕ → Option Text
  -- `JSON.parse`.
  pub parse_json : Text → Option JsonValue

-- `writeUInt32BE` and `readUInt32BE`.
unfoldable pub write_uint32_be : ℕ → List ℕ
write_uint32_be n = n / 16777216 % 256 ∷ n / 65536 % 256 ∷ n / 256 % 256 ∷ n % 256 ∷ []

unfoldable pub read_uint32_be : List ℕ → ℕ
read_uint32_be (a ∷ b ∷ c ∷ d ∷ _) = ((a * 256 + b) * 256 + c) * 256 + d
read_uint32_be _ = 0

unfoldable pub encode_payload : Code → Option (List ℕ) → Outcome (List ℕ)
encode_payload oversized none = err protocol_process_frame_invalid
encode_payload oversized (some bytes) =
    if nat_beq (length bytes) 0 || ltb max_frame_bytes (length bytes)
    then err oversized
    else ok (write_uint32_be (length bytes) ++ bytes)

unfoldable pub encode_process_frame : JsonCodec → JsonValue → Code → Outcome (List ℕ)
unfolding encode_payload
encode_process_frame c v oversized = encode_payload oversized (c.encode_json v)

-- The header's bytes so far, fewer than four; and, once a header is complete, the length that it
-- announced with the payload's bytes so far.
pub record FrameDecoder : Type 0 where
  pub header : List ℕ
  pub payload : Option (ℕ × List ℕ)

abbrev pub new_decoder : FrameDecoder
new_decoder = record { header = []; payload = none }

-- A call that returns or throws, and the decoder that it leaves.
abbrev pub Decoded {ℓ} : Type ℓ → Type ℓ
Decoded A = Outcome A × FrameDecoder

unfoldable pub decode_value : Option JsonValue → Outcome JsonValue
decode_value none = err protocol_process_frame_invalid
decode_value (some v) = validate_complexity v >> ok v

unfoldable pub decode_text : JsonCodec → Option Text → Outcome JsonValue
unfolding decode_value
decode_text c none = err protocol_process_frame_invalid
decode_text c (some t) = decode_value (c.parse_json t)

-- A complete payload.
unfoldable pub decode_payload : JsonCodec → List ℕ → Outcome JsonValue
unfolding decode_text
decode_payload c bytes = decode_text c (c.decode_utf8 bytes)

-- `#payload` is allocated only for a length that is in range.
unfoldable pub length_in_range : ℕ → Bool
length_in_range n = ltb 0 n && leb n max_frame_bytes

module _ (c : JsonCodec) where
  -- What a complete payload adds to the values of this push, and the rounds after it.
  after_value :
      Outcome JsonValue
      → List JsonValue
      → (List JsonValue → Decoded (List JsonValue))
      → Decoded (List JsonValue)
  after_value (err e) values rest = (err e, new_decoder)
  after_value (ok v) values rest = rest (values ++ v ∷ [])

  -- The second half of a round: `more` is the rounds that follow.
  fill_payload :
      ℕ
      → List ℕ
      → List ℕ
      → List JsonValue
      → (List ℕ → FrameDecoder → List JsonValue → Decoded (List JsonValue))
      → Decoded (List JsonValue)
  unfolding after_value
  fill_payload size received input values more =
      let n = min (size - length received) (length input) in
      let received' = received ++ take n input in
      let rest = drop n input in
      if ltb (length received') size
      then more rest (record { header = []; payload = some (size, received') }) values
      else after_value (decode_payload c received') values (more rest new_decoder)

  -- The first half of a round, where no payload is begun.
  fill_header :
      List ℕ
      → List ℕ
      → List JsonValue
      → (List ℕ → FrameDecoder → List JsonValue → Decoded (List JsonValue))
      → Decoded (List JsonValue)
  unfolding fill_payload
  fill_header header input values more =
      let n = min (4 - length header) (length input) in
      let header' = header ++ take n input in
      let rest = drop n input in
      if ltb (length header') 4
      then more rest (record { header = header'; payload = none }) values
      else if length_in_range (read_uint32_be header')
      then fill_payload (read_uint32_be header') [] rest values more
      else (err protocol_process_frame_length_invalid, new_decoder)

  unfoldable pub decode_round :
      List ℕ
      → FrameDecoder
      → List JsonValue
      → (List ℕ → FrameDecoder → List JsonValue → Decoded (List JsonValue))
      → Decoded (List JsonValue)
  unfolding fill_header
  decode_round input d values more = elim d.payload [
    | none ↦ fill_header d.header input values more
    | some (size, received) ↦ fill_payload size received input values more
  ]

  -- The loop: each round takes a byte at least, so the bytes bound the rounds.
  unfoldable pub decode_rounds :
      ℕ → List ℕ → FrameDecoder → List JsonValue → Decoded (List JsonValue)
  unfolding decode_round
  decode_rounds fuel [] d values = (ok values, d)
  decode_rounds zero (b ∷ input) d values = (ok values, d)
  decode_rounds (suc fuel) (b ∷ input) d values =
      decode_round (b ∷ input) d values (decode_rounds fuel)

  unfoldable pub push_chunk : List ℕ → FrameDecoder → Decoded (List JsonValue)
  push_chunk chunk d = decode_rounds (length chunk) chunk d []

unfoldable pub finish_decoder : FrameDecoder → Outcome (Unit {0})
finish_decoder d = elim d.payload [
  | none ↦ guard (nat_beq (length d.header) 0) protocol_process_frame_truncated
  | some p ↦ err protocol_process_frame_truncated
]
