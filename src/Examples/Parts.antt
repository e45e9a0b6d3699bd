-- ===== src/Examples/Parts.antt =====
-- Runs of the other parts: a watch iterator, the local coordination, identities, strings, JSON
-- values, delays, life cycles and the worker's two tables.
use tego_next.Base.{
  ℕ, ◌+◌, ◌≡◌, refl, Text, text, err, text_beq, List, [], ◌∷◌, ◌++◌, none, some, Bool, true, false,
  ◌&&◌, ok, get, set, Map, arith, inr, All, ◌↔◌, length, before, ◌⊎◌, nat_eq, text_eq,
  if◌then◌else◌, ◌==◌,
}
use tego_next.Contracts.Json.{
  JsonValue, null, object, member, end, serialize_wire_value, serialize, enumerates_before,
  json_beq,
}
use tego_next.Contracts.Diagnostic.{executor_remote_result_conflict}
use tego_next.Contracts.Strings.{is_portable_state_string}
use tego_next.Contracts.Strings.{state_string_order_key}
use tego_next.Contracts.Strings.Utf16.{IsScalar, encode_utf16, portable_iff}
use tego_next.Contracts.Strings.OrderKey.{order_key-before}
use tego_next.Contracts.Json.Canonical.{IsCanonical, serialize_wire_value_idem}
use tego_next.Watch.{new_watcher}
use tego_next.Watch.Order.{pushes, asks, run_events, delivered, answered, run_events_in_order}
use tego_next.Retry.{RetryDelayInput}
use tego_next.Lifecycle.{
  running, draining, stopping, transition_all, transition_runtime_state, is_over, running_once,
}
use tego_next.Dedupe.{
  reserve_capability_entry, count_pending_capability_entries, reserve_keeps_pending, IsReserved,
}
use tego_next.ResultBuffer.{ResultBuffer, put, find, IsWithin, put-IsWithin}
use tego_next.Contracts.State.{key_eq, absent}
use tego_next.Coordination.{
  LocalCoordination, CoordinationEvent, opens as coordination_opens, closes, campaigns, releases,
  sets, call_all, new_coordination, compare_and_set, expected_matches, coordination_open, CasResult,
}
use tego_next.Coordination.Records.{
  latest, coordination_replays, recorded_value, recorded_revision, compare_and_set_lem,
}
use tego_next.Coordination.Leadership.{leads_until_released}
use tego_next.Store.Types.{clone_json}

run_events_in_order_example :
    let w =
      run_events {A = ℕ}
        (λ n. n)
        (new_watcher (λ n. n) (1 ∷ []))
        (asks 0 ∷ asks 1 ∷ pushes 2 ∷ []) in
    (delivered w.settled ++ w.queue ≡ 1 ∷ 2 ∷ [])
    × (answered w.settled ++ w.waiters ≡ 0 ∷ 1 ∷ [])
    × ((w.queue ≡ []) ⊎ (w.waiters ≡ []))
run_events_in_order_example =
    run_events_in_order {A = ℕ} (λ n. n) (1 ∷ []) (asks 0 ∷ asks 1 ∷ pushes 2 ∷ [])

portable_iff_example :
    (is_portable_state_string (55357 ∷ 56832 ∷ []) ≡ true)
    ↔ ((cs : List ℕ) × All IsScalar cs × (encode_utf16 cs ≡ 55357 ∷ 56832 ∷ []))
portable_iff_example = portable_iff (55357 ∷ 56832 ∷ []) (omega arith, (omega arith, tt))

order_key-before_example : before (1 ∷ 44 ∷ []) (255 ∷ 97 ∷ []) ≡ before (300 ∷ []) (65377 ∷ [])
unfolding state_string_order_key is_portable_state_string
order_key-before_example =
    order_key-before (300 ∷ []) (65377 ∷ []) (1 ∷ 44 ∷ []) (255 ∷ 97 ∷ []) (omega arith, tt)
      (omega arith, tt) refl refl

abbrev unsorted : JsonValue
unsorted = object (member (text "a") null (member (text "10") null (member (text "9") null end)))

-- Keys that are array indices come first, by their numbers.
unsorted_sorted :
    serialize_wire_value unsorted
    ≡ object (member (text "9") null (member (text "10") null (member (text "a") null end)))
unfolding serialize_wire_value serialize before enumerates_before
unsorted_sorted = refl

serialize_wire_value_idem_example :
    IsCanonical (serialize_wire_value unsorted)
    × (serialize_wire_value (serialize_wire_value unsorted) ≡ serialize_wire_value unsorted)
serialize_wire_value_idem_example = serialize_wire_value_idem unsorted

abbrev second_try : RetryDelayInput
second_try = record {
  attempt = 2;
  base_delay_ms = 100;
  max_delay_ms = 1000;
  operation_id = (b'a' ∷ []);
}

running_once_example : is_over stopping ≡ true
unfolding transition_all transition_runtime_state
running_once_example = running_once running draining (stopping ∷ []) stopping (inr refl) refl

abbrev calls : Map ℕ Bool
calls = (1, false) ∷ (2, true) ∷ (3, false) ∷ []

reserve_keeps_pending_example :
    IsReserved (λ b. b) calls 3 (reserve_capability_entry (λ b. b) calls 3)
    × (count_pending_capability_entries (λ b. b) calls ≡ 2)
unfolding get count_pending_capability_entries
reserve_keeps_pending_example = reserve_keeps_pending (λ b. b) calls 3 (refl, (refl, (refl, tt)))

abbrev length_of : JsonValue → ℕ
length_of null = 0
length_of v = 2

abbrev buffer : ResultBuffer ℕ
buffer = record {
  max_count = 2;
  max_bytes = 10;
  entries = (0, record { result = null; bytes = 4 }) ∷ [];
  bytes = 4;
}

abbrev fuller : ResultBuffer ℕ
fuller = record {
  max_count = 2;
  max_bytes = 10;
  entries =
      (0, record { result = null; bytes = 4 })
      ∷ (2, record { result = serialize_wire_value unsorted; bytes = 4 })
      ∷ [];
  bytes = 8;
}

buffer-IsWithin : IsWithin buffer
unfolding get
buffer-IsWithin = record {
  counted = refl;
  unique = (refl, tt);
  count_le = omega arith;
  bytes_le = omega arith;
}

-- The same result again, whose members are not in the order of its wire form.
unsorted_again : put length_of (λ r. 4) unsorted fuller ≡ err executor_remote_result_conflict
unfolding put get serialize_wire_value serialize before text_beq json_beq enumerates_before
unsorted_again = refl

put-IsWithin_example :
    IsWithin fuller
    × (find 2 fuller ≡ some (serialize_wire_value unsorted))
    × ((j : ℕ) → (2 == j) ≡ false → find j fuller ≡ find j buffer)
unfolding put get set
put-IsWithin_example = put-IsWithin length_of (λ r. 4) unsorted buffer fuller buffer-IsWithin refl

abbrev coordinated : List CoordinationEvent
coordinated =
    coordination_opens
    ∷ campaigns 1 (65 ∷ [])
    ∷ sets (66 ∷ []) absent null
    ∷ releases 1
    ∷ campaigns 2 (65 ∷ [])
    ∷ closes
    ∷ []

coordination_replays_example :
    let c = call_all new_coordination coordinated in
    ((key : Text) → latest key c.changes none ≡ get key c.records) × (c.revision ≡ length c.changes)
coordination_replays_example = coordination_replays coordinated

leads_until_released_example :
    let c = call_all new_coordination coordinated in
    (get (65 ∷ []) c.leadership ≡ some 2)
    ↔ (get 2 c.handles ≡ some (record { resource = 65 ∷ []; released = false }))
leads_until_released_example = leads_until_released coordinated (65 ∷ []) 2

abbrev live : LocalCoordination
live = record new_coordination { lifecycle = coordination_open }

compare_and_set_lem_example :
    (r : CasResult) × (d : LocalCoordination) × (compare_and_set (66 ∷ []) absent null live
      ≡ ok (r, d))
    × (r.applied ≡ expected_matches (get (66 ∷ []) live.records) absent)
    × ((j : Text)
        → get j d.records ≡ (
            if r.applied && (66 ∷ []) == j
            then some (record { value = clone_json null; revision = live.revision + 1 })
            else get j live.records))
    × (d.revision ≡ (if r.applied then live.revision + 1 else live.revision))
    × (r.value ≡ recorded_value (get (66 ∷ []) d.records))
    × (r.revision ≡ recorded_revision (get (66 ∷ []) d.records))
compare_and_set_lem_example = compare_and_set_lem (66 ∷ []) absent null live refl refl
