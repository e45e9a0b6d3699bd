-- ===== src/Examples/Processes.antt =====
-- Runs of the process framing, the outbound writer, the recovery of operations and the choice of an
-- executor.
use tego_next.Base.{
  ℕ, ◌≤◌, ◌≡◌, refl, List, [], ◌∷◌, none, some, true, false, ok, arith, ◌↔◌, text_beq,
  if◌then◌else◌, filter, text_eq, get, set, sort_by,
}
use tego_next.Contracts.Json.{JsonValue, null, object, array, end, nil, item}
use tego_next.Contracts.Diagnostic.{Outcome, executor_input_limit_exceeded}
use tego_next.Contracts.Platform.{Platform}
use tego_next.Contracts.State.{StateTransactionOptions, OperationJournalEntry, planned}
use tego_next.Framing.{
  JsonCodec, validate_complexity, max_frame_nodes, max_frame_depth, new_decoder, push_chunk,
  finish_decoder, encode_process_frame, write_uint32_be, encode_payload, validate_rounds,
  push_children, push_members,
}
use tego_next.Framing.Complexity.{json_nodes, json_depth, validate_complexity_iff}
use tego_next.Framing.Bytewise.{feed, push_chunk-feed}
use tego_next.Framing.Chunks.{concat, push_chunks, LeavesPartial, chunks_do_not_matter}
use tego_next.Framing.RoundTrip.{frames_round_trip}
use tego_next.Outbound.{
  WriterEvent, sends, flushes, required, diagnostic, new_writer, run_writer, writer_step, flush,
  send, admit, start_drain, drain_queue, begin_write, snapshot, snapshot_bytes, snapshot_text,
  snapshot_value,
}
use tego_next.Outbound.Balance.{IsBalanced, run_writer-IsBalanced}
use tego_next.Outbound.Drain.{IsDone, all_settle}
use tego_next.Outbound.Drain.Admission.{accepted, asked, writes_drain}
use tego_next.Selection.{
  ExecutorSelectionCandidate, ExecutorSelectionRequest, process, thread, select_executor,
  is_eligible, preference_of,
}
use tego_next.Selection.Choice.{IsChoice, select_executor-IsChoice}
use tego_next.Store.State.{new_store, open_store, assert_open}
use tego_next.Store.Session.{begin_transact, finish_transact, idempotency_identity}
use tego_next.Store.Transaction.Callback.{appends, returns, stage}
use tego_next.Store.Transaction.{finish, append_operation, new_transaction}
use tego_next.Store.Commit.{commit, apply_commit}
use tego_next.Store.Commit.Checks.{check_mutations, check_outbox, check_fence}
use tego_next.Store.Reads.{scan_recoverable_operations}
use tego_next.Store.System.{
  Event, opens, begins, finishes, run, step, initial, after_begin, finish_pending,
}
use tego_next.Recovery.{recover_operations}
use tego_next.Recovery.Memory.{recover_operations_scan}

-- A platform that knows the empty object only.
abbrev braces : List ℕ
braces = 123 ∷ 125 ∷ []

abbrev codec : JsonCodec
codec = record {
  encode_json = λ v. some braces;
  decode_utf8 = λ bytes. some bytes;
  parse_json = λ t. if text_beq t braces then some (object end) else none;
}

abbrev frame : List ℕ
frame = 0 ∷ 0 ∷ 0 ∷ 2 ∷ braces

validate_complexity_iff_example : (validate_complexity (array (item null nil)) ≡ ok tt) ↔ (
    (json_nodes (array (item null nil)) ≤ max_frame_nodes)
    × (json_depth (array (item null nil)) ≤ max_frame_depth))
validate_complexity_iff_example = validate_complexity_iff (array (item null nil))

push_chunk-feed_example : push_chunk codec frame new_decoder ≡ feed codec frame new_decoder
push_chunk-feed_example = push_chunk-feed codec frame new_decoder (omega arith)

abbrev cut_frame : List (List ℕ)
cut_frame = (0 ∷ 0 ∷ []) ∷ (0 ∷ 2 ∷ 123 ∷ []) ∷ (125 ∷ 0 ∷ []) ∷ []

chunks_do_not_matter_example :
    (push_chunks codec cut_frame new_decoder ≡ push_chunk codec (concat cut_frame) new_decoder)
    × LeavesPartial codec (push_chunks codec cut_frame new_decoder)
chunks_do_not_matter_example = chunks_do_not_matter codec cut_frame

frames_round_trip_example :
    (push_chunks codec (frame ∷ []) new_decoder ≡ (ok (object end ∷ []), new_decoder))
    × (finish_decoder new_decoder ≡ ok tt)
unfolding encode_process_frame encode_payload write_uint32_be validate_complexity validate_rounds
    push_children push_members text_beq
frames_round_trip_example =
    frames_round_trip codec executor_input_limit_exceeded (object end ∷ []) (frame ∷ [])
      (frame ∷ [])
      (
        (
          braces,
          record { text = braces; encoded = refl; decoded = refl; parsed = refl; simple = refl },
        ),
        refl,
        tt,
      )
      refl

abbrev encode_any : JsonValue → Outcome (List ℕ)
encode_any v = ok frame

abbrev two_sends : List WriterEvent
two_sends = sends 1 (object end) required ∷ sends 2 (object end) diagnostic ∷ flushes 3 ∷ []

run_writer-IsBalanced_example : IsBalanced (run_writer codec encode_any new_writer two_sends)
run_writer-IsBalanced_example = run_writer-IsBalanced codec encode_any two_sends

writes_drain_example : IsDone (accepted codec encode_any new_writer two_sends) (asked two_sends) (
    run_writer codec encode_any
      (run_writer codec encode_any new_writer two_sends)
      (all_settle codec encode_any (true ∷ false ∷ [])))
unfolding run_writer writer_step flush send admit start_drain drain_queue begin_write snapshot
    snapshot_bytes snapshot_text snapshot_value text_beq
writes_drain_example = writes_drain codec encode_any two_sends (true ∷ false ∷ []) (omega arith)

abbrev candidate : ℕ → ExecutorSelectionCandidate
candidate n = record {
  id = n ∷ [];
  kind = thread;
  healthy = true;
  available = true;
  resources = record { cpu_millis = n; memory_bytes = n; storage_bytes = n };
}

abbrev request : ExecutorSelectionRequest
request = record {
  supported = thread ∷ process ∷ [];
  granted = process ∷ thread ∷ [];
  resources = record { cpu_millis = 1; memory_bytes = 2; storage_bytes = 1 };
  preference = none;
  candidates = candidate 1 ∷ candidate 3 ∷ record (candidate 4) { kind = process } ∷ [];
}

select_executor-IsChoice_example :
    IsChoice
      (preference_of request.preference)
      (filter (is_eligible request) request.candidates)
      (select_executor request)
select_executor-IsChoice_example = select_executor-IsChoice request

abbrev clock : Platform
clock = record { parse_date = λ t. some 0; iso_date = λ n. n ∷ []; json_bytes = λ v. 10 }

abbrev operation : OperationJournalEntry
operation = record {
  operation_id = b'o' ∷ [];
  kind = b'k' ∷ [];
  status = planned;
  state = object end;
  updated_at = b'0' ∷ [];
}

abbrev plain : StateTransactionOptions
plain = record { fencing = none; idempotency_key = none; idempotency_fingerprint = none }

abbrev journaling : List Event
journaling = opens ∷ begins 1 plain ∷ finishes 1 (appends operation (λ r. returns null)) ∷ []

recover_operations_scan_example :
    let s = (run clock initial journaling).store in
    recover_operations (λ q. scan_recoverable_operations q s) 1
    ≡ some (scan_recoverable_operations (record { after = none; limit = none }) s)
unfolding run step initial new_store open_store after_begin finish_pending begin_transact
    finish_transact get set assert_open idempotency_identity stage finish append_operation
    new_transaction commit check_mutations sort_by check_outbox check_fence apply_commit
recover_operations_scan_example = recover_operations_scan clock journaling 1 refl (omega arith)
