-- ===== src/Contracts/Diagnostic.antt =====
-- packages/contracts/src/diagnostic.ts: the codes that the modelled parts throw. A thrown
-- `DiagnosticError` is its code; message, details and time of observation are left out.
use tego_next.Base.{Result}

pub data Code : Type 0 where
  protocol_identity_invalid : Code
  state_closed state_data_invalid state_fence_stale : Code
  state_idempotency_conflict state_query_invalid state_revision_conflict : Code
  coordination_closed coordination_request_invalid : Code
  lifecycle_transition_invalid : Code
  worker_epoch_record_invalid worker_epoch_limit_exceeded : Code
  executor_remote_result_conflict executor_remote_result_buffer_exhausted : Code
  executor_selection_unavailable : Code
  permission_envelope_invalid permission_grant_exceeds_request : Code
  deployment_executor_unavailable deployment_instance_inconsistent activation_invalid : Code
  executor_output_queue_capacity_exceeded executor_input_limit_exceeded : Code
  protocol_process_frame_invalid protocol_process_frame_length_invalid : Code
  protocol_process_frame_complexity_exceeded protocol_process_frame_truncated : Code
  -- An error that is no diagnostic: the source throws a RangeError or a TypeError, or a client's
  -- callback throws.
  foreign_error : Code

-- A call that returns a value or throws.
abbrev pub Outcome {ℓ} : Type ℓ → Type ℓ
Outcome A = Result Code A
