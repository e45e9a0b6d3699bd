-- ===== src/Examples/Reads.antt =====
-- A scan and reads of a store, and of a transaction with a staged record.
use tego_next.Base.{
  Text, text, List, [], ◌∷◌, none, some, ok, err, get, set, sort_by, text_beq, before, ◌≡◌, refl,
  true,
}
use tego_next.Contracts.Json.{JsonValue, null, serialize, serialize_wire_value}
use tego_next.Contracts.Diagnostic.{Outcome}
use tego_next.Contracts.Strings.{is_portable_state_string}
use tego_next.Contracts.State.{StateKey, key_beq, StateQuery, ScannedState, unchecked}
use tego_next.Store.Types.{
  StoredRecord, put_mutation, matches_query, scanned_record, compare_code_units, portable_key,
  assert_state_key, assert_state_query,
}
use tego_next.Store.Transaction.{
  MemoryTransaction, new_transaction, get_state, scan_state, scan_records, overlay, staged_view,
}
use tego_next.Store.State.{MemoryStateStore, new_store, store_open, assert_open}
use tego_next.Store.Session.{read}
use tego_next.Store.Reads.{scan}
use tego_next.Store.Reads.Lookup.{found, scans_find_reads}

abbrev key_of : Text → StateKey
key_of id = record { namespace = text "app"; collection = text "notes"; id = id }

abbrev stored : StoredRecord
stored = record { key = key_of (text "b"); value = null; revision = 3 }

abbrev opened : MemoryStateStore
opened = record new_store { lifecycle = store_open; records = (key_of (text "b"), stored) ∷ [] }

-- Another note is staged before the stored one.
abbrev staging : MemoryTransaction
staging = record (new_transaction opened.records) {
  mutations =
      (key_of (text "a"), put_mutation (key_of (text "a")) (JsonValue.boolean true) unchecked) ∷ [];
}

abbrev notes : StateQuery
notes = record {
  namespace = text "app";
  collection = text "notes";
  id_prefix = none;
  after_id = none;
  limit = none;
}

abbrev outcome_or {ℓ} : {A : Type ℓ} → A → Outcome A → A
outcome_or a (ok b) = b
outcome_or a (err e) = a

abbrev in_store : List ScannedState
in_store = outcome_or [] (scan notes opened)

abbrev in_transaction : List ScannedState
in_transaction = outcome_or [] (scan_state notes staging)

scans_find_reads_example :
    (found (key_of (text "a")) in_store ≡ none)
    × (found (key_of (text "a")) in_transaction
        ≡ some (record { value = JsonValue.boolean true; revision = 0 }))
unfolding new_store new_transaction scan read scan_state get_state scan_records matches_query
    assert_open assert_state_query assert_state_key portable_key is_portable_state_string get set
    overlay staged_view sort_by scanned_record compare_code_units serialize serialize_wire_value
    key_beq text_beq before
scans_find_reads_example =
    scans_find_reads notes (key_of (text "a")) opened staging in_store in_transaction none
      (some (record { value = JsonValue.boolean true; revision = 0 })) refl (refl, tt) (refl, tt)
      (refl, tt) (refl, tt) refl refl refl refl
