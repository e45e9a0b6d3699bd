-- ===== src/Store/Session/Cases.antt =====
-- The ways in which a `transact` call begins and ends.
use tego_next.Base.{
  ℕ, Text, true, Option, none, some, Map, get, set, ok, err, ◌≡◌, refl, Bool-cases, inl, inr,
  nat_beq, text_eq, text_beq, ◌>>=◌,
}
use tego_next.Contracts.Json.{JsonValue}
use tego_next.Contracts.Platform.{Platform}
use tego_next.Contracts.Diagnostic.{Code, Outcome, state_idempotency_conflict}
use tego_next.Contracts.State.{StateKey, StateTransactionOptions}
use tego_next.Store.Types.{
  IdempotencyIdentity, IdempotencyRecord, StoredRecord, StagedTransaction, clone_json,
}
use tego_next.Store.Transaction.{new_transaction}
use tego_next.Store.Transaction.Callback.{Work, stage}
use tego_next.Store.State.{MemoryStateStore, InFlight, assert_open}
use tego_next.Store.Commit.{commit}
use tego_next.Store.Session.{
  Begun, replayed, joined, started, begin_transact, begin_with, replay_or_start, join_or_start,
  idempotency_identity, assert_idempotency_fingerprint, release, release_entry, settle,
  finish_transact,
}

abbrev pub entry_of : ℕ → IdempotencyIdentity → InFlight
entry_of call i = record { fingerprint = i.fingerprint; call = call }

module _ (call : ℕ) (s : MemoryStateStore) where
  joins {ℓ} :
      (P : Outcome (Begun × MemoryStateStore) → Type ℓ) (i : IdempotencyIdentity)
      (o : Option InFlight)
      → get i.key s.in_flight_idempotency ≡ o
      → ((e : Code) → P (err e))
      → ((e : InFlight)
          → get i.key s.in_flight_idempotency ≡ some e
          → text_beq i.fingerprint e.fingerprint ≡ true
          → P (ok (joined e.call, s)))
      → (get i.key s.in_flight_idempotency ≡ none
          → P (
              ok (
                started (some i) s.records,
                record s {
                  in_flight_idempotency = set i.key (entry_of call i) s.in_flight_idempotency;
                },
              )))
      → P (join_or_start call i o s)
  unfolding join_or_start assert_idempotency_fingerprint
  joins P i none h refused join starts = starts h
  joins P i (some e) h refused join starts =
      elim (Bool-cases (text_beq i.fingerprint e.fingerprint)) [
        | inl m ↦ rw m (join e h m)
        | inr m ↦ rw m (refused state_idempotency_conflict)
      ]

  repeats {ℓ} :
      (P : Outcome (Begun × MemoryStateStore) → Type ℓ) (i : IdempotencyIdentity)
      (o : Option IdempotencyRecord)
      → get i.key s.idempotency ≡ o
      → ((e : Code) → P (err e))
      → ((e : IdempotencyRecord)
          → get i.key s.idempotency ≡ some e
          → text_beq i.fingerprint e.fingerprint ≡ true
          → P (ok (replayed (clone_json e.result), s)))
      → (get i.key s.idempotency ≡ none
          → P (join_or_start call i (get i.key s.in_flight_idempotency) s))
      → P (replay_or_start call i o s)
  unfolding replay_or_start assert_idempotency_fingerprint
  repeats P i none h refused replay goes = goes h
  repeats P i (some e) h refused replay goes =
      elim (Bool-cases (text_beq i.fingerprint e.fingerprint)) [
        | inl m ↦ rw m (replay e h m)
        | inr m ↦ rw m (refused state_idempotency_conflict)
      ]

  -- A call begins by throwing, by replaying a committed result, by joining a call in flight, or by
  -- starting: then its key, if it has one, is neither committed nor in flight.
  pub begin_cases {ℓ} :
      (P : Outcome (Begun × MemoryStateStore) → Type ℓ) (o : StateTransactionOptions)
      → ((e : Code) → P (err e))
      → ((i : IdempotencyIdentity) (e : IdempotencyRecord)
          → get i.key s.idempotency ≡ some e
          → text_beq i.fingerprint e.fingerprint ≡ true
          → P (ok (replayed (clone_json e.result), s)))
      → ((i : IdempotencyIdentity) (e : InFlight)
          → get i.key s.in_flight_idempotency ≡ some e
          → text_beq i.fingerprint e.fingerprint ≡ true
          → P (ok (joined e.call, s)))
      → P (ok (started none s.records, s))
      → ((i : IdempotencyIdentity)
          → get i.key s.idempotency ≡ none
          → get i.key s.in_flight_idempotency ≡ none
          → P (
              ok (
                started (some i) s.records,
                record s {
                  in_flight_idempotency = set i.key (entry_of call i) s.in_flight_idempotency;
                },
              )))
      → P (begin_transact call o s)
  unfolding begin_transact
  begin_cases P o refused replay join plain starts = go (assert_open s) (idempotency_identity o)
    where
      with_identity : (i : Option IdempotencyIdentity) → P (begin_with call i s)
      with_identity none = plain
      with_identity (some i) =
          repeats P i (get i.key s.idempotency) refl refused (replay i)
            λ h. joins P i (get i.key s.in_flight_idempotency) refl refused (join i) (starts i h)

      go :
          (u : Outcome (Unit {0})) (i : Outcome (Option IdempotencyIdentity))
          → P (u >>= λ _. i >>= λ j. begin_with call j s)
      go (err e) i = refused e
      go (ok _) (err e) = refused e
      go (ok _) (ok i) = with_identity i

  pub release_cases {ℓ} :
      (P : MemoryStateStore → Type ℓ) (i : Option IdempotencyIdentity)
      → P s
      → ((m : Map Text InFlight) → P (record s { in_flight_idempotency = m }))
      → P (release call i s)
  unfolding release
  release_cases P none keep gone = keep
  release_cases P (some i) keep gone = go (get i.key s.in_flight_idempotency)
    where
      go : (o : Option InFlight) → P (release_entry call i.key o s)
      go none = keep
      go (some e) = elim (Bool-cases (nat_beq e.call call)) [
        | inl m ↦ rw (m, release_entry) (gone _)
        | inr m ↦ rw (m, release_entry) keep
      ]

  -- A started call ends by throwing, or with its commit.
  pub finish_cases {ℓ} :
      (P : Outcome JsonValue × MemoryStateStore → Type ℓ) (p : Platform)
      (o : StateTransactionOptions) (i : Option IdempotencyIdentity)
      (snapshot : Map StateKey StoredRecord) (work : Work)
      → ((e : Code) → P (err e, release call i s))
      → ((r v : JsonValue) (st : StagedTransaction) (x : JsonValue) (s' : MemoryStateStore)
          → stage work (new_transaction snapshot) ≡ ok (r, st)
          → commit p o i st r s ≡ ok (v, s')
          → P (ok x, release call i s'))
      → P (finish_transact p call o i snapshot work s)
  unfolding finish_transact
  finish_cases P p o i snapshot work failed done = go (stage work (new_transaction snapshot)) refl
    where
      committed :
          (r : JsonValue) (st : StagedTransaction) (c : Outcome (JsonValue × MemoryStateStore))
          → stage work (new_transaction snapshot) ≡ ok (r, st)
          → commit p o i st r s ≡ c
          → P (settle call i s c)
      committed r st (err e) h g = failed e
      committed r st (ok (v, s')) h g = done r v st _ s' h g

      go :
          (c : Outcome (JsonValue × StagedTransaction))
          → stage work (new_transaction snapshot) ≡ c
          → P (settle call i s (c >>= λ x. commit p o i x.1 x.0 s))
      go (err e) h = failed e
      go (ok (r, st)) h = committed r st (commit p o i st r s) h refl
