-- ===== src/Store/System/Updates.antt =====
-- What a transaction read is still there when a commit that expected its revision succeeds.
use tego_next.Base.{
  ℕ, ◌+◌, ◌≤◌, ◌<◌, Bool, true, false, List, [], ◌∷◌, Option, none, some, Map, get, set, get-set,
  get-delete, ok, if◌then◌else◌, ◌≡◌, refl, sym, ap, ◌∙◌, arith, All, Bool-cases, inl, inr, ◌⊎◌,
  subst, nat_eq, is_some, ◌==◌, filter, ◌&&◌, by_branch, and_split, nat_beq_iff,
}
use tego_next.Contracts.Json.{JsonValue}
use tego_next.Contracts.Platform.{Platform}
use tego_next.Contracts.State.{
  StateKey, key_eq, key_beq, StateChange, ChangeKind, change_put, change_delete, ExpectedRevision,
  unchecked, absent, at_revision,
}
use tego_next.Store.Types.{
  StoredRecord, Mutation, put_mutation, delete_mutation, mutation_key, mutation_expected,
  matches_expected_revision, StagedTransaction,
}
use tego_next.Store.State.{MemoryStateStore, new_store}
use tego_next.Store.Commit.{commit}
use tego_next.Store.Commit.Effects.{key_effect, mutation_effect, replay_key, change_effect}
use tego_next.Store.Commit.Success.{commit_facts}
use tego_next.Store.Commit.Records.{get-committed, revision-committed, writes}
use tego_next.Store.Session.Cases.{begin_cases}
use tego_next.Store.Transaction.{new_transaction}
use tego_next.Store.Commit.Optimistic.{commit_optimistic}
use tego_next.Store.Session.{begin_transact}
use tego_next.Store.Transaction.Callback.{Work, stage}
use tego_next.Store.System.{
  System, Pending, Event, opens, closes, begins, finishes, claims, acknowledges, watches, step, run,
  initial, after_begin, finish_pending,
}
use tego_next.Store.System.Cases.{step_cases}
use tego_next.Store.System.Replay.{IsLogged, step-IsLogged}

-- A later store of the same run: its records are the earlier store's, or of a later revision.
Follows : MemoryStateStore → MemoryStateStore → Type 0
Follows s t =
    (s.revision ≤ t.revision)
    × ((k : StateKey) (c : StoredRecord)
        → get k t.records ≡ some c
        → (get k s.records ≡ some c) ⊎ (s.revision < c.revision))

mutation_effect-revision :
    (rev : ℕ) (m : Mutation) (c : StoredRecord) → mutation_effect rev m ≡ some c → c.revision ≡ rev
mutation_effect-revision rev (put_mutation k v e) c h = ground arith
mutation_effect-revision rev (delete_mutation k e) c h = cc

key_effect-cases :
    (k : StateKey) (rev : ℕ) (ms : List Mutation) (r : Option StoredRecord) (c : StoredRecord)
    → key_effect k rev ms r ≡ some c
    → (r ≡ some c) ⊎ (c.revision ≡ rev)
key_effect-cases k rev [] r c h = inl h
key_effect-cases k rev (m ∷ ms) r c h = elim (Bool-cases (key_beq (mutation_key m) k)) [
  | inl e ↦ inr (mutation_effect-revision rev m c (ground arith))
  | inr e ↦ key_effect-cases k rev ms r c (ground arith)
]

step-Follows : (p : Platform) (y : System) (e : Event) → Follows y.store (step p y e).store
unfolding Follows
step-Follows p y e =
    let same : Follows y.store y.store = (omega arith, λ k c h. inl h) in
    step_cases (Follows y.store) p y e same (λ l ws. same) (λ m. same)
      (λ o i st r v s' m d done.
        let f = commit_facts p o i st r y.store done in
        (
          (by_branch (writes f) (y.store.revision + 1) y.store.revision (sym (revision-committed f))
              (λ a. omega arith) (λ a. omega arith)),
          λ k c h.
              elim (key_effect-cases k (y.store.revision + 1) st.mutations (get k y.store.records) c
                (sym (get-committed f d k) ∙ h)) [ inl a ↦ inl a | inr b ↦ inr (omega arith) ],
        ))
      (λ x rev f le _. (le, λ k c h. inl h))

-- A snapshot that a transaction reads, against the store as it has become.
IsFaithful : MemoryStateStore → Map StateKey StoredRecord → Type 0
IsFaithful s snapshot =
    ((k : StateKey) (r : StoredRecord) → get k snapshot ≡ some r → r.revision ≤ s.revision)
    × ((k : StateKey) (r c : StoredRecord)
        → get k snapshot ≡ some r
        → get k s.records ≡ some c
        → r.revision ≡ c.revision
        → r ≡ c)

Follows-IsFaithful :
    (s t : MemoryStateStore) (snapshot : Map StateKey StoredRecord)
    → Follows s t
    → IsFaithful s snapshot
    → IsFaithful t snapshot
unfolding Follows IsFaithful
Follows-IsFaithful s t snapshot (le, from) (older, agrees) = (
  λ k r h. let bound = older k r h in omega arith,
  λ k r c h g e. elim (from k c g) [
    | inl same ↦ agrees k r c h same e
    | inr later ↦ let bound = older k r h in absurd (omega arith)
  ],
)

change_effect-revision :
    (kind : ChangeKind) (d : StateChange) (v : Option JsonValue) (x : StoredRecord)
    → change_effect kind d v ≡ some x
    → x.revision ≡ d.revision
change_effect-revision change_delete d v x h = cc
change_effect-revision change_put d none x h = cc
change_effect-revision change_put d (some v) x h = ground arith

change_bounded :
    (k : StateKey) (n : ℕ) (cs : List StateChange) (r : Option StoredRecord) (c : StoredRecord)
    → All (λ d. d.revision ≤ n) cs
    → ((b : StoredRecord) → r ≡ some b → b.revision ≤ n)
    → replay_key k cs r ≡ some c
    → c.revision ≤ n
change_bounded k n [] r c b h e = h c e
change_bounded k n (d ∷ cs) r c b h e =
    change_bounded k n cs (if key_beq d.key k then change_effect d.kind d d.value else r) c b.1
      (λ x f.
        by_branch (key_beq d.key k) (change_effect d.kind d d.value) r f
          (λ g.
            let same = change_effect-revision d.kind d d.value x g in let top = b.0 in omega arith)
          (h x))
      e

records-bounded :
    (s : MemoryStateStore) (k : StateKey) (c : StoredRecord)
    → IsLogged s
    → get k s.records ≡ some c
    → c.revision ≤ s.revision
records-bounded s k c l h =
    change_bounded k s.revision s.changes none c l.bounded (λ b e. cc) (l.replays k ∙ h)

IsFaithful-self : (s : MemoryStateStore) → IsLogged s → IsFaithful s s.records
unfolding IsFaithful
IsFaithful-self s l = (
  λ k r h. records-bounded s k r l h,
  λ k r c h g e. let same : ◌≡◌ {A = Option StoredRecord} (some r) (some c) = sym h ∙ g in cc,
)

finished :
    (p : Platform) (y : System) (call : ℕ) (work : Work) (n : ℕ) (c : Pending) (o : Option Pending)
    → get n (finish_pending p call work o y).pending ≡ some c
    → get n y.pending ≡ some c
unfolding finish_pending
finished p y call work n c none h = h
finished p y call work n c (some d) h = ground (arith, get-delete call n y.pending)

added :
    (y : System) (call n : ℕ) (c d : Pending)
    → d.snapshot ≡ y.store.records
    → get n (set call d y.pending) ≡ some c
    → (get n y.pending ≡ some c) ⊎ (c.snapshot ≡ y.store.records)
added y call n c d s h = elim (Bool-cases (call == n)) [
  | inl e ↦
      let same : ◌≡◌ {A = Option Pending} (some d) (some c) =
        ground (arith, get-set call n d y.pending) in
      let one : d ≡ c = cc same in inr (sym (ap (λ (r : Pending). r.snapshot) one) ∙ s)
  | inr e ↦ inl (ground (arith, get-set call n d y.pending))
]

begun :
    {P : Type 0} (b : Bool) (y z : System) (n : ℕ) (c : Pending)
    → get n (if b then y else z).pending ≡ some c
    → (get n y.pending ≡ some c → P)
    → (get n z.pending ≡ some c → P)
    → P
begun true y z n c h f g = f h
begun false y z n c h f g = g h

-- A pending transaction was pending before a step, or reads the records that were there before it.
pending_cases :
    (p : Platform) (y : System) (e : Event) (n : ℕ) (c : Pending)
    → get n (step p y e).pending ≡ some c
    → (get n y.pending ≡ some c) ⊎ (c.snapshot ≡ y.store.records)
unfolding step after_begin finish_pending
pending_cases p y opens n c h = inl h
pending_cases p y closes n c h = inl h
pending_cases p y (claims now q) n c h = inl h
pending_cases p y (acknowledges now q) n c h = inl h
pending_cases p y (watches number cursor) n c h = inl h
pending_cases p y (finishes call work) n c h =
    inl (finished p y call work n c (get call y.pending) h)
pending_cases p y (begins call o) n c h =
    begun (is_some (get call y.pending)) y (after_begin call o y (begin_transact call o y.store)) n
      c h inl
      (begin_cases call y.store
        (λ r.
          get n (after_begin call o y r).pending ≡ some c
          → (get n y.pending ≡ some c) ⊎ (c.snapshot ≡ y.store.records))
        o (λ _ k. inl k) (λ _ _ _ _ k. inl k) (λ _ _ _ _ k. inl k)
        (added y call n c (record { options = o; identity = none; snapshot = y.store.records })
          refl)
        (λ i _ _.
          added y call n c (record { options = o; identity = some i; snapshot = y.store.records })
            refl))

record IsCertified (y : System) : Type 0 where
  logged : IsLogged y.store
  faithful : (n : ℕ) (c : Pending) → get n y.pending ≡ some c → IsFaithful y.store c.snapshot

step-IsCertified :
    (p : Platform) (y : System) (e : Event) → IsCertified y → IsCertified (step p y e)
step-IsCertified p y e h = record {
  logged = step-IsLogged p y e h.logged;
  faithful = λ n c g.
      Follows-IsFaithful y.store (step p y e).store c.snapshot (step-Follows p y e)
        (elim (pending_cases p y e n c g) [
          | inl before ↦ h.faithful n c before
          | inr new ↦ subst (IsFaithful y.store) (sym new) (IsFaithful-self y.store h.logged)
        ]);
}

run-IsCertified :
    (p : Platform) (y : System) (es : List Event) → IsCertified y → IsCertified (run p y es)
unfolding run
run-IsCertified p y [] h = h
run-IsCertified p y (e ∷ es) h = run-IsCertified p (step p y e) es (step-IsCertified p y e h)

abbrev pub is_checked : ExpectedRevision → Bool
is_checked unchecked = false
is_checked absent = true
is_checked (at_revision n) = true

-- A mutation that expects the revision at which the snapshot has its key, or its absence there.
unfoldable pub expects_read : Map StateKey StoredRecord → Mutation → Bool
expects_read snapshot m =
    is_checked (mutation_expected m)
    && matches_expected_revision (get (mutation_key m) snapshot) (mutation_expected m)

same_record :
    (e : ExpectedRevision) (r c : Option StoredRecord)
    → is_checked e ≡ true
    → matches_expected_revision r e ≡ true
    → matches_expected_revision c e ≡ true
    → ((a b : StoredRecord) → r ≡ some a → c ≡ some b → a.revision ≡ b.revision → a ≡ b)
    → c ≡ r
unfolding matches_expected_revision
same_record unchecked r c i m n f = cc
same_record absent none none i m n f = refl
same_record absent none (some b) i m n f = cc
same_record absent (some a) c i m n f = cc
same_record (at_revision x) none c i m n f = cc
same_record (at_revision x) (some a) none i m n f = cc
same_record (at_revision x) (some a) (some b) i m n f =
    ap some
      (sym (f a b refl refl (ground (arith, nat_beq_iff a.revision x, nat_beq_iff b.revision x))))

unchanged :
    (s : MemoryStateStore) (snapshot : Map StateKey StoredRecord) (ms : List Mutation)
    → IsFaithful s snapshot
    → All
        (λ m.
          matches_expected_revision (get (mutation_key m) s.records) (mutation_expected m) ≡ true)
        ms
    → All
        (λ m. get (mutation_key m) s.records ≡ get (mutation_key m) snapshot)
        (filter (expects_read snapshot) ms)
unfolding IsFaithful expects_read
unchanged s snapshot [] f h = tt
unchanged s snapshot (m ∷ ms) f h = elim (Bool-cases (expects_read snapshot m)) [
  | inl e ↦
      let (i, r) = and_split (is_checked (mutation_expected m)) _ e in
      rw e (
        same_record (mutation_expected m) (get (mutation_key m) snapshot)
            (get (mutation_key m) s.records) i r h.0 (f.1 (mutation_key m)),
        unchanged s snapshot ms f h.1,
      )
  | inr e ↦ rw e (unchanged s snapshot ms f h.1)
]

-- No update is lost. In every state that calls on a new store lead to, let the work of a pending
-- transaction stage mutations over its snapshot, and let its commit succeed on the store as it is
-- by then. Then for each staged mutation that expects the revision (or the absence) of its key in
-- the snapshot, the store still holds at that moment exactly what the transaction read: the same
-- record, value and revision, or none.
pub no_update_is_lost :
    (p : Platform) (es : List Event) (call : ℕ) (c : Pending) (w : Work) (st : StagedTransaction)
    (r v : JsonValue) (s' : MemoryStateStore)
    → get call (run p initial es).pending ≡ some c
    → stage w (new_transaction c.snapshot) ≡ ok (r, st)
    → commit p c.options c.identity st r (run p initial es).store ≡ ok (v, s')
    → All
        (λ m.
          get (mutation_key m) (run p initial es).store.records ≡ get (mutation_key m) c.snapshot)
        (filter (expects_read c.snapshot) st.mutations)
unfolding initial new_store get
no_update_is_lost p es call c w st r v s' pending staged done =
    let y = run p initial es in
    let start : IsCertified initial = record {
      logged = record { replays = λ k. refl; bounded = tt };
      faithful = λ n d g. cc;
    } in
    let h = run-IsCertified p initial es start in
    unchanged y.store c.snapshot st.mutations (h.faithful call c pending)
      (commit_optimistic p c.options c.identity w c.snapshot st r v y.store s' staged done).0
