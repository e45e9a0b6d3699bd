-- ===== src/Coordination.antt =====
-- packages/drivers-local/src/local-coordination.ts, class LocalCoordinationProvider. A call is one
-- step: none awaits before it has changed the state, but for `close`, which closes the watchers
-- after it has awaited the releases. Leadership handles and watchers are known by the number of
-- the call that made them, revisions are their numbers, and durations are whole milliseconds.
pub mod Records
pub mod Leadership
use tego_next.Base.{
  ℕ, ◌+◌, Bool, true, false, not, ◌&&◌, List, [], ◌∷◌, ◌++◌, map, Option, none, some, Text, Map,
  get, set, delete, filter, ok, err, guard, ◌>>=◌, ◌>>◌, ltb, nat_beq, is_some, if◌then◌else◌,
  nat_eq, text_eq, length, values,
}
use tego_next.Contracts.Json.{JsonValue}
use tego_next.Contracts.Diagnostic.{
  Code, Outcome, coordination_closed, coordination_request_invalid,
}
use tego_next.Contracts.Platform.{Platform}
use tego_next.Contracts.State.{ExpectedRevision, unchecked, absent, at_revision}
use tego_next.Store.Types.{clone_json}
use tego_next.Watch.{WatchIterator, new_watcher, push, close}

pub record CoordinationRecord : Type 0 where
  pub value : JsonValue
  pub revision : ℕ

pub record CoordinationChange : Type 0 where
  pub key : Text
  pub revision : ℕ
  pub value : JsonValue

-- CoordinationWatchIterator: the iterator of Watch, over these changes.
abbrev pub CoordinationWatcher : Type 0
CoordinationWatcher = WatchIterator CoordinationChange

pub data CoordinationLifecycle : Type 0 where
  coordination_created coordination_open coordination_closed_down : CoordinationLifecycle

-- A handle's resource, and whether it has been released, which settles its promise `lost`.
pub record LeadershipHandle : Type 0 where
  pub resource : Text
  pub released : Bool

pub record LocalCoordination : Type 0 where
  pub records : Map Text CoordinationRecord
  pub leadership : Map Text ℕ
  pub handles : Map ℕ LeadershipHandle
  pub changes : List CoordinationChange
  pub watchers : Map ℕ CoordinationWatcher
  pub revision : ℕ
  pub lifecycle : CoordinationLifecycle

unfoldable pub new_coordination : LocalCoordination
new_coordination = record {
  records = [];
  leadership = [];
  handles = [];
  changes = [];
  watchers = [];
  revision = 0;
  lifecycle = coordination_created;
}

abbrev pub is_live : CoordinationLifecycle → Bool
is_live coordination_created = false
is_live coordination_open = true
is_live coordination_closed_down = false

abbrev pub is_ended : CoordinationLifecycle → Bool
is_ended coordination_created = false
is_ended coordination_open = false
is_ended coordination_closed_down = true

unfoldable pub assert_live : LocalCoordination → Outcome (Unit {0})
assert_live c = guard (is_live c.lifecycle) coordination_closed

abbrev pub non_blank : Text → Bool
non_blank [] = false
non_blank (c ∷ t) = true

unfoldable pub assert_resource : Text → Outcome (Unit {0})
assert_resource t = guard (non_blank t) coordination_request_invalid

unfoldable pub open_coordination : LocalCoordination → Outcome LocalCoordination
open_coordination c = do
  guard (not (is_ended c.lifecycle)) coordination_closed
  ok (record c { lifecycle = coordination_open })

-- A resource that has a leader gives its handle again; the call's number names a new one.
unfoldable pub new_leader : Option ℕ → ℕ → Text → LocalCoordination → ℕ × LocalCoordination
new_leader (some n) number resource c = (n, c)
new_leader none number resource c = (
  number,
  record c {
    leadership = set resource number c.leadership;
    handles = set number (record { resource = resource; released = false }) c.handles;
  },
)

unfoldable pub campaign : ℕ → Text → LocalCoordination → Outcome (ℕ × LocalCoordination)
unfolding new_leader
campaign number resource c = do
  assert_live c
  assert_resource resource
  ok (new_leader (get resource c.leadership) number resource c)

abbrev pub leads : Option ℕ → ℕ → Bool
leads none number = false
leads (some n) number = nat_beq n number

-- A handle's `release`: only the first call does anything, and the resource is given up only if
-- this handle leads it.
unfoldable pub release_handle : Option LeadershipHandle → ℕ → LocalCoordination → LocalCoordination
release_handle none number c = c
release_handle (some h) number c = if h.released then c else record c {
  handles = set number (record h { released = true }) c.handles;
  leadership =
      if leads (get h.resource c.leadership) number
      then delete h.resource c.leadership
      else c.leadership;
}

unfoldable pub release_leadership : ℕ → LocalCoordination → LocalCoordination
unfolding release_handle
release_leadership number c = release_handle (get number c.handles) number c

-- The epoch of every leadership and lease of the local provider.
abbrev pub local_epoch : ℕ
local_epoch = 1

pub record Lease : Type 0 where
  pub resource : Text
  pub owner : Text
  pub epoch : ℕ
  pub acquired_at : Text
  pub expires_at : Text

pub acquire_lease : Platform → ℕ → Text → Text → ℕ → LocalCoordination → Outcome Lease
acquire_lease p now resource owner duration_ms c = do
  assert_live c
  assert_resource resource
  guard (non_blank owner) coordination_request_invalid
  guard (ltb 0 duration_ms) coordination_request_invalid
  ok (record {
    resource = resource;
    owner = owner;
    epoch = local_epoch;
    acquired_at = p.iso_date now;
    expires_at = p.iso_date (now + duration_ms);
  })

pub next_epoch : Text → LocalCoordination → Outcome ℕ
next_epoch resource c = do assert_live c; assert_resource resource; ok local_epoch

unfoldable pub expected_matches : Option CoordinationRecord → ExpectedRevision → Bool
expected_matches r unchecked = true
expected_matches r absent = not (is_some r)
expected_matches none (at_revision n) = false
expected_matches (some r) (at_revision n) = nat_beq r.revision n

pub record CasResult : Type 0 where
  pub applied : Bool
  pub value : Option JsonValue
  pub revision : Option ℕ

abbrev pub refused : Option CoordinationRecord → CasResult
refused none = record { applied = false; value = none; revision = none }
refused (some r) = record {
  applied = false;
  value = some (clone_json r.value);
  revision = some r.revision;
}

abbrev pub clone_coordination_change : CoordinationChange → CoordinationChange
clone_coordination_change x = record x { value = clone_json x.value }

push_change : CoordinationChange → Map ℕ CoordinationWatcher → Map ℕ CoordinationWatcher
push_change x [] = []
push_change x ((n, w) ∷ ws) = (n, push clone_coordination_change x w) ∷ push_change x ws

unfoldable pub store_value : Text → JsonValue → LocalCoordination → CasResult × LocalCoordination
unfolding push_change
store_value key value c =
    let rev = c.revision + 1 in
    let v = clone_json value in
    let change : CoordinationChange = record { key = key; revision = rev; value = clone_json v } in
    (
      record { applied = true; value = some (clone_json v); revision = some rev },
      record c {
        revision = rev;
        records = set key (record { value = v; revision = rev }) c.records;
        changes = c.changes ++ change ∷ [];
        watchers = push_change change c.watchers;
      },
    )

unfoldable pub compare_and_set :
    Text
    → ExpectedRevision
    → JsonValue
    → LocalCoordination
    → Outcome (CasResult × LocalCoordination)
unfolding store_value
compare_and_set key expected value c = do
  assert_live c
  guard (non_blank key) coordination_request_invalid
  let current = get key c.records
  ok (if expected_matches current expected then store_value key value c else (refused current, c))

unfoldable pub watch_changes : ℕ → ℕ → LocalCoordination → Outcome LocalCoordination
watch_changes number cursor c = do
  assert_live c
  ok (record c {
    watchers =
        set number
          (new_watcher clone_coordination_change (filter (λ x. ltb cursor x.revision) c.changes))
          c.watchers;
  })

release_each : List ℕ → LocalCoordination → LocalCoordination
unfolding release_leadership
release_each [] c = c
release_each (n ∷ ns) c = release_each ns (release_leadership n c)

close_watchers : Map ℕ CoordinationWatcher → Map ℕ CoordinationWatcher
close_watchers [] = []
close_watchers ((n, w) ∷ ws) = (n, close w) ∷ close_watchers ws

-- Every handle that leads is released, and every watcher closed, which settles those that wait on
-- it and takes it out of the set; the closed watchers are returned.
unfoldable pub close_coordination :
    LocalCoordination → LocalCoordination × Map ℕ CoordinationWatcher
unfolding release_each close_watchers
close_coordination c =
    if is_ended c.lifecycle
    then (c, [])
    else let d =
        release_each (values c.leadership) (record c { lifecycle = coordination_closed_down }) in
      (record d { watchers = [] }, close_watchers d.watchers)

pub data CoordinationEvent : Type 0 where
  opens closes : CoordinationEvent
  campaigns : ℕ → Text → CoordinationEvent
  releases : ℕ → CoordinationEvent
  sets : Text → ExpectedRevision → JsonValue → CoordinationEvent
  watches : ℕ → ℕ → CoordinationEvent

abbrev pub after_or : LocalCoordination → Outcome LocalCoordination → LocalCoordination
after_or c (ok d) = d
after_or c (err e) = c

abbrev pub second_or {ℓ} :
    {A : Type ℓ} → LocalCoordination → Outcome (A × LocalCoordination) → LocalCoordination
second_or c (ok x) = x.1
second_or c (err e) = c

-- One call; a campaign has a number that no handle has.
unfoldable pub call : LocalCoordination → CoordinationEvent → LocalCoordination
call c opens = after_or c (open_coordination c)
call c closes = (close_coordination c).0
call c (campaigns n resource) =
    if is_some (get n c.handles) then c else second_or c (campaign n resource c)
call c (releases n) = release_leadership n c
call c (sets key expected value) = second_or c (compare_and_set key expected value c)
call c (watches n cursor) = after_or c (watch_changes n cursor c)

unfoldable pub call_all : LocalCoordination → List CoordinationEvent → LocalCoordination
unfolding call
call_all c [] = c
call_all c (e ∷ es) = call_all (call c e) es
