-- ===== src/Coordination/Leadership.antt =====
-- Who leads in the local provider.
use tego_next.Base.{
  ℕ, Bool, true, false, List, [], ◌∷◌, none, some, Text, Map, get, set, delete, ◌≡◌, refl, sym,
  Bool-cases, Option-cases, inl, inr, text_eq, get-set, get-delete, ◌==◌, arith, nat_eq, values,
  ◌↔◌, text_beq_iff, nat_beq_iff, subst,
}
use tego_next.Contracts.Json.{JsonValue}
use tego_next.Contracts.State.{ExpectedRevision}
use tego_next.Coordination.{
  LocalCoordination, LeadershipHandle, CoordinationEvent, opens, closes, campaigns, releases, sets,
  watches, call, call_all, new_coordination, compare_and_set, is_live, non_blank,
  release_leadership, release_each, campaign, release_handle, new_leader, is_ended, after_or,
  second_or, close_coordination, open_coordination, watch_changes, assert_live, assert_resource,
}

abbrev leading : Text → LeadershipHandle
leading j = record { resource = j; released = false }

-- A handle leads a resource exactly when it is one of that resource and is not released.
abbrev IsLed : Map Text ℕ → Map ℕ LeadershipHandle → Type 0
IsLed leadership handles =
    (j : Text) (n : ℕ) → (get j leadership ≡ some n) ↔ (get n handles ≡ some (leading j))

campaigned :
    (l : Map Text ℕ) (hs : Map ℕ LeadershipHandle) (resource : Text) (number : ℕ)
    → IsLed l hs
    → get resource l ≡ none
    → get number hs ≡ none
    → IsLed (set resource number l) (set number (leading resource) hs)
campaigned l hs resource number inv free fresh j n =
    rw (get-set resource j number l, get-set number n (leading resource) hs)
      (elim (Bool-cases (resource == j)) [
        | inl s ↦ ground (arith, inv j n, inv j number, inv resource n, text_beq_iff resource j)
        | inr s ↦ ground (arith, inv j n, inv j number, inv resource n, text_beq_iff resource j)
      ])

released :
    (l : Map Text ℕ) (hs : Map ℕ LeadershipHandle) (resource : Text) (number : ℕ)
    → IsLed l hs
    → get number hs ≡ some (leading resource)
    → IsLed (delete resource l) (set number (record { resource = resource; released = true }) hs)
released l hs resource number inv held j n =
    rw
      (
        get-delete resource j l,
        get-set number n (record { resource = resource; released = true }) hs,
      )
      (elim (Bool-cases (resource == j)) [
        | inl s ↦ ground (
          arith,
          inv j n,
          inv j number,
          inv resource n,
          inv resource number,
          text_beq_iff resource j,
        )
        | inr s ↦ ground (
          arith,
          inv j n,
          inv j number,
          inv resource n,
          inv resource number,
          text_beq_iff resource j,
        )
      ])

-- The leadership side of a state.
abbrev IsOrdered : LocalCoordination → Type 0
IsOrdered c = IsLed c.leadership c.handles

new_leader-IsOrdered :
    (n : ℕ) (resource : Text) (c : LocalCoordination)
    → IsOrdered c
    → get n c.handles ≡ none
    → IsOrdered (new_leader (get resource c.leadership) n resource c).1
unfolding new_leader
new_leader-IsOrdered n resource c h fresh = elim (Option-cases (get resource c.leadership)) [
  | inl e ↦ rw e (campaigned c.leadership c.handles resource n h e fresh)
  | inr (m, e) ↦ rw e h
]

campaign-IsOrdered :
    (n : ℕ) (resource : Text) (c : LocalCoordination)
    → IsOrdered c
    → get n c.handles ≡ none
    → IsOrdered (second_or c (campaign n resource c))
unfolding campaign assert_live assert_resource
campaign-IsOrdered n resource c h fresh = elim (Bool-cases (is_live c.lifecycle)) [
  | inl s ↦ elim (Bool-cases (non_blank resource)) [
    | inl t ↦ rw (s, t) (new_leader-IsOrdered n resource c h fresh)
    | inr t ↦ rw (s, t) h
  ]
  | inr s ↦ rw s h
]

released_handle :
    (n : ℕ) (r : Text) (done : Bool) (c : LocalCoordination)
    → IsOrdered c
    → get n c.handles ≡ some (record { resource = r; released = done })
    → IsOrdered (release_handle (some (record { resource = r; released = done })) n c)
unfolding release_handle
released_handle n r true c h e = h
released_handle n r false c h e =
    let leader : get r c.leadership ≡ some n = (h r n).1 e in
    rw (leader, (nat_beq_iff n n).1 refl) (released c.leadership c.handles r n h e)

release_leadership-IsOrdered :
    (n : ℕ) (c : LocalCoordination) → IsOrdered c → IsOrdered (release_leadership n c)
unfolding release_leadership
release_leadership-IsOrdered n c h = elim (Option-cases (get n c.handles)) [
  | inl e ↦ rw e h
  | inr (x, e) ↦ rw e (released_handle n x.resource x.released c h e)
]

release_each-IsOrdered :
    (ns : List ℕ) (c : LocalCoordination) → IsOrdered c → IsOrdered (release_each ns c)
unfolding release_each
release_each-IsOrdered [] c h = h
release_each-IsOrdered (n ∷ ns) c h =
    release_each-IsOrdered ns (release_leadership n c) (release_leadership-IsOrdered n c h)

close-IsOrdered : (c : LocalCoordination) → IsOrdered c → IsOrdered (close_coordination c).0
unfolding close_coordination
close-IsOrdered c h = elim (Bool-cases (is_ended c.lifecycle)) [
  | inl s ↦ rw s h
  | inr s ↦ rw s (release_each-IsOrdered (values c.leadership) _ h)
]

abbrev sides : LocalCoordination → Map Text ℕ × Map ℕ LeadershipHandle
sides c = (c.leadership, c.handles)

open-sides : (c : LocalCoordination) → sides (after_or c (open_coordination c)) ≡ sides c
unfolding open_coordination
open-sides c = ground arith

watch-sides :
    (n cursor : ℕ) (c : LocalCoordination) → sides (after_or c (watch_changes n cursor c)) ≡ sides c
unfolding watch_changes assert_live
watch-sides n cursor c = ground arith

set-sides :
    (key : Text) (e : ExpectedRevision) (v : JsonValue) (c : LocalCoordination)
    → sides (second_or c (compare_and_set key e v c)) ≡ sides c
unfolding compare_and_set assert_live
set-sides key e v c = ground arith

kept : (a b : Map Text ℕ × Map ℕ LeadershipHandle) → a ≡ b → IsLed b.0 b.1 → IsLed a.0 a.1
kept a b e h = subst (λ x. IsLed x.0 x.1) (sym e) h

call-IsOrdered :
    (c : LocalCoordination) (e : CoordinationEvent) → IsOrdered c → IsOrdered (call c e)
unfolding call
call-IsOrdered c opens h = kept _ _ (open-sides c) h
call-IsOrdered c closes h = close-IsOrdered c h
call-IsOrdered c (campaigns n resource) h = elim (Option-cases (get n c.handles)) [
  | inl e ↦ rw e (campaign-IsOrdered n resource c h e)
  | inr (x, e) ↦ rw e h
]
call-IsOrdered c (releases n) h = release_leadership-IsOrdered n c h
call-IsOrdered c (sets key e value) h = kept _ _ (set-sides key e value c) h
call-IsOrdered c (watches n cursor) h = kept _ _ (watch-sides n cursor c) h

call_all-IsOrdered :
    (c : LocalCoordination) (es : List CoordinationEvent) → IsOrdered c → IsOrdered (call_all c es)
unfolding call_all
call_all-IsOrdered c [] h = h
call_all-IsOrdered c (e ∷ es) h = call_all-IsOrdered (call c e) es (call-IsOrdered c e h)

-- After any sequence of calls on a new provider, a handle is the leader of a resource exactly when
-- it is a handle of that resource that has not been released: no released handle leads, and no two
-- handles of a resource are unreleased at once.
pub leads_until_released :
    (es : List CoordinationEvent)
    → let c = call_all new_coordination es in
      (j : Text) (n : ℕ)
      → (get j c.leadership ≡ some n)
        ↔ (get n c.handles ≡ some (record { resource = j; released = false }))
unfolding new_coordination get
leads_until_released es =
    call_all-IsOrdered new_coordination es
      (λ j n. (λ e. absurd (ground arith), λ e. absurd (ground arith)))
