-- ===== src/Selection.antt =====
-- packages/executor-node/src/selection.ts: the choice of an executor for a component.
pub mod Choice
use tego_next.Base.{
  ℕ, Text, Bool, true, false, ◌&&◌, List, [], ◌∷◌, Option, none, some, ok, err, leb, any, filter,
  nat_beq, if◌then◌else◌,
}
use tego_next.Contracts.Diagnostic.{Outcome, executor_selection_unavailable}

pub data ExecutorKind : Type 0 where
  process remote thread : ExecutorKind

-- Kinds are compared as the strings they are; here by their places.
abbrev pub kind_index : ExecutorKind → ℕ
kind_index process = 0
kind_index remote = 1
kind_index thread = 2

abbrev pub kind_beq : ExecutorKind → ExecutorKind → Bool
kind_beq a b = nat_beq (kind_index a) (kind_index b)

pub record WorkerResourceCeilings : Type 0 where
  pub cpu_millis : ℕ
  pub memory_bytes : ℕ
  pub storage_bytes : ℕ

pub record ExecutorSelectionCandidate : Type 0 where
  pub id : Text
  pub kind : ExecutorKind
  pub healthy : Bool
  pub available : Bool
  pub resources : WorkerResourceCeilings

pub record ExecutorSelectionRequest : Type 0 where
  pub supported : List ExecutorKind
  pub granted : List ExecutorKind
  pub resources : WorkerResourceCeilings
  pub preference : Option (List ExecutorKind)
  pub candidates : List ExecutorSelectionCandidate

-- DEFAULT_PREFERENCE.
abbrev pub default_preference : List ExecutorKind
default_preference = process ∷ remote ∷ thread ∷ []

unfoldable pub satisfies : WorkerResourceCeilings → WorkerResourceCeilings → Bool
satisfies available requested =
    leb requested.cpu_millis available.cpu_millis
    && (leb requested.memory_bytes available.memory_bytes
        && leb requested.storage_bytes available.storage_bytes)

abbrev pub has_kind : List ExecutorKind → ExecutorKind → Bool
has_kind kinds kind = any (kind_beq kind) kinds

abbrev pub is_eligible : ExecutorSelectionRequest → ExecutorSelectionCandidate → Bool
is_eligible q c =
    has_kind q.supported c.kind
    && (has_kind q.granted c.kind
        && (c.healthy && (c.available && satisfies c.resources q.resources)))

abbrev pub preference_of : Option (List ExecutorKind) → List ExecutorKind
preference_of none = default_preference
preference_of (some kinds) = kinds

-- `eligible.find(...)`.
abbrev pub find_kind :
    ExecutorKind → List ExecutorSelectionCandidate → Option ExecutorSelectionCandidate
find_kind kind [] = none
find_kind kind (c ∷ cs) = if kind_beq c.kind kind then some c else find_kind kind cs

abbrev first_eligible : List ExecutorSelectionCandidate → Outcome ExecutorSelectionCandidate
first_eligible [] = err executor_selection_unavailable
first_eligible (c ∷ cs) = ok c

abbrev pub found_or :
    Option ExecutorSelectionCandidate
    → Outcome ExecutorSelectionCandidate
    → Outcome ExecutorSelectionCandidate
found_or none rest = rest
found_or (some c) rest = ok c

-- The loop over the preferred kinds, and the fallback.
unfoldable pub choose :
    List ExecutorKind → List ExecutorSelectionCandidate → Outcome ExecutorSelectionCandidate
choose [] eligible = first_eligible eligible
choose (kind ∷ kinds) eligible = found_or (find_kind kind eligible) (choose kinds eligible)

unfoldable pub select_executor : ExecutorSelectionRequest → Outcome ExecutorSelectionCandidate
unfolding choose
select_executor q = choose (preference_of q.preference) (filter (is_eligible q) q.candidates)
