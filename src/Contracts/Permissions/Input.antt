-- ===== src/Contracts/Permissions/Input.antt =====
-- packages/contracts/src/permission-grant.ts: the readers of `unknown` input. The input is plain
-- JSON data, of which `clonePermissionBoundaryValue` returns a copy; a PermissionInputError is one
-- code, without its path and message.
use tego_next.Base.{
  Text, Bool, true, false, ◌&&◌, ◌||◌, List, [], ◌∷◌, before, text_beq, text_eq, sort_by,
  if◌then◌else◌, ok, err, guard, ◌>>=◌, Option, none, some,
}
use tego_next.Contracts.Json.{JsonValue, JsonArray, JsonObject}
use tego_next.Contracts.Json.JsonValue.{string, array, object}
use tego_next.Contracts.Json.JsonArray.{nil, item}
use tego_next.Contracts.Json.JsonObject.{end, member}
use tego_next.Contracts.Diagnostic.{Outcome, permission_envelope_invalid}

-- A value of type `unknown`; `undefined` is `none`.
abbrev pub Input : Type 0
Input = Option JsonValue

abbrev pub invalid {ℓ} : {A : Type ℓ} → Outcome A
invalid = err permission_envelope_invalid

abbrev pub check : Bool → Outcome (Unit {0})
check test = guard test permission_envelope_invalid

unfoldable pub object_at : Input → Outcome JsonObject
object_at (some (object o)) = ok o
object_at _ = invalid

-- `Object.keys(value)`, and the member of an object.
unfoldable pub keys : JsonObject → List Text
keys end = []
keys (member k v rest) = k ∷ keys rest

unfoldable pub field : Text → JsonObject → Input
unfolding text_beq
field k end = none
field k (member j v rest) = if text_beq j k then some v else field k rest

same_texts : List Text → List Text → Bool
unfolding text_beq
same_texts [] [] = true
same_texts (a ∷ as') (b ∷ bs) = text_beq a b && same_texts as' bs
same_texts _ _ = false

-- The expected keys are given in order.
unfoldable pub has_exact_keys : JsonObject → List Text → Bool
unfolding before keys same_texts sort_by
has_exact_keys o expected = same_texts (sort_by (λ left right. before right left) (keys o)) expected

unfoldable pub exact_keys : JsonObject → List Text → Outcome (Unit {0})
unfolding has_exact_keys
exact_keys o expected = check (has_exact_keys o expected)

to_items : JsonArray → List JsonValue
to_items nil = []
to_items (item v rest) = v ∷ to_items rest

unfoldable pub array_at : Input → Outcome (List JsonValue)
unfolding to_items
array_at (some (array a)) = ok (to_items a)
array_at _ = invalid

unfoldable pub string_at : Input → Outcome Text
string_at (some (string t)) = ok t
string_at _ = invalid

-- `array.map(read)`, where `read` may throw.
unfoldable pub read_all {ℓ} : {A : Type ℓ} → (Input → Outcome A) → List JsonValue → Outcome (List A)
read_all read [] = ok []
read_all read (v ∷ vs) = do a ← read (some v); rest ← read_all read vs; ok (a ∷ rest)

module _ {ℓ} {A : Type ℓ} (after : A → A → Bool) where
  -- The elements that differ from the one before them.
  differing : A → List A → List A
  differing previous [] = []
  differing previous (x ∷ xs) =
      let rest = differing x xs in if after previous x || after x previous then x ∷ rest else rest

  unfoldable pub sorted_unique : List A → List A
  unfolding differing sort_by
  sorted_unique xs = elim (sort_by after xs) [ [] ↦ [] | y ∷ ys ↦ y ∷ differing y ys ]

abbrev pub text_after : Text → Text → Bool
text_after left right = before right left
