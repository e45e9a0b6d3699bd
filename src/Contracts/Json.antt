-- ===== src/Contracts/Json.antt =====
-- packages/contracts/src/json.ts: JSON data, and the wire form that `serializeWireValue` returns.
-- A number is the text that JSON prints for it; only finite numbers have one.
pub mod Canonical
use tego_next.Base.{
  Text, text_beq, text_beq_iff, before, Bool, true, false, ◌&&◌, ◌≡◌, ◌↔◌, arith, Eq, if◌then◌else◌,
  refl, sym, ap, ap₂, subst, text_eq, eq_self, and_split, ℕ, ◌+◌, ◌*◌, ◌-◌, leb, ltb, nat_beq, [],
  ◌∷◌, Option, none, some,
}

mutual
  pub data JsonValue : Type 0 where
    null : JsonValue
    boolean : Bool → JsonValue
    number : Text → JsonValue
    string : Text → JsonValue
    array : JsonArray → JsonValue
    object : JsonObject → JsonValue

  pub data JsonArray : Type 0 where
    nil : JsonArray
    item : JsonValue → JsonArray → JsonArray

  pub data JsonObject : Type 0 where
    end : JsonObject
    member : Text → JsonValue → JsonObject → JsonObject

abbrev bool_beq : Bool → Bool → Bool
bool_beq true b = b
bool_beq false true = false
bool_beq false false = true

-- `JSON.stringify(left) === JSON.stringify(right)` on wire values.
unfoldable mutual
  pub json_beq : JsonValue → JsonValue → Bool
  json_beq null null = true
  json_beq (boolean a) (boolean b) = bool_beq a b
  json_beq (number a) (number b) = text_beq a b
  json_beq (string a) (string b) = text_beq a b
  json_beq (array a) (array b) = array_beq a b
  json_beq (object a) (object b) = object_beq a b
  json_beq _ _ = false

  pub array_beq : JsonArray → JsonArray → Bool
  array_beq nil nil = true
  array_beq (item a r) (item b s) = json_beq a b && array_beq r s
  array_beq _ _ = false

  pub object_beq : JsonObject → JsonObject → Bool
  object_beq end end = true
  object_beq (member j a r) (member k b s) = text_beq j k && (json_beq a b && object_beq r s)
  object_beq _ _ = false

bool_beq_sound : (a b : Bool) → bool_beq a b ≡ true → a ≡ b
bool_beq_sound true b h = sym h
bool_beq_sound false true h = cc
bool_beq_sound false false h = refl

mutual
  unfolding json_beq array_beq object_beq

  json_sound : (a b : JsonValue) → json_beq a b ≡ true → a ≡ b
  json_sound null null h = refl
  json_sound (boolean a) (boolean b) h = ap boolean (bool_beq_sound a b h)
  json_sound (number a) (number b) h = ap number ((text_beq_iff a b).0 h)
  json_sound (string a) (string b) h = ap string ((text_beq_iff a b).0 h)
  json_sound (array a) (array b) h = ap array (array_sound a b h)
  json_sound (object a) (object b) h = ap object (object_sound a b h)
  json_sound _ _ h = cc

  array_sound : (a b : JsonArray) → array_beq a b ≡ true → a ≡ b
  array_sound nil nil h = refl
  array_sound (item a r) (item b s) h =
      let (p, q) = and_split (json_beq a b) (array_beq r s) h in
      ap₂ item (json_sound a b p) (array_sound r s q)
  array_sound _ _ h = cc

  object_sound : (a b : JsonObject) → object_beq a b ≡ true → a ≡ b
  object_sound end end h = refl
  object_sound (member j a r) (member k b s) h =
      let (p, q) = and_split (text_beq j k) (json_beq a b && object_beq r s) h in
      let (q₁, q₂) = and_split (json_beq a b) (object_beq r s) q in
      cc ((text_beq_iff j k).0 p, json_sound a b q₁, object_sound r s q₂)
  object_sound _ _ h = cc

mutual
  unfolding json_beq array_beq object_beq

  json_self : (a : JsonValue) → json_beq a a ≡ true
  json_self null = refl
  json_self (boolean true) = refl
  json_self (boolean false) = refl
  json_self (number a) = eq_self a
  json_self (string a) = eq_self a
  json_self (array a) = array_self a
  json_self (object a) = object_self a

  array_self : (a : JsonArray) → array_beq a a ≡ true
  array_self nil = refl
  array_self (item a r) = rw (json_self a) (array_self r)

  object_self : (a : JsonObject) → object_beq a a ≡ true
  object_self end = refl
  object_self (member k a r) = rw (eq_self k, json_self a) (object_self r)

pub json_beq_iff : (a b : JsonValue) → (json_beq a b ≡ true) ↔ (a ≡ b)
json_beq_iff a b = (json_sound a b, λ e. subst (λ c. json_beq a c ≡ true) e (json_self a))

instance abbrev pub json_eq : Eq JsonValue
json_eq = record { beq = json_beq; beq_iff = json_beq_iff }

abbrev key_digit : ℕ → Bool
key_digit c = leb b'0' c && leb c b'9'

-- The number that digits print, after those read.
key_number : ℕ → Text → Option ℕ
key_number n [] = some n
key_number n (c ∷ rest) =
    let further = key_number (n * 10 + (c - b'0')) rest in if key_digit c then further else none

abbrev below_index_limit : Option ℕ → Option ℕ
below_index_limit none = none
below_index_limit (some n) = if ltb n 4294967295 then some n else none

-- The array index that a property key prints, below 2^32 - 1 and with no leading zero.
unfoldable pub array_index : Text → Option ℕ
unfolding key_number
array_index [] = none
array_index (c ∷ []) = if key_digit c then some (c - b'0') else none
array_index (c ∷ d ∷ rest) =
    let n = below_index_limit (key_number 0 (c ∷ d ∷ rest)) in if nat_beq c b'0' then none else n

abbrev pub index_before : Option ℕ → Option ℕ → (by_creation : Bool) → Bool
index_before (some m) (some n) b = ltb m n
index_before (some m) none b = true
index_before none (some n) b = false
index_before none none b = b

-- The order in which an object lists its keys when they were defined in code-unit order: array
-- indices first, by their numbers, and then the other keys as they were defined.
unfoldable pub enumerates_before : Text → Text → Bool
unfolding array_index
enumerates_before j k = index_before (array_index j) (array_index k) (before j k)

-- An object is the list of its members as `Object.keys` and `JSON.stringify` list them. Members
-- defined in the order of `Object.keys(value).sort()`, which is that of code units, are listed in
-- the order above.
pub insert_member : Text → JsonValue → JsonObject → JsonObject
unfolding enumerates_before
insert_member k v end = member k v end
insert_member k v (member j w r) =
    let later = insert_member k v r in
    if enumerates_before j k then member j w later else member k v (member j w r)

unfoldable mutual
  unfolding insert_member

  pub serialize : JsonValue → JsonValue
  serialize null = null
  serialize (boolean b) = boolean b
  serialize (number n) = number n
  serialize (string s) = string s
  serialize (array a) = array (serialize_items a)
  serialize (object o) = object (serialize_members o)

  pub serialize_items : JsonArray → JsonArray
  serialize_items nil = nil
  serialize_items (item v r) = item (serialize v) (serialize_items r)

  pub serialize_members : JsonObject → JsonObject
  serialize_members end = end
  serialize_members (member k v r) = insert_member k (serialize v) (serialize_members r)

unfoldable pub serialize_wire_value : JsonValue → JsonValue
serialize_wire_value v = serialize v
