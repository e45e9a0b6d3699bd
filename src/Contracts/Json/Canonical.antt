-- ===== src/Contracts/Json/Canonical.antt =====
-- The wire form of a value: members in the order in which JavaScript lists them, at every depth.
use tego_next.Base.{
  Text, before, before_asym, Bool, true, false, ◌≡◌, refl, ap, Bool-cases, inl, inr, ℕ, Option,
  none, some, arith,
}
use tego_next.Contracts.Json.{
  JsonValue, JsonArray, JsonObject, null, boolean, number, string, array, object, nil, item, end,
  member, serialize, serialize_items, serialize_members, serialize_wire_value, insert_member,
  enumerates_before, array_index, index_before,
}

-- No member of `o` comes before the key `k` at its head.
abbrev pub Follows : Text → JsonObject → Type 0
Follows k end = Unit {0}
Follows k (member j w r) = enumerates_before j k ≡ false

abbrev mutual
  pub IsCanonical : JsonValue → Type 0
  IsCanonical null = Unit {0}
  IsCanonical (boolean b) = Unit {0}
  IsCanonical (number n) = Unit {0}
  IsCanonical (string s) = Unit {0}
  IsCanonical (array a) = IsCanonicalArray a
  IsCanonical (object o) = IsCanonicalObject o

  pub IsCanonicalArray : JsonArray → Type 0
  IsCanonicalArray nil = Unit {0}
  IsCanonicalArray (item v r) = IsCanonical v × IsCanonicalArray r

  pub IsCanonicalObject : JsonObject → Type 0
  IsCanonicalObject end = Unit {0}
  IsCanonicalObject (member k v r) = IsCanonical v × Follows k r × IsCanonicalObject r

index_before_asym :
    (a b : Option ℕ) (c d : Bool)
    → (c ≡ true → d ≡ false)
    → index_before a b c ≡ true
    → index_before b a d ≡ false
index_before_asym (some m) (some n) c d f h = ground arith
index_before_asym (some m) none c d f h = refl
index_before_asym none (some n) c d f h = cc
index_before_asym none none c d f h = f h

enumerates_before_asym : (j k : Text) → enumerates_before j k ≡ true → enumerates_before k j ≡ false
unfolding enumerates_before
enumerates_before_asym j k h =
    index_before_asym (array_index j) (array_index k) (before j k) (before k j) (before_asym j k) h

insert_member-Follows :
    (j k : Text) (v : JsonValue) (r : JsonObject)
    → enumerates_before k j ≡ false
    → Follows j r
    → Follows j (insert_member k v r)
unfolding insert_member
insert_member-Follows j k v end h f = h
insert_member-Follows j k v (member i w r) h f = elim (Bool-cases (enumerates_before i k)) [
  | inl e ↦ rw e f
  | inr e ↦ rw e h
]

insert_member-IsCanonical :
    (k : Text) (v : JsonValue) (r : JsonObject)
    → IsCanonical v
    → IsCanonicalObject r
    → IsCanonicalObject (insert_member k v r)
unfolding insert_member
insert_member-IsCanonical k v end h c = (h, tt, tt)
insert_member-IsCanonical k v (member j w r) h c = elim (Bool-cases (enumerates_before j k)) [
  | inl e ↦ rw e (
    c.0,
    insert_member-Follows j k v r (enumerates_before_asym j k e) c.1,
    insert_member-IsCanonical k v r h c.2,
  )
  | inr e ↦ rw e (h, e, c)
]

mutual
  unfolding serialize serialize_items serialize_members

  serialize-Canonical : (v : JsonValue) → IsCanonical (serialize v)
  serialize-Canonical null = tt
  serialize-Canonical (boolean b) = tt
  serialize-Canonical (number n) = tt
  serialize-Canonical (string s) = tt
  serialize-Canonical (array a) = serialize_items-Canonical a
  serialize-Canonical (object o) = serialize_members-Canonical o

  serialize_items-Canonical : (a : JsonArray) → IsCanonicalArray (serialize_items a)
  serialize_items-Canonical nil = tt
  serialize_items-Canonical (item v r) = (serialize-Canonical v, serialize_items-Canonical r)

  serialize_members-Canonical : (o : JsonObject) → IsCanonicalObject (serialize_members o)
  serialize_members-Canonical end = tt
  serialize_members-Canonical (member k v r) =
      insert_member-IsCanonical k (serialize v) (serialize_members r) (serialize-Canonical v)
        (serialize_members-Canonical r)

insert_member_first :
    (k : Text) (v : JsonValue) (r : JsonObject) → Follows k r → insert_member k v r ≡ member k v r
unfolding insert_member
insert_member_first k v end f = refl
insert_member_first k v (member j w r) f = rw f

mutual
  unfolding serialize serialize_items serialize_members

  serialize_fixed : (v : JsonValue) → IsCanonical v → serialize v ≡ v
  serialize_fixed null c = refl
  serialize_fixed (boolean b) c = refl
  serialize_fixed (number n) c = refl
  serialize_fixed (string s) c = refl
  serialize_fixed (array a) c = ap array (serialize_items_fixed a c)
  serialize_fixed (object o) c = ap object (serialize_members_fixed o c)

  serialize_items_fixed : (a : JsonArray) → IsCanonicalArray a → serialize_items a ≡ a
  serialize_items_fixed nil c = refl
  serialize_items_fixed (item v r) c = cc (serialize_fixed v c.0, serialize_items_fixed r c.1)

  serialize_members_fixed : (o : JsonObject) → IsCanonicalObject o → serialize_members o ≡ o
  serialize_members_fixed end c = refl
  serialize_members_fixed (member k v r) c =
      rw (serialize_fixed v c.0, serialize_members_fixed r c.2) (insert_member_first k v r c.1)

pub serialize_wire_value-IsCanonical : (v : JsonValue) → IsCanonical (serialize_wire_value v)
unfolding serialize_wire_value
serialize_wire_value-IsCanonical v = serialize-Canonical v

pub serialize_wire_value_fixed : (v : JsonValue) → IsCanonical v → serialize_wire_value v ≡ v
unfolding serialize_wire_value
serialize_wire_value_fixed v c = serialize_fixed v c

-- The wire form of any value has its members at every depth in the order in which JavaScript lists
-- them (keys that are array indices by their numbers, then the others by code units), and
-- serializing it again changes nothing: cloning a stored value gives that value.
pub serialize_wire_value_idem :
    (v : JsonValue)
    → IsCanonical (serialize_wire_value v)
      × (serialize_wire_value (serialize_wire_value v) ≡ serialize_wire_value v)
serialize_wire_value_idem v =
    let c = serialize_wire_value-IsCanonical v in (c, serialize_wire_value_fixed _ c)
