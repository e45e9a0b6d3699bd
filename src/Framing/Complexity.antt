-- ===== src/Framing/Complexity.antt =====
-- The complexity check of a frame against the size and the depth of its value.
use tego_next.Base.{ℕ, zero, suc, ◌+◌, ◌≤◌, max, [], ◌∷◌, ok, ◌≡◌, ◌↔◌, arith}
use tego_next.Contracts.Json.{
  JsonValue, JsonArray, JsonObject, null, boolean, number, string, array, object, nil, item, end,
  member,
}
use tego_next.Framing.{
  Waiting, push_items, push_members, push_children, validate_rounds, validate_complexity,
  max_frame_depth, max_frame_nodes,
}

-- The values in a value, itself included, and the depth of the deepest, the value's own being 0.
mutual
  pub json_nodes : JsonValue → ℕ
  json_nodes (array a) = suc (array_nodes a)
  json_nodes (object o) = suc (object_nodes o)
  json_nodes _ = 1

  pub array_nodes : JsonArray → ℕ
  array_nodes nil = 0
  array_nodes (item v r) = json_nodes v + array_nodes r

  pub object_nodes : JsonObject → ℕ
  object_nodes end = 0
  object_nodes (member k v r) = json_nodes v + object_nodes r

mutual
  pub json_depth : JsonValue → ℕ
  json_depth (array a) = array_depth a
  json_depth (object o) = object_depth o
  json_depth _ = 0

  pub array_depth : JsonArray → ℕ
  array_depth nil = 0
  array_depth (item v r) = max (suc (json_depth v)) (array_depth r)

  pub object_depth : JsonObject → ℕ
  object_depth end = 0
  object_depth (member k v r) = max (suc (json_depth v)) (object_depth r)

abbrev waiting_nodes : Waiting → ℕ
waiting_nodes [] = 0
waiting_nodes ((v, d) ∷ w) = json_nodes v + waiting_nodes w

abbrev waiting_depth : Waiting → ℕ
waiting_depth [] = 0
waiting_depth ((v, d) ∷ w) = max (d + json_depth v) (waiting_depth w)

push_items_nodes :
    (a : JsonArray) (d : ℕ) (w : Waiting)
    → waiting_nodes (push_items a d w) ≡ array_nodes a + waiting_nodes w
unfolding push_items array_nodes
push_items_nodes nil d w = omega arith
push_items_nodes (item v r) d w = omega (arith, push_items_nodes r d ((v, d) ∷ w))

push_members_nodes :
    (o : JsonObject) (d : ℕ) (w : Waiting)
    → waiting_nodes (push_members o d w) ≡ object_nodes o + waiting_nodes w
unfolding push_members object_nodes
push_members_nodes end d w = omega arith
push_members_nodes (member k v r) d w = omega (arith, push_members_nodes r d ((v, d) ∷ w))

-- Children stand one level below `d`.
push_items_depth :
    (a : JsonArray) (d : ℕ) (w : Waiting)
    → max d (waiting_depth (push_items a (d + 1) w)) ≡ max (d + array_depth a) (waiting_depth w)
unfolding push_items array_depth
push_items_depth nil d w = omega arith
push_items_depth (item v r) d w = omega (arith, push_items_depth r d ((v, d + 1) ∷ w))

push_members_depth :
    (o : JsonObject) (d : ℕ) (w : Waiting)
    → max d (waiting_depth (push_members o (d + 1) w)) ≡ max (d + object_depth o) (waiting_depth w)
unfolding push_members object_depth
push_members_depth end d w = omega arith
push_members_depth (member k v r) d w = omega (arith, push_members_depth r d ((v, d + 1) ∷ w))

push_children_measures :
    (v : JsonValue) (d : ℕ) (w : Waiting)
    → (suc (waiting_nodes (push_children v (d + 1) w)) ≡ json_nodes v + waiting_nodes w)
      × (max d (waiting_depth (push_children v (d + 1) w))
          ≡ max (d + json_depth v) (waiting_depth w))
unfolding push_children json_nodes json_depth
push_children_measures (array a) d w =
    (omega (arith, push_items_nodes a (d + 1) w), omega (arith, push_items_depth a d w))
push_children_measures (object o) d w =
    (omega (arith, push_members_nodes o (d + 1) w), omega (arith, push_members_depth o d w))
push_children_measures null d w = (omega arith, omega arith)
push_children_measures (boolean b) d w = (omega arith, omega arith)
push_children_measures (number n) d w = (omega arith, omega arith)
push_children_measures (string s) d w = (omega arith, omega arith)

nodes_pos : (v : JsonValue) → 1 ≤ json_nodes v
unfolding json_nodes
nodes_pos (array a) = omega arith
nodes_pos (object o) = omega arith
nodes_pos _ = omega arith

validate_rounds_iff :
    (left : ℕ) (w : Waiting)
    → (validate_rounds left w ≡ ok tt)
      ↔ ((waiting_nodes w ≤ left) × (waiting_depth w ≤ max_frame_depth))
unfolding validate_rounds
validate_rounds_iff left [] = ground arith
validate_rounds_iff zero ((v, d) ∷ w) = ground (arith, nodes_pos v)
validate_rounds_iff (suc left) ((v, d) ∷ w) =
    let (n, m) = push_children_measures v d w in
    ground (arith, validate_rounds_iff left (push_children v (d + 1) w))

-- A value passes the check exactly when it holds at most 100,000 values, itself included, and none
-- of them stands deeper than 64 levels below it.
pub validate_complexity_iff :
    (v : JsonValue)
    → (validate_complexity v ≡ ok tt)
      ↔ ((json_nodes v ≤ max_frame_nodes) × (json_depth v ≤ max_frame_depth))
unfolding validate_complexity
validate_complexity_iff v =
    let (f, g) = validate_rounds_iff max_frame_nodes ((v, 0) ∷ []) in
    (λ h. let (a, b) = f h in (omega arith, omega arith), λ (a, b). g (omega arith, omega arith))
