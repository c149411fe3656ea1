-- ===== src/KeyTree/LinkTests.antt =====
-- Pairings and visibility on concrete data (src/key_tree.rs).
use text.Mathlib.TextEquality.{eq_iff}
use key_quorom.Prelude.{
  some-injective, ℕ, String, ◌≡◌, refl, sym, inl, inr, Bool-cases, true, false, ◌||◌, Option, none,
  some, List, [], ◌∷◌, arith, if◌then◌else◌,
}
use key_quorom.Prelude.Equality.{◌≟◌, nat_eq, string_eq, ◌∈◌}
use key_quorom.Prelude.Sql.{select, count_where}
use key_quorom.Error.{ok}
use key_quorom.KeyTree.Arena.{BridgeRow, NodeRow}
use key_quorom.KeyTree.Bridges.{
  Tables, node_id_for_label, ordered_pair, is_permission, is_link, deny_bridge, add_bridge,
}
use key_quorom.KeyTree.Bridges.Pairing.{deny_bridge_lem, add_bridge_comm}
use key_quorom.KeyTree.Visible.{visible_from_maps, flatten, is_entry}
use key_quorom.KeyTree.Visible.Closed.{LinkClosed, Maps}
use key_quorom.KeyTree.Visible.Complete.{visible_from_maps_lem}

abbrev node : ℕ → String → Option ℕ → NodeRow
node i l parent = record {
  id = i;
  key_id = 1;
  parent_id = parent;
  label = l;
  threshold = none;
  hardware_key_id = some 1;
  is_active = true;
}

abbrev tables : Tables
tables = record {
  key_nodes = node 1 "M" none ∷ node 2 "A" (some 1) ∷ node 3 "B" (some 1) ∷ [];
  key_node_bridges =
      record { node_id = 2; peer_label = "B" } ∷ record { node_id = 2; peer_label = "M" } ∷ [];
  key_node_links = record { node_a_id = 2; node_b_id = 3 } ∷ [];
}

id_of_a : node_id_for_label tables 1 "A" ≡ ok 2
unfolding node_id_for_label select
id_of_a = refl

id_of_b : node_id_for_label tables 1 "B" ≡ ok 3
unfolding node_id_for_label select
id_of_b = refl

pair_ab : ordered_pair 2 3 ≡ ok (2, 3)
unfolding ordered_pair
pair_ab = refl

apart :
    (r : BridgeRow)
    → is_permission 2 "M" r ≡ true
    → (is_permission 2 "B" r || is_permission 3 "A" r) ≡ false
apart r e =
    let same : (r.peer_label ≟ "M") ≡ true = ground arith in
    rw ((eq_iff r.peer_label "M").0 same) (ground arith)

deny_bridge_lem_example :
    (s' : Tables) × (deny_bridge 1 "A" "B" tables ≡ ok s')
    × (count_where (is_permission 2 "B") s'.key_node_bridges ≡ 0)
    × (count_where (is_permission 3 "A") s'.key_node_bridges ≡ 0)
    × (count_where (is_link (2, 3)) s'.key_node_links ≡ 0)
    × (count_where (is_permission 2 "M") s'.key_node_bridges
        ≡ count_where (is_permission 2 "M") tables.key_node_bridges)
deny_bridge_lem_example =
    deny_bridge_lem 1 "A" "B" tables 2 3 (2, 3) (is_permission 2 "M") id_of_a id_of_b pair_ab apart

add_bridge_comm_example : add_bridge 1 "B" "A" tables ≡ add_bridge 1 "A" "B" tables
add_bridge_comm_example = add_bridge_comm 1 "B" "A" tables

abbrev known : List String
known = "M" ∷ "A" ∷ "B" ∷ []

abbrev parent_of : String → Option (Option String)
parent_of l =
    if l ≟ "M"
    then some none
    else if l ≟ "A"
    then some (some "M")
    else if l ≟ "B"
    then some (some "M")
    else none

abbrev children : String → List String
children l = if l ≟ "M" then "A" ∷ "B" ∷ [] else []

-- The root, a leaf, or no label of the tree.
data Kind (l : String) : Type 0 where
  is_root : l ≡ "M" → Kind l
  is_leaf : parent_of l ≡ some (some "M") → l ∈ known → (l ≟ "M") ≡ false → Kind l
  is_other : parent_of l ≡ none → (l ≟ "M") ≡ false → Kind l

kind : (l : String) → Kind l
kind l = elim (Bool-cases (l ≟ "M")) [
  | inl m ↦ is_root ((eq_iff l "M").0 m)
  | inr no_m ↦ elim (Bool-cases (l ≟ "A")) [
    | inl a ↦ is_leaf (rw (no_m, a) refl) (rw ((eq_iff l "A").0 a) refl) no_m
    | inr no_a ↦ elim (Bool-cases (l ≟ "B")) [
      | inl b ↦ is_leaf (rw (no_m, no_a, b) refl) (rw ((eq_iff l "B").0 b) refl) no_m
      | inr no_b ↦ is_other (rw (no_m, no_a, no_b) refl) no_m
    ]
  ]
]

parents_known : (l p : String) → flatten (parent_of l) ≡ some p → p ∈ known
parents_known l p e = elim (kind l) [
  | is_root m ↦ absurd (cc (rw m at e))
  | is_leaf up m no_m ↦ rw (sym (some-injective (rw up at e))) refl
  | is_other up no_m ↦ absurd (cc (rw up at e))
]

entries_known : (l : String) → is_entry (parent_of l) ≡ true → l ∈ known
entries_known l e = elim (kind l) [
  | is_root m ↦ rw m refl
  | is_leaf up m no_m ↦ m
  | is_other up no_m ↦ absurd (cc (rw up at e))
]

leaf_below : (c : String) → c ∈ "A" ∷ "B" ∷ [] → (c ∈ known) × (flatten (parent_of c) ≡ some "M")
leaf_below c m = elim (Bool-cases ("A" ≟ c)) [
  | inl a ↦ rw (sym ((eq_iff "A" c).0 a)) (refl, refl)
  | inr no_a ↦ elim (Bool-cases ("B" ≟ c)) [
    | inl b ↦ rw (sym ((eq_iff "B" c).0 b)) (refl, refl)
    | inr no_b ↦ absurd (cc (rw (no_a, no_b) at m))
  ]
]

children-known : (l c : String) → c ∈ children l → (c ∈ known) × (flatten (parent_of c) ≡ some l)
children-known l c m = elim (Bool-cases (l ≟ "M")) [
  | inl y ↦ rw ((eq_iff l "M").0 y) (leaf_below c (rw y at m))
  | inr n ↦ absurd (cc (rw n at m))
]

maps : Maps known parent_of children
maps = record { parents = parents_known; entries = entries_known; below = children-known }

visible_from_maps_lem_example :
    (visible : List String) × (visible_from_maps parent_of children (("A", "B") ∷ []) 4 ("A" ∷ [])
      ≡ some visible)
    × ((x : String) → x ∈ "A" ∷ [] → is_entry (parent_of x) ≡ true → x ∈ visible)
    × ((x p : String) → x ∈ visible → flatten (parent_of x) ≡ some p → p ∈ visible)
    × LinkClosed visible (("A", "B") ∷ [])
visible_from_maps_lem_example =
    visible_from_maps_lem known parent_of children maps (("A", "B") ∷ []) 4 ("A" ∷ [])
      (refl, refl, tt) (omega arith)
