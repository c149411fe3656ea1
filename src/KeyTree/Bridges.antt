-- ===== src/KeyTree/Bridges.antt =====
-- The whitelist of cross-branch pairings and the established pairings of a tree's nodes
-- (src/key_tree.rs). The tables `key_nodes`, `key_node_bridges` and `key_node_links` are lists of
-- rows; the primary keys of the last two make OR IGNORE keep one row for each pair.
pub mod Pairing
use key_quorom.Prelude.{
  ℕ, String, ◌+◌, ◌≡◌, Bool, true, false, not, ◌&&◌, ◌||◌, Option, none, some, List, [], ◌∷◌, ◌++◌,
  ltb, ◌==◌, if◌then◌else◌, get_elem?,
}
use key_quorom.Prelude.Equality.{◌≟◌, string_eq, contains}
use key_quorom.Prelude.Sql.{select, delete, count_where}
use key_quorom.Error.{
  Result, ok, err, ◌>>=◌, ◌>>◌, guard, ok_or, node_not_found, invalid_bridge,
  bridge_not_whitelisted, bridge_not_found,
}
use key_quorom.KeyTree.Arena.{NodeRow, BridgeRow, KeyNode, KeyQuorumTree, load, index_by_label}

pub record Link : Type 0 where
  pub node_a_id : ℕ
  pub node_b_id : ℕ

pub record Tables : Type 0 where
  pub key_nodes : List NodeRow
  pub key_node_bridges : List BridgeRow
  pub key_node_links : List Link

unfoldable pub node_id_for_label : Tables → ℕ → String → Result ℕ
node_id_for_label s key_id label =
    elim (select (λ (r : NodeRow). r.key_id == key_id && r.label ≟ label) s.key_nodes) [
      | none ↦ err node_not_found
      | some r ↦ ok r.id
    ]

unfoldable pub ordered_pair : ℕ → ℕ → Result (ℕ × ℕ)
ordered_pair a b = if a == b then err invalid_bridge else if ltb a b then ok (a, b) else ok (b, a)

abbrev pub is_permission : ℕ → String → BridgeRow → Bool
is_permission node_id peer b = b.node_id == node_id && b.peer_label ≟ peer

abbrev pub is_link : ℕ × ℕ → Link → Bool
is_link (lo, hi) l = l.node_a_id == lo && l.node_b_id == hi

-- The two INSERT OR IGNOREs.
unfoldable pub permit : ℕ → String → Tables → Tables
permit node_id peer s = record s {
  key_node_bridges =
      if count_where (is_permission node_id peer) s.key_node_bridges == 0
      then s.key_node_bridges ++ record { node_id = node_id; peer_label = peer } ∷ []
      else s.key_node_bridges;
}

unfoldable pub establish : ℕ × ℕ → Tables → Tables
establish (lo, hi) s = record s {
  key_node_links =
      if count_where (is_link (lo, hi)) s.key_node_links == 0
      then s.key_node_links ++ record { node_a_id = lo; node_b_id = hi } ∷ []
      else s.key_node_links;
}

abbrev pub unlink : ℕ × ℕ → Tables → Tables
unlink pair s = record s { key_node_links = delete (is_link pair) s.key_node_links }

-- Each function returns the tables that a success leaves; a failure leaves them as they were.
unfoldable pub allow_bridge : ℕ → String → String → Tables → Result Tables
unfolding permit
allow_bridge key_id node_label peer_label s = do
  guard (not (node_label ≟ peer_label)) invalid_bridge
  node_id ← node_id_for_label s key_id node_label
  node_id_for_label s key_id peer_label >>= λ _. ok (permit node_id peer_label s)

abbrev pub unlink_pair : Result (ℕ × ℕ) → Tables → Tables
unlink_pair (ok pair) s = unlink pair s
unlink_pair (err e) s = s

unfoldable pub deny_bridge : ℕ → String → String → Tables → Result Tables
deny_bridge key_id node_label peer_label s = do
  node_id ← node_id_for_label s key_id node_label
  peer_id ← node_id_for_label s key_id peer_label
  let revoked : BridgeRow → Bool =
      λ b. is_permission node_id peer_label b || is_permission peer_id node_label b
  ok (
      unlink_pair (ordered_pair node_id peer_id)
        (record s { key_node_bridges = delete revoked s.key_node_bridges }))

-- The nodes at two indices that the tree itself reported.
unfoldable pub authorized : KeyNode → KeyNode → String → String → Bool
authorized a b from to = contains a.allowed_bridges to || contains b.allowed_bridges from

-- What follows the look-up of the two indices.
unfoldable pub connect : KeyQuorumTree → String → String → ℕ → ℕ → Tables → Result Tables
unfolding authorized establish
connect tree from to a b s = do
  guard (not (a == b)) invalid_bridge
  node_a ← ok_or (get_elem? tree.nodes a) node_not_found
  node_b ← ok_or (get_elem? tree.nodes b) node_not_found
  guard (authorized node_a node_b from to) bridge_not_whitelisted
  pair ← ordered_pair node_a.db_id node_b.db_id
  ok (establish pair s)

unfoldable pub add_bridge : ℕ → String → String → Tables → Result Tables
unfolding connect
add_bridge key_id from to s = do
  tree ← load s.key_nodes s.key_node_bridges key_id
  a ← index_by_label tree from
  b ← index_by_label tree to
  connect tree from to a b s

unfoldable pub remove_bridge : ℕ → String → String → Tables → Result Tables
remove_bridge key_id from to s = do
  a ← node_id_for_label s key_id from
  b ← node_id_for_label s key_id to
  pair ← ordered_pair a b
  guard (not (count_where (is_link pair) s.key_node_links == 0)) bridge_not_found
  ok (unlink pair s)

-- Three statements without a transaction: a failure keeps what came before it.
unfoldable pub bind_pair : ℕ → String → String → Tables → Result (Unit {0}) × Tables
unfolding allow_bridge add_bridge
bind_pair key_id a_label b_label s = elim (allow_bridge key_id a_label b_label s) [
  | err e ↦ (err e, s)
  | ok s1 ↦ elim (allow_bridge key_id b_label a_label s1) [
    | err e ↦ (err e, s1)
    | ok s2 ↦ elim (add_bridge key_id a_label b_label s2) [
      | err e ↦ (err e, s2)
      | ok s3 ↦ (ok tt, s3)
    ]
  ]
]
