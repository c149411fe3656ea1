-- ===== src/KeyTree/Bridges/Pairing.antt =====
-- Established pairings are undirected, and taking them back is complete (src/key_tree.rs).
use mathlib.Core.Path.{fun_ext}
use key_quorom.Prelude.{
  ℕ, String, ◌≡◌, refl, ap, Option, none, some, get_elem?, Bool, true, false, not, ◌||◌, ◌==◌,
  arith,
}
use key_quorom.Prelude.Equality.{◌≟◌, string_eq}
use key_quorom.Prelude.Sql.{delete, count_where, count_where-delete, count_where-delete_zero}
use key_quorom.Error.{Error, node_not_found, invalid_bridge, Result, ok, ok_or, guard, ◌>>=◌, ◌>>◌}
use key_quorom.KeyTree.Arena.{BridgeRow, KeyNode, KeyQuorumTree, position, load, index_by_label}
use key_quorom.KeyTree.Bridges.{
  Tables, node_id_for_label, ordered_pair, is_permission, is_link, deny_bridge, unlink, authorized,
  connect, add_bridge,
}

beq_comm : (a b : ℕ) → (a == b) ≡ (b == a)
beq_comm a b = ground arith

ordered_pair_comm : (a b : ℕ) → ordered_pair a b ≡ ordered_pair b a
unfolding ordered_pair
ordered_pair_comm a b = ground arith

authorized_comm :
    (a b : KeyNode) (from to : String) → authorized a b from to ≡ authorized b a to from
unfolding authorized
authorized_comm a b from to = ground arith

-- Two look-ups that fail alike can be made in either order.
swap {ℓ κ} :
    {A : Type ℓ} {B : Type κ} (x y : Option A) (e : Error) (f g : A → A → Result B)
    → ((a b : A) → f a b ≡ g b a)
    → (ok_or x e >>= λ a. ok_or y e >>= λ b. f a b) ≡ (ok_or y e >>= λ b. ok_or x e >>= λ a. g b a)
swap none none e f g same = refl
swap none (some b) e f g same = refl
swap (some a) none e f g same = refl
swap (some a) (some b) e f g same = same a b

connect_comm :
    (tree : KeyQuorumTree) (from to : String) (a b : ℕ) (s : Tables)
    → connect tree from to a b s ≡ connect tree to from b a s
unfolding connect
connect_comm tree from to a b s = rw (beq_comm a b) (
    ap (λ m. guard (not (b == a)) invalid_bridge >> m)
      (swap (get_elem? tree.nodes a) (get_elem? tree.nodes b) node_not_found _ _
        (λ x y. rw (authorized_comm x y from to, ordered_pair_comm x.db_id y.db_id) refl)))

-- Denying a pairing between the labels of two different nodes of the tree succeeds. It leaves no
-- permission between the two, in either direction, nor an established pairing of theirs; and a set
-- of permissions that holds none of the two's keeps its size.
pub deny_bridge_lem :
    (key_id : ℕ) (x y : String) (s : Tables) (a b : ℕ) (pair : ℕ × ℕ) (others : BridgeRow → Bool)
    → node_id_for_label s key_id x ≡ ok a
    → node_id_for_label s key_id y ≡ ok b
    → ordered_pair a b ≡ ok pair
    → ((r : BridgeRow) → others r ≡ true → (is_permission a y r || is_permission b x r) ≡ false)
    → (s' : Tables) × (deny_bridge key_id x y s ≡ ok s')
      × (count_where (is_permission a y) s'.key_node_bridges ≡ 0)
      × (count_where (is_permission b x) s'.key_node_bridges ≡ 0)
      × (count_where (is_link pair) s'.key_node_links ≡ 0)
      × (count_where others s'.key_node_bridges ≡ count_where others s.key_node_bridges)
unfolding deny_bridge
deny_bridge_lem key_id x y s a b pair others ex ey e apart =
    let kept : Tables = record s {
      key_node_bridges =
          delete (λ r. is_permission a y r || is_permission b x r) s.key_node_bridges;
    } in
    (
      unlink pair kept,
      rw (ex, ey, e) refl,
      count_where-delete_zero _ _ (λ r m. rw m refl) s.key_node_bridges,
      count_where-delete_zero _ _ (λ r m. rw m (ground arith)) s.key_node_bridges,
      count_where-delete_zero _ _ (λ l m. m) s.key_node_links,
      count_where-delete others _ apart s.key_node_bridges,
    )

abbrev found : KeyQuorumTree → String → Option ℕ
found tree l = position (λ (n : KeyNode). n.id ≟ l) tree.nodes

-- Pairing is undirected: establishing it from either side has the same outcome.
pub add_bridge_comm :
    (key_id : ℕ) (from to : String) (s : Tables)
    → add_bridge key_id from to s ≡ add_bridge key_id to from s
unfolding add_bridge index_by_label
add_bridge_comm key_id from to s =
    ap (λ f. load s.key_nodes s.key_node_bridges key_id >>= f)
      (fun_ext (λ tree.
        swap (found tree from) (found tree to) node_not_found (λ a b. connect tree from to a b s)
          (λ b a. connect tree to from b a s) (λ a b. connect_comm tree from to a b s)))
