-- ===== src/KeyTree/Arena.antt =====
-- The arena that `KeyQuorumTree::load` builds from the rows of `key_nodes`, and the reconstruction
-- of a secret over it (src/key_tree.rs). The Shamir scheme of the crate `blahaj` is the parameter
-- `Shamir`. A `HashMap` from node ids to raw shares is a function into `Option`.
pub mod Sublists
pub mod Policy
pub mod Recover
pub mod Ancestors
use key_quorom.Prelude.{
  ℕ, zero, suc, Bytes, String, ◌+◌, ◌≤◌, ◌<◌, ◌%◌, ◌≡◌, Bool, true, false, not, ◌&&◌, ◌||◌, Option,
  none, some, List, [], ◌∷◌, ◌++◌, map, ltb, leb, ◌==◌, if◌then◌else◌, length, get_elem?,
}
use key_quorom.Prelude.Equality.{◌≟◌, string_eq, contains, insert}
use key_quorom.Prelude.Sql.{select_all}
use key_quorom.Error.{
  Result, ok, err, ◌>>=◌, ◌>>◌, guard, ok_or, node_not_found, duplicate_node_label, quorum_not_met,
}

-- A row of `key_nodes`, without its sealed share.
pub record NodeRow : Type 0 where
  pub id : ℕ
  pub key_id : ℕ
  pub parent_id : Option ℕ
  pub label : String
  pub threshold : Option ℕ
  pub hardware_key_id : Option ℕ
  pub is_active : Bool

-- A row of `key_node_bridges`.
pub record BridgeRow : Type 0 where
  pub node_id : ℕ
  pub peer_label : String

pub record KeyNode : Type 0 where
  pub db_id : ℕ
  pub id : String
  pub parent_idx : Option ℕ
  pub children_indices : List ℕ
  pub threshold : Option ℕ
  pub is_active : Bool
  pub hardware_key_id : Option ℕ
  pub allowed_bridges : List String

pub record KeyQuorumTree : Type 0 where
  pub nodes : List KeyNode
  pub root_index : ℕ

-- The index of the first element that passes a test; the maps from labels and row ids to indices.
unfoldable pub position {ℓ} : {A : Type ℓ} → (A → Bool) → List A → Option ℕ
position p [] = none
position p (x ∷ xs) =
    if p x then some 0 else elim (position p xs) [ none ↦ none | some i ↦ some (suc i) ]

-- `nodes[i]` changed by `f`.
unfoldable pub modify {ℓ} : {A : Type ℓ} → ℕ → (A → A) → List A → List A
modify i f [] = []
modify zero f (x ∷ xs) = f x ∷ xs
modify (suc i) f (x ∷ xs) = x ∷ modify i f xs

unfoldable pub new_node : NodeRow → KeyNode
new_node r = record {
  db_id = r.id;
  id = r.label;
  parent_idx = none;
  children_indices = [];
  threshold = r.threshold;
  is_active = r.is_active;
  hardware_key_id = r.hardware_key_id;
  allowed_bridges = [];
}

-- The first loop of `load`: the bare nodes, the nodes before them in `acc`.
unfoldable pub add_rows : List NodeRow → List KeyNode → Result (List KeyNode)
unfolding new_node
add_rows [] acc = ok acc
add_rows (r ∷ rs) acc =
    let rest = add_rows rs (acc ++ new_node r ∷ []) in
    if contains (map (λ (n : KeyNode). n.id) acc) r.label then err duplicate_node_label else rest

abbrev pub has_db_id : ℕ → KeyNode → Bool
has_db_id i n = n.db_id == i

-- The second loop: row `i` is linked to its parent.
unfoldable pub link_rows : ℕ → List NodeRow → List KeyNode → Result (List KeyNode)
link_rows i [] nodes = ok nodes
link_rows i (r ∷ rs) nodes = elim r.parent_id [
  | none ↦ link_rows (suc i) rs nodes
  | some parent ↦ elim (position (has_db_id parent) nodes) [
    | none ↦ err node_not_found
    | some p ↦ link_rows (suc i) rs (
        modify p (λ (n : KeyNode). record n { children_indices = n.children_indices ++ i ∷ [] })
          (modify i (λ (n : KeyNode). record n { parent_idx = some p }) nodes))
  ]
]

-- The third loop: the whitelist entries of the tree's nodes.
unfoldable pub add_bridges : List BridgeRow → List KeyNode → Result (List KeyNode)
add_bridges [] nodes = ok nodes
add_bridges (b ∷ bs) nodes = elim (position (has_db_id b.node_id) nodes) [
  | none ↦ err node_not_found
  | some i ↦ add_bridges bs (
      modify i
        (λ (n : KeyNode). record n { allowed_bridges = insert b.peer_label n.allowed_bridges })
        nodes)
]

abbrev pub is_none : Option ℕ → Bool
is_none none = true
is_none (some x) = false

-- The bridge rows are joined with the nodes of the tree.
unfoldable pub load : List NodeRow → List BridgeRow → ℕ → Result KeyQuorumTree
load all_rows all_bridges key_id = do
  let rows = select_all (λ (r : NodeRow). r.key_id == key_id) all_rows
  guard (ltb 0 (length rows)) node_not_found
  bare ← add_rows rows []
  linked ← link_rows 0 rows bare
  nodes ←
      add_bridges
        (select_all (λ (b : BridgeRow). not (is_none (position (has_db_id b.node_id) bare)))
          all_bridges)
        linked
  root_index ← ok_or (position (λ (n : KeyNode). is_none n.parent_idx) nodes) node_not_found
  ok (record { nodes = nodes; root_index = root_index })

unfoldable pub index_by_label : KeyQuorumTree → String → Result ℕ
index_by_label tree l = ok_or (position (λ (n : KeyNode). n.id ≟ l) tree.nodes) node_not_found

unfoldable pub index_by_db_id : KeyQuorumTree → ℕ → Result ℕ
index_by_db_id tree i = ok_or (position (has_db_id i) tree.nodes) node_not_found

-- What the code takes from `blahaj`: which byte strings are encoded shares, the shares that the
-- dealer of a threshold makes of a secret with some randomness, and the recovery of a secret.
pub record Shamir : Type 0 where
  pub is_share : Bytes → Bool
  pub deal : ℕ → Bytes → ℕ → ℕ → List Bytes
  pub recover : ℕ → List Bytes → Option Bytes

-- A run of the code that may not return: `none` is a recursion that does not end, as it happens on
-- a cycle of parents, or an index out of range, which panics.
abbrev pub Run : Type 0 → Type 0
Run A = Option (Result A)

module _ (shamir : Shamir) (tree : KeyQuorumTree) (raw_shares : ℕ → Option Bytes) where
  -- The loop over the children of a node; `again` is the recursive call, and the last argument
  -- holds the shares resolved so far.
  unfoldable pub resolve_children : (ℕ → Run Bytes) → ℕ → List ℕ → List Bytes → Option (List Bytes)
  resolve_children again threshold [] resolved = some resolved
  resolve_children again threshold (c ∷ cs) resolved =
      let skip = resolve_children again threshold cs resolved in
      let with_child = λ (n : KeyNode). if not n.is_active then skip else elim (again c) [
        | none ↦ none
        | some (err e) ↦ skip
        | some (ok value) ↦ elim (shamir.is_share value) [
          | true ↦ resolve_children again threshold cs (resolved ++ value ∷ [])
          | false ↦ skip
        ]
      ] in
      if leb threshold (length resolved)
      then some resolved
      else elim (get_elem? tree.nodes c) [ none ↦ none | some n ↦ with_child n ]

  -- `Sharks(threshold as u8).recover(…)` on the resolved shares.
  unfoldable pub recover_from : ℕ → List Bytes → Result Bytes
  recover_from threshold resolved =
      if ltb (length resolved) threshold
      then err quorum_not_met
      else ok_or (shamir.recover (threshold % 256) resolved) quorum_not_met

  unfoldable pub reconstruct_node : ℕ → ℕ → Run Bytes
  reconstruct_node zero idx = none
  reconstruct_node (suc fuel) idx = elim (get_elem? tree.nodes idx) [
    | none ↦ some (err node_not_found)
    | some node ↦
        if not node.is_active then some (err quorum_not_met) else elim node.hardware_key_id [
          | some k ↦ some (ok_or (raw_shares node.db_id) quorum_not_met)
          | none ↦ elim node.threshold [
            | none ↦ some (err quorum_not_met)
            | some threshold ↦
                elim (resolve_children (reconstruct_node fuel) threshold node.children_indices []) [
                  | none ↦ none
                  | some resolved ↦ some (recover_from threshold resolved)
                ]
          ]
        ]
  ]

  unfoldable pub reconstruct : ℕ → Run Bytes
  reconstruct fuel = reconstruct_node fuel tree.root_index
