-- ===== src/KeyTree/Arena/Ancestors.antt =====
-- The lowest common ancestor of two nodes of an arena (src/key_tree.rs).
use key_quorom.Prelude.{
  ℕ, zero, suc, ◌||◌, Option, none, some, List, [], ◌∷◌, leb, ◌==◌, if◌then◌else◌, length,
  get_elem?,
}
use key_quorom.Error.{ok, err, node_not_found}
use key_quorom.KeyTree.Arena.{KeyNode, KeyQuorumTree, Run}

-- The loop to the root, which returns the path reversed; `none` is a walk that has not ended, or an
-- index out of range.
unfoldable pub path_from_root : ℕ → List KeyNode → Option ℕ → List ℕ → Option (List ℕ)
path_from_root fuel nodes none below = some below
path_from_root zero nodes (some i) below = none
path_from_root (suc fuel) nodes (some i) below = elim (get_elem? nodes i) [
  | none ↦ none
  | some n ↦ path_from_root fuel nodes n.parent_idx (i ∷ below)
]

-- The last of the leading elements that the two paths share, or the first argument.
unfoldable pub last_shared : ℕ → List ℕ → List ℕ → ℕ
last_shared lca [] bs = lca
last_shared lca (a ∷ rest) [] = lca
last_shared lca (a ∷ rest) (b ∷ bs) =
    let further = last_shared a rest bs in if a == b then further else lca

unfoldable pub find_lowest_common_ancestor : ℕ → KeyQuorumTree → ℕ → ℕ → Run ℕ
find_lowest_common_ancestor fuel tree a b =
    if leb (length tree.nodes) a || leb (length tree.nodes) b
    then some (err node_not_found)
    else elim (path_from_root fuel tree.nodes (some a) []) [
      | none ↦ none
      | some path_a ↦ elim (path_from_root fuel tree.nodes (some b) []) [
        | none ↦ none
        | some path_b ↦ some (ok (last_shared tree.root_index path_a path_b))
      ]
    ]

-- `try_fold` over the other indices.
unfoldable pub fold_ancestors : ℕ → KeyQuorumTree → ℕ → List ℕ → Run ℕ
fold_ancestors fuel tree acc [] = some (ok acc)
fold_ancestors fuel tree acc (i ∷ is) = elim (find_lowest_common_ancestor fuel tree acc i) [
  | none ↦ none
  | some (err e) ↦ some (err e)
  | some (ok next) ↦ fold_ancestors fuel tree next is
]

unfoldable pub find_lowest_common_ancestor_of : ℕ → KeyQuorumTree → List ℕ → Run ℕ
unfolding fold_ancestors
find_lowest_common_ancestor_of fuel tree [] = some (err node_not_found)
find_lowest_common_ancestor_of fuel tree (i ∷ is) = fold_ancestors fuel tree i is
