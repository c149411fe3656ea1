-- ===== src/Relay/OrgTree/Slices.antt =====
-- Merging into the store, and the slices that a fingerprint may read (src/relay/org_tree.rs).
use key_quorom.Prelude.{
  ℕ, Bool, true, false, Bytes, String, ◌==◌, Option, none, some, List, [], ◌∷◌, map, if◌then◌else◌,
  length,
}
use key_quorom.Prelude.Equality.{◌≟◌, string_eq, option_eq}
use key_quorom.Prelude.Sql.{select_all}
use key_quorom.Error.{Error, Result, ok, err, ◌>>=◌, node_not_found, tree_not_found}
use key_quorom.KeyTree.Public.{PublicNode, PublicTree, filter_public_tree}
use key_quorom.KeyTree.Visible.{visible_labels_in_public_tree}
use key_quorom.Relay.OrgTree.{
  Document, TreeJson, parse_document, validate_public_tree, merge_into_existing,
  persist_public_tree, get_public_tree,
}

-- The labels of the leaves bound to the fingerprint.
unfoldable pub seeds_of : String → PublicTree → List String
seeds_of fingerprint full =
    map (λ (n : PublicNode). n.label)
      (select_all (λ n. n.encryption_fingerprint ≟ some fingerprint) full.nodes)

-- The outer `none` is a loop that has not ended.
unfoldable pub slice_for_fingerprint : ℕ → PublicTree → String → Option (Option PublicTree)
slice_for_fingerprint fuel full fingerprint =
    if length (seeds_of fingerprint full) == 0
    then some none
    else elim (visible_labels_in_public_tree fuel full (seeds_of fingerprint full)) [
      | none ↦ none
      | some visible ↦ some (some (filter_public_tree full visible))
    ]

unfoldable pub slices_of : ℕ → List PublicTree → String → Option (List PublicTree)
unfolding slice_for_fingerprint
slices_of fuel [] fingerprint = some []
slices_of fuel (full ∷ trees) fingerprint =
    let rest = slices_of fuel trees fingerprint in
    elim (slice_for_fingerprint fuel full fingerprint) [
      | none ↦ none
      | some none ↦ rest
      | some (some slice) ↦ elim rest [ none ↦ none | some slices ↦ some (slice ∷ slices) ]
    ]

module _ (json : TreeJson) where
  -- The rows are given as the query returns them, in the order of their labels.
  unfoldable pub list_public_trees : List Document → Result (List PublicTree)
  list_public_trees [] = ok []
  list_public_trees (d ∷ ds) = do
    tree ← parse_document json d.document
    trees ← list_public_trees ds
    ok (tree ∷ trees)

  unfoldable pub slices_for_fingerprint :
      ℕ → List Document → String → Option (Result (List PublicTree))
  unfolding list_public_trees slices_of
  slices_for_fingerprint fuel docs fingerprint = elim (list_public_trees docs) [
    | err e ↦ some (err e)
    | ok trees ↦ elim (slices_of fuel trees fingerprint) [
      | none ↦ none
      | some slices ↦ some (ok slices)
    ]
  ]

  unfoldable pub context_for_fingerprint :
      ℕ → List Document → String → String → Option (Result PublicTree)
  context_for_fingerprint fuel docs label fingerprint = elim (get_public_tree json label docs) [
    | err e ↦ some (err e)
    | ok full ↦ elim (slice_for_fingerprint fuel full fingerprint) [
      | none ↦ none
      | some none ↦ some (err node_not_found)
      | some (some slice) ↦ some (ok slice)
    ]
  ]

  unfoldable pub contexts_for_fingerprint :
      ℕ → List Document → String → Option (Result (List PublicTree))
  contexts_for_fingerprint fuel docs fingerprint = slices_for_fingerprint fuel docs fingerprint

-- What `persist_public_tree` is called with: the merged tree, or the snapshot if its label is new.
abbrev pub is_missing : Error → Bool
is_missing tree_not_found = true
is_missing _ = false

module _ (json : TreeJson) (hex_decode : String → Option Bytes) where
  unfoldable pub to_persist : ℕ → PublicTree → List Document → Option (Result PublicTree)
  to_persist fuel snapshot docs = elim (get_public_tree json snapshot.label docs) [
    | ok existing ↦ merge_into_existing hex_decode fuel existing snapshot
    | err e ↦ if is_missing e then some (ok snapshot) else some (err e)
  ]

  unfoldable pub merge_public_tree :
      ℕ → PublicTree → List Document → Option (Result PublicTree × List Document)
  unfolding to_persist
  merge_public_tree fuel snapshot docs = elim (validate_public_tree hex_decode fuel snapshot) [
    | none ↦ none
    | some (err e) ↦ some (err e, docs)
    | some (ok u) ↦ elim (to_persist fuel snapshot docs) [
      | none ↦ none
      | some (err e) ↦ some (err e, docs)
      | some (ok merged) ↦ some (persist_public_tree json merged docs)
    ]
  ]
