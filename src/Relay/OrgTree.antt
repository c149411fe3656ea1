-- ===== src/Relay/OrgTree.antt =====
-- The published trees that the relay keeps (src/relay/org_tree.rs). The JSON of a public tree, which a
-- row keeps as its document, and `hex::decode` are parameters. The loop to the root has fuel, and
-- `none` is a loop that has not ended.
pub mod Publish
pub mod Total
pub mod Merge
pub mod Slices
mod OneTree
mod Tests
use key_quorom.Prelude.{
  ℕ, zero, suc, Bytes, String, ◌+◌, ◌≡◌, Bool, true, false, not, ◌&&◌, ◌||◌, Option, none, some,
  List, [], ◌∷◌, ◌++◌, ltb, ◌==◌, if◌then◌else◌, length, map,
}
use key_quorom.Prelude.Equality.{◌≟◌, string_eq, option_eq, contains}
use key_quorom.Prelude.Sql.{select, select_all, update, count_where}
use key_quorom.Error.{
  Result, ok, err, ◌>>=◌, ◌>>◌, guard, ok_or, invalid_tree_spec, duplicate_node_label,
  invalid_public_key, invalid_bridge, tree_not_found, node_not_found,
}
use key_quorom.KeyTree.Public.{PublicNode, PublicEdge, PublicTree, filter_public_tree}
use key_quorom.KeyTree.Visible.{parent_entry, flatten, visible_labels_in_public_tree}

-- `serde_json` on the derived formats of a public tree: writing may fail, and what is written reads
-- back as the tree.
pub record TreeJson : Type 0 where
  pub to_string : PublicTree → Option String
  pub from_str : String → Option PublicTree
  pub from_str-to_string :
      (tree : PublicTree) (document : String)
      → to_string tree ≡ some document
      → from_str document ≡ some tree

-- A row of `org_tree_docs`.
pub record Document : Type 0 where
  pub label : String
  pub generation : ℕ
  pub document : String

abbrev pub is_root : PublicNode → Bool
is_root n = n.parent_label ≟ none

abbrev pub same_edge : PublicEdge → PublicEdge → Bool
same_edge a b = a.from ≟ b.from && a.to ≟ b.to

-- Of each edge its own duplicates are looked for among those before it.
unfoldable pub distinct_edges : List PublicEdge → List PublicEdge → Bool
distinct_edges seen [] = true
distinct_edges seen (e ∷ es) = count_where (same_edge e) seen == 0 && distinct_edges (e ∷ seen) es

unfoldable pub edges_known : List String → List PublicEdge → Bool
edges_known labels [] = true
edges_known labels (e ∷ es) =
    not (e.from ≟ e.to)
    && (contains labels e.from && (contains labels e.to && edges_known labels es))

abbrev pub parent_known : List String → Option String → Bool
parent_known labels none = true
parent_known labels (some p) = contains labels p

unfoldable pub parents_known : List String → List PublicNode → Bool
parents_known labels [] = true
parents_known labels (n ∷ ns) = parent_known labels n.parent_label && parents_known labels ns

-- A link is listed in one direction or the other.
abbrev pub is_listed : List PublicEdge → PublicEdge → Bool
is_listed whitelist e =
    not (count_where (λ a. same_edge a e || (a.from ≟ e.to && a.to ≟ e.from)) whitelist == 0)

unfoldable pub links_listed : List PublicEdge → List PublicEdge → Bool
links_listed whitelist [] = true
links_listed whitelist (e ∷ es) = is_listed whitelist e && links_listed whitelist es

unfoldable pub reaches_root :
    ℕ → (String → Option (Option String)) → Option String → String → List String → Option Bool
reaches_root fuel parent_of none root seen = some false
reaches_root zero parent_of (some l) root seen = none
reaches_root (suc fuel) parent_of (some l) root seen =
    let rest = reaches_root fuel parent_of (flatten (parent_of l)) root (l ∷ seen) in
    if contains seen l then some false else if l ≟ root then some true else rest

-- The last loop: every node reaches the root.
unfoldable pub all_reach :
    ℕ → (String → Option (Option String)) → String → List PublicNode → Option (Result (Unit {0}))
unfolding reaches_root
all_reach fuel parent_of root [] = some (ok tt)
all_reach fuel parent_of root (n ∷ ns) =
    let rest = all_reach fuel parent_of root ns in
    elim (reaches_root fuel parent_of (some n.label) root []) [
      | none ↦ none
      | some reached ↦ if reached then rest else some (err invalid_tree_spec)
    ]

-- The nodes and edges of the incoming tree, and those of the stored one that it does not mention.
unfoldable pub merge_nodes : List PublicNode → List PublicNode → List PublicNode
merge_nodes incoming existing =
    incoming
    ++ select_all
        (λ (n : PublicNode). not (contains (map (λ (m : PublicNode). m.label) incoming) n.label))
        existing

-- Each kept edge is compared with the edges kept before it too.
unfoldable pub merge_edges : List String → List PublicEdge → List PublicEdge → List PublicEdge
merge_edges mentioned kept [] = kept
merge_edges mentioned kept (e ∷ es) =
    if contains mentioned e.from && contains mentioned e.to
      || not (count_where (same_edge e) kept == 0)
    then merge_edges mentioned kept es
    else merge_edges mentioned (kept ++ e ∷ []) es

unfoldable pub merged_tree : PublicTree → PublicTree → PublicTree
unfolding merge_nodes merge_edges
merged_tree existing incoming =
    let mentioned = map (λ (n : PublicNode). n.label) incoming.nodes in
    record {
      label = incoming.label;
      generation = existing.generation;
      nodes = merge_nodes incoming.nodes existing.nodes;
      whitelist = merge_edges mentioned incoming.whitelist existing.whitelist;
      links = merge_edges mentioned incoming.links existing.links;
    }

abbrev pub max_u32 : ℕ
max_u32 = 4294967295

abbrev pub max_i64 : ℕ
max_i64 = 9223372036854775807

abbrev pub has_label : String → Document → Bool
has_label l d = d.label ≟ l

unfoldable pub next_generation : Option Document → ℕ
next_generation none = 1
next_generation (some d) = if ltb d.generation max_i64 then d.generation + 1 else max_i64

-- INSERT … ON CONFLICT(label) DO UPDATE: what stands there under the label decides.
unfoldable pub store_row : Option Document → Document → List Document → List Document
store_row none row docs = docs ++ row ∷ []
store_row (some d) row docs = update (has_label row.label) (λ x. row) docs

-- The snapshot with its next generation, which is a u32 in the document.
abbrev pub stored_tree : PublicTree → List Document → PublicTree
stored_tree snapshot docs =
    let generation = next_generation (select (has_label snapshot.label) docs) in
    record snapshot { generation = if ltb max_u32 generation then max_u32 else generation }

module _ (json : TreeJson) where
  unfoldable pub parse_document : String → Result PublicTree
  parse_document document = ok_or (json.from_str document) invalid_tree_spec

  unfoldable pub persist_public_tree :
      PublicTree → List Document → Result PublicTree × List Document
  unfolding next_generation store_row
  persist_public_tree snapshot docs =
      let found = select (has_label snapshot.label) docs in
      let generation = next_generation found in
      let stored = stored_tree snapshot docs in
      elim (json.to_string stored) [
        | none ↦ (err invalid_tree_spec, docs)
        | some document ↦
            let row : Document = record {
              label = stored.label;
              generation = generation;
              document = document;
            } in
            (ok stored, store_row found row docs)
      ]

  unfoldable pub get_public_tree : String → List Document → Result PublicTree
  unfolding parse_document
  get_public_tree l docs = elim (select (has_label l) docs) [
    | none ↦ err tree_not_found
    | some d ↦ parse_document d.document
  ]

module _ (hex_decode : String → Option Bytes) where
  -- A split has a threshold above 0, a leaf a fingerprint and a key of 32 bytes.
  unfoldable pub check_node : PublicNode → Result (Unit {0})
  check_node n = elim n.threshold [
    | some t ↦
        if ltb 0 t && (n.encryption_fingerprint ≟ none && n.encryption_public_key ≟ none)
        then ok tt
        else err invalid_tree_spec
    | none ↦
        if n.encryption_fingerprint ≟ none
        then err invalid_tree_spec
        else elim n.encryption_public_key [
          | none ↦ err invalid_tree_spec
          | some pk ↦ elim (hex_decode pk) [
            | none ↦ err invalid_public_key
            | some raw ↦ guard (length raw == 32) invalid_public_key
          ]
        ]
  ]

  -- The first loop; it returns the labels.
  unfoldable pub check_nodes : List PublicNode → List String → Result (List String)
  unfolding check_node
  check_nodes [] labels = ok labels
  check_nodes (n ∷ ns) labels = do
    guard (not (n.label ≟ "" || contains labels n.label)) duplicate_node_label
    check_node n
    check_nodes ns (n.label ∷ labels)

  -- What is checked before the walks to the root.
  unfoldable pub check_shape : PublicTree → Result PublicNode
  unfolding check_nodes
  check_shape tree = do
    guard (not (tree.label ≟ "" || length tree.nodes == 0)) invalid_tree_spec
    labels ← check_nodes tree.nodes []
    guard (count_where is_root tree.nodes == 1) invalid_tree_spec
    guard (parents_known labels tree.nodes) invalid_tree_spec
    guard (edges_known labels (tree.whitelist ++ tree.links)) invalid_bridge
    guard (distinct_edges [] tree.whitelist) invalid_bridge
    guard (distinct_edges [] tree.links && links_listed tree.whitelist tree.links) invalid_bridge
    ok_or (select is_root tree.nodes) invalid_tree_spec

  unfoldable pub validate_public_tree : ℕ → PublicTree → Option (Result (Unit {0}))
  unfolding check_shape
  validate_public_tree fuel tree = elim (check_shape tree) [
    | err e ↦ some (err e)
    | ok root ↦ all_reach fuel (parent_entry tree.nodes) root.label tree.nodes
  ]

  unfoldable pub merge_into_existing : ℕ → PublicTree → PublicTree → Option (Result PublicTree)
  merge_into_existing fuel existing incoming =
      elim (validate_public_tree fuel (merged_tree existing incoming)) [
        | none ↦ none
        | some (err e) ↦ some (err e)
        | some (ok u) ↦ some (ok (merged_tree existing incoming))
      ]

module _ (json : TreeJson) (hex_decode : String → Option Bytes) where
  unfoldable pub put_public_tree :
      ℕ → PublicTree → List Document → Option (Result PublicTree × List Document)
  put_public_tree fuel snapshot docs = elim (validate_public_tree hex_decode fuel snapshot) [
    | none ↦ none
    | some (err e) ↦ some (err e, docs)
    | some (ok u) ↦ some (persist_public_tree json snapshot docs)
  ]
