-- ===== src/Relay/OrgTree/Tests.antt =====
-- Published trees on concrete data (src/relay/org_tree.rs).
use text.Mathlib.TextEquality.{eq_iff}
use key_quorom.Prelude.{
  ℕ, zero, suc, Bytes, String, ◌+◌, ◌≤◌, ◌≡◌, ◌≢◌, ◌⊎◌, refl, true, Option, none, some, List, [],
  ◌∷◌, arith, length, map,
}
use key_quorom.Prelude.Sql.{select}
use key_quorom.Error.{Result, ok, err, invalid_tree_spec}
use key_quorom.KeyTree.Public.{PublicNode, PublicTree}
use key_quorom.Relay.OrgTree.{
  Document, TreeJson, merge_into_existing, validate_public_tree, put_public_tree,
  persist_public_tree,
}
use key_quorom.Relay.OrgTree.Publish.{IsPublished, put_public_tree_lem}
use key_quorom.Relay.OrgTree.OneTree.{one_tree, tree_beq}
use key_quorom.Relay.OrgTree.Total.{validate_public_tree_lem}
use key_quorom.Relay.OrgTree.Merge.{is_named, or_else, merge_into_existing_lem}

abbrev zeros : ℕ → Bytes
zeros zero = []
zeros (suc n) = 0 ∷ zeros n

abbrev decode : String → Option Bytes
decode s = some (zeros 32)

abbrev split : String → Option String → PublicNode
split l parent = record {
  label = l;
  parent_label = parent;
  threshold = some 2;
  is_active = true;
  encryption_fingerprint = none;
  encryption_public_key = none;
}

abbrev leaf : String → PublicNode
leaf l = record {
  label = l;
  parent_label = some "M";
  threshold = none;
  is_active = true;
  encryption_fingerprint = some "f";
  encryption_public_key = some "k";
}

abbrev tree : List PublicNode → PublicTree
tree ns = record { label = "org"; generation = 1; nodes = ns; whitelist = []; links = [] }

abbrev small : PublicTree
small = tree (split "M" none ∷ leaf "A" ∷ [])

abbrev large : PublicTree
large = tree (split "M" none ∷ leaf "A" ∷ leaf "B" ∷ [])

-- Parents that form a cycle.
abbrev cyclic : PublicTree
cyclic = tree (split "M" none ∷ split "A" (some "B") ∷ split "B" (some "A") ∷ [])

validate_public_tree_lem_example :
    (r : Result (Unit {0})) × (validate_public_tree decode 5 cyclic ≡ some r)
validate_public_tree_lem_example = validate_public_tree_lem decode 5 cyclic (omega arith)

small_valid : validate_public_tree decode 4 small ≡ some (ok tt)
unfolding validate_public_tree key_quorom.Prelude.Sql.count_where
    key_quorom.Relay.OrgTree.parents_known key_quorom.Relay.OrgTree.edges_known
    key_quorom.Relay.OrgTree.distinct_edges key_quorom.Relay.OrgTree.links_listed select
    key_quorom.Relay.OrgTree.all_reach key_quorom.KeyTree.Visible.parent_entry
small_valid = refl

abbrev other : String
other = "other"

other_label : other ≢ small.label
other_label e = absurd (cc ((eq_iff other small.label).1 e))

-- The first generation is 1, which `small` has already.
abbrev json : TreeJson
json = one_tree small

put_public_tree_lem_example :
    (stored : PublicTree) × (out : Result PublicTree × List Document) × (put_public_tree json decode
        4 small []
      ≡ some out)
    × (stored ≡ record small { generation = stored.generation })
    × (((json.to_string stored ≡ none) × (out ≡ (err invalid_tree_spec, [])))
        ⊎ IsPublished json stored other [] out)
put_public_tree_lem_example =
    put_public_tree_lem json decode 4 small [] other small_valid other_label

published :
    persist_public_tree json small []
    ≡ (ok small, record { label = "org"; generation = 1; document = "{}" } ∷ [])
unfolding persist_public_tree select tree_beq
published = refl

unwritten : persist_public_tree (one_tree large) small [] ≡ (err invalid_tree_spec, [])
unfolding persist_public_tree select tree_beq
unwritten = refl

abbrev merged : PublicTree
merged = tree (split "M" none ∷ leaf "A" ∷ leaf "B" ∷ [])

merges : merge_into_existing decode 5 large small ≡ some (ok merged)
unfolding merge_into_existing validate_public_tree key_quorom.Relay.OrgTree.merged_tree
    key_quorom.Prelude.Sql.select_all key_quorom.Prelude.Sql.count_where
    key_quorom.Relay.OrgTree.parents_known key_quorom.Relay.OrgTree.edges_known
    key_quorom.Relay.OrgTree.distinct_edges key_quorom.Relay.OrgTree.links_listed select
    key_quorom.Relay.OrgTree.all_reach key_quorom.KeyTree.Visible.parent_entry
merges = refl

merge_into_existing_lem_example :
    (validate_public_tree decode 5 merged ≡ some (ok tt))
    × (1 ≡ large.generation)
    × (select (is_named "B") merged.nodes
        ≡ or_else (select (is_named "B") small.nodes) (select (is_named "B") large.nodes))
merge_into_existing_lem_example = merge_into_existing_lem decode 5 large small merged "B" merges
