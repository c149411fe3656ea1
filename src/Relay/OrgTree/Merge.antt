-- ===== src/Relay/OrgTree/Merge.antt =====
-- Merging a published subtree into the stored tree (src/relay/org_tree.rs).
use key_quorom.Prelude.{
  ℕ, Bytes, String, ◌≡◌, refl, ◌∙◌, Bool, true, false, not, Option, none, some, List, [], ◌∷◌, map,
  Option-cases, inl, inr, arith, some-injective,
}
use mathlib.Core.Path.{subst}
use text.Mathlib.TextEquality.{eq_iff}
use key_quorom.Prelude.Equality.{◌≟◌, string_eq, contains}
use key_quorom.Prelude.Sql.{select, select_all, select-append_left, select-append_right}
use key_quorom.Error.{Result, ok, err, ok-injective}
use key_quorom.KeyTree.Public.{PublicNode, PublicTree}
use key_quorom.Relay.OrgTree.{merge_nodes, merged_tree, merge_into_existing, validate_public_tree}

abbrev pub is_named : String → PublicNode → Bool
is_named l n = n.label ≟ l

abbrev pub or_else : Option PublicNode → Option PublicNode → Option PublicNode
or_else none second = second
or_else (some n) second = some n

unnamed :
    (l : String) (ns : List PublicNode)
    → select (is_named l) ns ≡ none
    → contains (map (λ (n : PublicNode). n.label) ns) l ≡ false
unfolding select
unnamed l [] h = refl
unnamed l (n ∷ ns) h = ground (arith, unnamed l ns)

select-kept :
    (l : String) (mentioned : List String) (ns : List PublicNode)
    → contains mentioned l ≡ false
    → select (is_named l) (select_all (λ (n : PublicNode). not (contains mentioned n.label)) ns)
      ≡ select (is_named l) ns
unfolding select select_all
select-kept l mentioned [] h = refl
select-kept l mentioned (n ∷ ns) h =
    let same : is_named l n ≡ true → contains mentioned n.label ≡ false =
      λ e. rw ((eq_iff n.label l).0 e) h in
    ground (arith, select-kept l mentioned ns h, same)

merge_nodes_lem :
    (l : String) (incoming existing : List PublicNode)
    → select (is_named l) (merge_nodes incoming existing)
      ≡ or_else (select (is_named l) incoming) (select (is_named l) existing)
unfolding merge_nodes
merge_nodes_lem l incoming existing = elim (Option-cases (select (is_named l) incoming)) [
  | inr (n, there) ↦ rw there (select-append_left (is_named l) incoming _ there)
  | inl gone ↦ rw gone (
      select-append_right (is_named l) incoming _ gone
      ∙ select-kept l (map (λ (n : PublicNode). n.label) incoming) existing
          (unnamed l incoming gone))
]

merge-ok :
    (hex_decode : String → Option Bytes) (fuel : ℕ) (existing incoming merged : PublicTree)
    (v : Option (Result (Unit {0})))
    → validate_public_tree hex_decode fuel (merged_tree existing incoming) ≡ v
    → merge_into_existing hex_decode fuel existing incoming ≡ some (ok merged)
    → (merged_tree existing incoming ≡ merged)
      × (validate_public_tree hex_decode fuel (merged_tree existing incoming) ≡ some (ok tt))
unfolding merge_into_existing
merge-ok hex_decode fuel existing incoming merged none e h =
    absurd (cc (rw (e, merge_into_existing) at h))
merge-ok hex_decode fuel existing incoming merged (some (err x)) e h =
    absurd (cc (rw (e, merge_into_existing) at h))
merge-ok hex_decode fuel existing incoming merged (some (ok u)) e h =
    (ok-injective (some-injective (rw (e, merge_into_existing) at h)), e)

-- A merge that succeeds gives a tree that validates and keeps the stored generation; under each
-- label it has the incoming tree's node, or, if the incoming tree does not mention the label, the
-- stored tree's node.
pub merge_into_existing_lem :
    (hex_decode : String → Option Bytes) (fuel : ℕ) (existing incoming merged : PublicTree)
    (l : String)
    → merge_into_existing hex_decode fuel existing incoming ≡ some (ok merged)
    → (validate_public_tree hex_decode fuel merged ≡ some (ok tt))
      × (merged.generation ≡ existing.generation)
      × (select (is_named l) merged.nodes
          ≡ or_else (select (is_named l) incoming.nodes) (select (is_named l) existing.nodes))
merge_into_existing_lem hex_decode fuel existing incoming merged l h =
    let (same, valid) =
      merge-ok hex_decode fuel existing incoming merged
        (validate_public_tree hex_decode fuel (merged_tree existing incoming)) refl h in
    subst
      (λ (t : PublicTree).
        (validate_public_tree hex_decode fuel t ≡ some (ok tt))
        × (t.generation ≡ existing.generation)
        × (select (is_named l) t.nodes
            ≡ or_else (select (is_named l) incoming.nodes) (select (is_named l) existing.nodes)))
      same
      (
        valid,
        unfold merged_tree in refl,
        unfold merged_tree in merge_nodes_lem l incoming.nodes existing.nodes,
      )
