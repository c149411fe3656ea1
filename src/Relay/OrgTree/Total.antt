-- ===== src/Relay/OrgTree/Total.antt =====
-- Validation of a published tree ends (src/relay/org_tree.rs).
use key_quorom.Prelude.{
  ℕ, zero, suc, Bytes, String, ◌+◌, ◌≤◌, ◌≡◌, refl, Bool, true, false, Option, none, some, List, [],
  ◌∷◌, length, map, Bool-cases, inl, inr, arith,
}
use key_quorom.Prelude.Equality.{◌≟◌, string_eq, contains}
use key_quorom.Error.{Result, ok, err, invalid_tree_spec}
use key_quorom.KeyTree.Public.{PublicNode, PublicTree}
use key_quorom.KeyTree.Visible.{parent_entry, flatten}
use key_quorom.KeyTree.Visible.Walk.{missing, missing_le, missing_less}
use key_quorom.Relay.OrgTree.{reaches_root, all_reach, check_shape, validate_public_tree}

abbrev labels_of : List PublicNode → List String
labels_of = map (λ (n : PublicNode). n.label)

no_entry :
    (ns : List PublicNode) (l : String)
    → contains (labels_of ns) l ≡ false
    → parent_entry ns l ≡ none
unfolding parent_entry
no_entry [] l h = refl
no_entry (n ∷ ns) l h =
    let apart : (n.label ≟ l) ≡ false = ground arith in
    let rest : contains (labels_of ns) l ≡ false = ground arith in
    rw (no_entry ns l rest, apart) refl

module _ (nodes : List PublicNode) (root : String) where
  reach_ends :
      (fuel : ℕ) (cur : Option String) (seen : List String)
      → missing (labels_of nodes) seen + 2 ≤ fuel
      → (b : Bool) × (reaches_root fuel (parent_entry nodes) cur root seen ≡ some b)
  unfolding reaches_root
  reach_ends fuel none seen enough = (false, refl)
  reach_ends zero (some l) seen enough = absurd (omega arith)
  reach_ends (suc fuel) (some l) seen enough = elim (Bool-cases (contains seen l)) [
    | inl again ↦ (false, rw again refl)
    | inr new ↦ elim (Bool-cases (l ≟ root)) [
      | inl at ↦ (true, rw (new, at) refl)
      | inr more ↦ elim (Bool-cases (contains (labels_of nodes) l)) [
        | inl m ↦
            let less = missing_less (labels_of nodes) l seen m new in
            let (b, e) =
              reach_ends fuel (flatten (parent_entry nodes l)) (l ∷ seen) (omega (arith, less)) in
            (b, rw (new, more) e)
        | inr out ↦ (false, rw (new, more, no_entry nodes l out) refl)
      ]
    ]
  ]

  all_reach_ends :
      (fuel : ℕ) (ns : List PublicNode)
      → length (labels_of nodes) + 2 ≤ fuel
      → (r : Result (Unit {0})) × (all_reach fuel (parent_entry nodes) root ns ≡ some r)
  unfolding all_reach
  all_reach_ends fuel [] enough = (ok tt, refl)
  all_reach_ends fuel (n ∷ ns) enough =
      let small = missing_le (labels_of nodes) [] in
      let (b, e) = reach_ends fuel (some n.label) [] (omega (arith, small)) in
      let (r, e') = all_reach_ends fuel ns enough in
      elim (Bool-cases b) [
        | inl y ↦ (r, rw (e, y, all_reach) e')
        | inr n ↦ (err invalid_tree_spec, rw (e, n, all_reach) refl)
      ]

-- With fuel for two labels more than the tree has nodes, the validation of any public tree ends,
-- also on parents that form a cycle.
pub validate_public_tree_lem :
    (hex_decode : String → Option Bytes) (fuel : ℕ) (tree : PublicTree)
    → length (map (λ (n : PublicNode). n.label) tree.nodes) + 2 ≤ fuel
    → (r : Result (Unit {0})) × (validate_public_tree hex_decode fuel tree ≡ some r)
unfolding validate_public_tree
validate_public_tree_lem hex_decode fuel tree enough = go (check_shape hex_decode tree) refl
  where
    go :
        (shape : Result PublicNode)
        → check_shape hex_decode tree ≡ shape
        → (r : Result (Unit {0})) × (validate_public_tree hex_decode fuel tree ≡ some r)
    go (err e) h = (err e, rw (h, validate_public_tree) refl)
    go (ok root) h =
        let (r, e) = all_reach_ends tree.nodes root.label fuel tree.nodes enough in
        (r, rw (h, validate_public_tree) e)
