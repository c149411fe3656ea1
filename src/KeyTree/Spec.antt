-- ===== src/KeyTree/Spec.antt =====
-- `NodeSpec` and its validation (src/key_tree.rs). A label is a native string; a threshold is the
-- value of its u8.
pub mod Valid
pub mod Labels
pub mod Accepts
use key_quorom.Prelude.{
  ℕ, zero, suc, String, ◌+◌, Bool, true, false, not, ◌||◌, List, [], ◌∷◌, ◌++◌, ltb, ◌==◌,
  if◌then◌else◌, length,
}
use key_quorom.Prelude.Equality.{◌≟◌, string_eq, contains, insert}
use key_quorom.Error.{
  Result, ok, err, ◌>>=◌, ◌>>◌, guard, invalid_quorum_threshold, duplicate_node_label,
  invalid_bridge,
}
use key_quorom.Keys.{HardwareKey, get_active_encryption_key}

mutual
  pub data NodeSpec : Type 0 where
    leaf : String → ℕ → List String → NodeSpec
    split : String → ℕ → NodeSpecs → List String → NodeSpec

  pub data NodeSpecs : Type 0 where
    nil : NodeSpecs
    cons : NodeSpec → NodeSpecs → NodeSpecs

unfoldable pub label : NodeSpec → String
label (leaf l k bs) = l
label (split l t cs bs) = l

unfoldable pub allowed_bridges : NodeSpec → List String
allowed_bridges (leaf l k bs) = bs
allowed_bridges (split l t cs bs) = bs

unfoldable pub count_specs : NodeSpecs → ℕ
count_specs nil = 0
count_specs (cons c cs) = suc (count_specs cs)

flat_leaves : List (String × ℕ) → NodeSpecs
flat_leaves [] = nil
flat_leaves ((l, k) ∷ rest) = cons (leaf l k []) (flat_leaves rest)

unfoldable pub flat_split : String → ℕ → List (String × ℕ) → NodeSpec
unfolding flat_leaves
flat_split root threshold leaves = split root threshold (flat_leaves leaves) []

-- `!seen.insert(label)` and the test for an empty label.
unfoldable pub see : String → List String → Result (List String)
see l seen = if l ≟ "" || contains seen l then err duplicate_node_label else ok (l ∷ seen)

unfoldable mutual
  pub collect_labels : NodeSpec → List String → Result (List String)
  collect_labels (leaf l k bs) seen = see l seen
  collect_labels (split l t cs bs) seen = do seen' ← see l seen; collect_all_labels cs seen'

  pub collect_all_labels : NodeSpecs → List String → Result (List String)
  collect_all_labels nil seen = ok seen
  collect_all_labels (cons c cs) seen = do
    seen' ← collect_labels c seen
    collect_all_labels cs seen'

unfoldable pub check_peers : String → List String → List String → Result (Unit {0})
check_peers l labels [] = ok tt
check_peers l labels (peer ∷ peers) =
    if peer ≟ l || not (contains labels peer)
    then err invalid_bridge
    else check_peers l labels peers

unfoldable mutual
  pub validate_bridges : List String → NodeSpec → Result (Unit {0})
  validate_bridges labels (leaf l k bs) = check_peers l labels bs
  validate_bridges labels (split l t cs bs) = do
    check_peers l labels bs
    validate_all_bridges labels cs

  pub validate_all_bridges : List String → NodeSpecs → Result (Unit {0})
  validate_all_bridges labels nil = ok tt
  validate_all_bridges labels (cons c cs) = do
    validate_bridges labels c
    validate_all_bridges labels cs

module _ (keys : List HardwareKey) where
  -- The last argument is the running count of leaves.
  unfoldable mutual
    pub validate_node : NodeSpec → ℕ → Result ℕ
    validate_node (leaf l k bs) n = do get_active_encryption_key keys k >>= λ _. ok (n + 1)
    validate_node (split l t cs bs) n =
        if count_specs cs == 0 || (t == 0 || (ltb (count_specs cs) t || ltb 255 (count_specs cs)))
        then err invalid_quorum_threshold
        else validate_nodes cs n

    pub validate_nodes : NodeSpecs → ℕ → Result ℕ
    validate_nodes nil n = ok n
    validate_nodes (cons c cs) n = do n' ← validate_node c n; validate_nodes cs n'

  unfoldable pub validate : NodeSpec → Result (Unit {0})
  validate spec = do
    leaf_count ← validate_node spec 0
    guard (ltb 0 leaf_count) invalid_quorum_threshold
    labels ← collect_labels spec []
    validate_bridges labels spec
