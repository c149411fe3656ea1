-- ===== src/KeyTree/Spec/Accepts.antt =====
-- What `validate` accepts, in one statement (src/key_tree.rs).
use mathlib.Core.Path.{fun_ext, subst}
use key_quorom.Prelude.{◌≡◌, ◌↔◌, sym, List, [], ltb, lt→ltb}
use key_quorom.Prelude.Equality.{string_eq, contains}
use key_quorom.Error.{ok, >>=-elim, guard-elim}
use key_quorom.Keys.{HardwareKey}
use key_quorom.KeyTree.Spec.{NodeSpec, collect_labels, validate_node, validate}
use key_quorom.KeyTree.Spec.Valid.{
  labels, Distinct, AllNonempty, Structured, Bridged, node_sound, node_complete,
}
use key_quorom.KeyTree.Spec.Labels.{
  collect_labels_sound, collect_labels_complete, validate_bridges_iff,
}

-- A well-formed specification: the threshold of each split lies between 1 and its number of
-- children, of which there are at most 255; each leaf names a registered, unrevoked encryption key;
-- no label is empty and none stands twice; each allowed bridge names another node of the tree.
pub record IsWellFormed (keys : List HardwareKey) (spec : NodeSpec) : Type 0 where
  pub structure : Structured keys spec
  pub nonempty : AllNonempty (labels spec)
  pub distinct : Distinct (labels spec)
  pub bridges : Bridged (contains (labels spec)) spec

-- `validate` accepts exactly the well-formed specifications.
pub validate_iff :
    (keys : List HardwareKey) (spec : NodeSpec)
    → (validate keys spec ≡ ok tt) ↔ IsWellFormed keys spec
unfolding validate
validate_iff keys spec = (
  λ h. >>=-elim (validate_node keys spec 0) _ h λ n e r. guard-elim (ltb 0 n) _ _ r λ _ r'.
      >>=-elim (collect_labels spec []) _ r' λ s e' b.
        let (nonempty, distinct, same) = collect_labels_sound spec s e' in
        record {
          structure = (node_sound keys spec 0 n e).0;
          nonempty = nonempty;
          distinct = distinct;
          bridges = subst (λ f. Bridged f spec) (fun_ext same) ((validate_bridges_iff s spec).0 b);
        },
  λ v.
      let (n, e) = node_complete keys spec 0 v.structure in
      let (_, some_leaf) = node_sound keys spec 0 n e in
      let (s, e') = collect_labels_complete spec v.nonempty v.distinct in
      let (_, _, same) = collect_labels_sound spec s e' in
      let b =
        (validate_bridges_iff s spec).1
          (subst (λ f. Bridged f spec) (sym (fun_ext same)) v.bridges) in
      rw (e, lt→ltb _ _ some_leaf, e') b,
)
