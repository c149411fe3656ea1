-- ===== src/KeyTree/Spec/Valid.antt =====
-- Which specifications `validate` accepts (src/key_tree.rs).
use key_quorom.Prelude.{
  ℕ, String, ◌+◌, ◌≤◌, ◌<◌, ◌≡◌, ◌≢◌, refl, Bool, true, false, ◌||◌, List, [], ◌∷◌, ◌++◌, arith,
  ltb, ◌==◌, Bool-cases, inl, inr,
}
use key_quorom.Prelude.Equality.{string_eq, contains}
use key_quorom.Error.{ok, >>=-elim}
use key_quorom.Keys.{
  HardwareKey, IsActive, get_active_encryption_key, get_active_encryption_key_iff,
  get_active_encryption_key_of,
}
use key_quorom.KeyTree.Spec.{
  NodeSpec, NodeSpecs, leaf, split, nil, cons, count_specs, validate_node, validate_nodes,
}

abbrev mutual
  -- The labels in preorder.
  pub labels : NodeSpec → List String
  labels (leaf l k bs) = l ∷ []
  labels (split l t cs bs) = l ∷ all_labels cs

  pub all_labels : NodeSpecs → List String
  all_labels nil = []
  all_labels (cons c cs) = labels c ++ all_labels cs

-- No label twice.
abbrev pub Distinct : List String → Type 0
Distinct [] = Unit
Distinct (l ∷ ls) = (contains ls l ≡ false) × Distinct ls

abbrev pub AllNonempty : List String → Type 0
AllNonempty [] = Unit
AllNonempty (l ∷ ls) = (l ≢ "") × AllNonempty ls

-- Each peer is a known label other than the node's own.
abbrev pub PeersKnown : (String → Bool) → String → List String → Type 0
PeersKnown known l [] = Unit
PeersKnown known l (p ∷ ps) = (p ≢ l) × (known p ≡ true) × PeersKnown known l ps

abbrev mutual
  -- Thresholds and leaf keys.
  pub Structured : List HardwareKey → NodeSpec → Type 0
  Structured keys (leaf l k bs) = IsActive keys k
  Structured keys (split l t cs bs) =
      (0 < t) × (t ≤ count_specs cs) × (count_specs cs ≤ 255) × AllStructured keys cs

  pub AllStructured : List HardwareKey → NodeSpecs → Type 0
  AllStructured keys nil = Unit
  AllStructured keys (cons c cs) = Structured keys c × AllStructured keys cs

abbrev mutual
  pub Bridged : (String → Bool) → NodeSpec → Type 0
  Bridged known (leaf l k bs) = PeersKnown known l bs
  Bridged known (split l t cs bs) = PeersKnown known l bs × AllBridged known cs

  pub AllBridged : (String → Bool) → NodeSpecs → Type 0
  AllBridged known nil = Unit
  AllBridged known (cons c cs) = Bridged known c × AllBridged known cs

module _ (keys : List HardwareKey) where
  mutual
    unfolding validate_node count_specs

    pub node_sound :
        (s : NodeSpec) (n m : ℕ) → validate_node keys s n ≡ ok m → Structured keys s × (n < m)
    node_sound (leaf l k bs) n m h =
        >>=-elim (get_active_encryption_key keys k) _ h
          λ key e r. (get_active_encryption_key_iff keys k key e, ground arith)
    node_sound (split l t cs bs) n m h =
        elim (Bool-cases (
          count_specs cs == 0
          || (t == 0 || (ltb (count_specs cs) t || ltb 255 (count_specs cs))))) [
            | inl bad ↦ absurd (cc (rw bad at h))
            | inr fine ↦
                let (all, more) = nodes_sound cs n m (rw fine at h) in
                ((ground arith, ground arith, ground arith, all), ground arith)
          ]

    pub nodes_sound :
        (cs : NodeSpecs) (n m : ℕ)
        → validate_nodes keys cs n ≡ ok m
        → AllStructured keys cs × (n + count_specs cs ≤ m)
    nodes_sound nil n m h = (tt, ground arith)
    nodes_sound (cons c cs) n m h = >>=-elim (validate_node keys c n) _ h λ k e r.
        let (first, fewer) = node_sound c n k e in
        let (rest, more) = nodes_sound cs k m r in ((first, rest), omega arith)

  mutual
    unfolding validate_node count_specs

    pub node_complete :
        (s : NodeSpec) (n : ℕ) → Structured keys s → (m : ℕ) × (validate_node keys s n ≡ ok m)
    node_complete (leaf l k bs) n v = (n + 1, rw (get_active_encryption_key_of keys k v))
    node_complete (split l t cs bs) n v =
        let fine : (count_specs cs == 0
              || (t == 0 || (ltb (count_specs cs) t || ltb 255 (count_specs cs))))
            ≡ false =
          ground arith in
        let (m, e) = nodes_complete cs n v.3 in (m, rw fine e)

    pub nodes_complete :
        (cs : NodeSpecs) (n : ℕ)
        → AllStructured keys cs
        → (m : ℕ) × (validate_nodes keys cs n ≡ ok m)
    nodes_complete nil n v = (n, refl)
    nodes_complete (cons c cs) n v =
        let (k, e) = node_complete c n v.0 in let (m, r) = nodes_complete cs k v.1 in (m, rw e r)
