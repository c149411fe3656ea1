-- ===== src/Relay/OrgTree/OneTree.antt =====
-- A JSON that can write one tree only, for tests of the published trees.
use text.Mathlib.TextEquality.{eq_iff}
use key_quorom.Prelude.{
  String, ◌≡◌, refl, ap, sym, Bool, true, false, not, ◌&&◌, Option, none, some, List, [], ◌∷◌,
  arith, ==_iff, if◌then◌else◌, Bool-cases, inl, inr, some-injective,
}
use key_quorom.Prelude.Equality.{◌≟◌, nat_eq, string_eq, list_eq, option_eq, option_beq_iff}
use key_quorom.KeyTree.Public.{PublicNode, PublicEdge, PublicTree}
use key_quorom.Relay.OrgTree.{TreeJson}

abbrev same_bool : Bool → Bool → Bool
same_bool true b = b
same_bool false b = not b

node_beq : PublicNode → PublicNode → Bool
node_beq a b =
    a.label ≟ b.label
    && (a.parent_label ≟ b.parent_label
        && (a.threshold ≟ b.threshold
            && (same_bool a.is_active b.is_active
                && (a.encryption_fingerprint ≟ b.encryption_fingerprint
                    && a.encryption_public_key ≟ b.encryption_public_key))))

same_bool-true : (a b : Bool) → same_bool a b ≡ true → a ≡ b
same_bool-true true b h = sym h
same_bool-true false true h = absurd (cc h)
same_bool-true false false h = refl

node_beq-true : (a b : PublicNode) → node_beq a b ≡ true → a ≡ b
unfolding node_beq
node_beq-true a b h = ground (
  arith,
  eq_iff a.label b.label,
  option_beq_iff a.parent_label b.parent_label,
  option_beq_iff a.threshold b.threshold,
  same_bool-true a.is_active b.is_active,
  option_beq_iff a.encryption_fingerprint b.encryption_fingerprint,
  option_beq_iff a.encryption_public_key b.encryption_public_key,
)

unfoldable nodes_beq : List PublicNode → List PublicNode → Bool
unfolding node_beq
nodes_beq [] [] = true
nodes_beq [] (b ∷ bs) = false
nodes_beq (a ∷ as') [] = false
nodes_beq (a ∷ as') (b ∷ bs) = node_beq a b && nodes_beq as' bs

nodes_beq-true : (as' bs : List PublicNode) → nodes_beq as' bs ≡ true → as' ≡ bs
unfolding nodes_beq
nodes_beq-true [] [] h = refl
nodes_beq-true [] (b ∷ bs) h = absurd (cc h)
nodes_beq-true (a ∷ as') [] h = absurd (cc h)
nodes_beq-true (a ∷ as') (b ∷ bs) h = elim (Bool-cases (node_beq a b)) [
  | inl y ↦ rw (node_beq-true a b y) (ap (λ l. b ∷ l) (nodes_beq-true as' bs (rw y at h)))
  | inr n ↦ absurd (cc (rw n at h))
]

unfoldable edges_beq : List PublicEdge → List PublicEdge → Bool
edges_beq [] [] = true
edges_beq [] (b ∷ bs) = false
edges_beq (a ∷ as') [] = false
edges_beq (a ∷ as') (b ∷ bs) = a.from ≟ b.from && (a.to ≟ b.to && edges_beq as' bs)

edges_beq-true : (as' bs : List PublicEdge) → edges_beq as' bs ≡ true → as' ≡ bs
unfolding edges_beq
edges_beq-true [] [] h = refl
edges_beq-true [] (b ∷ bs) h = absurd (cc h)
edges_beq-true (a ∷ as') [] h = absurd (cc h)
edges_beq-true (a ∷ as') (b ∷ bs) h =
    ground (arith, eq_iff a.from b.from, eq_iff a.to b.to, edges_beq-true as' bs)

unfoldable pub tree_beq : PublicTree → PublicTree → Bool
unfolding nodes_beq edges_beq
tree_beq a b =
    a.label ≟ b.label
    && (a.generation ≟ b.generation
        && (nodes_beq a.nodes b.nodes
            && (edges_beq a.whitelist b.whitelist && edges_beq a.links b.links)))

tree_beq-true : (a b : PublicTree) → tree_beq a b ≡ true → a ≡ b
unfolding tree_beq
tree_beq-true a b h = ground (
  arith,
  eq_iff a.label b.label,
  ==_iff a.generation b.generation,
  nodes_beq-true a.nodes b.nodes,
  edges_beq-true a.whitelist b.whitelist,
  edges_beq-true a.links b.links,
)

abbrev pub text_of : PublicTree → PublicTree → Option String
text_of one tree = if tree_beq one tree then some "{}" else none

abbrev pub tree_of : PublicTree → String → Option PublicTree
tree_of one document = if document ≟ "{}" then some one else none

pub tree_of-text_of :
    (one tree : PublicTree) (document : String)
    → text_of one tree ≡ some document
    → tree_of one document ≡ some tree
tree_of-text_of one tree document h = elim (Bool-cases (tree_beq one tree)) [
  | inl y ↦
      let text : "{}" ≡ document = some-injective (rw y at h) in
      rw (← text) (ap (λ (t : PublicTree). some t) (tree_beq-true one tree y))
  | inr n ↦ absurd (cc (rw n at h))
]

abbrev pub one_tree : PublicTree → TreeJson
one_tree one = record {
  to_string = text_of one;
  from_str = tree_of one;
  from_str-to_string = tree_of-text_of one;
}
