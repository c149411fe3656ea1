-- ===== src/PrivateBridge/Parents.antt =====
-- What the parent of a label is (src/private_bridge.rs).
use key_quorom.Prelude.{
  ℕ, Bytes, ◌≡◌, ◌↔◌, refl, ap, false, Option, none, some, [], ◌∷◌, ◌++◌, ◌==◌, arith, Bool-cases,
  inl, inr,
}
use key_quorom.Prelude.Equality.{nat_eq, contains}
use key_quorom.PrivateBridge.Labels.{dot, parent_node_label}

-- The label is the parent, a dot and a last part that has no dot.
abbrev pub IsParent : Bytes → Bytes → Type 0
IsParent parent label =
    (last : Bytes) × (label ≡ parent ++ (dot ∷ last)) × (contains last dot ≡ false)

parent_node_label-no_dot :
    (label : Bytes) → contains label dot ≡ false → parent_node_label label ≡ none
unfolding parent_node_label
parent_node_label-no_dot [] h = refl
parent_node_label-no_dot (b ∷ rest) h = ground (arith, parent_node_label-no_dot rest)

no_dot : (label : Bytes) → parent_node_label label ≡ none → contains label dot ≡ false
unfolding parent_node_label
no_dot [] h = refl
no_dot (b ∷ rest) h = ground (arith, no_dot rest)

parent_node_label-append :
    (parent last : Bytes)
    → contains last dot ≡ false
    → parent_node_label (parent ++ (dot ∷ last)) ≡ some parent
unfolding parent_node_label
parent_node_label-append [] last h = let e = parent_node_label-no_dot last h in ground arith
parent_node_label-append (b ∷ parent) last h =
    let e = parent_node_label-append parent last h in ground arith

-- A label's first byte before a label whose parent is known.
step_IsParent :
    (b : ℕ) (rest parent : Bytes) (m : Option Bytes)
    → parent_node_label rest ≡ m
    → ((p : Bytes) → m ≡ some p → IsParent p rest)
    → parent_node_label (b ∷ rest) ≡ some parent
    → IsParent parent (b ∷ rest)
unfolding parent_node_label
step_IsParent b rest parent none e ih h = elim (Bool-cases (b == dot)) [
  | inl y ↦
      let same : b ≡ dot = ground arith in
      let empty : [] ≡ parent = ground arith in (rest, rw (← empty, same) refl, no_dot rest e)
  | inr n ↦ absurd (ground arith)
]
step_IsParent b rest parent (some p) e ih h =
    let (last, parts, clean) = ih p refl in
    let whole : b ∷ p ≡ parent = ground arith in (last, rw (← whole) (ap (λ l. b ∷ l) parts), clean)

parent_node_label-IsParent :
    (label parent : Bytes) → parent_node_label label ≡ some parent → IsParent parent label
parent_node_label-IsParent [] parent h = unfold parent_node_label in absurd (cc h)
parent_node_label-IsParent (b ∷ rest) parent h =
    step_IsParent b rest parent (parent_node_label rest) refl
      (λ p e. parent_node_label-IsParent rest p e) h

-- A label has a parent exactly if the label is the parent, a dot and a part without dots: the parent
-- is what stands before the last dot.
pub parent_node_label_iff :
    (label parent : Bytes) → (parent_node_label label ≡ some parent) ↔ IsParent parent label
parent_node_label_iff label parent = (
  parent_node_label-IsParent label parent,
  λ (last, parts, clean). rw parts (parent_node_label-append parent last clean),
)
