-- ===== src/PrivateBridge/Labels.antt =====
-- Labels of the dotted tree and the stores that a roster notifies (src/private_bridge.rs).
use key_quorom.Prelude.{
  ℕ, Bytes, ◌≡◌, ◌∷◌, [], List, Option, none, some, Bool, ◌||◌, ◌==◌, arith, if◌then◌else◌, refl,
  false, ◌∙◌,
}
use key_quorom.Prelude.Equality.{nat_eq, list_eq, ◌≟◌, contains, option_beq}
use Prim.Native.Nat.{Ordering}
use key_quorom.PrivateBridge.SortedMap.{
  bytes_order, Map, put, keys, contains-keys-put, IsSorted, put-IsSorted,
}

abbrev pub dot : ℕ
dot = b'.'

-- The text before the last dot.
unfoldable pub parent_node_label : Bytes → Option Bytes
parent_node_label [] = none
parent_node_label (b ∷ rest) = elim (parent_node_label rest) [
  | some parent ↦ some (b ∷ parent)
  | none ↦ if b == dot then some [] else none
]

abbrev put_parent : Option Bytes → Map (Unit {0}) → Map (Unit {0})
put_parent none out = out
put_parent (some parent) out = put parent tt out

-- The set, from the labels that are left and those inserted.
unfoldable pub notify_set : List Bytes → Map (Unit {0}) → Map (Unit {0})
notify_set [] out = out
notify_set (label ∷ labels) out =
    notify_set labels (put_parent (parent_node_label label) (put label tt out))

unfoldable pub notify_labels : List Bytes → List Bytes
notify_labels member_labels = keys (notify_set member_labels [])

put_parent-IsSorted :
    (o : Option Bytes) (out : Map (Unit {0})) → IsSorted out → IsSorted (put_parent o out)
put_parent-IsSorted none out s = s
put_parent-IsSorted (some p) out s = put-IsSorted p tt out s

notify_set-IsSorted :
    (labels : List Bytes) (out : Map (Unit {0})) → IsSorted out → IsSorted (notify_set labels out)
unfolding notify_set
notify_set-IsSorted [] out s = s
notify_set-IsSorted (label ∷ labels) out s =
    notify_set-IsSorted labels _
      (put_parent-IsSorted (parent_node_label label) _ (put-IsSorted label tt out s))

-- A label of the members, or the direct parent of one.
abbrev pub is_notified : List Bytes → Bytes → Bool
is_notified [] a = false
is_notified (label ∷ labels) a =
    label ≟ a || option_beq (parent_node_label label) (some a) || is_notified labels a

contains-put_parent :
    (o : Option Bytes) (out : Map (Unit {0})) (a : Bytes)
    → contains (keys (put_parent o out)) a ≡ (option_beq o (some a) || contains (keys out) a)
contains-put_parent none out a = refl
contains-put_parent (some p) out a = contains-keys-put p a tt out

contains-notify_set :
    (labels : List Bytes) (out : Map (Unit {0})) (a : Bytes)
    → contains (keys (notify_set labels out)) a ≡ (is_notified labels a || contains (keys out) a)
unfolding notify_set
contains-notify_set [] out a = refl
contains-notify_set (label ∷ labels) out a =
    rw
      (
        contains-notify_set labels _ a,
        contains-put_parent (parent_node_label label) (put label tt out) a,
        contains-keys-put label a tt out,
      )
      (ground arith)

-- Each text is below the next in the order of their bytes.
abbrev pub IsAscending : List Bytes → Type 0
IsAscending [] = Unit
IsAscending (a ∷ []) = Unit
IsAscending (a ∷ b ∷ rest) = (bytes_order a b ≡ Ordering.lt) × IsAscending (b ∷ rest)

keys-IsAscending : (m : Map (Unit {0})) → IsSorted m → IsAscending (keys m)
unfolding keys
keys-IsAscending [] s = tt
keys-IsAscending (x ∷ []) s = tt
keys-IsAscending (x ∷ y ∷ m) s = (s.0, keys-IsAscending (y ∷ m) s.1)

-- The labels that are notified are exactly the members and the direct parents of members, in
-- ascending order, so each of them once.
pub notify_labels_lem :
    (members : List Bytes)
    → IsAscending (notify_labels members)
      × ((a : Bytes) → contains (notify_labels members) a ≡ is_notified members a)
unfolding notify_labels keys
notify_labels_lem members = (
  keys-IsAscending _ (notify_set-IsSorted members [] tt),
  λ a. contains-notify_set members [] a ∙ ground arith,
)
