-- ===== src/KeyTree/Tests.antt =====
-- Key trees on concrete data (src/key_tree.rs).
use key_quorom.Prelude.{
  some-injective, ℕ, zero, suc, Bytes, String, ◌<◌, ◌≡◌, ◌↔◌, refl, sym, ap, inl, inr, Bool-cases,
  ◌||◌, Bool, true, false, Option, none, some, List, [], ◌∷◌, arith, if◌then◌else◌, length, ◌==◌,
}
use key_quorom.Prelude.Equality.{nat_eq, string_eq, list_eq, bytes_iff, ◌∈◌}
use key_quorom.Error.{ok, err, quorum_not_met}
use key_quorom.Keys.{HardwareKey, encryption}
use key_quorom.KeyTree.Spec.{NodeSpec, leaf, split, validate}
use key_quorom.KeyTree.Spec.Accepts.{IsWellFormed, validate_iff}
use key_quorom.KeyTree.Arena.{BridgeRow, NodeRow, KeyNode, KeyQuorumTree, Shamir, reconstruct}
use key_quorom.KeyTree.Arena.Sublists.{Sublist, done, skip, keep}
use key_quorom.KeyTree.Arena.Policy.{
  Policy, holder, quorum, met, depth, IsShamir, is_supplied, Represents,
}
use key_quorom.KeyTree.Arena.Recover.{reconstruct_lem}

abbrev key : HardwareKey
key = record { id = 1; key_type = encryption; public_key = []; revoked_at = none }

abbrev spec : NodeSpec
spec =
    split "M" 2
      (key_quorom.KeyTree.Spec.cons (leaf "A" 1 ("B" ∷ []))
        (key_quorom.KeyTree.Spec.cons (leaf "B" 1 []) key_quorom.KeyTree.Spec.nil))
      []

validate_iff_example : (validate (key ∷ []) spec ≡ ok tt) ↔ IsWellFormed (key ∷ []) spec
validate_iff_example = validate_iff (key ∷ []) spec

-- A scheme whose shares are copies of the secret.
abbrev copies : ℕ → Bytes → List Bytes
copies zero s = []
copies (suc n) s = s ∷ copies n s

abbrev first : List Bytes → Option Bytes
first [] = none
first (s ∷ ss) = some s

abbrev copying : Shamir
copying = record {
  is_share = λ s. true;
  deal = λ t secret randomness n. copies n secret;
  recover = λ t shares. first shares;
}

abbrev AllSame : Bytes → List Bytes → Type 0
AllSame s [] = Unit
AllSame s (x ∷ xs) = (x ≡ s) × AllSame s xs

copies_same : (n : ℕ) (s : Bytes) → AllSame s (copies n s)
copies_same zero s = tt
copies_same (suc n) s = (refl, copies_same n s)

Sublist_same : (s : Bytes) {xs ys : List Bytes} → Sublist xs ys → AllSame s ys → AllSame s xs
Sublist_same s done same = tt
Sublist_same s (skip sub) same = Sublist_same s sub same.1
Sublist_same s (keep sub) same = (same.0, Sublist_same s sub same.1)

first_same :
    (s : Bytes) (shares : List Bytes) → AllSame s shares → 0 < length shares → first shares ≡ some s
first_same s [] same some_share = absurd (omega arith)
first_same s (x ∷ xs) same some_share = ap some same.0

a_copy : (n : ℕ) (secret share : Bytes) → share ∈ copies n secret → secret ≡ share
a_copy zero secret share m = absurd (cc m)
a_copy (suc n) secret share m = ground (arith, bytes_iff secret share, a_copy n secret share)

copying-IsShamir : IsShamir copying
copying-IsShamir = record {
  reads = λ t secret r n share some_bytes m. (refl, rw (sym (a_copy n secret share m)) some_bytes);
  recovers = λ t secret r n shares some_bytes bounds sub enough.
      first_same secret shares (Sublist_same secret sub (copies_same n secret))
        (omega (arith, bounds.0));
}

abbrev leaf_node : ℕ → String → Bool → KeyNode
leaf_node i l active = record {
  db_id = i;
  id = l;
  parent_idx = some 0;
  children_indices = [];
  threshold = none;
  is_active = active;
  hardware_key_id = some 1;
  allowed_bridges = [];
}

-- Two of three, of which one is evicted.
abbrev root : KeyNode
root = record {
  db_id = 10;
  id = "M";
  parent_idx = none;
  children_indices = 1 ∷ 2 ∷ 3 ∷ [];
  threshold = some 2;
  is_active = true;
  hardware_key_id = none;
  allowed_bridges = [];
}

abbrev tree : KeyQuorumTree
tree = record {
  nodes = root ∷ leaf_node 11 "A" true ∷ leaf_node 12 "B" false ∷ leaf_node 13 "C" true ∷ [];
  root_index = 0;
}

abbrev policy : Policy
policy = quorum true 2 (
    key_quorom.KeyTree.Arena.Policy.cons (holder true 11) (
      key_quorom.KeyTree.Arena.Policy.cons (holder false 12) (
        key_quorom.KeyTree.Arena.Policy.cons (holder true 13) key_quorom.KeyTree.Arena.Policy.nil)))

abbrev secret : Bytes
secret = 5 ∷ 6 ∷ []

abbrev raw : ℕ → Option Bytes
raw i = if i == 11 || i == 13 then some secret else none

raw-secret : (i : ℕ) (share : Bytes) → raw i ≡ some share → share ≡ secret
raw-secret i share e = elim (Bool-cases (i == 11 || i == 13)) [
  | inl y ↦ some-injective (sym (rw y at e))
  | inr n ↦ absurd (cc (rw n at e))
]

represented : Represents copying tree raw policy 0 secret
represented = (
  root,
  refl,
  refl,
  refl,
  refl,
  (omega arith, omega arith, omega arith),
  0,
  (
    (leaf_node 11 "A" true, refl, refl, 1, refl, refl, raw-secret 11),
    (
      (leaf_node 12 "B" false, refl, refl, 1, refl, refl, raw-secret 12),
      ((leaf_node 13 "C" true, refl, refl, 1, refl, refl, raw-secret 13), tt),
    ),
  ),
)

reconstruct_lem_example :
    reconstruct copying tree raw 2
    ≡ some (if met (is_supplied raw) policy then ok secret else err quorum_not_met)
reconstruct_lem_example =
    reconstruct_lem copying copying-IsShamir tree raw policy 2 secret represented (omega arith)
      (omega arith)

-- The quorum is met.
policy-met : met (is_supplied raw) policy ≡ true
policy-met = refl
