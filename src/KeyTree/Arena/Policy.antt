-- ===== src/KeyTree/Arena/Policy.antt =====
-- The policy that a split tree stands for, and what it is for an arena to hold the shares of a
-- secret dealt by that policy (src/key_tree.rs).
use key_quorom.Prelude.{
  ℕ, suc, Bytes, ◌≤◌, ◌<◌, ◌≡◌, Bool, true, false, ◌&&◌, Option, none, some, List, [], ◌∷◌, leb,
  if◌then◌else◌, length, get_elem?, max,
}
use key_quorom.Prelude.Equality.{list_eq, nat_eq, ◌∈◌}
use key_quorom.KeyTree.Arena.Sublists.{Sublist}
use key_quorom.KeyTree.Arena.{KeyNode, KeyQuorumTree, Shamir}

-- A leaf names the holder's node; each node is active or not.
mutual
  pub data Policy : Type 0 where
    holder : Bool → ℕ → Policy
    quorum : Bool → ℕ → Policies → Policy

  pub data Policies : Type 0 where
    nil : Policies
    cons : Policy → Policies → Policies

abbrev mutual
  -- The policy is met by a set of holders.
  pub met : (ℕ → Bool) → Policy → Bool
  met supplied (holder active id) = active && supplied id
  met supplied (quorum active t cs) = active && leb t (count_met supplied cs)

  pub count_met : (ℕ → Bool) → Policies → ℕ
  count_met supplied nil = 0
  count_met supplied (cons c cs) =
      let rest = count_met supplied cs in if met supplied c then suc rest else rest

abbrev mutual
  pub depth : Policy → ℕ
  depth (holder active id) = 1
  depth (quorum active t cs) = suc (depth_all cs)

  pub depth_all : Policies → ℕ
  depth_all nil = 0
  depth_all (cons c cs) = max (depth c) (depth_all cs)

abbrev pub count_policies : Policies → ℕ
count_policies nil = 0
count_policies (cons c cs) = suc (count_policies cs)

-- What `blahaj` documents: for a threshold and a number of shares from 1 to 255, the encoding of a
-- dealt share of a secret that is not empty reads back, and any `t` of the shares or more recover
-- the secret.
pub record IsShamir (s : Shamir) : Type 0 where
  pub reads :
      (t : ℕ) (secret : Bytes) (randomness n : ℕ) (share : Bytes)
      → 0 < length secret
      → share ∈ s.deal t secret randomness n
      → (s.is_share share ≡ true) × (0 < length share)
  pub recovers :
      (t : ℕ) (secret : Bytes) (randomness n : ℕ) (shares : List Bytes)
      → 0 < length secret
      → (0 < t) × (t ≤ n) × (n ≤ 255)
      → Sublist shares (s.deal t secret randomness n)
      → t ≤ length shares
      → s.recover t shares ≡ some secret

abbrev pub is_some : Option Bytes → Bool
is_some none = false
is_some (some share) = true

abbrev pub is_supplied : (ℕ → Option Bytes) → ℕ → Bool
is_supplied raw id = is_some (raw id)

module _ (shamir : Shamir) (tree : KeyQuorumTree) (raw_shares : ℕ → Option Bytes) where
  abbrev mutual
    -- The node at the index stands for the policy, the shares of `value` are dealt below it, and a
    -- raw share that is supplied is the holder's.
    pub Represents : Policy → ℕ → Bytes → Type 0
    Represents (holder active id) i value =
        (node : KeyNode) × (get_elem? tree.nodes i ≡ some node)
        × (node.is_active ≡ active)
        × (k : ℕ) × (node.hardware_key_id ≡ some k)
        × (node.db_id ≡ id)
        × ((share : Bytes) → raw_shares id ≡ some share → share ≡ value)
    Represents (quorum active t cs) i value =
        (node : KeyNode) × (get_elem? tree.nodes i ≡ some node)
        × (node.is_active ≡ active)
        × (node.hardware_key_id ≡ none)
        × (node.threshold ≡ some t)
        × ((0 < t) × (t ≤ count_policies cs) × (count_policies cs ≤ 255))
        × (randomness : ℕ) × RepresentsAll cs node.children_indices
            (shamir.deal t value randomness (count_policies cs))

    pub RepresentsAll : Policies → List ℕ → List Bytes → Type 0
    RepresentsAll nil [] [] = Unit
    RepresentsAll (cons c cs) (i ∷ is) (share ∷ shares) =
        Represents c i share × RepresentsAll cs is shares
    RepresentsAll nil _ _ = ⊥
    RepresentsAll (cons c cs) _ _ = ⊥
