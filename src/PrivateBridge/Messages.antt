-- ===== src/PrivateBridge/Messages.antt =====
-- Signing a message with a bridge and verifying it, and the keys that a label is registered with
-- (src/private_bridge.rs).
pub mod Accepted
use key_quorom.Prelude.{
  ℕ, Bytes, ◌≡◌, Option, none, some, List, [], ◌∷◌, Bool, true, false, not, ◌&&◌, ◌==◌,
}
use key_quorom.Prelude.Equality.{nat_eq, list_eq, list_beq}
use key_quorom.Prelude.Sql.{select, select_all}
use key_quorom.Error.{
  Result, ok, err, ◌>>=◌, ◌>>◌, guard, ok_or, bridge_destroyed, not_bridge_member,
  sealed_key_not_held, integrity_check_failed, invalid_bridge, node_not_found, invalid_public_key,
  bridge_generation_mismatch,
}
use key_quorom.Signing.Artifact.{BridgeSignature}
use key_quorom.Signing.Verify.{Ed25519, sign_with_bridge, verify_bridge_signature}
use key_quorom.Keys.{HardwareKey, is_encryption, is_unrevoked}
use key_quorom.PrivateBridge.Roster.{CryptoBox, BridgeParty}
use key_quorom.PrivateBridge.Store.{Store, is_set}
use key_quorom.PrivateBridge.Summary.{BridgeSummary, get, vec_to_32}
use key_quorom.PrivateBridge.Removal.{
  member_named, encryption_public_from_secret, unseal_local_secret,
}

-- A row of hardware_keys with its label.
pub record LabelledKey : Type 0 where
  pub label : Bytes
  pub key : HardwareKey

-- A row of key_nodes, as far as the look-up reads it.
pub record LabelledLeaf : Type 0 where
  pub key_id : ℕ
  pub label : Bytes
  pub hardware_key_id : ℕ
  pub is_active : Bool

-- Exactly one key, checked by the second argument.
abbrev pub only_key : List LabelledKey → (Bytes → Result Bytes) → Result Bytes
only_key [] check = err node_not_found
only_key (k ∷ []) check = check k.key.public_key
only_key (k ∷ l ∷ rest) check = err invalid_bridge

abbrev pub is_signing_of : Bytes → LabelledKey → Bool
is_signing_of label k =
    list_beq k.label label && (not (is_encryption k.key.key_type) && is_unrevoked k.key.revoked_at)

abbrev pub is_encryption_of : Bytes → LabelledKey → Bool
is_encryption_of label k =
    list_beq k.label label && (is_encryption k.key.key_type && is_unrevoked k.key.revoked_at)

abbrev pub is_leaf_of : ℕ → Bytes → LabelledLeaf → Bool
is_leaf_of key_id label n = n.key_id == key_id && (list_beq n.label label && n.is_active)

-- The unrevoked key of a leaf.
abbrev pub is_key_of : ℕ → LabelledKey → Bool
is_key_of id k = k.key.id == id && is_unrevoked k.key.revoked_at

-- The join of the nodes with their keys.
unfoldable pub leaf_key : List LabelledLeaf → List LabelledKey → ℕ → Bytes → Option LabelledKey
leaf_key [] registered key_id label = none
leaf_key (n ∷ nodes) registered key_id label =
    elim (is_leaf_of key_id label n && is_set (select (is_key_of n.hardware_key_id) registered)) [
      | true ↦ select (is_key_of n.hardware_key_id) registered
      | false ↦ leaf_key nodes registered key_id label
    ]

abbrev pub leaf_of_tree :
    Option ℕ → List LabelledLeaf → List LabelledKey → Bytes → Option LabelledKey
leaf_of_tree none nodes registered label = none
leaf_of_tree (some key_id) nodes registered label = leaf_key nodes registered key_id label

unfoldable pub encryption_public_for_label :
    List LabelledLeaf → List LabelledKey → Option ℕ → Bytes → Result Bytes
encryption_public_for_label nodes registered key_id label =
    elim (leaf_of_tree key_id nodes registered label) [
      | some k ↦ vec_to_32 k.key.public_key
      | none ↦ only_key (select_all (is_encryption_of label) registered) vec_to_32
    ]

module _ (c : Ed25519) where
  abbrev pub checked_signing : Bytes → Result Bytes
  checked_signing bytes = do pk ← vec_to_32 bytes; guard (c.is_key pk) invalid_public_key; ok pk

  unfoldable pub signing_public_for_label : List LabelledKey → Bytes → Result Bytes
  signing_public_for_label registered label =
      only_key (select_all (is_signing_of label) registered) checked_signing

  -- A key that this store has registered for the label is the roster's.
  abbrev pub check_registered : Bytes → Result Bytes → Result (Unit {0})
  check_registered roster_signing (ok registered) =
      guard (list_beq registered roster_signing) integrity_check_failed
  check_registered roster_signing (err node_not_found) = ok tt
  check_registered roster_signing (err e) = err e

  -- The last argument is the random salt.
  unfoldable pub sign_message :
      CryptoBox
      → Store
      → List LabelledKey
      → Bytes
      → Bytes
      → Bytes
      → Bytes
      → Bytes
      → Bytes
      → Result BridgeSignature
  sign_message x s registered uid local_label encryption_sk signing_sk message salt = do
    summary ← get s uid
    guard (not summary.destroyed) bridge_destroyed
    signer ← ok_or (select (member_named local_label) summary.parties) not_bridge_member
    guard signer.has_sealed_key sealed_key_not_held
    guard (list_beq (encryption_public_from_secret x encryption_sk) signer.encryption_public_key)
        integrity_check_failed
    roster_signing ← ok_or signer.signing_public_key invalid_bridge
    guard (list_beq (c.public signing_sk) roster_signing) integrity_check_failed
    check_registered roster_signing (signing_public_for_label registered local_label)
    bridge_sk ← unseal_local_secret x s uid local_label encryption_sk
    sign_with_bridge c uid summary.generation summary.salt local_label bridge_sk signing_sk message
        salt

  unfoldable pub verify_message :
      Store → List LabelledKey → Bytes → Bytes → Bytes → BridgeSignature → Result (Unit {0})
  verify_message s registered uid verifier_label message a = do
    summary ← get s uid
    guard (not summary.destroyed) bridge_destroyed
    guard (list_beq a.uid uid && (a.generation == summary.generation)) bridge_generation_mismatch
    guard (list_beq a.bridge_salt summary.salt) bridge_generation_mismatch
    signer ← ok_or (select (member_named a.signer_label) summary.parties) not_bridge_member
    guard (is_set (select (member_named verifier_label) summary.parties)) not_bridge_member
    roster_signing ← ok_or signer.signing_public_key invalid_bridge
    check_registered roster_signing (signing_public_for_label registered a.signer_label)
    verify_bridge_signature c a summary.public_key roster_signing message
