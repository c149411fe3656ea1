-- ===== src/PrivateBridge/Removal.antt =====
-- Dropping a member: the new roster with its packages, planned before anything is stored
-- (src/private_bridge.rs). A generation is a u32 whose increment wraps around.
use key_quorom.Prelude.{
  ℕ, suc, ◌+◌, ◌%◌, Bytes, none, some, List, [], ◌∷◌, ◌++◌, Bool, true, false, not, ◌||◌, ◌&&◌,
  ◌==◌, ltb, length, take, drop,
}
use key_quorom.Prelude.Equality.{nat_eq, list_eq, list_beq}
use key_quorom.Prelude.Sql.{select, select_all}
use key_quorom.Error.{
  Result, ok, ◌>>=◌, ◌>>◌, guard, ok_or, bridge_destroyed, invalid_bridge, sealed_key_not_held,
  integrity_check_failed, not_bridge_member, db,
}
use key_quorom.Signing.Artifact.{salt_len}
use key_quorom.Signing.Verify.{Ed25519}
use key_quorom.PrivateBridge.SortedMap.{Map, contains_key, keys}
use key_quorom.PrivateBridge.Labels.{notify_labels}
use key_quorom.PrivateBridge.Roster.{
  CryptoBox, member, MemberKeys, BridgeParty, is_member, supervisor_pubs_for, remaining_members,
}
use key_quorom.PrivateBridge.Package.Letter.{PackageFields}
use key_quorom.PrivateBridge.Store.{Store, sealed_named, is_set}
use key_quorom.PrivateBridge.Summary.{BridgeSummary, get, last_bridge_id, vec_to_salt}
use key_quorom.PrivateBridge.Delivery.{
  DeliveryPackage, Draws, kind_rotate, kind_supervisor, kind_destroy, unwrap_or_empty,
  packages_for_roster, destroy_package_for,
}

pub record RemoveMemberOutcome : Type 0 where
  pub uid : Bytes
  pub destroyed : Bool
  pub remaining_members : List Bytes
  pub packages : List DeliveryPackage

pub record PlannedDestroy : Type 0 where
  pub uid : Bytes
  pub bridge_id : ℕ
  pub removed_label : Bytes
  pub notify : List Bytes
  pub expected_generation : ℕ

pub record PlannedRotate : Type 0 where
  pub uid : Bytes
  pub bridge_id : ℕ
  pub removed_label : Bytes
  pub notify : List Bytes
  pub local_label : Bytes
  pub expected_generation : ℕ
  pub new_generation : ℕ
  pub new_public : Bytes
  pub new_salt : Bytes
  pub members : Map MemberKeys
  pub supervisors : Map Bytes
  pub new_secret : Bytes

pub data PlannedRemovalKind : Type 0 where
  destroy : PlannedDestroy → PlannedRemovalKind
  rotate : PlannedRotate → PlannedRemovalKind

pub record PlannedRemoval : Type 0 where
  pub outcome : RemoveMemberOutcome
  pub kind : PlannedRemovalKind

-- `p.role == Member && p.label == label`
abbrev pub member_named : Bytes → BridgeParty → Bool
member_named label p = list_beq p.label label && is_member p.role

-- The labels of the members of a roster.
unfoldable pub member_labels : List BridgeParty → List Bytes
member_labels [] = []
member_labels (p ∷ ps) = elim (is_member p.role) [
  | true ↦ p.label ∷ member_labels ps
  | false ↦ member_labels ps
]

module _ (x : CryptoBox) where
  abbrev pub encryption_public_from_secret : Bytes → Bytes
  encryption_public_from_secret secret = x.public secret

  -- A missing row is an error of SQLite.
  unfoldable pub unseal_local_secret : Store → Bytes → Bytes → Bytes → Result Bytes
  unseal_local_secret s uid local_label encryption_sk = do
    bridge_id ← last_bridge_id s uid
    row ← ok_or (select (sealed_named bridge_id local_label) s.sealed) db
    wrap_salt ← vec_to_salt row.wrap_salt
    plain ← ok_or (x.unseal encryption_sk row.wrapped_secret) integrity_check_failed
    guard (length plain == salt_len + 32 && list_beq (take salt_len plain) wrap_salt)
        integrity_check_failed
    ok (drop salt_len plain)

-- The parties that the new roster leaves out.
unfoldable pub dropped_parties : Map MemberKeys → Map Bytes → List BridgeParty → List BridgeParty
dropped_parties members supervisors parties =
    select_all
      (λ (p : BridgeParty). not (contains_key p.label members || contains_key p.label supervisors))
      parties

module _ (c : Ed25519) (x : CryptoBox) (d : Draws) where
  -- The destroy notices for the parties, the number counting the packages made.
  unfoldable pub notices_for_all :
      PackageFields → ℕ → List BridgeParty → Result (List DeliveryPackage)
  notices_for_all f n [] = ok []
  notices_for_all f n (party ∷ parties) = do
    notice ← destroy_package_for c x d f n party.label party.encryption_public_key party.role
    notices ← notices_for_all f (suc n) parties
    ok (notice ∷ notices)

  -- Fewer than two members are left.
  unfoldable pub plan_destroy :
      BridgeSummary
      → Bytes
      → ℕ
      → List Bytes
      → Map MemberKeys
      → PackageFields
      → Result PlannedRemoval
  plan_destroy summary removed_label bridge_id notify members current = do
    packages ← notices_for_all current 0 summary.parties
    let outcome : RemoveMemberOutcome = record {
      uid = summary.uid;
      destroyed = true;
      remaining_members = keys members;
      packages = packages;
    }
    ok (record {
      outcome = outcome;
      kind = destroy (record {
        uid = summary.uid;
        bridge_id = bridge_id;
        removed_label = removed_label;
        notify = notify;
        expected_generation = summary.generation;
      });
    })

  -- What the packages of the next generation share.
  abbrev pub renewed : BridgeSummary → PackageFields → PackageFields
  renewed summary current = record current {
    kind = kind_rotate;
    generation = (summary.generation + 1) % 4294967296;
    public_key = c.public d.secret;
    salt = d.salt;
    secret = some d.secret;
  }

  unfoldable pub plan_rotate :
      BridgeSummary
      → Bytes
      → Bytes
      → ℕ
      → List Bytes
      → Map MemberKeys
      → Map Bytes
      → PackageFields
      → Result PlannedRemoval
  plan_rotate summary removed_label local_label bridge_id notify members supervisors current = do
    packages ← packages_for_roster c x d (renewed summary current) kind_supervisor
    notices ←
        notices_for_all current (length packages)
          (dropped_parties members supervisors summary.parties)
    let outcome : RemoveMemberOutcome = record {
      uid = summary.uid;
      destroyed = false;
      remaining_members = keys members;
      packages = packages ++ notices;
    }
    ok (record {
      outcome = outcome;
      kind = rotate (record {
        uid = summary.uid;
        bridge_id = bridge_id;
        removed_label = removed_label;
        notify = notify;
        local_label = local_label;
        expected_generation = summary.generation;
        new_generation = (summary.generation + 1) % 4294967296;
        new_public = c.public d.secret;
        new_salt = d.salt;
        members = members;
        supervisors = supervisors;
        new_secret = d.secret;
      });
    })

  unfoldable pub plan_remove_member : Store → Bytes → Bytes → Bytes → Bytes → Result PlannedRemoval
  plan_remove_member s uid removed_label local_label encryption_sk = do
    summary ← get s uid
    guard (not summary.destroyed) bridge_destroyed
    guard (not (list_beq local_label removed_label)) invalid_bridge
    holder ←
        ok_or
          (select (λ (p : BridgeParty). member_named local_label p && p.has_sealed_key)
            summary.parties)
          sealed_key_not_held
    guard (list_beq (encryption_public_from_secret x encryption_sk) holder.encryption_public_key)
        integrity_check_failed
    guard (is_set (select (member_named removed_label) summary.parties)) not_bridge_member
    secret ← unseal_local_secret x s uid local_label encryption_sk
    members ← remaining_members summary.parties removed_label []
    let notify = notify_labels (member_labels summary.parties)
    bridge_id ← last_bridge_id s uid
    let supervisors = supervisor_pubs_for members summary.parties
    let current : PackageFields = record {
      kind = kind_destroy;
      uid = uid;
      generation = summary.generation;
      bridge_label = unwrap_or_empty summary.label;
      public_key = summary.public_key;
      salt = summary.salt;
      recipient_label = [];
      recipient_public_key = [];
      role = member;
      members = members;
      supervisors = supervisors;
      removed_label = removed_label;
      wrap_salt = none;
      secret = none;
      old_signing = some secret;
    }
    elim (ltb (length members) 2) [
      | true ↦ plan_destroy summary removed_label bridge_id notify members current
      | false ↦
          plan_rotate summary removed_label local_label bridge_id notify members supervisors current
    ]
