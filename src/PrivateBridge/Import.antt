-- ===== src/PrivateBridge/Import.antt =====
-- Taking in a package that was delivered, and the operations that plan and commit at once
-- (src/private_bridge.rs).
use key_quorom.Prelude.{
  ℕ, ◌+◌, ◌%◌, Bytes, Option, none, some, List, [], Bool, true, false, not, ◌&&◌, ◌==◌,
  if◌then◌else◌,
}
use key_quorom.Prelude.Equality.{nat_eq, list_eq, list_beq}
use key_quorom.Error.{
  Result, ok, err, ◌>>=◌, ◌>>◌, guard, invalid_bridge_package, invalid_bridge, bridge_destroyed,
  bridge_generation_mismatch,
}
use key_quorom.Signing.Verify.{Ed25519}
use key_quorom.PrivateBridge.SortedMap.{Map, lookup}
use key_quorom.PrivateBridge.Roster.{
  CryptoBox, PartyRole, member, supervisor, MemberKeys, BridgePartyInput,
}
use key_quorom.PrivateBridge.Package.Auth.{DecodedPackage, verify_update_auth}
use key_quorom.PrivateBridge.Package.Envelope.{decode_package}
use key_quorom.PrivateBridge.Store.{
  Store, PrivateBridgeRow, is_set, has_uid, insert_bridge, insert_event, delete_parties,
  delete_sealed, update_bridges, set_destroyed, with_immediate_transaction,
}
use key_quorom.PrivateBridge.Summary.{BridgeSummary, get, get_optional, last_bridge_id}
use key_quorom.PrivateBridge.Delivery.{
  Draws, CreatedBridge, plan_create, kind_invite, kind_rotate, kind_destroy, kind_supervisor,
}
use key_quorom.PrivateBridge.Removal.{
  RemoveMemberOutcome, plan_remove_member, encryption_public_from_secret,
}
use key_quorom.PrivateBridge.Commit.{
  Moment, insert_member_parties, insert_supervisor_parties, insert_sealed_for, update_generation,
  commit_planned_creation, commit_planned_removal, returning,
}

abbrev pub empty_to_none : Bytes → Option Bytes
empty_to_none s = if list_beq s [] then none else some s

abbrev pub has_key : Bytes → Option Bytes → Result (Unit {0})
has_key expected none = err invalid_bridge_package
has_key expected (some pk) = guard (list_beq pk expected) invalid_bridge_package

abbrev pub encryption_of : Option MemberKeys → Option Bytes
encryption_of none = none
encryption_of (some keys) = some keys.encryption

-- The key that the roster has for the recipient in the role of the package.
abbrev pub roster_key : PartyRole → Bytes → Map MemberKeys → Map Bytes → Option Bytes
roster_key member label members supervisors = encryption_of (lookup label members)
roster_key supervisor label members supervisors = lookup label supervisors

unfoldable pub validate_decoded_recipient : DecodedPackage → Result (Unit {0})
validate_decoded_recipient d =
    has_key d.recipient_public_key (roster_key d.role d.recipient_label d.members d.supervisors)

abbrev pub is_live : Bytes → PrivateBridgeRow → Bool
is_live uid r = has_uid uid r && not (is_set r.destroyed_at)

-- A first supervisor package comes unsigned, as an invitation does.
abbrev pub is_invite : DecodedPackage → Bool
is_invite d =
    if d.kind == kind_invite
    then true
    else d.kind == kind_supervisor && (d.generation == 1 && not (is_set d.auth_sig))

-- What is stored stays stored if the summary then fails.
abbrev pub then_get : Result (Unit {0}) × Store → Bytes → Result BridgeSummary × Store
then_get (ok u, t) uid = (get t uid, t)
then_get (err e, t) uid = (err e, t)

module _ (c : Ed25519) (x : CryptoBox) (at_time : Moment) where
  abbrev pub seal_delivered :
      Store → ℕ → DecodedPackage → Option Bytes → Option Bytes → PartyRole → Result Store
  seal_delivered s bridge_id d (some wrap_salt) (some secret) member =
      insert_sealed_for x at_time s bridge_id d.recipient_label d.recipient_public_key wrap_salt
        secret
  seal_delivered s bridge_id d (some wrap_salt) (some secret) supervisor = ok s
  seal_delivered s bridge_id d (some wrap_salt) none role = ok s
  seal_delivered s bridge_id d none secret role = ok s

  unfoldable pub replace_roster_and_secret : Store → ℕ → DecodedPackage → Result Store
  replace_roster_and_secret s bridge_id d = do
    s ← insert_member_parties s bridge_id d.members (some d.recipient_label)
    s ← insert_supervisor_parties s bridge_id d.supervisors (some d.recipient_label)
    seal_delivered s bridge_id d d.wrap_salt d.secret d.role

  -- The transaction of `insert_from_invite`.
  unfoldable pub invite_body : Store → DecodedPackage → Result Store
  invite_body s d = do
    (bridge_id, s) ←
        insert_bridge s d.uid none (empty_to_none d.bridge_label) d.generation d.public_key d.salt
    s ← replace_roster_and_secret s bridge_id d
    insert_event s bridge_id "imported"

  unfoldable pub insert_from_invite : Store → DecodedPackage → Result Store
  insert_from_invite s d = do
    validate_decoded_recipient d
    guard (not (is_set (get_optional s d.uid))) invalid_bridge
    invite_body s d

  -- The transaction of `apply_rotate`, from the generation of the summary and the bridge's id.
  unfoldable pub rotate_body : Store → DecodedPackage → ℕ → ℕ → Result Store
  rotate_body s d generation bridge_id = do
    s ←
        update_generation x at_time s d.uid generation d.generation d.public_key d.salt
          (empty_to_none d.bridge_label)
    s ← replace_roster_and_secret (delete_sealed (delete_parties s bridge_id) bridge_id) bridge_id d
    insert_event s bridge_id "rotated"

  unfoldable pub apply_rotate : Store → DecodedPackage → Result Store
  apply_rotate s d = do
    validate_decoded_recipient d
    summary ← get s d.uid
    guard (not summary.destroyed) bridge_destroyed
    guard (d.generation == (summary.generation + 1) % 4294967296) bridge_generation_mismatch
    verify_update_auth c d summary.public_key
    bridge_id ← last_bridge_id s d.uid
    rotate_body s d summary.generation bridge_id

  -- The transaction of `apply_destroy`.
  unfoldable pub destroy_body : Store → DecodedPackage → ℕ → Result Store
  destroy_body s d bridge_id =
      insert_event
        (delete_sealed (update_bridges s (is_live d.uid) (set_destroyed at_time.now)) bridge_id)
        bridge_id "destroyed"

  -- A bridge that is destroyed already stays as it is.
  unfoldable pub apply_destroy : Store → DecodedPackage → Result Store
  apply_destroy s d = do
    summary ← get s d.uid
    elim summary.destroyed [
      | true ↦ ok s
      | false ↦ (do
        verify_update_auth c d summary.public_key
        bridge_id ← last_bridge_id s d.uid
        destroy_body s d bridge_id)
    ]

  unfoldable pub apply_package : Store → DecodedPackage → Result Store
  apply_package s d = elim (is_invite d) [
    | true ↦ insert_from_invite s d
    | false ↦ elim (d.kind == kind_rotate) [
      | true ↦ apply_rotate s d
      | false ↦ elim (d.kind == kind_supervisor) [
        | true ↦ apply_rotate s d
        | false ↦ elim (d.kind == kind_destroy) [
          | true ↦ apply_destroy s d
          | false ↦ err invalid_bridge_package
        ]
      ]
    ]
  ]

  unfoldable pub read_package : Bytes → Bytes → Result DecodedPackage
  read_package bytes recipient_secret = do
    decoded ← decode_package c x bytes recipient_secret
    guard (list_beq decoded.recipient_public_key (encryption_public_from_secret x recipient_secret))
        invalid_bridge_package
    ok decoded

  abbrev pub import_decoded : Store → Result DecodedPackage → Result BridgeSummary × Store
  import_decoded s (err e) = (err e, s)
  import_decoded s (ok d) = then_get (with_immediate_transaction s (apply_package s d)) d.uid

  unfoldable pub import_package : Store → Bytes → Bytes → Result BridgeSummary × Store
  import_package s bytes recipient_secret = import_decoded s (read_package bytes recipient_secret)

module _ (c : Ed25519) (x : CryptoBox) (at_time : Moment) (d : Draws) where
  unfoldable pub create :
      Store
      → Option ℕ
      → Option Bytes
      → List BridgePartyInput
      → List BridgePartyInput
      → Option Bytes
      → Result CreatedBridge × Store
  create s key_id label members supervisors local_label =
      elim (plan_create c x d key_id label members supervisors local_label) [
        | err e ↦ (err e, s)
        | ok planned ↦ returning (commit_planned_creation x at_time s planned) planned.created
      ]

  unfoldable pub remove_member :
      Store → Bytes → Bytes → Bytes → Bytes → Result RemoveMemberOutcome × Store
  remove_member s uid removed_label local_label encryption_sk =
      elim (plan_remove_member c x d s uid removed_label local_label encryption_sk) [
        | err e ↦ (err e, s)
        | ok planned ↦ returning (commit_planned_removal x at_time s planned) planned.outcome
      ]
