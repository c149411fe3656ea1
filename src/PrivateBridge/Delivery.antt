-- ===== src/PrivateBridge/Delivery.antt =====
-- The packages for the stores of a roster, and a bridge that is planned but not yet stored
-- (src/private_bridge.rs). Randomness is an argument: the random bytes are drawn by recipient.
use key_quorom.Prelude.{
  ℕ, suc, Bytes, Option, none, some, List, [], ◌∷◌, ◌++◌, Bool, true, not, ◌||◌, ltb, length,
}
use key_quorom.Error.{Result, ok, ◌>>=◌, ◌>>◌, guard, too_few_bridge_members, not_bridge_member}
use key_quorom.Signing.Verify.{Ed25519}
use key_quorom.PrivateBridge.SortedMap.{Map, contains_key}
use key_quorom.PrivateBridge.Roster.{
  CryptoBox, PartyRole, member, supervisor, MemberKeys, BridgePartyInput, unique_members,
  unique_supervisors, fill_implied_supervisors,
}
use key_quorom.PrivateBridge.Package.Letter.{PackageFields}
use key_quorom.PrivateBridge.Package.Envelope.{encode_package}

pub record DeliveryPackage : Type 0 where
  pub label : Bytes
  pub role : PartyRole
  pub recipient_public_key : Bytes
  pub bytes : Bytes

pub record CreatedBridge : Type 0 where
  pub uid : Bytes
  pub generation : ℕ
  pub public_key : Bytes
  pub salt : Bytes
  pub packages : List DeliveryPackage

pub record PlannedCreation : Type 0 where
  pub created : CreatedBridge
  pub key_id : Option ℕ
  pub label : Option Bytes
  pub members : Map MemberKeys
  pub supervisors : Map Bytes
  pub local_label : Option Bytes
  pub secret : Bytes

-- What the operating system's generator gives one operation. `hex_uid` is the hexadecimal text of
-- its salt.
pub record Draws : Type 0 where
  pub hex_uid : Bytes
  pub salt : Bytes
  pub secret : Bytes
  pub wrap_salt : ℕ → Bytes
  pub seal : ℕ → Bytes

abbrev pub kind_invite : ℕ
kind_invite = 1

abbrev pub kind_rotate : ℕ
kind_rotate = 2

abbrev pub kind_destroy : ℕ
kind_destroy = 3

abbrev pub kind_supervisor : ℕ
kind_supervisor = 4

-- `secret.map(|_| random_salt())`
abbrev pub wrap_for : Option Bytes → Bytes → Option Bytes
wrap_for none salt = none
wrap_for (some secret) salt = some salt

abbrev pub unwrap_or_empty : Option Bytes → Bytes
unwrap_or_empty none = []
unwrap_or_empty (some label) = label

abbrev pub local_known : Option Bytes → Map MemberKeys → Map Bytes → Bool
local_known none members supervisors = true
local_known (some local) members supervisors =
    contains_key local members || contains_key local supervisors

module _ (c : Ed25519) (x : CryptoBox) (d : Draws) where
  -- `f` holds the fields that all packages share; the number counts the packages made.
  unfoldable pub member_packages :
      PackageFields → ℕ → Map MemberKeys → Result (List DeliveryPackage)
  member_packages f n [] = ok []
  member_packages f n ((label, keys) ∷ rest) = do
    bytes ← encode_package c x (d.seal n) (record f {
      recipient_label = label;
      recipient_public_key = keys.encryption;
      role = member;
      wrap_salt = wrap_for f.secret (d.wrap_salt n);
    })
    packages ← member_packages f (suc n) rest
    let delivery : DeliveryPackage = record {
      label = label;
      role = member;
      recipient_public_key = keys.encryption;
      bytes = bytes;
    }
    ok (delivery ∷ packages)

  unfoldable pub supervisor_packages : PackageFields → ℕ → Map Bytes → Result (List DeliveryPackage)
  supervisor_packages f n [] = ok []
  supervisor_packages f n ((label, pk) ∷ rest) = do
    bytes ← encode_package c x (d.seal n) (record f {
      recipient_label = label;
      recipient_public_key = pk;
      role = supervisor;
      wrap_salt = none;
      secret = none;
    })
    packages ← supervisor_packages f (suc n) rest
    let delivery : DeliveryPackage = record {
      label = label;
      role = supervisor;
      recipient_public_key = pk;
      bytes = bytes;
    }
    ok (delivery ∷ packages)

  -- The kind of `f` is the members'; the supervisors have the second argument's.
  unfoldable pub packages_for_roster : PackageFields → ℕ → Result (List DeliveryPackage)
  packages_for_roster f supervisor_kind = do
    to_members ← member_packages f 0 f.members
    to_supervisors ←
        supervisor_packages (record f { kind = supervisor_kind }) (length f.members) f.supervisors
    ok (to_members ++ to_supervisors)

  -- `f` holds the shared fields, with the old signing key; the number counts the packages made.
  unfoldable pub destroy_package_for :
      PackageFields → ℕ → Bytes → Bytes → PartyRole → Result DeliveryPackage
  destroy_package_for f n recipient_label recipient_pk recipient_role = do
    bytes ← encode_package c x (d.seal n) (record f {
      kind = kind_destroy;
      recipient_label = recipient_label;
      recipient_public_key = recipient_pk;
      role = recipient_role;
      wrap_salt = none;
      secret = none;
    })
    ok (record {
      label = recipient_label;
      role = recipient_role;
      recipient_public_key = recipient_pk;
      bytes = bytes;
    })

  unfoldable pub plan_create :
      Option ℕ
      → Option Bytes
      → List BridgePartyInput
      → List BridgePartyInput
      → Option Bytes
      → Result PlannedCreation
  plan_create key_id label members supervisors local_label = do
    members ← unique_members c x members []
    guard (not (ltb (length members) 2)) too_few_bridge_members
    supervisors ← unique_supervisors c x supervisors []
    supervisors ← fill_implied_supervisors members supervisors
    guard (local_known local_label members supervisors) not_bridge_member
    let public_key = c.public d.secret
    let shared : PackageFields = record {
      kind = kind_invite;
      uid = d.hex_uid;
      generation = 1;
      bridge_label = unwrap_or_empty label;
      public_key = public_key;
      salt = d.salt;
      recipient_label = [];
      recipient_public_key = [];
      role = member;
      members = members;
      supervisors = supervisors;
      removed_label = [];
      wrap_salt = none;
      secret = some d.secret;
      old_signing = none;
    }
    packages ← packages_for_roster shared kind_supervisor
    let created : CreatedBridge = record {
      uid = d.hex_uid;
      generation = 1;
      public_key = public_key;
      salt = d.salt;
      packages = packages;
    }
    ok (record {
      created = created;
      key_id = key_id;
      label = label;
      members = members;
      supervisors = supervisors;
      local_label = local_label;
      secret = d.secret;
    })
