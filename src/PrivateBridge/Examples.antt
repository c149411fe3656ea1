-- ===== src/PrivateBridge/Examples.antt =====
-- A toy cipher and signature scheme, a package and a store, for the tests of src/private_bridge.rs.

use key_quorom.Prelude.{
  ℕ, zero, suc, Bytes, ◌≡◌, refl, none, some, true, false, List, [], ◌∷◌, ◌++◌, arith,
}
use key_quorom.Prelude.Equality.{nat_eq, list_eq}
use key_quorom.Error.{Result, ok, err}
use key_quorom.Signing.{is_utf8}
use key_quorom.Signing.BigEndian.{from_be}
use key_quorom.Signing.Reader.{push_len_prefixed, take_n, take_u8, take_array, take_len_prefixed}
use key_quorom.PrivateBridge.SortedMap.{put}
use key_quorom.PrivateBridge.Package.Maps.{
  push_member_map, push_members, push_party_map, push_parties, take_member_map, take_members,
  take_parties, take_party_map,
}
use key_quorom.Signing.Artifact.{BridgeSignature}
use key_quorom.Signing.Verify.{Ed25519}
use key_quorom.PrivateBridge.Roster.{CryptoBox, member, BridgeParty, as_str}
use key_quorom.PrivateBridge.Package.Auth.{
  update_auth_preimage, hash_len_prefixed, hash_u16_count, hash_members, hash_supervisors,
  DecodedPackage,
}
use key_quorom.PrivateBridge.Package.Letter.{
  encode_payload, decode_payload, take_auth, take_secret, PackageFields,
}
use key_quorom.PrivateBridge.Package.Envelope.{parse_kqpb_outer, encode_package, decode_package}
use key_quorom.PrivateBridge.Package.RoundTrip.{IsPackage, delivered}
use key_quorom.PrivateBridge.Store.{Store, PrivateBridgeRow, PartyRow}
use key_quorom.PrivateBridge.Summary.{BridgeSummary}
use key_quorom.PrivateBridge.Delivery.{Draws}
use key_quorom.PrivateBridge.Commit.{Moment}
use key_quorom.PrivateBridge.Removal.{PlannedRemoval, destroy}
use key_quorom.PrivateBridge.History.Runs.{Operation, revoking, importing}

abbrev pub repeated : ℕ → ℕ → Bytes
repeated zero b = []
repeated (suc n) b = b ∷ repeated n b

-- A signature is 64 zeros, and the digest the message.
abbrev pub toy : Ed25519
toy = record {
  is_key = λ key. true;
  public = λ seed. seed;
  sign_raw = λ seed m. repeated 64 0;
  verify_strict = λ key m s. true;
  sha256 = λ m. m;
  public-is_key = λ seed. refl;
  verify-sign = λ seed m. refl;
}

-- Nothing is hidden.
abbrev pub box : CryptoBox
box = record {
  x25519 = λ a b. b;
  public = λ secret. secret;
  seal = λ random key m. m;
  unseal = λ secret m. some m;
  unseal-seal = λ random secret m. refl;
}

abbrev pub ada : Bytes
ada = b'M' ∷ b'.' ∷ b'S' ∷ b'.' ∷ b'2' ∷ []

abbrev pub bob : Bytes
bob = b'M' ∷ b'.' ∷ b'S' ∷ b'.' ∷ b'3' ∷ []

abbrev pub boss : Bytes
boss = b'M' ∷ b'.' ∷ b'S' ∷ []

abbrev pub ada_key : Bytes
ada_key = repeated 32 1

abbrev pub bob_key : Bytes
bob_key = repeated 32 2

abbrev pub boss_key : Bytes
boss_key = repeated 32 3

-- A rotation package for ada.
abbrev pub fields : PackageFields
fields = record {
  kind = 2;
  uid = b'u' ∷ [];
  generation = 2;
  bridge_label = [];
  public_key = repeated 32 7;
  salt = repeated 16 8;
  recipient_label = ada;
  recipient_public_key = ada_key;
  role = member;
  members =
      (ada, record { encryption = ada_key; signing = ada_key })
      ∷ (bob, record { encryption = bob_key; signing = bob_key })
      ∷ [];
  supervisors = (boss, boss_key) ∷ [];
  removed_label = b'M' ∷ b'.' ∷ b'S' ∷ b'.' ∷ b'4' ∷ [];
  wrap_salt = some (repeated 16 9);
  secret = some (repeated 32 7);
  old_signing = some (repeated 32 6);
}

pub fields-IsPackage : IsPackage toy fields
unfolding is_utf8
fields-IsPackage = record {
  uid = refl;
  generation = omega arith;
  bridge_label = refl;
  public_key = refl;
  salt = refl;
  recipient_label = refl;
  recipient_public_key = refl;
  members = (refl, refl, refl, refl, (refl, refl, refl, refl, tt));
  members_sorted = (refl, (tt, tt));
  supervisors = (refl, refl, tt);
  supervisors_sorted = (tt, tt);
  removed_label = refl;
  secret = (refl, refl);
}

abbrev pub value_of : Result Bytes → Bytes
value_of (ok bytes) = bytes
value_of (err e) = []

unfoldable pub package_bytes : Bytes
package_bytes = value_of (encode_package toy box [] fields)

pub encodes : encode_package toy box [] fields ≡ ok package_bytes
unfolding encode_package encode_payload push_len_prefixed push_member_map push_members
    push_party_map push_parties update_auth_preimage hash_len_prefixed hash_u16_count hash_members
    hash_supervisors package_bytes
encodes = refl

abbrev pub decoded : DecodedPackage
decoded = delivered fields (some (repeated 64 0))

pub decodes : decode_package toy box package_bytes ada_key ≡ ok decoded
unfolding decode_package parse_kqpb_outer take_n take_u8 decode_payload take_auth take_secret
    take_member_map take_members take_parties take_party_map put from_be take_array
    take_len_prefixed is_utf8 encode_package encode_payload push_len_prefixed push_member_map
    push_members push_party_map push_parties update_auth_preimage hash_len_prefixed hash_u16_count
    hash_members hash_supervisors package_bytes
decodes = refl

abbrev pub row : PrivateBridgeRow
row = record {
  id = 1;
  uid = b'u' ∷ [];
  key_id = none;
  label = none;
  generation = 1;
  public_key = repeated 32 6;
  salt = repeated 16 5;
  destroyed_at = none;
}

abbrev pub destroyed_row : PrivateBridgeRow
destroyed_row = record row { destroyed_at = some 4 }

abbrev pub ada_row : PartyRow
ada_row = record {
  bridge_id = 1;
  node_label = ada;
  encryption_public_key = ada_key;
  signing_public_key = some ada_key;
  role = as_str member;
  is_local = true;
}

abbrev pub bob_row : PartyRow
bob_row = record {
  bridge_id = 1;
  node_label = bob;
  encryption_public_key = bob_key;
  signing_public_key = some bob_key;
  role = as_str member;
  is_local = false;
}

abbrev pub store : Store
store = record {
  keys = [];
  bridges = row ∷ [];
  parties = ada_row ∷ bob_row ∷ [];
  sealed =
      record {
        bridge_id = 1;
        node_label = ada;
        wrap_salt = repeated 16 9;
        wrapped_secret = repeated 16 9 ++ repeated 32 6;
      }
      ∷ [];
  events = [];
}

abbrev pub destroyed_store : Store
destroyed_store = record store { bridges = destroyed_row ∷ []; sealed = [] }

abbrev pub moment : Moment
moment = record { now = 5; wrap_salt = repeated 16 9; seal = [] }

abbrev pub operations : List Operation
operations = importing moment package_bytes ada_key ∷ revoking 6 bob ∷ []

abbrev pub signature : BridgeSignature
signature = record {
  uid = b'u' ∷ [];
  generation = 1;
  bridge_salt = repeated 16 5;
  signature_salt = repeated 16 4;
  signer_label = ada;
  signer_public_key = ada_key;
  bridge_signature = repeated 64 0;
  personal_signature = repeated 64 0;
}

abbrev pub draws : Draws
draws = record {
  hex_uid = b'v' ∷ [];
  salt = repeated 16 1;
  secret = repeated 32 8;
  wrap_salt = λ n. repeated 16 n;
  seal = λ n. [];
}

abbrev pub plan : PlannedRemoval
plan = record {
  outcome = record {
    uid = b'u' ∷ [];
    destroyed = true;
    remaining_members = ada ∷ [];
    packages = [];
  };
  kind = destroy (record {
    uid = b'u' ∷ [];
    bridge_id = 1;
    removed_label = bob;
    notify = [];
    expected_generation = 1;
  });
}

abbrev pub ada_party : BridgeParty
ada_party = record {
  label = ada;
  encryption_public_key = ada_key;
  signing_public_key = some ada_key;
  role = member;
  is_local = true;
  has_sealed_key = true;
}

abbrev pub bob_party : BridgeParty
bob_party = record {
  label = bob;
  encryption_public_key = bob_key;
  signing_public_key = some bob_key;
  role = member;
  is_local = false;
  has_sealed_key = false;
}

abbrev pub summary : BridgeSummary
summary = record {
  uid = b'u' ∷ [];
  key_id = none;
  label = none;
  generation = 1;
  public_key = repeated 32 6;
  salt = repeated 16 5;
  destroyed = false;
  parties = ada_party ∷ bob_party ∷ [];
}
