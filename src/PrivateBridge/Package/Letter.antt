-- ===== src/PrivateBridge/Package/Letter.antt =====
-- The letter of a package, before it is sealed (src/private_bridge.rs).
use key_quorom.Prelude.{ℕ, Bytes, Option, none, some, [], ◌∷◌, ◌++◌, ◌==◌, Bool, true, false, not}
use key_quorom.Prelude.Equality.{nat_eq, list_eq, list_beq}
use key_quorom.Error.{Result, ok, ◌>>=◌, ◌>>◌, guard, invalid_bridge_package}
use key_quorom.Signing.{is_utf8}
use key_quorom.Signing.BigEndian.{be32, from_be}
use key_quorom.Signing.Reader.{push_len_prefixed, take_u8, take_array, take_len_prefixed}
use key_quorom.Signing.Artifact.{salt_len}
use key_quorom.Signing.Verify.{Ed25519}
use key_quorom.PrivateBridge.SortedMap.{Map}
use key_quorom.PrivateBridge.Roster.{MemberKeys, PartyRole, to_u8, from_u8}
use key_quorom.PrivateBridge.Package.Maps.{
  push_member_map, push_party_map, take_member_map, take_party_map,
}
use key_quorom.PrivateBridge.Package.Auth.{DecodedPackage, update_auth_preimage}

-- `old_signing` is the seed of the signing key.
pub record PackageFields : Type 0 where
  pub kind : ℕ
  pub uid : Bytes
  pub generation : ℕ
  pub bridge_label : Bytes
  pub public_key : Bytes
  pub salt : Bytes
  pub recipient_label : Bytes
  pub recipient_public_key : Bytes
  pub role : PartyRole
  pub members : Map MemberKeys
  pub supervisors : Map Bytes
  pub removed_label : Bytes
  pub wrap_salt : Option Bytes
  pub secret : Option Bytes
  pub old_signing : Option Bytes

-- The flag is of the secret alone; the bytes need the salt too.
abbrev pub secret_bytes : Option Bytes → Option Bytes → Bytes
secret_bytes wrap none = 0 ∷ []
secret_bytes none (some secret) = 1 ∷ []
secret_bytes (some wrap) (some secret) = (1 ∷ wrap) ++ secret

abbrev pub take_secret_if : Bool → Bytes → Result ((Option Bytes × Option Bytes) × Bytes)
take_secret_if false payload = ok ((none, none), payload)
take_secret_if true payload = do
  (wrap, payload) ← take_array salt_len payload
  (sk, payload) ← take_array 32 payload
  ok ((some wrap, some sk), payload)

unfoldable pub take_secret : Bytes → Result ((Option Bytes × Option Bytes) × Bytes)
take_secret payload = do
  (has_secret, payload) ← take_u8 payload
  take_secret_if (not (has_secret == 0)) payload

abbrev pub take_auth_if : Bool → Bytes → Result (Option Bytes × Bytes)
take_auth_if false payload = ok (none, payload)
take_auth_if true payload = do (sig, payload) ← take_array 64 payload; ok (some sig, payload)

unfoldable pub take_auth : Bytes → Result (Option Bytes × Bytes)
take_auth payload = do
  (has_auth, payload) ← take_u8 payload
  take_auth_if (not (has_auth == 0)) payload

abbrev pub auth_bytes : Option Bytes → Bytes
auth_bytes none = 0 ∷ []
auth_bytes (some sig) = 1 ∷ sig

module _ (c : Ed25519) where
  abbrev pub sign_update : PackageFields → Option Bytes → Result (Option Bytes)
  sign_update f none = ok none
  sign_update f (some seed) = do
    preimage ←
        update_auth_preimage c f.uid f.generation f.kind f.public_key f.salt f.recipient_label
          f.members f.supervisors f.removed_label
    ok (some (c.sign_raw seed preimage))

  unfoldable pub encode_payload : PackageFields → Result Bytes
  encode_payload f = do
    payload ← push_len_prefixed [] f.uid
    payload ← push_len_prefixed (payload ++ be32 f.generation) f.bridge_label
    payload ← push_len_prefixed (payload ++ f.public_key ++ f.salt) f.recipient_label
    payload ← push_member_map (payload ++ (to_u8 f.role ∷ [])) f.members
    payload ← push_party_map payload f.supervisors
    payload ← push_len_prefixed payload f.removed_label
    sig ← sign_update f f.old_signing
    ok (payload ++ secret_bytes f.wrap_salt f.secret ++ auth_bytes sig)

  -- The kind and the recipient's key come from the outer header.
  unfoldable pub decode_payload : ℕ → Bytes → Bytes → Result DecodedPackage
  decode_payload kind recipient_public_key payload = do
    (uid, payload) ← take_len_prefixed payload
    guard (is_utf8 uid) invalid_bridge_package
    (generation, payload) ← take_array 4 payload
    (bridge_label, payload) ← take_len_prefixed payload
    guard (is_utf8 bridge_label) invalid_bridge_package
    (public_key, payload) ← take_array 32 payload
    (salt, payload) ← take_array salt_len payload
    (recipient_label, payload) ← take_len_prefixed payload
    guard (is_utf8 recipient_label) invalid_bridge_package
    (role_byte, payload) ← take_u8 payload
    role ← from_u8 role_byte
    (members, payload) ← take_member_map c payload
    (supervisors, payload) ← take_party_map payload
    (removed_label, payload) ← take_len_prefixed payload
    guard (is_utf8 removed_label) invalid_bridge_package
    (sealed, payload) ← take_secret payload
    (auth_sig, payload) ← take_auth payload
    guard (list_beq payload []) invalid_bridge_package
    ok (record {
      kind = kind;
      uid = uid;
      generation = from_be 0 generation;
      bridge_label = bridge_label;
      public_key = public_key;
      salt = salt;
      recipient_label = recipient_label;
      recipient_public_key = recipient_public_key;
      role = role;
      members = members;
      supervisors = supervisors;
      removed_label = removed_label;
      wrap_salt = sealed.0;
      secret = sealed.1;
      auth_sig = auth_sig;
    })
