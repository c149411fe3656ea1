-- ===== src/PrivateBridge/Package/Auth.antt =====
-- What the old key of a bridge signs in an update, and its verification (src/private_bridge.rs).
use key_quorom.Prelude.{ℕ, Bytes, Option, [], ◌∷◌, ◌++◌, not, ltb, length}
use key_quorom.Prelude.Equality.{nat_eq, list_eq, list_beq}
use key_quorom.Error.{
  Result, ok, ◌>>=◌, ◌>>◌, guard, ok_or, bundle_field_too_large, invalid_bridge_package,
}
use key_quorom.Signing.BigEndian.{be16, be32}
use key_quorom.Signing.Verify.{Ed25519, verify_signature}
use key_quorom.PrivateBridge.SortedMap.{Map}
use key_quorom.PrivateBridge.Roster.{MemberKeys, PartyRole}

pub record DecodedPackage : Type 0 where
  pub kind : ℕ
  pub uid : Bytes
  pub generation : ℕ
  pub bridge_label : Bytes
  pub public_key : Bytes
  pub salt : Bytes
  pub recipient_label : Bytes
  pub recipient_public_key : Bytes
  pub role : PartyRole
  pub members : Map MemberKeys
  pub supervisors : Map Bytes
  pub removed_label : Bytes
  pub wrap_salt : Option Bytes
  pub secret : Option Bytes
  pub auth_sig : Option Bytes

-- b"KQBRIDGE-UPDATE-v1"
abbrev pub update_domain : Bytes
update_domain =
    b'K' ∷ b'Q' ∷ b'B' ∷ b'R' ∷ b'I' ∷ b'D' ∷ b'G' ∷ b'E' ∷ b'-' ∷ b'U' ∷ b'P' ∷ b'D' ∷ b'A' ∷ b'T'
    ∷ b'E' ∷ b'-' ∷ b'v' ∷ b'1' ∷ []

-- A hasher is the bytes that it was given so far.
unfoldable pub hash_len_prefixed : Bytes → Bytes → Result Bytes
hash_len_prefixed hasher bytes = do
  guard (ltb (length bytes) 65536) bundle_field_too_large
  ok (hasher ++ be16 (length bytes) ++ bytes)

unfoldable pub hash_u16_count : Bytes → ℕ → Result Bytes
hash_u16_count hasher n = do guard (ltb n 65536) bundle_field_too_large; ok (hasher ++ be16 n)

unfoldable pub hash_members : Bytes → Map MemberKeys → Result Bytes
hash_members hasher [] = ok hasher
hash_members hasher ((label, keys) ∷ map) = do
  guard (not (list_beq label [])) invalid_bridge_package
  hasher ← hash_len_prefixed hasher label
  hash_members (hasher ++ keys.encryption ++ keys.signing) map

unfoldable pub hash_supervisors : Bytes → Map Bytes → Result Bytes
hash_supervisors hasher [] = ok hasher
hash_supervisors hasher ((label, pk) ∷ map) = do
  guard (not (list_beq label [])) invalid_bridge_package
  hasher ← hash_len_prefixed hasher label
  hash_supervisors (hasher ++ pk) map

module _ (c : Ed25519) where
  unfoldable pub update_auth_preimage :
      Bytes → ℕ → ℕ → Bytes → Bytes → Bytes → Map MemberKeys → Map Bytes → Bytes → Result Bytes
  update_auth_preimage uid generation kind public_key salt recipient_label members supervisors
        removed_label =
      do
        hasher ← hash_len_prefixed update_domain uid
        hasher ←
            hash_len_prefixed (hasher ++ be32 generation ++ (kind ∷ []) ++ public_key ++ salt)
              recipient_label
        hasher ← hash_len_prefixed hasher removed_label
        hasher ← hash_u16_count hasher (length members)
        hasher ← hash_members hasher members
        hasher ← hash_u16_count hasher (length supervisors)
        hasher ← hash_supervisors hasher supervisors
        ok (c.sha256 hasher)

  unfoldable pub verify_update_auth : DecodedPackage → Bytes → Result (Unit {0})
  verify_update_auth decoded old_public = do
    sig ← ok_or decoded.auth_sig invalid_bridge_package
    preimage ←
        update_auth_preimage decoded.uid decoded.generation decoded.kind decoded.public_key
          decoded.salt decoded.recipient_label decoded.members decoded.supervisors
          decoded.removed_label
    verify_signature c old_public preimage sig
