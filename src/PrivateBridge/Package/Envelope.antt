-- ===== src/PrivateBridge/Package/Envelope.antt =====
-- The outer format of a package, and sealing it (src/private_bridge.rs).
use key_quorom.Prelude.{ℕ, Bytes, [], ◌∷◌, ◌++◌, ◌==◌, not, ltb, length}
use key_quorom.Prelude.Equality.{nat_eq, list_eq, list_beq}
use key_quorom.Error.{
  Result, ok, ◌>>=◌, ◌>>◌, guard, ok_or, bundle_field_too_large, invalid_bridge_package,
  invalid_public_key,
}
use key_quorom.Signing.BigEndian.{be32, from_be}
use key_quorom.Signing.Reader.{take_u8, take_n, take_array}
use key_quorom.Signing.Verify.{Ed25519}
use key_quorom.PrivateBridge.Roster.{CryptoBox, is_weak_x25519_public_key}
use key_quorom.PrivateBridge.Package.Auth.{DecodedPackage}
use key_quorom.PrivateBridge.Package.Letter.{PackageFields, encode_payload, decode_payload}

-- b"KQPB"
abbrev pub package_magic : Bytes
package_magic = b'K' ∷ b'Q' ∷ b'P' ∷ b'B' ∷ []

abbrev pub format_version : ℕ
format_version = 2

-- The kind, the recipient's key and the sealed letter.
unfoldable pub parse_kqpb_outer : Bytes → Result (ℕ × Bytes × Bytes)
parse_kqpb_outer bytes = do
  (magic, rest) ← take_n 4 bytes
  guard (list_beq magic package_magic) invalid_bridge_package
  (version, rest) ← take_u8 rest
  guard (version == format_version) invalid_bridge_package
  (kind, rest) ← take_u8 rest
  (recipient_public_key, rest) ← take_array 32 rest
  (payload_len, rest) ← take_array 4 rest
  (sealed, rest) ← take_n (from_be 0 payload_len) rest
  guard (list_beq rest []) invalid_bridge_package
  ok (kind, recipient_public_key, sealed)

unfoldable pub routing_public_key : Bytes → Result Bytes
routing_public_key bytes = do
  (kind, recipient_public_key, sealed) ← parse_kqpb_outer bytes
  ok recipient_public_key

module _ (c : Ed25519) (x : CryptoBox) where
  -- The first argument is the randomness of the seal.
  unfoldable pub encode_package : Bytes → PackageFields → Result Bytes
  encode_package random f = do
    guard (not (is_weak_x25519_public_key x f.recipient_public_key)) invalid_public_key
    payload ← encode_payload c f
    let sealed = x.seal random f.recipient_public_key payload
    guard (ltb (length sealed) 4294967296) bundle_field_too_large
    ok (
        package_magic
        ++ (format_version ∷ f.kind ∷ [])
        ++ f.recipient_public_key
        ++ be32 (length sealed)
        ++ sealed)

  unfoldable pub decode_package : Bytes → Bytes → Result DecodedPackage
  decode_package bytes recipient_sk = do
    (kind, recipient_public_key, sealed) ← parse_kqpb_outer bytes
    payload ← ok_or (x.unseal recipient_sk sealed) invalid_bridge_package
    decode_payload c kind recipient_public_key payload

module _ (x : CryptoBox) where
  -- The first argument is the randomness of the seal.
  unfoldable pub seal_secret : Bytes → Bytes → Bytes → Bytes → Result Bytes
  seal_secret random recipient_pub wrap_salt secret = do
    guard (not (is_weak_x25519_public_key x recipient_pub)) invalid_public_key
    ok (x.seal random recipient_pub (wrap_salt ++ secret))
