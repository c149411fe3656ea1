-- ===== src/Signing/Artifact.antt =====
-- The artifact and its encoding (src/signing.rs).
use key_quorom.Prelude.{ℕ, Bytes, ◌<◌, ◌≡◌, true, [], ◌∷◌, ◌++◌, ◌==◌, length}
use key_quorom.Prelude.Equality.{nat_eq, list_eq}
use key_quorom.Error.{Result, ok, ◌>>=◌, ◌>>◌, guard, invalid_bridge_package}
use key_quorom.Signing.Utf8.{is_utf8}
use key_quorom.Signing.BigEndian.{be32, from_be}
use key_quorom.Signing.Reader.{push_len_prefixed, take_u8, take_n, take_array, take_len_prefixed}

pub record BridgeSignature : Type 0 where
  pub uid : Bytes
  pub generation : ℕ
  pub bridge_salt : Bytes
  pub signature_salt : Bytes
  pub signer_label : Bytes
  pub signer_public_key : Bytes
  pub bridge_signature : Bytes
  pub personal_signature : Bytes

-- b"KQBS"
abbrev pub artifact_magic : Bytes
artifact_magic = b'K' ∷ b'Q' ∷ b'B' ∷ b'S' ∷ []

abbrev pub artifact_version : ℕ
artifact_version = 1

abbrev pub salt_len : ℕ
salt_len = 16

-- The values of the Rust type: texts in UTF-8, a u32, arrays of their lengths.
pub record IsArtifact (a : BridgeSignature) : Type 0 where
  pub uid : is_utf8 a.uid ≡ true
  pub generation : a.generation < 4294967296
  pub bridge_salt : length a.bridge_salt ≡ salt_len
  pub signature_salt : length a.signature_salt ≡ salt_len
  pub signer_label : is_utf8 a.signer_label ≡ true
  pub signer_public_key : length a.signer_public_key ≡ 32
  pub bridge_signature : length a.bridge_signature ≡ 64
  pub personal_signature : length a.personal_signature ≡ 64

unfoldable pub encode_bridge_signature : BridgeSignature → Result Bytes
encode_bridge_signature a = do
  out ← push_len_prefixed (artifact_magic ++ (artifact_version ∷ [])) a.uid
  out ←
      push_len_prefixed (out ++ be32 a.generation ++ a.bridge_salt ++ a.signature_salt)
        a.signer_label
  ok (out ++ a.signer_public_key ++ a.bridge_signature ++ a.personal_signature)

unfoldable pub decode_bridge_signature : Bytes → Result BridgeSignature
decode_bridge_signature bytes = do
  (magic, rest) ← take_n 4 bytes
  guard (list_eq.beq magic artifact_magic) invalid_bridge_package
  (version, rest) ← take_u8 rest
  guard (version == artifact_version) invalid_bridge_package
  (uid, rest) ← take_len_prefixed rest
  guard (is_utf8 uid) invalid_bridge_package
  (generation, rest) ← take_array 4 rest
  (bridge_salt, rest) ← take_array salt_len rest
  (signature_salt, rest) ← take_array salt_len rest
  (signer_label, rest) ← take_len_prefixed rest
  guard (is_utf8 signer_label) invalid_bridge_package
  (signer_public_key, rest) ← take_array 32 rest
  (bridge_signature, rest) ← take_array 64 rest
  (personal_signature, rest) ← take_array 64 rest
  guard (list_eq.beq rest []) invalid_bridge_package
  ok (record {
    uid = uid;
    generation = from_be 0 generation;
    bridge_salt = bridge_salt;
    signature_salt = signature_salt;
    signer_label = signer_label;
    signer_public_key = signer_public_key;
    bridge_signature = bridge_signature;
    personal_signature = personal_signature;
  })
