-- ===== src/Signing/Tests.antt =====
-- Signature artifacts of a toy signature scheme (src/signing.rs).
use key_quorom.Prelude.{
  take, ◌⊎◌, ℕ, zero, suc, Bytes, ◌<◌, ◌≡◌, ◌⊎◌, refl, true, [], ◌∷◌, ◌++◌, arith,
}
use key_quorom.Prelude.Equality.{nat_eq, list_eq, beq_refl}
use key_quorom.Error.{ok, err, bundle_field_too_large}
use key_quorom.Signing.{is_utf8}
use key_quorom.Signing.BigEndian.{IsBytes}
use key_quorom.Signing.Artifact.{
  BridgeSignature, IsArtifact, encode_bridge_signature, decode_bridge_signature,
}
use key_quorom.Signing.RoundTrip.{decode-encode_bridge_signature}
use key_quorom.Signing.Canonical.{encode-decode_bridge_signature}
use key_quorom.Signing.Verify.{
  Ed25519, bridge_sign_preimage, sign_with_bridge, verify_bridge_signature,
  verify_bridge_signature-sign_with_bridge, verify_signature,
}
use key_quorom.Signing.Binding.{
  IsSameClaim, IsCollision, IsReuse, signed_bytes, verify_bridge_signature-binds,
}

abbrev zeros : ℕ → Bytes
zeros zero = []
zeros (suc n) = 0 ∷ zeros n

-- A signature is the key and the message.
abbrev toy : Ed25519
toy = record {
  is_key = λ key. true;
  public = λ seed. seed;
  sign_raw = λ seed m. seed ++ m;
  verify_strict = λ key m s. list_eq.beq s (key ++ m);
  sha256 = λ m. m;
  public-is_key = λ seed. refl;
  verify-sign = λ seed m. beq_refl (seed ++ m);
}

abbrev artifact : BridgeSignature
artifact = record {
  uid = 65 ∷ [];
  generation = 1;
  bridge_salt = zeros 16;
  signature_salt = zeros 16;
  signer_label = 66 ∷ [];
  signer_public_key = zeros 32;
  bridge_signature = zeros 64;
  personal_signature = zeros 64;
}

artifact-IsArtifact : IsArtifact artifact
unfolding is_utf8
artifact-IsArtifact = record {
  uid = refl;
  generation = omega arith;
  bridge_salt = refl;
  signature_salt = refl;
  signer_label = refl;
  signer_public_key = refl;
  bridge_signature = refl;
  personal_signature = refl;
}

decode-encode_bridge_signature_example :
    ((bytes : Bytes) × (encode_bridge_signature artifact ≡ ok bytes)
      × (decode_bridge_signature bytes ≡ ok artifact))
    ⊎ ((encode_bridge_signature artifact ≡ err bundle_field_too_large)
        × ((65535 < 1) ⊎ (65535 < 1)))
decode-encode_bridge_signature_example = decode-encode_bridge_signature artifact artifact-IsArtifact

zeros-IsBytes : (n : ℕ) → IsBytes (zeros n)
zeros-IsBytes zero = tt
zeros-IsBytes (suc n) = (omega arith, zeros-IsBytes n)

append-IsBytes : (xs ys : Bytes) → IsBytes xs → IsBytes ys → IsBytes (xs ++ ys)
append-IsBytes [] ys u v = v
append-IsBytes (x ∷ xs) ys u v = (u.0, append-IsBytes xs ys u.1 v)

abbrev first_bytes : Bytes
first_bytes = 75 ∷ 81 ∷ 66 ∷ 83 ∷ 1 ∷ 0 ∷ 1 ∷ 65 ∷ 0 ∷ 0 ∷ 0 ∷ 1 ∷ []

abbrev label_bytes : Bytes
label_bytes = 0 ∷ 1 ∷ 66 ∷ []

abbrev encoded : Bytes
encoded = first_bytes ++ zeros 32 ++ label_bytes ++ zeros 160

first-IsBytes : IsBytes first_bytes
first-IsBytes = (
  omega arith,
  (
    omega arith,
    (
      omega arith,
      (
        omega arith,
        (
          omega arith,
          (
            omega arith,
            (
              omega arith,
              (omega arith, (omega arith, (omega arith, (omega arith, (omega arith, tt))))),
            ),
          ),
        ),
      ),
    ),
  ),
)

encoded-IsBytes : IsBytes encoded
encoded-IsBytes = append-IsBytes first_bytes (zeros 32 ++ label_bytes ++ zeros 160) first-IsBytes (
    append-IsBytes (zeros 32) (label_bytes ++ zeros 160) (zeros-IsBytes 32) (
      append-IsBytes label_bytes (zeros 160) (omega arith, (omega arith, (omega arith, tt)))
        (zeros-IsBytes 160)))

decodes : decode_bridge_signature encoded ≡ ok artifact
unfolding decode_bridge_signature key_quorom.Signing.Reader.take_n key_quorom.Signing.Reader.take_u8
    key_quorom.Signing.Reader.take_len_prefixed key_quorom.Signing.Reader.take_array
    key_quorom.Signing.BigEndian.from_be is_utf8
decodes = refl

encode-decode_bridge_signature_example :
    (encode_bridge_signature artifact ≡ ok encoded) × IsArtifact artifact
encode-decode_bridge_signature_example =
    encode-decode_bridge_signature encoded artifact encoded-IsBytes decodes

abbrev preimage : Bytes
preimage = bridge_sign_preimage toy (65 ∷ []) 1 (zeros 16) (zeros 16) (66 ∷ []) (2 ∷ []) (7 ∷ [])

abbrev signed : BridgeSignature
signed = record {
  uid = 65 ∷ [];
  generation = 1;
  bridge_salt = zeros 16;
  signature_salt = zeros 16;
  signer_label = 66 ∷ [];
  signer_public_key = 2 ∷ [];
  bridge_signature = 1 ∷ preimage;
  personal_signature = 2 ∷ preimage;
}

signs :
    sign_with_bridge toy (65 ∷ []) 1 (zeros 16) (66 ∷ []) (1 ∷ []) (2 ∷ []) (7 ∷ []) (zeros 16)
    ≡ ok signed
unfolding sign_with_bridge
signs = refl

verify_bridge_signature-sign_with_bridge_example :
    verify_bridge_signature toy signed (1 ∷ []) (2 ∷ []) (7 ∷ []) ≡ ok tt
verify_bridge_signature-sign_with_bridge_example =
    verify_bridge_signature-sign_with_bridge toy (65 ∷ []) 1 (zeros 16) (66 ∷ []) (1 ∷ []) (2 ∷ [])
      (7 ∷ []) (zeros 16) signed signs

-- A signature of 64 bytes, of a part of the message.
abbrev short : Bytes → Bytes
short bytes = take 64 (bytes ++ zeros 64)

abbrev toy_short : Ed25519
toy_short = record {
  is_key = λ key. true;
  public = λ seed. seed;
  sign_raw = λ seed m. short (seed ++ m);
  verify_strict = λ key m s. list_eq.beq s (short (key ++ m));
  sha256 = λ m. m;
  public-is_key = λ seed. refl;
  verify-sign = λ seed m. beq_refl (short (seed ++ m));
}

abbrev short_preimage : Bytes
short_preimage =
    bridge_sign_preimage toy_short (65 ∷ []) 1 (zeros 16) (zeros 16) (66 ∷ []) (zeros 32) (7 ∷ [])

abbrev short_signed : BridgeSignature
short_signed = record artifact {
  bridge_signature = short (1 ∷ short_preimage);
  personal_signature = short (zeros 32 ++ short_preimage);
}

short_signed-IsArtifact : IsArtifact short_signed
unfolding is_utf8 bridge_sign_preimage
short_signed-IsArtifact = record {
  uid = refl;
  generation = omega arith;
  bridge_salt = refl;
  signature_salt = refl;
  signer_label = refl;
  signer_public_key = refl;
  bridge_signature = refl;
  personal_signature = refl;
}

short_signs :
    sign_with_bridge toy_short
      (65 ∷ [])
      1
      (zeros 16)
      (66 ∷ [])
      (1 ∷ [])
      (zeros 32)
      (7 ∷ [])
      (zeros 16)
    ≡ ok short_signed
unfolding sign_with_bridge
short_signs = refl

short_verifies : verify_bridge_signature toy_short short_signed (1 ∷ []) (zeros 32) (7 ∷ []) ≡ ok tt
short_verifies =
    verify_bridge_signature-sign_with_bridge toy_short (65 ∷ []) 1 (zeros 16) (66 ∷ []) (1 ∷ [])
      (zeros 32) (7 ∷ []) (zeros 16) short_signed short_signs

-- The message lies beyond what the signature covers, so another message verifies too.
short_verifies_other :
    verify_bridge_signature toy_short short_signed (1 ∷ []) (zeros 32) (8 ∷ []) ≡ ok tt
unfolding verify_bridge_signature verify_signature bridge_sign_preimage
short_verifies_other = refl

verify_bridge_signature-binds_example :
    (IsSameClaim short_signed short_signed × (◌≡◌ {A = Bytes} (7 ∷ []) (8 ∷ [])))
    ⊎ (IsCollision toy_short
          (signed_bytes short_signed (7 ∷ []))
          (signed_bytes short_signed (8 ∷ []))
        ⊎ IsReuse toy_short
            (1 ∷ [])
            short_signed.bridge_signature
            (toy_short.sha256 (signed_bytes short_signed (7 ∷ [])))
            (toy_short.sha256 (signed_bytes short_signed (8 ∷ []))))
verify_bridge_signature-binds_example =
    verify_bridge_signature-binds toy_short short_signed short_signed (1 ∷ []) (zeros 32) (zeros 32)
      (7 ∷ []) (8 ∷ []) short_signed-IsArtifact short_signed-IsArtifact refl refl refl
      short_verifies short_verifies_other
