-- ===== src/Signing/RoundTrip.antt =====
-- Encoding and decoding of artifacts (src/signing.rs) are inverse to each other.
use mathlib.Core.List.{append_assoc, append-nil}
use key_quorom.Prelude.{
  Bytes, ◌<◌, ◌≡◌, ◌⊎◌, refl, ap, [], ◌∷◌, ◌++◌, arith, ltb, lt→ltb, ltb→lt, length, Bool-cases,
  inl, inr,
}
use key_quorom.Prelude.Equality.{nat_eq, list_eq}
use key_quorom.Error.{ok, err, bundle_field_too_large}
use key_quorom.Signing.BigEndian.{be16, be32, from_be-be32}
use key_quorom.Signing.Reader.{
  push_len_prefixed, take_u8, take_n-append, take_array-append, take_len_prefixed-append,
}
use key_quorom.Signing.Artifact.{
  BridgeSignature, artifact_magic, artifact_version, IsArtifact, encode_bridge_signature,
  decode_bridge_signature,
}

-- A text behind its length.
abbrev pub prefixed : Bytes → Bytes
prefixed text = be16 (length text) ++ text

-- The wire format: the fields in order.
unfoldable pub wire : BridgeSignature → Bytes
wire a =
    artifact_magic
    ++ (artifact_version
        ∷ (prefixed a.uid
            ++ (be32 a.generation
                ++ (a.bridge_salt
                    ++ (a.signature_salt
                        ++ (prefixed a.signer_label
                            ++ (a.signer_public_key
                                ++ (a.bridge_signature ++ (a.personal_signature ++ [])))))))))

pub encode-wire :
    (a : BridgeSignature)
    → length a.uid < 65536
    → length a.signer_label < 65536
    → encode_bridge_signature a ≡ ok (wire a)
unfolding encode_bridge_signature push_len_prefixed wire
encode-wire a u l = rw (lt→ltb _ _ u, lt→ltb _ _ l) (ap ok (simp (append_assoc, append-nil)))

decode-wire :
    (a : BridgeSignature)
    → IsArtifact a
    → length a.uid < 65536
    → length a.signer_label < 65536
    → decode_bridge_signature (wire a) ≡ ok a
unfolding decode_bridge_signature wire take_u8
decode-wire a v u l = rw (
  take_n-append 4 artifact_magic _ refl,
  take_len_prefixed-append a.uid _ u,
  v.uid,
  take_array-append 4 (be32 a.generation) _ refl,
  take_array-append 16 a.bridge_salt _ v.bridge_salt,
  take_array-append 16 a.signature_salt _ v.signature_salt,
  take_len_prefixed-append a.signer_label _ l,
  v.signer_label,
  take_array-append 32 a.signer_public_key _ v.signer_public_key,
  take_array-append 64 a.bridge_signature _ v.bridge_signature,
  take_array-append 64 a.personal_signature _ v.personal_signature,
  from_be-be32 a.generation v.generation,
)

encode_cases :
    (a : BridgeSignature)
    → ((bytes : Bytes) × (encode_bridge_signature a ≡ ok bytes)
        × (IsArtifact a → decode_bridge_signature bytes ≡ ok a)
        × (length a.uid < 65536)
        × (length a.signer_label < 65536))
      ⊎ ((encode_bridge_signature a ≡ err bundle_field_too_large)
          × ((65535 < length a.uid) ⊎ (65535 < length a.signer_label)))
encode_cases a = elim (Bool-cases (ltb (length a.uid) 65536)) [
  | inr long ↦ inr (unfold encode_bridge_signature push_len_prefixed in rw long, inl (ground arith))
  | inl u ↦ elim (Bool-cases (ltb (length a.signer_label) 65536)) [
    | inr long ↦
        inr (unfold encode_bridge_signature push_len_prefixed in rw (u, long), inr (ground arith))
    | inl l ↦
        let u' = ltb→lt _ _ u in
        let l' = ltb→lt _ _ l in
        inl (wire a, encode-wire a u' l', λ v. decode-wire a v u' l', u', l')
  ]
]

-- Encoding a value of the Rust type either succeeds, and then decoding gives the value back, or it
-- fails with `BundleFieldTooLarge` and the uid or the signer's label is longer than 65535 bytes.
pub decode-encode_bridge_signature :
    (a : BridgeSignature)
    → IsArtifact a
    → ((bytes : Bytes) × (encode_bridge_signature a ≡ ok bytes)
        × (decode_bridge_signature bytes ≡ ok a))
      ⊎ ((encode_bridge_signature a ≡ err bundle_field_too_large)
          × ((65535 < length a.uid) ⊎ (65535 < length a.signer_label)))
decode-encode_bridge_signature a v = elim (encode_cases a) [
  | inl (bytes, e, back, u, l) ↦ inl (bytes, e, back v)
  | inr failed ↦ inr failed
]
