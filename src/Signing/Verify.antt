-- ===== src/Signing/Verify.antt =====
-- Signing with a private bridge and verifying (src/signing.rs). The Ed25519 and SHA-256
-- implementations are the parameter `Ed25519`; random salts are arguments.
use mathlib.Core.Path.{subst}
use key_quorom.Prelude.{ℕ, Bytes, ◌≡◌, Bool, true, [], ◌∷◌, ◌++◌, arith}
use key_quorom.Prelude.Equality.{nat_eq, list_eq, beq_refl, bytes_iff}
use key_quorom.Error.{
  Result, ok, ok-injective, ◌>>◌, guard, invalid_public_key, signature_verification_failed,
}
use key_quorom.Signing.BigEndian.{be32}
use key_quorom.Signing.Artifact.{BridgeSignature}

-- What the code takes from `ed25519_dalek` and `sha2`: which byte strings are verifying keys, the
-- verifying key of a seed, signing, strict verification, and the digest. A signature of a seed
-- verifies under the seed's key.
pub record Ed25519 : Type 0 where
  pub is_key : Bytes → Bool
  pub public : Bytes → Bytes
  pub sign_raw : Bytes → Bytes → Bytes
  pub verify_strict : Bytes → Bytes → Bytes → Bool
  pub sha256 : Bytes → Bytes
  pub public-is_key : (seed : Bytes) → is_key (public seed) ≡ true
  pub verify-sign : (seed m : Bytes) → verify_strict (public seed) m (sign_raw seed m) ≡ true

-- b"KQBRIDGE-SIGN-v1"
abbrev pub sign_domain : Bytes
sign_domain =
    b'K' ∷ b'Q' ∷ b'B' ∷ b'R' ∷ b'I' ∷ b'D' ∷ b'G' ∷ b'E' ∷ b'-' ∷ b'S' ∷ b'I' ∷ b'G' ∷ b'N' ∷ b'-'
    ∷ b'v' ∷ b'1' ∷ []

module _ (c : Ed25519) where
  unfoldable pub verify_signature : Bytes → Bytes → Bytes → Result (Unit {0})
  verify_signature public_key message signature = do
    guard (c.is_key public_key) invalid_public_key
    guard (c.verify_strict public_key message signature) signature_verification_failed

  unfoldable pub bridge_sign_preimage : Bytes → ℕ → Bytes → Bytes → Bytes → Bytes → Bytes → Bytes
  bridge_sign_preimage uid generation bridge_salt signature_salt signer_label signer_public_key
        message =
      c.sha256 (
        sign_domain
        ++ uid
        ++ be32 generation
        ++ bridge_salt
        ++ signature_salt
        ++ signer_label
        ++ signer_public_key
        ++ message)

  -- The last argument is the random salt.
  unfoldable pub sign_with_bridge :
      Bytes → ℕ → Bytes → Bytes → Bytes → Bytes → Bytes → Bytes → Result BridgeSignature
  sign_with_bridge uid generation bridge_salt signer_label bridge_private_key personal_private_key
        message signature_salt =
      let signer_public_key = c.public personal_private_key in
      let preimage =
        bridge_sign_preimage uid generation bridge_salt signature_salt signer_label
          signer_public_key message in
      ok (record {
        uid = uid;
        generation = generation;
        bridge_salt = bridge_salt;
        signature_salt = signature_salt;
        signer_label = signer_label;
        signer_public_key = signer_public_key;
        bridge_signature = c.sign_raw bridge_private_key preimage;
        personal_signature = c.sign_raw personal_private_key preimage;
      })

  -- The arguments after the artifact: the bridge's key, the signer's key of the roster, the message.
  unfoldable pub verify_bridge_signature :
      BridgeSignature → Bytes → Bytes → Bytes → Result (Unit {0})
  verify_bridge_signature a bridge_public_key signer_public_key message = do
    guard (list_eq.beq a.signer_public_key signer_public_key) signature_verification_failed
    let preimage =
        bridge_sign_preimage a.uid a.generation a.bridge_salt a.signature_salt a.signer_label
          signer_public_key message
    verify_signature bridge_public_key preimage a.bridge_signature
    verify_signature signer_public_key preimage a.personal_signature

  -- What `sign_with_bridge` makes verifies over the message, under the bridge's key and the
  -- signer's personal key.
  pub verify_bridge_signature-sign_with_bridge :
      (uid : Bytes) (generation : ℕ)
      (bridge_salt label bridge_seed personal_seed message salt : Bytes) (a : BridgeSignature)
      → sign_with_bridge uid generation bridge_salt label bridge_seed personal_seed message salt
        ≡ ok a
      → verify_bridge_signature a (c.public bridge_seed) (c.public personal_seed) message ≡ ok tt
  unfolding verify_bridge_signature verify_signature sign_with_bridge
  verify_bridge_signature-sign_with_bridge uid generation bridge_salt label bridge_seed
        personal_seed message salt a e =
      subst
        (λ x.
          verify_bridge_signature x (c.public bridge_seed) (c.public personal_seed) message ≡ ok tt)
        (ok-injective e)
        (rw (
          beq_refl (c.public personal_seed),
          c.public-is_key bridge_seed,
          c.verify-sign bridge_seed _,
          c.public-is_key personal_seed,
          c.verify-sign personal_seed _,
        ))

  -- What a successful verification says of the two signatures.
  pub verify_bridge_signature-eq-ok :
      (a : BridgeSignature) (bridge_key signer_key message : Bytes)
      → verify_bridge_signature a bridge_key signer_key message ≡ ok tt
      → (a.signer_public_key ≡ signer_key)
        × (c.verify_strict bridge_key
              (bridge_sign_preimage a.uid a.generation a.bridge_salt a.signature_salt a.signer_label
                signer_key message)
              a.bridge_signature
            ≡ true)
  unfolding verify_bridge_signature verify_signature
  verify_bridge_signature-eq-ok a bridge_key signer_key message h =
      ground (arith, bytes_iff a.signer_public_key signer_key)
