-- ===== src/Signing/Binding.antt =====
-- What a bridge's signature binds (src/signing.rs): it carries over to no other artifact or message.
use mathlib.Core.List.{append_assoc}
use key_quorom.Prelude.{
  ℕ, Bytes, ◌<◌, ◌≡◌, ◌≢◌, ◌⊎◌, refl, ap, ◌∙◌, sym, true, ◌++◌, arith, length, Bool-cases, inl, inr,
  take-append, drop-append, take, drop,
}
use key_quorom.Prelude.Equality.{nat_eq, list_beq, bytes_iff}
use key_quorom.Error.{ok}
use key_quorom.Signing.BigEndian.{be32, from_be, from_be-be32}
use key_quorom.Signing.Artifact.{BridgeSignature, IsArtifact}
use key_quorom.Signing.Verify.{
  Ed25519, sign_domain, bridge_sign_preimage, verify_bridge_signature,
  verify_bridge_signature-eq-ok,
}

append-injective :
    (xs ys as' bs : Bytes) → length xs ≡ length ys → xs ++ as' ≡ ys ++ bs → (xs ≡ ys) × (as' ≡ bs)
append-injective xs ys as' bs size e = (
  sym (take-append (length ys) xs as' size)
      ∙ ap (λ l. take (length ys) l) e
      ∙ take-append (length ys) ys bs refl,
  sym (drop-append (length ys) xs as' size)
      ∙ ap (λ l. drop (length ys) l) e
      ∙ drop-append (length ys) ys bs refl,
)

be32-injective : (n m : ℕ) → n < 4294967296 → m < 4294967296 → be32 n ≡ be32 m → n ≡ m
be32-injective n m hn hm e = sym (from_be-be32 n hn) ∙ ap (λ l. from_be 0 l) e ∙ from_be-be32 m hm

-- These two inputs are different and have one digest.
abbrev pub IsCollision : Ed25519 → Bytes → Bytes → Type 0
IsCollision c x y = (x ≢ y) × (c.sha256 x ≡ c.sha256 y)

-- These two digests are different, and the signature verifies for both under the key.
abbrev pub IsReuse : Ed25519 → Bytes → Bytes → Bytes → Bytes → Type 0
IsReuse c key sig x y =
    (x ≢ y) × (c.verify_strict key x sig ≡ true) × (c.verify_strict key y sig ≡ true)

-- The artifacts name the same bridge, generation, salts, signer and signer's key.
abbrev pub IsSameClaim : BridgeSignature → BridgeSignature → Type 0
IsSameClaim a b =
    (a.uid ≡ b.uid)
    × (a.generation ≡ b.generation)
    × (a.bridge_salt ≡ b.bridge_salt)
    × (a.signature_salt ≡ b.signature_salt)
    × (a.signer_label ≡ b.signer_label)
    × (a.signer_public_key ≡ b.signer_public_key)

-- The bytes that are hashed.
abbrev pub signed_bytes : BridgeSignature → Bytes → Bytes
signed_bytes a message =
    sign_domain
    ++ (a.uid
        ++ (be32 a.generation
            ++ (a.bridge_salt
                ++ (a.signature_salt ++ (a.signer_label ++ (a.signer_public_key ++ message))))))

signed_bytes-injective :
    (a b : BridgeSignature) (m m' : Bytes)
    → IsArtifact a
    → IsArtifact b
    → length a.uid ≡ length b.uid
    → length a.signer_label ≡ length b.signer_label
    → signed_bytes a m ≡ signed_bytes b m'
    → IsSameClaim a b × (m ≡ m')
signed_bytes-injective a b m m' v w uid_size label_size e =
    let (_, e0) = append-injective sign_domain sign_domain _ _ refl e in
    let (uid, e1) = append-injective a.uid b.uid _ _ uid_size e0 in
    let (generation, e2) = append-injective (be32 a.generation) (be32 b.generation) _ _ refl e1 in
    let (salt, e3) =
      append-injective a.bridge_salt b.bridge_salt _ _ (v.bridge_salt ∙ sym w.bridge_salt) e2 in
    let (salt', e4) =
      append-injective a.signature_salt b.signature_salt _ _
        (v.signature_salt ∙ sym w.signature_salt) e3 in
    let (label, e5) = append-injective a.signer_label b.signer_label _ _ label_size e4 in
    let (key, e6) =
      append-injective a.signer_public_key b.signer_public_key m m'
        (v.signer_public_key ∙ sym w.signer_public_key) e5 in
    (
      (
        uid,
        be32-injective a.generation b.generation v.generation w.generation generation,
        salt,
        salt',
        label,
        key,
      ),
      e6,
    )

module _ (c : Ed25519) where
  preimage_eq :
      (a : BridgeSignature) (signer_key message : Bytes)
      → a.signer_public_key ≡ signer_key
      → bridge_sign_preimage c a.uid a.generation a.bridge_salt a.signature_salt a.signer_label
          signer_key message
        ≡ c.sha256 (signed_bytes a message)
  unfolding bridge_sign_preimage
  preimage_eq a signer_key message e = rw e (ap c.sha256 (simp append_assoc))

  -- Let two artifacts carry one bridge signature and verify under one bridge key, the first over `m`
  -- and the second over `m'`, whatever signers' keys they are verified with. If their uids are of one
  -- length and their signers' labels too, then the artifacts agree in each field that is not a
  -- signature and `m` is `m'`; or else the bytes that the two hash, which are different, have one
  -- digest, or the bridge signature verifies for the two digests of them, which are different.
  pub verify_bridge_signature-binds :
      (a b : BridgeSignature) (bridge_key key key' m m' : Bytes)
      → IsArtifact a
      → IsArtifact b
      → length a.uid ≡ length b.uid
      → length a.signer_label ≡ length b.signer_label
      → a.bridge_signature ≡ b.bridge_signature
      → verify_bridge_signature c a bridge_key key m ≡ ok tt
      → verify_bridge_signature c b bridge_key key' m' ≡ ok tt
      → (IsSameClaim a b × (m ≡ m'))
        ⊎ (IsCollision c (signed_bytes a m) (signed_bytes b m')
            ⊎ IsReuse c bridge_key a.bridge_signature
                (c.sha256 (signed_bytes a m))
                (c.sha256 (signed_bytes b m')))
  verify_bridge_signature-binds a b bridge_key key key' m m' v w uid_size label_size same h h' =
      let (named, signed) = verify_bridge_signature-eq-ok c a bridge_key key m h in
      let (named', signed') = verify_bridge_signature-eq-ok c b bridge_key key' m' h' in
      let x = signed_bytes a m in
      let y = signed_bytes b m' in
      let first : c.verify_strict bridge_key (c.sha256 x) a.bridge_signature ≡ true =
        rw (preimage_eq a key m named) at signed in
      let second : c.verify_strict bridge_key (c.sha256 y) a.bridge_signature ≡ true =
        rw (preimage_eq b key' m' named', sym same) at signed' in
      elim (Bool-cases (list_beq x y)) [
        | inl e ↦
            inl (signed_bytes-injective a b m m' v w uid_size label_size ((bytes_iff x y).0 e))
        | inr n ↦
            let apart : x ≢ y = ground (arith, bytes_iff x y) in
            elim (Bool-cases (list_beq (c.sha256 x) (c.sha256 y))) [
              | inl e ↦ inr (inl (apart, (bytes_iff (c.sha256 x) (c.sha256 y)).0 e))
              | inr k ↦
                  let apart' : c.sha256 x ≢ c.sha256 y =
                    ground (arith, bytes_iff (c.sha256 x) (c.sha256 y)) in
                  inr (inr (apart', first, second))
            ]
      ]
