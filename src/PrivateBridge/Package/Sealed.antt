-- ===== src/PrivateBridge/Package/Sealed.antt =====
-- A package that is sealed for a recipient decodes, with the recipient's secret key, to the fields
-- that it was made of, and its signature verifies (src/private_bridge.rs).
use mathlib.Core.List.{append_assoc, append-nil}
use mathlib.Core.Path.{subst}
use key_quorom.Prelude.{
  ℕ, Bytes, ◌<◌, ◌≡◌, refl, ◌∙◌, sym, Option, some, [], ◌∷◌, ◌++◌, ltb, length, ltb→lt, not,
}
use key_quorom.Prelude.Equality.{nat_eq, list_eq}
use key_quorom.Error.{ok, ok-injective, >>=-elim, guard-elim}
use key_quorom.Signing.BigEndian.{be32, from_be-be32}
use key_quorom.Signing.Reader.{take_u8, take_n, take_n-append, take_array-append}
use key_quorom.Signing.Verify.{Ed25519, verify_signature}
use key_quorom.PrivateBridge.Roster.{is_weak_x25519_public_key, CryptoBox}
use key_quorom.PrivateBridge.Package.Auth.{update_auth_preimage, DecodedPackage, verify_update_auth}
use key_quorom.PrivateBridge.Package.Envelope.{
  package_magic, format_version, parse_kqpb_outer, routing_public_key, encode_package,
  decode_package,
}
use key_quorom.PrivateBridge.Package.Letter.{PackageFields, sign_update, encode_payload}
use key_quorom.PrivateBridge.Package.RoundTrip.{
  IsPackage, delivered, encode-Encoded, decode-letter, sign_update-IsSignature,
}

flat_outer :
    (kind : ℕ) (pk len sealed : Bytes)
    → package_magic ++ (format_version ∷ kind ∷ []) ++ pk ++ len ++ sealed
      ≡ package_magic ++ (format_version ∷ kind ∷ (pk ++ (len ++ sealed)))
flat_outer kind pk len sealed = simp append_assoc

parse_lem :
    (kind : ℕ) (pk sealed : Bytes)
    → length pk ≡ 32
    → length sealed < 4294967296
    → parse_kqpb_outer
        (package_magic ++ (format_version ∷ kind ∷ (pk ++ (be32 (length sealed) ++ sealed))))
      ≡ ok (kind, pk, sealed)
unfolding parse_kqpb_outer take_u8
parse_lem kind pk sealed l n =
    let e = take_n-append (length sealed) sealed [] refl in
    let e' : take_n (length sealed) sealed ≡ ok (sealed, []) = rw (append-nil sealed) at e in
    rw (
      take_n-append 4 package_magic _ refl,
      take_array-append 32 pk _ l,
      take_array-append 4 (be32 (length sealed)) sealed refl,
      from_be-be32 (length sealed) n,
      e',
    )

-- A package that is sealed for the holder of a secret key decodes with that key to the fields that
-- it was made of and the signature over them, which is there if the old key was given; its outer
-- header names the recipient's key.
pub decode_package-encode_package :
    (c : Ed25519) (x : CryptoBox) (random secret : Bytes) (f : PackageFields) (bytes : Bytes)
    → ((seed m : Bytes) → length (c.sign_raw seed m) ≡ 64)
    → IsPackage c f
    → f.recipient_public_key ≡ x.public secret
    → encode_package c x random f ≡ ok bytes
    → (sig : Option Bytes) × (sign_update c f f.old_signing ≡ ok sig)
      × (decode_package c x bytes secret ≡ ok (delivered f sig))
      × (routing_public_key bytes ≡ ok f.recipient_public_key)
unfolding encode_package decode_package routing_public_key
decode_package-encode_package c x random secret f bytes len v own h =
    guard-elim (not (is_weak_x25519_public_key x f.recipient_public_key)) _ _ h λ _ h1.
      >>=-elim (encode_payload c f) _ h1 λ payload e h2.
        guard-elim (ltb (length (x.seal random f.recipient_public_key payload)) 4294967296) _ _ h2
          λ n h3.
            let d = encode-Encoded c f payload e in
            let g = sign_update-IsSignature c f len f.old_signing d.sig d.signed in
            let sealed = x.seal random f.recipient_public_key payload in
            let parsed =
              rw
                (sym (flat_outer f.kind f.recipient_public_key (be32 (length sealed)) sealed)
                  ∙ ok-injective h3)
                at
                (parse_lem f.kind f.recipient_public_key sealed v.recipient_public_key
                  (ltb→lt _ _ n)) in
            let opened : x.unseal secret sealed ≡ some payload =
              rw own (x.unseal-seal random secret payload) in
            (
              d.sig,
              d.signed,
              rw (parsed, opened, d.same) (decode-letter c f payload v d g),
              rw parsed,
            )

sign_update-verify :
    (c : Ed25519) (f : PackageFields) (seed : Bytes) (sig : Option Bytes)
    → sign_update c f (some seed) ≡ ok sig
    → verify_update_auth c (delivered f sig) (c.public seed) ≡ ok tt
unfolding verify_update_auth verify_signature
sign_update-verify c f seed sig h =
    >>=-elim
      (update_auth_preimage c f.uid f.generation f.kind f.public_key f.salt f.recipient_label
        f.members f.supervisors f.removed_label)
      _ h
      λ preimage e h'.
        let fresh : verify_update_auth c (delivered f (some (c.sign_raw seed preimage)))
              (c.public seed)
            ≡ ok tt =
          rw (e, c.public-is_key seed, c.verify-sign seed preimage, verify_update_auth) in
        subst (λ (s : Option Bytes). verify_update_auth c (delivered f s) (c.public seed) ≡ ok tt)
          (ok-injective h') fresh

-- An update package that was made with the old signing key of the bridge is accepted by a recipient
-- who knows the old public key, once it is opened with the recipient's secret key.
pub verify_update_auth-decode_package :
    (c : Ed25519) (x : CryptoBox) (random secret seed : Bytes) (f : PackageFields) (bytes : Bytes)
    (d : DecodedPackage)
    → ((seed m : Bytes) → length (c.sign_raw seed m) ≡ 64)
    → IsPackage c f
    → f.recipient_public_key ≡ x.public secret
    → f.old_signing ≡ some seed
    → encode_package c x random f ≡ ok bytes
    → decode_package c x bytes secret ≡ ok d
    → verify_update_auth c d (c.public seed) ≡ ok tt
verify_update_auth-decode_package c x random secret seed f bytes d len v own old h r =
    let (sig, signed, decoded, routed) =
      decode_package-encode_package c x random secret f bytes len v own h in
    subst (λ (p : DecodedPackage). verify_update_auth c p (c.public seed) ≡ ok tt)
      (ok-injective (sym decoded ∙ r)) (sign_update-verify c f seed sig (rw old at signed))
