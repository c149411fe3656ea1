-- ===== src/Signing/Canonical.antt =====
-- A byte string that decodes is the encoding of what it decodes to (src/signing.rs).
use mathlib.Core.Path.{subst}
use key_quorom.Prelude.{ℕ, Bytes, ◌<◌, ◌≡◌, ap, ◌∙◌, sym, true, [], ◌++◌, ◌==◌, ==_iff, length}
use key_quorom.Prelude.Equality.{nat_eq, list_eq}
use key_quorom.Error.{ok, ok-injective, >>=-elim, guard-elim}
use key_quorom.Signing.Utf8.{is_utf8}
use key_quorom.Signing.BigEndian.{
  from_be, be32-from_be, from_be-lt_be32, IsBytes, IsByte, All-append_right, All-append_left,
}
use key_quorom.Signing.Reader.{
  take_u8, take_n, take_array, take_len_prefixed, take_n-eq-ok, take_u8-eq-ok, take_array-eq-ok,
  take_len_prefixed-eq-ok,
}
use key_quorom.Signing.Artifact.{
  BridgeSignature, artifact_magic, artifact_version, salt_len, IsArtifact, encode_bridge_signature,
  decode_bridge_signature,
}
use key_quorom.Signing.RoundTrip.{wire, encode-wire}

-- What a successful decoding says of its input.
record Decoded (bytes : Bytes) (a : BridgeSignature) : Type 0 where
  same : bytes ≡ wire a
  valid : IsArtifact a
  uid_fits : length a.uid < 65536
  label_fits : length a.signer_label < 65536

-- The reads of one decoding, put together.
assemble :
    (bytes : Bytes)
    → IsBytes bytes
    → (p1 : Bytes × Bytes) (p2 : ℕ × Bytes) (p3 p4 p5 p6 p7 p8 p9 p10 : Bytes × Bytes)
    → take_n 4 bytes ≡ ok p1
    → list_eq.beq p1.0 artifact_magic ≡ true
    → take_u8 p1.1 ≡ ok p2
    → (p2.0 == artifact_version) ≡ true
    → take_len_prefixed p2.1 ≡ ok p3
    → is_utf8 p3.0 ≡ true
    → take_array 4 p3.1 ≡ ok p4
    → take_array salt_len p4.1 ≡ ok p5
    → take_array salt_len p5.1 ≡ ok p6
    → take_len_prefixed p6.1 ≡ ok p7
    → is_utf8 p7.0 ≡ true
    → take_array 32 p7.1 ≡ ok p8
    → take_array 64 p8.1 ≡ ok p9
    → take_array 64 p9.1 ≡ ok p10
    → list_eq.beq p10.1 [] ≡ true
    → Decoded bytes (record {
      uid = p3.0;
      generation = from_be 0 p4.0;
      bridge_salt = p5.0;
      signature_salt = p6.0;
      signer_label = p7.0;
      signer_public_key = p8.0;
      bridge_signature = p9.0;
      personal_signature = p10.0;
    })
unfolding wire
assemble bytes v p1 p2 p3 p4 p5 p6 p7 p8 p9 p10 e1 m e2 n e3 u e4 e5 e6 e7 l e8 e9 e10 z =
    let (s1, _) = take_n-eq-ok 4 bytes p1.0 p1.1 e1 in
    let s2 = take_u8-eq-ok p1.1 p2.0 p2.1 e2 in
    let v1 = All-append_right IsByte p1.0 p1.1 (rw s1 at v) in
    let v2 : IsBytes p2.1 = (rw s2 at v1).1 in
    let (s3, k3) = take_len_prefixed-eq-ok p2.1 p3.0 p3.1 v2 e3 in
    let v3 = All-append_right IsByte p3.0 p3.1 (rw s3 at v2).1.1 in
    let (s4, k4) = take_array-eq-ok 4 p3.1 p4.0 p4.1 e4 in
    let (s5, k5) = take_array-eq-ok salt_len p4.1 p5.0 p5.1 e5 in
    let (s6, k6) = take_array-eq-ok salt_len p5.1 p6.0 p6.1 e6 in
    let w3 = rw s4 at v3 in
    let v4 = All-append_left IsByte p4.0 p4.1 w3 in
    let v5 = All-append_right IsByte p5.0 p5.1 (rw s5 at (All-append_right IsByte p4.0 p4.1 w3)) in
    let v6 = All-append_right IsByte p6.0 p6.1 (rw s6 at v5) in
    let s4' = s4 ∙ ap (λ l. l ++ p4.1) (sym (be32-from_be p4.0 k4 v4)) in
    let (s7, k7) = take_len_prefixed-eq-ok p6.1 p7.0 p7.1 v6 e7 in
    let (s8, k8) = take_array-eq-ok 32 p7.1 p8.0 p8.1 e8 in
    let (s9, k9) = take_array-eq-ok 64 p8.1 p9.0 p9.1 e9 in
    let (s10, k10) = take_array-eq-ok 64 p9.1 p10.0 p10.1 e10 in
    record {
      same = rw (
        s1,
        (list_eq.beq_iff p1.0 artifact_magic).0 m,
        s2,
        (==_iff p2.0 artifact_version).0 n,
        s3,
        s4',
        s5,
        s6,
        s7,
        s8,
        s9,
        s10,
        (list_eq.beq_iff p10.1 []).0 z,
      );
      valid = record {
        uid = u;
        generation = from_be-lt_be32 p4.0 k4 v4;
        bridge_salt = k5;
        signature_salt = k6;
        signer_label = l;
        signer_public_key = k8;
        bridge_signature = k9;
        personal_signature = k10;
      };
      uid_fits = k3;
      label_fits = k7;
    }

decode-Decoded :
    (bytes : Bytes) (a : BridgeSignature)
    → IsBytes bytes
    → decode_bridge_signature bytes ≡ ok a
    → Decoded bytes a
unfolding decode_bridge_signature
decode-Decoded bytes a v h0 = >>=-elim (take_n 4 bytes) _ h0 λ p1 e1 h1.
    guard-elim (list_eq.beq p1.0 artifact_magic) _ _ h1 λ m h2.
      >>=-elim (take_u8 p1.1) _ h2 λ p2 e2 h3. guard-elim (p2.0 == artifact_version) _ _ h3 λ n h4.
        >>=-elim (take_len_prefixed p2.1) _ h4 λ p3 e3 h5. guard-elim (is_utf8 p3.0) _ _ h5 λ u h6.
          >>=-elim (take_array 4 p3.1) _ h6 λ p4 e4 h7.
            >>=-elim (take_array salt_len p4.1) _ h7 λ p5 e5 h8.
              >>=-elim (take_array salt_len p5.1) _ h8 λ p6 e6 h9.
                >>=-elim (take_len_prefixed p6.1) _ h9 λ p7 e7 h10.
                  guard-elim (is_utf8 p7.0) _ _ h10 λ l h11.
                    >>=-elim (take_array 32 p7.1) _ h11 λ p8 e8 h12.
                      >>=-elim (take_array 64 p8.1) _ h12 λ p9 e9 h13.
                        >>=-elim (take_array 64 p9.1) _ h13 λ p10 e10 h14.
                          guard-elim (list_eq.beq p10.1 []) _ _ h14 λ z h15.
                            let made =
                              assemble bytes v p1 p2 p3 p4 p5 p6 p7 p8 p9 p10 e1 m e2 n e3 u e4 e5
                                e6 e7 l e8 e9 e10 z in
                            subst (Decoded bytes) (ok-injective h15) made

-- A byte string that decodes is the encoding of the artifact that it decodes to, and that artifact
-- is a value of the Rust type: no two byte strings decode to one artifact, and none decodes with
-- bytes left over.
pub encode-decode_bridge_signature :
    (bytes : Bytes) (a : BridgeSignature)
    → IsBytes bytes
    → decode_bridge_signature bytes ≡ ok a
    → (encode_bridge_signature a ≡ ok bytes) × IsArtifact a
encode-decode_bridge_signature bytes a v e =
    let d = decode-Decoded bytes a v e in
    (encode-wire a d.uid_fits d.label_fits ∙ ap ok (sym d.same), d.valid)
