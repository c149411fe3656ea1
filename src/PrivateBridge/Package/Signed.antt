-- ===== src/PrivateBridge/Package/Signed.antt =====
-- The bytes that an update's signature covers (src/private_bridge.rs), as one list of fields.
use mathlib.Core.List.{append_assoc, append-nil}
use key_quorom.Prelude.{
  ℕ, Bytes, ◌≡◌, refl, ap, ◌∙◌, sym, Bool, true, false, Option, none, some, [], ◌∷◌, ◌++◌, length,
  ltb, not,
}
use key_quorom.Prelude.Equality.{nat_eq, list_beq}
use key_quorom.Error.{
  ok, ok-injective, >>=-elim, guard-elim, ok_or, guard, signature_verification_failed,
  invalid_bridge_package,
}
use key_quorom.Signing.BigEndian.{be16, be32}
use key_quorom.Signing.Verify.{Ed25519, verify_signature}
use key_quorom.PrivateBridge.SortedMap.{Map}
use key_quorom.PrivateBridge.Roster.{MemberKeys}
use key_quorom.PrivateBridge.Package.Auth.{
  DecodedPackage, update_domain, hash_len_prefixed, hash_u16_count, hash_members, hash_supervisors,
  update_auth_preimage, verify_update_auth,
}

abbrev pub prefixed : Bytes → Bytes
prefixed bytes = be16 (length bytes) ++ bytes

abbrev pub member_contents : Map MemberKeys → Bytes
member_contents [] = []
member_contents ((label, keys) ∷ rest) =
    prefixed label ++ (keys.encryption ++ (keys.signing ++ member_contents rest))

abbrev pub supervisor_contents : Map Bytes → Bytes
supervisor_contents [] = []
supervisor_contents ((label, pk) ∷ rest) = prefixed label ++ (pk ++ supervisor_contents rest)

-- The bridge's label, the role, the wrap salt and the sealed secret are not among the fields.
abbrev pub update_contents : DecodedPackage → Bytes
update_contents d =
    update_domain
    ++ (prefixed d.uid
        ++ (be32 d.generation
            ++ ((d.kind ∷ [])
                ++ (d.public_key
                    ++ (d.salt
                        ++ (prefixed d.recipient_label
                            ++ (prefixed d.removed_label
                                ++ (be16 (length d.members)
                                    ++ (member_contents d.members
                                        ++ (be16 (length d.supervisors)
                                            ++ supervisor_contents d.supervisors))))))))))

hash_len_prefixed-eq-ok :
    (hasher bytes after : Bytes)
    → hash_len_prefixed hasher bytes ≡ ok after
    → after ≡ hasher ++ prefixed bytes
unfolding hash_len_prefixed
hash_len_prefixed-eq-ok hasher bytes after h =
    guard-elim (ltb (length bytes) 65536) _ _ h
      λ _ h1. sym (ok-injective h1) ∙ append_assoc hasher (be16 (length bytes)) bytes

hash_u16_count-eq-ok :
    (hasher : Bytes) (n : ℕ) (after : Bytes)
    → hash_u16_count hasher n ≡ ok after
    → after ≡ hasher ++ be16 n
unfolding hash_u16_count
hash_u16_count-eq-ok hasher n after h = guard-elim (ltb n 65536) _ _ h λ _ h1. sym (ok-injective h1)

hash_members-eq-ok :
    (hasher : Bytes) (members : Map MemberKeys) (after : Bytes)
    → hash_members hasher members ≡ ok after
    → after ≡ hasher ++ member_contents members
unfolding hash_members
hash_members-eq-ok hasher [] after h = sym (ok-injective h) ∙ sym (append-nil hasher)
hash_members-eq-ok hasher ((label, keys) ∷ rest) after h =
    guard-elim (not (list_beq label [])) _ _ h λ _ h1.
      >>=-elim (hash_len_prefixed hasher label) _ h1 λ next e h2.
        hash_members-eq-ok (next ++ keys.encryption ++ keys.signing) rest after h2
        ∙ rw (hash_len_prefixed-eq-ok hasher label next e) (simp append_assoc)

hash_supervisors-eq-ok :
    (hasher : Bytes) (supervisors : Map Bytes) (after : Bytes)
    → hash_supervisors hasher supervisors ≡ ok after
    → after ≡ hasher ++ supervisor_contents supervisors
unfolding hash_supervisors
hash_supervisors-eq-ok hasher [] after h = sym (ok-injective h) ∙ sym (append-nil hasher)
hash_supervisors-eq-ok hasher ((label, pk) ∷ rest) after h =
    guard-elim (not (list_beq label [])) _ _ h λ _ h1.
      >>=-elim (hash_len_prefixed hasher label) _ h1 λ next e h2.
        hash_supervisors-eq-ok (next ++ pk) rest after h2
        ∙ rw (hash_len_prefixed-eq-ok hasher label next e) (simp append_assoc)

guard-true : (b : Bool) → guard b signature_verification_failed ≡ ok tt → b ≡ true
guard-true true h = refl
guard-true false h = absurd (cc h)

ok_or-some :
    (m : Option Bytes) (sig : Bytes) → ok_or m invalid_bridge_package ≡ ok sig → m ≡ some sig
ok_or-some none sig h = absurd (cc h)
ok_or-some (some x) sig h = ap (λ (b : Bytes). some b) (ok-injective h)

module _ (c : Ed25519) where
  update_auth_preimage-eq-ok :
      (d : DecodedPackage) (preimage : Bytes)
      → update_auth_preimage c d.uid d.generation d.kind d.public_key d.salt d.recipient_label
          d.members d.supervisors d.removed_label
        ≡ ok preimage
      → preimage ≡ c.sha256 (update_contents d)
  unfolding update_auth_preimage
  update_auth_preimage-eq-ok d preimage h0 =
      >>=-elim (hash_len_prefixed update_domain d.uid) _ h0 λ a e1 h1.
        >>=-elim
          (hash_len_prefixed (a ++ be32 d.generation ++ (d.kind ∷ []) ++ d.public_key ++ d.salt)
            d.recipient_label)
          _ h1
          λ b e2 h2. >>=-elim (hash_len_prefixed b d.removed_label) _ h2 λ e e3 h3.
            >>=-elim (hash_u16_count e (length d.members)) _ h3 λ f e4 h4.
              >>=-elim (hash_members f d.members) _ h4 λ g e5 h5.
                >>=-elim (hash_u16_count g (length d.supervisors)) _ h5 λ k e6 h6.
                  >>=-elim (hash_supervisors k d.supervisors) _ h6 λ l e7 h7.
                    sym (ok-injective h7)
                    ∙ ap c.sha256 (
                        hash_supervisors-eq-ok k d.supervisors l e7
                        ∙ rw
                            (
                              hash_u16_count-eq-ok g (length d.supervisors) k e6,
                              hash_members-eq-ok f d.members g e5,
                              hash_u16_count-eq-ok e (length d.members) f e4,
                              hash_len_prefixed-eq-ok b d.removed_label e e3,
                              hash_len_prefixed-eq-ok
                                  (a
                                    ++ be32 d.generation
                                    ++ (d.kind ∷ [])
                                    ++ d.public_key
                                    ++ d.salt)
                                  d.recipient_label b e2,
                              hash_len_prefixed-eq-ok update_domain d.uid a e1,
                            )
                            (simp append_assoc))

  -- The package carries a signature that verifies, under the key, over the digest of its contents.
  abbrev pub IsSignedUpdate : DecodedPackage → Bytes → Type 0
  IsSignedUpdate d key =
      (sig : Bytes) × (d.auth_sig ≡ some sig)
      × (c.verify_strict key (c.sha256 (update_contents d)) sig ≡ true)

  pub verify_update_auth-IsSignedUpdate :
      (d : DecodedPackage) (key : Bytes) → verify_update_auth c d key ≡ ok tt → IsSignedUpdate d key
  unfolding verify_update_auth verify_signature
  verify_update_auth-IsSignedUpdate d key h0 =
      >>=-elim (ok_or d.auth_sig invalid_bridge_package) _ h0 λ sig e1 h1.
        >>=-elim
          (update_auth_preimage c d.uid d.generation d.kind d.public_key d.salt d.recipient_label
            d.members d.supervisors d.removed_label)
          _ h1
          λ preimage e2 h2. guard-elim (c.is_key key) _ _ h2 λ _ h3. (
            sig,
            ok_or-some d.auth_sig sig e1,
            rw (update_auth_preimage-eq-ok d preimage e2) at
                (guard-true (c.verify_strict key preimage sig) h3),
          )
