-- ===== src/PrivateBridge/Messages/Accepted.antt =====
-- A message that a member signs is accepted by the other members (src/private_bridge.rs).
use key_quorom.Prelude.{ℕ, Bytes, ◌≡◌, List, some, true, not, sym, ◌∙◌, ap}
use key_quorom.Prelude.Equality.{nat_eq, list_eq, list_beq, beq_refl, bytes_iff}
use key_quorom.Prelude.Sql.{select}
use key_quorom.Error.{
  ok, ok-injective, >>=-elim, guard-elim, ok_or, not_bridge_member, invalid_bridge,
}
use key_quorom.Signing.Artifact.{BridgeSignature}
use key_quorom.Signing.Verify.{
  Ed25519, sign_with_bridge, verify_bridge_signature, verify_bridge_signature-sign_with_bridge,
}
use key_quorom.PrivateBridge.Roster.{CryptoBox, BridgeParty}
use key_quorom.PrivateBridge.Store.{Store}
use key_quorom.PrivateBridge.Summary.{BridgeSummary, get}
use key_quorom.PrivateBridge.Removal.{
  member_named, unseal_local_secret, encryption_public_from_secret,
}
use key_quorom.PrivateBridge.Messages.{
  LabelledKey, sign_message, verify_message, check_registered, signing_public_for_label,
}

-- What a successful signing went through.
record Signed (c : Ed25519) (x : CryptoBox) (s : Store) (registered : List LabelledKey)
    (uid label encryption_sk signing_sk message salt : Bytes) (a : BridgeSignature) : Type 0 where
  summary : BridgeSummary
  read : get s uid ≡ ok summary
  live : not summary.destroyed ≡ true
  signer : BridgeParty
  on_roster : ok_or (select (member_named label) summary.parties) not_bridge_member ≡ ok signer
  roster : ok_or signer.signing_public_key invalid_bridge ≡ ok (c.public signing_sk)
  known :
      check_registered c (c.public signing_sk) (signing_public_for_label c registered label) ≡ ok tt
  secret : Bytes
  unsealed : unseal_local_secret x s uid label encryption_sk ≡ ok secret
  made :
      sign_with_bridge c uid summary.generation summary.salt label secret signing_sk message salt
      ≡ ok a

sign_message-Signed :
    (c : Ed25519) (x : CryptoBox) (s : Store) (registered : List LabelledKey)
    (uid label encryption_sk signing_sk message salt : Bytes) (a : BridgeSignature)
    → sign_message c x s registered uid label encryption_sk signing_sk message salt ≡ ok a
    → Signed c x s registered uid label encryption_sk signing_sk message salt a
unfolding sign_message
sign_message-Signed c x s registered uid label encryption_sk signing_sk message salt a h0 =
    >>=-elim (get s uid) _ h0 λ summary read h1.
      guard-elim (not summary.destroyed) _ _ h1 λ live h2.
        >>=-elim (ok_or (select (member_named label) summary.parties) not_bridge_member) _ h2
          λ signer on_roster h3. guard-elim signer.has_sealed_key _ _ h3 λ _ h4.
            guard-elim
              (list_beq (encryption_public_from_secret x encryption_sk)
                signer.encryption_public_key)
              _ _ h4
              λ _ h5. >>=-elim (ok_or signer.signing_public_key invalid_bridge) _ h5 λ key e h6.
                guard-elim (list_beq (c.public signing_sk) key) _ _ h6 λ same h7.
                  >>=-elim (check_registered c key (signing_public_for_label c registered label)) _
                    h7
                    λ _ known h8.
                      >>=-elim (unseal_local_secret x s uid label encryption_sk) _ h8
                        λ secret unsealed made.
                          let own : key ≡ c.public signing_sk =
                            sym ((bytes_iff (c.public signing_sk) key).0 same) in
                          record {
                            summary = summary;
                            read = read;
                            live = live;
                            signer = signer;
                            on_roster = on_roster;
                            roster = rw own at e;
                            known = rw own at known;
                            secret = secret;
                            unsealed = unsealed;
                            made = made;
                          }

sign_with_bridge-fields :
    (c : Ed25519) (uid : Bytes) (generation : ℕ)
    (bridge_salt label bridge_seed personal_seed message salt : Bytes) (a : BridgeSignature)
    → sign_with_bridge c uid generation bridge_salt label bridge_seed personal_seed message salt
      ≡ ok a
    → (a.uid ≡ uid)
      × (a.generation ≡ generation)
      × (a.bridge_salt ≡ bridge_salt)
      × (a.signer_label ≡ label)
unfolding sign_with_bridge
sign_with_bridge-fields c uid generation bridge_salt label bridge_seed personal_seed message salt a
      h =
    let e = sym (ok-injective h) in
    (
      ap (λ (t : BridgeSignature). t.uid) e,
      ap (λ (t : BridgeSignature). t.generation) e,
      ap (λ (t : BridgeSignature). t.bridge_salt) e,
      ap (λ (t : BridgeSignature). t.signer_label) e,
    )

-- What a member signs over a message, with the sealed secret whose public key is the bridge's, is
-- accepted over the same message by every member of the bridge whose store has the same rows.
pub verify_message-sign_message :
    (c : Ed25519) (x : CryptoBox) (s : Store) (registered : List LabelledKey)
    (uid label encryption_sk signing_sk message salt verifier secret : Bytes)
    (summary : BridgeSummary) (v : BridgeParty) (a : BridgeSignature)
    → get s uid ≡ ok summary
    → unseal_local_secret x s uid label encryption_sk ≡ ok secret
    → c.public secret ≡ summary.public_key
    → select (member_named verifier) summary.parties ≡ some v
    → sign_message c x s registered uid label encryption_sk signing_sk message salt ≡ ok a
    → verify_message c s registered uid verifier message a ≡ ok tt
unfolding verify_message
verify_message-sign_message c x s registered uid label encryption_sk signing_sk message salt
      verifier secret summary v a read unsealed own member h =
    let d =
      sign_message-Signed c x s registered uid label encryption_sk signing_sk message salt a h in
    let same : d.summary ≡ summary = ok-injective (sym d.read ∙ read) in
    let key : d.secret ≡ secret = ok-injective (sym d.unsealed ∙ unsealed) in
    let checked =
      verify_bridge_signature-sign_with_bridge c uid d.summary.generation d.summary.salt label
        d.secret signing_sk message salt a d.made in
    let made = rw same at d.made in
    let (uid_eq, generation_eq, salt_eq, label_eq) =
      sign_with_bridge-fields c uid summary.generation summary.salt label d.secret signing_sk
        message salt a made in
    let live : not summary.destroyed ≡ true = rw same at d.live in
    let accepted : verify_bridge_signature c a summary.public_key (c.public signing_sk) message
        ≡ ok tt =
      rw (ap c.public key ∙ own) at checked in
    let found : ok_or (select (member_named label) summary.parties) not_bridge_member
        ≡ ok d.signer =
      rw same at d.on_roster in
    rw (
      read,
      live,
      uid_eq,
      beq_refl uid,
      generation_eq,
      beq_refl summary.generation,
      salt_eq,
      beq_refl summary.salt,
      label_eq,
      found,
      member,
      d.roster,
      d.known,
      rw (uid_eq, generation_eq, salt_eq, label_eq) at accepted,
    )
