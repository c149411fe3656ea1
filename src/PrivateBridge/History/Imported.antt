-- ===== src/PrivateBridge/History/Imported.antt =====
-- What importing a package does to the stored bridges (src/private_bridge.rs).
use key_quorom.PrivateBridge.History.Rows.{
  IsNew, insert_bridge-IsNew, insert_event-bridges, update_generation-bridges,
  replace_roster_and_secret-bridges,
}
use key_quorom.Prelude.{
  ℕ, ◌+◌, ◌%◌, Bytes, ◌≡◌, refl, ap, ◌∙◌, sym, none, arith, not, Bool-cases, inl, inr, ◌==◌, ==_iff,
}
use key_quorom.Prelude.Equality.{nat_eq, list_eq}
use key_quorom.Error.{Result, ok, err, ok-injective, >>=-elim, guard-elim}
use key_quorom.Signing.Verify.{Ed25519}
use key_quorom.PrivateBridge.Roster.{CryptoBox}
use key_quorom.PrivateBridge.Package.Auth.{DecodedPackage, verify_update_auth}
use key_quorom.PrivateBridge.Store.{
  Store, is_set, delete_parties, delete_sealed, insert_bridge, with_immediate_transaction,
}
use key_quorom.PrivateBridge.Summary.{get, last_bridge_id, get_optional}
use key_quorom.PrivateBridge.Delivery.{kind_rotate, kind_supervisor, kind_destroy}
use key_quorom.PrivateBridge.Commit.{Moment, update_generation}
use key_quorom.PrivateBridge.Import.{
  validate_decoded_recipient, replace_roster_and_secret, invite_body, insert_from_invite,
  rotate_body, apply_rotate, destroy_body, apply_destroy, apply_package, import_package,
  import_decoded, is_invite, is_live, read_package, empty_to_none, then_get,
}
use key_quorom.PrivateBridge.History.Later.{
  Follows, Follows-same, Follows-IsNew, Follows-set_generation, Follows-set_destroyed,
  Follows-transaction,
}
use key_quorom.PrivateBridge.History.Planned.{get-IsSummary, raised}

-- A summary that fails after the commit leaves the stored rows.
pub then_get-state :
    (s : Store) (p : Result (Unit {0}) × Store) (uid : Bytes) (P : Store → Type 0)
    → P p.1
    → P (then_get p uid).1
then_get-state s (ok u, t) uid P h = h
then_get-state s (err e, t) uid P h = h

module _ (c : Ed25519) (x : CryptoBox) (at_time : Moment) where
  pub insert_from_invite-IsNew :
      (s : Store) (d : DecodedPackage) (t : Store)
      → insert_from_invite c x at_time s d ≡ ok t
      → IsNew s t
  unfolding insert_from_invite invite_body
  insert_from_invite-IsNew s d t h0 = >>=-elim (validate_decoded_recipient d) _ h0 λ _ _ h1.
      guard-elim (not (is_set (get_optional s d.uid))) _ _ h1 λ _ h2.
        >>=-elim
          (insert_bridge s d.uid none (empty_to_none d.bridge_label) d.generation d.public_key
            d.salt)
          _ h2
          λ (q : ℕ × Store) e1 h3.
            >>=-elim (replace_roster_and_secret c x at_time q.1 q.0 d) _ h3 λ u e2 h4.
              let new =
                insert_bridge-IsNew s d.uid none (empty_to_none d.bridge_label) d.generation
                  d.public_key d.salt q.0 q.1 e1 in
              record {
                row = new.row;
                appended =
                    insert_event-bridges u q.0 "imported" t h4
                    ∙ replace_roster_and_secret-bridges c x at_time q.1 q.0 d u e2
                    ∙ new.appended;
              }

  insert_from_invite-Follows :
      (s : Store) (d : DecodedPackage) (t : Store)
      → insert_from_invite c x at_time s d ≡ ok t
      → Follows 1 s t
  insert_from_invite-Follows s d t h = Follows-IsNew 1 s t (insert_from_invite-IsNew s d t h)

  apply_rotate-Follows :
      (s : Store) (d : DecodedPackage) (t : Store)
      → apply_rotate c x at_time s d ≡ ok t
      → Follows 1 s t
  unfolding apply_rotate rotate_body
  apply_rotate-Follows s d t h0 = >>=-elim (validate_decoded_recipient d) _ h0 λ _ _ h1.
      >>=-elim (get s d.uid) _ h1 λ summary read h2.
        guard-elim (not summary.destroyed) _ _ h2 λ _ h3.
          guard-elim (d.generation == (summary.generation + 1) % 4294967296) _ _ h3 λ next h4.
            >>=-elim (verify_update_auth c d summary.public_key) _ h4 λ _ _ h5.
              >>=-elim (last_bridge_id s d.uid) _ h5 λ id _ h6.
                >>=-elim
                  (update_generation x at_time s d.uid summary.generation d.generation d.public_key
                    d.salt (empty_to_none d.bridge_label))
                  _ h6
                  λ u e1 h7.
                    >>=-elim
                      (replace_roster_and_secret c x at_time
                        (delete_sealed (delete_parties u id) id) id d)
                      _ h7
                      λ v e2 h8.
                        let r = get-IsSummary s d.uid summary read in
                        let (updated, positive) =
                          update_generation-bridges x at_time s d.uid summary.generation
                            d.generation d.public_key d.salt (empty_to_none d.bridge_label) u e1 in
                        Follows-set_generation s t d.uid summary.generation d.generation
                          d.public_key d.salt (empty_to_none d.bridge_label)
                          (insert_event-bridges v id "rotated" t h8
                            ∙ replace_roster_and_secret-bridges c x at_time
                                (delete_sealed (delete_parties u id) id) id d v e2
                            ∙ updated)
                          (raised summary.generation d.generation (rw (sym r.generation) at r.small)
                            ((==_iff _ _).0 next) positive)

  apply_destroy-Follows :
      (s : Store) (d : DecodedPackage) (t : Store)
      → apply_destroy c x at_time s d ≡ ok t
      → Follows 1 s t
  unfolding apply_destroy destroy_body
  apply_destroy-Follows s d t h0 = >>=-elim (get s d.uid) _ h0 λ summary read h1.
      elim (Bool-cases summary.destroyed) [
        | inl y ↦
            Follows-same 1 s t (ap (λ (u : Store). u.bridges) (sym (ok-injective (rw y at h1))))
        | inr n ↦ >>=-elim (verify_update_auth c d summary.public_key) _ (rw n at h1) λ _ _ h2.
            >>=-elim (last_bridge_id s d.uid) _ h2 λ id _ h3.
              Follows-set_destroyed 1 s t (is_live d.uid) at_time.now (λ r u f y. ground arith)
                (insert_event-bridges _ id "destroyed" t h3)
      ]

  -- What holds of each of the three updates holds of a package.
  pub apply_package-elim {ℓ} :
      (s : Store) (d : DecodedPackage) (t : Store) (P : Type ℓ)
      → (insert_from_invite c x at_time s d ≡ ok t → P)
      → (apply_rotate c x at_time s d ≡ ok t → P)
      → (apply_destroy c x at_time s d ≡ ok t → P)
      → apply_package c x at_time s d ≡ ok t
      → P
  unfolding apply_package
  apply_package-elim s d t P invites rotates destroys h = elim (Bool-cases (is_invite d)) [
    | inl y ↦ invites (rw (y, apply_package) at h)
    | inr n ↦
        let h1 = rw (n, apply_package) at h in
        elim (Bool-cases (d.kind == kind_rotate)) [
          | inl y ↦ rotates (rw y at h1)
          | inr n1 ↦
              let h2 = rw n1 at h1 in
              elim (Bool-cases (d.kind == kind_supervisor)) [
                | inl y ↦ rotates (rw y at h2)
                | inr n2 ↦
                    let h3 = rw n2 at h2 in
                    elim (Bool-cases (d.kind == kind_destroy)) [
                      | inl y ↦ destroys (rw y at h3)
                      | inr n3 ↦ absurd (cc (rw n3 at h3))
                    ]
              ]
        ]
  ]

  apply_package-Follows :
      (s : Store) (d : DecodedPackage) (t : Store)
      → apply_package c x at_time s d ≡ ok t
      → Follows 1 s t
  apply_package-Follows s d t =
      apply_package-elim s d t (Follows 1 s t) (insert_from_invite-Follows s d t)
        (apply_rotate-Follows s d t) (apply_destroy-Follows s d t)

  import_decoded-Follows :
      (s : Store) (m : Result DecodedPackage) → Follows 1 s (import_decoded c x at_time s m).1
  import_decoded-Follows s (err e) = Follows-same 1 s s refl
  import_decoded-Follows s (ok d) =
      then_get-state s (with_immediate_transaction s (apply_package c x at_time s d)) d.uid
        (Follows 1 s) (Follows-transaction 1 s _ (apply_package-Follows s d))

  pub import_package-Follows :
      (s : Store) (bytes sk : Bytes) → Follows 1 s (import_package c x at_time s bytes sk).1
  unfolding import_package
  import_package-Follows s bytes sk = import_decoded-Follows s (read_package c x at_time bytes sk)
