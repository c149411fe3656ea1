-- ===== src/PrivateBridge/History/Authorised.antt =====
-- Who can change a stored bridge by a package (src/private_bridge.rs).
use key_quorom.Prelude.{
  ℕ, ◌+◌, ◌%◌, Bytes, ◌≡◌, ◌⊎◌, refl, ap, ◌∙◌, sym, some, [], ◌∷◌, Bool, true, arith, not,
  Bool-cases, inl, inr, ◌==◌, some-injective,
}
use key_quorom.Prelude.Equality.{nat_eq, list_eq, list_beq, bytes_iff}
use key_quorom.Prelude.Sql.{select, select_sound, update, select-update, select-append_left}
use key_quorom.Error.{Result, ok, err, ok-injective, >>=-elim, guard-elim}
use key_quorom.Signing.Verify.{Ed25519}
use key_quorom.PrivateBridge.Roster.{CryptoBox}
use key_quorom.PrivateBridge.Package.Auth.{DecodedPackage, verify_update_auth}
use key_quorom.PrivateBridge.Package.Signed.{IsSignedUpdate, verify_update_auth-IsSignedUpdate}
use key_quorom.PrivateBridge.Store.{
  Store, PrivateBridgeRow, has_uid, delete_parties, delete_sealed, with_immediate_transaction,
  is_live_at, set_generation, set_destroyed,
}
use key_quorom.PrivateBridge.Summary.{BridgeSummary, get, last_bridge_id}
use key_quorom.PrivateBridge.Commit.{Moment, update_generation}
use key_quorom.PrivateBridge.Import.{
  validate_decoded_recipient, replace_roster_and_secret, rotate_body, apply_rotate, destroy_body,
  apply_destroy, apply_package, import_package, import_decoded, is_live, read_package,
  empty_to_none,
}
use key_quorom.PrivateBridge.History.Rows.{
  insert_event-bridges, update_generation-bridges, replace_roster_and_secret-bridges, IsNew,
}
use key_quorom.PrivateBridge.History.Planned.{get-IsSummary, IsSummary}
use key_quorom.PrivateBridge.History.Imported.{
  insert_from_invite-IsNew, apply_package-elim, then_get-state,
}

is_live_at-uid :
    (uid : Bytes) (expected : ℕ) (r : PrivateBridgeRow)
    → is_live_at uid expected r ≡ true
    → r.uid ≡ uid
is_live_at-uid uid expected r h = ground (arith, bytes_iff r.uid uid)

is_live-uid : (uid : Bytes) (r : PrivateBridgeRow) → is_live uid r ≡ true → r.uid ≡ uid
is_live-uid uid r h = ground (arith, bytes_iff r.uid uid)

transaction-state :
    (s : Store) (m : Result Store) (P : Store → Type 0)
    → P s
    → ((t : Store) → m ≡ ok t → P t)
    → P (with_immediate_transaction s m).1
unfolding with_immediate_transaction
transaction-state s (ok t) P old new = new t refl
transaction-state s (err e) P old new = old

-- The row of `uid` is as it was, or the package is an update of it that verifies under its key.
abbrev pub IsAuthorised : Ed25519 → DecodedPackage → Store → Store → Type 0
IsAuthorised c d s t =
    (uid : Bytes) (r : PrivateBridgeRow)
    → select (has_uid uid) s.bridges ≡ some r
    → (r' : PrivateBridgeRow) × (select (has_uid uid) t.bridges ≡ some r')
      × ((r' ≡ r) ⊎ ((d.uid ≡ uid) × (verify_update_auth c d r.public_key ≡ ok tt)))

module _ (c : Ed25519) (d : DecodedPackage) where
  same-IsAuthorised : (s t : Store) → t.bridges ≡ s.bridges → IsAuthorised c d s t
  same-IsAuthorised s t e uid r h = (r, rw e h, inl refl)

  new-IsAuthorised : (s t : Store) → IsNew s t → IsAuthorised c d s t
  new-IsAuthorised s t new uid r h =
      (r, rw new.appended (select-append_left (has_uid uid) s.bridges (new.row ∷ []) h), inl refl)

  -- An UPDATE on rows of the package's bridge.
  update-IsAuthorised :
      (s t : Store) (summary : BridgeSummary) (q : PrivateBridgeRow → Bool)
      (f : PrivateBridgeRow → PrivateBridgeRow)
      → IsSummary s d.uid summary
      → verify_update_auth c d summary.public_key ≡ ok tt
      → ((r : PrivateBridgeRow) → (f r).uid ≡ r.uid)
      → ((r : PrivateBridgeRow) → q r ≡ true → r.uid ≡ d.uid)
      → t.bridges ≡ update q f s.bridges
      → IsAuthorised c d s t
  update-IsAuthorised s t summary q f read auth keeps within e uid r h =
      let found =
        select-update (has_uid uid) q f (λ r. ap (λ u. list_beq u uid) (keeps r)) s.bridges h in
      elim (Bool-cases (q r)) [
        | inl y ↦
            let own : r.uid ≡ uid =
              (bytes_iff r.uid uid).0 (select_sound (has_uid uid) s.bridges h) in
            let same : d.uid ≡ uid = sym (within r y) ∙ own in
            let h' : select (has_uid d.uid) s.bridges ≡ some r = rw (sym same) at h in
            let row : read.row ≡ r = some-injective (sym read.found ∙ h') in
            let key : summary.public_key ≡ r.public_key =
              read.public_key ∙ ap (λ (t : PrivateBridgeRow). t.public_key) row in
            (f r, rw e (rw y at found), inr (same, rw key at auth))
        | inr z ↦ (r, rw e (rw z at found), inl refl)
      ]

module _ (c : Ed25519) (x : CryptoBox) (at_time : Moment) where
  apply_rotate-IsAuthorised :
      (s : Store) (d : DecodedPackage) (t : Store)
      → apply_rotate c x at_time s d ≡ ok t
      → IsAuthorised c d s t
  unfolding apply_rotate rotate_body
  apply_rotate-IsAuthorised s d t h0 = >>=-elim (validate_decoded_recipient d) _ h0 λ _ _ h1.
      >>=-elim (get s d.uid) _ h1 λ summary read h2.
        guard-elim (not summary.destroyed) _ _ h2 λ _ h3.
          guard-elim (d.generation == (summary.generation + 1) % 4294967296) _ _ h3 λ _ h4.
            >>=-elim (verify_update_auth c d summary.public_key) _ h4 λ u auth h5.
              >>=-elim (last_bridge_id s d.uid) _ h5 λ id _ h6.
                >>=-elim
                  (update_generation x at_time s d.uid summary.generation d.generation d.public_key
                    d.salt (empty_to_none d.bridge_label))
                  _ h6
                  λ v e1 h7.
                    >>=-elim
                      (replace_roster_and_secret c x at_time
                        (delete_sealed (delete_parties v id) id) id d)
                      _ h7
                      λ w e2 h8.
                        let (updated, _) =
                          update_generation-bridges x at_time s d.uid summary.generation
                            d.generation d.public_key d.salt (empty_to_none d.bridge_label) v e1 in
                        update-IsAuthorised c d s t summary (is_live_at d.uid summary.generation)
                          (set_generation d.generation d.public_key d.salt
                            (empty_to_none d.bridge_label))
                          (get-IsSummary s d.uid summary read) auth (λ r. refl)
                          (λ r y. is_live_at-uid d.uid summary.generation r y)
                          (insert_event-bridges w id "rotated" t h8
                            ∙ replace_roster_and_secret-bridges c x at_time
                                (delete_sealed (delete_parties v id) id) id d w e2
                            ∙ updated)

  apply_destroy-IsAuthorised :
      (s : Store) (d : DecodedPackage) (t : Store)
      → apply_destroy c x at_time s d ≡ ok t
      → IsAuthorised c d s t
  unfolding apply_destroy destroy_body
  apply_destroy-IsAuthorised s d t h0 = >>=-elim (get s d.uid) _ h0 λ summary read h1.
      elim (Bool-cases summary.destroyed) [
        | inl y ↦
            same-IsAuthorised c d s t
              (ap (λ (u : Store). u.bridges) (sym (ok-injective (rw y at h1))))
        | inr n ↦ >>=-elim (verify_update_auth c d summary.public_key) _ (rw n at h1) λ u auth h2.
            >>=-elim (last_bridge_id s d.uid) _ h2 λ id _ h3.
              update-IsAuthorised c d s t summary (is_live d.uid) (set_destroyed at_time.now)
                (get-IsSummary s d.uid summary read) auth (λ r. refl) (λ r y. is_live-uid d.uid r y)
                (insert_event-bridges _ id "destroyed" t h3)
      ]

  apply_package-IsAuthorised :
      (s : Store) (d : DecodedPackage) (t : Store)
      → apply_package c x at_time s d ≡ ok t
      → IsAuthorised c d s t
  apply_package-IsAuthorised s d t h =
      apply_package-elim c x at_time s d t (IsAuthorised c d s t)
        (λ k. new-IsAuthorised c d s t (insert_from_invite-IsNew c x at_time s d t k))
        (apply_rotate-IsAuthorised s d t) (apply_destroy-IsAuthorised s d t) h

  import_decoded-IsAuthorised :
      (s : Store) (d : DecodedPackage) → IsAuthorised c d s (import_decoded c x at_time s (ok d)).1
  import_decoded-IsAuthorised s d =
      then_get-state s (with_immediate_transaction s (apply_package c x at_time s d)) d.uid
        (IsAuthorised c d s)
        (transaction-state s (apply_package c x at_time s d) (IsAuthorised c d s)
          (same-IsAuthorised c d s s refl) (apply_package-IsAuthorised s d))

  -- Importing a package leaves the row of a stored bridge as it is, unless the package names that
  -- bridge and carries a signature that verifies, under the bridge's public key, over the digest of
  -- these fields of the package: its uid, generation, kind, new public key and salt, the recipient's
  -- and the removed label, and the members and supervisors with their keys.
  pub import_package_lem :
      (s : Store) (bytes sk : Bytes) (d : DecodedPackage) (uid : Bytes) (r : PrivateBridgeRow)
      → read_package c x at_time bytes sk ≡ ok d
      → select (has_uid uid) s.bridges ≡ some r
      → (r' : PrivateBridgeRow) × (select
            (has_uid uid)
            (import_package c x at_time s bytes sk).1.bridges
          ≡ some r')
        × ((r' ≡ r) ⊎ ((d.uid ≡ uid) × IsSignedUpdate c d r.public_key))
  unfolding import_package
  import_package_lem s bytes sk d uid r e h =
      let (r', found, how) = import_decoded-IsAuthorised s d uid r h in
      let signed : (r' ≡ r) ⊎ ((d.uid ≡ uid) × IsSignedUpdate c d r.public_key) = elim how [
        | inl same ↦ inl same
        | inr update_of ↦
            inr (update_of.0, verify_update_auth-IsSignedUpdate c d r.public_key update_of.1)
      ] in
      rw e (r', found, signed)
