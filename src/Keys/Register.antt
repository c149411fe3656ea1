-- ===== src/Keys/Register.antt =====
-- Registering hardware keys and looking them up (src/keys.rs). `digest` is the hexadecimal SHA-256.
use key_quorom.Prelude.{
  ℕ, Bytes, ◌≡◌, refl, ap, ◌∙◌, sym, Bool, true, false, not, Option, none, some, List, [], ◌∷◌,
  ◌++◌, map, ◌==◌, length,
}
use key_quorom.Prelude.Equality.{nat_eq, list_eq, list_beq, beq_refl, bytes_iff}
use key_quorom.Prelude.Sql.{select, next_id, select-append_right, select_sound}
use key_quorom.Error.{
  Result, ok, ◌>>◌, guard, ok_or, ok-injective, guard-elim, invalid_public_key, db,
}
use key_quorom.Keys.{HardwareKey, KeyType, encryption}

-- A row of hardware_keys: what the other modules read of it, and the columns beside that.
pub record KeyRow : Type 0 where
  pub key : HardwareKey
  pub label : Bytes
  pub fingerprint : Bytes

abbrev pub is_set : Option KeyRow → Bool
is_set none = false
is_set (some r) = true

abbrev pub has_public_key : Bytes → KeyRow → Bool
has_public_key public_key r = list_beq r.key.public_key public_key

abbrev pub has_fingerprint : Bytes → KeyRow → Bool
has_fingerprint fp r = list_beq r.fingerprint fp

abbrev pub list_keys : List KeyRow → List HardwareKey
list_keys rows = map (λ (r : KeyRow). r.key) rows

unfoldable pub get_key_by_public_key : List KeyRow → Bytes → Result KeyRow
get_key_by_public_key rows public_key =
    ok_or (select (has_public_key public_key) rows) invalid_public_key

unfoldable pub get_key_by_fingerprint : List KeyRow → Bytes → Result KeyRow
get_key_by_fingerprint rows fp = ok_or (select (has_fingerprint fp) rows) invalid_public_key

module _ (digest : Bytes → Bytes) where
  abbrev pub new_row : List KeyRow → Bytes → KeyType → Bytes → KeyRow
  new_row rows label key_type public_key = record {
    key = record {
      id = next_id (λ (r : KeyRow). r.key.id) rows;
      key_type = key_type;
      public_key = public_key;
      revoked_at = none;
    };
    label = label;
    fingerprint = digest public_key;
  }

  -- The fingerprint column is UNIQUE.
  unfoldable pub register_key : List KeyRow → Bytes → KeyType → Bytes → Result (ℕ × List KeyRow)
  register_key rows label key_type public_key = do
    guard (length public_key == 32) invalid_public_key
    guard (not (is_set (select (has_fingerprint (digest public_key)) rows))) db
    let row : KeyRow = new_row rows label key_type public_key
    ok (row.key.id, rows ++ (row ∷ []))

  abbrev pub id_or_register : Option KeyRow → List KeyRow → Bytes → Bytes → Result (ℕ × List KeyRow)
  id_or_register (some r) rows label public_key = ok (r.key.id, rows)
  id_or_register none rows label public_key = register_key rows label encryption public_key

  unfoldable pub get_or_register_encryption : List KeyRow → Bytes → Bytes → Result (ℕ × List KeyRow)
  get_or_register_encryption rows label public_key = do
    guard (length public_key == 32) invalid_public_key
    id_or_register (select (has_public_key public_key) rows) rows label public_key

  -- After it, the key is found under its id.
  id_or_register-found :
      (found : Option KeyRow) (rows : List KeyRow) (label public_key : Bytes) (id : ℕ)
      (after : List KeyRow)
      → select (has_public_key public_key) rows ≡ found
      → id_or_register found rows label public_key ≡ ok (id, after)
      → (r : KeyRow) × (select (has_public_key public_key) after ≡ some r) × (r.key.id ≡ id)
  unfolding register_key select
  id_or_register-found (some r) rows label public_key id after e h =
      let kept : rows ≡ after = ap (λ (p : ℕ × List KeyRow). p.1) (ok-injective h) in
      (r, rw (sym kept) e, ap (λ (p : ℕ × List KeyRow). p.0) (ok-injective h))
  id_or_register-found none rows label public_key id after e h0 =
      guard-elim (length public_key == 32) _ _ h0 λ _ h1.
        guard-elim (not (is_set (select (has_fingerprint (digest public_key)) rows))) _ _ h1 λ _ h2.
          let row : KeyRow = new_row rows label encryption public_key in
          let made : rows ++ (row ∷ []) ≡ after =
            ap (λ (p : ℕ × List KeyRow). p.1) (ok-injective h2) in
          (
            row,
            rw (sym made) (
                select-append_right (has_public_key public_key) rows (row ∷ []) e
                ∙ rw (beq_refl public_key) refl),
            ap (λ (p : ℕ × List KeyRow). p.0) (ok-injective h2),
          )

  -- The id that a public key gets, or has, is the id of the row that the key is then looked up as;
  -- that row holds the key, and asking again, under any label, gives the same id and adds no row.
  pub get_or_register_encryption_lem :
      (rows : List KeyRow) (label other public_key : Bytes) (id : ℕ) (after : List KeyRow)
      → get_or_register_encryption rows label public_key ≡ ok (id, after)
      → (r : KeyRow) × (get_key_by_public_key after public_key ≡ ok r)
        × (r.key.id ≡ id)
        × (r.key.public_key ≡ public_key)
        × (get_or_register_encryption after other public_key ≡ ok (id, after))
  unfolding get_or_register_encryption get_key_by_public_key
  get_or_register_encryption_lem rows label other public_key id after h0 =
      guard-elim (length public_key == 32) _ _ h0 λ size h1.
        let (r, found, same) =
          id_or_register-found (select (has_public_key public_key) rows) rows label public_key id
            after refl h1 in
        (
          r,
          rw found refl,
          same,
          (bytes_iff r.key.public_key public_key).0
              (select_sound (has_public_key public_key) after found),
          rw (size, found) (ap (λ n. ok (n, after)) same),
        )
