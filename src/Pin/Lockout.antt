-- ===== src/Pin/Lockout.antt =====
-- Guessing at a PIN (src/pin.rs): when it locks, and that it stays locked.
use mathlib.Core.Path.{subst}
use key_quorom.Prelude.{
  ℕ, Bytes, ◌+◌, ◌≡◌, ◌≢◌, refl, ap, sym, ◌∙◌, Bool, true, false, not, ◌&&◌, some, List, arith, leb,
  if◌then◌else◌, Bool-cases, inl, inr, ==_iff,
}
use key_quorom.Prelude.Equality.{nat_eq, list_eq, string_eq, bytes_iff, beq_refl}
use key_quorom.Prelude.Sql.{select, update, select-update}
use key_quorom.Error.{ok, err, pin_mismatch, pin_locked}
use key_quorom.Pin.{
  Kdf, ResourceType, PinRow, has_key, has_id, is_set, still_valid, get_pin_row, fail_row, lock_row,
  fail_attempt, pass_attempt, verify_row, verify_pin, max_attempts,
}

-- The row of the resource is `r`, and its id finds it.
pub record Holds (t : ResourceType) (i : ℕ) (rows : List PinRow) (r : PinRow) : Type 0 where
  pub found : select (has_key t i) rows ≡ some r
  pub by_id : select (has_id r.id) rows ≡ some r

-- An update of the row by its id.
pub update-Holds :
    (f : PinRow → PinRow)
    → ((x : PinRow) → (f x).id ≡ x.id)
    → ((x : PinRow) → (f x).resource_type ≡ x.resource_type)
    → ((x : PinRow) → (f x).resource_id ≡ x.resource_id)
    → (t : ResourceType) (i : ℕ) (rows : List PinRow) (r : PinRow) → Holds t i rows r
    → Holds t i (update (has_id r.id) f rows) (f r)
update-Holds f keep_id keep_type keep_resource t i rows r v =
    let mine : has_id r.id r ≡ true = (==_iff r.id r.id).1 refl in
    let turned : (if has_id r.id r then f r else r) ≡ f r = rw mine in
    record {
      found =
          select-update (has_key t i) (has_id r.id) f (λ x. rw (keep_type x, keep_resource x)) rows
            v.found
          ∙ ap some turned;
      by_id =
          subst (λ j. select (has_id j) (update (has_id r.id) f rows) ≡ some (f r))
            (sym (keep_id r))
            (select-update (has_id r.id) (has_id r.id) f (λ x. rw (keep_id x)) rows v.by_id
              ∙ ap some turned);
    }

-- The row after a failed attempt.
abbrev pub failed : ℕ → PinRow → PinRow
failed now r =
    if leb max_attempts (r.attempt_count + 1) then lock_row now (fail_row r) else fail_row r

-- An earlier success has left a window open, in which no PIN is needed.
abbrev pub in_window : ℕ → PinRow → Bool
in_window now r = not r.require_every_use && still_valid now r.unlocked_until

-- A guess: when it is made, and the PIN.
abbrev pub Guess : Type 0
Guess = ℕ × Bytes

module _ (c : Kdf) where
  fail_attempt_lem :
      (now : ℕ) (t : ResourceType) (i : ℕ) (rows : List PinRow) (r : PinRow)
      → Holds t i rows r
      → ((fail_attempt c now r rows).0 ≡ err pin_mismatch)
        × Holds t i (fail_attempt c now r rows).1 (failed now r)
  unfolding fail_attempt
  fail_attempt_lem now t i rows r v =
      let counted = update-Holds fail_row (λ x. refl) (λ x. refl) (λ x. refl) t i rows r v in
      let row : select (has_id r.id) (update (has_id r.id) fail_row rows) ≡ some (fail_row r) =
        counted.by_id in
      let locked =
        update-Holds (lock_row now) (λ x. refl) (λ x. refl) (λ x. refl) t i _ (fail_row r)
          counted in
      elim (Bool-cases (leb max_attempts (r.attempt_count + 1))) [
        | inl last ↦ rw (row, last, fail_attempt) (refl, locked)
        | inr more ↦ rw (row, more, fail_attempt) (refl, counted)
      ]

  -- The guess is wrong: Argon2id gives a hash for it that is not the stored one.
  pub record IsWrong (r : PinRow) (g : Guess) : Type 0 where
    pub hash : Bytes
    pub derived : c.derive_key g.1 r.pin_salt ≡ some hash
    pub differs : hash ≢ r.pin_hash

  pub verify_wrong :
      (t : ResourceType) (i : ℕ) (g : Guess) (rows : List PinRow) (r : PinRow)
      → Holds t i rows r
      → is_set r.locked_at ≡ false
      → in_window g.0 r ≡ false
      → IsWrong r g
      → ((verify_pin c g.0 t i g.1 rows).0 ≡ err pin_mismatch)
        × Holds t i (verify_pin c g.0 t i g.1 rows).1 (failed g.0 r)
  unfolding verify_pin get_pin_row verify_row
  verify_wrong t i g rows r v unlocked closed w =
      let bad : list_eq.beq w.hash r.pin_hash ≡ false =
        ground (arith, bytes_iff w.hash r.pin_hash, w.differs) in
      rw (v.found, unlocked, closed, w.derived, bad, verify_pin, get_pin_row, verify_row)
        (fail_attempt_lem g.0 t i rows r v)

  -- In an open window no PIN is needed, and nothing changes.
  pub verify_in_window :
      (now : ℕ) (t : ResourceType) (i : ℕ) (pin : Bytes) (rows : List PinRow) (r : PinRow)
      → select (has_key t i) rows ≡ some r
      → is_set r.locked_at ≡ false
      → in_window now r ≡ true
      → verify_pin c now t i pin rows ≡ (ok tt, rows)
  unfolding verify_pin get_pin_row verify_row
  verify_in_window now t i pin rows r found unlocked opened =
      rw (found, unlocked, opened, verify_pin, get_pin_row, verify_row)

  -- A locked PIN is refused whatever is typed, and nothing changes.
  pub verify_locked :
      (now : ℕ) (t : ResourceType) (i : ℕ) (pin : Bytes) (rows : List PinRow) (r : PinRow)
      → select (has_key t i) rows ≡ some r
      → is_set r.locked_at ≡ true
      → verify_pin c now t i pin rows ≡ (err pin_locked, rows)
  unfolding verify_pin get_pin_row verify_row
  verify_locked now t i pin rows r found locked =
      rw (found, locked, verify_pin, get_pin_row, verify_row)

  -- The right PIN is accepted while the PIN is not locked.
  pub verify_right :
      (now : ℕ) (t : ResourceType) (i : ℕ) (pin : Bytes) (rows : List PinRow) (r : PinRow)
      → select (has_key t i) rows ≡ some r
      → is_set r.locked_at ≡ false
      → c.derive_key pin r.pin_salt ≡ some r.pin_hash
      → (verify_pin c now t i pin rows).0 ≡ ok tt
  unfolding verify_pin get_pin_row verify_row pass_attempt
  verify_right now t i pin rows r found unlocked right = elim (Bool-cases (in_window now r)) [
    | inl opened ↦ rw (found, unlocked, opened, verify_pin, get_pin_row, verify_row)
    | inr closed ↦
        rw
          (found, unlocked, closed, right, beq_refl r.pin_hash, verify_pin, get_pin_row, verify_row)
          (ground arith)
  ]
