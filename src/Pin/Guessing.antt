-- ===== src/Pin/Guessing.antt =====
-- Sequences of guesses at a PIN (src/pin.rs): it locks at the eighth failure.
use mathlib.Core.Path.{subst}
use key_quorom.Prelude.{
  ℕ, Bytes, suc, ◌+◌, ◌≤◌, ◌<◌, ◌≡◌, refl, sym, ◌∙◌, true, false, some, List, [], ◌∷◌, arith, ap,
  leb, ltb, ltb→lt, if◌then◌else◌, Bool-cases, inl, inr,
}
use key_quorom.Prelude.Sql.{select}
use key_quorom.Error.{Result, ok, err, pin_locked}
use key_quorom.Pin.{Kdf, ResourceType, PinRow, has_key, is_set, verify_pin, max_attempts}
use key_quorom.Pin.Lockout.{
  Holds, failed, Guess, in_window, IsWrong, verify_wrong, verify_in_window, verify_locked,
  verify_right,
}

module _ (c : Kdf) where
  -- A sequence of calls: the table after them.
  unfoldable pub guess_all : ResourceType → ℕ → List Guess → List PinRow → List PinRow
  guess_all t i [] rows = rows
  guess_all t i (g ∷ gs) rows = guess_all t i gs (verify_pin c g.0 t i g.1 rows).1

  abbrev pub AllWrong : PinRow → List Guess → Type 0
  AllWrong r [] = Unit
  AllWrong r (g ∷ gs) = IsWrong c r g × AllWrong r gs

  -- The guesses that are made outside the window of the row.
  abbrev pub counted : PinRow → List Guess → ℕ
  counted r [] = 0
  counted r (g ∷ gs) = let rest = counted r gs in if in_window g.0 r then rest else suc rest

  -- Two rows of the same PIN, in the same window.
  record SamePin (r r' : PinRow) : Type 0 where
    hash : r'.pin_hash ≡ r.pin_hash
    salt : r'.pin_salt ≡ r.pin_salt
    every : r'.require_every_use ≡ r.require_every_use
    until : r'.unlocked_until ≡ r.unlocked_until

  SamePin-trans : {r r' r'' : PinRow} → SamePin r r' → SamePin r' r'' → SamePin r r''
  SamePin-trans p q = record {
    hash = q.hash ∙ p.hash;
    salt = q.salt ∙ p.salt;
    every = q.every ∙ p.every;
    until = q.until ∙ p.until;
  }

  failed-SamePin : (now : ℕ) (r : PinRow) → SamePin r (failed now r)
  failed-SamePin now r = elim (Bool-cases (leb max_attempts (r.attempt_count + 1))) [
    | inl y ↦ rw y (record { hash = refl; salt = refl; every = refl; until = refl })
    | inr n ↦ rw n (record { hash = refl; salt = refl; every = refl; until = refl })
  ]

  IsWrong-SamePin : (r r' : PinRow) (g : Guess) → SamePin r r' → IsWrong c r g → IsWrong c r' g
  IsWrong-SamePin r r' g s w = record {
    hash = w.hash;
    derived = rw s.salt w.derived;
    differs = rw s.hash w.differs;
  }

  AllWrong-SamePin :
      (r r' : PinRow) (gs : List Guess) → SamePin r r' → AllWrong r gs → AllWrong r' gs
  AllWrong-SamePin r r' [] s w = tt
  AllWrong-SamePin r r' (g ∷ gs) s w =
      (IsWrong-SamePin r r' g s w.0, AllWrong-SamePin r r' gs s w.1)

  in_window-SamePin : (r r' : PinRow) (now : ℕ) → SamePin r r' → in_window now r' ≡ in_window now r
  in_window-SamePin r r' now s = rw (s.every, s.until) refl

  counted-SamePin : (r r' : PinRow) (gs : List Guess) → SamePin r r' → counted r' gs ≡ counted r gs
  counted-SamePin r r' [] s = refl
  counted-SamePin r r' (g ∷ gs) s =
      rw (in_window-SamePin r r' g.0 s, counted-SamePin r r' gs s) refl

  -- Where the row stands after `k` counted guesses.
  record Guessed (t : ResourceType) (i : ℕ) (r : PinRow) (k : ℕ) (rows : List PinRow) : Type 0 where
    row : PinRow
    holds : Holds t i rows row
    open_below : r.attempt_count + k < max_attempts → is_set row.locked_at ≡ false
    locked_from : max_attempts ≤ r.attempt_count + k → is_set row.locked_at ≡ true
    pin : SamePin r row

  guess_locked :
      (t : ResourceType) (i : ℕ) (gs : List Guess) (rows : List PinRow) (r : PinRow)
      → select (has_key t i) rows ≡ some r
      → is_set r.locked_at ≡ true
      → guess_all t i gs rows ≡ rows
  unfolding guess_all
  guess_locked t i [] rows r found locked = refl
  guess_locked t i (g ∷ gs) rows r found locked =
      rw (verify_locked c g.0 t i g.1 rows r found locked) (guess_locked t i gs rows r found locked)

  failed_locks :
      (now : ℕ) (r : PinRow)
      → is_set r.locked_at ≡ false
      → is_set (failed now r).locked_at ≡ leb max_attempts (r.attempt_count + 1)
  failed_locks now r h = ground arith

  failed_counts : (now : ℕ) (r : PinRow) → (failed now r).attempt_count ≡ r.attempt_count + 1
  failed_counts now r = ground arith

  -- A counted guess, before guesses that are counted from the row that it leaves.
  guess_closed :
      (t : ResourceType) (i : ℕ) (g : Guess) (gs : List Guess) (rows : List PinRow) (r : PinRow)
      → Holds t i rows r
      → is_set r.locked_at ≡ false
      → r.attempt_count < max_attempts
      → in_window g.0 r ≡ false
      → IsWrong c r g
      → (is_set (failed g.0 r).locked_at ≡ false
          → (failed g.0 r).attempt_count < max_attempts
          → AllWrong (failed g.0 r) gs
          → Guessed t i
              (failed g.0 r)
              (counted (failed g.0 r) gs)
              (guess_all t i gs (verify_pin c g.0 t i g.1 rows).1))
      → AllWrong (failed g.0 r) gs
      → Guessed t i r (suc (counted r gs)) (guess_all t i gs (verify_pin c g.0 t i g.1 rows).1)
  guess_closed t i g gs rows r v unlocked few closed wrong next_guesses later =
      let (_, next) = verify_wrong c t i g rows r v unlocked closed wrong in
      let same = failed-SamePin g.0 r in
      let locks = failed_locks g.0 r unlocked in
      let counts = failed_counts g.0 r in
      let as_many = counted-SamePin r (failed g.0 r) gs same in
      elim (Bool-cases (leb max_attempts (r.attempt_count + 1))) [
        | inl last ↦
            subst (Guessed t i r (suc (counted r gs)))
              (sym (guess_locked t i gs _ (failed g.0 r) next.found (locks ∙ last)))
              (record {
                row = failed g.0 r;
                holds = next;
                open_below = λ h. absurd (ground arith);
                locked_from = λ _. locks ∙ last;
                pin = same;
              })
        | inr more ↦
            let rest = next_guesses (locks ∙ more) (ground arith) later in
            record {
              row = rest.row;
              holds = rest.holds;
              open_below = λ h. rest.open_below (omega (arith, counts, as_many));
              locked_from = λ h. rest.locked_from (omega (arith, counts, as_many));
              pin = SamePin-trans same rest.pin;
            }
      ]

  guess_all-Guessed :
      (t : ResourceType) (i : ℕ) (gs : List Guess) (rows : List PinRow) (r : PinRow)
      → Holds t i rows r
      → is_set r.locked_at ≡ false
      → r.attempt_count < max_attempts
      → AllWrong r gs
      → Guessed t i r (counted r gs) (guess_all t i gs rows)
  unfolding guess_all
  guess_all-Guessed t i [] rows r v unlocked few w = record {
    row = r;
    holds = v;
    open_below = λ _. unlocked;
    locked_from = λ h. absurd (omega arith);
    pin = record { hash = refl; salt = refl; every = refl; until = refl };
  }
  guess_all-Guessed t i (g ∷ gs) rows r v unlocked few w = elim (Bool-cases (in_window g.0 r)) [
    | inl opened ↦
        rw (opened, verify_in_window c g.0 t i g.1 rows r v.found unlocked opened)
          (guess_all-Guessed t i gs rows r v unlocked few w.1)
    | inr closed ↦ rw closed (
        guess_closed t i g gs rows r v unlocked few closed w.0
          (guess_all-Guessed t i gs (verify_pin c g.0 t i g.1 rows).1 (failed g.0 r)
            (verify_wrong c t i g rows r v unlocked closed w.0).1)
          (AllWrong-SamePin r (failed g.0 r) gs (failed-SamePin g.0 r) w.1))
  ]

  -- Wrong guesses at an unlocked PIN whose row counts fewer than eight failures, of which those count
  -- that are made outside the window that the last success has left open: at any time after them,
  -- the right PIN is accepted if the failures counted before and the guesses that count are fewer
  -- than eight together, and refused with `PinLocked` if they are eight or more.
  pub verify_pin-guess_all :
      (t : ResourceType) (i : ℕ) (gs : List Guess) (rows : List PinRow) (r : PinRow) (now : ℕ)
      (pin : Bytes)
      → Holds t i rows r
      → is_set r.locked_at ≡ false
      → r.attempt_count < max_attempts
      → AllWrong r gs
      → c.derive_key pin r.pin_salt ≡ some r.pin_hash
      → (verify_pin c now t i pin (guess_all t i gs rows)).0
        ≡ (if ltb (r.attempt_count + counted r gs) max_attempts then ok tt else err pin_locked)
  verify_pin-guess_all t i gs rows r now pin v unlocked few w right =
      let after = guess_all-Guessed t i gs rows r v unlocked few w in
      elim (Bool-cases (ltb (r.attempt_count + counted r gs) max_attempts)) [
        | inl below ↦ rw below (
            verify_right c now t i pin _ after.row after.holds.found
              (after.open_below (ltb→lt _ _ below)) (rw (after.pin.salt, after.pin.hash) right))
        | inr above ↦ rw above (
            ap (λ (p : Result (Unit {0}) × List PinRow). p.0)
              (verify_locked c now t i pin _ after.row after.holds.found
                (after.locked_from (ground arith))))
      ]

  -- Let an unlocked PIN's row count fewer than eight failures since the PIN was set or last verified
  -- outside a window, and let wrong guesses follow without a call between them, of which so many are
  -- made outside the window that the last success has left open that the failures are eight or more.
  -- Then any calls that verify a PIN, at any times and with the right PIN too, change nothing, and
  -- each call after them is refused with `PinLocked`.
  pub guess_all-locks :
      (t : ResourceType) (i : ℕ) (gs later : List Guess) (rows : List PinRow) (r : PinRow) (now : ℕ)
      (pin : Bytes)
      → Holds t i rows r
      → is_set r.locked_at ≡ false
      → r.attempt_count < max_attempts
      → AllWrong r gs
      → max_attempts ≤ r.attempt_count + counted r gs
      → (guess_all t i later (guess_all t i gs rows) ≡ guess_all t i gs rows)
        × (verify_pin c now t i pin (guess_all t i later (guess_all t i gs rows))
            ≡ (err pin_locked, guess_all t i gs rows))
  guess_all-locks t i gs later rows r now pin v unlocked few w above =
      let after = guess_all-Guessed t i gs rows r v unlocked few w in
      let locked = after.locked_from above in
      let same = guess_locked t i later _ after.row after.holds.found locked in
      (same, rw same (verify_locked c now t i pin _ after.row after.holds.found locked))
