-- ===== src/Pin/Tests.antt =====
-- The PIN gate on a concrete table (src/pin.rs).
use key_quorom.Prelude.{
  Bytes, ◌+◌, ◌≡◌, refl, false, none, some, List, [], ◌∷◌, arith, ltb, if◌then◌else◌,
}
use key_quorom.Prelude.Equality.{nat_eq, string_eq}
use key_quorom.Prelude.Sql.{select}
use key_quorom.Error.{ok, err, pin_locked}
use key_quorom.Pin.{Kdf, ResourceType, credential, PinRow, verify_pin, max_attempts}
use key_quorom.Pin.Lockout.{Holds, Guess, IsWrong}
use key_quorom.Pin.Guessing.{guess_all, AllWrong, counted, verify_pin-guess_all, guess_all-locks}

abbrev kdf : Kdf
kdf = record { derive_key = λ pin salt. some pin; datetime = λ now n. some (now + n) }

abbrev pin : Bytes
pin = 49 ∷ 50 ∷ 51 ∷ 52 ∷ []

abbrev row : PinRow
row = record {
  id = 1;
  resource_type = "credential";
  resource_id = 5;
  pin_hash = pin;
  pin_salt = 9 ∷ [];
  require_every_use = false;
  ttl_seconds = 60;
  attempt_count = 6;
  locked_at = none;
  unlocked_until = some 8;
}

row-Holds : Holds credential 5 (row ∷ []) row
unfolding select key_quorom.Pin.as_str
row-Holds = record { found = refl; by_id = refl }

abbrev guess : Guess
guess = (10, 49 ∷ 49 ∷ 49 ∷ 49 ∷ [])

-- At time 5 the window is open.
abbrev guess_in_window : Guess
guess_in_window = (5, guess.1)

wrong : IsWrong kdf row guess
wrong = record { hash = guess.1; derived = refl; differs = ground arith }

unneeded : IsWrong kdf row guess_in_window
unneeded = record { hash = guess.1; derived = refl; differs = ground arith }

-- One more guess leaves the PIN usable, and two lock it; one in the window does not count.
one_wrong : AllWrong kdf row (guess_in_window ∷ guess ∷ [])
one_wrong = (unneeded, (wrong, tt))

one_counted : counted kdf row (guess_in_window ∷ guess ∷ []) ≡ 1
one_counted = refl

verify_pin-guess_all_example :
    (verify_pin kdf 20 credential 5 pin
      (guess_all kdf credential 5 (guess_in_window ∷ guess ∷ []) (row ∷ []))).0
    ≡ (if ltb (6 + counted kdf row (guess_in_window ∷ guess ∷ [])) max_attempts
        then ok tt
        else err pin_locked)
verify_pin-guess_all_example =
    verify_pin-guess_all kdf credential 5 (guess_in_window ∷ guess ∷ []) (row ∷ []) row 20 pin
      row-Holds refl (omega arith) one_wrong refl

abbrev two_guesses : List Guess
two_guesses = guess ∷ guess_in_window ∷ guess ∷ []

two_wrong : AllWrong kdf row two_guesses
two_wrong = (wrong, (unneeded, (wrong, tt)))

abbrev right_guess : Guess
right_guess = (15, pin)

guess_all-locks_example :
    (guess_all kdf credential 5
        (right_guess ∷ [])
        (guess_all kdf credential 5 two_guesses (row ∷ []))
      ≡ guess_all kdf credential 5 two_guesses (row ∷ []))
    × (verify_pin kdf 20 credential 5 pin (
          guess_all kdf credential 5
            (right_guess ∷ [])
            (guess_all kdf credential 5 two_guesses (row ∷ [])))
        ≡ (err pin_locked, guess_all kdf credential 5 two_guesses (row ∷ [])))
guess_all-locks_example =
    guess_all-locks kdf credential 5 two_guesses (right_guess ∷ []) (row ∷ []) row 20 pin row-Holds
      refl (omega arith) two_wrong (omega arith)
