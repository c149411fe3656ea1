-- ===== src/Pin.antt =====
-- The PIN gate (src/pin.rs): the `pins` table and the operations on it, each run by one connection
-- without another writing in between. Times are whole seconds, as `datetime(…)` compares them.
-- Argon2id and SQLite's `datetime('now', '+n seconds')` are the parameter `Kdf`; the random salt is
-- an argument.
pub mod Lockout
pub mod Guessing
mod Tests
use key_quorom.Prelude.{
  ℕ, Bytes, String, ◌+◌, Bool, true, false, not, ◌&&◌, ◌||◌, Option, none, some, List, [], ◌∷◌,
  ◌++◌, ltb, leb, ◌==◌, if◌then◌else◌, length,
}
use key_quorom.Prelude.Int.{ℤ, pos, negsuc}
use key_quorom.Prelude.Equality.{◌≟◌, nat_eq, list_eq, string_eq}
use key_quorom.Prelude.Sql.{select, update, next_id}
use key_quorom.Error.{
  Result, ok, err, db, key_derivation_failed, pin_mismatch, pin_locked, pin_not_set, invalid_pin,
}

-- `derive_key` of src/crypto.rs, which is Argon2id and may fail, and the time `n` seconds after
-- `now`, which is NULL out of SQLite's range.
pub record Kdf : Type 0 where
  pub derive_key : Bytes → Bytes → Option Bytes
  pub datetime : ℕ → ℕ → Option ℕ

abbrev pub max_attempts : ℕ
max_attempts = 8

pub data ResourceType : Type 0 where
  credential locked_file quorum_file credential_share file_share : ResourceType

unfoldable pub as_str : ResourceType → String
as_str credential = "credential"
as_str locked_file = "locked_file"
as_str quorum_file = "quorum_file"
as_str credential_share = "credential_share"
as_str file_share = "file_share"

all_digits : Bytes → Bool
all_digits [] = true
all_digits (b ∷ bs) = leb b'0' b && leb b b'9' && all_digits bs

unfoldable pub is_four_digit_pin : Bytes → Bool
unfolding all_digits
is_four_digit_pin pin = length pin == 4 && all_digits pin

pub record PinRow : Type 0 where
  pub id : ℕ
  pub resource_type : String
  pub resource_id : ℕ
  pub pin_hash : Bytes
  pub pin_salt : Bytes
  pub require_every_use : Bool
  pub ttl_seconds : ℕ
  pub attempt_count : ℕ
  pub locked_at : Option ℕ
  pub unlocked_until : Option ℕ

abbrev pub is_set : Option ℕ → Bool
is_set none = false
is_set (some t) = true

abbrev pub has_key : ResourceType → ℕ → PinRow → Bool
has_key t i r = r.resource_type ≟ as_str t && r.resource_id == i

abbrev pub has_id : ℕ → PinRow → Bool
has_id i r = r.id == i

unfoldable pub get_pin_row : ResourceType → ℕ → List PinRow → Result PinRow
get_pin_row t i rows = elim (select (has_key t i) rows) [ none ↦ err pin_not_set | some r ↦ ok r ]

unfoldable pub has_pin : ResourceType → ℕ → List PinRow → Result Bool
has_pin t i rows = elim (get_pin_row t i rows) [
  | ok r ↦ ok true
  | err e ↦ elim e [ pin_not_set ↦ ok false | other ↦ err other ]
]

-- `datetime(?1) > datetime('now')`
abbrev pub still_valid : ℕ → Option ℕ → Bool
still_valid now none = false
still_valid now (some t) = ltb now t

unfoldable pub verification_required : ℕ → ResourceType → ℕ → List PinRow → Result Bool
verification_required now t i rows = elim (get_pin_row t i rows) [
  | ok r ↦
      if r.require_every_use || is_set r.locked_at
      then ok true
      else elim r.unlocked_until [ none ↦ ok true | some u ↦ ok (leb u now) ]
  | err e ↦ elim e [ pin_not_set ↦ ok false | other ↦ err other ]
]

-- ON CONFLICT … DO UPDATE
abbrev pub reset_row : Bytes → Bytes → Bool → ℕ → PinRow → PinRow
reset_row hash salt every ttl r = record r {
  pin_hash = hash;
  pin_salt = salt;
  require_every_use = every;
  ttl_seconds = ttl;
  attempt_count = 0;
  locked_at = none;
  unlocked_until = none;
}

abbrev pub new_row : ResourceType → ℕ → Bytes → Bytes → Bool → ℕ → ℕ → PinRow
new_row t i hash salt every ttl id = record {
  id = id;
  resource_type = as_str t;
  resource_id = i;
  pin_hash = hash;
  pin_salt = salt;
  require_every_use = every;
  ttl_seconds = ttl;
  attempt_count = 0;
  locked_at = none;
  unlocked_until = none;
}

-- The upsert, for a lifetime that passed CHECK (ttl_seconds > 0).
unfoldable pub upsert : ResourceType → ℕ → Bytes → Bytes → Bool → ℕ → List PinRow → List PinRow
upsert t i hash salt every ttl rows = elim (select (has_key t i) rows) [
  | some r ↦ update (has_key t i) (reset_row hash salt every ttl) rows
  | none ↦ rows ++ new_row t i hash salt every ttl (next_id (λ (r : PinRow). r.id) rows) ∷ []
]

unfoldable pub checked_ttl : ℤ → Option ℕ
checked_ttl (pos n) = if ltb 0 n then some n else none
checked_ttl (negsuc n) = none

-- One more failed attempt.
abbrev pub fail_row : PinRow → PinRow
fail_row r = record r { attempt_count = r.attempt_count + 1 }

abbrev pub lock_row : ℕ → PinRow → PinRow
lock_row now r = record r { locked_at = some now }

abbrev pub pass_row : PinRow → PinRow
pass_row r = record r { attempt_count = 0 }

abbrev pub open_row : Option ℕ → PinRow → PinRow
open_row u r = record r { attempt_count = 0; unlocked_until = u }

module _ (c : Kdf) where
  unfoldable pub set_pin :
      Bytes → ResourceType → ℕ → Bytes → Bool → ℤ → List PinRow → Result (Unit {0}) × List PinRow
  set_pin salt t i pin every ttl rows =
      if not (is_four_digit_pin pin)
      then (err invalid_pin, rows)
      else elim (c.derive_key pin salt) [
        | none ↦ (err key_derivation_failed, rows)
        | some hash ↦ elim (checked_ttl ttl) [
          | none ↦ (err db, rows)
          | some n ↦ (ok tt, upsert t i hash salt every n rows)
        ]
      ]

  -- The branch on a wrong PIN.
  unfoldable pub fail_attempt : ℕ → PinRow → List PinRow → Result (Unit {0}) × List PinRow
  fail_attempt now r rows =
      let rows' = update (has_id r.id) fail_row rows in
      elim (select (has_id r.id) rows') [
        | none ↦ (err db, rows')
        | some counted ↦
            if leb max_attempts counted.attempt_count
            then (err pin_mismatch, update (has_id r.id) (lock_row now) rows')
            else (err pin_mismatch, rows')
      ]

  -- The branch on the right PIN.
  unfoldable pub pass_attempt : ℕ → PinRow → List PinRow → Result (Unit {0}) × List PinRow
  pass_attempt now r rows =
      if r.require_every_use
      then (ok tt, update (has_id r.id) pass_row rows)
      else (ok tt, update (has_id r.id) (open_row (c.datetime now r.ttl_seconds)) rows)

  -- What follows once the row is read.
  unfoldable pub verify_row : ℕ → PinRow → Bytes → List PinRow → Result (Unit {0}) × List PinRow
  verify_row now r pin rows =
      if is_set r.locked_at
      then (err pin_locked, rows)
      else if not r.require_every_use && still_valid now r.unlocked_until
      then (ok tt, rows)
      else elim (c.derive_key pin r.pin_salt) [
        | none ↦ (err key_derivation_failed, rows)
        | some candidate_hash ↦
            if not (candidate_hash ≟ r.pin_hash)
            then fail_attempt now r rows
            else pass_attempt now r rows
      ]

  unfoldable pub verify_pin :
      ℕ → ResourceType → ℕ → Bytes → List PinRow → Result (Unit {0}) × List PinRow
  verify_pin now t i pin rows = elim (get_pin_row t i rows) [
    | err e ↦ (err e, rows)
    | ok r ↦ verify_row now r pin rows
  ]

unfoldable pub relock : ResourceType → ℕ → List PinRow → Result (Unit {0}) × List PinRow
relock t i rows =
    (ok tt, update (has_key t i) (λ (r : PinRow). record r { unlocked_until = none }) rows)
