-- ===== src/Keys.antt =====
-- Registered hardware keys (src/keys.rs): the table and the lookups that the key tree uses.
pub mod Register
pub mod Revoke
pub mod Curve
pub mod OpenSsh
mod Tests
use key_quorom.Prelude.{ℕ, Bytes, ◌≡◌, Bool, true, false, Option, none, some, List, arith, ◌==◌}
use key_quorom.Prelude.Sql.{select}
use key_quorom.Error.{Result, ok, err, ◌>>=◌, ◌>>◌, guard, db, wrong_key_type, key_revoked}

pub data KeyType : Type 0 where
  encryption signing : KeyType

pub record HardwareKey : Type 0 where
  pub id : ℕ
  pub key_type : KeyType
  pub public_key : Bytes
  pub revoked_at : Option ℕ

abbrev pub is_encryption : KeyType → Bool
is_encryption encryption = true
is_encryption signing = false

abbrev pub is_unrevoked : Option ℕ → Bool
is_unrevoked none = true
is_unrevoked (some t) = false

-- A missing row is an error of SQLite.
unfoldable pub get_key : List HardwareKey → ℕ → Result HardwareKey
get_key keys id = elim (select (λ (k : HardwareKey). k.id == id) keys) [
  | none ↦ err db
  | some k ↦ ok k
]

unfoldable pub get_active_encryption_key : List HardwareKey → ℕ → Result HardwareKey
get_active_encryption_key keys id = do
  key ← get_key keys id
  guard (is_encryption key.key_type) wrong_key_type
  guard (is_unrevoked key.revoked_at) key_revoked
  ok key

-- The key of this id is registered for encryption and not revoked.
pub record IsActive (keys : List HardwareKey) (id : ℕ) : Type 0 where
  pub key : HardwareKey
  pub registered : select (λ (k : HardwareKey). k.id == id) keys ≡ some key
  pub encrypts : key.key_type ≡ encryption
  pub unrevoked : key.revoked_at ≡ none

pub get_active_encryption_key_iff :
    (keys : List HardwareKey) (id : ℕ) (k : HardwareKey)
    → get_active_encryption_key keys id ≡ ok k
    → IsActive keys id
unfolding get_active_encryption_key get_key
get_active_encryption_key_iff keys id k h = record {
  key = k;
  registered = ground arith;
  encrypts = ground arith;
  unrevoked = ground arith;
}

pub get_active_encryption_key_of :
    (keys : List HardwareKey) (id : ℕ) (v : IsActive keys id)
    → get_active_encryption_key keys id ≡ ok v.key
unfolding get_active_encryption_key get_key
get_active_encryption_key_of keys id v =
    rw (v.registered, v.encrypts, v.unrevoked, get_active_encryption_key, get_key)
