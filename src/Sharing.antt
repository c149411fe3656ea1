-- ===== src/Sharing.antt =====
-- Share links for credentials and locked files (src/sharing.rs). `credential_shares` and
-- `file_shares` have one shape and one code path; a `Shares` is either table. A statement of SQLite
-- is atomic, so each function is a sequence of steps on the rows.
-- Times are whole seconds, as `datetime(…)` compares them. Base64, SHA-256 and the calendar
-- arithmetic of `datetime('now', modifier)` are the parameter `TokenCodec`.
pub mod Steps
pub mod Follows
pub mod Redeem
pub mod Create
pub mod Tables
mod Tests
use key_quorom.Prelude.{
  ℕ, Bytes, ◌+◌, ◌≡◌, Bool, true, false, not, ◌&&◌, Option, none, some, List, [], ◌∷◌, ◌++◌, ltb,
  leb, ◌==◌, if◌then◌else◌,
}
use key_quorom.Prelude.Int.{ℤ, pos, negsuc}
use key_quorom.Prelude.Equality.{◌≟◌, contains, nat_eq, list_eq}
use key_quorom.Prelude.Sql.{select, update, count_where, next_id}
use key_quorom.Error.{
  Result, ok, err, ◌>>=◌, db, invalid_share_token, share_revoked, share_expired, share_exhausted,
}

-- What the code takes from base64, SHA-256 with hex, and SQLite's `datetime('now', '±n seconds')`,
-- which is NULL out of its range.
pub record TokenCodec : Type 0 where
  pub encode : Bytes → Bytes
  pub decode : Bytes → Option Bytes
  pub digest : Bytes → Bytes
  pub datetime : ℕ → ℤ → Option ℕ
  pub decode-encode : (raw : Bytes) → decode (encode raw) ≡ some raw

pub record ShareRow : Type 0 where
  pub id : ℕ
  pub resource_id : ℕ
  pub token_hash : Bytes
  pub expires_at : ℕ
  pub max_uses : Option ℕ
  pub use_count : ℕ
  pub revoked_at : Option ℕ

pub record Share : Type 0 where
  pub id : ℕ
  pub token : Bytes
  pub expires_at : ℕ

-- The share rows, and the ids of the table that they reference.
pub record Shares : Type 0 where
  pub rows : List ShareRow
  pub resources : List ℕ

abbrev pub is_set : Option ℕ → Bool
is_set none = false
is_set (some t) = true

abbrev pub has_hash : Bytes → ShareRow → Bool
has_hash h r = r.token_hash ≟ h

abbrev pub has_id : ℕ → ShareRow → Bool
has_id i r = r.id == i

-- `max_uses IS NULL OR use_count < max_uses`
abbrev pub below_limit : Option ℕ → ℕ → Bool
below_limit none n = true
below_limit (some m) n = ltb n m

-- The WHERE clause of the claiming UPDATE.
abbrev pub eligible : ℕ → Bytes → ShareRow → Bool
eligible now h r =
    has_hash h r
    && (not (is_set r.revoked_at) && (ltb now r.expires_at && below_limit r.max_uses r.use_count))

abbrev pub take_use : ShareRow → ShareRow
take_use r = record r { use_count = r.use_count + 1 }

-- CHECK (max_uses IS NULL OR max_uses > 0)
unfoldable pub checked_limit : Option ℤ → Option (Option ℕ)
checked_limit none = some none
checked_limit (some (pos n)) = if ltb 0 n then some (some n) else none
checked_limit (some (negsuc n)) = none

abbrev pub new_row : Bytes → ℕ → ℕ → Option ℕ → ℕ → ShareRow
new_row h resource_id t m id = record {
  id = id;
  resource_id = resource_id;
  token_hash = h;
  expires_at = t;
  max_uses = m;
  use_count = 0;
  revoked_at = none;
}

-- The INSERT: the foreign key, NOT NULL, CHECK and UNIQUE constraints refuse it.
unfoldable pub insert_row :
    Bytes → ℕ → Option ℕ → Option (Option ℕ) → Shares → Result ShareRow × Shares
insert_row h resource_id (some t) (some m) s =
    let row = new_row h resource_id t m (next_id (λ (r : ShareRow). r.id) s.rows) in
    if contains s.resources resource_id && count_where (has_hash h) s.rows == 0
    then (ok row, record s { rows = s.rows ++ row ∷ [] })
    else (err db, s)
insert_row h resource_id _ m s = (err db, s)

-- The claiming UPDATE: the rows after it, and how many it changed.
unfoldable pub claim : ℕ → Bytes → Shares → ℕ × Shares
claim now h s = (
  count_where (eligible now h) s.rows,
  record s { rows = update (eligible now h) take_use s.rows },
)

-- The follow-up read that reports why no row was claimed.
unfoldable pub refusal : ℕ → Option ShareRow → Result ℕ
refusal now none = err invalid_share_token
refusal now (some r) =
    if is_set r.revoked_at
    then err share_revoked
    else if leb r.expires_at now
    then err share_expired
    else if not (below_limit r.max_uses r.use_count)
    then err share_exhausted
    else err share_exhausted

-- What is reported after the UPDATE changed `claimed` rows.
unfoldable pub report : ℕ → Bytes → ℕ → List ShareRow → Result ℕ
unfolding refusal
report later h claimed rows =
    if claimed == 1
    then elim (select (has_hash h) rows) [ none ↦ err db | some r ↦ ok r.resource_id ]
    else refusal later (select (has_hash h) rows)

module _ (c : TokenCodec) where
  -- The 32 random bytes are an argument.
  unfoldable pub generate_token : Bytes → Bytes × Bytes
  generate_token raw = (c.encode raw, c.digest raw)

  unfoldable pub hash_token : Bytes → Result Bytes
  hash_token token = elim (c.decode token) [
    | none ↦ err invalid_share_token
    | some raw ↦ ok (c.digest raw)
  ]

  unfoldable pub share_id_for_token : Bytes → Shares → Result ℕ
  unfolding hash_token
  share_id_for_token token s = do
    h ← hash_token token
    elim (select (has_hash h) s.rows) [ none ↦ err invalid_share_token | some r ↦ ok r.id ]

  unfoldable pub create_share : ℕ → Bytes → ℕ → ℤ → Option ℤ → Shares → Result Share × Shares
  unfolding generate_token
  create_share now raw resource_id ttl_seconds max_uses s =
      let (token, token_hash) = generate_token raw in
      let (row, s') =
        insert_row token_hash resource_id (c.datetime now ttl_seconds) (checked_limit max_uses) s in
      (row >>= λ r. ok (record { id = r.id; token = token; expires_at = r.expires_at }), s')

  -- The UPDATE runs at `now`, and what other connections do to the table before the read at
  -- `later` is `meanwhile`.
  unfoldable pub redeem_share : ℕ → ℕ → (Shares → Shares) → Bytes → Shares → Result ℕ × Shares
  redeem_share now later meanwhile token s = elim (hash_token token) [
    | err e ↦ (err e, s)
    | ok h ↦
        let (claimed, s') = claim now h s in
        let s'' = meanwhile s' in (report later h claimed s''.rows, s'')
  ]

-- A revocation of an id that is not there changes nothing and is no error.
unfoldable pub revoke_share : ℕ → ℕ → Shares → Result (Unit {0}) × Shares
revoke_share now share_id s = (
  ok tt,
  record s {
    rows = update (has_id share_id) (λ (r : ShareRow). record r { revoked_at = some now }) s.rows;
  },
)
