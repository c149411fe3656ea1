-- ===== src/Relay/ApiKey.antt =====
-- API keys and the licensee issuer (src/relay/api_key.rs). The bearer's bytes are made and hashed
-- by the codec that share tokens use; a time is in whole seconds. The relay's connection is behind
-- a lock, so no other statement comes between those of one call.
pub mod Sessions
pub mod Authenticate
use key_quorom.Prelude.{
  ℕ, zero, Bytes, String, ◌+◌, ◌≡◌, Bool, true, false, not, ◌&&◌, ◌||◌, Option, none, some, List,
  [], ◌∷◌, ◌++◌, map, ltb, leb, ◌==◌, if◌then◌else◌, length,
}
use key_quorom.Prelude.Int.{ℤ, pos}
use key_quorom.Prelude.Equality.{◌≟◌, nat_eq, list_eq, string_eq}
use key_quorom.Prelude.Sql.{select, update, count_where, next_id}
use key_quorom.Error.{
  Error, Result, ok, err, ◌>>=◌, ◌>>◌, guard, ok_or, db, invalid_api_key, invalid_api_key_request,
  api_key_expired, api_key_revoked, api_key_scope_denied, api_key_not_found, invalid_licensee_key,
}
use key_quorom.Sharing.{TokenCodec}

pub data ApiKeyScope : Type 0 where
  inbox_push inbox_pull admin : ApiKeyScope

unfoldable pub as_str : ApiKeyScope → String
as_str inbox_push = "inbox.push"
as_str inbox_pull = "inbox.pull"
as_str admin = "admin"

unfoldable pub parse : String → Result ApiKeyScope
parse s =
    if s ≟ "inbox.push"
    then ok inbox_push
    else if s ≟ "inbox.pull"
    then ok inbox_pull
    else if s ≟ "admin"
    then ok admin
    else err invalid_api_key_request

-- A row of `api_keys` without its `key_hash`, as `load_info` reads it.
pub record ApiKeyInfo : Type 0 where
  pub id : ℕ
  pub scope : String
  pub recipient_fingerprint : Option Bytes
  pub label : Option String
  pub created_at : ℕ
  pub expires_at : Option ℕ
  pub revoked_at : Option ℕ
  pub last_used_at : Option ℕ

pub record ApiKeyRow : Type 0 where
  pub key_hash : Bytes
  pub info : ApiKeyInfo

pub record NewApiKey : Type 0 where
  pub scope : ApiKeyScope
  pub recipient_fingerprint : Option Bytes
  pub label : Option String
  pub ttl_seconds : Option ℤ

pub record CreatedApiKey : Type 0 where
  pub info : ApiKeyInfo
  pub token : Bytes

pub record AuthedKey : Type 0 where
  pub id : ℕ
  pub scope : ApiKeyScope
  pub recipient_fingerprint : Option Bytes

-- The tables `api_keys` and `licensee_issuer`.
pub record Keys : Type 0 where
  pub api_keys : List ApiKeyRow
  pub licensee_issuer : List Bytes

-- "kq_" and "kql_"
abbrev pub token_prefix : Bytes
token_prefix = 107 ∷ 113 ∷ 95 ∷ []

abbrev pub licensee_prefix : Bytes
licensee_prefix = 107 ∷ 113 ∷ 108 ∷ 95 ∷ []

unfoldable pub strip_prefix : Bytes → Bytes → Option Bytes
strip_prefix [] bs = some bs
strip_prefix (p ∷ ps) [] = none
strip_prefix (p ∷ ps) (b ∷ bs) = if p == b then strip_prefix ps bs else none

abbrev pub is_ascii_hexdigit : ℕ → Bool
is_ascii_hexdigit b = leb 48 b && leb b 57 || (leb 65 b && leb b 70 || leb 97 b && leb b 102)

unfoldable pub all_hex : Bytes → Bool
all_hex [] = true
all_hex (b ∷ bs) = is_ascii_hexdigit b && all_hex bs

abbrev pub to_ascii_lowercase : Bytes → Bytes
to_ascii_lowercase = map (λ b. if leb 65 b && leb b 90 then b + 32 else b)

unfoldable pub normalize_fingerprint : Bytes → Result Bytes
unfolding all_hex
normalize_fingerprint fp =
    if length fp == 64 && all_hex fp
    then ok (to_ascii_lowercase fp)
    else err invalid_api_key_request

abbrev pub has_id : ℕ → ApiKeyRow → Bool
has_id i r = r.info.id == i

abbrev pub has_hash : Bytes → ApiKeyRow → Bool
has_hash h r = r.key_hash ≟ h

abbrev pub is_set : Option ℕ → Bool
is_set none = false
is_set (some t) = true

-- `expires_at IS NOT NULL AND datetime(expires_at) <= datetime('now')`
abbrev pub has_expired : ℕ → Option ℕ → Bool
has_expired now none = false
has_expired now (some t) = leb t now

unfoldable pub load_info : ℕ → Keys → Result ApiKeyInfo
load_info i s = elim (select (has_id i) s.api_keys) [
  | none ↦ err api_key_not_found
  | some r ↦ ok r.info
]

-- The columns of the INSERT; the UNIQUE constraint on `key_hash` refuses a hash in use.
unfoldable pub insert_key : ℕ → Bytes → NewApiKey → Option Bytes → Option ℕ → Keys → Result ℕ × Keys
insert_key now h new fp expires_at s =
    let i = next_id (λ (r : ApiKeyRow). r.info.id) s.api_keys in
    let row : ApiKeyRow = record {
      key_hash = h;
      info = record {
        id = i;
        scope = as_str new.scope;
        recipient_fingerprint = fp;
        label = new.label;
        created_at = now;
        expires_at = expires_at;
        revoked_at = none;
        last_used_at = none;
      };
    } in
    if count_where (has_hash h) s.api_keys == 0
    then (ok i, record s { api_keys = s.api_keys ++ row ∷ [] })
    else (err db, s)

-- An inbox-pull key is bound to a recipient, and no other key is.
unfoldable pub checked_binding : ApiKeyScope → Option Bytes → Result (Option Bytes)
unfolding normalize_fingerprint
checked_binding inbox_pull (some fp) = do fp' ← normalize_fingerprint fp; ok (some fp')
checked_binding inbox_pull none = err invalid_api_key_request
checked_binding inbox_push (some fp) = err invalid_api_key_request
checked_binding inbox_push none = ok none
checked_binding admin (some fp) = err invalid_api_key_request
checked_binding admin none = ok none

unfoldable pub revoke : ℕ → ℕ → Keys → Result (Unit {0}) × Keys
revoke now i s =
    let unrevoked = λ (r : ApiKeyRow). has_id i r && not (is_set r.info.revoked_at) in
    let s' = record s {
      api_keys =
          update unrevoked
            (λ (r : ApiKeyRow). record r { info = record (r.info) { revoked_at = some now } })
            s.api_keys;
    } in
    if count_where unrevoked s.api_keys == 1 then (ok tt, s') else (
      elim (select (has_id i) s'.api_keys) [ none ↦ err api_key_not_found | some r ↦ ok tt ],
      s',
    )

module _ (c : TokenCodec) where
  -- The 32 random bytes are the last argument.
  unfoldable pub generate_prefixed_bearer : Bytes → Bytes → Bytes × Bytes
  generate_prefixed_bearer prefix raw = (prefix ++ c.encode raw, c.digest raw)

  unfoldable pub hash_prefixed : Bytes → Bytes → Result Bytes
  hash_prefixed token prefix = do
    rest ← ok_or (strip_prefix prefix token) invalid_api_key
    raw ← ok_or (c.decode rest) invalid_api_key
    guard (length raw == 32) invalid_api_key
    ok (c.digest raw)

  unfoldable pub hash_bearer : Bytes → Result Bytes
  hash_bearer token = hash_prefixed token token_prefix

  unfoldable pub expiry_from_ttl : ℕ → Option ℤ → Result (Option ℕ)
  expiry_from_ttl now none = ok none
  expiry_from_ttl now (some (pos zero)) = err invalid_api_key_request
  expiry_from_ttl now (some ttl) = do
    t ← ok_or (c.datetime now ttl) invalid_api_key_request
    ok (some t)
