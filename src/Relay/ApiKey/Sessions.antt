-- ===== src/Relay/ApiKey/Sessions.antt =====
-- Creating, rotating, checking and authenticating with API keys, and the licensee issuer
-- (src/relay/api_key.rs).
use key_quorom.Prelude.{
  ℕ, Bytes, String, Bool, true, false, not, ◌&&◌, ◌||◌, Option, none, some, [], ◌∷◌, ◌==◌,
  if◌then◌else◌, length,
}
use key_quorom.Prelude.Equality.{◌≟◌, nat_eq, list_eq, string_eq, contains}
use key_quorom.Prelude.Sql.{select, update, count_where}
use key_quorom.Error.{
  Error, Result, ok, err, ◌>>=◌, db, invalid_api_key, api_key_expired, api_key_revoked,
  api_key_scope_denied, invalid_licensee_key,
}
use key_quorom.Sharing.{TokenCodec}
use key_quorom.Relay.ApiKey.{
  ApiKeyScope, ApiKeyRow, NewApiKey, CreatedApiKey, AuthedKey, Keys, as_str, parse, token_prefix,
  licensee_prefix, all_hex, to_ascii_lowercase, has_id, has_hash, is_set, has_expired, load_info,
  insert_key, checked_binding, revoke, generate_prefixed_bearer, hash_prefixed, hash_bearer,
  expiry_from_ttl,
}

pub record KeyCheck : Type 0 where
  pub valid : Bool
  pub id : Option ℕ
  pub scope : Option String
  pub label : Option String
  pub recipient_fingerprint : Option Bytes

abbrev pub invalid : KeyCheck
invalid = record {
  valid = false;
  id = none;
  scope = none;
  label = none;
  recipient_fingerprint = none;
}

-- The WHERE clause of the UPDATE that stamps `last_used_at`.
abbrev pub live : ℕ → Bytes → ApiKeyScope → ApiKeyRow → Bool
live now h required r =
    has_hash h r
    && (not (is_set r.info.revoked_at)
        && (not (has_expired now r.info.expires_at) && r.info.scope ≟ as_str required))

abbrev pub stamp : ℕ → ApiKeyRow → ApiKeyRow
stamp now r = record r { info = record (r.info) { last_used_at = some now } }

-- The read that reports why no row was stamped.
unfoldable pub denial : ℕ → ApiKeyScope → Option ApiKeyRow → Error
denial now required none = invalid_api_key
denial now required (some r) =
    if is_set r.info.revoked_at
    then api_key_revoked
    else if has_expired now r.info.expires_at
    then api_key_expired
    else if not (r.info.scope ≟ as_str required)
    then api_key_scope_denied
    else invalid_api_key

unfoldable pub stamped : ℕ → Bytes → ApiKeyScope → Keys → Result AuthedKey × Keys
unfolding denial
stamped now h required s =
    let s' = record s { api_keys = update (live now h required) (stamp now) s.api_keys } in
    let row = select (has_hash h) s'.api_keys in
    if count_where (live now h required) s.api_keys == 1
    then (
      elim row [
        | none ↦ err db
        | some r ↦ ok (record {
          id = r.info.id;
          scope = required;
          recipient_fingerprint = r.info.recipient_fingerprint;
        })
      ],
      s',
    )
    else (err (denial now required row), s')

unfoldable pub check_hash : ℕ → Bytes → Keys → KeyCheck
unfolding all_hex
check_hash now h s =
    let found = select (has_hash (to_ascii_lowercase h)) s.api_keys in
    if not (length h == 64) || not (all_hex h) then invalid else elim found [
      | none ↦ invalid
      | some r ↦
          if is_set r.info.revoked_at || has_expired now r.info.expires_at
          then invalid
          else record {
            valid = true;
            id = some r.info.id;
            scope = some r.info.scope;
            label = r.info.label;
            recipient_fingerprint = r.info.recipient_fingerprint;
          }
    ]

-- What runs after a statement of a `?` chain that succeeded, with the state that it left.
abbrev pub continue {ℓ κ} :
    {A : Type ℓ} {B : Type κ} → Result A × Keys → (A → Keys → Result B × Keys) → Result B × Keys
continue (ok a, s) k = k a s
continue (err e, s) k = (err e, s)

-- `with_immediate_transaction`: a failure rolls the tables back.
abbrev pub transaction {ℓ} : {A : Type ℓ} → Keys → Result A × Keys → Result A × Keys
transaction before (ok a, s) = (ok a, s)
transaction before (err e, s) = (err e, before)

abbrev pub set_expiry : ℕ → Option ℕ → Keys → Keys
set_expiry i none s = s
set_expiry i (some t) s = record s {
  api_keys =
      update (has_id i)
        (λ (r : ApiKeyRow). record r { info = record (r.info) { expires_at = some t } }) s.api_keys;
}

module _ (c : TokenCodec) where
  unfoldable pub create : ℕ → Bytes → NewApiKey → Keys → Result CreatedApiKey × Keys
  create now raw new s =
      let (token, h) = generate_prefixed_bearer c token_prefix raw in
      continue (checked_binding new.scope new.recipient_fingerprint, s)
        (λ fp s.
          continue (expiry_from_ttl c now new.ttl_seconds, s)
            (λ t s.
              continue (insert_key now h new fp t s)
                (λ i s. (load_info i s >>= λ info. ok (record { info = info; token = token }), s))))

  unfoldable pub rotate : ℕ → Bytes → ℕ → Keys → Result CreatedApiKey × Keys
  rotate now raw i s = transaction s (
      continue (load_info i s, s)
        (λ info s.
          if is_set info.revoked_at
          then (err api_key_revoked, s)
          else continue (parse info.scope, s)
              (λ scope s.
                continue
                  (create now raw
                    (record {
                      scope = scope;
                      recipient_fingerprint = info.recipient_fingerprint;
                      label = info.label;
                      ttl_seconds = none;
                    })
                    s)
                  (λ created s.
                    continue (revoke now i (set_expiry created.info.id info.expires_at s)) (λ _ s. (
                      load_info created.info.id s >>= λ info'.
                          ok (record { info = info'; token = created.token }),
                      s,
                    ))))))

  unfoldable pub authenticate : ℕ → Bytes → ApiKeyScope → Keys → Result AuthedKey × Keys
  authenticate now token required s =
      continue (hash_bearer c token, s) (λ h s. stamped now h required s)

  unfoldable pub check_token : ℕ → Bytes → Keys → KeyCheck
  check_token now token s = elim (hash_bearer c token) [
    | ok h ↦ check_hash now h s
    | err e ↦ invalid
  ]

  -- The single row with id 1.
  unfoldable pub authenticate_licensee : Bytes → Keys → Result (Unit {0})
  authenticate_licensee token s = elim (hash_prefixed c token licensee_prefix) [
    | err e ↦ err invalid_licensee_key
    | ok h ↦ if contains s.licensee_issuer h then ok tt else err invalid_licensee_key
  ]

  unfoldable pub bootstrap_licensee_if_empty : Bytes → Keys → Result (Option Bytes) × Keys
  bootstrap_licensee_if_empty raw s =
      let (token, h) = generate_prefixed_bearer c licensee_prefix raw in
      if length s.licensee_issuer == 0
      then (ok (some token), record s { licensee_issuer = h ∷ [] })
      else (ok none, s)

  unfoldable pub authorize_licensee_or_bootstrap :
      Bytes → Option Bytes → Keys → Result (Option Bytes) × Keys
  unfolding bootstrap_licensee_if_empty
  authorize_licensee_or_bootstrap raw none s = bootstrap_licensee_if_empty raw s
  authorize_licensee_or_bootstrap raw (some key) s = (
    if length key == 0
        then err invalid_licensee_key
        else authenticate_licensee key s >>= λ _. ok none,
    s,
  )
