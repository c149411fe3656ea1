-- ===== src/Relay/ApiKey/Authenticate.antt =====
-- When a bearer authenticates, and when it stops to (src/relay/api_key.rs).
use key_quorom.Prelude.{
  ℕ, Bytes, ◌≤◌, ◌<◌, ◌≡◌, ◌↔◌, refl, Bool, true, false, not, ◌&&◌, Option, none, some, arith, ◌==◌,
  ==_iff, if◌then◌else◌, Bool-cases, inl, inr,
}
use key_quorom.Prelude.Equality.{string_eq, list_eq}
use key_quorom.Prelude.Sql.{
  select, update, count_where, select_sound, select-update, count_where-update, count_where_unique,
}
use text.Mathlib.TextEquality.{eq_iff}
use key_quorom.Error.{Result, ok, err, api_key_revoked}
use key_quorom.Sharing.{TokenCodec}
use key_quorom.Relay.ApiKey.{
  ApiKeyScope, ApiKeyRow, AuthedKey, Keys, as_str, has_id, has_hash, is_set, has_expired,
  hash_bearer, revoke,
}
use key_quorom.Relay.ApiKey.Sessions.{live, stamp, denial, stamped, authenticate}

-- The hash names the row `r`; the column is UNIQUE.
pub record Names (h : Bytes) (s : Keys) (r : ApiKeyRow) : Type 0 where
  pub found : select (has_hash h) s.api_keys ≡ some r
  pub unique : count_where (has_hash h) s.api_keys ≤ 1

abbrev pub Unexpired : ℕ → Option ℕ → Type 0
Unexpired now none = Unit
Unexpired now (some t) = now < t

abbrev pub session : ApiKeyRow → ApiKeyScope → AuthedKey
session r required = record {
  id = r.info.id;
  scope = required;
  recipient_fingerprint = r.info.recipient_fingerprint;
}

is_set_iff : (t : Option ℕ) → (is_set t ≡ false) ↔ (t ≡ none)
is_set_iff none = (λ _. refl, λ _. refl)
is_set_iff (some t) = ground arith

has_expired_iff : (now : ℕ) (t : Option ℕ) → (has_expired now t ≡ false) ↔ Unexpired now t
has_expired_iff now none = (λ _. tt, λ _. refl)
has_expired_iff now (some t) = ground arith

live_iff :
    (now : ℕ) (h : Bytes) (required : ApiKeyScope) (r : ApiKeyRow)
    → has_hash h r ≡ true
    → (live now h required r ≡ true) ↔ (
        (r.info.revoked_at ≡ none)
        × Unexpired now r.info.expires_at
        × (r.info.scope ≡ as_str required))
live_iff now h required r e = ground (
  arith,
  is_set_iff r.info.revoked_at,
  has_expired_iff now r.info.expires_at,
  eq_iff r.info.scope (as_str required),
)

live_has_hash :
    (now : ℕ) (h : Bytes) (required : ApiKeyScope) (r : ApiKeyRow)
    → live now h required r ≡ true
    → has_hash h r ≡ true
live_has_hash now h required r e = ground arith

outcome : ℕ → Bytes → ApiKeyScope → ApiKeyRow → Result AuthedKey
outcome now h required r =
    if live now h required r then ok (session r required) else err (denial now required (some r))

stamped_known :
    (now : ℕ) (h : Bytes) (required : ApiKeyScope) (s : Keys) (r : ApiKeyRow)
    → Names h s r
    → (stamped now h required s).0 ≡ outcome now h required r
unfolding stamped outcome
stamped_known now h required s r v =
    let found =
      select-update (has_hash h) (live now h required) (stamp now) (λ r. refl) s.api_keys v.found in
    let touched =
      count_where_unique (has_hash h) (live now h required) (live_has_hash now h required)
        s.api_keys v.unique v.found in
    elim (Bool-cases (live now h required r)) [
      | inl y ↦ rw (found, touched, y)
      | inr n ↦ rw (found, touched, n)
    ]

authenticate_known :
    (c : TokenCodec) (now : ℕ) (token h : Bytes) (required : ApiKeyScope) (s : Keys)
    → hash_bearer c token ≡ ok h
    → authenticate c now token required s ≡ stamped now h required s
unfolding authenticate
authenticate_known c now token h required s e = rw e

-- Let the hash of a bearer's bytes name a row of `api_keys`. Authenticating for a scope succeeds
-- exactly if the row is not revoked, has no expiry or one in the future, and has that very scope;
-- it then returns the row's id and recipient binding, with the scope asked for.
pub authenticate-eq-ok_iff :
    (c : TokenCodec) (now : ℕ) (token h : Bytes) (required : ApiKeyScope) (s : Keys) (r : ApiKeyRow)
    (k : AuthedKey)
    → hash_bearer c token ≡ ok h
    → Names h s r
    → ((authenticate c now token required s).0 ≡ ok k) ↔ (
        (r.info.revoked_at ≡ none)
        × Unexpired now r.info.expires_at
        × (r.info.scope ≡ as_str required)
        × (session r required ≡ k))
unfolding outcome
authenticate-eq-ok_iff c now token h required s r k e v =
    let mine = select_sound (has_hash h) s.api_keys v.found in
    rw (authenticate_known c now token h required s e, stamped_known now h required s r v)
      (ground (arith, live_iff now h required r mine))

unrevoked_or_set :
    (now i : ℕ) (h : Bytes) (s : Keys) (r : ApiKeyRow)
    → Names h s r
    → r.info.id ≡ i
    → (r' : ApiKeyRow) × Names h (revoke now i s).1 r' × (is_set r'.info.revoked_at ≡ true)
unfolding revoke
unrevoked_or_set now i h s r v e =
    let q : ApiKeyRow → Bool = λ r. has_id i r && not (is_set r.info.revoked_at) in
    let f : ApiKeyRow → ApiKeyRow =
      λ r. record r { info = record (r.info) { revoked_at = some now } } in
    let rows = update q f s.api_keys in
    let there : select (has_hash h) rows ≡ some (if q r then f r else r) =
      select-update (has_hash h) q f (λ r. refl) s.api_keys v.found in
    let once : count_where (has_hash h) rows ≤ 1 =
      rw (count_where-update (has_hash h) q f (λ r. refl) s.api_keys) v.unique in
    let gone : is_set (if q r then f r else r).info.revoked_at ≡ true =
      elim (Bool-cases (is_set r.info.revoked_at)) [
        | inl y ↦ rw ((==_iff r.info.id i).1 e, y) y
        | inr n ↦ rw ((==_iff r.info.id i).1 e, n) refl
      ] in
    elim (Bool-cases (count_where q s.api_keys == 1)) [
      | inl y ↦ rw y ((if q r then f r else r), record { found = there; unique = once }, gone)
      | inr n ↦ rw n ((if q r then f r else r), record { found = there; unique = once }, gone)
    ]

-- Once the key whose row the hash of a bearer's bytes names has been revoked by its id,
-- authenticating with that bearer fails with `ApiKeyRevoked`, at any time and for any scope.
pub authenticate-revoke :
    (c : TokenCodec) (now later : ℕ) (token h : Bytes) (required : ApiKeyScope) (s : Keys)
    (r : ApiKeyRow)
    → hash_bearer c token ≡ ok h
    → Names h s r
    → (authenticate c later token required (revoke now r.info.id s).1).0 ≡ err api_key_revoked
unfolding outcome denial
authenticate-revoke c now later token h required s r e v =
    let (r', v', gone) = unrevoked_or_set now r.info.id h s r v refl in
    let s' = (revoke now r.info.id s).1 in
    let out : live later h required r' ≡ false = ground arith in
    rw
      (
        authenticate_known c later token h required s' e,
        stamped_known later h required s' r' v',
        out,
        gone,
      )
      refl
