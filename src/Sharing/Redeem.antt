-- ===== src/Sharing/Redeem.antt =====
-- The bounds that hold for a share link whatever else happens on its table (src/sharing.rs).
use key_quorom.Prelude.{
  ℕ, Bytes, ◌+◌, ◌≤◌, ◌<◌, ◌≡◌, ◌↔◌, refl, ◌∙◌, true, false, Option, none, some, List, arith,
  if◌then◌else◌, Bool-cases, inl, inr,
}
use key_quorom.Prelude.Equality.{nat_eq, list_eq}
use key_quorom.Prelude.Sql.{select, select_sound, select-update, count_where_unique}
use key_quorom.Error.{ok, err, share_revoked}
use key_quorom.Sharing.{
  ShareRow, Shares, TokenCodec, has_hash, eligible, take_use, claim, report, refusal, is_set,
  below_limit, hash_token, redeem_share, revoke_share,
}
use key_quorom.Sharing.Steps.{
  Statement, perform_all, grants, WithinLimit, Holds, perform, claiming, revoking,
}
use key_quorom.Sharing.Follows.{
  perform_all-Follows, eligible-has_hash, keeps_hash, perform-Follows, revoke-Follows, revoked_self,
}

-- A share that allows n uses is claimed at most n times by any sequence of statements of any
-- connections (claims with any tokens at any times, revocations, new shares), the uses taken
-- before included; and it is claimed exactly as often as its count grows.
pub grants-le-max_uses :
    (h : Bytes) (os : List Statement) (s : Shares) (r : ShareRow) (n : ℕ)
    → Holds h s r
    → r.max_uses ≡ some n
    → (r.use_count + grants h os s ≤ n)
      × ((r' : ShareRow) × (select (has_hash h) (perform_all os s).rows ≡ some r')
          × (r'.use_count ≡ r.use_count + grants h os s))
grants-le-max_uses h os s r n v e =
    let after = perform_all-Follows h os s v in
    (
      let w : WithinLimit (some n) after.row.use_count =
            rw (after.limit ∙ e) at after.holds.within in
          omega (arith, after.counted, w),
      (after.row, after.holds.found, after.counted),
    )

-- A redemption of a token with hash `h`: the claim, and the report on the rows that others left.
redeem_known :
    (c : TokenCodec) (now later : ℕ) (meanwhile : Shares → Shares) (token h : Bytes) (s : Shares)
    → hash_token c token ≡ ok h
    → redeem_share c now later meanwhile token s ≡ (
      report later h (claim now h s).0 (meanwhile (claim now h s).1).rows,
      meanwhile (claim now h s).1,
    )
unfolding redeem_share
redeem_known c now later meanwhile token h s e = rw (e, redeem_share)

claim-found :
    (now : ℕ) (h : Bytes) (s : Shares) (r : ShareRow)
    → Holds h s r
    → select (has_hash h) (claim now h s).1.rows ≡ some (if eligible now h r then take_use r else r)
unfolding claim
claim-found now h s r v =
    select-update (has_hash h) (eligible now h) take_use (keeps_hash h) s.rows v.found

-- The outcome of a redemption that no other connection interferes with.
report_alone :
    (now : ℕ) (h : Bytes) (s : Shares) (r : ShareRow)
    → Holds h s r
    → report now h (claim now h s).0 (claim now h s).1.rows
      ≡ (if eligible now h r then ok r.resource_id else refusal now (some r))
unfolding report claim
report_alone now h s r v =
    let found = claim-found now h s r v in
    let touched =
      count_where_unique (has_hash h) (eligible now h) (eligible-has_hash now h) s.rows v.unique
        v.found in
    elim (Bool-cases (eligible now h r)) [
      | inl y ↦ rw (found, touched, y)
      | inr n ↦ rw (found, touched, n)
    ]

below_limit_iff : (m : Option ℕ) (n : ℕ) → (below_limit m n ≡ true) ↔ WithinLimit m (n + 1)
below_limit_iff none n = (λ _. tt, λ _. refl)
below_limit_iff (some m) n = ground arith

is_set-none : (t : Option ℕ) → is_set t ≡ false → t ≡ none
is_set-none none h = refl
is_set-none (some t) h = cc

-- What an eligible row is, in the words of the row's fields.
eligible_iff :
    (now : ℕ) (h : Bytes) (r : ShareRow)
    → has_hash h r ≡ true
    → (eligible now h r ≡ true)
      ↔ ((r.revoked_at ≡ none) × (now < r.expires_at) × WithinLimit r.max_uses (r.use_count + 1))
eligible_iff now h r e = ground (arith, below_limit_iff r.max_uses r.use_count)

refusal-ne-ok : (now : ℕ) (r : ShareRow) (i : ℕ) → refusal now (some r) ≡ ok i → ⊥
unfolding refusal
refusal-ne-ok now r i h = ground arith

-- Redeeming a token on a table where its hash names the row `r`, with no other connection writing
-- in between, returns a resource exactly if the share is not revoked, has not expired, has a use
-- left, and is for that resource. The row is left with one more use if it was eligible, and as it
-- was if not.
pub redeem_share-eq-ok_iff :
    (c : TokenCodec) (now : ℕ) (token h : Bytes) (s : Shares) (r : ShareRow) (i : ℕ)
    → hash_token c token ≡ ok h
    → Holds h s r
    → (((redeem_share c now now (λ x. x) token s).0 ≡ ok i) ↔ (
        (r.revoked_at ≡ none)
        × (now < r.expires_at)
        × WithinLimit r.max_uses (r.use_count + 1)
        × (r.resource_id ≡ i)))
      × (select (has_hash h) (redeem_share c now now (λ x. x) token s).1.rows
          ≡ some (if eligible now h r then record r { use_count = r.use_count + 1 } else r))
redeem_share-eq-ok_iff c now token h s r i e v =
    let mine = select_sound (has_hash h) s.rows v.found in
    rw (redeem_known c now now (λ x. x) token h s e, report_alone now h s r v)
      (ground (arith, eligible_iff now h r mine, refusal-ne-ok now r i), claim-found now h s r v)

refused_revoked :
    (now later : ℕ) (h : Bytes) (s t : Shares) {r u : ShareRow}
    → Holds h s r
    → is_set r.revoked_at ≡ true
    → Holds h t u
    → is_set u.revoked_at ≡ true
    → report later h (claim now h s).0 t.rows ≡ err share_revoked
unfolding claim report refusal
refused_revoked now later h s t {r} {u} v gone w gone' =
    let touched =
      count_where_unique (has_hash h) (eligible now h) (eligible-has_hash now h) s.rows v.unique
        v.found in
    let out : eligible now h r ≡ false = ground arith in rw (touched, out, w.found, gone')

-- Once the share that a token's hash names has been revoked by its id, redeeming the token fails
-- with `ShareRevoked`, whatever statements any connections perform after the revocation and between
-- the two statements of the redemption.
pub redeem_share-revoke_share :
    (c : TokenCodec) (token h : Bytes) (s : Shares) (r : ShareRow) (revoked now later : ℕ)
    (os between : List Statement)
    → hash_token c token ≡ ok h
    → Holds h s r
    → (redeem_share c now later
        (perform_all between)
        token
        (perform_all os (revoke_share revoked r.id s).1)).0
      ≡ err share_revoked
unfolding perform
redeem_share-revoke_share c token h s r revoked now later os between e v =
    let at_once = revoke-Follows revoked r.id h s v in
    let before = perform_all-Follows h os (perform (revoking revoked r.id) s) at_once.holds in
    let s' = perform_all os (perform (revoking revoked r.id) s) in
    let claimed = perform-Follows h (claiming now h) s' before.holds in
    let after = perform_all-Follows h between (perform (claiming now h) s') claimed.holds in
    let gone = before.revoked (revoked_self revoked h s v) in
    rw (redeem_known c now later (perform_all between) token h s' e) (
      refused_revoked now later h s' (perform_all between (claim now h s').1) before.holds gone
        after.holds (after.revoked (claimed.revoked gone)))
