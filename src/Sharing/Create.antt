-- ===== src/Sharing/Create.antt =====
-- A share link that was just created can be redeemed (src/sharing.rs).
use key_quorom.Prelude.{
  ℕ, Bytes, ◌+◌, ◌<◌, ◌≡◌, refl, ap, ◌∙◌, ◌&&◌, Option, none, some, [], ◌∷◌, ◌++◌, arith, ◌==◌,
  Bool-cases, inl, inr,
}
use mathlib.Core.Path.{subst₂}
use key_quorom.Prelude.Int.{ℤ, pos, negsuc}
use key_quorom.Prelude.Equality.{nat_eq, list_eq, beq_refl, contains}
use key_quorom.Prelude.Sql.{
  select, count_where, select-append_right, count_where-append, count_where_zero, next_id,
}
use key_quorom.Error.{Result, ok, err}
use key_quorom.Sharing.{
  ShareRow, Share, Shares, TokenCodec, has_hash, new_row, insert_row, hash_token, redeem_share,
  create_share, generate_token, checked_limit,
}
use key_quorom.Sharing.Steps.{WithinLimit, Holds}
use key_quorom.Sharing.Redeem.{redeem_share-eq-ok_iff}

-- The limit that passed the CHECK leaves room for a first use.
checked_limit-room :
    (m : Option ℤ) (n : Option ℕ) → checked_limit m ≡ some n → WithinLimit n (0 + 1)
unfolding checked_limit
checked_limit-room none none h = tt
checked_limit-room none (some n) h = cc
checked_limit-room (some (pos m)) none h = tt
checked_limit-room (some (pos m)) (some n) h = ground arith
checked_limit-room (some (negsuc m)) n h = cc

WithinLimit-zero : (m : Option ℕ) → WithinLimit m 0
WithinLimit-zero none = tt
WithinLimit-zero (some m) = omega arith

appended-Holds :
    (h : Bytes) (i t : ℕ) (m : Option ℕ) (n : ℕ) (s : Shares)
    → count_where (has_hash h) s.rows ≡ 0
    → Holds h (record s { rows = s.rows ++ new_row h i t m n ∷ [] }) (new_row h i t m n)
unfolding select count_where
appended-Holds h i t m n s free =
    let row = new_row h i t m n in
    let one : count_where (has_hash h) (row ∷ []) ≡ 1 = rw (beq_refl h) in
    let it : select (has_hash h) (row ∷ []) ≡ some row = rw (beq_refl h) in
    record {
      unique = omega (arith, count_where-append (has_hash h) s.rows (row ∷ []), free, one);
      found =
          select-append_right (has_hash h) s.rows (row ∷ [])
            (count_where_zero (has_hash h) s.rows free)
          ∙ it;
      within = WithinLimit-zero m;
    }

-- What a successful INSERT leaves.
record Inserted (h : Bytes) (i : ℕ) (t : Option ℕ) (m : Option (Option ℕ)) (s : Shares)
    (row : ShareRow) : Type 0 where
  holds : Holds h s row
  expiry : t ≡ some row.expires_at
  limit : m ≡ some row.max_uses
  resource : row.resource_id ≡ i
  fresh : row.use_count ≡ 0
  live : row.revoked_at ≡ none

insert_row-Inserted :
    (h : Bytes) (i : ℕ) (t : Option ℕ) (m : Option (Option ℕ)) (s s' : Shares) (row : ShareRow)
    → insert_row h i t m s ≡ (ok row, s')
    → Inserted h i t m s' row
unfolding insert_row
insert_row-Inserted h i none m s s' row e = absurd (cc (ap (λ p. p.0) e))
insert_row-Inserted h i (some t) none s s' row e = absurd (cc (ap (λ p. p.0) e))
insert_row-Inserted h i (some t) (some m) s s' row e =
    elim (Bool-cases (contains s.resources i && count_where (has_hash h) s.rows == 0)) [
      | inr refused ↦ absurd (cc (ap (λ p. p.0) (rw (refused, insert_row) at e)))
      | inl free ↦
          let e' = rw (free, insert_row) at e in
          let same_row : fresh_row ≡ row = cc (ap (λ p. p.0) e') in
          subst₂ (λ x y. Inserted h i (some t) (some m) y x) same_row (ap (λ p. p.1) e')
            (record {
              holds = appended-Holds h i t m _ s (ground arith);
              expiry = refl;
              limit = refl;
              resource = refl;
              fresh = refl;
              live = refl;
            })
    ]
  where
    fresh_row : ShareRow
    fresh_row = new_row h i t m (next_id (λ (r : ShareRow). r.id) s.rows)

hash_token-encode : (c : TokenCodec) (raw : Bytes) → hash_token c (c.encode raw) ≡ ok (c.digest raw)
unfolding hash_token
hash_token-encode c raw = rw (c.decode-encode raw, hash_token)

create_share-insert_row :
    (c : TokenCodec) (now : ℕ) (raw : Bytes) (i : ℕ) (ttl : ℤ) (limit : Option ℤ) (s s' : Shares)
    (share : Share)
    → create_share c now raw i ttl limit s ≡ (ok share, s')
    → (row : ShareRow) × (insert_row (c.digest raw) i (c.datetime now ttl) (checked_limit limit) s
        ≡ (ok row, s'))
      × (share.token ≡ c.encode raw)
      × (share.expires_at ≡ row.expires_at)
unfolding create_share generate_token
create_share-insert_row c now raw i ttl limit s s' share e = go inserted refl
  where
    inserted : Result ShareRow × Shares
    inserted = insert_row (c.digest raw) i (c.datetime now ttl) (checked_limit limit) s

    go :
        (r : Result ShareRow × Shares)
        → inserted ≡ r
        → (row : ShareRow) × (inserted ≡ (ok row, s'))
          × (share.token ≡ c.encode raw)
          × (share.expires_at ≡ row.expires_at)
    go (ok row, t) q =
        let e' = rw (q, create_share) at e in
        let made = ap (λ p. p.0) e' in
        (row, q ∙ ap (λ x. (ok row, x)) (ap (λ p. p.1) e'), ground arith, ground arith)
    go (err x, t) q = absurd (cc (ap (λ p. p.0) (rw (q, create_share) at e)))

-- A share that was just created is redeemed by the token that its creation returned, at any time
-- before the returned expiry, and the redemption gives the resource that it was created for. This
-- holds whatever the lifetime and the limit on uses that the creation accepted.
pub redeem_share-create_share :
    (c : TokenCodec) (now later : ℕ) (raw : Bytes) (i : ℕ) (ttl : ℤ) (limit : Option ℤ)
    (s s' : Shares) (share : Share)
    → create_share c now raw i ttl limit s ≡ (ok share, s')
    → later < share.expires_at
    → (redeem_share c later later (λ x. x) share.token s').0 ≡ ok i
redeem_share-create_share c now later raw i ttl limit s s' share e before =
    let (row, inserted, token, expiry) =
      create_share-insert_row c now raw i ttl limit s s' share e in
    let done =
      insert_row-Inserted (c.digest raw) i (c.datetime now ttl) (checked_limit limit) s s' row
        inserted in
    let room = checked_limit-room limit row.max_uses done.limit in
    let known : hash_token c share.token ≡ ok (c.digest raw) = rw token (hash_token-encode c raw) in
    (redeem_share-eq-ok_iff c later share.token (c.digest raw) s' row i known done.holds).0.1
      (done.live, rw (← expiry) before, rw done.fresh room, done.resource)
