-- ===== src/Sharing/Follows.antt =====
-- What any sequence of statements makes of the row of one share (src/sharing.rs).
use key_quorom.Prelude.{
  ℕ, Bytes, ◌+◌, ◌≡◌, refl, ◌∙◌, Bool, true, false, Option, none, some, List, [], ◌∷◌, ◌++◌, arith,
  ◌==◌, ◌&&◌, if◌then◌else◌, Bool-cases, inl, inr, ==_iff,
}
use key_quorom.Prelude.Equality.{nat_eq, list_eq, beq_refl, contains}
use key_quorom.Prelude.Sql.{
  count_where, select-update, count_where-update, select-append_left, count_where-append,
  select_sound, count_where_unique, count_where_zero,
}
use key_quorom.Sharing.{
  ShareRow, Shares, has_hash, has_id, eligible, take_use, new_row, insert_row, claim, is_set,
}
use key_quorom.Sharing.Steps.{
  Statement, claiming, revoking, inserting, perform, granted, perform_all, grants, WithinLimit,
  Holds, Follows,
}

pub keeps_hash : (h : Bytes) (r : ShareRow) → has_hash h (take_use r) ≡ has_hash h r
keeps_hash h r = refl

pub eligible-has_hash :
    (now : ℕ) (h : Bytes) (r : ShareRow) → eligible now h r ≡ true → has_hash h r ≡ true
eligible-has_hash now h r e = ground arith

use_within :
    (now : ℕ) (h : Bytes) (r : ShareRow)
    → eligible now h r ≡ true
    → WithinLimit r.max_uses (r.use_count + 1)
use_within now h r e = go r.max_uses refl
  where
    go : (m : Option ℕ) → r.max_uses ≡ m → WithinLimit m (r.use_count + 1)
    go none e' = tt
    go (some m) e' = ground arith

other_not_eligible :
    (now : ℕ) (k h : Bytes) (s : Shares) {r : ShareRow}
    → Holds h s r
    → list_eq.beq k h ≡ false
    → eligible now k r ≡ false
other_not_eligible now k h s {r} v other =
    let mine = (list_eq.beq_iff r.token_hash h).0 (select_sound (has_hash h) s.rows v.found) in
    elim (Bool-cases (eligible now k r)) [
      | inr n ↦ n
      | inl y ↦
          let theirs = (list_eq.beq_iff r.token_hash k).0 (eligible-has_hash now k r y) in
          absurd (cc (beq_refl h, other, mine, theirs))
    ]

-- The number of rows that the UPDATE for `k` changes, where `r` is the row of `h`.
pub granted_claim :
    (now : ℕ) (k h : Bytes) (s : Shares) {r : ShareRow}
    → Holds h s r
    → granted h (claiming now k) s ≡ (if eligible now k r then 1 else 0)
unfolding granted claim
granted_claim now k h s {r} v = elim (Bool-cases (list_eq.beq k h)) [
  | inl same ↦
      let e : k ≡ h = (list_eq.beq_iff k h).0 same in
      let touched =
        count_where_unique (has_hash h) (eligible now h) (eligible-has_hash now h) s.rows v.unique
          v.found in
      rw (same, e, touched) (ground arith)
  | inr other ↦ rw (other, other_not_eligible now k h s v other)
]

-- A row after a statement that turned it by `f` if `b`.
turn-within :
    (b : Bool) (f : ShareRow → ShareRow) (r : ShareRow)
    → (b ≡ true → WithinLimit (f r).max_uses (f r).use_count)
    → WithinLimit r.max_uses r.use_count
    → WithinLimit (if b then f r else r).max_uses (if b then f r else r).use_count
turn-within true f r changed same = changed refl
turn-within false f r changed same = same

turn-field {ℓ} :
    {B : Type ℓ} (field : ShareRow → B) (b : Bool) (f : ShareRow → ShareRow) (r : ShareRow)
    → field (f r) ≡ field r
    → field (if b then f r else r) ≡ field r
turn-field field true f r h = h
turn-field field false f r h = refl

turn-revoked :
    (b : Bool) (f : ShareRow → ShareRow) (r : ShareRow)
    → (is_set r.revoked_at ≡ true → is_set (f r).revoked_at ≡ true)
    → is_set r.revoked_at ≡ true
    → is_set (if b then f r else r).revoked_at ≡ true
turn-revoked true f r h e = h e
turn-revoked false f r h e = e

turn-use_count :
    (b : Bool) (f : ShareRow → ShareRow) (r : ShareRow) (n : ℕ)
    → (f r).use_count ≡ r.use_count + n
    → (if b then f r else r).use_count ≡ r.use_count + (if b then n else 0)
turn-use_count true f r n h = h
turn-use_count false f r n h = omega arith

claim-Follows :
    (now : ℕ) (k h : Bytes) (s : Shares) {r : ShareRow}
    → Holds h s r
    → Follows h r (granted h (claiming now k) s) (perform (claiming now k) s)
unfolding perform
claim-Follows now k h s {r} v = record {
  row = if eligible now k r then take_use r else r;
  holds = record {
    unique = rw (count_where-update (has_hash h) (eligible now k) take_use (keeps_hash h)) v.unique;
    found = select-update (has_hash h) (eligible now k) take_use (keeps_hash h) s.rows v.found;
    within = turn-within (eligible now k r) take_use r (use_within now k r) v.within;
  };
  limit = turn-field (λ x. x.max_uses) (eligible now k r) take_use r refl;
  resource = turn-field (λ x. x.resource_id) (eligible now k r) take_use r refl;
  expiry = turn-field (λ x. x.expires_at) (eligible now k r) take_use r refl;
  revoked = turn-revoked (eligible now k r) take_use r (λ e. e);
  counted = rw (granted_claim now k h s v) (turn-use_count (eligible now k r) take_use r 1 refl);
}

abbrev revoke_at : ℕ → ShareRow → ShareRow
revoke_at now x = record x { revoked_at = some now }

pub revoke-Follows :
    (now i : ℕ) (h : Bytes) (s : Shares) {r : ShareRow}
    → Holds h s r
    → Follows h r 0 (perform (revoking now i) s)
unfolding perform
revoke-Follows now i h s {r} v = record {
  row = if has_id i r then revoke_at now r else r;
  holds = record {
    unique = rw (count_where-update (has_hash h) (has_id i) (revoke_at now) (λ x. refl)) v.unique;
    found = select-update (has_hash h) (has_id i) (revoke_at now) (λ x. refl) s.rows v.found;
    within = turn-within (has_id i r) (revoke_at now) r (λ _. v.within) v.within;
  };
  limit = turn-field (λ x. x.max_uses) (has_id i r) (revoke_at now) r refl;
  resource = turn-field (λ x. x.resource_id) (has_id i r) (revoke_at now) r refl;
  expiry = turn-field (λ x. x.expires_at) (has_id i r) (revoke_at now) r refl;
  revoked = turn-revoked (has_id i r) (revoke_at now) r (λ _. refl);
  counted = turn-field (λ x. x.use_count) (has_id i r) (revoke_at now) r refl ∙ omega arith;
}

-- Right after the revocation of the row's own id it is revoked.
pub revoked_self :
    (now : ℕ) (h : Bytes) (s : Shares) {r : ShareRow} (v : Holds h s r)
    → is_set (revoke-Follows now r.id h s v).row.revoked_at ≡ true
unfolding revoke-Follows
revoked_self now h s {r} v = rw ((==_iff r.id r.id).1 refl)

pub stays : (h : Bytes) (s : Shares) {r : ShareRow} → Holds h s r → Follows h r 0 s
stays h s {r} v = record {
  row = r;
  holds = v;
  limit = refl;
  resource = refl;
  expiry = refl;
  revoked = λ e. e;
  counted = omega arith;
}

-- A new row does not take the hash of one that is there.
new-other :
    (h k : Bytes) (resource_id t : ℕ) (m : Option ℕ) (i : ℕ) (s : Shares) {r : ShareRow}
    → Holds h s r
    → count_where (has_hash k) s.rows ≡ 0
    → count_where (has_hash h) (new_row k resource_id t m i ∷ []) ≡ 0
unfolding count_where
new-other h k resource_id t m i s {r} v free = elim (Bool-cases (list_eq.beq k h)) [
  | inr other ↦ rw other
  | inl same ↦
      let e = (list_eq.beq_iff k h).0 same in
      absurd (cc (rw e at (count_where_zero (has_hash k) s.rows free), v.found))
]

inserted-Holds :
    (h k : Bytes) (i t : ℕ) (m : Option ℕ) (n : ℕ) (s : Shares) {r : ShareRow}
    → Holds h s r
    → count_where (has_hash k) s.rows ≡ 0
    → Holds h (record s { rows = s.rows ++ new_row k i t m n ∷ [] }) r
inserted-Holds h k i t m n s v free = record {
  unique = omega (
    arith,
    count_where-append (has_hash h) s.rows (new_row k i t m n ∷ []),
    new-other h k i t m n s v free,
    v.unique,
  );
  found = select-append_left (has_hash h) s.rows (new_row k i t m n ∷ []) v.found;
  within = v.within;
}

insert-Follows :
    (k : Bytes) (resource_id : ℕ) (t : Option ℕ) (m : Option (Option ℕ)) (h : Bytes) (s : Shares)
    {r : ShareRow}
    → Holds h s r
    → Follows h r 0 (perform (inserting k resource_id t m) s)
unfolding perform
insert-Follows k i none m h s v = stays h s v
insert-Follows k i (some t) none h s v = stays h s v
insert-Follows k i (some t) (some m) h s {r} v = elim (Bool-cases ok_to_insert) [
  | inr refused ↦ rw (refused, perform, insert_row) (stays h s v)
  | inl free ↦
      rw (free, perform, insert_row) (stays h _ (inserted-Holds h k i t m _ s v (ground arith)))
]
  where
    ok_to_insert : Bool
    ok_to_insert = contains s.resources i && count_where (has_hash k) s.rows == 0

pub perform-Follows :
    (h : Bytes) (o : Statement) (s : Shares) {r : ShareRow}
    → Holds h s r
    → Follows h r (granted h o s) (perform o s)
unfolding granted
perform-Follows h (claiming now k) s v = claim-Follows now k h s v
perform-Follows h (revoking now i) s v = revoke-Follows now i h s v
perform-Follows h (inserting k i t m) s v = insert-Follows k i t m h s v

pub perform_all-Follows :
    (h : Bytes) (os : List Statement) (s : Shares) {r : ShareRow}
    → Holds h s r
    → Follows h r (grants h os s) (perform_all os s)
unfolding perform_all grants
perform_all-Follows h [] s v = stays h s v
perform_all-Follows h (o ∷ os) s {r} v =
    let first = perform-Follows h o s v in
    let rest = perform_all-Follows h os (perform o s) first.holds in
    record {
      row = rest.row;
      holds = rest.holds;
      limit = rest.limit ∙ first.limit;
      resource = rest.resource ∙ first.resource;
      expiry = rest.expiry ∙ first.expiry;
      revoked = λ e. rest.revoked (first.revoked e);
      counted = omega (arith, rest.counted, first.counted);
    }
