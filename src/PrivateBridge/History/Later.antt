-- ===== src/PrivateBridge/History/Later.antt =====
-- How the bridges of a store change under any sequence of operations (src/private_bridge.rs).
use key_quorom.Prelude.{
  ℕ, suc, ◌+◌, ◌≤◌, Bytes, ◌≡◌, refl, ap, ◌∙◌, Option, some, [], ◌∷◌, Bool, true, false, arith,
  Bool-cases, inl, inr,
}
use key_quorom.Prelude.Equality.{nat_eq, list_eq, list_beq}
use key_quorom.Prelude.Sql.{select, update, select-append_left, select-update}
use key_quorom.Error.{Result, ok, err}
use key_quorom.PrivateBridge.Store.{
  Store, PrivateBridgeRow, is_set, has_uid, is_live_at, set_generation, set_destroyed,
  with_immediate_transaction,
}
use key_quorom.PrivateBridge.History.Rows.{IsNew}

-- A row after at most `n` changes of its generation; a destroyed bridge is as it was.
pub record IsLater (n : ℕ) (r r' : PrivateBridgeRow) : Type 0 where
  pub same_id : r'.id ≡ r.id
  pub grows : r.generation ≤ r'.generation
  pub bounded : r'.generation ≤ r.generation + n
  pub frozen : is_set r.destroyed_at ≡ true → r' ≡ r

-- Every bridge of `s` is in `t`, later.
abbrev pub Follows : ℕ → Store → Store → Type 0
Follows n s t =
    (uid : Bytes) (r : PrivateBridgeRow)
    → select (has_uid uid) s.bridges ≡ some r
    → (r' : PrivateBridgeRow) × (select (has_uid uid) t.bridges ≡ some r') × IsLater n r r'

IsLater-refl : (n : ℕ) (r : PrivateBridgeRow) → IsLater n r r
IsLater-refl n r = record {
  same_id = refl;
  grows = omega arith;
  bounded = omega arith;
  frozen = λ _. refl;
}

pub Follows-same : (n : ℕ) (s t : Store) → t.bridges ≡ s.bridges → Follows n s t
Follows-same n s t e uid r h = (r, rw e h, IsLater-refl n r)

pub Follows-trans : (m n : ℕ) (s t u : Store) → Follows m s t → Follows n t u → Follows (m + n) s u
Follows-trans m n s t u f g uid r h =
    let (r', h', l) = f uid r h in
    let (r'', h'', k) = g uid r' h' in
    (
      r'',
      h'',
      record {
        same_id = k.same_id ∙ l.same_id;
        grows = omega (arith, l.grows, k.grows);
        bounded = omega (arith, l.bounded, k.bounded);
        frozen = λ d. let e = l.frozen d in k.frozen (rw e d) ∙ e;
      },
    )

pub Follows-IsNew : (n : ℕ) (s t : Store) → IsNew s t → Follows n s t
Follows-IsNew n s t new uid r h = (
  r,
  rw new.appended (select-append_left (has_uid uid) s.bridges (new.row ∷ []) h),
  IsLater-refl n r,
)

-- An UPDATE that keeps the uid, where what it does to a row that it is on is later.
Follows-update :
    (n : ℕ) (s t : Store) (q : PrivateBridgeRow → Bool) (f : PrivateBridgeRow → PrivateBridgeRow)
    → ((r : PrivateBridgeRow) → (f r).uid ≡ r.uid)
    → ((r : PrivateBridgeRow) (uid : Bytes)
        → select (has_uid uid) s.bridges ≡ some r
        → q r ≡ true
        → IsLater n r (f r))
    → t.bridges ≡ update q f s.bridges
    → Follows n s t
Follows-update n s t q f keeps later e uid r h =
    let found =
      select-update (has_uid uid) q f (λ r. ap (λ u. list_beq u uid) (keeps r)) s.bridges h in
    elim (Bool-cases (q r)) [
      | inl y ↦ (f r, rw e (rw y at found), later r uid h y)
      | inr z ↦ (r, rw e (rw z at found), IsLater-refl n r)
    ]

pub is_live_at-true :
    (uid : Bytes) (expected : ℕ) (r : PrivateBridgeRow)
    → is_live_at uid expected r ≡ true
    → (r.generation ≡ expected) × (is_set r.destroyed_at ≡ false)
is_live_at-true uid expected r h = ground arith

pub Follows-set_generation :
    (s t : Store) (uid : Bytes) (expected g : ℕ) (pk salt : Bytes) (label : Option Bytes)
    → t.bridges ≡ update (is_live_at uid expected) (set_generation g pk salt label) s.bridges
    → g ≡ suc expected
    → Follows 1 s t
Follows-set_generation s t uid expected g pk salt label e next =
    Follows-update 1 s t (is_live_at uid expected) (set_generation g pk salt label) (λ r. refl)
      (λ r u h y.
        let (at, live) = is_live_at-true uid expected r y in
        record {
          same_id = refl;
          grows = omega (arith, at, next);
          bounded = omega (arith, at, next);
          frozen = λ d. absurd (cc (d, live));
        })
      e

pub Follows-set_destroyed :
    (n : ℕ) (s t : Store) (q : PrivateBridgeRow → Bool) (now : ℕ)
    → ((r : PrivateBridgeRow) (uid : Bytes)
        → select (has_uid uid) s.bridges ≡ some r
        → q r ≡ true
        → is_set r.destroyed_at ≡ false)
    → t.bridges ≡ update q (set_destroyed now) s.bridges
    → Follows n s t
Follows-set_destroyed n s t q now live e =
    Follows-update n s t q (set_destroyed now) (λ r. refl)
      (λ r u h y. record {
        same_id = refl;
        grows = omega arith;
        bounded = omega arith;
        frozen = λ d. absurd (cc (live r u h y));
      })
      e

pub Follows-transaction :
    (n : ℕ) (s : Store) (m : Result Store)
    → ((t : Store) → m ≡ ok t → Follows n s t)
    → Follows n s (with_immediate_transaction s m).1
unfolding with_immediate_transaction
Follows-transaction n s (ok t) f = f t refl
Follows-transaction n s (err e) f = Follows-same n s s refl
