-- ===== src/Prelude/Sql.antt =====
-- The SQL statements that the source sends to SQLite, over a table as the list of its rows in the
-- order of their row ids.
use Prim.Native.Nat.{ℕ, suc, ◌+◌, ◌≤◌, max}
use mathlib.Core.Path.{◌≡◌, refl}
use mathlib.Core.Logic.{inl, inr}
use mathlib.Core.Bool.{Bool, true, false}
use mathlib.Core.Option.{Option, none, some}
use mathlib.Core.List.{List, [], ◌∷◌, ◌++◌}
use native.Mathlib.Omega.{arith}
use key_quorom.Prelude.Tests.{if◌then◌else◌, Bool-cases}

module _ {ℓ} {A : Type ℓ} where
  -- SELECT … WHERE p, one row.
  unfoldable pub select : (A → Bool) → List A → Option A
  select p [] = none
  select p (r ∷ rs) = if p r then some r else select p rs

  -- SELECT … WHERE p, all rows.
  unfoldable pub select_all : (A → Bool) → List A → List A
  select_all p [] = []
  select_all p (r ∷ rs) = let rest = select_all p rs in if p r then r ∷ rest else rest

  -- DELETE … WHERE p
  unfoldable pub delete : (A → Bool) → List A → List A
  delete p [] = []
  delete p (r ∷ rs) = let rest = delete p rs in if p r then rest else r ∷ rest

  -- UPDATE … SET f WHERE p
  unfoldable pub update : (A → Bool) → (A → A) → List A → List A
  update p f [] = []
  update p f (r ∷ rs) = (if p r then f r else r) ∷ update p f rs

  -- The number of rows that a statement with this condition touches.
  unfoldable pub count_where : (A → Bool) → List A → ℕ
  count_where p [] = 0
  count_where p (r ∷ rs) = if p r then suc (count_where p rs) else count_where p rs

  -- An INTEGER PRIMARY KEY of a new row: one above the largest in use.
  unfoldable pub next_id : (A → ℕ) → List A → ℕ
  next_id key [] = 1
  next_id key (r ∷ rs) = max (suc (key r)) (next_id key rs)

-- A row is looked up by `p`; a statement changes rows by `f` where `q` holds.
module _ {ℓ} {A : Type ℓ} (p : A → Bool) where
  pub select_sound : (rs : List A) {r : A} → select p rs ≡ some r → p r ≡ true
  unfolding select
  select_sound [] h = cc
  select_sound (x ∷ rs) h = elim (Bool-cases (p x)) [
    | inl y ↦ ground arith
    | inr n ↦ select_sound rs (rw n at h)
  ]

  pub select-append_left :
      (rs ss : List A) {r : A} → select p rs ≡ some r → select p (rs ++ ss) ≡ some r
  unfolding select
  select-append_left [] ss h = cc
  select-append_left (x ∷ rs) ss {r} h = ground (arith, select-append_left rs ss {r = r})

  pub select-append_right :
      (rs ss : List A) → select p rs ≡ none → select p (rs ++ ss) ≡ select p ss
  unfolding select
  select-append_right [] ss h = refl
  select-append_right (x ∷ rs) ss h = ground (arith, select-append_right rs ss)

  pub count_where-append :
      (rs ss : List A) → count_where p (rs ++ ss) ≡ count_where p rs + count_where p ss
  unfolding count_where
  count_where-append [] ss = omega arith
  count_where-append (x ∷ rs) ss = ground (arith, count_where-append rs ss)

  pub count_where_zero : (rs : List A) → count_where p rs ≡ 0 → select p rs ≡ none
  unfolding select count_where
  count_where_zero [] h = refl
  count_where_zero (x ∷ rs) h = ground (arith, count_where_zero rs)

  pub count_where-select-none : (rs : List A) → select p rs ≡ none → count_where p rs ≡ 0
  unfolding select count_where
  count_where-select-none [] h = refl
  count_where-select-none (x ∷ rs) h = ground (arith, count_where-select-none rs)

module _ {ℓ} {A : Type ℓ} (p q : A → Bool) (f : A → A) (keep : (r : A) → p (f r) ≡ p r) where
  pub count_where-update : (rs : List A) → count_where p (update q f rs) ≡ count_where p rs
  unfolding count_where update
  count_where-update [] = refl
  count_where-update (x ∷ rs) = ground (arith, keep x, count_where-update rs)

  pub select-update :
      (rs : List A) {r : A}
      → select p rs ≡ some r
      → select p (update q f rs) ≡ some (if q r then f r else r)
  unfolding select update
  select-update [] h = cc
  select-update (x ∷ rs) {r} h = ground (arith, keep x, select-update rs {r = r})

  pub select-update-none : (rs : List A) → select p rs ≡ none → select p (update q f rs) ≡ none
  unfolding select update
  select-update-none [] h = refl
  select-update-none (x ∷ rs) h = ground (arith, keep x, select-update-none rs)

module _ {ℓ} {A : Type ℓ} (p q : A → Bool) (within : (r : A) → q r ≡ true → p r ≡ true) where
  pub count_where-none : (rs : List A) → select p rs ≡ none → count_where q rs ≡ 0
  unfolding select count_where
  count_where-none [] h = refl
  count_where-none (x ∷ rs) h = ground (arith, within x, count_where-none rs)

  -- A statement on a row that `p` determines touches that row alone.
  pub count_where_unique :
      (rs : List A) {r : A}
      → count_where p rs ≤ 1
      → select p rs ≡ some r
      → count_where q rs ≡ (if q r then 1 else 0)
  unfolding select count_where
  count_where_unique [] u h = cc
  count_where_unique (x ∷ rs) {r} u h = elim (Bool-cases (p x)) [
    | inl y ↦
        let one : suc (count_where p rs) ≤ 1 = rw y at u in
        let gone = count_where-none rs (count_where_zero p rs (omega arith)) in ground (arith, gone)
    | inr n ↦
        let u' : count_where p rs ≤ 1 = rw n at u in
        let h' : select p rs ≡ some r = rw n at h in
        ground (arith, within x, count_where_unique rs u' h')
  ]

-- A DELETE leaves no row that it is on, and every row that it is not on.
module _ {ℓ} {A : Type ℓ} (p q : A → Bool) where
  pub count_where-delete_zero :
      ((r : A) → p r ≡ true → q r ≡ true) → (rs : List A) → count_where p (delete q rs) ≡ 0
  unfolding count_where delete
  count_where-delete_zero within [] = refl
  count_where-delete_zero within (x ∷ rs) =
      ground (arith, within x, count_where-delete_zero within rs)

  pub count_where-delete :
      ((r : A) → p r ≡ true → q r ≡ false)
      → (rs : List A) → count_where p (delete q rs) ≡ count_where p rs
  unfolding count_where delete
  count_where-delete apart [] = refl
  count_where-delete apart (x ∷ rs) = ground (arith, apart x, count_where-delete apart rs)
