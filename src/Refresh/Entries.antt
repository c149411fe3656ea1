-- ===== src/Refresh/Entries.antt =====
-- The maps of src/pss.rs by x-coordinate: what a round's deltas hold, and what adding them leaves.
use key_quorom.Prelude.{
  ℕ, Bytes, ◌≡◌, ◌≢◌, ◌⊎◌, refl, ap, ◌∙◌, sym, true, false, ◌==◌, none, some, some-injective, List,
  [], ◌∷◌, arith, Bool-cases, inl, inr, if◌then◌else◌,
}
use key_quorom.Prelude.Equality.{nat_eq, contains}
use key_quorom.Error.{ok, ok-injective, >>=-elim, ok_or, share_shape_mismatch}
use key_quorom.Refresh.{
  add_shares, apply_deltas, share_x, ByX, find_x, put_x, collect_by_x, add_deltas,
}

abbrev pub IsIn : Bytes → List Bytes → Type 0
IsIn share [] = ⊥
IsIn share (s ∷ shares) = (share ≡ s) ⊎ IsIn share shares

-- No x-coordinate has two entries.
abbrev pub IsDistinct : ByX → Type 0
IsDistinct [] = Unit
IsDistinct (e ∷ rest) = (find_x e.0 rest ≡ none) × IsDistinct rest

pub find_x-put_x : (x : ℕ) (share : Bytes) (m : ByX) → find_x x (put_x x share m) ≡ some share
unfolding find_x put_x
find_x-put_x x share [] = ground arith
find_x-put_x x share ((y, old) ∷ rest) = elim (Bool-cases (y == x)) [
  | inl e ↦ let same : (x == x) ≡ true = ground arith in rw (e, same) refl
  | inr n ↦ rw (n, n) (find_x-put_x x share rest)
]

pub find_x-put_x_other :
    (x y : ℕ) (share : Bytes) (m : ByX) → y ≢ x → find_x y (put_x x share m) ≡ find_x y m
unfolding find_x put_x
find_x-put_x_other x y share [] ne = ground arith
find_x-put_x_other x y share ((z, old) ∷ rest) ne = elim (Bool-cases (z == x)) [
  | inl e ↦
      let a : (x == y) ≡ false = ground arith in
      let b : (z == y) ≡ false = ground arith in rw (e, a, b) refl
  | inr n ↦ elim (Bool-cases (z == y)) [
    | inl e ↦ rw (n, e) refl
    | inr m ↦ rw (n, m) (find_x-put_x_other x y share rest ne)
  ]
]

pub put_x-IsDistinct :
    (x : ℕ) (share : Bytes) (m : ByX) → IsDistinct m → IsDistinct (put_x x share m)
unfolding put_x find_x
put_x-IsDistinct x share [] v = (refl, tt)
put_x-IsDistinct x share ((y, old) ∷ rest) v = elim (Bool-cases (y == x)) [
  | inl e ↦ let same : y ≡ x = ground arith in rw e (rw (← same) v.0, v.1)
  | inr n ↦
      rw n
        (find_x-put_x_other x y share rest (ground arith) ∙ v.0, put_x-IsDistinct x share rest v.1)
]

pub add_deltas-find_x-none :
    (x : ℕ) (deltas combined out : ByX)
    → find_x x deltas ≡ none
    → add_deltas deltas combined ≡ ok out
    → find_x x out ≡ find_x x combined
unfolding add_deltas find_x
add_deltas-find_x-none x [] combined out a h = ap (λ (m : ByX). find_x x m) (sym (ok-injective h))
add_deltas-find_x-none x ((y, delta) ∷ deltas) combined out a h0 =
    >>=-elim (ok_or (find_x y combined) share_shape_mismatch) _ h0 λ acc _ h1.
      >>=-elim (apply_deltas acc delta) _ h1 λ sum _ h2. elim (Bool-cases (y == x)) [
        | inl e ↦ absurd (cc (rw e at a))
        | inr n ↦
            add_deltas-find_x-none x deltas (put_x y sum combined) out (rw n at a) h2
            ∙ find_x-put_x_other y x sum combined (ground arith)
      ]

pub add_deltas-find_x :
    (x : ℕ) (deltas combined out : ByX) (delta c : Bytes)
    → IsDistinct deltas
    → find_x x deltas ≡ some delta
    → find_x x combined ≡ some c
    → add_deltas deltas combined ≡ ok out
    → (sum : Bytes) × (add_shares c delta ≡ ok sum) × (find_x x out ≡ some sum)
unfolding add_deltas find_x
add_deltas-find_x x [] combined out delta c v a b h = absurd (cc a)
add_deltas-find_x x ((y, d) ∷ deltas) combined out delta c v a b h0 =
    >>=-elim (ok_or (find_x y combined) share_shape_mismatch) _ h0 λ acc e1 h1.
      >>=-elim (apply_deltas acc d) _ h1 λ sum e2 h2. elim (Bool-cases (y == x)) [
        | inl e ↦
            let same : y ≡ x = ground arith in
            let delta_eq : d ≡ delta = some-injective (rw e at a) in
            let acc_eq : acc ≡ c = ok-injective (sym e1 ∙ rw (same, b) refl) in
            (
              sum,
              rw (← acc_eq, ← delta_eq) e2,
              add_deltas-find_x-none x deltas (put_x y sum combined) out (rw same at v.0) h2
                  ∙ rw same (find_x-put_x x sum combined),
            )
        | inr n ↦
            add_deltas-find_x x deltas (put_x y sum combined) out delta c v.1 (rw n at a)
              (find_x-put_x_other y x sum combined (ground arith) ∙ b) h2
      ]

pub collect_by_x-IsDistinct :
    (wanted : List ℕ) (shares : List Bytes) (m : ByX)
    → IsDistinct m
    → IsDistinct (collect_by_x wanted shares m)
unfolding collect_by_x
collect_by_x-IsDistinct wanted [] m v = v
collect_by_x-IsDistinct wanted (share ∷ shares) m v =
    elim (Bool-cases (contains wanted (share_x share))) [
      | inl y ↦ rw y (
          collect_by_x-IsDistinct wanted shares (put_x (share_x share) share m)
            (put_x-IsDistinct (share_x share) share m v))
      | inr n ↦ rw n (collect_by_x-IsDistinct wanted shares m v)
    ]

pub collect_by_x-IsIn :
    (wanted : List ℕ) (shares all : List Bytes) (m : ByX) (x : ℕ) (d : Bytes)
    → ((s : Bytes) → IsIn s shares → IsIn s all)
    → ((d : Bytes) → find_x x m ≡ some d → IsIn d all)
    → find_x x (collect_by_x wanted shares m) ≡ some d
    → IsIn d all
unfolding collect_by_x
collect_by_x-IsIn wanted [] all m x d sub v h = v d h
collect_by_x-IsIn wanted (share ∷ shares) all m x d sub v h =
    elim (Bool-cases (contains wanted (share_x share))) [
      | inl y ↦
          collect_by_x-IsIn wanted shares all (put_x (share_x share) share m) x d
            (λ s i. sub s (inr i))
            (λ d h. elim (Bool-cases (share_x share == x)) [
              | inl e ↦
                  let same : share_x share ≡ x = ground arith in
                  let found : some share ≡ some d =
                    sym (find_x-put_x (share_x share) share m)
                    ∙ ap (λ z. find_x z (put_x (share_x share) share m)) same
                    ∙ h in
                  sub d (inl (sym (some-injective found)))
              | inr n ↦ v d (sym (find_x-put_x_other (share_x share) x share m (ground arith)) ∙ h)
            ])
            (rw y at h)
      | inr n ↦ collect_by_x-IsIn wanted shares all m x d (λ s i. sub s (inr i)) v (rw n at h)
    ]

abbrev pub HasX : ByX → ℕ → Type 0
HasX m x = (d : Bytes) × (find_x x m ≡ some d)

put_x-HasX : (y : ℕ) (share : Bytes) (m : ByX) (x : ℕ) → HasX m x → HasX (put_x y share m) x
put_x-HasX y share m x (d, h) = elim (Bool-cases (y == x)) [
  | inl e ↦ let same : y ≡ x = ground arith in (share, rw same (find_x-put_x x share m))
  | inr n ↦ (d, find_x-put_x_other y x share m (ground arith) ∙ h)
]

collect_by_x-HasX :
    (wanted : List ℕ) (shares : List Bytes) (m : ByX) (x : ℕ)
    → HasX m x
    → HasX (collect_by_x wanted shares m) x
unfolding collect_by_x
collect_by_x-HasX wanted [] m x h = h
collect_by_x-HasX wanted (share ∷ shares) m x h =
    elim (Bool-cases (contains wanted (share_x share))) [
      | inl y ↦ rw y (
          collect_by_x-HasX wanted shares (put_x (share_x share) share m) x
            (put_x-HasX (share_x share) share m x h))
      | inr n ↦ rw n (collect_by_x-HasX wanted shares m x h)
    ]

pub collect_by_x-HasX_share :
    (wanted : List ℕ) (shares : List Bytes) (m : ByX) (share : Bytes)
    → contains wanted (share_x share) ≡ true
    → IsIn share shares
    → HasX (collect_by_x wanted shares m) (share_x share)
unfolding collect_by_x
collect_by_x-HasX_share wanted [] m share w i = absurd i
collect_by_x-HasX_share wanted (s ∷ shares) m share w (inl e) =
    let w' : contains wanted (share_x s) ≡ true = rw e at w in
    rw (e, w')
      (collect_by_x-HasX wanted shares (put_x (share_x s) s m) (share_x s)
        (s, find_x-put_x (share_x s) s m))
collect_by_x-HasX_share wanted (s ∷ shares) m share w (inr i) =
    collect_by_x-HasX_share wanted shares
      (if contains wanted (share_x s) then put_x (share_x s) s m else m) share w i
