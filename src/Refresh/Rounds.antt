-- ===== src/Refresh/Rounds.antt =====
-- The rounds of a refresh (src/pss.rs): the deltas that they add up interpolate to 0.
use mathlib.Core.Path.{subst}
use key_quorom.Prelude.{
  ℕ, zero, suc, ◌<◌, ◌≤◌, Bytes, ◌≡◌, ◌≢◌, refl, ap, ◌∙◌, sym, true, ◌==◌, some, List, [], ◌∷◌,
  arith, length, Bool-cases, inl, inr,
}
use key_quorom.Prelude.Equality.{nat_eq, contains}
use key_quorom.Error.{ok, ok-injective, >>=-elim}
use key_quorom.Signing.BigEndian.{All}
use key_quorom.Refresh.{
  ByX, find_x, put_x, zero_shares, repeat_zero, require_distinct_nonzero_xs, xs_of, add_deltas,
  generate_zero_deltas, blind,
}
use key_quorom.Refresh.Shape.{add_shares-shape}
use key_quorom.Refresh.Entries.{
  IsIn, IsDistinct, HasX, add_deltas-find_x, find_x-put_x, find_x-put_x_other,
}
use key_quorom.Refresh.Deltas.{dealt, generate_zero_deltas_lem}
use key_quorom.Refresh.Laws.{
  AreShares, AreSums, IsInterpolation, xor_bytes_self, length-repeat_zero, repeat_zero-IsBytes,
  add_shares-IsBytes, add_shares-repeat_zero,
}

-- The entries at these x-coordinates.
abbrev pub AreAt : ByX → List ℕ → List Bytes → Type 0
AreAt m [] [] = Unit
AreAt m [] (p ∷ ps) = ⊥
AreAt m (x ∷ xs) [] = ⊥
AreAt m (x ∷ xs) (p ∷ ps) = (find_x x m ≡ some p) × AreAt m xs ps

pub AreShares-xs_of : (n : ℕ) (xs : List ℕ) (ps : List Bytes) → AreShares n xs ps → xs_of ps ≡ xs
unfolding xs_of
AreShares-xs_of n [] [] v = refl
AreShares-xs_of n [] (p ∷ ps) v = absurd v
AreShares-xs_of n (x ∷ xs) [] v = absurd v
AreShares-xs_of n (x ∷ xs) (p ∷ ps) v = rw (v.0.0, AreShares-xs_of n xs ps v.1) refl

pub length-xs_of : (ps : List Bytes) → length (xs_of ps) ≡ length ps
unfolding xs_of
length-xs_of [] = refl
length-xs_of (p ∷ ps) = ap (λ n. suc n) (length-xs_of ps)

-- One round on the entries, those of the deltas being all from `dealt`.
round-entries :
    (n : ℕ) (deltas combined out : ByX) (from : List Bytes) (xs : List ℕ) (ps : List Bytes)
    → IsDistinct deltas
    → ((x : ℕ) (d : Bytes) → find_x x deltas ≡ some d → IsIn d from)
    → add_deltas deltas combined ≡ ok out
    → All (λ x. HasX deltas x) xs
    → AreAt combined xs ps
    → AreShares n xs ps
    → (qs : List Bytes) × (ds : List Bytes) × AreAt out xs qs
      × AreShares n xs qs
      × AreSums ps ds qs
      × All (λ d. IsIn d from) ds
      × (xs_of ds ≡ xs)
unfolding xs_of
round-entries n deltas combined out from [] [] v dealt_in h all at v_ps =
    ([], [], tt, tt, tt, tt, refl)
round-entries n deltas combined out from [] (p ∷ ps) v dealt_in h all at v_ps = absurd at
round-entries n deltas combined out from (x ∷ xs) [] v dealt_in h all at v_ps = absurd at
round-entries n deltas combined out from (x ∷ xs) (p ∷ ps) v dealt_in h all at v_ps =
    let ((d, found), all') = all in
    let (sum, added, stored) = add_deltas-find_x x deltas combined out d p v found at.0 h in
    let (qs, ds, at', v_qs, sums, ins, same_xs) =
      round-entries n deltas combined out from xs ps v dealt_in h all' at.1 v_ps.1 in
    let (same_x, same_length) = add_shares-shape p d sum added in
    let (bytes, d_x) = add_shares-IsBytes p d sum v_ps.0.2 added in
    (
      sum ∷ qs,
      d ∷ ds,
      (stored, at'),
      ((same_x ∙ v_ps.0.0, same_length ∙ v_ps.0.1, bytes), v_qs),
      (added, sums),
      (dealt_in x d found, ins),
      rw (d_x ∙ v_ps.0.0, same_xs) refl,
    )

-- Each entry of the start is a share of zeros.
abbrev pub zeros_at : ℕ → List ℕ → List Bytes
zeros_at n [] = []
zeros_at n (x ∷ xs) = (x ∷ repeat_zero n) ∷ zeros_at n xs

find_x-zero_shares_old :
    (n x : ℕ) (xs : List ℕ) (m : ByX)
    → find_x x m ≡ some (x ∷ repeat_zero n)
    → find_x x (zero_shares n xs m) ≡ some (x ∷ repeat_zero n)
unfolding zero_shares
find_x-zero_shares_old n x [] m h = h
find_x-zero_shares_old n x (y ∷ xs) m h =
    find_x-zero_shares_old n x xs (put_x y (y ∷ repeat_zero n) m) (elim (Bool-cases (y == x)) [
      | inl e ↦ let same : y ≡ x = ground arith in rw same (find_x-put_x x (x ∷ repeat_zero n) m)
      | inr ne ↦ find_x-put_x_other y x (y ∷ repeat_zero n) m (ground arith) ∙ h
    ])

pub find_x-zero_shares :
    (n x : ℕ) (xs : List ℕ) (m : ByX)
    → contains xs x ≡ true
    → find_x x (zero_shares n xs m) ≡ some (x ∷ repeat_zero n)
unfolding zero_shares
find_x-zero_shares n x [] m i = absurd (cc i)
find_x-zero_shares n x (y ∷ xs) m i = elim (Bool-cases (y == x)) [
  | inl e ↦
      let same : y ≡ x = ground arith in
      find_x-zero_shares_old n x xs (put_x y (y ∷ repeat_zero n) m)
        (rw same (find_x-put_x x (x ∷ repeat_zero n) m))
  | inr ne ↦ find_x-zero_shares n x xs (put_x y (y ∷ repeat_zero n) m) (rw ne at i)
]

pub AreAt-zeros_at :
    (n : ℕ) (m : ByX) (xs : List ℕ)
    → ((x : ℕ) → contains xs x ≡ true → find_x x m ≡ some (x ∷ repeat_zero n))
    → AreAt m xs (zeros_at n xs)
AreAt-zeros_at n m [] f = tt
AreAt-zeros_at n m (x ∷ xs) f =
    (f x (ground arith), AreAt-zeros_at n m xs (λ y i. f y (ground arith)))

pub zeros_at-AreShares :
    (n : ℕ) (xs : List ℕ)
    → ((x : ℕ) → contains xs x ≡ true → (x ≢ 0) × (x < 256))
    → AreShares n xs (zeros_at n xs)
zeros_at-AreShares n [] f = tt
zeros_at-AreShares n (x ∷ xs) f =
    let (_, small) = f x (ground arith) in
    (
      (refl, ap (λ n. suc n) (length-repeat_zero n), (small, repeat_zero-IsBytes n)),
      zeros_at-AreShares n xs (λ y i. f y (ground arith)),
    )

zeros_at-AreSums :
    (n : ℕ) (xs : List ℕ) → 1 ≤ n → AreSums (zeros_at n xs) (zeros_at n xs) (zeros_at n xs)
zeros_at-AreSums n [] h = tt
zeros_at-AreSums n (x ∷ xs) h = (add_shares-repeat_zero x n h, zeros_at-AreSums n xs h)

pub All-of : (P : ℕ → Type 0) (xs : List ℕ) → ((x : ℕ) → contains xs x ≡ true → P x) → All P xs
All-of P [] f = tt
All-of P (x ∷ xs) f = (f x (ground arith), All-of P xs (λ y i. f y (ground arith)))

module _ (deal : ℕ → Bytes → Bytes → List Bytes) (value : List Bytes → Bytes)
    (laws : IsInterpolation deal value) where
  pub zeros_at-value :
      (n : ℕ) (xs : List ℕ)
      → 1 ≤ n
      → 1 ≤ length xs
      → ((x : ℕ) → contains xs x ≡ true → (x ≢ 0) × (x < 256))
      → require_distinct_nonzero_xs xs ≡ ok tt
      → value (zeros_at n xs) ≡ repeat_zero n
  zeros_at-value n xs long some_xs f distinct =
      let v = zeros_at-AreShares n xs f in
      let same = AreShares-xs_of n xs (zeros_at n xs) v in
      let len : 1 ≤ length (zeros_at n xs) =
        rw (sym (length-xs_of (zeros_at n xs)), same) some_xs in
      let (size, _) = laws.shape n (zeros_at n xs) len (rw same v) in
      laws.linear n (zeros_at n xs) (zeros_at n xs) (zeros_at n xs) len (rw same v)
        (rw same distinct) (zeros_at-AreSums n xs long)
      ∙ xor_bytes_self (value (zeros_at n xs))
      ∙ ap (λ n. repeat_zero n) size

  pub blind-value :
      (rounds threshold n : ℕ) (xs : List ℕ) (random : ℕ → Bytes) (combined out : ByX)
      (ps : List Bytes)
      → 2 ≤ threshold
      → threshold ≤ length xs
      → ((x : ℕ) → contains xs x ≡ true → (x ≢ 0) × (x < 256))
      → require_distinct_nonzero_xs xs ≡ ok tt
      → AreAt combined xs ps
      → AreShares n xs ps
      → value ps ≡ repeat_zero n
      → blind deal rounds threshold n xs random combined ≡ ok out
      → (qs : List Bytes) × AreAt out xs qs × (value qs ≡ repeat_zero n)
  unfolding blind
  blind-value zero threshold n xs random combined out ps two enough f distinct at v zero_value h =
      (ps, subst (λ m. AreAt m xs ps) (ok-injective h) at, zero_value)
  blind-value (suc k) threshold n xs random combined out ps two enough f distinct at v zero_value
        h0 =
      >>=-elim (generate_zero_deltas deal threshold n xs (random k)) _ h0 λ deltas made h1.
        >>=-elim (add_deltas deltas combined) _ h1 λ next added h2.
          let (v_deltas, has, ins) =
            generate_zero_deltas_lem deal threshold n xs (random k) deltas laws.deals_all made in
          let all = All-of (HasX deltas) xs (λ x i. let (a, b) = f x i in has x i a b) in
          let (qs, ds, at', v', sums, ins', same_xs) =
            round-entries n deltas combined next (dealt deal threshold n (random k)) xs ps v_deltas
              ins added all at v in
          let same = AreShares-xs_of n xs ps v in
          let len : length ps ≡ length xs = sym (length-xs_of ps) ∙ ap (λ l. length l) same in
          let len' : length ds ≡ length xs = sym (length-xs_of ds) ∙ ap (λ l. length l) same_xs in
          let delta_value =
            laws.of_zero threshold n (random k) ds two (omega arith) (rw same_xs distinct) ins' in
          let sum_value =
            laws.linear n ps ds qs (omega arith) (rw same v) (rw same distinct) sums in
          blind-value k threshold n xs random next out qs two enough f distinct at' v'
            (sum_value
              ∙ rw (zero_value, delta_value)
                  (xor_bytes_self (repeat_zero n) ∙ ap (λ n. repeat_zero n) (length-repeat_zero n)))
            h2
