-- ===== src/Refresh/Secret.antt =====
-- A refresh among survivors keeps the secret (src/pss.rs).
use mathlib.Core.Path.{subst}
use key_quorom.Prelude.{
  ℕ, ◌+◌, ◌-◌, ◌<◌, ◌≤◌, Bytes, ◌≡◌, ◌≢◌, refl, ap, ◌∙◌, true, not, ◌||◌, ◌==◌, some, List, [], ◌∷◌,
  arith, ltb, length, Bool-cases, inl, inr,
}
use key_quorom.Prelude.Equality.{nat_eq, contains, insert}
use key_quorom.Error.{Result, ok, err, >>=-elim, guard-elim}
use key_quorom.Signing.BigEndian.{All, IsBytes}
use key_quorom.Refresh.{
  xor_bytes, add_shares, share_x, ByX, find_x, zero_shares, repeat_zero,
  require_distinct_nonzero_xs, distinct_nonzero, xs_of, absorb_one, absorbed, absorb, same_lengths,
  combined_deltas, refresh_with, refresh_among,
}
use key_quorom.Refresh.Shape.{IsAligned, refresh_among-IsAligned}
use key_quorom.Refresh.Laws.{AreShares, AreSums, IsInterpolation, xor_bytes-repeat_zero}
use key_quorom.Refresh.Rounds.{
  AreAt, length-xs_of, zeros_at, AreAt-zeros_at, zeros_at-AreShares, zeros_at-value,
  find_x-zero_shares, blind-value,
}

absorbed-ok :
    (m : Result Bytes) (share : Bytes) (shares : List Bytes) (rest : Result (Unit {0}) × List Bytes)
    (after : List Bytes)
    → absorbed m share shares rest ≡ (ok tt, after)
    → (renewed : Bytes) × (tail : List Bytes) × (m ≡ ok renewed)
      × (rest ≡ (ok tt, tail))
      × (renewed ∷ tail ≡ after)
absorbed-ok (err e) share shares rest after h =
    let failed : ◌≡◌ {A = Result (Unit {0})} (err e) (ok tt) =
      ap (λ (p : Result (Unit {0}) × List Bytes). p.0) h in
    absurd (cc failed)
absorbed-ok (ok renewed) share shares (result, tail) after h = (
  renewed,
  tail,
  refl,
  ap (λ (p : Result (Unit {0}) × List Bytes). (p.0, tail)) h,
  ap (λ (p : Result (Unit {0}) × List Bytes). p.1) h,
)

absorb-AreSums :
    (n : ℕ) (combined : ByX) (xs : List ℕ) (shares ps after : List Bytes)
    → AreShares n xs shares
    → AreAt combined xs ps
    → absorb combined shares ≡ (ok tt, after)
    → AreSums shares ps after
unfolding absorb
absorb-AreSums n combined [] [] [] after v at h =
    let none_left : [] ≡ after = ap (λ (p : Result (Unit {0}) × List Bytes). p.1) h in
    rw (← none_left) tt
absorb-AreSums n combined [] [] (p ∷ ps) after v at h = absurd at
absorb-AreSums n combined [] (s ∷ ss) ps after v at h = absurd v
absorb-AreSums n combined (x ∷ xs) [] ps after v at h = absurd v
absorb-AreSums n combined (x ∷ xs) (s ∷ ss) [] after v at h = absurd at
absorb-AreSums n combined (x ∷ xs) (s ∷ ss) (p ∷ ps) after v at h =
    let (renewed, tail, made, rest, whole) =
      absorbed-ok (absorb_one combined s) s ss (absorb combined ss) after h in
    let found : find_x (share_x s) combined ≡ some p = rw v.0.0 at.0 in
    let sum : add_shares s p ≡ ok renewed = rw found at made in
    rw (← whole) (sum, absorb-AreSums n combined xs ss ps tail v.1 at.1 rest)

distinct_nonzero-nonzero :
    (xs seen : List ℕ) (x : ℕ) → distinct_nonzero xs seen ≡ ok tt → contains xs x ≡ true → x ≢ 0
unfolding distinct_nonzero
distinct_nonzero-nonzero [] seen x h i = absurd (cc i)
distinct_nonzero-nonzero (y ∷ xs) seen x h i =
    guard-elim (not (y == 0 || contains seen y)) _ _ h λ fresh h1. elim (Bool-cases (y == x)) [
      | inl e ↦ ground arith
      | inr n ↦ distinct_nonzero-nonzero xs (insert y seen) x h1 (rw n at i)
    ]

xs_of-small :
    (shares : List Bytes) (x : ℕ) → All IsBytes shares → contains (xs_of shares) x ≡ true → x < 256
unfolding xs_of
xs_of-small [] x v i = absurd (cc i)
xs_of-small ([] ∷ shares) x v i = elim (Bool-cases (0 == x)) [
  | inl e ↦ ground arith
  | inr n ↦ xs_of-small shares x v.1 (rw n at i)
]
xs_of-small ((y ∷ ys) ∷ shares) x v i = elim (Bool-cases (y == x)) [
  | inl e ↦ let small = v.0.0 in ground arith
  | inr n ↦ xs_of-small shares x v.1 (rw n at i)
]

same_lengths-AreShares :
    (n : ℕ) (shares : List Bytes)
    → All IsBytes shares
    → same_lengths n shares ≡ true
    → AreShares n (xs_of shares) shares
unfolding same_lengths xs_of
same_lengths-AreShares n [] v h = tt
same_lengths-AreShares n (s ∷ ss) v h = elim (Bool-cases (length s == n + 1)) [
  | inl y ↦ ((refl, ground arith, v.0), same_lengths-AreShares n ss v.1 (rw y at h))
  | inr m ↦ absurd (cc (rw m at h))
]

module _ (deal : ℕ → Bytes → Bytes → List Bytes) (value : List Bytes → Bytes)
    (laws : IsInterpolation deal value) where
  -- What is made before the last loop interpolates to 0.
  combined_deltas-value :
      (shares : List Bytes) (threshold : ℕ) (random : ℕ → Bytes) (combined : ByX)
      → All IsBytes shares
      → combined_deltas deal shares threshold random ≡ ok combined
      → (n : ℕ) × (ps : List Bytes) × (1 ≤ length shares)
        × AreShares n (xs_of shares) shares
        × (require_distinct_nonzero_xs (xs_of shares) ≡ ok tt)
        × AreAt combined (xs_of shares) ps
        × (value ps ≡ repeat_zero n)
  unfolding combined_deltas require_distinct_nonzero_xs
  combined_deltas-value [] threshold random combined v h = absurd (cc h)
  combined_deltas-value (first ∷ rest) threshold random combined v h0 =
      let shares : List Bytes = first ∷ rest in
      let n = length first - 1 in
      let xs = xs_of shares in
      guard-elim (not (ltb (length shares) threshold)) _ _ h0 λ many h1.
        guard-elim (not (n == 0)) _ _ h1 λ long h2.
          guard-elim (same_lengths n shares) _ _ h2 λ same h3.
            >>=-elim (require_distinct_nonzero_xs xs) _ h3 λ _ distinct h4.
              guard-elim (not (ltb threshold 2)) _ _ h4 λ two h5.
                let size = length-xs_of shares in
                let bounds : (x : ℕ) → contains xs x ≡ true → (x ≢ 0) × (x < 256) =
                  λ x i. (distinct_nonzero-nonzero xs [] x distinct i, xs_of-small shares x v i) in
                let (ps, at, zero_value) =
                  blind-value deal value laws (length shares) threshold n xs random
                    (zero_shares n xs []) combined (zeros_at n xs) (ground arith) (ground arith)
                    bounds distinct
                    (AreAt-zeros_at n (zero_shares n xs []) xs
                      (λ x i. find_x-zero_shares n x xs [] i))
                    (zeros_at-AreShares n xs bounds)
                    (zeros_at-value deal value laws n xs (ground arith) (ground arith) bounds
                      distinct)
                    h5 in
                (
                  n,
                  ps,
                  omega arith,
                  same_lengths-AreShares n shares v same,
                  distinct,
                  at,
                  zero_value,
                )

  refresh_with-value :
      (m : Result ByX) (shares after : List Bytes) (threshold : ℕ) (random : ℕ → Bytes)
      → All IsBytes shares
      → combined_deltas deal shares threshold random ≡ m
      → refresh_with m shares ≡ (ok tt, after)
      → value after ≡ value shares
  refresh_with-value (err e) shares after threshold random v made h =
      let failed : ◌≡◌ {A = Result (Unit {0})} (err e) (ok tt) =
        ap (λ (p : Result (Unit {0}) × List Bytes). p.0) h in
      absurd (cc failed)
  refresh_with-value (ok combined) shares after threshold random v made h =
      let (n, ps, some_shares, shape, distinct, at, zero_value) =
        combined_deltas-value shares threshold random combined v made in
      let sums = absorb-AreSums n combined (xs_of shares) shares ps after shape at h in
      let (size, bytes) = laws.shape n shares some_shares shape in
      laws.linear n shares ps after some_shares shape distinct sums
      ∙ ap (λ z. xor_bytes (value shares) z) zero_value
      ∙ xor_bytes-repeat_zero n (value shares) size bytes

  -- A refresh of shares made of bytes that succeeds leaves the secret that they interpolate to as it
  -- was, and each share at its x-coordinate and of its length. Of the scheme it is assumed that
  -- interpolation is linear, that a threshold of shares of a zero secret interpolates to zeros, and
  -- that shares are dealt at every x-coordinate from 1 to 255.
  pub refresh_among-value :
      (shares after : List Bytes) (threshold : ℕ) (random : ℕ → Bytes)
      → All IsBytes shares
      → refresh_among deal shares threshold random ≡ (ok tt, after)
      → (value after ≡ value shares) × IsAligned shares after
  unfolding refresh_among
  refresh_among-value shares after threshold random v h = (
    refresh_with-value (combined_deltas deal shares threshold random) shares after threshold random
        v refl h,
    subst (λ (p : Result (Unit {0}) × List Bytes). IsAligned shares p.1) h
        (refresh_among-IsAligned deal shares threshold random),
  )
