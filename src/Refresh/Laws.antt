-- ===== src/Refresh/Laws.antt =====
-- What a refresh relies on of the Shamir scheme (src/pss.rs), and the arithmetic of shares it needs.
use key_quorom.Prelude.{
  ℕ, zero, suc, ◌/◌, ◌<◌, ◌≤◌, Bytes, ◌≡◌, refl, ap, sym, false, not, ◌||◌, ◌==◌, List, [], ◌∷◌,
  arith, ltb, length, Bool-cases, inl, inr,
}
use key_quorom.Error.{ok, ok-injective}
use key_quorom.Signing.BigEndian.{All, IsBytes}
use key_quorom.Refresh.{
  xor_bits, xor_bytes, add_shares, share_x, repeat_zero, require_distinct_nonzero_xs, xs_of,
}
use key_quorom.Refresh.Shape.{limit}
use key_quorom.Refresh.Entries.{IsIn}
use key_quorom.Refresh.Deltas.{dealt, DealsAll}

-- Shares at these x-coordinates of a secret of n bytes.
abbrev pub AreShares : ℕ → List ℕ → List Bytes → Type 0
AreShares n [] [] = Unit
AreShares n [] (p ∷ ps) = ⊥
AreShares n (x ∷ xs) [] = ⊥
AreShares n (x ∷ xs) (p ∷ ps) =
    ((share_x p ≡ x) × (length p ≡ suc n) × IsBytes p) × AreShares n xs ps

-- The shares of two lists, added one by one.
abbrev pub AreSums : List Bytes → List Bytes → List Bytes → Type 0
AreSums [] [] [] = Unit
AreSums [] [] (s ∷ ss) = ⊥
AreSums [] (b ∷ bs) ss = ⊥
AreSums (a ∷ as') [] ss = ⊥
AreSums (a ∷ as') (b ∷ bs) [] = ⊥
AreSums (a ∷ as') (b ∷ bs) (s ∷ ss) = (add_shares a b ≡ ok s) × AreSums as' bs ss

-- `value` is the interpolation at 0, byte by byte, of shares at distinct x-coordinates: it is linear,
-- and the shares that a zero secret is dealt in interpolate to 0. A dealer deals 255 shares.
pub record IsInterpolation (deal : ℕ → Bytes → Bytes → List Bytes) (value : List Bytes → Bytes)
    : Type 0 where
  pub shape :
      (n : ℕ) (shares : List Bytes)
      → 1 ≤ length shares
      → AreShares n (xs_of shares) shares
      → (length (value shares) ≡ n) × IsBytes (value shares)
  pub linear :
      (n : ℕ) (shares others sums : List Bytes)
      → 1 ≤ length shares
      → AreShares n (xs_of shares) shares
      → require_distinct_nonzero_xs (xs_of shares) ≡ ok tt
      → AreSums shares others sums
      → value sums ≡ xor_bytes (value shares) (value others)
  pub of_zero :
      (threshold n : ℕ) (random : Bytes) (picked : List Bytes)
      → 2 ≤ threshold
      → threshold ≤ length picked
      → require_distinct_nonzero_xs (xs_of picked) ≡ ok tt
      → All (λ s. IsIn s (dealt deal threshold n random)) picked
      → value picked ≡ repeat_zero n
  pub deals_all : DealsAll deal

xor_bits_lt : (n a b : ℕ) → xor_bits n a b < limit n
xor_bits_lt zero a b = omega arith
xor_bits_lt (suc n) a b = omega (arith, xor_bits_lt n (a / 2) (b / 2))

xor_bits_self : (n a : ℕ) → xor_bits n a a ≡ 0
xor_bits_self zero a = refl
xor_bits_self (suc n) a = rw (xor_bits_self n (a / 2)) (omega arith)

xor_bits_zero : (n a : ℕ) → a < limit n → xor_bits n a 0 ≡ a
xor_bits_zero zero a h = omega arith
xor_bits_zero (suc n) a h =
    let ih = xor_bits_zero n (a / 2) (omega (arith, h)) in rw ih (omega arith)

pub xor_bytes_self : (a : Bytes) → xor_bytes a a ≡ repeat_zero (length a)
unfolding xor_bytes repeat_zero
xor_bytes_self [] = refl
xor_bytes_self (b ∷ a) = rw (xor_bits_self 8 b, xor_bytes_self a) refl

pub xor_bytes-repeat_zero :
    (n : ℕ) (a : Bytes) → length a ≡ n → IsBytes a → xor_bytes a (repeat_zero n) ≡ a
unfolding xor_bytes repeat_zero
xor_bytes-repeat_zero zero [] h v = refl
xor_bytes-repeat_zero zero (b ∷ a) h v = absurd (omega arith)
xor_bytes-repeat_zero (suc n) [] h v = absurd (omega arith)
xor_bytes-repeat_zero (suc n) (b ∷ a) h v =
    rw (xor_bits_zero 8 b v.0, xor_bytes-repeat_zero n a (omega arith) v.1) refl

xor_bytes-IsBytes : (a b : Bytes) → IsBytes (xor_bytes a b)
unfolding xor_bytes
xor_bytes-IsBytes [] b = tt
xor_bytes-IsBytes (l ∷ a) [] = tt
xor_bytes-IsBytes (l ∷ a) (r ∷ b) = (xor_bits_lt 8 l r, xor_bytes-IsBytes a b)

pub length-repeat_zero : (n : ℕ) → length (repeat_zero n) ≡ n
unfolding repeat_zero
length-repeat_zero zero = refl
length-repeat_zero (suc n) = ap (λ n. suc n) (length-repeat_zero n)

pub repeat_zero-IsBytes : (n : ℕ) → IsBytes (repeat_zero n)
unfolding repeat_zero
repeat_zero-IsBytes zero = tt
repeat_zero-IsBytes (suc n) = (omega arith, repeat_zero-IsBytes n)

pub add_shares-IsBytes :
    (a b sum : Bytes) → IsBytes a → add_shares a b ≡ ok sum → IsBytes sum × (share_x b ≡ share_x a)
unfolding add_shares
add_shares-IsBytes [] b sum v h = absurd (cc h)
add_shares-IsBytes (x ∷ a) [] sum v h = absurd (cc h)
add_shares-IsBytes (x ∷ a) (y ∷ b) sum v h =
    elim (Bool-cases (ltb (length a) 1 || (not (length a == length b) || not (x == y)))) [
      | inl refused ↦ absurd (cc (rw refused at h))
      | inr taken ↦
          let made : x ∷ xor_bytes a b ≡ sum = ok-injective (rw taken at h) in
          let same : x ≡ y = ground arith in (rw (← made) (v.0, xor_bytes-IsBytes a b), sym same)
    ]

-- A share of zeros that is added to itself.
pub add_shares-repeat_zero :
    (x n : ℕ) → 1 ≤ n → add_shares (x ∷ repeat_zero n) (x ∷ repeat_zero n) ≡ ok (x ∷ repeat_zero n)
unfolding add_shares
add_shares-repeat_zero x n h =
    let len = length-repeat_zero n in
    let self : xor_bytes (repeat_zero n) (repeat_zero n) ≡ repeat_zero n =
      rw len at (xor_bytes_self (repeat_zero n)) in
    let test : (ltb (length (repeat_zero n)) 1
          || (not (length (repeat_zero n) == length (repeat_zero n)) || not (x == x)))
        ≡ false =
      ground arith in
    rw (test, self) refl
