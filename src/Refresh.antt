-- ===== src/Refresh.antt =====
-- Proactive refresh of Shamir shares (src/pss.rs). A share is its x-coordinate and then its y-bytes,
-- as the crate blahaj encodes it. The dealing of shares is a parameter: `deal threshold secret
-- random` lists the encodings of all 255 shares of a random polynomial. The rounds' randomness is an
-- argument. A `HashMap` is a list of entries with distinct keys; no result depends on its order.
pub mod Shape
pub mod Entries
pub mod Deltas
pub mod Laws
pub mod Rounds
pub mod Secret
mod Copies
mod Tests
use key_quorom.Prelude.{
  ℕ, zero, suc, ◌+◌, ◌*◌, ◌/◌, ◌%◌, ◌-◌, Bytes, Bool, true, false, not, ◌||◌, ◌==◌, Option, none,
  some, List, [], ◌∷◌, ltb, length, take, if◌then◌else◌,
}
use key_quorom.Prelude.Equality.{nat_eq, contains, insert}
use key_quorom.Error.{Result, ok, err, ◌>>=◌, ◌>>◌, guard, ok_or, share_shape_mismatch}

-- `l ^ r` on the given number of bits.
abbrev pub xor_bits : ℕ → ℕ → ℕ → ℕ
xor_bits zero a b = 0
xor_bits (suc n) a b = (a + b) % 2 + 2 * xor_bits n (a / 2) (b / 2)

-- `a.iter().zip(b).map(|(l, r)| l ^ r)`
unfoldable pub xor_bytes : Bytes → Bytes → Bytes
xor_bytes [] b = []
xor_bytes (l ∷ a) [] = []
xor_bytes (l ∷ a) (r ∷ b) = xor_bits 8 l r ∷ xor_bytes a b

-- Two shares of fewer than two bytes, of different lengths or at different x are refused.
unfoldable pub add_shares : Bytes → Bytes → Result Bytes
add_shares [] b = err share_shape_mismatch
add_shares (x ∷ a) [] = err share_shape_mismatch
add_shares (x ∷ a) (y ∷ b) =
    if ltb (length a) 1 || (not (length a == length b) || not (x == y))
    then err share_shape_mismatch
    else ok (x ∷ xor_bytes a b)

abbrev pub apply_deltas : Bytes → Bytes → Result Bytes
apply_deltas share delta = add_shares share delta

-- `share[0]`, of a share that is never empty.
abbrev pub share_x : Bytes → ℕ
share_x [] = 0
share_x (x ∷ ys) = x

abbrev pub ByX : Type 0
ByX = List (ℕ × Bytes)

unfoldable pub find_x : ℕ → ByX → Option Bytes
find_x x [] = none
find_x x ((y, share) ∷ rest) = if y == x then some share else find_x x rest

unfoldable pub put_x : ℕ → Bytes → ByX → ByX
put_x x share [] = (x, share) ∷ []
put_x x share ((y, old) ∷ rest) =
    if y == x then (x, share) ∷ rest else (y, old) ∷ put_x x share rest

-- The x-coordinates that are left, and those seen.
unfoldable pub distinct_nonzero : List ℕ → List ℕ → Result (Unit {0})
distinct_nonzero [] seen = ok tt
distinct_nonzero (x ∷ xs) seen = do
  guard (not (x == 0 || contains seen x)) share_shape_mismatch
  distinct_nonzero xs (insert x seen)

unfoldable pub require_distinct_nonzero_xs : List ℕ → Result (Unit {0})
require_distinct_nonzero_xs xs = distinct_nonzero xs []

unfoldable pub repeat_zero : ℕ → Bytes
repeat_zero zero = []
repeat_zero (suc n) = 0 ∷ repeat_zero n

-- The keys of the map `wanted`.
unfoldable pub wanted_xs : List ℕ → List ℕ → List ℕ
wanted_xs [] wanted = wanted
wanted_xs (x ∷ xs) wanted = wanted_xs xs (insert x wanted)

unfoldable pub collect_by_x : List ℕ → List Bytes → ByX → ByX
collect_by_x wanted [] by_x = by_x
collect_by_x wanted (share ∷ shares) by_x =
    collect_by_x wanted shares
      (if contains wanted (share_x share) then put_x (share_x share) share by_x else by_x)

abbrev pub is_empty {ℓ} : {A : Type ℓ} → List A → Bool
is_empty [] = true
is_empty (x ∷ xs) = false

-- One share of the last loop, before those of the last argument: an error leaves the shares that
-- are left as they were.
abbrev pub absorbed :
    Result Bytes
    → Bytes
    → List Bytes
    → Result (Unit {0}) × List Bytes
    → Result (Unit {0}) × List Bytes
absorbed (err e) share shares rest = (err e, share ∷ shares)
absorbed (ok renewed) share shares rest = (rest.0, renewed ∷ rest.1)

-- The lengths of the shares, which are one more than that of the secret.
unfoldable pub same_lengths : ℕ → List Bytes → Bool
same_lengths secret_len [] = true
same_lengths secret_len (share ∷ shares) =
    if length share == secret_len + 1 then same_lengths secret_len shares else false

unfoldable pub xs_of : List Bytes → List ℕ
xs_of [] = []
xs_of (share ∷ shares) = share_x share ∷ xs_of shares

unfoldable pub zero_shares : ℕ → List ℕ → ByX → ByX
zero_shares secret_len [] combined = combined
zero_shares secret_len (x ∷ xs) combined =
    zero_shares secret_len xs (put_x x (x ∷ repeat_zero secret_len) combined)

unfoldable pub add_deltas : ByX → ByX → Result ByX
add_deltas [] combined = ok combined
add_deltas ((x, delta) ∷ deltas) combined = do
  acc ← ok_or (find_x x combined) share_shape_mismatch
  acc ← apply_deltas acc delta
  add_deltas deltas (put_x x acc combined)

abbrev pub absorb_one : ByX → Bytes → Result Bytes
absorb_one combined share = do
  delta ← ok_or (find_x (share_x share) combined) share_shape_mismatch
  apply_deltas share delta

-- The last loop.
unfoldable pub absorb : ByX → List Bytes → Result (Unit {0}) × List Bytes
absorb combined [] = (ok tt, [])
absorb combined (share ∷ shares) =
    absorbed (absorb_one combined share) share shares (absorb combined shares)

abbrev pub refresh_with : Result ByX → List Bytes → Result (Unit {0}) × List Bytes
refresh_with (err e) shares = (err e, shares)
refresh_with (ok combined) shares = absorb combined shares

module _ (deal : ℕ → Bytes → Bytes → List Bytes) where
  unfoldable pub generate_zero_deltas : ℕ → ℕ → List ℕ → Bytes → Result ByX
  generate_zero_deltas threshold secret_len xs random = do
    guard (not (ltb threshold 2 || (secret_len == 0 || is_empty xs))) share_shape_mismatch
    require_distinct_nonzero_xs xs
    let all = take 255 (deal threshold (repeat_zero secret_len) random)
    let wanted = wanted_xs xs []
    let by_x = collect_by_x wanted all []
    guard (length by_x == length wanted) share_shape_mismatch
    ok by_x

  -- The rounds that are left.
  unfoldable pub blind : ℕ → ℕ → ℕ → List ℕ → (ℕ → Bytes) → ByX → Result ByX
  blind zero threshold secret_len xs random combined = ok combined
  blind (suc n) threshold secret_len xs random combined = do
    deltas ← generate_zero_deltas threshold secret_len xs (random n)
    combined ← add_deltas deltas combined
    blind n threshold secret_len xs random combined

  -- Everything before the last loop.
  unfoldable pub combined_deltas : List Bytes → ℕ → (ℕ → Bytes) → Result ByX
  combined_deltas [] threshold random = err share_shape_mismatch
  combined_deltas (first ∷ rest) threshold random = do
    guard (not (ltb (length (first ∷ rest)) threshold)) share_shape_mismatch
    let secret_len = length first - 1
    guard (not (secret_len == 0)) share_shape_mismatch
    guard (same_lengths secret_len (first ∷ rest)) share_shape_mismatch
    let xs = xs_of (first ∷ rest)
    require_distinct_nonzero_xs xs
    guard (not (ltb threshold 2)) share_shape_mismatch
    blind (length (first ∷ rest)) threshold secret_len xs random (zero_shares secret_len xs [])

  -- The shares afterwards stand beside the result.
  unfoldable pub refresh_among : List Bytes → ℕ → (ℕ → Bytes) → Result (Unit {0}) × List Bytes
  refresh_among shares threshold random =
      refresh_with (combined_deltas shares threshold random) shares
