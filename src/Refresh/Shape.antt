-- ===== src/Refresh/Shape.antt =====
-- What adding shares and refreshing them keeps (src/pss.rs).
use key_quorom.Prelude.{
  ℕ, zero, suc, ◌+◌, ◌*◌, ◌/◌, ◌%◌, ◌<◌, Bytes, ◌≡◌, refl, ap, not, ◌||◌, ◌==◌, List, [], ◌∷◌,
  arith, ltb, length, Bool-cases, inl, inr,
}
use key_quorom.Error.{Result, ok, err, ok-injective, >>=-elim, ok_or, share_shape_mismatch}
use key_quorom.Signing.BigEndian.{IsBytes}
use key_quorom.Refresh.{
  xor_bits, xor_bytes, add_shares, share_x, ByX, find_x, absorb_one, absorbed, absorb,
  combined_deltas, refresh_with, refresh_among,
}

-- 2 to the power of the number of bits.
abbrev pub limit : ℕ → ℕ
limit zero = 1
limit (suc n) = 2 * limit n

xor_bits_undo : (n a b : ℕ) → a < limit n → xor_bits n (xor_bits n a b) b ≡ a
xor_bits_undo zero a b h = omega arith
xor_bits_undo (suc n) a b h =
    let c = xor_bits n (a / 2) (b / 2) in
    let ih = xor_bits_undo n (a / 2) (b / 2) (omega (arith, h)) in
    let half : ((a + b) % 2 + 2 * c) / 2 ≡ c = omega arith in rw (half, ih) (omega arith)

pub length-xor_bytes : (a b : Bytes) → length a ≡ length b → length (xor_bytes a b) ≡ length a
unfolding xor_bytes
length-xor_bytes [] b h = refl
length-xor_bytes (l ∷ a) [] h = absurd (omega arith)
length-xor_bytes (l ∷ a) (r ∷ b) h = ap (λ n. suc n) (length-xor_bytes a b (omega arith))

xor_bytes_undo : (a b : Bytes) → length a ≡ length b → IsBytes a → xor_bytes (xor_bytes a b) b ≡ a
unfolding xor_bytes
xor_bytes_undo [] b h v = refl
xor_bytes_undo (l ∷ a) [] h v = absurd (omega arith)
xor_bytes_undo (l ∷ a) (r ∷ b) h v =
    rw (xor_bits_undo 8 l r v.0, xor_bytes_undo a b (omega arith) v.1) refl

-- Adding a share to a sum once more takes it away again, if what was added to is made of bytes; and
-- the sum has the x and the length of that.
pub add_shares-add_shares :
    (a b sum : Bytes)
    → IsBytes a
    → add_shares a b ≡ ok sum
    → (add_shares sum b ≡ ok a) × (length sum ≡ length a) × (share_x sum ≡ share_x a)
unfolding add_shares
add_shares-add_shares [] b sum v h = absurd (cc h)
add_shares-add_shares (x ∷ a) [] sum v h = absurd (cc h)
add_shares-add_shares (x ∷ a) (y ∷ b) sum v h =
    elim (Bool-cases (ltb (length a) 1 || (not (length a == length b) || not (x == y)))) [
      | inl refused ↦ absurd (cc (rw refused at h))
      | inr taken ↦
          let made : x ∷ xor_bytes a b ≡ sum = ok-injective (rw taken at h) in
          let same : length a ≡ length b = ground arith in
          let len = length-xor_bytes a b same in
          rw (← made) (rw (len, taken, xor_bytes_undo a b same v.1) refl, ap (λ n. suc n) len, refl)
    ]

-- Two lists of shares with the same x-coordinates and lengths, in order.
abbrev pub IsAligned : List Bytes → List Bytes → Type 0
IsAligned [] [] = Unit
IsAligned [] (s ∷ ss) = ⊥
IsAligned (s ∷ ss) [] = ⊥
IsAligned (s ∷ ss) (t ∷ ts) = (share_x t ≡ share_x s) × (length t ≡ length s) × IsAligned ss ts

IsAligned-refl : (ss : List Bytes) → IsAligned ss ss
IsAligned-refl [] = tt
IsAligned-refl (s ∷ ss) = (refl, refl, IsAligned-refl ss)

pub add_shares-shape :
    (a b sum : Bytes)
    → add_shares a b ≡ ok sum
    → (share_x sum ≡ share_x a) × (length sum ≡ length a)
unfolding add_shares
add_shares-shape [] b sum h = absurd (cc h)
add_shares-shape (x ∷ a) [] sum h = absurd (cc h)
add_shares-shape (x ∷ a) (y ∷ b) sum h =
    elim (Bool-cases (ltb (length a) 1 || (not (length a == length b) || not (x == y)))) [
      | inl refused ↦ absurd (cc (rw refused at h))
      | inr taken ↦
          let made : x ∷ xor_bytes a b ≡ sum = ok-injective (rw taken at h) in
          let same : length a ≡ length b = ground arith in
          rw (← made) (refl, ap (λ n. suc n) (length-xor_bytes a b same))
    ]

absorb_one-shape :
    (combined : ByX) (share renewed : Bytes)
    → absorb_one combined share ≡ ok renewed
    → (share_x renewed ≡ share_x share) × (length renewed ≡ length share)
absorb_one-shape combined share renewed h =
    >>=-elim (ok_or (find_x (share_x share) combined) share_shape_mismatch) _ h
      λ delta _ h'. add_shares-shape share delta renewed h'

absorbed-IsAligned :
    (m : Result Bytes) (share : Bytes) (shares : List Bytes) (rest : Result (Unit {0}) × List Bytes)
    → ((renewed : Bytes)
        → m ≡ ok renewed
        → (share_x renewed ≡ share_x share) × (length renewed ≡ length share))
    → IsAligned shares rest.1
    → IsAligned (share ∷ shares) (absorbed m share shares rest).1
absorbed-IsAligned (err e) share shares rest shape v = (refl, refl, IsAligned-refl shares)
absorbed-IsAligned (ok renewed) share shares rest shape v =
    let (same_x, same_length) = shape renewed refl in (same_x, same_length, v)

absorb-IsAligned :
    (combined : ByX) (shares : List Bytes) → IsAligned shares (absorb combined shares).1
unfolding absorb
absorb-IsAligned combined [] = tt
absorb-IsAligned combined (share ∷ shares) =
    absorbed-IsAligned (absorb_one combined share) share shares (absorb combined shares)
      (absorb_one-shape combined share) (absorb-IsAligned combined shares)

refresh_with-IsAligned :
    (m : Result ByX) (shares : List Bytes) → IsAligned shares (refresh_with m shares).1
refresh_with-IsAligned (err e) shares = IsAligned-refl shares
refresh_with-IsAligned (ok combined) shares = absorb-IsAligned combined shares

module _ (deal : ℕ → Bytes → Bytes → List Bytes) where
  -- Whether it succeeds or fails, a refresh leaves each share at its x-coordinate and of its length,
  -- whatever shares the dealer makes.
  pub refresh_among-IsAligned :
      (shares : List Bytes) (threshold : ℕ) (random : ℕ → Bytes)
      → IsAligned shares (refresh_among deal shares threshold random).1
  unfolding refresh_among
  refresh_among-IsAligned shares threshold random =
      refresh_with-IsAligned (combined_deltas deal shares threshold random) shares
