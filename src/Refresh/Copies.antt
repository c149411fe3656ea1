-- ===== src/Refresh/Copies.antt =====
-- A scheme that has the laws a refresh relies on: each share is a copy of the secret.
use mathlib.Core.Path.{subst}
use key_quorom.Prelude.{
  ℕ, zero, suc, ◌+◌, ◌<◌, ◌≤◌, Bytes, ◌≡◌, ◌≢◌, refl, ap, sym, not, ◌||◌, ◌==◌, List, [], ◌∷◌,
  arith, ltb, length, take, Bool-cases, inl, inr,
}
use key_quorom.Error.{ok, ok-injective}
use key_quorom.Signing.BigEndian.{All, IsBytes}
use key_quorom.Refresh.{xor_bytes, add_shares, repeat_zero, xs_of}
use key_quorom.Refresh.Entries.{IsIn}
use key_quorom.Refresh.Deltas.{dealt}
use key_quorom.Refresh.Laws.{AreShares, AreSums, IsInterpolation}

-- So many copies, the first of them at x.
abbrev pub copies : ℕ → ℕ → Bytes → List Bytes
copies zero x secret = []
copies (suc n) x secret = (x ∷ secret) ∷ copies n (suc x) secret

abbrev pub deal_copies : ℕ → Bytes → Bytes → List Bytes
deal_copies threshold secret random = copies 255 1 secret

abbrev pub y_bytes : Bytes → Bytes
y_bytes [] = []
y_bytes (x ∷ ys) = ys

abbrev pub first_value : List Bytes → Bytes
first_value [] = []
first_value (share ∷ shares) = y_bytes share

take-copies : (n x : ℕ) (secret : Bytes) → take n (copies n x secret) ≡ copies n x secret
take-copies zero x secret = refl
take-copies (suc n) x secret = ap (λ t. (x ∷ secret) ∷ t) (take-copies n (suc x) secret)

copies-y_bytes :
    (n x : ℕ) (secret share : Bytes) → IsIn share (copies n x secret) → y_bytes share ≡ secret
copies-y_bytes zero x secret share i = absurd i
copies-y_bytes (suc n) x secret share (inl e) = ap y_bytes e
copies-y_bytes (suc n) x secret share (inr i) = copies-y_bytes n (suc x) secret share i

copies-IsIn :
    (n x y : ℕ) (secret : Bytes) → x ≤ y → y < x + n → IsIn (y ∷ secret) (copies n x secret)
copies-IsIn zero x y secret low high = absurd (omega arith)
copies-IsIn (suc n) x y secret low high = elim (Bool-cases (y == x)) [
  | inl e ↦ let same : y ≡ x = ground arith in inl (ap (λ z. z ∷ secret) same)
  | inr ne ↦
      let other : y ≢ x = ground arith in
      inr (copies-IsIn n (suc x) y secret (ground arith) (omega arith))
]

first_value-shape :
    (n : ℕ) (shares : List Bytes)
    → 1 ≤ length shares
    → AreShares n (xs_of shares) shares
    → (length (first_value shares) ≡ n) × IsBytes (first_value shares)
unfolding xs_of
first_value-shape n [] h v = absurd (omega arith)
first_value-shape n ([] ∷ shares) h v = absurd (let size = v.0.1 in omega arith)
first_value-shape n ((x ∷ ys) ∷ shares) h v = (let size = v.0.1 in omega arith, v.0.2.1)

y_bytes-add_shares :
    (a b sum : Bytes) → add_shares a b ≡ ok sum → y_bytes sum ≡ xor_bytes (y_bytes a) (y_bytes b)
unfolding add_shares
y_bytes-add_shares [] b sum h = absurd (cc h)
y_bytes-add_shares (x ∷ a) [] sum h = absurd (cc h)
y_bytes-add_shares (x ∷ a) (y ∷ b) sum h =
    elim (Bool-cases (ltb (length a) 1 || (not (length a == length b) || not (x == y)))) [
      | inl refused ↦ absurd (cc (rw refused at h))
      | inr taken ↦ ap y_bytes (sym (ok-injective (rw taken at h)))
    ]

first_value-linear :
    (shares others sums : List Bytes)
    → 1 ≤ length shares
    → AreSums shares others sums
    → first_value sums ≡ xor_bytes (first_value shares) (first_value others)
first_value-linear [] others sums h v = absurd (omega arith)
first_value-linear (a ∷ shares) [] sums h v = absurd v
first_value-linear (a ∷ shares) (b ∷ others) [] h v = absurd v
first_value-linear (a ∷ shares) (b ∷ others) (s ∷ sums) h v = y_bytes-add_shares a b s v.0

first_value-of_zero :
    (threshold n : ℕ) (random : Bytes) (picked : List Bytes)
    → 1 ≤ length picked
    → All (λ s. IsIn s (dealt deal_copies threshold n random)) picked
    → first_value picked ≡ repeat_zero n
first_value-of_zero threshold n random [] h v = absurd (omega arith)
first_value-of_zero threshold n random (p ∷ picked) h v =
    copies-y_bytes 255 1 (repeat_zero n) p
      (subst (λ l. IsIn p l) (take-copies 255 1 (repeat_zero n)) v.0)

pub copies-IsInterpolation : IsInterpolation deal_copies first_value
copies-IsInterpolation = record {
  shape = first_value-shape;
  linear = λ n shares others sums h _ _ v. first_value-linear shares others sums h v;
  of_zero = λ threshold n random picked two enough _ v.
      first_value-of_zero threshold n random picked (omega arith) v;
  deals_all = λ threshold n random x nonzero small. (
    x ∷ repeat_zero n,
    subst (λ l. IsIn (x ∷ repeat_zero n) l) (sym (take-copies 255 1 (repeat_zero n)))
        (copies-IsIn 255 1 x (repeat_zero n) (ground arith) (omega arith)),
    refl,
  );
}
