-- ===== src/Signing/BigEndian.antt =====
-- Big-endian numbers as byte strings (`to_be_bytes`, `from_be_bytes`), as src/signing.rs uses them.
use key_quorom.Prelude.{ℕ, ◌+◌, ◌*◌, ◌/◌, ◌%◌, ◌<◌, ◌≡◌, List, [], ◌∷◌, ◌++◌, arith, length}

abbrev pub All {ℓ κ} : {A : Type ℓ} → (A → Type κ) → List A → Type κ
All P [] = Unit
All P (x ∷ xs) = P x × All P xs

abbrev pub IsByte : ℕ → Type 0
IsByte b = b < 256

abbrev pub IsBytes : List ℕ → Type 0
IsBytes = All IsByte

pub All-append_left {ℓ κ} :
    {A : Type ℓ} (P : A → Type κ) (xs ys : List A) → All P (xs ++ ys) → All P xs
All-append_left P [] ys h = tt
All-append_left P (x ∷ xs) ys h = (h.0, All-append_left P xs ys h.1)

pub All-append_right {ℓ κ} :
    {A : Type ℓ} (P : A → Type κ) (xs ys : List A) → All P (xs ++ ys) → All P ys
All-append_right P [] ys h = h
All-append_right P (x ∷ xs) ys h = All-append_right P xs ys h.1

-- `u16::to_be_bytes`
abbrev pub be16 : ℕ → List ℕ
be16 n = n / 256 % 256 ∷ n % 256 ∷ []

-- `u32::to_be_bytes`
abbrev pub be32 : ℕ → List ℕ
be32 n = n / 16777216 % 256 ∷ n / 65536 % 256 ∷ n / 256 % 256 ∷ n % 256 ∷ []

-- `from_be_bytes`, after the bytes whose value is `acc`.
unfoldable pub from_be : ℕ → List ℕ → ℕ
from_be acc [] = acc
from_be acc (b ∷ bs) = from_be (acc * 256 + b) bs

pub from_be-be16 : (n : ℕ) → n < 65536 → from_be 0 (be16 n) ≡ n
unfolding from_be
from_be-be16 n h = omega arith

pub from_be-be32 : (n : ℕ) → n < 4294967296 → from_be 0 (be32 n) ≡ n
unfolding from_be
from_be-be32 n h = omega arith

pub be16-from_be : (bs : List ℕ) → length bs ≡ 2 → IsBytes bs → be16 (from_be 0 bs) ≡ bs
unfolding from_be
be16-from_be [] h v = absurd (omega arith)
be16-from_be (a ∷ []) h v = absurd (omega arith)
be16-from_be (a ∷ b ∷ []) h v = ground arith
be16-from_be (a ∷ b ∷ c ∷ r) h v = absurd (omega arith)

pub be32-from_be : (bs : List ℕ) → length bs ≡ 4 → IsBytes bs → be32 (from_be 0 bs) ≡ bs
unfolding from_be
be32-from_be [] h v = absurd (omega arith)
be32-from_be (a ∷ []) h v = absurd (omega arith)
be32-from_be (a ∷ b ∷ []) h v = absurd (omega arith)
be32-from_be (a ∷ b ∷ c ∷ []) h v = absurd (omega arith)
be32-from_be (a ∷ b ∷ c ∷ d ∷ []) h v = ground arith
be32-from_be (a ∷ b ∷ c ∷ d ∷ e ∷ r) h v = absurd (omega arith)

pub from_be-lt_be16 : (bs : List ℕ) → length bs ≡ 2 → IsBytes bs → from_be 0 bs < 65536
unfolding from_be
from_be-lt_be16 [] h v = absurd (omega arith)
from_be-lt_be16 (a ∷ []) h v = absurd (omega arith)
from_be-lt_be16 (a ∷ b ∷ []) h v = omega arith
from_be-lt_be16 (a ∷ b ∷ c ∷ r) h v = absurd (omega arith)

pub from_be-lt_be32 : (bs : List ℕ) → length bs ≡ 4 → IsBytes bs → from_be 0 bs < 4294967296
unfolding from_be
from_be-lt_be32 [] h v = absurd (omega arith)
from_be-lt_be32 (a ∷ []) h v = absurd (omega arith)
from_be-lt_be32 (a ∷ b ∷ []) h v = absurd (omega arith)
from_be-lt_be32 (a ∷ b ∷ c ∷ []) h v = absurd (omega arith)
from_be-lt_be32 (a ∷ b ∷ c ∷ d ∷ []) h v = omega arith
from_be-lt_be32 (a ∷ b ∷ c ∷ d ∷ e ∷ r) h v = absurd (omega arith)
