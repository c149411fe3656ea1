-- ===== src/Signing/Reader.antt =====
-- The writers and readers of byte fields in src/signing.rs. A reader takes the bytes that are left
-- and returns its value with the rest; `?` makes what an error leaves unread irrelevant.
use mathlib.Core.List.{append_assoc}
use key_quorom.Prelude.{
  ℕ, Bytes, ◌<◌, ◌≡◌, refl, ap, ◌∙◌, sym, false, [], ◌∷◌, ◌++◌, arith, ltb, if◌then◌else◌, length,
  take, drop, take-append, drop-append, take-append-drop, length-take, length-append, Bool-cases,
  inl, inr,
}
use key_quorom.Error.{
  Result, ok, err, ◌>>=◌, >>=-eq-ok, bundle_field_too_large, invalid_bridge_package,
}
use key_quorom.Signing.BigEndian.{
  be16, from_be, from_be-be16, be16-from_be, from_be-lt_be16, IsByte, IsBytes, All-append_left,
}

unfoldable pub push_len_prefixed : Bytes → Bytes → Result Bytes
push_len_prefixed out bytes =
    if ltb (length bytes) 65536
    then ok (out ++ be16 (length bytes) ++ bytes)
    else err bundle_field_too_large

unfoldable pub take_u8 : Bytes → Result (ℕ × Bytes)
take_u8 [] = err invalid_bridge_package
take_u8 (b ∷ rest) = ok (b, rest)

unfoldable pub take_n : ℕ → Bytes → Result (Bytes × Bytes)
take_n n bytes =
    if ltb (length bytes) n then err invalid_bridge_package else ok (take n bytes, drop n bytes)

-- `take_array::<N>`; the conversion of the N bytes taken into an array cannot fail.
unfoldable pub take_array : ℕ → Bytes → Result (Bytes × Bytes)
take_array n bytes = take_n n bytes

unfoldable pub take_len_prefixed : Bytes → Result (Bytes × Bytes)
take_len_prefixed bytes = do (len, rest) ← take_array 2 bytes; take_n (from_be 0 len) rest

pub take_n-append :
    (n : ℕ) (xs rest : Bytes) → length xs ≡ n → take_n n (xs ++ rest) ≡ ok (xs, rest)
unfolding take_n
take_n-append n xs rest e =
    let long : ltb (length (xs ++ rest)) n ≡ false = ground (arith, length-append xs rest) in
    rw (long, take-append n xs rest e, drop-append n xs rest e)

pub take_array-append :
    (n : ℕ) (xs rest : Bytes) → length xs ≡ n → take_array n (xs ++ rest) ≡ ok (xs, rest)
unfolding take_array
take_array-append n xs rest e = take_n-append n xs rest e

-- A successful read splits its input.
pub take_n-eq-ok :
    (n : ℕ) (bytes xs rest : Bytes)
    → take_n n bytes ≡ ok (xs, rest)
    → (bytes ≡ xs ++ rest) × (length xs ≡ n)
unfolding take_n
take_n-eq-ok n bytes xs rest e = elim (Bool-cases (ltb (length bytes) n)) [
  | inl short ↦ absurd (cc (rw short at e))
  | inr long ↦
      let e' : ◌≡◌ {A = Result (Bytes × Bytes)} (ok (take n bytes, drop n bytes)) (ok (xs, rest)) =
        rw long at e in
      let head : take n bytes ≡ xs = ground arith in
      let tail : drop n bytes ≡ rest = ground arith in
      (
        rw (← head, ← tail) (sym (take-append-drop n bytes)),
        rw (← head) (length-take n bytes (ground arith)),
      )
]

pub take_array-eq-ok :
    (n : ℕ) (bytes xs rest : Bytes)
    → take_array n bytes ≡ ok (xs, rest)
    → (bytes ≡ xs ++ rest) × (length xs ≡ n)
unfolding take_array
take_array-eq-ok n bytes xs rest e = take_n-eq-ok n bytes xs rest e

pub take_u8-eq-ok :
    (bytes : Bytes) (b : ℕ) (rest : Bytes) → take_u8 bytes ≡ ok (b, rest) → bytes ≡ b ∷ rest
unfolding take_u8
take_u8-eq-ok [] b rest e = cc
take_u8-eq-ok (a ∷ bytes) b rest e = ground arith

pub take_len_prefixed-append :
    (xs rest : Bytes)
    → length xs < 65536
    → take_len_prefixed (be16 (length xs) ++ xs ++ rest) ≡ ok (xs, rest)
unfolding take_len_prefixed
take_len_prefixed-append xs rest h =
    rw
      (
        append_assoc (be16 (length xs)) xs rest,
        take_array-append 2 (be16 (length xs)) (xs ++ rest) refl,
        from_be-be16 (length xs) h,
      )
      (take_n-append (length xs) xs rest refl)

pub take_len_prefixed-eq-ok :
    (bytes xs rest : Bytes)
    → IsBytes bytes
    → take_len_prefixed bytes ≡ ok (xs, rest)
    → (bytes ≡ be16 (length xs) ++ xs ++ rest) × (length xs < 65536)
unfolding take_len_prefixed
take_len_prefixed-eq-ok bytes xs rest v e =
    let ((len, tail), first, second) =
      >>=-eq-ok (take_array 2 bytes) (λ (p : Bytes × Bytes). take_n (from_be 0 p.0) p.1) e in
    let (whole, two) = take_array-eq-ok 2 bytes len tail first in
    let (parts, size) = take_n-eq-ok (from_be 0 len) tail xs rest second in
    let bytes_ok = All-append_left IsByte len tail (rw whole at v) in
    (
      whole
          ∙ ap (λ t. len ++ t) parts
          ∙ ap (λ l. l ++ (xs ++ rest)) (sym (be16-from_be len two bytes_ok))
          ∙ ap (λ n. be16 n ++ (xs ++ rest)) (sym size),
      rw size (from_be-lt_be16 len two bytes_ok),
    )
