-- ===== src/Keys/OpenSsh.antt =====
-- What the OpenSSH key reader of src/keys.rs accepts.
use mathlib.Core.List.{append-nil}
use key_quorom.Prelude.{
  ℕ, Bytes, ◌<◌, ◌≤◌, ◌≡◌, ◌↔◌, refl, ap, ◌∙◌, sym, false, Option, none, some, [], ◌∷◌, ◌++◌, arith,
  ◌==◌, ltb, length, take, drop, Bool-cases, inl, inr, take-append, drop-append, take-append-drop,
  length-take, length-append, some-injective,
}
use key_quorom.Prelude.Equality.{nat_eq, list_eq, list_beq, bytes_iff}
use key_quorom.Signing.BigEndian.{
  be32, from_be, from_be-be32, be32-from_be, IsByte, IsBytes, All-append_left, All-append_right,
}
use key_quorom.Keys.Curve.{
  split_string, read_ssh_string, ssh_ed25519, checked_ssh_key, after_algo, parse_ssh_ed25519_blob,
}

split_string-append : (xs rest : Bytes) → split_string (length xs) (xs ++ rest) ≡ some (xs, rest)
unfolding split_string
split_string-append xs rest =
    let sum = length-append xs rest in
    let long : ltb (length (xs ++ rest)) (length xs) ≡ false = ground arith in
    rw (long, take-append (length xs) xs rest refl, drop-append (length xs) xs rest refl) refl

split_string_sound :
    (n : ℕ) (bytes xs rest : Bytes)
    → split_string n bytes ≡ some (xs, rest)
    → (bytes ≡ xs ++ rest) × (length xs ≡ n)
unfolding split_string
split_string_sound n bytes xs rest h = elim (Bool-cases (ltb (length bytes) n)) [
  | inl short ↦ absurd (cc (rw short at h))
  | inr long ↦
      let enough : n ≤ length bytes = ground arith in
      let h' : (take n bytes, drop n bytes) ≡ (xs, rest) = some-injective (rw long at h) in
      let head : take n bytes ≡ xs = ap (λ (p : Bytes × Bytes). p.0) h' in
      let tail : drop n bytes ≡ rest = ap (λ (p : Bytes × Bytes). p.1) h' in
      (
        rw (← head, ← tail) (sym (take-append-drop n bytes)),
        rw (← head) (length-take n bytes enough),
      )
]

read_ssh_string-append :
    (xs rest : Bytes)
    → length xs < 4294967296
    → read_ssh_string (be32 (length xs) ++ (xs ++ rest)) ≡ some (xs, rest)
unfolding read_ssh_string
read_ssh_string-append xs rest h =
    let long : ltb (length (be32 (length xs) ++ (xs ++ rest))) 4 ≡ false = ground arith in
    rw (long, from_be-be32 (length xs) h) (split_string-append xs rest)

read_ssh_string_sound :
    (bytes xs rest : Bytes)
    → IsBytes bytes
    → read_ssh_string bytes ≡ some (xs, rest)
    → bytes ≡ be32 (length xs) ++ (xs ++ rest)
unfolding read_ssh_string
read_ssh_string_sound bytes xs rest v h = elim (Bool-cases (ltb (length bytes) 4)) [
  | inl short ↦ absurd (cc (rw short at h))
  | inr long ↦
      let four : length (take 4 bytes) ≡ 4 = length-take 4 bytes (ground arith) in
      let whole = take-append-drop 4 bytes in
      let valid = All-append_left IsByte (take 4 bytes) (drop 4 bytes) (rw (← whole) at v) in
      let (parts, size) =
        split_string_sound (from_be 0 (take 4 bytes)) (drop 4 bytes) xs rest (rw long at h) in
      let len : be32 (length xs) ≡ take 4 bytes =
        ap (λ n. be32 n) size ∙ be32-from_be (take 4 bytes) four valid in
      sym whole ∙ ap (λ t. take 4 bytes ++ t) parts ∙ ap (λ l. l ++ (xs ++ rest)) (sym len)
]

-- An Ed25519 key in OpenSSH's wire format.
abbrev pub ssh_blob : Bytes → Bytes
ssh_blob key = be32 11 ++ ssh_ed25519 ++ be32 32 ++ key

checked_ssh_key_sound :
    (m : Option (Bytes × Bytes)) (key : Bytes)
    → checked_ssh_key m ≡ some key
    → (m ≡ some (key, [])) × (length key ≡ 32)
checked_ssh_key_sound none key h = absurd (cc h)
checked_ssh_key_sound (some (read, [])) key h = elim (Bool-cases (length read == 32)) [
  | inl y ↦
      let same : read ≡ key = some-injective (rw y at h) in
      let size : length read ≡ 32 = ground arith in
      (ap (λ (k : Bytes). some (k, [])) same, rw same at size)
  | inr n ↦ absurd (cc (rw n at h))
]
checked_ssh_key_sound (some (read, x ∷ rest)) key h = elim (Bool-cases (length read == 32)) [
  | inl y ↦ absurd (ground arith)
  | inr n ↦ absurd (cc (rw n at h))
]

after_algo_sound :
    (m : Option (Bytes × Bytes)) (key : Bytes)
    → after_algo m ≡ some key
    → (rest : Bytes) × (m ≡ some (ssh_ed25519, rest))
      × (checked_ssh_key (read_ssh_string rest) ≡ some key)
after_algo_sound none key h = absurd (cc h)
after_algo_sound (some (algo, rest)) key h = elim (Bool-cases (list_beq algo ssh_ed25519)) [
  | inl y ↦ (rest, ap (λ (a : Bytes). some (a, rest)) ((bytes_iff algo ssh_ed25519).0 y), rw y at h)
  | inr n ↦ absurd (cc (rw n at h))
]

parse_ssh_ed25519_blob_sound :
    (bytes key : Bytes)
    → IsBytes bytes
    → parse_ssh_ed25519_blob bytes ≡ some key
    → (bytes ≡ ssh_blob key) × (length key ≡ 32)
unfolding parse_ssh_ed25519_blob
parse_ssh_ed25519_blob_sound bytes key v h =
    let (rest, algo, checked) = after_algo_sound (read_ssh_string bytes) key h in
    let (last, size) = checked_ssh_key_sound (read_ssh_string rest) key checked in
    let whole = read_ssh_string_sound bytes ssh_ed25519 rest v algo in
    let valid = All-append_right IsByte (be32 11 ++ ssh_ed25519) rest (rw whole at v) in
    let part = read_ssh_string_sound rest key [] valid last in
    (
      whole
          ∙ ap (λ t. be32 11 ++ (ssh_ed25519 ++ t))
              (part
                ∙ ap (λ n. be32 n ++ (key ++ [])) size
                ∙ ap (λ k. be32 32 ++ k) (append-nil key)),
      size,
    )

parse_ssh_ed25519_blob_complete :
    (key : Bytes) → length key ≡ 32 → parse_ssh_ed25519_blob (ssh_blob key) ≡ some key
unfolding parse_ssh_ed25519_blob
parse_ssh_ed25519_blob_complete key size =
    let first = read_ssh_string-append ssh_ed25519 (be32 32 ++ key) (omega arith) in
    let second : read_ssh_string (be32 32 ++ (key ++ [])) ≡ some (key, []) =
      rw size at (read_ssh_string-append key [] (rw size (omega arith))) in
    let second' : read_ssh_string (be32 32 ++ key) ≡ some (key, []) =
      rw (append-nil key) at second in
    rw (first, second', size) refl

-- An OpenSSH blob is read as a key exactly when it is the wire format of that key, with nothing
-- after it, and the key has 32 bytes; every other blob of bytes is refused.
pub parse_ssh_ed25519_blob_lem :
    (bytes key : Bytes)
    → IsBytes bytes
    → (parse_ssh_ed25519_blob bytes ≡ some key) ↔ ((bytes ≡ ssh_blob key) × (length key ≡ 32))
parse_ssh_ed25519_blob_lem bytes key v = (
  parse_ssh_ed25519_blob_sound bytes key v,
  λ p. rw p.0 (parse_ssh_ed25519_blob_complete key p.1),
)
