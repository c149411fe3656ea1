-- ===== src/Keys/Curve.antt =====
-- The raw key bytes inside a DER or OpenSSH key file (src/keys.rs). Reading moves along the bytes
-- that are left; `?` makes what an error leaves unread irrelevant.
use key_quorom.Prelude.{
  ℕ, Bytes, ◌+◌, ◌≡◌, ◌↔◌, ◌⊎◌, refl, ap, ◌∙◌, Bool, true, false, not, ◌&&◌, ◌||◌, Option, none,
  some, List, [], ◌∷◌, ◌++◌, arith, ◌==◌, ltb, length, take, drop, if◌then◌else◌, Bool-cases, inl,
  inr, length-append,
}
use key_quorom.Prelude.Equality.{nat_eq, list_eq, list_beq}
use key_quorom.Error.{Result, ok, err, ok-injective, invalid_public_key}
use key_quorom.Signing.BigEndian.{from_be}

-- SPKI_X25519, SPKI_ED25519, PKCS8_X25519 and PKCS8_ED25519, in the order they are tried.
abbrev pub spki_x25519 : Bytes
spki_x25519 = 48 ∷ 42 ∷ 48 ∷ 5 ∷ 6 ∷ 3 ∷ 43 ∷ 101 ∷ 110 ∷ 3 ∷ 33 ∷ 0 ∷ []

abbrev pub spki_ed25519 : Bytes
spki_ed25519 = 48 ∷ 42 ∷ 48 ∷ 5 ∷ 6 ∷ 3 ∷ 43 ∷ 101 ∷ 112 ∷ 3 ∷ 33 ∷ 0 ∷ []

abbrev pub pkcs8_x25519 : Bytes
pkcs8_x25519 = 48 ∷ 46 ∷ 2 ∷ 1 ∷ 0 ∷ 48 ∷ 5 ∷ 6 ∷ 3 ∷ 43 ∷ 101 ∷ 110 ∷ 4 ∷ 34 ∷ 4 ∷ 32 ∷ []

abbrev pub pkcs8_ed25519 : Bytes
pkcs8_ed25519 = 48 ∷ 46 ∷ 2 ∷ 1 ∷ 0 ∷ 48 ∷ 5 ∷ 6 ∷ 3 ∷ 43 ∷ 101 ∷ 112 ∷ 4 ∷ 34 ∷ 4 ∷ 32 ∷ []

abbrev pub key_prefixes : List Bytes
key_prefixes = spki_x25519 ∷ spki_ed25519 ∷ pkcs8_x25519 ∷ pkcs8_ed25519 ∷ []

unfoldable pub starts_with : Bytes → Bytes → Bool
starts_with bytes [] = true
starts_with [] (p ∷ ps) = false
starts_with (b ∷ bytes) (p ∷ ps) = if b == p then starts_with bytes ps else false

unfoldable pub strip_prefix_of : List Bytes → Bytes → Result Bytes
strip_prefix_of [] der = err invalid_public_key
strip_prefix_of (prefix ∷ prefixes) der =
    if (length der == length prefix + 32) && starts_with der prefix
    then ok (drop (length prefix) der)
    else strip_prefix_of prefixes der

unfoldable pub extract_curve_key_bytes : Bytes → Result Bytes
extract_curve_key_bytes der = if length der == 32 then ok der else strip_prefix_of key_prefixes der

-- `data.split_at(len)`, where there are so many bytes.
unfoldable pub split_string : ℕ → Bytes → Option (Bytes × Bytes)
split_string len rest = if ltb (length rest) len then none else some (take len rest, drop len rest)

-- The string, and the bytes that are left.
unfoldable pub read_ssh_string : Bytes → Option (Bytes × Bytes)
read_ssh_string bytes =
    if ltb (length bytes) 4 then none else split_string (from_be 0 (take 4 bytes)) (drop 4 bytes)

-- b"ssh-ed25519"
abbrev pub ssh_ed25519 : Bytes
ssh_ed25519 = 115 ∷ 115 ∷ 104 ∷ 45 ∷ 101 ∷ 100 ∷ 50 ∷ 53 ∷ 53 ∷ 49 ∷ 57 ∷ []

abbrev pub checked_ssh_key : Option (Bytes × Bytes) → Option Bytes
checked_ssh_key none = none
checked_ssh_key (some (key, rest)) =
    if not (length key == 32) || not (length rest == 0) then none else some key

abbrev pub after_algo : Option (Bytes × Bytes) → Option Bytes
after_algo none = none
after_algo (some (algo, rest)) =
    if not (list_beq algo ssh_ed25519) then none else checked_ssh_key (read_ssh_string rest)

unfoldable pub parse_ssh_ed25519_blob : Bytes → Option Bytes
parse_ssh_ed25519_blob bytes = after_algo (read_ssh_string bytes)

starts_with_sound :
    (der prefix : Bytes) → starts_with der prefix ≡ true → der ≡ prefix ++ drop (length prefix) der
unfolding starts_with
starts_with_sound der [] h = refl
starts_with_sound [] (p ∷ ps) h = absurd (cc h)
starts_with_sound (b ∷ der) (p ∷ ps) h = elim (Bool-cases (b == p)) [
  | inl y ↦
      let ih = starts_with_sound der ps (rw y at h) in
      let same : b ≡ p = ground arith in rw same (ap (λ t. p ∷ t) ih)
  | inr n ↦ absurd (cc (rw n at h))
]

-- Some prefix of the list, followed by the key, is the whole.
abbrev pub HasPrefixOf : List Bytes → Bytes → Bytes → Type 0
HasPrefixOf [] der key = ⊥
HasPrefixOf (prefix ∷ prefixes) der key = (der ≡ prefix ++ key) ⊎ HasPrefixOf prefixes der key

strip_prefix_of_sound :
    (prefixes : List Bytes) (der key : Bytes)
    → strip_prefix_of prefixes der ≡ ok key
    → HasPrefixOf prefixes der key × (length key ≡ 32)
unfolding strip_prefix_of
strip_prefix_of_sound [] der key h = absurd (cc h)
strip_prefix_of_sound (prefix ∷ prefixes) der key h =
    elim (Bool-cases ((length der == length prefix + 32) && starts_with der prefix)) [
      | inl y ↦
          let taken : drop (length prefix) der ≡ key = ok-injective (rw y at h) in
          let starts : starts_with der prefix ≡ true = ground arith in
          let parts : der ≡ prefix ++ key =
            starts_with_sound der prefix starts ∙ ap (λ t. prefix ++ t) taken in
          let size : length der ≡ length prefix + 32 = ground arith in
          let size' : length (prefix ++ key) ≡ length prefix + 32 = rw parts at size in
          let sum = length-append prefix key in (inl parts, omega arith)
      | inr n ↦
          let (found, size) = strip_prefix_of_sound prefixes der key (rw n at h) in
          (inr found, size)
    ]

extract_curve_key_bytes_sound :
    (der key : Bytes)
    → extract_curve_key_bytes der ≡ ok key
    → HasPrefixOf ([] ∷ key_prefixes) der key × (length key ≡ 32)
unfolding extract_curve_key_bytes
extract_curve_key_bytes_sound der key h = elim (Bool-cases (length der == 32)) [
  | inl y ↦
      let same : der ≡ key = ok-injective (rw y at h) in
      let size : length der ≡ 32 = ground arith in (inl same, rw same at size)
  | inr n ↦
      let (found, size) = strip_prefix_of_sound key_prefixes der key (rw n at h) in
      (inr found, size)
]

extract_curve_key_bytes_complete :
    (der key : Bytes)
    → HasPrefixOf ([] ∷ key_prefixes) der key
    → length key ≡ 32
    → extract_curve_key_bytes der ≡ ok key
unfolding extract_curve_key_bytes strip_prefix_of starts_with
extract_curve_key_bytes_complete der key found size = elim found [
  | inl e ↦ rw (e, size) refl
  | inr rest ↦ elim rest [
    | inl e ↦ rw (e, size) refl
    | inr rest ↦ elim rest [
      | inl e ↦ rw (e, size) refl
      | inr rest ↦ elim rest [
        | inl e ↦ rw (e, size) refl
        | inr rest ↦ elim rest [ inl e ↦ rw (e, size) refl | inr none_left ↦ absurd none_left ]
      ]
    ]
  ]
]

-- The key bytes that a DER file is read as are exactly the 32 bytes that it consists of, or that
-- follow one of the four prefixes in it; every other file is refused.
pub extract_curve_key_bytes_lem :
    (der key : Bytes)
    → (extract_curve_key_bytes der ≡ ok key)
      ↔ (HasPrefixOf ([] ∷ key_prefixes) der key × (length key ≡ 32))
extract_curve_key_bytes_lem der key =
    (extract_curve_key_bytes_sound der key, λ p. extract_curve_key_bytes_complete der key p.0 p.1)
