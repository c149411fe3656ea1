-- ===== src/Keys/Tests.antt =====
-- Tests and witnesses of the registered keys.
use key_quorom.Prelude.{
  ℕ, zero, suc, ◌≡◌, ◌≢◌, ◌↔◌, ◌++◌, length, refl, Bytes, Bool, true, false, Bool-cases, inl, inr,
  ltb, if◌then◌else◌, arith, none, some, [], ◌∷◌,
}
use key_quorom.Prelude.Sql.{select, next_id, delete}
use key_quorom.Error.{ok, err, invalid_public_key, db}
use key_quorom.Signing.BigEndian.{from_be, IsBytes}
use key_quorom.Keys.Curve.{
  spki_ed25519, key_prefixes, HasPrefixOf, extract_curve_key_bytes, strip_prefix_of, starts_with,
  extract_curve_key_bytes_lem, split_string, read_ssh_string, parse_ssh_ed25519_blob,
}
use key_quorom.Keys.OpenSsh.{ssh_blob, parse_ssh_ed25519_blob_lem}
use key_quorom.Keys.Revoke.{
  revoke_key, remove_key, get_active_encryption_key-revoke_key, get_key-remove_key,
}
use key_quorom.Keys.{get_key, get_active_encryption_key, encryption, signing}
use key_quorom.Keys.Register.{
  KeyRow, list_keys, register_key, get_key_by_public_key, get_or_register_encryption,
  get_or_register_encryption_lem,
}

abbrev zeros : ℕ → Bytes
zeros zero = []
zeros (suc n) = 0 ∷ zeros n

abbrev key_of : ℕ → Bytes
key_of b = b ∷ zeros 31

abbrev identity : Bytes → Bytes
identity bs = bs

abbrev ada : KeyRow
ada = record {
  key = record { id = 4; key_type = signing; public_key = key_of 7; revoked_at = none };
  label = 97 ∷ [];
  fingerprint = key_of 7;
}

abbrev bob : KeyRow
bob = record {
  key = record { id = 5; key_type = encryption; public_key = key_of 8; revoked_at = none };
  label = 98 ∷ [];
  fingerprint = key_of 8;
}

register_bob :
    get_or_register_encryption identity (ada ∷ []) (98 ∷ []) (key_of 8) ≡ ok (5, ada ∷ bob ∷ [])
unfolding get_or_register_encryption select register_key next_id
register_bob = refl

register_twice : register_key identity (ada ∷ []) (98 ∷ []) encryption (key_of 7) ≡ err db
unfolding register_key select
register_twice = refl

register_short :
    get_or_register_encryption identity (ada ∷ []) (98 ∷ []) (zeros 31) ≡ err invalid_public_key
unfolding get_or_register_encryption
register_short = refl

get_or_register_encryption_lem_example :
    (r : KeyRow) × (get_key_by_public_key (ada ∷ bob ∷ []) (key_of 8) ≡ ok r)
    × (r.key.id ≡ 5)
    × (r.key.public_key ≡ key_of 8)
    × (get_or_register_encryption identity (ada ∷ bob ∷ []) (99 ∷ []) (key_of 8)
        ≡ ok (5, ada ∷ bob ∷ []))
get_or_register_encryption_lem_example =
    get_or_register_encryption_lem identity (ada ∷ []) (98 ∷ []) (99 ∷ []) (key_of 8) 5
      (ada ∷ bob ∷ []) register_bob

-- The key's bytes are 0.
abbrev zero_spki : Bytes
zero_spki = spki_ed25519 ++ zeros 32

extract_curve_key_bytes_lem_example :
    (extract_curve_key_bytes zero_spki ≡ ok (zeros 32))
    ↔ (HasPrefixOf ([] ∷ key_prefixes) zero_spki (zeros 32) × (length (zeros 32) ≡ 32))
extract_curve_key_bytes_lem_example = extract_curve_key_bytes_lem zero_spki (zeros 32)

extract_spki : extract_curve_key_bytes zero_spki ≡ ok (zeros 32)
unfolding extract_curve_key_bytes strip_prefix_of starts_with
extract_spki = refl

extract_other : extract_curve_key_bytes (zeros 44) ≡ err invalid_public_key
unfolding extract_curve_key_bytes strip_prefix_of starts_with
extract_other = refl

abbrev all_bytes : Bytes → Bool
all_bytes [] = true
all_bytes (b ∷ bs) = if ltb b 256 then all_bytes bs else false

all_bytes-IsBytes : (bs : Bytes) → all_bytes bs ≡ true → IsBytes bs
all_bytes-IsBytes [] h = tt
all_bytes-IsBytes (b ∷ bs) h = elim (Bool-cases (ltb b 256)) [
  | inl y ↦ (ground arith, all_bytes-IsBytes bs (rw y at h))
  | inr n ↦ absurd (cc (rw n at h))
]

parse_blob : parse_ssh_ed25519_blob (ssh_blob (zeros 32)) ≡ some (zeros 32)
unfolding parse_ssh_ed25519_blob read_ssh_string split_string from_be
parse_blob = refl

parse_ssh_ed25519_blob_lem_example :
    (parse_ssh_ed25519_blob (ssh_blob (zeros 32)) ≡ some (zeros 32))
    ↔ ((ssh_blob (zeros 32) ≡ ssh_blob (zeros 32)) × (length (zeros 32) ≡ 32))
parse_ssh_ed25519_blob_lem_example =
    parse_ssh_ed25519_blob_lem (ssh_blob (zeros 32)) (zeros 32)
      (all_bytes-IsBytes (ssh_blob (zeros 32)) refl)

get_active_encryption_key-revoke_key_example :
    (get_active_encryption_key (list_keys (revoke_key (ada ∷ bob ∷ []) 5 9)) 5 ≢ ok bob.key)
    × (get_active_encryption_key (list_keys (revoke_key (ada ∷ bob ∷ []) 5 9)) 4
        ≡ get_active_encryption_key (list_keys (ada ∷ bob ∷ [])) 4)
get_active_encryption_key-revoke_key_example =
    get_active_encryption_key-revoke_key (ada ∷ bob ∷ []) 5 4 9 bob.key (λ e. cc e)

remove_held : remove_key (ada ∷ bob ∷ []) (5 ∷ []) 5 ≡ err db
unfolding remove_key select
remove_held = refl

remove_free : remove_key (ada ∷ bob ∷ []) (5 ∷ []) 4 ≡ ok (bob ∷ [])
unfolding remove_key select delete
remove_free = refl

get_key-remove_key_example :
    get_key (list_keys (bob ∷ [])) 5 ≡ get_key (list_keys (ada ∷ bob ∷ [])) 5
get_key-remove_key_example =
    get_key-remove_key (ada ∷ bob ∷ []) (bob ∷ []) (5 ∷ []) 4 5 remove_free refl
