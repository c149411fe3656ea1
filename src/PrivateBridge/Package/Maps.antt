-- ===== src/PrivateBridge/Package/Maps.antt =====
-- The two rosters inside a letter, as they are written and read (src/private_bridge.rs).
use mathlib.Core.List.{append_assoc, append-nil}
use key_quorom.Prelude.{
  Bool-cases, inl, inr, sym, ℕ, zero, suc, Bytes, ◌<◌, ◌≡◌, refl, ap, ◌∙◌, true, [], ◌∷◌, ◌++◌,
  arith, ltb, ltb→lt, length,
}
use key_quorom.Error.{
  Result, ok, ok-injective, ◌>>=◌, ◌>>◌, >>=-elim, guard-elim, guard, bundle_field_too_large,
  invalid_bridge_package,
}
use key_quorom.Signing.{is_utf8}
use key_quorom.Signing.BigEndian.{be16, from_be, from_be-be16}
use key_quorom.Signing.Reader.{
  push_len_prefixed, take_array, take_len_prefixed, take_array-append, take_len_prefixed-append,
}
use key_quorom.Signing.RoundTrip.{prefixed}
use key_quorom.Signing.Verify.{Ed25519}
use key_quorom.PrivateBridge.SortedMap.{Map, put, IsSorted, put_last}
use key_quorom.PrivateBridge.Roster.{MemberKeys}

unfoldable pub push_members : Bytes → Map MemberKeys → Result Bytes
push_members out [] = ok out
push_members out ((label, keys) ∷ map) = do
  out ← push_len_prefixed out label
  push_members (out ++ keys.encryption ++ keys.signing) map

unfoldable pub push_member_map : Bytes → Map MemberKeys → Result Bytes
push_member_map out map = do
  guard (ltb (length map) 65536) bundle_field_too_large
  push_members (out ++ be16 (length map)) map

unfoldable pub push_parties : Bytes → Map Bytes → Result Bytes
push_parties out [] = ok out
push_parties out ((label, pk) ∷ map) = do
  out ← push_len_prefixed out label
  push_parties (out ++ pk) map

unfoldable pub push_party_map : Bytes → Map Bytes → Result Bytes
push_party_map out map = do
  guard (ltb (length map) 65536) bundle_field_too_large
  push_parties (out ++ be16 (length map)) map

-- The entries that are left to read, and the map so far.
unfoldable pub take_parties : ℕ → Bytes → Map Bytes → Result (Map Bytes × Bytes)
take_parties zero rest map = ok (map, rest)
take_parties (suc n) rest map = do
  (label, rest) ← take_len_prefixed rest
  guard (is_utf8 label) invalid_bridge_package
  (pk, rest) ← take_array 32 rest
  take_parties n rest (put label pk map)

unfoldable pub take_party_map : Bytes → Result (Map Bytes × Bytes)
take_party_map rest = do (n, rest) ← take_array 2 rest; take_parties (from_be 0 n) rest []

module _ (c : Ed25519) where
  unfoldable pub take_members : ℕ → Bytes → Map MemberKeys → Result (Map MemberKeys × Bytes)
  take_members zero rest map = ok (map, rest)
  take_members (suc n) rest map = do
    (label, rest) ← take_len_prefixed rest
    guard (is_utf8 label) invalid_bridge_package
    (encryption, rest) ← take_array 32 rest
    (signing, rest) ← take_array 32 rest
    guard (c.is_key signing) invalid_bridge_package
    let keys : MemberKeys = record { encryption = encryption; signing = signing }
    take_members n rest (put label keys map)

  unfoldable pub take_member_map : Bytes → Result (Map MemberKeys × Bytes)
  take_member_map rest = do (n, rest) ← take_array 2 rest; take_members (from_be 0 n) rest []

-- The bytes of the entries.
unfoldable pub member_bytes : Map MemberKeys → Bytes
member_bytes [] = []
member_bytes ((label, keys) ∷ map) =
    prefixed label ++ (keys.encryption ++ (keys.signing ++ member_bytes map))

unfoldable pub party_bytes : Map Bytes → Bytes
party_bytes [] = []
party_bytes ((label, pk) ∷ map) = prefixed label ++ (pk ++ party_bytes map)

-- The labels fit their length fields.
abbrev pub Fits {ℓ} : {V : Type ℓ} → Map V → Type 0
Fits [] = Unit
Fits ((label, v) ∷ map) = (length label < 65536) × Fits map

-- The values of the Rust types, with the keys that the reader accepts.
abbrev pub IsMembers : Ed25519 → Map MemberKeys → Type 0
IsMembers c [] = Unit
IsMembers c ((label, keys) ∷ map) =
    (is_utf8 label ≡ true)
    × (length keys.encryption ≡ 32)
    × (length keys.signing ≡ 32)
    × (c.is_key keys.signing ≡ true)
    × IsMembers c map

abbrev pub IsParties : Map Bytes → Type 0
IsParties [] = Unit
IsParties ((label, pk) ∷ map) = (is_utf8 label ≡ true) × (length pk ≡ 32) × IsParties map

pub push_len_prefixed-eq-ok :
    (out bytes r : Bytes)
    → push_len_prefixed out bytes ≡ ok r
    → (r ≡ out ++ prefixed bytes) × (length bytes < 65536)
unfolding push_len_prefixed
push_len_prefixed-eq-ok out bytes r h = elim (Bool-cases (ltb (length bytes) 65536)) [
  | inl y ↦
      (sym (ok-injective (rw y at h)) ∙ append_assoc out (be16 (length bytes)) bytes, ground arith)
  | inr n ↦ absurd (cc (rw n at h))
]

push_members-eq-ok :
    (out : Bytes) (map : Map MemberKeys) (r : Bytes)
    → push_members out map ≡ ok r
    → (r ≡ out ++ member_bytes map) × Fits map
unfolding push_members member_bytes
push_members-eq-ok out [] r h = (sym (ok-injective h) ∙ sym (append-nil out), tt)
push_members-eq-ok out ((label, keys) ∷ map) r h =
    >>=-elim (push_len_prefixed out label) _ h λ o e h'.
      let (eq, fits) = push_len_prefixed-eq-ok out label o e in
      let (rest, more) = push_members-eq-ok _ map r h' in
      (rw (rest, eq) (simp append_assoc), (fits, more))

pub push_member_map-eq-ok :
    (out : Bytes) (map : Map MemberKeys) (r : Bytes)
    → push_member_map out map ≡ ok r
    → (r ≡ out ++ (be16 (length map) ++ member_bytes map)) × (length map < 65536) × Fits map
unfolding push_member_map
push_member_map-eq-ok out map r h = guard-elim (ltb (length map) 65536) _ _ h λ y h'.
    let (eq, fits) = push_members-eq-ok _ map r h' in
    (rw eq (append_assoc out (be16 (length map)) (member_bytes map)), ltb→lt _ _ y, fits)

take_members_lem :
    (c : Ed25519) (map acc : Map MemberKeys) (rest : Bytes)
    → IsMembers c map
    → Fits map
    → IsSorted (acc ++ map)
    → take_members c (length map) (member_bytes map ++ rest) acc ≡ ok (acc ++ map, rest)
unfolding take_members member_bytes
take_members_lem c [] acc rest v f s = ap (λ t. ok (t, rest)) (sym (append-nil acc))
take_members_lem c ((label, keys) ∷ map) acc rest (u, e, g, k, v) (l, f) s =
    rw
      (
        append_assoc (prefixed label) (keys.encryption ++ (keys.signing ++ member_bytes map)) rest,
        append_assoc (be16 (length label)) label
            ((keys.encryption ++ (keys.signing ++ member_bytes map)) ++ rest),
        take_len_prefixed-append label
            ((keys.encryption ++ (keys.signing ++ member_bytes map)) ++ rest) l,
        u,
        append_assoc keys.encryption (keys.signing ++ member_bytes map) rest,
        take_array-append 32 keys.encryption ((keys.signing ++ member_bytes map) ++ rest) e,
        append_assoc keys.signing (member_bytes map) rest,
        take_array-append 32 keys.signing (member_bytes map ++ rest) g,
        k,
        put_last acc label keys map s,
      )
      (take_members_lem c map (acc ++ ((label, keys) ∷ [])) rest v f
          (rw (append_assoc acc ((label, keys) ∷ []) map) s)
        ∙ ap (λ t. ok (t, rest)) (append_assoc acc ((label, keys) ∷ []) map))

-- A roster of members is read back with what follows it.
pub take_member_map-append :
    (c : Ed25519) (map : Map MemberKeys) (rest : Bytes)
    → IsMembers c map
    → (length map < 65536) × Fits map
    → IsSorted map
    → take_member_map c (be16 (length map) ++ (member_bytes map ++ rest)) ≡ ok (map, rest)
unfolding take_member_map
take_member_map-append c map rest v (n, f) s =
    rw
      (
        take_array-append 2 (be16 (length map)) (member_bytes map ++ rest) refl,
        from_be-be16 (length map) n,
      )
      (take_members_lem c map [] rest v f s)

push_parties-eq-ok :
    (out : Bytes) (map : Map Bytes) (r : Bytes)
    → push_parties out map ≡ ok r
    → (r ≡ out ++ party_bytes map) × Fits map
unfolding push_parties party_bytes
push_parties-eq-ok out [] r h = (sym (ok-injective h) ∙ sym (append-nil out), tt)
push_parties-eq-ok out ((label, pk) ∷ map) r h =
    >>=-elim (push_len_prefixed out label) _ h λ o e h'.
      let (eq, fits) = push_len_prefixed-eq-ok out label o e in
      let (rest, more) = push_parties-eq-ok _ map r h' in
      (rw (rest, eq) (simp append_assoc), (fits, more))

pub push_party_map-eq-ok :
    (out : Bytes) (map : Map Bytes) (r : Bytes)
    → push_party_map out map ≡ ok r
    → (r ≡ out ++ (be16 (length map) ++ party_bytes map)) × (length map < 65536) × Fits map
unfolding push_party_map
push_party_map-eq-ok out map r h = guard-elim (ltb (length map) 65536) _ _ h λ y h'.
    let (eq, fits) = push_parties-eq-ok _ map r h' in
    (rw eq (append_assoc out (be16 (length map)) (party_bytes map)), ltb→lt _ _ y, fits)

take_parties_lem :
    (map acc : Map Bytes) (rest : Bytes)
    → IsParties map
    → Fits map
    → IsSorted (acc ++ map)
    → take_parties (length map) (party_bytes map ++ rest) acc ≡ ok (acc ++ map, rest)
unfolding take_parties party_bytes
take_parties_lem [] acc rest v f s = ap (λ t. ok (t, rest)) (sym (append-nil acc))
take_parties_lem ((label, pk) ∷ map) acc rest (u, e, v) (l, f) s =
    rw
      (
        append_assoc (prefixed label) (pk ++ party_bytes map) rest,
        append_assoc (be16 (length label)) label ((pk ++ party_bytes map) ++ rest),
        take_len_prefixed-append label ((pk ++ party_bytes map) ++ rest) l,
        u,
        append_assoc pk (party_bytes map) rest,
        take_array-append 32 pk (party_bytes map ++ rest) e,
        put_last acc label pk map s,
      )
      (take_parties_lem map (acc ++ ((label, pk) ∷ [])) rest v f
          (rw (append_assoc acc ((label, pk) ∷ []) map) s)
        ∙ ap (λ t. ok (t, rest)) (append_assoc acc ((label, pk) ∷ []) map))

pub take_party_map-append :
    (map : Map Bytes) (rest : Bytes)
    → IsParties map
    → (length map < 65536) × Fits map
    → IsSorted map
    → take_party_map (be16 (length map) ++ (party_bytes map ++ rest)) ≡ ok (map, rest)
unfolding take_party_map
take_party_map-append map rest v (n, f) s =
    rw
      (
        take_array-append 2 (be16 (length map)) (party_bytes map ++ rest) refl,
        from_be-be16 (length map) n,
      )
      (take_parties_lem map [] rest v f s)
