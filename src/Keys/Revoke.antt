-- ===== src/Keys/Revoke.antt =====
-- Revoking and removing a hardware key (src/keys.rs), and what both leave to the lookups of the key tree.
use key_quorom.Prelude.{
  ℕ, ◌≡◌, ◌≢◌, refl, ap, sym, ◌∙◌, Bool, true, false, Option, none, some, List, [], ◌∷◌, arith,
  ◌==◌, Bool-cases, inl, inr, some-injective, not, ◌&&◌,
}
use key_quorom.Prelude.Equality.{nat_eq, contains}
use key_quorom.Prelude.Sql.{select, update, delete}
use key_quorom.Error.{Result, ok, err, guard, ◌>>◌, ok-injective, db, >>=-elim, guard-elim}
use key_quorom.Keys.{HardwareKey, get_key, get_active_encryption_key, is_encryption, is_unrevoked}
use key_quorom.Keys.Register.{KeyRow, list_keys, is_set}

abbrev pub has_id : ℕ → KeyRow → Bool
has_id id r = r.key.id == id

abbrev pub revoked : ℕ → KeyRow → KeyRow
revoked now r = record r { key = record r.key { revoked_at = some now } }

-- An id that no row has is no error.
unfoldable pub revoke_key : List KeyRow → ℕ → ℕ → List KeyRow
revoke_key rows id now = update (has_id id) (revoked now) rows

-- `holders` are the values of key_nodes.hardware_key_id, whose reference restricts the deletion.
unfoldable pub remove_key : List KeyRow → List ℕ → ℕ → Result (List KeyRow)
remove_key rows holders id = do
  guard (not (is_set (select (has_id id) rows) && contains holders id)) db
  ok (delete (has_id id) rows)

abbrev pub get : List KeyRow → ℕ → Option HardwareKey
get rows id = select (λ (k : HardwareKey). k.id == id) (list_keys rows)

select-revoke_key :
    (rows : List KeyRow) (id now : ℕ) (k : HardwareKey)
    → get (revoke_key rows id now) id ≡ some k
    → k.revoked_at ≡ some now
unfolding revoke_key select update
select-revoke_key [] id now k h = absurd (cc h)
select-revoke_key (r ∷ rows) id now k h = elim (Bool-cases (r.key.id == id)) [
  | inl y ↦ ap (λ (k : HardwareKey). k.revoked_at) (sym (some-injective (rw (y, y) at h)))
  | inr n ↦ select-revoke_key rows id now k (rw (n, n) at h)
]

select-revoke_key_other :
    (rows : List KeyRow) (id other now : ℕ)
    → other ≢ id
    → get (revoke_key rows id now) other ≡ get rows other
unfolding revoke_key select update
select-revoke_key_other [] id other now ne = refl
select-revoke_key_other (r ∷ rows) id other now ne = elim (Bool-cases (r.key.id == id)) [
  | inl y ↦
      let m : (r.key.id == other) ≡ false = ground arith in
      rw (y, m) (select-revoke_key_other rows id other now ne)
  | inr n ↦ elim (Bool-cases (r.key.id == other)) [
    | inl y ↦ rw (n, y) refl
    | inr m ↦ rw (n, m) (select-revoke_key_other rows id other now ne)
  ]
]

abbrev of_row : Option HardwareKey → Result HardwareKey
of_row m = elim m [ none ↦ err db | some k ↦ ok k ]

found-ok : (m : Option HardwareKey) (k : HardwareKey) → of_row m ≡ ok k → m ≡ some k
found-ok none k h = absurd (cc h)
found-ok (some j) k h = ap (λ (k : HardwareKey). some k) (ok-injective h)

get_key-some :
    (keys : List HardwareKey) (id : ℕ) (k : HardwareKey)
    → get_key keys id ≡ ok k
    → select (λ (k : HardwareKey). k.id == id) keys ≡ some k
unfolding get_key
get_key-some keys id k h = found-ok (select (λ (k : HardwareKey). k.id == id) keys) k h

get_active_encryption_key_unrevoked :
    (keys : List HardwareKey) (id : ℕ) (k : HardwareKey)
    → get_active_encryption_key keys id ≡ ok k
    → (get_key keys id ≡ ok k) × (is_unrevoked k.revoked_at ≡ true)
unfolding get_active_encryption_key
get_active_encryption_key_unrevoked keys id k h = >>=-elim (get_key keys id) _ h λ key found h1.
    guard-elim (is_encryption key.key_type) _ _ h1 λ _ h2.
      guard-elim (is_unrevoked key.revoked_at) _ _ h2 λ free h3.
        let same : key ≡ k = ok-injective h3 in
        (rw same at found, ap (λ (k : HardwareKey). is_unrevoked k.revoked_at) (sym same) ∙ free)

get_key-eq :
    (keys keys' : List HardwareKey) (id : ℕ)
    → select (λ (k : HardwareKey). k.id == id) keys ≡ select (λ (k : HardwareKey). k.id == id) keys'
    → get_key keys id ≡ get_key keys' id
unfolding get_key
get_key-eq keys keys' id e = ap (λ (m : Option HardwareKey). of_row m) e

get_active_encryption_key-eq :
    (keys keys' : List HardwareKey) (id : ℕ)
    → get_key keys id ≡ get_key keys' id
    → get_active_encryption_key keys id ≡ get_active_encryption_key keys' id
unfolding get_active_encryption_key
get_active_encryption_key-eq keys keys' id e = rw e refl

-- After its revocation a key is none that a leaf can be given, and every other id gives what it gave
-- before, be it a key or an error.
pub get_active_encryption_key-revoke_key :
    (rows : List KeyRow) (id other now : ℕ) (k : HardwareKey)
    → other ≢ id
    → (get_active_encryption_key (list_keys (revoke_key rows id now)) id ≢ ok k)
      × (get_active_encryption_key (list_keys (revoke_key rows id now)) other
          ≡ get_active_encryption_key (list_keys rows) other)
get_active_encryption_key-revoke_key rows id other now k ne = (
  λ h.
      let (found, free) =
        get_active_encryption_key_unrevoked (list_keys (revoke_key rows id now)) id k h in
      let gone =
        select-revoke_key rows id now k
          (get_key-some (list_keys (revoke_key rows id now)) id k found) in
      cc (rw gone at free),
  get_active_encryption_key-eq (list_keys (revoke_key rows id now)) (list_keys rows) other (
      get_key-eq (list_keys (revoke_key rows id now)) (list_keys rows) other
        (select-revoke_key_other rows id other now ne)),
)

select-delete_other :
    (rows : List KeyRow) (id other : ℕ)
    → other ≢ id
    → get (delete (has_id id) rows) other ≡ get rows other
unfolding delete select
select-delete_other [] id other ne = refl
select-delete_other (r ∷ rows) id other ne = elim (Bool-cases (r.key.id == id)) [
  | inl y ↦
      let m : (r.key.id == other) ≡ false = ground arith in
      rw (y, m) (select-delete_other rows id other ne)
  | inr n ↦ elim (Bool-cases (r.key.id == other)) [
    | inl y ↦ rw (n, y) refl
    | inr m ↦ rw (n, m) (select-delete_other rows id other ne)
  ]
]

is_set-none : (m : Option KeyRow) → is_set m ≡ false → m ≡ none
is_set-none none h = refl
is_set-none (some r) h = absurd (cc h)

delete-none :
    (rows : List KeyRow) (id : ℕ) → select (has_id id) rows ≡ none → delete (has_id id) rows ≡ rows
unfolding delete select
delete-none [] id h = refl
delete-none (r ∷ rows) id h = elim (Bool-cases (has_id id r)) [
  | inl y ↦ absurd (cc (rw y at h))
  | inr n ↦ rw n (ap (λ t. r ∷ t) (delete-none rows id (rw n at h)))
]

-- A removal that succeeds leaves the look-up of every id that a leaf holds as it was.
pub get_key-remove_key :
    (rows after : List KeyRow) (holders : List ℕ) (id holder : ℕ)
    → remove_key rows holders id ≡ ok after
    → contains holders holder ≡ true
    → get_key (list_keys after) holder ≡ get_key (list_keys rows) holder
unfolding remove_key
get_key-remove_key rows after holders id holder h0 held =
    guard-elim (not (is_set (select (has_id id) rows) && contains holders id)) _ _ h0 λ free h1.
      let kept : delete (has_id id) rows ≡ after = ok-injective h1 in
      get_key-eq (list_keys after) (list_keys rows) holder (elim (Bool-cases (holder == id)) [
        | inl y ↦
            let same : holder ≡ id = ground arith in
            let unset : is_set (select (has_id id) rows) ≡ false = ground arith in
            let unchanged = delete-none rows id (is_set-none (select (has_id id) rows) unset) in
            rw (← kept, unchanged) refl
        | inr n ↦ rw (← kept) (select-delete_other rows id holder (ground arith))
      ])
