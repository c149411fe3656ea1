-- ===== src/Error.antt =====
-- The crate's error type and its `Result` (src/error.rs). `db` and `io` stand for the errors that
-- SQLite and the operating system report; what they carry is not modelled.
use key_quorom.Prelude.{Bool, true, false, String, ◌≡◌, refl, Option, none, some}

pub data Error : Type 0 where
  db io invalid_path key_derivation_failed invalid_password : Error
  invalid_share_token share_expired share_revoked share_exhausted : Error
  integrity_check_failed quorum_not_met invalid_quorum_threshold invalid_tree_spec : Error
  key_revoked wrong_key_type invalid_public_key signature_verification_failed : Error
  pin_mismatch pin_locked pin_not_set invalid_pin bundle_field_too_large : Error
  node_not_found duplicate_node_label invalid_bridge bridge_not_whitelisted : Error
  bridge_not_found cannot_evict cannot_add_leaf share_shape_mismatch : Error
  invalid_bridge_package not_bridge_member too_few_bridge_members bridge_destroyed : Error
  bridge_generation_mismatch sealed_key_not_held : Error
  ambiguous_delivery_name : String → Error
  invalid_api_key invalid_api_key_request api_key_expired api_key_revoked : Error
  api_key_scope_denied api_key_not_found invalid_licensee_key organization_database : Error
  invalid_inbox_page : Error
  relay_request : String → Error
  tree_not_found stale_public_tree : Error

pub data Result {ℓ} (A : Type ℓ) : Type ℓ where
  ok : A → Result A
  err : Error → Result A

-- `.ok_or(e)`
abbrev pub ok_or {ℓ} : {A : Type ℓ} → Option A → Error → Result A
ok_or none e = err e
ok_or (some a) e = ok a

-- `if !holds { return Err(e); }`
abbrev pub guard : Bool → Error → Result (Unit {0})
guard false e = err e
guard true e = ok tt

-- The `?` operator.
infixl 5 ◌>>=◌ ◌>>◌
abbrev pub ◌>>=◌ {ℓ κ} : {A : Type ℓ} {B : Type κ} → Result A → (A → Result B) → Result B
err e >>= next = err e
ok a >>= next = next a

abbrev pub ◌>>◌ {κ} : {B : Type κ} → Result (Unit {0}) → Result B → Result B
check >> rest = check >>= λ _. rest

pub >>=-eq-ok {ℓ κ} :
    {A : Type ℓ} {B : Type κ} (first : Result A) (next : A → Result B) {r : B}
    → (first >>= next) ≡ ok r
    → (a : A) × (first ≡ ok a) × (next a ≡ ok r)
>>=-eq-ok (err failure) next e = cc
>>=-eq-ok (ok value) next e = (value, refl, e)

pub guard-eq-ok {ℓ} :
    {A : Type ℓ} (b : Bool) (e : Error) (k : Result A) {a : A}
    → (guard b e >> k) ≡ ok a
    → (b ≡ true) × (k ≡ ok a)
guard-eq-ok true e k h = (refl, h)
guard-eq-ok false e k h = cc

-- The same with what is known of the parts handed to the rest of the proof.
pub >>=-elim {ℓ κ ν} :
    {A : Type ℓ} {B : Type κ} {P : Type ν} (m : Result A) (f : A → Result B) {b : B}
    → (m >>= f) ≡ ok b
    → ((a : A) → m ≡ ok a → f a ≡ ok b → P)
    → P
>>=-elim (ok a) f h k = k a refl h
>>=-elim (err e) f h k = absurd (cc h)

pub guard-elim {ℓ ν} :
    {A : Type ℓ} {P : Type ν} (b : Bool) (e : Error) (k : Result A) {a : A}
    → (guard b e >> k) ≡ ok a
    → (b ≡ true → k ≡ ok a → P)
    → P
guard-elim true e k h r = r refl h
guard-elim false e k h r = absurd (cc h)

pub bind_ok {ℓ} : {A : Type ℓ} (m : Result A) → (m >>= λ a. ok a) ≡ m
bind_ok (ok a) = refl
bind_ok (err e) = refl

pub ok-injective {ℓ} : {A : Type ℓ} {a b : A} → ok a ≡ ok b → a ≡ b
ok-injective e = cc
