-- ===== src/PrivateBridge/Package/RoundTrip.antt =====
-- A letter is read back as it was written (src/private_bridge.rs).
use mathlib.Core.List.{append_assoc, append-nil}
use mathlib.Core.Path.{subst}
use key_quorom.Prelude.{
  Bytes, ◌<◌, ◌≡◌, refl, ◌∙◌, sym, Option, none, some, true, [], ◌∷◌, ◌++◌, length,
}
use key_quorom.Prelude.Equality.{nat_eq, list_eq}
use key_quorom.Error.{ok, ok-injective, >>=-elim}
use key_quorom.Signing.{is_utf8}
use key_quorom.Signing.BigEndian.{be16, be32, from_be-be32}
use key_quorom.Signing.Reader.{
  push_len_prefixed, take_u8, take_array, take_array-append, take_len_prefixed-append,
}
use key_quorom.Signing.RoundTrip.{prefixed}
use key_quorom.Signing.Verify.{Ed25519}
use key_quorom.PrivateBridge.SortedMap.{IsSorted}
use key_quorom.PrivateBridge.Roster.{to_u8, from_u8, member, supervisor, PartyRole}
use key_quorom.PrivateBridge.Package.Maps.{
  push_member_map, push_party_map, IsMembers, IsParties, Fits, member_bytes, party_bytes,
  push_len_prefixed-eq-ok, push_member_map-eq-ok, push_party_map-eq-ok, take_member_map-append,
  take_party_map-append,
}
use key_quorom.PrivateBridge.Package.Auth.{DecodedPackage}
use key_quorom.PrivateBridge.Package.Letter.{
  PackageFields, secret_bytes, sign_update, auth_bytes, encode_payload, decode_payload, take_secret,
  take_auth,
}

-- The salt and the secret stand or fall together.
abbrev pub IsSecret : Option Bytes → Option Bytes → Type 0
IsSecret none none = Unit
IsSecret none (some secret) = ⊥
IsSecret (some wrap) none = ⊥
IsSecret (some wrap) (some secret) = (length wrap ≡ 16) × (length secret ≡ 32)

-- The values of the Rust types, the rosters as `unique_members` and `unique_supervisors` make them.
pub record IsPackage (c : Ed25519) (f : PackageFields) : Type 0 where
  pub uid : is_utf8 f.uid ≡ true
  pub generation : f.generation < 4294967296
  pub bridge_label : is_utf8 f.bridge_label ≡ true
  pub public_key : length f.public_key ≡ 32
  pub salt : length f.salt ≡ 16
  pub recipient_label : is_utf8 f.recipient_label ≡ true
  pub recipient_public_key : length f.recipient_public_key ≡ 32
  pub members : IsMembers c f.members
  pub members_sorted : IsSorted f.members
  pub supervisors : IsParties f.supervisors
  pub supervisors_sorted : IsSorted f.supervisors
  pub removed_label : is_utf8 f.removed_label ≡ true
  pub secret : IsSecret f.wrap_salt f.secret

abbrev pub IsSignature : Option Bytes → Type 0
IsSignature none = Unit
IsSignature (some sig) = length sig ≡ 64

-- What the recipient reads.
abbrev pub delivered : PackageFields → Option Bytes → DecodedPackage
delivered f sig = record {
  kind = f.kind;
  uid = f.uid;
  generation = f.generation;
  bridge_label = f.bridge_label;
  public_key = f.public_key;
  salt = f.salt;
  recipient_label = f.recipient_label;
  recipient_public_key = f.recipient_public_key;
  role = f.role;
  members = f.members;
  supervisors = f.supervisors;
  removed_label = f.removed_label;
  wrap_salt = f.wrap_salt;
  secret = f.secret;
  auth_sig = sig;
}

from_u8-to_u8 : (r : PartyRole) → from_u8 (to_u8 r) ≡ ok r
from_u8-to_u8 member = refl
from_u8-to_u8 supervisor = refl

take_secret-append :
    (wrap secret : Option Bytes) (rest : Bytes)
    → IsSecret wrap secret
    → take_secret (secret_bytes wrap secret ++ rest) ≡ ok ((wrap, secret), rest)
unfolding take_secret take_u8
take_secret-append none none rest v = refl
take_secret-append none (some s) rest v = absurd v
take_secret-append (some w) none rest v = absurd v
take_secret-append (some w) (some s) rest (a, b) =
    rw (append_assoc w s rest, take_array-append 16 w (s ++ rest) a, take_array-append 32 s rest b)

take_auth-append :
    (c : Ed25519) (sig : Option Bytes) → IsSignature sig → take_auth (auth_bytes sig) ≡ ok (sig, [])
unfolding take_auth take_u8
take_auth-append c none v = refl
take_auth-append c (some s) v =
    let e = take_array-append 64 s [] v in
    let e' : take_array 64 s ≡ ok (s, []) = rw (append-nil s) at e in rw e'

-- The fields of a letter in order.
unfoldable pub letter : Ed25519 → PackageFields → Option Bytes → Bytes
letter c f sig =
    prefixed f.uid
    ++ (be32 f.generation
        ++ (prefixed f.bridge_label
            ++ (f.public_key
                ++ (f.salt
                    ++ (prefixed f.recipient_label
                        ++ ((to_u8 f.role ∷ [])
                            ++ ((be16 (length f.members) ++ member_bytes f.members)
                                ++ ((be16 (length f.supervisors) ++ party_bytes f.supervisors)
                                    ++ (prefixed f.removed_label
                                        ++ (secret_bytes f.wrap_salt f.secret
                                            ++ auth_bytes sig))))))))))

-- What a successful encoding says of the fields.
pub record Encoded (c : Ed25519) (f : PackageFields) (payload : Bytes) : Type 0 where
  pub sig : Option Bytes
  pub signed : sign_update c f f.old_signing ≡ ok sig
  pub same : payload ≡ letter c f sig
  pub uid : length f.uid < 65536
  pub bridge_label : length f.bridge_label < 65536
  pub recipient_label : length f.recipient_label < 65536
  pub members : (length f.members < 65536) × Fits f.members
  pub supervisors : (length f.supervisors < 65536) × Fits f.supervisors
  pub removed_label : length f.removed_label < 65536

pub encode-Encoded :
    (c : Ed25519) (f : PackageFields) (payload : Bytes)
    → encode_payload c f ≡ ok payload
    → Encoded c f payload
unfolding encode_payload letter
encode-Encoded c f payload h0 = >>=-elim (push_len_prefixed [] f.uid) _ h0 λ p1 e1 h1.
    >>=-elim (push_len_prefixed (p1 ++ be32 f.generation) f.bridge_label) _ h1 λ p2 e2 h2.
      >>=-elim (push_len_prefixed (p2 ++ f.public_key ++ f.salt) f.recipient_label) _ h2 λ p3 e3 h3.
        >>=-elim (push_member_map (p3 ++ (to_u8 f.role ∷ [])) f.members) _ h3 λ p4 e4 h4.
          >>=-elim (push_party_map p4 f.supervisors) _ h4 λ p5 e5 h5.
            >>=-elim (push_len_prefixed p5 f.removed_label) _ h5 λ p6 e6 h6.
              >>=-elim (sign_update c f f.old_signing) _ h6 λ sig e7 h7.
                let (s1, k1) = push_len_prefixed-eq-ok _ f.uid p1 e1 in
                let (s2, k2) = push_len_prefixed-eq-ok _ f.bridge_label p2 e2 in
                let (s3, k3) = push_len_prefixed-eq-ok _ f.recipient_label p3 e3 in
                let (s4, n4, k4) = push_member_map-eq-ok _ f.members p4 e4 in
                let (s5, n5, k5) = push_party_map-eq-ok _ f.supervisors p5 e5 in
                let (s6, k6) = push_len_prefixed-eq-ok _ f.removed_label p6 e6 in
                record {
                  sig = sig;
                  signed = e7;
                  same = sym (ok-injective h7) ∙ rw (s6, s5, s4, s3, s2, s1) (simp append_assoc);
                  uid = k1;
                  bridge_label = k2;
                  recipient_label = k3;
                  members = (n4, k4);
                  supervisors = (n5, k5);
                  removed_label = k6;
                }

pub decode-letter :
    (c : Ed25519) (f : PackageFields) (payload : Bytes)
    → IsPackage c f
    → (e : Encoded c f payload) → IsSignature e.sig
    → decode_payload c f.kind f.recipient_public_key (letter c f e.sig) ≡ ok (delivered f e.sig)
unfolding decode_payload letter take_u8
decode-letter c f payload v e g = rw (
  take_len_prefixed-append f.uid _ e.uid,
  v.uid,
  take_array-append 4 (be32 f.generation) _ refl,
  take_len_prefixed-append f.bridge_label _ e.bridge_label,
  v.bridge_label,
  take_array-append 32 f.public_key _ v.public_key,
  take_array-append 16 f.salt _ v.salt,
  take_len_prefixed-append f.recipient_label _ e.recipient_label,
  v.recipient_label,
  from_u8-to_u8 f.role,
  take_member_map-append c f.members _ v.members e.members v.members_sorted,
  take_party_map-append f.supervisors _ v.supervisors e.supervisors v.supervisors_sorted,
  take_len_prefixed-append f.removed_label _ e.removed_label,
  v.removed_label,
  take_secret-append f.wrap_salt f.secret _ v.secret,
  take_auth-append c e.sig g,
  from_be-be32 f.generation v.generation,
)

pub sign_update-IsSignature :
    (c : Ed25519) (f : PackageFields)
    → ((seed m : Bytes) → length (c.sign_raw seed m) ≡ 64)
    → (signing sig : Option Bytes) → sign_update c f signing ≡ ok sig
    → IsSignature sig
sign_update-IsSignature c f len none sig h = subst IsSignature (ok-injective h) tt
sign_update-IsSignature c f len (some seed) sig h =
    >>=-elim _ _ h λ preimage e h'. subst IsSignature (ok-injective h') (len seed preimage)
