-- ===== src/PrivateBridge/Roster.antt =====
-- Who is on the roster of a bridge (src/private_bridge.rs). The X25519 operations of `crypto_box`
-- and `x25519_dalek` are the parameter `CryptoBox`, the Ed25519 operations the parameter `Ed25519`.
use key_quorom.Prelude.{
  ℕ, Bytes, ◌≡◌, Option, none, some, List, [], ◌∷◌, Bool, true, false, not, if◌then◌else◌, ◌&&◌,
  ◌||◌, ◌==◌, zero, suc,
}
use key_quorom.Prelude.Equality.{nat_eq, list_eq, list_beq}
use key_quorom.Error.{
  Result, ok, err, ◌>>=◌, ◌>>◌, guard, ok_or, invalid_bridge_package, invalid_bridge,
  invalid_public_key, duplicate_node_label, node_not_found,
}
use key_quorom.Signing.Verify.{Ed25519}
use key_quorom.PrivateBridge.SortedMap.{Map, contains_key, put, keys}
use key_quorom.PrivateBridge.Labels.{parent_node_label}

-- `x25519` is the scalar multiplication, `public` the public key of a secret key; `seal` takes the
-- randomness of the operating system, the recipient's key and the message. A sealed message opens
-- with the secret key of its recipient.
pub record CryptoBox : Type 0 where
  pub x25519 : Bytes → Bytes → Bytes
  pub public : Bytes → Bytes
  pub seal : Bytes → Bytes → Bytes → Bytes
  pub unseal : Bytes → Bytes → Option Bytes
  pub unseal-seal :
      (random secret m : Bytes) → unseal secret (seal random (public secret) m) ≡ some m

pub data PartyRole : Type 0 where
  member supervisor : PartyRole

abbrev pub as_str : PartyRole → Bytes
as_str member = b'm' ∷ b'e' ∷ b'm' ∷ b'b' ∷ b'e' ∷ b'r' ∷ []
as_str supervisor = b's' ∷ b'u' ∷ b'p' ∷ b'e' ∷ b'r' ∷ b'v' ∷ b'i' ∷ b's' ∷ b'o' ∷ b'r' ∷ []

unfoldable pub from_db : Bytes → Result PartyRole
from_db s =
    if list_beq s (as_str member)
    then ok member
    else if list_beq s (as_str supervisor)
    then ok supervisor
    else err invalid_bridge_package

abbrev pub to_u8 : PartyRole → ℕ
to_u8 member = 1
to_u8 supervisor = 2

abbrev pub from_u8 : ℕ → Result PartyRole
from_u8 v =
    if v == 1 then ok member else if v == 2 then ok supervisor else err invalid_bridge_package

abbrev pub is_member : PartyRole → Bool
is_member member = true
is_member supervisor = false

pub record MemberKeys : Type 0 where
  pub encryption : Bytes
  pub signing : Bytes

pub record BridgePartyInput : Type 0 where
  pub label : Bytes
  pub encryption_public_key : Bytes
  pub signing_public_key : Option Bytes

pub record BridgeParty : Type 0 where
  pub label : Bytes
  pub encryption_public_key : Bytes
  pub signing_public_key : Option Bytes
  pub role : PartyRole
  pub is_local : Bool
  pub has_sealed_key : Bool

abbrev pub repeat : ℕ → ℕ → Bytes
repeat zero b = []
repeat (suc n) b = b ∷ repeat n b

abbrev pub is_weak_x25519_public_key : CryptoBox → Bytes → Bool
is_weak_x25519_public_key x public_key = list_beq (x.x25519 (repeat 32 1) public_key) (repeat 32 0)

module _ (c : Ed25519) (x : CryptoBox) where
  -- The labels left to insert, and the map so far.
  unfoldable pub unique_members : List BridgePartyInput → Map MemberKeys → Result (Map MemberKeys)
  unique_members [] map = ok map
  unique_members (party ∷ parties) map = do
    guard (not (list_beq party.label [])) invalid_bridge
    guard (not (is_weak_x25519_public_key x party.encryption_public_key)) invalid_public_key
    signing ← ok_or party.signing_public_key invalid_public_key
    guard (c.is_key signing) invalid_public_key
    guard (not (contains_key party.label map)) duplicate_node_label
    let keys : MemberKeys = record { encryption = party.encryption_public_key; signing = signing }
    unique_members parties (put party.label keys map)

  unfoldable pub unique_supervisors : List BridgePartyInput → Map Bytes → Result (Map Bytes)
  unique_supervisors [] map = ok map
  unique_supervisors (party ∷ parties) map = do
    guard (not (list_beq party.label [])) invalid_bridge
    guard (not (is_weak_x25519_public_key x party.encryption_public_key)) invalid_public_key
    guard (not (contains_key party.label map)) duplicate_node_label
    unique_supervisors parties (put party.label party.encryption_public_key map)

-- The parent of a member is a member or among the supervisors.
abbrev pub parent_present : Map MemberKeys → Map Bytes → Option Bytes → Bool
parent_present members supervisors none = true
parent_present members supervisors (some parent) =
    contains_key parent members || contains_key parent supervisors

unfoldable pub parents_present : List Bytes → Map MemberKeys → Map Bytes → Bool
parents_present [] members supervisors = true
parents_present (label ∷ labels) members supervisors =
    parent_present members supervisors (parent_node_label label)
    && parents_present labels members supervisors

-- `supervisors.retain`
unfoldable pub retain : Map MemberKeys → Map Bytes → Map Bytes
retain members [] = []
retain members ((label, pk) ∷ rest) =
    let kept = retain members rest in
    if contains_key label members then kept else (label, pk) ∷ kept

unfoldable pub fill_implied_supervisors : Map MemberKeys → Map Bytes → Result (Map Bytes)
fill_implied_supervisors members supervisors = do
  guard (parents_present (keys members) members supervisors) node_not_found
  ok (retain members supervisors)

abbrev pub needs_parent : Map MemberKeys → Option Bytes → Map (Unit {0}) → Map (Unit {0})
needs_parent members none needed = needed
needs_parent members (some parent) needed =
    if contains_key parent members then needed else put parent tt needed

unfoldable pub needed_supervisors : List Bytes → Map MemberKeys → Map (Unit {0}) → Map (Unit {0})
needed_supervisors [] members needed = needed
needed_supervisors (label ∷ labels) members needed =
    needed_supervisors labels members (needs_parent members (parent_node_label label) needed)

unfoldable pub pubs_of : Map (Unit {0}) → List BridgeParty → Map Bytes → Map Bytes
pubs_of needed [] out = out
pubs_of needed (party ∷ parties) out = pubs_of needed parties (
    if contains_key party.label needed
    then put party.label party.encryption_public_key out
    else out)

unfoldable pub supervisor_pubs_for : Map MemberKeys → List BridgeParty → Map Bytes
supervisor_pubs_for members previous =
    pubs_of (needed_supervisors (keys members) members []) previous []

-- The parties of the summary that are left, and the map so far.
unfoldable pub remaining_members :
    List BridgeParty → Bytes → Map MemberKeys → Result (Map MemberKeys)
remaining_members [] removed_label members = ok members
remaining_members (party ∷ parties) removed_label members =
    if not (is_member party.role) || list_beq party.label removed_label
    then remaining_members parties removed_label members
    else (do
      signing ← ok_or party.signing_public_key invalid_bridge
      let keys : MemberKeys = record { encryption = party.encryption_public_key; signing = signing }
      remaining_members parties removed_label (put party.label keys members))
