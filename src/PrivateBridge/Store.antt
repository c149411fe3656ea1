-- ===== src/PrivateBridge/Store.antt =====
-- The tables of src/db/schema.sql that hold private bridges, with their constraints, and the
-- transaction of src/db/mod.rs. The ids of the table `keys` are a list; the JSON detail and the time
-- of an event are left out.
use key_quorom.Prelude.{
  ℕ, Bytes, Option, none, some, List, [], ◌∷◌, ◌++◌, Bool, true, false, not, ◌&&◌, ◌==◌, String,
  ltb, length,
}
use key_quorom.Prelude.Equality.{nat_eq, list_eq, list_beq, contains}
use key_quorom.Prelude.Sql.{select, delete, update, next_id}
use key_quorom.Error.{Result, ok, err, ◌>>◌, guard, db}
use key_quorom.PrivateBridge.Roster.{as_str, member, supervisor}

pub record PrivateBridgeRow : Type 0 where
  pub id : ℕ
  pub uid : Bytes
  pub key_id : Option ℕ
  pub label : Option Bytes
  pub generation : ℕ
  pub public_key : Bytes
  pub salt : Bytes
  pub destroyed_at : Option ℕ

pub record PartyRow : Type 0 where
  pub bridge_id : ℕ
  pub node_label : Bytes
  pub encryption_public_key : Bytes
  pub signing_public_key : Option Bytes
  pub role : Bytes
  pub is_local : Bool

pub record SealedRow : Type 0 where
  pub bridge_id : ℕ
  pub node_label : Bytes
  pub wrap_salt : Bytes
  pub wrapped_secret : Bytes

pub record EventRow : Type 0 where
  pub id : ℕ
  pub bridge_id : ℕ
  pub event_type : String

pub record Store : Type 0 where
  pub keys : List ℕ
  pub bridges : List PrivateBridgeRow
  pub parties : List PartyRow
  pub sealed : List SealedRow
  pub events : List EventRow

abbrev pub is_set {ℓ} : {A : Type ℓ} → Option A → Bool
is_set none = false
is_set (some a) = true

abbrev pub has_uid : Bytes → PrivateBridgeRow → Bool
has_uid uid r = list_beq r.uid uid

abbrev pub has_bridge_id : ℕ → PrivateBridgeRow → Bool
has_bridge_id id r = r.id == id

-- `bridge_id = ?1`
abbrev pub party_of : ℕ → PartyRow → Bool
party_of id p = p.bridge_id == id

-- `bridge_id = ?1 AND node_label = ?2`
abbrev pub party_named : ℕ → Bytes → PartyRow → Bool
party_named id label p = p.bridge_id == id && list_beq p.node_label label

abbrev pub sealed_of : ℕ → SealedRow → Bool
sealed_of id r = r.bridge_id == id

abbrev pub sealed_named : ℕ → Bytes → SealedRow → Bool
sealed_named id label r = r.bridge_id == id && list_beq r.node_label label

-- `key_id INTEGER REFERENCES keys(id)`
abbrev pub known_key : List ℕ → Option ℕ → Bool
known_key keys none = true
known_key keys (some id) = contains keys id

-- INSERT INTO private_bridges; the new row comes with its id.
unfoldable pub insert_bridge :
    Store → Bytes → Option ℕ → Option Bytes → ℕ → Bytes → Bytes → Result (ℕ × Store)
insert_bridge s uid key_id label generation public_key salt = do
  guard (not (is_set (select (has_uid uid) s.bridges))) db
  guard (ltb 0 generation) db
  guard (known_key s.keys key_id) db
  let id = next_id (λ (r : PrivateBridgeRow). r.id) s.bridges
  let row : PrivateBridgeRow = record {
    id = id;
    uid = uid;
    key_id = key_id;
    label = label;
    generation = generation;
    public_key = public_key;
    salt = salt;
    destroyed_at = none;
  }
  ok (id, record s { bridges = s.bridges ++ (row ∷ []) })

-- The CHECK on the role and the signing key.
abbrev pub party_allowed : Bytes → Option Bytes → Bool
party_allowed role none = list_beq role (as_str supervisor)
party_allowed role (some key) = list_beq role (as_str member) && (length key == 32)

-- INSERT INTO private_bridge_members
unfoldable pub insert_party : Store → PartyRow → Result Store
insert_party s p = do
  guard (is_set (select (has_bridge_id p.bridge_id) s.bridges)) db
  guard (not (is_set (select (party_named p.bridge_id p.node_label) s.parties))) db
  guard (party_allowed p.role p.signing_public_key) db
  ok (record s { parties = s.parties ++ (p ∷ []) })

-- INSERT INTO private_bridge_sealed_keys
unfoldable pub insert_sealed : Store → SealedRow → Result Store
insert_sealed s r = do
  guard (is_set (select (party_named r.bridge_id r.node_label) s.parties)) db
  guard (not (is_set (select (sealed_named r.bridge_id r.node_label) s.sealed))) db
  ok (record s { sealed = s.sealed ++ (r ∷ []) })

-- INSERT INTO bridge_events
unfoldable pub insert_event : Store → ℕ → String → Result Store
insert_event s bridge_id event_type = do
  guard (is_set (select (has_bridge_id bridge_id) s.bridges)) db
  let row : EventRow = record {
    id = next_id (λ (e : EventRow). e.id) s.events;
    bridge_id = bridge_id;
    event_type = event_type;
  }
  ok (record s { events = s.events ++ (row ∷ []) })

-- DELETE FROM private_bridge_members; a sealed key goes with the row of its party.
abbrev pub delete_parties : Store → ℕ → Store
delete_parties s id = record s {
  parties = delete (party_of id) s.parties;
  sealed = delete (sealed_of id) s.sealed;
}

abbrev pub delete_party : Store → ℕ → Bytes → Store
delete_party s id label = record s {
  parties = delete (party_named id label) s.parties;
  sealed = delete (sealed_named id label) s.sealed;
}

-- DELETE FROM private_bridge_sealed_keys
abbrev pub delete_sealed : Store → ℕ → Store
delete_sealed s id = record s { sealed = delete (sealed_of id) s.sealed }

-- UPDATE private_bridges
abbrev pub update_bridges :
    Store → (PrivateBridgeRow → Bool) → (PrivateBridgeRow → PrivateBridgeRow) → Store
update_bridges s where_clause set = record s { bridges = update where_clause set s.bridges }

-- SET destroyed_at
abbrev pub set_destroyed : ℕ → PrivateBridgeRow → PrivateBridgeRow
set_destroyed now r = record r { destroyed_at = some now }

-- SET generation, public_key, salt, label; a NULL label leaves the label.
abbrev pub set_generation : ℕ → Bytes → Bytes → Option Bytes → PrivateBridgeRow → PrivateBridgeRow
set_generation generation public_key salt label r = record r {
  label = elim label [ none ↦ r.label | some l ↦ some l ];
  generation = generation;
  public_key = public_key;
  salt = salt;
}

-- `uid = ?1 AND generation = ?2 AND destroyed_at IS NULL`
abbrev pub is_live_at : Bytes → ℕ → PrivateBridgeRow → Bool
is_live_at uid generation r =
    has_uid uid r && (r.generation == generation && not (is_set r.destroyed_at))

-- An error rolls back what the body wrote.
unfoldable pub with_immediate_transaction : Store → Result Store → Result (Unit {0}) × Store
with_immediate_transaction s (ok t) = (ok tt, t)
with_immediate_transaction s (err e) = (err e, s)
