-- ===== src/PrivateBridge/Summary.antt =====
-- Reading a bridge back from the tables, and its events (src/private_bridge.rs).
use Prim.Native.Nat.{Ordering}
use key_quorom.Prelude.{
  ℕ, Bytes, Option, none, some, List, [], ◌∷◌, Bool, true, false, not, ◌&&◌, ◌==◌, String, ltb,
  length,
}
use key_quorom.Prelude.Equality.{nat_eq, list_eq, list_beq, option_eq, option_beq}
use key_quorom.Prelude.Sql.{select, select_all, count_where}
use key_quorom.Error.{
  Result, ok, ◌>>=◌, ◌>>◌, guard, ok_or, bridge_not_found, invalid_public_key,
  invalid_bridge_package,
}
use key_quorom.Signing.Artifact.{salt_len}
use key_quorom.PrivateBridge.SortedMap.{bytes_order}
use key_quorom.PrivateBridge.Roster.{BridgeParty, from_db}
use key_quorom.PrivateBridge.Store.{
  PrivateBridgeRow, PartyRow, EventRow, Store, is_set, has_uid, party_of, sealed_named,
  has_bridge_id,
}

pub record BridgeSummary : Type 0 where
  pub uid : Bytes
  pub key_id : Option ℕ
  pub label : Option Bytes
  pub generation : ℕ
  pub public_key : Bytes
  pub salt : Bytes
  pub destroyed : Bool
  pub parties : List BridgeParty

abbrev pub vec_to_32 : Bytes → Result Bytes
vec_to_32 bytes = do guard (length bytes == 32) invalid_public_key; ok bytes

abbrev pub vec_to_salt : Bytes → Result Bytes
vec_to_salt bytes = do guard (length bytes == salt_len) invalid_public_key; ok bytes

abbrev pub option_vec_to_32 : Option Bytes → Result (Option Bytes)
option_vec_to_32 none = ok none
option_vec_to_32 (some bytes) = do key ← vec_to_32 bytes; ok (some key)

unfoldable pub last_bridge_id : Store → Bytes → Result ℕ
last_bridge_id s uid = do row ← ok_or (select (has_uid uid) s.bridges) bridge_not_found; ok row.id

unfoldable pub get_optional : Store → Bytes → Option ℕ
get_optional s uid = elim (select (has_uid uid) s.bridges) [ none ↦ none | some row ↦ some row.id ]

-- ORDER BY m.role, m.node_label
abbrev pub is_before : PartyRow → PartyRow → Bool
is_before p q = elim (bytes_order p.role q.role) [
  | Ordering.lt ↦ true
  | Ordering.gt ↦ false
  | Ordering.eq ↦ elim (bytes_order p.node_label q.node_label) [ Ordering.gt ↦ false | _ ↦ true ]
]

unfoldable pub place : PartyRow → List PartyRow → List PartyRow
place p [] = p ∷ []
place p (q ∷ qs) = elim (is_before p q) [ true ↦ p ∷ q ∷ qs | false ↦ q ∷ place p qs ]

unfoldable pub order_parties : List PartyRow → List PartyRow
order_parties [] = []
order_parties (p ∷ ps) = place p (order_parties ps)

-- A row of the query on the parties, with the count of its sealed keys.
unfoldable pub to_party : Store → PartyRow → Result BridgeParty
to_party s p = do
  encryption_public_key ← vec_to_32 p.encryption_public_key
  signing_public_key ← option_vec_to_32 p.signing_public_key
  role ← from_db p.role
  ok (record {
    label = p.node_label;
    encryption_public_key = encryption_public_key;
    signing_public_key = signing_public_key;
    role = role;
    is_local = p.is_local;
    has_sealed_key = not (count_where (sealed_named p.bridge_id p.node_label) s.sealed == 0);
  })

unfoldable pub to_parties : Store → List PartyRow → Result (List BridgeParty)
to_parties s [] = ok []
to_parties s (p ∷ ps) = do party ← to_party s p; parties ← to_parties s ps; ok (party ∷ parties)

-- From the row of the bridge.
unfoldable pub summary_of : Store → PrivateBridgeRow → Result BridgeSummary
summary_of s row = do
  parties ← to_parties s (order_parties (select_all (party_of row.id) s.parties))
  guard (ltb row.generation 4294967296) invalid_bridge_package
  public_key ← vec_to_32 row.public_key
  salt ← vec_to_salt row.salt
  ok (record {
    uid = row.uid;
    key_id = row.key_id;
    label = row.label;
    generation = row.generation;
    public_key = public_key;
    salt = salt;
    destroyed = is_set row.destroyed_at;
    parties = parties;
  })

unfoldable pub get : Store → Bytes → Result BridgeSummary
get s uid = do row ← ok_or (select (has_uid uid) s.bridges) bridge_not_found; summary_of s row

unfoldable pub get_all : Store → List PrivateBridgeRow → Result (List BridgeSummary)
get_all s [] = ok []
get_all s (row ∷ rows) = do
  summary ← get s row.uid
  summaries ← get_all s rows
  ok (summary ∷ summaries)

abbrev pub in_tree : Option ℕ → PrivateBridgeRow → Bool
in_tree none row = true
in_tree (some key_id) row = option_beq row.key_id (some key_id)

unfoldable pub list : Store → Option ℕ → Result (List BridgeSummary)
list s key_id = get_all s (select_all (in_tree key_id) s.bridges)

pub record BridgeEvent : Type 0 where
  pub id : ℕ
  pub uid : Bytes
  pub event_type : String

abbrev pub of_uid : Option Bytes → Bytes → Bool
of_uid none uid = true
of_uid (some wanted) uid = list_beq uid wanted

abbrev pub is_since : Option ℕ → ℕ → Bool
is_since none id = true
is_since (some since) id = ltb since id

abbrev event_if :
    Option Bytes
    → Option ℕ
    → EventRow
    → Option PrivateBridgeRow
    → List BridgeEvent
    → List BridgeEvent
event_if uid since e none rest = rest
event_if uid since e (some b) rest = elim (of_uid uid b.uid && is_since since e.id) [
  | true ↦ record { id = e.id; uid = b.uid; event_type = e.event_type } ∷ rest
  | false ↦ rest
]

-- The join of the events with their bridges; the rows stand in the order of their ids.
unfoldable pub join_events :
    List PrivateBridgeRow → Option Bytes → Option ℕ → List EventRow → List BridgeEvent
join_events bridges uid since [] = []
join_events bridges uid since (e ∷ es) =
    event_if uid since e (select (has_bridge_id e.bridge_id) bridges)
      (join_events bridges uid since es)

unfoldable pub events : Store → Option Bytes → Option ℕ → List BridgeEvent
events s uid since_id = join_events s.bridges uid since_id s.events
