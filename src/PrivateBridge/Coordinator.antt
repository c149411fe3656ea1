-- ===== src/PrivateBridge/Coordinator.antt =====
-- Dropping a member where no member's key is held: a leaf that is evicted or an employee who is
-- revoked (src/private_bridge.rs).
use key_quorom.Prelude.{
  ◌==◌, ℕ, Bytes, Option, none, some, List, [], ◌∷◌, ◌++◌, Bool, true, false, not, ◌&&◌, ltb,
  length,
}
use key_quorom.Prelude.Equality.{nat_eq, list_eq, list_beq, option_eq}
use key_quorom.Prelude.Sql.{count_where}
use key_quorom.Error.{Result, ok, err, ◌>>=◌, ◌>>◌, guard, bundle_field_too_large}
use key_quorom.Signing.BigEndian.{be16}
use key_quorom.Signing.Reader.{push_len_prefixed}
use key_quorom.PrivateBridge.Labels.{notify_labels}
use key_quorom.PrivateBridge.Roster.{as_str, member}
use key_quorom.PrivateBridge.Package.Envelope.{format_version}
use key_quorom.PrivateBridge.Store.{
  Store, PrivateBridgeRow, PartyRow, is_set, has_uid, party_of, insert_event, delete_party,
  delete_sealed, update_bridges, set_destroyed, with_immediate_transaction,
}
use key_quorom.PrivateBridge.Summary.{in_tree, BridgeSummary, get, last_bridge_id}
use key_quorom.PrivateBridge.Removal.{member_labels}

pub data BridgeChangeKind : Type 0 where
  needs_member_rotate destroyed : BridgeChangeKind

pub record BridgeChange : Type 0 where
  pub uid : Bytes
  pub removed_member : Bytes
  pub remaining_members : List Bytes
  pub notify : List Bytes
  pub kind : BridgeChangeKind
  pub notice : Bytes

-- b"KQBN"
abbrev pub notice_magic : Bytes
notice_magic = b'K' ∷ b'Q' ∷ b'B' ∷ b'N' ∷ []

abbrev pub kind_byte : BridgeChangeKind → ℕ
kind_byte needs_member_rotate = 1
kind_byte destroyed = 2

unfoldable pub push_labels : Bytes → List Bytes → Result Bytes
push_labels out [] = ok out
push_labels out (label ∷ labels) = do out ← push_len_prefixed out label; push_labels out labels

unfoldable pub push_label_list : Bytes → List Bytes → Result Bytes
push_label_list out labels = do
  guard (ltb (length labels) 65536) bundle_field_too_large
  push_labels (out ++ be16 (length labels)) labels

unfoldable pub encode_notice :
    Bytes → Bytes → List Bytes → List Bytes → BridgeChangeKind → Result Bytes
encode_notice uid removed remaining notify kind = do
  out ← push_len_prefixed (notice_magic ++ (format_version ∷ kind_byte kind ∷ [])) uid
  out ← push_len_prefixed out removed
  out ← push_label_list out remaining
  push_label_list out notify

-- The members but the removed one.
unfoldable pub remaining_labels : Bytes → List Bytes → List Bytes
remaining_labels removed [] = []
remaining_labels removed (label ∷ labels) = elim (list_beq label removed) [
  | true ↦ remaining_labels removed labels
  | false ↦ label ∷ remaining_labels removed labels
]

abbrev pub change_kind : List Bytes → BridgeChangeKind
change_kind remaining = elim (ltb (length remaining) 2) [
  | true ↦ destroyed
  | false ↦ needs_member_rotate
]

abbrev pub add_change : Option BridgeChange → List BridgeChange → List BridgeChange
add_change none changes = changes
add_change (some change) changes = changes ++ (change ∷ [])

-- After the transaction: the notice is encoded, and what is stored stays stored if that fails.
abbrev pub with_notice :
    Bytes
    → Bytes
    → List Bytes
    → List Bytes
    → Result (Unit {0}) × Store
    → Result (Option BridgeChange) × Store
with_notice uid removed_label remaining notify (err e, t) = (err e, t)
with_notice uid removed_label remaining notify (ok u, t) = (
  do
    notice ← encode_notice uid removed_label remaining notify (change_kind remaining)
    ok (
        some (record {
          uid = uid;
          removed_member = removed_label;
          remaining_members = remaining;
          notify = notify;
          kind = change_kind remaining;
          notice = notice;
        })),
  t,
)

-- `?` after an operation that may have stored something.
abbrev pub and_then {ℓ κ} :
    {A : Type ℓ} {B : Type κ} → Result A × Store → (A → Store → Result B × Store) → Result B × Store
and_then (err e, t) next = (err e, t)
and_then (ok a, t) next = next a t

-- The join of the live bridges with their members of the label.
abbrev pub has_member : Bytes → ℕ → PartyRow → Bool
has_member label id p =
    party_of id p && (list_beq p.node_label label && list_beq p.role (as_str member))

unfoldable pub live_uids : List PrivateBridgeRow → List PartyRow → Option ℕ → Bytes → List Bytes
live_uids [] parties key_id label = []
live_uids (b ∷ bs) parties key_id label =
    elim (not (is_set b.destroyed_at)
      && (in_tree key_id b && not (count_where (has_member label b.id) parties == 0))) [
        | true ↦ b.uid ∷ live_uids bs parties key_id label
        | false ↦ live_uids bs parties key_id label
      ]

module _ (now : ℕ) where
  -- The transaction of `drop_member_on_coordinator`.
  unfoldable pub drop_body : Store → Bytes → ℕ → Bytes → BridgeChangeKind → Result Store
  drop_body s uid bridge_id removed_label destroyed =
      insert_event
        (delete_sealed
          (update_bridges (delete_party s bridge_id removed_label) (has_uid uid)
            (set_destroyed now))
          bridge_id)
        bridge_id "destroyed"
  drop_body s uid bridge_id removed_label needs_member_rotate =
      insert_event (delete_party s bridge_id removed_label) bridge_id "member_removed"

  abbrev pub drop_live :
      Store
      → Bytes
      → Bytes
      → List Bytes
      → List Bytes
      → Result ℕ
      → Result (Option BridgeChange) × Store
  drop_live s uid removed_label remaining notify (err e) = (err e, s)
  drop_live s uid removed_label remaining notify (ok bridge_id) =
      with_notice uid removed_label remaining notify (
        with_immediate_transaction s
          (drop_body s uid bridge_id removed_label (change_kind remaining)))

  abbrev pub drop_from :
      Store → Bytes → Bytes → Result BridgeSummary → Result (Option BridgeChange) × Store
  drop_from s uid removed_label (err e) = (err e, s)
  drop_from s uid removed_label (ok summary) = elim summary.destroyed [
    | true ↦ (ok none, s)
    | false ↦
        drop_live s uid removed_label
          (remaining_labels removed_label (member_labels summary.parties))
          (notify_labels (member_labels summary.parties)) (last_bridge_id s uid)
  ]

  unfoldable pub drop_member_on_coordinator :
      Store → Bytes → Bytes → Result (Option BridgeChange) × Store
  drop_member_on_coordinator s uid removed_label = drop_from s uid removed_label (get s uid)

  -- The loop over the bridges; the changes so far come last.
  unfoldable pub drop_all :
      Store → List Bytes → Bytes → List BridgeChange → Result (List BridgeChange) × Store
  drop_all s [] label changes = (ok changes, s)
  drop_all s (uid ∷ uids) label changes =
      and_then (drop_member_on_coordinator s uid label)
        λ change t. drop_all t uids label (add_change change changes)

  unfoldable pub on_leaf_removed : Store → ℕ → Bytes → Result (List BridgeChange) × Store
  on_leaf_removed s key_id node_label =
      drop_all s (live_uids s.bridges s.parties (some key_id) node_label) node_label []

  unfoldable pub on_member_revoked : Store → Bytes → Result (List BridgeChange) × Store
  on_member_revoked s node_label =
      drop_all s (live_uids s.bridges s.parties none node_label) node_label []
