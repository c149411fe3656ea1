-- ===== src/PrivateBridge/Commit.antt =====
-- Storing what was planned (src/private_bridge.rs). The time and the randomness of a seal are
-- arguments; an operation returns its result with the tables it leaves.
use key_quorom.Prelude.{ℕ, Bytes, Option, none, some, [], ◌∷◌, ◌==◌, ltb}
use key_quorom.Prelude.Equality.{nat_eq, list_eq, option_eq, option_beq}
use key_quorom.Prelude.Sql.{count_where}
use key_quorom.Error.{Result, ok, err, ◌>>=◌, ◌>>◌, guard, db, bridge_generation_mismatch}
use key_quorom.PrivateBridge.SortedMap.{Map, lookup}
use key_quorom.PrivateBridge.Roster.{CryptoBox, member, supervisor, as_str, MemberKeys}
use key_quorom.PrivateBridge.Package.Envelope.{seal_secret}
use key_quorom.PrivateBridge.Store.{
  Store, insert_bridge, insert_party, insert_sealed, insert_event, delete_parties, delete_sealed,
  update_bridges, set_destroyed, set_generation, is_live_at, with_immediate_transaction,
}
use key_quorom.PrivateBridge.Summary.{last_bridge_id}
use key_quorom.PrivateBridge.Delivery.{PlannedCreation, unwrap_or_empty}
use key_quorom.PrivateBridge.Removal.{
  PlannedRemoval, PlannedDestroy, PlannedRotate, PlannedRemovalKind, destroy, rotate,
}

unfoldable pub insert_member_parties : Store → ℕ → Map MemberKeys → Option Bytes → Result Store
insert_member_parties s bridge_id [] local_label = ok s
insert_member_parties s bridge_id ((label, keys) ∷ members) local_label = do
  s ← insert_party s (record {
    bridge_id = bridge_id;
    node_label = label;
    encryption_public_key = keys.encryption;
    signing_public_key = some keys.signing;
    role = as_str member;
    is_local = option_beq local_label (some label);
  })
  insert_member_parties s bridge_id members local_label

unfoldable pub insert_supervisor_parties : Store → ℕ → Map Bytes → Option Bytes → Result Store
insert_supervisor_parties s bridge_id [] local_label = ok s
insert_supervisor_parties s bridge_id ((label, pk) ∷ supervisors) local_label = do
  s ← insert_party s (record {
    bridge_id = bridge_id;
    node_label = label;
    encryption_public_key = pk;
    signing_public_key = none;
    role = as_str supervisor;
    is_local = option_beq local_label (some label);
  })
  insert_supervisor_parties s bridge_id supervisors local_label

-- The time, the salt of a wrap and the randomness of its seal.
pub record Moment : Type 0 where
  pub now : ℕ
  pub wrap_salt : Bytes
  pub seal : Bytes

module _ (x : CryptoBox) (at_time : Moment) where
  unfoldable pub insert_sealed_for : Store → ℕ → Bytes → Bytes → Bytes → Bytes → Result Store
  insert_sealed_for s bridge_id label recipient_pub wrap_salt secret = do
    wrapped ← seal_secret x at_time.seal recipient_pub wrap_salt secret
    insert_sealed s (record {
      bridge_id = bridge_id;
      node_label = label;
      wrap_salt = wrap_salt;
      wrapped_secret = wrapped;
    })

  abbrev pub seal_if : Store → ℕ → Bytes → Option MemberKeys → Bytes → Result Store
  seal_if s bridge_id local_label none secret = ok s
  seal_if s bridge_id local_label (some keys) secret =
      insert_sealed_for s bridge_id local_label keys.encryption at_time.wrap_salt secret

  unfoldable pub seal_local_if_member : Store → ℕ → Bytes → Map MemberKeys → Bytes → Result Store
  seal_local_if_member s bridge_id local_label members secret =
      seal_if s bridge_id local_label (lookup local_label members) secret

  unfoldable pub persist_new_bridge : Store → PlannedCreation → Result Store
  persist_new_bridge s planned = do
    (bridge_id, s) ←
        insert_bridge s planned.created.uid planned.key_id planned.label planned.created.generation
          planned.created.public_key planned.created.salt
    s ← insert_member_parties s bridge_id planned.members planned.local_label
    s ← insert_supervisor_parties s bridge_id planned.supervisors planned.local_label
    seal_local_if_member s bridge_id (unwrap_or_empty planned.local_label) planned.members
        planned.secret

  unfoldable pub commit_planned_creation : Store → PlannedCreation → Result (Unit {0}) × Store
  commit_planned_creation s planned = with_immediate_transaction s (do
    t ← persist_new_bridge s planned
    bridge_id ← last_bridge_id t planned.created.uid
    insert_event t bridge_id "created")

  -- UPDATE … SET generation, public_key, salt, label on the row that is live at a generation.
  unfoldable pub update_generation :
      Store → Bytes → ℕ → ℕ → Bytes → Bytes → Option Bytes → Result Store
  update_generation s uid expected_generation generation public_key salt label = do
    guard (count_where (is_live_at uid expected_generation) s.bridges == 1)
        bridge_generation_mismatch
    guard (ltb 0 generation) db
    ok (
        update_bridges s (is_live_at uid expected_generation)
          (set_generation generation public_key salt label))

  unfoldable pub persist_rotation : Store → PlannedRotate → Result Store
  persist_rotation s p = do
    s ←
        update_generation s p.uid p.expected_generation p.new_generation p.new_public p.new_salt
          none
    s ←
        insert_member_parties (delete_parties s p.bridge_id) p.bridge_id p.members
          (some p.local_label)
    s ← insert_supervisor_parties s p.bridge_id p.supervisors (some p.local_label)
    seal_local_if_member (delete_sealed s p.bridge_id) p.bridge_id p.local_label p.members
        p.new_secret

  unfoldable pub persist_destroy : Store → PlannedDestroy → Result Store
  persist_destroy s p = do
    guard (count_where (is_live_at p.uid p.expected_generation) s.bridges == 1)
        bridge_generation_mismatch
    let t = update_bridges s (is_live_at p.uid p.expected_generation) (set_destroyed at_time.now)
    insert_event (delete_sealed t p.bridge_id) p.bridge_id "destroyed"

  unfoldable pub removal_body : Store → PlannedRemovalKind → Result Store
  removal_body s (destroy p) = persist_destroy s p
  removal_body s (rotate p) = do
    t ← persist_rotation s p
    t ← insert_event t p.bridge_id "member_removed"
    insert_event t p.bridge_id "rotated"

  unfoldable pub commit_planned_removal : Store → PlannedRemoval → Result (Unit {0}) × Store
  commit_planned_removal s planned = with_immediate_transaction s (removal_body s planned.kind)

-- The result of an operation whose commit is the first argument.
abbrev pub returning {ℓ} : {A : Type ℓ} → Result (Unit {0}) × Store → A → Result A × Store
returning (ok u, t) a = (ok a, t)
returning (err e, t) a = (err e, t)
