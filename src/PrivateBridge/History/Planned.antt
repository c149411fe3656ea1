-- ===== src/PrivateBridge/History/Planned.antt =====
-- What committing a plan does to the stored bridges (src/private_bridge.rs).
use key_quorom.PrivateBridge.Removal.{
  notices_for_all, dropped_parties, renewed, member_named, encryption_public_from_secret,
  unseal_local_secret, PlannedRemoval, PlannedRemovalKind, PlannedRotate, PlannedDestroy, rotate,
  destroy, plan_remove_member, plan_destroy, plan_rotate,
}
use key_quorom.PrivateBridge.Delivery.{
  packages_for_roster, kind_supervisor, unwrap_or_empty, Draws, PlannedCreation,
}
use mathlib.Core.Path.{subst}
use key_quorom.Prelude.{
  ◌&&◌, ℕ, suc, ◌+◌, ◌%◌, ◌<◌, Bytes, ◌≡◌, refl, ap, ◌∙◌, sym, Option, none, some, List, [], true,
  arith, length, ltb, ltb→lt, not, Bool-cases, inl, inr, ◌==◌,
}
use key_quorom.Error.{
  sealed_key_not_held, Error, ok, ok-injective, >>=-elim, guard-elim, ok_or, bridge_not_found,
}
use key_quorom.PrivateBridge.SortedMap.{Map}
use key_quorom.PrivateBridge.Roster.{MemberKeys, BridgeParty, remaining_members, CryptoBox}
use key_quorom.PrivateBridge.Package.Letter.{PackageFields}
use key_quorom.PrivateBridge.History.Later.{
  Follows-trans, is_live_at-true, Follows, Follows-same, Follows-IsNew, Follows-set_generation,
  Follows-set_destroyed, Follows-transaction,
}
use key_quorom.PrivateBridge.History.Rows.{
  insert_bridge-IsNew, insert_event-bridges, insert_member_parties-bridges,
  insert_supervisor_parties-bridges, seal_local_if_member-bridges, update_generation-bridges,
}
use key_quorom.Prelude.Equality.{nat_eq, list_eq, list_beq}
use key_quorom.Prelude.Sql.{select, select_all, count_where}
use key_quorom.Signing.Verify.{Ed25519}
use key_quorom.PrivateBridge.Store.{
  Store, PrivateBridgeRow, is_set, has_uid, is_live_at, insert_event, delete_parties, delete_sealed,
  insert_bridge, party_of,
}
use key_quorom.PrivateBridge.Summary.{
  BridgeSummary, get, summary_of, last_bridge_id, to_parties, order_parties, vec_to_32, vec_to_salt,
}
use key_quorom.PrivateBridge.Commit.{
  Moment, persist_new_bridge, persist_rotation, persist_destroy, removal_body, update_generation,
  commit_planned_creation, commit_planned_removal, insert_member_parties, insert_supervisor_parties,
}

-- What a summary says of the row that it is read from.
pub record IsSummary (s : Store) (uid : Bytes) (summary : BridgeSummary) : Type 0 where
  pub row : PrivateBridgeRow
  pub found : select (has_uid uid) s.bridges ≡ some row
  pub generation : summary.generation ≡ row.generation
  pub small : row.generation < 4294967296
  pub destroyed : summary.destroyed ≡ is_set row.destroyed_at
  pub public_key : summary.public_key ≡ row.public_key

pub ok_or-eq-ok {ℓ} :
    {A : Type ℓ} (o : Option A) (e : Error) {a : A} → ok_or o e ≡ ok a → o ≡ some a
ok_or-eq-ok none e h = absurd (cc h)
ok_or-eq-ok (some a) e h = ap some (ok-injective h)

vec_to_32-same : (bytes key : Bytes) → vec_to_32 bytes ≡ ok key → bytes ≡ key
vec_to_32-same bytes key h = guard-elim (length bytes == 32) _ _ h λ _ h'. ok-injective h'

summary_of-IsSummary :
    (s : Store) (uid : Bytes) (row : PrivateBridgeRow) (summary : BridgeSummary)
    → select (has_uid uid) s.bridges ≡ some row
    → summary_of s row ≡ ok summary
    → IsSummary s uid summary
unfolding summary_of
summary_of-IsSummary s uid row summary found h0 =
    >>=-elim (to_parties s (order_parties (select_all (party_of row.id) s.parties))) _ h0 λ _ _ h1.
      guard-elim (ltb row.generation 4294967296) _ _ h1 λ small h2.
        >>=-elim (vec_to_32 row.public_key) _ h2 λ key key_eq h3.
          >>=-elim (vec_to_salt row.salt) _ h3 λ _ _ h4.
            let e = sym (ok-injective h4) in
            record {
              row = row;
              found = found;
              generation = ap (λ (t : BridgeSummary). t.generation) e;
              small = ltb→lt _ _ small;
              destroyed = ap (λ (t : BridgeSummary). t.destroyed) e;
              public_key =
                  ap (λ (t : BridgeSummary). t.public_key) e
                  ∙ sym (vec_to_32-same row.public_key key key_eq);
            }

pub get-IsSummary :
    (s : Store) (uid : Bytes) (summary : BridgeSummary)
    → get s uid ≡ ok summary
    → IsSummary s uid summary
unfolding get
get-IsSummary s uid summary h =
    >>=-elim (ok_or (select (has_uid uid) s.bridges) bridge_not_found) _ h
      λ row e h'. summary_of-IsSummary s uid row summary (ok_or-eq-ok _ _ e) h'

-- A rotation raises the generation that it expects by one, as a u32.
abbrev pub IsPlan : PlannedRemovalKind → Type 0
IsPlan (destroy p) = Unit
IsPlan (rotate p) =
    (p.expected_generation < 4294967296)
    × (p.new_generation ≡ (p.expected_generation + 1) % 4294967296)

module _ (c : Ed25519) (x : CryptoBox) (d : Draws) where
  plan_rotate-IsPlan :
      (summary : BridgeSummary) (removed local : Bytes) (id : ℕ) (notify : List Bytes)
      (members : Map MemberKeys) (supervisors : Map Bytes) (current : PackageFields)
      (p : PlannedRemoval)
      → summary.generation < 4294967296
      → plan_rotate c x d summary removed local id notify members supervisors current ≡ ok p
      → IsPlan p.kind
  unfolding plan_rotate
  plan_rotate-IsPlan summary removed local id notify members supervisors current p small h =
      >>=-elim (packages_for_roster c x d (renewed c x d summary current) kind_supervisor) _ h
        λ packages _ h'.
          >>=-elim
            (notices_for_all c x d current (length packages)
              (dropped_parties members supervisors summary.parties))
            _ h'
            λ notices _ h''.
              subst IsPlan (ap (λ (q : PlannedRemoval). q.kind) (ok-injective h'')) (small, refl)

  plan_destroy-IsPlan :
      (summary : BridgeSummary) (removed : Bytes) (id : ℕ) (notify : List Bytes)
      (members : Map MemberKeys) (current : PackageFields) (p : PlannedRemoval)
      → plan_destroy c x d summary removed id notify members current ≡ ok p
      → IsPlan p.kind
  unfolding plan_destroy
  plan_destroy-IsPlan summary removed id notify members current p h =
      >>=-elim (notices_for_all c x d current 0 summary.parties) _ h
        λ packages _ h'. subst IsPlan (ap (λ (q : PlannedRemoval). q.kind) (ok-injective h')) tt

  pub plan_remove_member-IsPlan :
      (s : Store) (uid removed local sk : Bytes) (p : PlannedRemoval)
      → plan_remove_member c x d s uid removed local sk ≡ ok p
      → IsPlan p.kind
  unfolding plan_remove_member
  plan_remove_member-IsPlan s uid removed local sk p h0 =
      >>=-elim (get s uid) _ h0 λ summary read h1. guard-elim (not summary.destroyed) _ _ h1 λ _ h2.
        guard-elim (not (list_beq local removed)) _ _ h2 λ _ h3.
          >>=-elim
            (ok_or
              (select (λ (p : BridgeParty). member_named local p && p.has_sealed_key)
                summary.parties)
              sealed_key_not_held)
            _ h3
            λ holder _ h4.
              guard-elim
                (list_beq (encryption_public_from_secret x sk) holder.encryption_public_key) _ _ h4
                λ _ h5.
                  guard-elim (is_set (select (member_named removed) summary.parties)) _ _ h5 λ _ h6.
                    >>=-elim (unseal_local_secret x s uid local sk) _ h6 λ secret _ h7.
                      >>=-elim (remaining_members summary.parties removed []) _ h7 λ members _ h8.
                        >>=-elim (last_bridge_id s uid) _ h8 λ id _ h9.
                          let r = get-IsSummary s uid summary read in
                          elim (Bool-cases (ltb (length members) 2)) [
                            | inl y ↦
                                plan_destroy-IsPlan summary removed id _ members _ p (rw y at h9)
                            | inr n ↦
                                plan_rotate-IsPlan summary removed local id _ members _ _ p
                                  (rw (sym r.generation) at r.small) (rw n at h9)
                          ]

pub raised : (e g : ℕ) → e < 4294967296 → g ≡ (e + 1) % 4294967296 → ltb 0 g ≡ true → g ≡ suc e
raised e g small wrapped positive = omega (arith, ltb→lt 0 g positive)

module _ (x : CryptoBox) (at_time : Moment) where
  pub commit_planned_creation-Follows :
      (s : Store) (p : PlannedCreation) → Follows 1 s (commit_planned_creation x at_time s p).1
  unfolding commit_planned_creation persist_new_bridge
  commit_planned_creation-Follows s p = Follows-transaction 1 s _ λ t h0.
      >>=-elim (persist_new_bridge x at_time s p) _ h0 λ u e h1.
        >>=-elim (last_bridge_id u p.created.uid) _ h1 λ id _ h2.
          >>=-elim
            (insert_bridge s p.created.uid p.key_id p.label p.created.generation
              p.created.public_key p.created.salt)
            _ e
            λ (q : ℕ × Store) e1 k1.
              >>=-elim (insert_member_parties q.1 q.0 p.members p.local_label) _ k1 λ v e2 k2.
                >>=-elim (insert_supervisor_parties v q.0 p.supervisors p.local_label) _ k2
                  λ w e3 k3.
                    let new =
                      insert_bridge-IsNew s p.created.uid p.key_id p.label p.created.generation
                        p.created.public_key p.created.salt q.0 q.1 e1 in
                    Follows-IsNew 1 s t (record {
                      row = new.row;
                      appended =
                          insert_event-bridges u id "created" t h2
                          ∙ seal_local_if_member-bridges x at_time w q.0
                              (unwrap_or_empty p.local_label) p.members p.secret u k3
                          ∙ insert_supervisor_parties-bridges v q.0 p.supervisors p.local_label w e3
                          ∙ insert_member_parties-bridges q.1 q.0 p.members p.local_label v e2
                          ∙ new.appended;
                    })

  persist_rotation-Follows :
      (s : Store) (p : PlannedRotate) (t : Store)
      → IsPlan (rotate p)
      → persist_rotation x at_time s p ≡ ok t
      → Follows 1 s t
  unfolding persist_rotation
  persist_rotation-Follows s p t (small, wrapped) h0 =
      >>=-elim
        (update_generation x at_time s p.uid p.expected_generation p.new_generation p.new_public
          p.new_salt none)
        _ h0
        λ u e1 h1.
          >>=-elim
            (insert_member_parties (delete_parties u p.bridge_id) p.bridge_id p.members
              (some p.local_label))
            _ h1
            λ v e2 h2.
              >>=-elim (insert_supervisor_parties v p.bridge_id p.supervisors (some p.local_label))
                _ h2
                λ w e3 h3.
                  let (updated, positive) =
                    update_generation-bridges x at_time s p.uid p.expected_generation
                      p.new_generation p.new_public p.new_salt none u e1 in
                  Follows-set_generation s t p.uid p.expected_generation p.new_generation
                    p.new_public p.new_salt none
                    (seal_local_if_member-bridges x at_time (delete_sealed w p.bridge_id)
                        p.bridge_id p.local_label p.members p.new_secret t h3
                      ∙ insert_supervisor_parties-bridges v p.bridge_id p.supervisors
                          (some p.local_label) w e3
                      ∙ insert_member_parties-bridges (delete_parties u p.bridge_id) p.bridge_id
                          p.members (some p.local_label) v e2
                      ∙ updated)
                    (raised p.expected_generation p.new_generation small wrapped positive)

  persist_destroy-Follows :
      (s : Store) (p : PlannedDestroy) (t : Store)
      → persist_destroy x at_time s p ≡ ok t
      → Follows 1 s t
  unfolding persist_destroy
  persist_destroy-Follows s p t h0 =
      guard-elim (count_where (is_live_at p.uid p.expected_generation) s.bridges == 1) _ _ h0
        λ _ h1.
          Follows-set_destroyed 1 s t (is_live_at p.uid p.expected_generation) at_time.now
            (λ r u f y. (is_live_at-true p.uid p.expected_generation r y).1)
            (insert_event-bridges _ p.bridge_id "destroyed" t h1)

  removal_body-Follows :
      (s : Store) (k : PlannedRemovalKind) (t : Store)
      → IsPlan k
      → removal_body x at_time s k ≡ ok t
      → Follows 1 s t
  unfolding removal_body
  removal_body-Follows s (destroy p) t plan h = persist_destroy-Follows s p t h
  removal_body-Follows s (rotate p) t plan h0 =
      >>=-elim (persist_rotation x at_time s p) _ h0 λ u e h1.
        >>=-elim (insert_event u p.bridge_id "member_removed") _ h1 λ v e' h2.
          Follows-trans 1 0 s u t (persist_rotation-Follows s p u plan e) (
            Follows-same 0 u t (
              insert_event-bridges v p.bridge_id "rotated" t h2
              ∙ insert_event-bridges u p.bridge_id "member_removed" v e'))

  pub commit_planned_removal-Follows :
      (s : Store) (p : PlannedRemoval)
      → IsPlan p.kind
      → Follows 1 s (commit_planned_removal x at_time s p).1
  unfolding commit_planned_removal
  commit_planned_removal-Follows s p plan =
      Follows-transaction 1 s _ λ t h. removal_body-Follows s p.kind t plan h
