-- ===== src/PrivateBridge/History/Stale.antt =====
-- Plans that were made over the same generation of a bridge (src/private_bridge.rs).
use key_quorom.Prelude.{
  ℕ, Bytes, ◌≡◌, refl, ap, ◌∙◌, Bool, true, false, List, [], ◌∷◌, none, some, arith, ◌==◌,
}
use key_quorom.Prelude.Equality.{nat_eq, list_eq}
use key_quorom.Prelude.Sql.{update, count_where}
use key_quorom.Error.{Result, ok, err, >>=-elim, guard-elim, bridge_generation_mismatch}
use key_quorom.PrivateBridge.Roster.{CryptoBox}
use key_quorom.PrivateBridge.Store.{
  Store, PrivateBridgeRow, is_live_at, set_destroyed, set_generation, with_immediate_transaction,
  insert_event, delete_parties, delete_sealed,
}
use key_quorom.PrivateBridge.Removal.{
  PlannedRemoval, PlannedRemovalKind, PlannedDestroy, PlannedRotate, destroy, rotate,
}
use key_quorom.PrivateBridge.Commit.{
  Moment, persist_rotation, persist_destroy, removal_body, update_generation,
  commit_planned_removal, insert_member_parties, insert_supervisor_parties,
}
use key_quorom.PrivateBridge.History.Rows.{
  insert_event-bridges, insert_member_parties-bridges, insert_supervisor_parties-bridges,
  seal_local_if_member-bridges, update_generation-bridges,
}
use key_quorom.PrivateBridge.History.Planned.{IsPlan, raised}

abbrev pub planned_uid : PlannedRemovalKind → Bytes
planned_uid (destroy p) = p.uid
planned_uid (rotate p) = p.uid

abbrev pub planned_generation : PlannedRemovalKind → ℕ
planned_generation (destroy p) = p.expected_generation
planned_generation (rotate p) = p.expected_generation

-- The rows that a plan is for.
abbrev planned_for : PlannedRemovalKind → PrivateBridgeRow → Bool
planned_for k = is_live_at (planned_uid k) (planned_generation k)

-- An UPDATE after which no row is left that it would touch.
count_where-update_zero :
    (q : PrivateBridgeRow → Bool) (f : PrivateBridgeRow → PrivateBridgeRow)
    → ((r : PrivateBridgeRow) → q r ≡ true → q (f r) ≡ false)
    → (rs : List PrivateBridgeRow) → count_where q (update q f rs) ≡ 0
unfolding count_where update
count_where-update_zero q f moves [] = refl
count_where-update_zero q f moves (r ∷ rs) =
    ground (arith, moves r, count_where-update_zero q f moves rs)

module _ (x : CryptoBox) (at_time : Moment) where
  persist_destroy-gone :
      (s : Store) (p : PlannedDestroy) (t : Store)
      → persist_destroy x at_time s p ≡ ok t
      → count_where (is_live_at p.uid p.expected_generation) t.bridges ≡ 0
  unfolding persist_destroy
  persist_destroy-gone s p t h0 =
      guard-elim (count_where (is_live_at p.uid p.expected_generation) s.bridges == 1) _ _ h0
        λ _ h1. rw (insert_event-bridges _ p.bridge_id "destroyed" t h1) (
          count_where-update_zero (is_live_at p.uid p.expected_generation)
            (set_destroyed at_time.now) (λ r y. ground arith) s.bridges)

  persist_rotation-gone :
      (s : Store) (p : PlannedRotate) (t : Store)
      → IsPlan (rotate p)
      → persist_rotation x at_time s p ≡ ok t
      → count_where (is_live_at p.uid p.expected_generation) t.bridges ≡ 0
  unfolding persist_rotation
  persist_rotation-gone s p t (small, wrapped) h0 =
      >>=-elim
        (update_generation x at_time s p.uid p.expected_generation p.new_generation p.new_public
          p.new_salt none)
        _ h0
        λ u e1 h1.
          >>=-elim
            (insert_member_parties (delete_parties u p.bridge_id) p.bridge_id p.members
              (some p.local_label))
            _ h1
            λ v e2 h2.
              >>=-elim (insert_supervisor_parties v p.bridge_id p.supervisors (some p.local_label))
                _ h2
                λ w e3 h3.
                  let (updated, positive) =
                    update_generation-bridges x at_time s p.uid p.expected_generation
                      p.new_generation p.new_public p.new_salt none u e1 in
                  let next = raised p.expected_generation p.new_generation small wrapped positive in
                  rw
                    (seal_local_if_member-bridges x at_time (delete_sealed w p.bridge_id)
                        p.bridge_id p.local_label p.members p.new_secret t h3
                      ∙ insert_supervisor_parties-bridges v p.bridge_id p.supervisors
                          (some p.local_label) w e3
                      ∙ insert_member_parties-bridges (delete_parties u p.bridge_id) p.bridge_id
                          p.members (some p.local_label) v e2
                      ∙ updated)
                    (count_where-update_zero (is_live_at p.uid p.expected_generation)
                      (set_generation p.new_generation p.new_public p.new_salt none)
                      (λ r y. ground (arith, next)) s.bridges)

  removal_body-gone :
      (s : Store) (k : PlannedRemovalKind) (t : Store)
      → IsPlan k
      → removal_body x at_time s k ≡ ok t
      → count_where (planned_for k) t.bridges ≡ 0
  unfolding removal_body
  removal_body-gone s (destroy p) t plan h = persist_destroy-gone s p t h
  removal_body-gone s (rotate p) t plan h0 =
      >>=-elim (persist_rotation x at_time s p) _ h0 λ u e h1.
        >>=-elim (insert_event u p.bridge_id "member_removed") _ h1 λ v e' h2.
          rw
            (insert_event-bridges v p.bridge_id "rotated" t h2
              ∙ insert_event-bridges u p.bridge_id "member_removed" v e')
            (persist_rotation-gone s p u plan e)

  removal_body-stale :
      (s : Store) (k : PlannedRemovalKind)
      → count_where (planned_for k) s.bridges ≡ 0
      → removal_body x at_time s k ≡ err bridge_generation_mismatch
  unfolding removal_body persist_destroy persist_rotation update_generation
  removal_body-stale s (destroy p) none_left = rw none_left refl
  removal_body-stale s (rotate p) none_left = rw none_left refl

  transaction-ok :
      (s : Store) (m : Result Store) (t : Store)
      → with_immediate_transaction s m ≡ (ok tt, t)
      → m ≡ ok t
  unfolding with_immediate_transaction
  transaction-ok s (ok u) t h = ap ok (ap (λ (p : Result (Unit {0}) × Store). p.1) h)
  transaction-ok s (err e) t h = absurd (cc (ap (λ (p : Result (Unit {0}) × Store). p.0) h))

-- Of two removals of members that were planned over the same generation of a bridge, the first a
-- plan as `plan_remove_member` makes them: once the first is committed, the second is refused, with
-- the error that the generation does not match, and changes nothing.
pub commit_planned_removal-commit_planned_removal :
    (x : CryptoBox) (first second : Moment) (s after : Store) (p q : PlannedRemoval)
    → IsPlan p.kind
    → planned_uid q.kind ≡ planned_uid p.kind
    → planned_generation q.kind ≡ planned_generation p.kind
    → commit_planned_removal x first s p ≡ (ok tt, after)
    → commit_planned_removal x second after q ≡ (err bridge_generation_mismatch, after)
unfolding commit_planned_removal with_immediate_transaction
commit_planned_removal-commit_planned_removal x first second s after p q plan same_uid
      same_generation h =
    let stored = transaction-ok x first s (removal_body x first s p.kind) after h in
    let gone = removal_body-gone x first s p.kind after plan stored in
    let gone' : count_where (planned_for q.kind) after.bridges ≡ 0 =
      rw (same_uid, same_generation) gone in
    rw (removal_body-stale x second after q.kind gone') refl
