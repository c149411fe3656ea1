-- ===== src/PrivateBridge/History/Runs.antt =====
-- Any sequence of the operations that change the stored bridges (src/private_bridge.rs). A removal
-- commits a plan that may have been made over an earlier store.
use mathlib.Core.Path.{subst}
use key_quorom.Prelude.{
  ℕ, suc, ◌+◌, ◌≤◌, Bytes, ◌≡◌, refl, some, List, [], ◌∷◌, true, length, arith,
}
use key_quorom.Prelude.Sql.{select}
use key_quorom.Error.{Result, ok, err}
use key_quorom.Signing.Verify.{Ed25519}
use key_quorom.PrivateBridge.Roster.{CryptoBox}
use key_quorom.PrivateBridge.Store.{Store, PrivateBridgeRow, is_set, has_uid}
use key_quorom.PrivateBridge.Delivery.{Draws, PlannedCreation}
use key_quorom.PrivateBridge.Removal.{PlannedRemoval, plan_remove_member}
use key_quorom.PrivateBridge.Commit.{Moment, commit_planned_creation, commit_planned_removal}
use key_quorom.PrivateBridge.Import.{import_package}
use key_quorom.PrivateBridge.Coordinator.{on_leaf_removed, on_member_revoked}
use key_quorom.PrivateBridge.History.Later.{Follows, Follows-same, Follows-trans}
use key_quorom.PrivateBridge.History.Planned.{
  commit_planned_creation-Follows, commit_planned_removal-Follows, plan_remove_member-IsPlan,
  IsPlan,
}
use key_quorom.PrivateBridge.History.Imported.{import_package-Follows}
use key_quorom.PrivateBridge.History.Dropped.{on_leaf_removed-Follows, on_member_revoked-Follows}

-- The texts of a removal are the uid, the removed and the local label, and the local secret key;
-- those of an import the package and the secret key.
pub data Operation : Type 0 where
  creating : Moment → PlannedCreation → Operation
  removing : Moment → Draws → Store → Bytes → Bytes → Bytes → Bytes → Operation
  importing : Moment → Bytes → Bytes → Operation
  evicting : ℕ → ℕ → Bytes → Operation
  revoking : ℕ → Bytes → Operation

module _ (c : Ed25519) (x : CryptoBox) where
  abbrev pub commit_if : Moment → Store → Result PlannedRemoval → Store
  commit_if at_time s (err e) = s
  commit_if at_time s (ok p) = (commit_planned_removal x at_time s p).1

  unfoldable pub perform : Operation → Store → Store
  perform (creating at_time p) s = (commit_planned_creation x at_time s p).1
  perform (removing at_time d planned_over uid removed local sk) s =
      commit_if at_time s (plan_remove_member c x d planned_over uid removed local sk)
  perform (importing at_time bytes sk) s = (import_package c x at_time s bytes sk).1
  perform (evicting now key_id label) s = (on_leaf_removed now s key_id label).1
  perform (revoking now label) s = (on_member_revoked now s label).1

  unfoldable pub run : List Operation → Store → Store
  run [] s = s
  run (o ∷ os) s = run os (perform o s)

  commit_if-Follows :
      (at_time : Moment) (s : Store) (m : Result PlannedRemoval)
      → ((p : PlannedRemoval) → m ≡ ok p → IsPlan p.kind)
      → Follows 1 s (commit_if at_time s m)
  commit_if-Follows at_time s (err e) plan = Follows-same 1 s s refl
  commit_if-Follows at_time s (ok p) plan =
      commit_planned_removal-Follows x at_time s p (plan p refl)

  Follows_one : (s t : Store) → Follows 0 s t → Follows 1 s t
  Follows_one s t f = Follows-trans 0 1 s t t f (Follows-same 1 t t refl)

  pub perform-Follows : (o : Operation) (s : Store) → Follows 1 s (perform o s)
  unfolding perform
  perform-Follows (creating at_time p) s = commit_planned_creation-Follows x at_time s p
  perform-Follows (removing at_time d planned_over uid removed local sk) s =
      commit_if-Follows at_time s _
        (plan_remove_member-IsPlan c x d planned_over uid removed local sk)
  perform-Follows (importing at_time bytes sk) s = import_package-Follows c x at_time s bytes sk
  perform-Follows (evicting now key_id label) s =
      Follows_one s (on_leaf_removed now s key_id label).1
        (on_leaf_removed-Follows now s key_id label)
  perform-Follows (revoking now label) s =
      Follows_one s (on_member_revoked now s label).1 (on_member_revoked-Follows now s label)

  pub run-Follows : (os : List Operation) (s : Store) → Follows (length os) s (run os s)
  unfolding run
  run-Follows [] s = Follows-same 0 s s refl
  run-Follows (o ∷ os) s =
      let sum : 1 + length os ≡ suc (length os) = omega arith in
      subst (λ (n : ℕ). Follows n s (run os (perform o s))) sum
        (Follows-trans 1 (length os) s (perform o s) (run os (perform o s)) (perform-Follows o s)
          (run-Follows os (perform o s)))

  -- However operations follow each other, each bridge that is stored stays stored under its id, and
  -- its generation never falls and rises by at most one an operation.
  pub run_lem :
      (os : List Operation) (s : Store) (uid : Bytes) (r : PrivateBridgeRow)
      → select (has_uid uid) s.bridges ≡ some r
      → (r' : PrivateBridgeRow) × (select (has_uid uid) (run os s).bridges ≡ some r')
        × (r'.id ≡ r.id)
        × (r.generation ≤ r'.generation)
        × (r'.generation ≤ r.generation + length os)
  run_lem os s uid r h =
      let (r', found, later) = run-Follows os s uid r h in
      (r', found, later.same_id, later.grows, later.bounded)

  -- Once a bridge is destroyed, no sequence of operations changes its row again.
  pub select-run_destroyed :
      (os : List Operation) (s : Store) (uid : Bytes) (r : PrivateBridgeRow)
      → select (has_uid uid) s.bridges ≡ some r
      → is_set r.destroyed_at ≡ true
      → select (has_uid uid) (run os s).bridges ≡ some r
  select-run_destroyed os s uid r h destroyed =
      let (r', found, later) = run-Follows os s uid r h in rw (← later.frozen destroyed) found
