-- ===== src/PrivateBridge/StoreTests.antt =====
-- A store of private bridges (src/private_bridge.rs).

use key_quorom.PrivateBridge.Commit.{commit_planned_removal, removal_body, persist_destroy}
use key_quorom.PrivateBridge.Store.{
  Store, with_immediate_transaction, insert_event, PrivateBridgeRow, has_uid,
}
use key_quorom.PrivateBridge.History.Stale.{commit_planned_removal-commit_planned_removal}
use key_quorom.Error.{err, bridge_generation_mismatch, ok}
use key_quorom.Prelude.{◌+◌, ◌≤◌, ◌≡◌, ◌⊎◌, refl, some, [], ◌∷◌}
use key_quorom.Prelude.Equality.{nat_eq, list_eq}
use key_quorom.Prelude.Sql.{update, count_where, select, select_all}
use key_quorom.Signing.Verify.{sign_with_bridge}
use key_quorom.PrivateBridge.Roster.{from_db}
use key_quorom.PrivateBridge.Summary.{
  get, summary_of, to_parties, order_parties, place, to_party, last_bridge_id,
}
use key_quorom.PrivateBridge.Import.{import_package, read_package}
use key_quorom.PrivateBridge.Removal.{unseal_local_secret, plan_remove_member, member_named}
use key_quorom.PrivateBridge.Messages.{sign_message, verify_message, signing_public_for_label}
use key_quorom.PrivateBridge.Messages.Accepted.{verify_message-sign_message}
use key_quorom.PrivateBridge.History.Runs.{run, run_lem, select-run_destroyed}
use key_quorom.PrivateBridge.History.Destroyed.{select-run_unusable}
use key_quorom.PrivateBridge.Package.Signed.{IsSignedUpdate}
use key_quorom.PrivateBridge.History.Authorised.{import_package_lem}
use key_quorom.PrivateBridge.Examples.{
  repeated, toy, box, ada, bob, ada_key, package_bytes, decoded, decodes, row, destroyed_row, store,
  destroyed_store, moment, operations, signature, draws, plan, bob_party, summary,
}

finds : select (has_uid (b'u' ∷ [])) store.bridges ≡ some row
unfolding select
finds = refl

run_lem_example :
    (r' : PrivateBridgeRow) × (select (has_uid (b'u' ∷ [])) (run toy box operations store).bridges
      ≡ some r')
    × (r'.id ≡ 1)
    × (1 ≤ r'.generation)
    × (r'.generation ≤ 1 + 2)
run_lem_example = run_lem toy box operations store (b'u' ∷ []) row finds

finds_destroyed : select (has_uid (b'u' ∷ [])) destroyed_store.bridges ≡ some destroyed_row
unfolding select
finds_destroyed = refl

select-run_destroyed_example :
    select (has_uid (b'u' ∷ [])) (run toy box operations destroyed_store).bridges
    ≡ some destroyed_row
select-run_destroyed_example =
    select-run_destroyed toy box operations destroyed_store (b'u' ∷ []) destroyed_row
      finds_destroyed refl

select-run_unusable_example :
    (¬ (
      sign_message toy box
        (run toy box operations destroyed_store)
        []
        (b'u' ∷ [])
        ada
        ada_key
        ada_key
        []
        []
      ≡ ok signature))
    × (¬ (
        verify_message toy (run toy box operations destroyed_store) [] (b'u' ∷ []) ada [] signature
        ≡ ok tt))
    × (¬ (
        plan_remove_member toy box draws
          (run toy box operations destroyed_store)
          (b'u' ∷ [])
          []
          ada
          ada_key
        ≡ ok plan))
select-run_unusable_example =
    select-run_unusable toy box operations destroyed_store (b'u' ∷ []) destroyed_row [] draws ada
      ada_key ada_key [] [] signature plan finds_destroyed refl

reads_package : read_package toy box moment package_bytes ada_key ≡ ok decoded
unfolding read_package
reads_package = rw decodes refl

import_package_lem_example :
    (r' : PrivateBridgeRow) × (select
        (has_uid (b'u' ∷ []))
        (import_package toy box moment store package_bytes ada_key).1.bridges
      ≡ some r')
    × ((r' ≡ row) ⊎ ((decoded.uid ≡ b'u' ∷ []) × IsSignedUpdate toy decoded (repeated 32 6)))
import_package_lem_example =
    import_package_lem toy box moment store package_bytes ada_key decoded (b'u' ∷ []) row
      reads_package finds

signs :
    sign_message toy box store [] (b'u' ∷ []) ada ada_key ada_key (65 ∷ []) (repeated 16 4)
    ≡ ok signature
unfolding sign_message get select summary_of to_parties order_parties select_all place to_party
    from_db count_where signing_public_for_label unseal_local_secret last_bridge_id sign_with_bridge
signs = refl

reads : get store (b'u' ∷ []) ≡ ok summary
unfolding get select summary_of to_parties order_parties select_all place to_party from_db
    count_where
reads = refl

unseals : unseal_local_secret box store (b'u' ∷ []) ada ada_key ≡ ok (repeated 32 6)
unfolding unseal_local_secret last_bridge_id select
unseals = refl

verifies : select (member_named bob) summary.parties ≡ some bob_party
unfolding select
verifies = refl

verify_message-sign_message_example :
    verify_message toy store [] (b'u' ∷ []) bob (65 ∷ []) signature ≡ ok tt
verify_message-sign_message_example =
    verify_message-sign_message toy box store [] (b'u' ∷ []) ada ada_key ada_key (65 ∷ [])
      (repeated 16 4) bob (repeated 32 6) summary bob_party signature reads unseals refl verifies
      signs

unfoldable after_plan : Store
after_plan = (commit_planned_removal box moment store plan).1

commits : commit_planned_removal box moment store plan ≡ (ok tt, after_plan)
unfolding commit_planned_removal with_immediate_transaction removal_body persist_destroy
    insert_event after_plan count_where select update
commits = refl

commit_planned_removal-commit_planned_removal_example :
    commit_planned_removal box moment after_plan plan ≡ (err bridge_generation_mismatch, after_plan)
commit_planned_removal-commit_planned_removal_example =
    commit_planned_removal-commit_planned_removal box moment moment store after_plan plan plan tt
      refl refl commits
