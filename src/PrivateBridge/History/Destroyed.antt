-- ===== src/PrivateBridge/History/Destroyed.antt =====
-- A destroyed bridge is of no use again (src/private_bridge.rs).
use key_quorom.Prelude.{Bytes, ◌≡◌, List, some, true, not, sym, ◌∙◌, ap, some-injective}
use key_quorom.Prelude.Equality.{nat_eq, list_eq}
use key_quorom.Prelude.Sql.{select}
use key_quorom.Error.{ok, >>=-elim, guard-elim}
use key_quorom.Signing.Artifact.{BridgeSignature}
use key_quorom.Signing.Verify.{Ed25519}
use key_quorom.PrivateBridge.Roster.{CryptoBox}
use key_quorom.PrivateBridge.Store.{Store, PrivateBridgeRow, is_set, has_uid}
use key_quorom.PrivateBridge.Summary.{BridgeSummary, get}
use key_quorom.PrivateBridge.Delivery.{Draws}
use key_quorom.PrivateBridge.Removal.{PlannedRemoval, plan_remove_member}
use key_quorom.PrivateBridge.Messages.{LabelledKey, sign_message, verify_message}
use key_quorom.PrivateBridge.History.Planned.{get-IsSummary}
use key_quorom.PrivateBridge.History.Runs.{Operation, run, select-run_destroyed}

-- The summary of a destroyed bridge is not live.
get-destroyed :
    (s : Store) (uid : Bytes) (r : PrivateBridgeRow) (summary : BridgeSummary)
    → select (has_uid uid) s.bridges ≡ some r
    → is_set r.destroyed_at ≡ true
    → get s uid ≡ ok summary
    → not summary.destroyed ≡ true
    → ⊥
get-destroyed s uid r summary found gone read live =
    let d = get-IsSummary s uid summary read in
    let same : d.row ≡ r = some-injective (sym d.found ∙ found) in
    let dead : summary.destroyed ≡ true =
      d.destroyed ∙ ap (λ (t : PrivateBridgeRow). is_set t.destroyed_at) same ∙ gone in
    cc (rw dead at live)

-- After a bridge is destroyed, and whatever operations follow, its store signs no message with it,
-- accepts no message of it, and plans no removal from it.
pub select-run_unusable :
    (c : Ed25519) (x : CryptoBox) (os : List Operation) (s : Store) (uid : Bytes)
    (r : PrivateBridgeRow) (registered : List LabelledKey) (d : Draws)
    (label sk signing_sk message salt : Bytes) (a : BridgeSignature) (p : PlannedRemoval)
    → select (has_uid uid) s.bridges ≡ some r
    → is_set r.destroyed_at ≡ true
    → (¬ (sign_message c x (run c x os s) registered uid label sk signing_sk message salt ≡ ok a))
      × (¬ (verify_message c (run c x os s) registered uid label message a ≡ ok tt))
      × (¬ (plan_remove_member c x d (run c x os s) uid message label sk ≡ ok p))
unfolding sign_message verify_message plan_remove_member
select-run_unusable c x os s uid r registered d label sk signing_sk message salt a p found gone =
    let t = run c x os s in
    let still = select-run_destroyed c x os s uid r found gone in
    (
      λ h. >>=-elim (get t uid) _ h λ summary read h'.
          guard-elim (not summary.destroyed) _ _ h'
            λ live _. get-destroyed t uid r summary still gone read live,
      λ h. >>=-elim (get t uid) _ h λ summary read h'.
          guard-elim (not summary.destroyed) _ _ h'
            λ live _. get-destroyed t uid r summary still gone read live,
      λ h. >>=-elim (get t uid) _ h λ summary read h'.
          guard-elim (not summary.destroyed) _ _ h'
            λ live _. get-destroyed t uid r summary still gone read live,
    )
