-- ===== src/Sharing/Tables.antt =====
-- The two share tables and the public functions on them (src/sharing.rs).
use key_quorom.Prelude.{ℕ, Bytes, Option}
use key_quorom.Prelude.Int.{ℤ}
use key_quorom.Error.{Result}
use key_quorom.Sharing.{Share, Shares, TokenCodec, create_share, redeem_share, revoke_share}

pub record ShareTables : Type 0 where
  pub credential_shares : Shares
  pub file_shares : Shares

-- A call on one table, and the tables after it.
abbrev pub on_credentials : ShareTables → {A : Type 0} → Result A × Shares → Result A × ShareTables
on_credentials db (a, s) = (a, record db { credential_shares = s })

abbrev pub on_files : ShareTables → {A : Type 0} → Result A × Shares → Result A × ShareTables
on_files db (a, s) = (a, record db { file_shares = s })

module _ (c : TokenCodec) where
  unfoldable pub create_credential_share :
      ℕ → Bytes → ℕ → ℤ → Option ℤ → ShareTables → Result Share × ShareTables
  create_credential_share now raw credential_id ttl_seconds max_uses db =
      on_credentials db
        (create_share c now raw credential_id ttl_seconds max_uses db.credential_shares)

  unfoldable pub redeem_credential_share :
      ℕ → ℕ → (Shares → Shares) → Bytes → ShareTables → Result ℕ × ShareTables
  redeem_credential_share now later meanwhile token db =
      on_credentials db (redeem_share c now later meanwhile token db.credential_shares)

  unfoldable pub create_file_share :
      ℕ → Bytes → ℕ → ℤ → Option ℤ → ShareTables → Result Share × ShareTables
  create_file_share now raw file_id ttl_seconds max_uses db =
      on_files db (create_share c now raw file_id ttl_seconds max_uses db.file_shares)

  unfoldable pub redeem_file_share :
      ℕ → ℕ → (Shares → Shares) → Bytes → ShareTables → Result ℕ × ShareTables
  redeem_file_share now later meanwhile token db =
      on_files db (redeem_share c now later meanwhile token db.file_shares)

unfoldable pub revoke_credential_share : ℕ → ℕ → ShareTables → Result (Unit {0}) × ShareTables
revoke_credential_share now share_id db =
    on_credentials db (revoke_share now share_id db.credential_shares)

unfoldable pub revoke_file_share : ℕ → ℕ → ShareTables → Result (Unit {0}) × ShareTables
revoke_file_share now share_id db = on_files db (revoke_share now share_id db.file_shares)
