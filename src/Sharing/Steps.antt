-- ===== src/Sharing/Steps.antt =====
-- Any sequence of statements of any connections on a share table (src/sharing.rs): how often one
-- share is claimed.
use key_quorom.Prelude.{
  ℕ, Bytes, ◌+◌, ◌≤◌, ◌≡◌, true, Option, none, some, List, [], ◌∷◌, ◌==◌, if◌then◌else◌,
}
use key_quorom.Prelude.Equality.{nat_eq, list_eq}
use key_quorom.Prelude.Sql.{select, count_where}
use key_quorom.Sharing.{ShareRow, Shares, has_hash, insert_row, claim, revoke_share, is_set}

-- The statements that change the table.
pub data Statement : Type 0 where
  claiming : ℕ → Bytes → Statement
  revoking : ℕ → ℕ → Statement
  inserting : Bytes → ℕ → Option ℕ → Option (Option ℕ) → Statement

unfoldable pub perform : Statement → Shares → Shares
unfolding claim revoke_share insert_row
perform (claiming now h) s = (claim now h s).1
perform (revoking now i) s = (revoke_share now i s).1
perform (inserting h resource_id t m) s = (insert_row h resource_id t m s).1

-- Whether a statement claims a use of the share with hash `h`: it is that UPDATE, and it changed
-- one row.
unfoldable pub granted : Bytes → Statement → Shares → ℕ
unfolding claim
granted h (claiming now k) s =
    if list_eq.beq k h then (if (claim now k s).0 == 1 then 1 else 0) else 0
granted h _ s = 0

unfoldable pub perform_all : List Statement → Shares → Shares
perform_all [] s = s
perform_all (o ∷ os) s = perform_all os (perform o s)

unfoldable pub grants : Bytes → List Statement → Shares → ℕ
grants h [] s = 0
grants h (o ∷ os) s = granted h o s + grants h os (perform o s)

abbrev pub WithinLimit : Option ℕ → ℕ → Type 0
WithinLimit none n = Unit
WithinLimit (some m) n = n ≤ m

-- The row of `h` is `r`, it is the only one, and it was not used too often.
pub record Holds (h : Bytes) (s : Shares) (r : ShareRow) : Type 0 where
  pub unique : count_where (has_hash h) s.rows ≤ 1
  pub found : select (has_hash h) s.rows ≡ some r
  pub within : WithinLimit r.max_uses r.use_count

-- What a statement makes of that row.
pub record Follows (h : Bytes) (r : ShareRow) (n : ℕ) (s : Shares) : Type 0 where
  pub row : ShareRow
  pub holds : Holds h s row
  pub limit : row.max_uses ≡ r.max_uses
  pub resource : row.resource_id ≡ r.resource_id
  pub expiry : row.expires_at ≡ r.expires_at
  pub revoked : is_set r.revoked_at ≡ true → is_set row.revoked_at ≡ true
  pub counted : row.use_count ≡ r.use_count + n
