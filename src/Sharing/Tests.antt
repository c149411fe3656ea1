-- ===== src/Sharing/Tests.antt =====
-- Share links on concrete tables (src/sharing.rs).
use key_quorom.Prelude.{
  ℕ, Bytes, ◌+◌, ◌≤◌, ◌<◌, ◌≡◌, ◌↔◌, refl, true, Option, none, some, List, [], ◌∷◌, arith,
  if◌then◌else◌,
}
use key_quorom.Prelude.Int.{ℤ, pos, negsuc}
use key_quorom.Prelude.Equality.{nat_eq, list_eq}
use key_quorom.Prelude.Sql.{select, count_where}
use key_quorom.Error.{ok, err, share_revoked}
use key_quorom.Sharing.{
  TokenCodec, ShareRow, Share, Shares, has_hash, eligible, create_share, redeem_share, revoke_share,
  hash_token,
}
use key_quorom.Sharing.Steps.{
  Statement, claiming, revoking, inserting, perform_all, grants, WithinLimit, Holds,
}
use key_quorom.Sharing.Redeem.{
  grants-le-max_uses, redeem_share-eq-ok_iff, redeem_share-revoke_share,
}
use key_quorom.Sharing.Create.{redeem_share-create_share}

abbrev plus : ℕ → ℤ → Option ℕ
plus now (pos n) = some (now + n)
plus now (negsuc n) = none

abbrev codec : TokenCodec
codec = record {
  encode = λ raw. raw;
  decode = λ token. some token;
  digest = λ raw. raw;
  datetime = plus;
  decode-encode = λ raw. refl;
}

abbrev token : Bytes
token = 1 ∷ 2 ∷ []

abbrev link : ShareRow
link = record {
  id = 1;
  resource_id = 7;
  token_hash = token;
  expires_at = 100;
  max_uses = some 2;
  use_count = 0;
  revoked_at = none;
}

abbrev table : Shares
table = record { rows = link ∷ []; resources = 7 ∷ [] }

table-Holds : Holds token table link
unfolding count_where select
table-Holds = record { unique = omega arith; found = refl; within = omega arith }

token_known : hash_token codec token ≡ ok token
unfolding hash_token
token_known = refl

abbrev three_claims : List Statement
three_claims = claiming 10 token ∷ claiming 11 token ∷ claiming 12 token ∷ []

-- The third claim is refused.
three_claims_grant_two : grants token three_claims table ≡ 2
unfolding grants key_quorom.Sharing.Steps.granted count_where key_quorom.Sharing.Steps.perform
    key_quorom.Prelude.Sql.update
three_claims_grant_two = refl

grants-le-max_uses_example :
    (0 + grants token three_claims table ≤ 2)
    × ((r' : ShareRow) × (select (has_hash token) (perform_all three_claims table).rows ≡ some r')
        × (r'.use_count ≡ 0 + grants token three_claims table))
grants-le-max_uses_example = grants-le-max_uses token three_claims table link 2 table-Holds refl

redeem_share-eq-ok_iff_example :
    (((redeem_share codec 10 10 (λ x. x) token table).0 ≡ ok 7) ↔ (
      (link.revoked_at ≡ none)
      × (10 < 100)
      × WithinLimit (some 2) (0 + 1)
      × (link.resource_id ≡ 7)))
    × (select (has_hash token) (redeem_share codec 10 10 (λ x. x) token table).1.rows
        ≡ some (if eligible 10 token link then record link { use_count = 0 + 1 } else link))
redeem_share-eq-ok_iff_example =
    redeem_share-eq-ok_iff codec 10 token token table link 7 token_known table-Holds

redeem_share-revoke_share_example :
    (redeem_share codec 20 21
      (perform_all (claiming 20 token ∷ []))
      token
      (perform_all (inserting (3 ∷ []) 7 (some 50) (some none) ∷ []) (revoke_share 15 1 table).1)).0
    ≡ err share_revoked
redeem_share-revoke_share_example =
    redeem_share-revoke_share codec token token table link 15 20 21
      (inserting (3 ∷ []) 7 (some 50) (some none) ∷ []) (claiming 20 token ∷ []) token_known
      table-Holds

abbrev no_links : Shares
no_links = record { rows = []; resources = 7 ∷ [] }

abbrev created : Shares
created = record { rows = record link { expires_at = 60 } ∷ []; resources = 7 ∷ [] }

creates :
    create_share codec 10 token 7 (pos 50) (some (pos 2)) no_links
    ≡ (ok (record { id = 1; token = token; expires_at = 60 }), created)
unfolding create_share key_quorom.Sharing.insert_row key_quorom.Sharing.checked_limit count_where
    key_quorom.Prelude.Sql.next_id
creates = refl

redeem_share-create_share_example : (redeem_share codec 59 59 (λ x. x) token created).0 ≡ ok 7
redeem_share-create_share_example =
    redeem_share-create_share codec 10 59 token 7 (pos 50) (some (pos 2)) no_links created
      (record { id = 1; token = token; expires_at = 60 }) creates (omega arith)
