-- ===== src/Relay/Tests.antt =====
-- API keys and an inbox on concrete tables (src/relay/api_key.rs, src/relay/mailbox.rs).
use key_quorom.Error.{ok, err, api_key_revoked}
use key_quorom.PrivateBridge.Package.Envelope.{routing_public_key, parse_kqpb_outer}
use key_quorom.Signing.Reader.{take_n, take_u8, take_array}
use key_quorom.Signing.BigEndian.{from_be}
use key_quorom.Prelude.Sql.{next_id, select_all, select, count_where}
use key_quorom.Prelude.{
  true, false, List, ◌≤◌, length, ◌++◌, ℕ, zero, suc, Bytes, ◌≡◌, ◌↔◌, refl, none, some, [], ◌∷◌,
  arith,
}
use key_quorom.Relay.Mailbox.Storing.{
  MailboxRow, envelopes, store_row, fingerprint, store, store-store, list_after-store,
}
use key_quorom.Prelude.Equality.{nat_eq, list_eq}
use key_quorom.Sharing.{TokenCodec}
use key_quorom.Relay.Mailbox.{StoredEnvelope, MailboxPage, max_inbox_page, is_after, list_after}
use key_quorom.Relay.Mailbox.Paging.{Ascending, remaining, list_after_lem}
use key_quorom.Prelude.Int.{pos}
use key_quorom.Relay.ApiKey.{
  inbox_push, ApiKeyRow, Keys, as_str, hash_bearer, hash_prefixed, strip_prefix, token_prefix,
  revoke,
}
use key_quorom.Relay.ApiKey.Sessions.{authenticate}
use key_quorom.Relay.ApiKey.Authenticate.{
  Names, Unexpired, session, authenticate-eq-ok_iff, authenticate-revoke,
}

abbrev codec : TokenCodec
codec = record {
  encode = λ raw. raw;
  decode = λ token. some token;
  digest = λ raw. raw;
  datetime = λ now n. none;
  decode-encode = λ raw. refl;
}

abbrev ones : ℕ → Bytes
ones zero = []
ones (suc n) = 1 ∷ ones n

abbrev bearer : Bytes
bearer = token_prefix ++ ones 32

abbrev row : ApiKeyRow
row = record {
  key_hash = ones 32;
  info = record {
    id = 1;
    scope = "inbox.push";
    recipient_fingerprint = none;
    label = none;
    created_at = 0;
    expires_at = some 100;
    revoked_at = none;
    last_used_at = none;
  };
}

abbrev keys : Keys
keys = record { api_keys = row ∷ []; licensee_issuer = [] }

bearer_hash : hash_bearer codec bearer ≡ ok (ones 32)
unfolding hash_bearer hash_prefixed strip_prefix
bearer_hash = refl

keys-Names : Names (ones 32) keys row
unfolding select count_where
keys-Names = record { found = refl; unique = omega arith }

authenticate-eq-ok_iff_example :
    ((authenticate codec 50 bearer inbox_push keys).0 ≡ ok (session row inbox_push)) ↔ (
      (row.info.revoked_at ≡ none)
      × Unexpired 50 (some 100)
      × (row.info.scope ≡ as_str inbox_push)
      × (session row inbox_push ≡ session row inbox_push))
authenticate-eq-ok_iff_example =
    authenticate-eq-ok_iff codec 50 bearer (ones 32) inbox_push keys row (session row inbox_push)
      bearer_hash keys-Names

authenticate-revoke_example :
    (authenticate codec 60 bearer inbox_push (revoke 55 1 keys).1).0 ≡ err api_key_revoked
authenticate-revoke_example =
    authenticate-revoke codec 55 60 bearer (ones 32) inbox_push keys row bearer_hash keys-Names

abbrev envelope : ℕ → StoredEnvelope
envelope i = record { id = i; recipient_fingerprint = 1 ∷ []; bytes = i ∷ [] }

abbrev inbox : List StoredEnvelope
inbox = envelope 1 ∷ envelope 2 ∷ envelope 4 ∷ []

inbox-Ascending : Ascending 0 inbox
inbox-Ascending = (omega arith, (omega arith, (omega arith, tt)))

abbrev first_page : MailboxPage
first_page = record { envelopes = envelope 1 ∷ envelope 2 ∷ []; next_after = some 2 }

reads_first : list_after inbox (1 ∷ []) none (some (pos 2)) ≡ ok first_page
unfolding list_after key_quorom.Relay.Mailbox.page_size select_all
reads_first = refl

list_after_lem_example :
    (first_page.envelopes ++ remaining inbox (1 ∷ []) first_page.next_after
      ≡ select_all (is_after (1 ∷ []) 0) inbox)
    × (length first_page.envelopes ≤ max_inbox_page)
list_after_lem_example =
    list_after_lem inbox (1 ∷ []) none (some (pos 2)) 0 first_page inbox-Ascending reads_first

-- A package with an empty letter.
abbrev posted : Bytes
posted = b'K' ∷ b'Q' ∷ b'P' ∷ b'B' ∷ 2 ∷ 1 ∷ (ones 32 ++ (0 ∷ 0 ∷ 0 ∷ 0 ∷ []))

abbrev same_bytes : Bytes → Bytes
same_bytes bytes = bytes

abbrev stored_rows : List MailboxRow
stored_rows =
    record {
      envelope = record { id = 1; recipient_fingerprint = ones 32; bytes = posted };
      content_hash = posted;
    }
    ∷ []

stores : store same_bytes [] posted ≡ ok ((1, ones 32, false), stored_rows)
unfolding store routing_public_key parse_kqpb_outer take_n take_u8 take_array from_be store_row
    select next_id fingerprint
stores = refl

store-store_example : store same_bytes stored_rows posted ≡ ok ((1, ones 32, true), stored_rows)
store-store_example = store-store same_bytes [] posted 1 (ones 32) false stored_rows stores

routes : routing_public_key posted ≡ ok (ones 32)
unfolding routing_public_key parse_kqpb_outer take_n take_u8 take_array from_be
routes = refl

list_after-store_example :
    list_after (envelopes stored_rows) (fingerprint same_bytes (ones 32)) (some 0) none
    ≡ ok (record {
      envelopes =
          record {
            id = 1;
            recipient_fingerprint = fingerprint same_bytes (ones 32);
            bytes = posted;
          }
          ∷ [];
      next_after = none;
    })
list_after-store_example =
    list_after-store same_bytes [] posted (ones 32) (ones 32) 0 stored_rows routes stores
