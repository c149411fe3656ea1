-- ===== src/Relay/Mailbox.antt =====
-- Reading a recipient's envelopes page by page (src/relay/mailbox.rs). The table's rows stand in the
-- order of their ids, which the query sorts by. Ids are positive, so an `after` below 0 reads as 0.
pub mod Paging
pub mod Storing
use key_quorom.Prelude.{
  ℕ, Bytes, ◌+◌, Bool, ◌&&◌, Option, none, some, List, [], ◌∷◌, ltb, leb, if◌then◌else◌, length,
  take,
}
use key_quorom.Prelude.Int.{ℤ, pos, negsuc}
use key_quorom.Prelude.Equality.{◌≟◌, nat_eq, list_eq}
use key_quorom.Prelude.Sql.{select_all}
use key_quorom.Error.{Result, ok, err, ◌>>=◌, invalid_inbox_page}

pub record StoredEnvelope : Type 0 where
  pub id : ℕ
  pub recipient_fingerprint : Bytes
  pub bytes : Bytes

pub record MailboxPage : Type 0 where
  pub envelopes : List StoredEnvelope
  pub next_after : Option ℕ

abbrev pub default_inbox_page : ℕ
default_inbox_page = 100

abbrev pub max_inbox_page : ℕ
max_inbox_page = 500

unfoldable pub page_size : Option ℤ → Result ℕ
page_size none = ok default_inbox_page
page_size (some (pos n)) = if leb 1 n && leb n max_inbox_page then ok n else err invalid_inbox_page
page_size (some (negsuc n)) = err invalid_inbox_page

-- The WHERE clause.
abbrev pub is_after : Bytes → ℕ → StoredEnvelope → Bool
is_after fingerprint after e = e.recipient_fingerprint ≟ fingerprint && ltb after e.id

-- `pop`, and `last` with its id.
unfoldable pub pop : List StoredEnvelope → List StoredEnvelope
pop [] = []
pop (e ∷ []) = []
pop (e ∷ f ∷ es) = e ∷ pop (f ∷ es)

unfoldable pub last_id : List StoredEnvelope → Option ℕ
last_id [] = none
last_id (e ∷ []) = some e.id
last_id (e ∷ f ∷ es) = last_id (f ∷ es)

-- What is made of the rows that the query returned.
unfoldable pub page_of : ℕ → List StoredEnvelope → MailboxPage
unfolding pop last_id
page_of page fetched =
    if ltb page (length fetched)
    then record { envelopes = pop fetched; next_after = last_id (pop fetched) }
    else record { envelopes = fetched; next_after = none }

abbrev pub or_zero : Option ℕ → ℕ
or_zero none = 0
or_zero (some n) = n

unfoldable pub list_after : List StoredEnvelope → Bytes → Option ℕ → Option ℤ → Result MailboxPage
unfolding page_of
list_after table fingerprint after limit = do
  page ← page_size limit
  ok (page_of page (take (page + 1) (select_all (is_after fingerprint (or_zero after)) table)))
