-- ===== src/Relay/Mailbox/Storing.antt =====
-- Storing an envelope (src/relay/mailbox.rs): a package is indexed by the fingerprint of the key that
-- its outer header names. `digest` is the hexadecimal SHA-256, as in src/keys.rs.
use mathlib.Core.Path.{subst}
use key_quorom.Prelude.{
  ℕ, suc, ◌≤◌, Bytes, ◌≡◌, refl, ap, ◌∙◌, sym, Bool, true, false, ◌&&◌, Option, none, some, List,
  [], ◌∷◌, ◌++◌, map, arith,
}
use key_quorom.Prelude.Equality.{nat_eq, list_eq, list_beq, beq_refl}
use key_quorom.Prelude.Sql.{select, select_all, next_id, select-append_right}
use key_quorom.Error.{Result, ok, ◌>>=◌, ok-injective, >>=-elim}
use key_quorom.PrivateBridge.Package.Envelope.{routing_public_key}
use key_quorom.Relay.Mailbox.{page_of, page_size, StoredEnvelope, is_after, list_after}

pub record MailboxRow : Type 0 where
  pub envelope : StoredEnvelope
  pub content_hash : Bytes

-- The columns that reading an inbox selects.
abbrev pub envelopes : List MailboxRow → List StoredEnvelope
envelopes rows = map (λ (r : MailboxRow). r.envelope) rows

abbrev pub row_id : MailboxRow → ℕ
row_id r = r.envelope.id

-- `recipient_fingerprint = ?1 AND content_hash = ?2`
abbrev pub is_stored : Bytes → Bytes → MailboxRow → Bool
is_stored fingerprint content_hash r =
    list_beq r.envelope.recipient_fingerprint fingerprint && list_beq r.content_hash content_hash

abbrev pub new_envelope : List MailboxRow → Bytes → Bytes → StoredEnvelope
new_envelope rows fp bytes = record {
  id = next_id row_id rows;
  recipient_fingerprint = fp;
  bytes = bytes;
}

-- INSERT OR IGNORE, from the row that is there for the fingerprint and the hash.
unfoldable pub store_row :
    Option MailboxRow
    → List MailboxRow
    → Bytes
    → Bytes
    → Bytes
    → (ℕ × Bytes × Bool) × List MailboxRow
store_row (some r) rows fp content_hash bytes = ((row_id r, fp, true), rows)
store_row none rows fp content_hash bytes =
    let row : MailboxRow = record {
      envelope = new_envelope rows fp bytes;
      content_hash = content_hash;
    } in
    ((next_id row_id rows, fp, false), rows ++ (row ∷ []))

module _ (digest : Bytes → Bytes) where
  unfoldable pub fingerprint : Bytes → Bytes
  fingerprint public_key = digest public_key

  unfoldable pub store : List MailboxRow → Bytes → Result ((ℕ × Bytes × Bool) × List MailboxRow)
  store rows envelope = do
    recipient_public_key ← routing_public_key envelope
    let fp = fingerprint recipient_public_key
    let content_hash = digest envelope
    ok (store_row (select (is_stored fp content_hash) rows) rows fp content_hash envelope)

  store_row-again :
      (found : Option MailboxRow) (rows : List MailboxRow) (fp h bytes : Bytes)
      → select (is_stored fp h) rows ≡ found
      → select (is_stored fp h) (store_row found rows fp h bytes).1
        ≡ some (elim found [
          | some r ↦ r
          | none ↦ record { envelope = new_envelope rows fp bytes; content_hash = h }
        ])
  unfolding store_row select
  store_row-again (some r) rows fp h bytes e = e
  store_row-again none rows fp h bytes e =
      select-append_right (is_stored fp h) rows _ e ∙ rw (beq_refl fp, beq_refl h) refl

  stored_id :
      (found : Option MailboxRow) (rows : List MailboxRow) (fp h bytes : Bytes)
      → select (is_stored fp h) rows ≡ found
      → let t = store_row found rows fp h bytes in
        store_row (select (is_stored fp h) t.1) t.1 fp h bytes ≡ ((t.0.0, fp, true), t.1)
  unfolding store_row
  stored_id (some r) rows fp h bytes e = rw (store_row-again (some r) rows fp h bytes e) refl
  stored_id none rows fp h bytes e = rw (store_row-again none rows fp h bytes e) refl

  stored_fingerprint :
      (found : Option MailboxRow) (rows : List MailboxRow) (fp h bytes : Bytes)
      → (store_row found rows fp h bytes).0.1 ≡ fp
  unfolding store_row
  stored_fingerprint (some r) rows fp h bytes = refl
  stored_fingerprint none rows fp h bytes = refl

  -- Storing an envelope again gives the id that it has, reports that it was there, and changes
  -- nothing.
  pub store-store :
      (rows : List MailboxRow) (envelope : Bytes) (id : ℕ) (fp : Bytes) (dup : Bool)
      (after : List MailboxRow)
      → store rows envelope ≡ ok ((id, fp, dup), after)
      → store after envelope ≡ ok ((id, fp, true), after)
  unfolding store
  store-store rows envelope id fp dup after h =
      >>=-elim (routing_public_key envelope) _ h λ pk e h'.
        let f = fingerprint pk in
        let h = digest envelope in
        let found = select (is_stored f h) rows in
        let done : store_row found rows f h envelope ≡ ((id, fp, dup), after) = ok-injective h' in
        let again = stored_id found rows f h envelope refl in
        let same : fp ≡ f =
          ap (λ (p : (ℕ × Bytes × Bool) × List MailboxRow). p.0.1) (sym done)
          ∙ stored_fingerprint found rows f h envelope in
        let again' : store_row (select (is_stored f h) after) after f h envelope
            ≡ ((id, f, true), after) =
          rw done at again in
        rw (e, same) (ap ok again')

  -- Only the last row is after `k`.
  newest :
      (rows : List MailboxRow) (new : MailboxRow) (fp : Bytes) (k : ℕ)
      → next_id row_id rows ≤ suc k
      → is_after fp k new.envelope ≡ true
      → select_all (is_after fp k) (envelopes (rows ++ (new ∷ []))) ≡ new.envelope ∷ []
  unfolding next_id select_all
  newest [] new fp k h y = rw y refl
  newest (r ∷ rows) new fp k h y = ground (arith, newest rows new fp k)

  fresh :
      (found : Option MailboxRow) (rows : List MailboxRow) (fp h bytes : Bytes) (id k : ℕ)
      (f : Bytes) (after : List MailboxRow)
      → store_row found rows fp h bytes ≡ ((id, f, false), after)
      → id ≡ suc k
      → select_all (is_after fp k) (envelopes after)
        ≡ record { id = id; recipient_fingerprint = fp; bytes = bytes } ∷ []
  unfolding store_row
  fresh (some r) rows fp h bytes id k f after e next =
      absurd (cc (ap (λ (p : (ℕ × Bytes × Bool) × List MailboxRow). p.0.2) e))
  fresh none rows fp h bytes id k f after e next =
      let first : next_id row_id rows ≡ id =
        ap (λ (p : (ℕ × Bytes × Bool) × List MailboxRow). p.0.0) e in
      let new : MailboxRow = record { envelope = new_envelope rows fp bytes; content_hash = h } in
      let rest : rows ++ (new ∷ []) ≡ after =
        ap (λ (p : (ℕ × Bytes × Bool) × List MailboxRow). p.1) e in
      let later : is_after fp k new.envelope ≡ true =
        rw (beq_refl fp, first ∙ next) (ground arith) in
      subst
        (λ (t : List MailboxRow).
          select_all (is_after fp k) (envelopes t)
          ≡ record { id = id; recipient_fingerprint = fp; bytes = bytes } ∷ [])
        rest (rw (← first) (newest rows new fp k (omega (arith, first, next)) later))

  -- When an envelope is stored for the first time, a recipient who asks for what came after the id
  -- before its own gets that envelope, unchanged, and nothing else, under the fingerprint of the key
  -- that its header names.
  pub list_after-store :
      (rows : List MailboxRow) (envelope pk fp : Bytes) (k : ℕ) (after : List MailboxRow)
      → routing_public_key envelope ≡ ok pk
      → store rows envelope ≡ ok ((suc k, fp, false), after)
      → list_after (envelopes after) (fingerprint pk) (some k) none
        ≡ ok (record {
          envelopes =
              record { id = suc k; recipient_fingerprint = fingerprint pk; bytes = envelope } ∷ [];
          next_after = none;
        })
  unfolding store list_after page_of page_size
  list_after-store rows envelope pk fp k after r h =
      let stored = ok-injective (rw (r, store) at h) in
      rw
        (fresh (select (is_stored (fingerprint pk) (digest envelope)) rows) rows (fingerprint pk)
          (digest envelope) envelope (suc k) k fp after stored refl)
        refl
