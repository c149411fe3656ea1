-- ===== src/PrivateBridge/History/Rows.antt =====
-- What each statement of an operation does to the table of bridges (src/private_bridge.rs).
use key_quorom.Prelude.{
  ℕ, Bytes, ◌≡◌, ap, ◌∙◌, sym, Option, none, some, [], ◌∷◌, ◌++◌, true, not, ltb, ◌==◌, String,
}
use key_quorom.Prelude.Equality.{nat_eq}
use key_quorom.Prelude.Sql.{select, update, count_where}
use key_quorom.Error.{ok, ok-injective, >>=-elim, guard-elim}
use key_quorom.PrivateBridge.SortedMap.{Map, lookup}
use key_quorom.PrivateBridge.Roster.{CryptoBox, MemberKeys, PartyRole, member, supervisor}
use key_quorom.PrivateBridge.Package.Auth.{DecodedPackage}
use key_quorom.PrivateBridge.Package.Envelope.{seal_secret}
use key_quorom.PrivateBridge.Store.{
  Store, PrivateBridgeRow, PartyRow, SealedRow, is_set, has_uid, has_bridge_id, party_named,
  sealed_named, known_key, party_allowed, insert_bridge, insert_party, insert_sealed, insert_event,
  set_generation, is_live_at,
}
use key_quorom.PrivateBridge.Commit.{
  Moment, insert_member_parties, insert_supervisor_parties, insert_sealed_for, seal_if,
  seal_local_if_member, update_generation,
}
use key_quorom.Signing.Verify.{Ed25519}
use key_quorom.PrivateBridge.Import.{replace_roster_and_secret, seal_delivered}

pub insert_party-bridges :
    (s : Store) (p : PartyRow) (t : Store) → insert_party s p ≡ ok t → t.bridges ≡ s.bridges
unfolding insert_party
insert_party-bridges s p t h0 =
    guard-elim (is_set (select (has_bridge_id p.bridge_id) s.bridges)) _ _ h0 λ _ h1.
      guard-elim (not (is_set (select (party_named p.bridge_id p.node_label) s.parties))) _ _ h1
        λ _ h2.
          guard-elim (party_allowed p.role p.signing_public_key) _ _ h2
            λ _ h3. ap (λ (u : Store). u.bridges) (sym (ok-injective h3))

pub insert_event-bridges :
    (s : Store) (id : ℕ) (e : String) (t : Store)
    → insert_event s id e ≡ ok t
    → t.bridges ≡ s.bridges
unfolding insert_event
insert_event-bridges s id e t h0 =
    guard-elim (is_set (select (has_bridge_id id) s.bridges)) _ _ h0
      λ _ h1. ap (λ (u : Store). u.bridges) (sym (ok-injective h1))

insert_sealed-bridges :
    (s : Store) (r : SealedRow) (t : Store) → insert_sealed s r ≡ ok t → t.bridges ≡ s.bridges
unfolding insert_sealed
insert_sealed-bridges s r t h0 =
    guard-elim (is_set (select (party_named r.bridge_id r.node_label) s.parties)) _ _ h0 λ _ h1.
      guard-elim (not (is_set (select (sealed_named r.bridge_id r.node_label) s.sealed))) _ _ h1
        λ _ h2. ap (λ (u : Store). u.bridges) (sym (ok-injective h2))

pub insert_member_parties-bridges :
    (s : Store) (id : ℕ) (m : Map MemberKeys) (l : Option Bytes) (t : Store)
    → insert_member_parties s id m l ≡ ok t
    → t.bridges ≡ s.bridges
unfolding insert_member_parties
insert_member_parties-bridges s id [] l t h = ap (λ (u : Store). u.bridges) (sym (ok-injective h))
insert_member_parties-bridges s id ((label, keys) ∷ m) l t h =
    >>=-elim _ _ h
      λ u e h'. insert_member_parties-bridges u id m l t h' ∙ insert_party-bridges s _ u e

pub insert_supervisor_parties-bridges :
    (s : Store) (id : ℕ) (m : Map Bytes) (l : Option Bytes) (t : Store)
    → insert_supervisor_parties s id m l ≡ ok t
    → t.bridges ≡ s.bridges
unfolding insert_supervisor_parties
insert_supervisor_parties-bridges s id [] l t h =
    ap (λ (u : Store). u.bridges) (sym (ok-injective h))
insert_supervisor_parties-bridges s id ((label, pk) ∷ m) l t h =
    >>=-elim _ _ h
      λ u e h'. insert_supervisor_parties-bridges u id m l t h' ∙ insert_party-bridges s _ u e

module _ (x : CryptoBox) (at_time : Moment) where
  insert_sealed_for-bridges :
      (s : Store) (id : ℕ) (label pk wrap secret : Bytes) (t : Store)
      → insert_sealed_for x at_time s id label pk wrap secret ≡ ok t
      → t.bridges ≡ s.bridges
  unfolding insert_sealed_for
  insert_sealed_for-bridges s id label pk wrap secret t h =
      >>=-elim (seal_secret x at_time.seal pk wrap secret) _ h
        λ _ _ h'. insert_sealed-bridges s _ t h'

  seal_if-bridges :
      (s : Store) (id : ℕ) (l : Bytes) (o : Option MemberKeys) (secret : Bytes) (t : Store)
      → seal_if x at_time s id l o secret ≡ ok t
      → t.bridges ≡ s.bridges
  seal_if-bridges s id l none secret t h = ap (λ (u : Store). u.bridges) (sym (ok-injective h))
  seal_if-bridges s id l (some keys) secret t h =
      insert_sealed_for-bridges s id l keys.encryption at_time.wrap_salt secret t h

  pub seal_local_if_member-bridges :
      (s : Store) (id : ℕ) (l : Bytes) (m : Map MemberKeys) (secret : Bytes) (t : Store)
      → seal_local_if_member x at_time s id l m secret ≡ ok t
      → t.bridges ≡ s.bridges
  unfolding seal_local_if_member
  seal_local_if_member-bridges s id l m secret t h = seal_if-bridges s id l (lookup l m) secret t h

  pub update_generation-bridges :
      (s : Store) (uid : Bytes) (expected g : ℕ) (pk salt : Bytes) (label : Option Bytes)
      (t : Store)
      → update_generation x at_time s uid expected g pk salt label ≡ ok t
      → (t.bridges ≡ update (is_live_at uid expected) (set_generation g pk salt label) s.bridges)
        × (ltb 0 g ≡ true)
  unfolding update_generation
  update_generation-bridges s uid expected g pk salt label t h0 =
      guard-elim (count_where (is_live_at uid expected) s.bridges == 1) _ _ h0 λ _ h1.
        guard-elim (ltb 0 g) _ _ h1
          λ positive h2. (ap (λ (u : Store). u.bridges) (sym (ok-injective h2)), positive)

module _ (c : Ed25519) (x : CryptoBox) (at_time : Moment) where
  seal_delivered-bridges :
      (s : Store) (id : ℕ) (d : DecodedPackage) (wrap secret : Option Bytes) (role : PartyRole)
      (t : Store)
      → seal_delivered c x at_time s id d wrap secret role ≡ ok t
      → t.bridges ≡ s.bridges
  seal_delivered-bridges s id d (some wrap) (some secret) member t h =
      insert_sealed_for-bridges x at_time s id d.recipient_label d.recipient_public_key wrap secret
        t h
  seal_delivered-bridges s id d (some wrap) (some secret) supervisor t h =
      ap (λ (u : Store). u.bridges) (sym (ok-injective h))
  seal_delivered-bridges s id d (some wrap) none role t h =
      ap (λ (u : Store). u.bridges) (sym (ok-injective h))
  seal_delivered-bridges s id d none secret role t h =
      ap (λ (u : Store). u.bridges) (sym (ok-injective h))

  pub replace_roster_and_secret-bridges :
      (s : Store) (id : ℕ) (d : DecodedPackage) (t : Store)
      → replace_roster_and_secret c x at_time s id d ≡ ok t
      → t.bridges ≡ s.bridges
  unfolding replace_roster_and_secret
  replace_roster_and_secret-bridges s id d t h =
      >>=-elim (insert_member_parties s id d.members (some d.recipient_label)) _ h λ u e h'.
        >>=-elim (insert_supervisor_parties u id d.supervisors (some d.recipient_label)) _ h'
          λ v f h''.
            seal_delivered-bridges v id d d.wrap_salt d.secret d.role t h''
            ∙ insert_supervisor_parties-bridges u id d.supervisors (some d.recipient_label) v f
            ∙ insert_member_parties-bridges s id d.members (some d.recipient_label) u e

-- The row that a new bridge starts with.
pub record IsNew (s t : Store) : Type 0 where
  pub row : PrivateBridgeRow
  pub appended : t.bridges ≡ s.bridges ++ (row ∷ [])

pub insert_bridge-IsNew :
    (s : Store) (uid : Bytes) (key_id : Option ℕ) (label : Option Bytes) (g : ℕ) (pk salt : Bytes)
    (id : ℕ) (t : Store)
    → insert_bridge s uid key_id label g pk salt ≡ ok (id, t)
    → IsNew s t
unfolding insert_bridge
insert_bridge-IsNew s uid key_id label g pk salt id t h0 =
    guard-elim (not (is_set (select (has_uid uid) s.bridges))) _ _ h0 λ _ h1.
      guard-elim (ltb 0 g) _ _ h1 λ _ h2. guard-elim (known_key s.keys key_id) _ _ h2 λ _ h3.
        record { row = _; appended = ap (λ (u : ℕ × Store). u.1.bridges) (sym (ok-injective h3)) }
