-- ===== src/PrivateBridge/History/Dropped.antt =====
-- What dropping a member without a key does to the stored bridges (src/private_bridge.rs).
use key_quorom.Prelude.{
  ℕ, Bytes, ◌≡◌, refl, ◌∙◌, sym, Option, none, some, List, [], ◌∷◌, false, Bool-cases, inl, inr,
  some-injective,
}
use key_quorom.Prelude.Equality.{nat_eq, list_eq, bytes_iff}
use key_quorom.Prelude.Sql.{select, select_sound}
use key_quorom.Error.{Result, ok, err}
use key_quorom.PrivateBridge.Store.{
  Store, PrivateBridgeRow, is_set, has_uid, with_immediate_transaction,
}
use key_quorom.PrivateBridge.Summary.{BridgeSummary, get, last_bridge_id}
use key_quorom.PrivateBridge.Removal.{member_labels}
use key_quorom.PrivateBridge.Labels.{notify_labels}
use key_quorom.PrivateBridge.Coordinator.{
  BridgeChange, BridgeChangeKind, needs_member_rotate, destroyed, change_kind, remaining_labels,
  drop_body, with_notice, drop_live, drop_from, drop_member_on_coordinator, and_then, add_change,
  drop_all, on_leaf_removed, on_member_revoked, live_uids,
}
use key_quorom.PrivateBridge.History.Rows.{insert_event-bridges}
use key_quorom.PrivateBridge.History.Later.{
  Follows, Follows-same, Follows-trans, Follows-set_destroyed, Follows-transaction,
}
use key_quorom.PrivateBridge.History.Planned.{get-IsSummary, IsSummary}

module _ (now : ℕ) where
  -- The bridge of the uid is live.
  drop_body-Follows :
      (s : Store) (uid : Bytes) (id : ℕ) (label : Bytes) (kind : BridgeChangeKind)
      (row : PrivateBridgeRow) (t : Store)
      → select (has_uid uid) s.bridges ≡ some row
      → is_set row.destroyed_at ≡ false
      → drop_body now s uid id label kind ≡ ok t
      → Follows 0 s t
  unfolding drop_body
  drop_body-Follows s uid id label needs_member_rotate row t found live h =
      Follows-same 0 s t (insert_event-bridges _ id "member_removed" t h)
  drop_body-Follows s uid id label destroyed row t found live h =
      Follows-set_destroyed 0 s t (has_uid uid) now
        (λ r u f y.
          let from_u = (bytes_iff r.uid u).0 (select_sound (has_uid u) s.bridges f) in
          let from_uid = (bytes_iff r.uid uid).0 y in
          let f' : select (has_uid uid) s.bridges ≡ some r = rw (sym from_u ∙ from_uid) at f in
          rw (some-injective (sym f' ∙ found)) live)
        (insert_event-bridges _ id "destroyed" t h)

  with_notice-Follows :
      (s : Store) (uid label : Bytes) (remaining notify : List Bytes)
      (p : Result (Unit {0}) × Store)
      → Follows 0 s p.1
      → Follows 0 s (with_notice uid label remaining notify p).1
  with_notice-Follows s uid label remaining notify (err e, t) f = f
  with_notice-Follows s uid label remaining notify (ok u, t) f = f

  drop_live-Follows :
      (s : Store) (uid label : Bytes) (remaining notify : List Bytes) (row : PrivateBridgeRow)
      (m : Result ℕ)
      → select (has_uid uid) s.bridges ≡ some row
      → is_set row.destroyed_at ≡ false
      → Follows 0 s (drop_live now s uid label remaining notify m).1
  drop_live-Follows s uid label remaining notify row (err e) found live = Follows-same 0 s s refl
  drop_live-Follows s uid label remaining notify row (ok id) found live =
      with_notice-Follows s uid label remaining notify
        (with_immediate_transaction s (drop_body now s uid id label (change_kind remaining)))
        (Follows-transaction 0 s _
          λ t h. drop_body-Follows s uid id label (change_kind remaining) row t found live h)

  drop_from-Follows :
      (s : Store) (uid label : Bytes) (m : Result BridgeSummary)
      → ((summary : BridgeSummary) → m ≡ ok summary → IsSummary s uid summary)
      → Follows 0 s (drop_from now s uid label m).1
  drop_from-Follows s uid label (err e) reads = Follows-same 0 s s refl
  drop_from-Follows s uid label (ok summary) reads = elim (Bool-cases summary.destroyed) [
    | inl y ↦ rw (y, drop_from) (Follows-same 0 s s refl)
    | inr n ↦
        let r = reads summary refl in
        rw (n, drop_from)
          (drop_live-Follows s uid label (remaining_labels label (member_labels summary.parties))
            (notify_labels (member_labels summary.parties)) r.row (last_bridge_id s uid) r.found
            (sym r.destroyed ∙ n))
  ]

  pub drop_member_on_coordinator-Follows :
      (s : Store) (uid label : Bytes) → Follows 0 s (drop_member_on_coordinator now s uid label).1
  unfolding drop_member_on_coordinator
  drop_member_on_coordinator-Follows s uid label =
      drop_from-Follows s uid label (get s uid) (get-IsSummary s uid)

  and_then-Follows :
      (s : Store) (p : Result (Option BridgeChange) × Store)
      (next : Option BridgeChange → Store → Result (List BridgeChange) × Store)
      → Follows 0 s p.1
      → ((o : Option BridgeChange) (t : Store) → Follows 0 t (next o t).1)
      → Follows 0 s (and_then p next).1
  and_then-Follows s (err e, t) next f g = f
  and_then-Follows s (ok o, t) next f g = Follows-trans 0 0 s t (next o t).1 f (g o t)

  drop_all-Follows :
      (s : Store) (uids : List Bytes) (label : Bytes) (changes : List BridgeChange)
      → Follows 0 s (drop_all now s uids label changes).1
  unfolding drop_all
  drop_all-Follows s [] label changes = Follows-same 0 s s refl
  drop_all-Follows s (uid ∷ uids) label changes =
      and_then-Follows s (drop_member_on_coordinator now s uid label) _
        (drop_member_on_coordinator-Follows s uid label)
        (λ o t. drop_all-Follows t uids label (add_change o changes))

  pub on_leaf_removed-Follows :
      (s : Store) (key_id : ℕ) (label : Bytes) → Follows 0 s (on_leaf_removed now s key_id label).1
  unfolding on_leaf_removed
  on_leaf_removed-Follows s key_id label =
      drop_all-Follows s (live_uids s.bridges s.parties (some key_id) label) label []

  pub on_member_revoked-Follows :
      (s : Store) (label : Bytes) → Follows 0 s (on_member_revoked now s label).1
  unfolding on_member_revoked
  on_member_revoked-Follows s label =
      drop_all-Follows s (live_uids s.bridges s.parties none label) label []
