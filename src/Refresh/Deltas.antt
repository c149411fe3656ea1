-- ===== src/Refresh/Deltas.antt =====
-- The deltas of a round of src/pss.rs: one for each of the shares' x-coordinates.
use key_quorom.Prelude.{
  ℕ, ◌<◌, Bytes, ◌≡◌, ◌≢◌, true, not, ◌||◌, ◌==◌, some, List, [], ◌∷◌, arith, ltb, length, take,
  Bool-cases, inl, inr,
}
use key_quorom.Prelude.Equality.{nat_eq, contains, insert, contains-insert}
use key_quorom.Error.{ok, ok-injective, >>=-elim, guard-elim}
use key_quorom.Refresh.{
  share_x, ByX, find_x, wanted_xs, collect_by_x, repeat_zero, generate_zero_deltas,
  require_distinct_nonzero_xs, is_empty,
}
use key_quorom.Refresh.Entries.{
  IsIn, IsDistinct, HasX, collect_by_x-IsDistinct, collect_by_x-IsIn, collect_by_x-HasX_share,
}

contains-wanted_xs_old :
    (xs acc : List ℕ) (x : ℕ) → contains acc x ≡ true → contains (wanted_xs xs acc) x ≡ true
unfolding wanted_xs
contains-wanted_xs_old [] acc x h = h
contains-wanted_xs_old (y ∷ xs) acc x h =
    contains-wanted_xs_old xs (insert y acc) x (rw (contains-insert y x acc) (ground arith))

contains-wanted_xs :
    (xs acc : List ℕ) (x : ℕ) → contains xs x ≡ true → contains (wanted_xs xs acc) x ≡ true
unfolding wanted_xs
contains-wanted_xs [] acc x h = absurd (cc h)
contains-wanted_xs (y ∷ xs) acc x h = elim (Bool-cases (y == x)) [
  | inl e ↦ contains-wanted_xs_old xs (insert y acc) x (rw (contains-insert y x acc) (ground arith))
  | inr n ↦ contains-wanted_xs xs (insert y acc) x (rw n at h)
]

module _ (deal : ℕ → Bytes → Bytes → List Bytes) where
  -- The shares that a round deals.
  abbrev pub dealt : ℕ → ℕ → Bytes → List Bytes
  dealt threshold secret_len random = take 255 (deal threshold (repeat_zero secret_len) random)

  -- There is a share at every x-coordinate but 0.
  abbrev pub DealsAll : Type 0
  DealsAll =
      (threshold secret_len : ℕ) (random : Bytes) (x : ℕ)
      → x ≢ 0
      → x < 256
      → (share : Bytes) × IsIn share (dealt threshold secret_len random) × (share_x share ≡ x)

  pub generate_zero_deltas_lem :
      (threshold secret_len : ℕ) (xs : List ℕ) (random : Bytes) (deltas : ByX)
      → DealsAll
      → generate_zero_deltas deal threshold secret_len xs random ≡ ok deltas
      → IsDistinct deltas
        × ((x : ℕ) → contains xs x ≡ true → x ≢ 0 → x < 256 → HasX deltas x)
        × ((x : ℕ) (d : Bytes)
            → find_x x deltas ≡ some d
            → IsIn d (dealt threshold secret_len random))
  unfolding generate_zero_deltas find_x
  generate_zero_deltas_lem threshold secret_len xs random deltas all h0 =
      guard-elim (not (ltb threshold 2 || (secret_len == 0 || is_empty xs))) _ _ h0 λ _ h1.
        >>=-elim (require_distinct_nonzero_xs xs) _ h1 λ _ _ h2.
          guard-elim
            (length (collect_by_x (wanted_xs xs []) (dealt threshold secret_len random) [])
              == length (wanted_xs xs []))
            _ _ h2
            λ _ h3.
              let wanted = wanted_xs xs [] in
              let shares = dealt threshold secret_len random in
              let made : collect_by_x wanted shares [] ≡ deltas = ok-injective h3 in
              (
                rw (← made) (collect_by_x-IsDistinct wanted shares [] tt),
                λ x i nonzero small.
                    let (share, mem, same) = all threshold secret_len random x nonzero small in
                    let w : contains wanted (share_x share) ≡ true =
                      rw same (contains-wanted_xs xs [] x i) in
                    rw (← made) (rw same at (collect_by_x-HasX_share wanted shares [] share w mem)),
                λ x d found.
                    collect_by_x-IsIn wanted shares shares [] x d (λ s i. i) (λ d h. absurd (cc h))
                      (rw (← made) at found),
              )
