-- ===== src/Refresh/Tests.antt =====
-- Tests and witnesses of the proactive refresh.
use key_quorom.Prelude.{ℕ, ◌≡◌, refl, Bytes, List, [], ◌∷◌, arith, length}
use key_quorom.Error.{ok, err, share_shape_mismatch}
use key_quorom.Refresh.{
  add_shares, share_x, refresh_among, combined_deltas, same_lengths, require_distinct_nonzero_xs,
  distinct_nonzero, xs_of, blind, generate_zero_deltas, collect_by_x, wanted_xs, put_x, add_deltas,
  find_x, zero_shares, repeat_zero, xor_bytes, absorb,
}
use key_quorom.Refresh.Shape.{add_shares-add_shares, IsAligned}
use key_quorom.Refresh.Secret.{refresh_among-value}
use key_quorom.Refresh.Copies.{deal_copies, first_value, copies-IsInterpolation}

-- Shares at 1, 2 and 3 of a polynomial of degree 1 that is 0 at 0.
abbrev deal_two : ℕ → Bytes → Bytes → List Bytes
deal_two threshold secret random = (1 ∷ 6 ∷ []) ∷ (2 ∷ 12 ∷ []) ∷ (3 ∷ 10 ∷ []) ∷ []

abbrev two_shares : List Bytes
two_shares = (1 ∷ 70 ∷ []) ∷ (3 ∷ 71 ∷ []) ∷ []

abbrev three_shares : List Bytes
three_shares = (1 ∷ 70 ∷ []) ∷ (3 ∷ 71 ∷ []) ∷ (2 ∷ 5 ∷ []) ∷ []

abbrev three_part : Bytes
three_part = 3 ∷ 200 ∷ 15 ∷ []

abbrev three_sum : Bytes
three_sum = 3 ∷ 172 ∷ 240 ∷ []

add_two : add_shares three_part (3 ∷ 100 ∷ 255 ∷ []) ≡ ok three_sum
unfolding add_shares xor_bytes
add_two = refl

add_other_x : add_shares (3 ∷ 200 ∷ []) (4 ∷ 100 ∷ []) ≡ err share_shape_mismatch
unfolding add_shares
add_other_x = refl

-- Three rounds add the delta of each share three times.
refresh_three :
    refresh_among deal_two three_shares 2 (λ n. [])
    ≡ (ok tt, (1 ∷ 64 ∷ []) ∷ (3 ∷ 77 ∷ []) ∷ (2 ∷ 9 ∷ []) ∷ [])
unfolding refresh_among combined_deltas same_lengths require_distinct_nonzero_xs distinct_nonzero
    xs_of blind generate_zero_deltas collect_by_x wanted_xs put_x add_deltas find_x zero_shares
    add_shares repeat_zero xor_bytes absorb
refresh_three = refl

refresh_few : refresh_among deal_two two_shares 3 (λ n. []) ≡ (err share_shape_mismatch, two_shares)
unfolding refresh_among combined_deltas
refresh_few = refl

add_shares-add_shares_example :
    (add_shares three_sum (3 ∷ 100 ∷ 255 ∷ []) ≡ ok three_part)
    × (length three_sum ≡ length three_part)
    × (share_x three_sum ≡ share_x three_part)
add_shares-add_shares_example =
    add_shares-add_shares three_part (3 ∷ 100 ∷ 255 ∷ []) three_sum
      (omega arith, (omega arith, (omega arith, tt))) add_two

-- Two copies of the byte 70.
abbrev two_copies : List Bytes
two_copies = (1 ∷ 70 ∷ []) ∷ (3 ∷ 70 ∷ []) ∷ []

refresh_copies : refresh_among deal_copies two_copies 2 (λ n. []) ≡ (ok tt, two_copies)
unfolding refresh_among combined_deltas same_lengths require_distinct_nonzero_xs distinct_nonzero
    xs_of blind generate_zero_deltas collect_by_x wanted_xs put_x add_deltas find_x zero_shares
    add_shares repeat_zero xor_bytes absorb
refresh_copies = refl

refresh_among-value_example :
    (first_value two_copies ≡ first_value two_copies) × IsAligned two_copies two_copies
refresh_among-value_example =
    refresh_among-value deal_copies first_value copies-IsInterpolation two_copies two_copies 2
      (λ n. []) ((omega arith, (omega arith, tt)), ((omega arith, (omega arith, tt)), tt))
      refresh_copies
