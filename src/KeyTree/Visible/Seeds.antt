-- ===== src/KeyTree/Visible/Seeds.antt =====
-- The first loop of the visible labels, over the seeds, and what it leaves (src/key_tree.rs).
use key_quorom.Prelude.{
  some-injective, ℕ, String, ◌+◌, ◌≤◌, ◌≡◌, refl, sym, ap, ◌∙◌, true, Option, some, List, [], ◌∷◌,
  Bool-cases, inl, inr, arith, length,
}
use key_quorom.Prelude.Equality.{◌≟◌, string_eq, ◌∈◌}
use text.Mathlib.TextEquality.{eq_iff}
use key_quorom.KeyTree.Visible.{is_entry, add_seeds}
use key_quorom.KeyTree.Visible.Walk.{missing_le, walk_ends}
use key_quorom.KeyTree.Visible.Closed.{Maps, Closed, but_none, descend, siblings_end}

∈-only : (a : String) (xs : List String) → a ∈ xs → (x : String) → x ∈ a ∷ [] → x ∈ xs
∈-only a xs here x m = elim (Bool-cases (a ≟ x)) [
  | inl same ↦ rw (sym ((eq_iff a x).0 same)) here
  | inr other ↦ absurd (cc (rw other at m))
]

tail_of : (a x : String) (xs : List String) → x ∈ a ∷ xs → (a ≡ x → ⊥) → x ∈ xs
tail_of a x xs m apart = elim (Bool-cases (a ≟ x)) [
  | inl same ↦ absurd (apart ((eq_iff a x).0 same))
  | inr other ↦ rw other at m
]

module _ (known : List String) (parent_of : String → Option (Option String))
    (children : String → List String) (maps : Maps known parent_of children)
    (links : List (String × String)) where
  -- What one seed of the maps adds.
  record Seeded (fuel : ℕ) (seed : String) (visible : List String) : Type 0 where
    mid : List String
    step :
        (seeds : List String)
        → add_seeds parent_of children links fuel (seed ∷ seeds) visible
          ≡ add_seeds parent_of children links fuel seeds mid
    grows : (x : String) → x ∈ visible → x ∈ mid
    closed : Closed known parent_of children maps links mid
    has : seed ∈ mid

  seed_end :
      (fuel : ℕ) (seed : String) (visible : List String)
      → is_entry (parent_of seed) ≡ true
      → Closed known parent_of children maps links visible
      → length known + 1 ≤ fuel
      → Seeded fuel seed visible
  unfolding add_seeds
  seed_end fuel seed visible entry closed enough =
      let small = missing_le known [] in
      let walk =
        walk_ends known parent_of maps.parents children links fuel (some seed) [] visible
          (λ l e. rw (sym (some-injective e)) (maps.entries seed entry)) (λ x m. absurd (cc m))
          (λ x p m e. inl (closed x p m e)) (omega (arith, small)) in
      let at = walk.start seed refl in
      let room = missing_le known walk.out in
      let down =
        descend known parent_of children maps links fuel (seed ∷ []) walk.out
          (∈-only seed walk.out at)
          (but_none known parent_of children maps links walk.out walk.closed)
          (omega (arith, room)) in
      let beside =
        siblings_end known parent_of children maps links seed down.out (down.grows seed at)
          down.closed in
      record {
        mid = beside.out;
        step = λ seeds.
            rw (entry, walk.returns, down.returns, some-injective beside.returns, add_seeds) refl;
        grows = λ x m. beside.grows x (down.grows x (walk.grows x m));
        closed = beside.closed;
        has = beside.grows seed (down.grows seed at);
      }

  -- The first loop ends and leaves a set that is closed under parents and holds the seeds.
  pub seeds_end :
      (fuel : ℕ) (seeds visible : List String)
      → Closed known parent_of children maps links visible
      → length known + 1 ≤ fuel
      → (out : List String) × (add_seeds parent_of children links fuel seeds visible ≡ some out)
        × ((x : String) → x ∈ visible → x ∈ out)
        × Closed known parent_of children maps links out
        × ((x : String) → x ∈ seeds → is_entry (parent_of x) ≡ true → x ∈ out)
  unfolding add_seeds
  seeds_end fuel [] visible closed enough = (visible, refl, λ x m. m, closed, λ x m. absurd (cc m))
  seeds_end fuel (seed ∷ seeds) visible closed enough =
      elim (Bool-cases (is_entry (parent_of seed))) [
        | inr stranger ↦
            let (out, e, old, done, all) = seeds_end fuel seeds visible closed enough in
            (
              out,
              rw stranger e,
              old,
              done,
              λ x m entry.
                  all x
                    (tail_of seed x seeds m
                      (λ same. cc (ap (λ y. is_entry (parent_of y)) same, stranger, entry)))
                    entry,
            )
        | inl entry ↦
            let one = seed_end fuel seed visible entry closed enough in
            let (out, e, old, done, all) = seeds_end fuel seeds one.mid one.closed enough in
            (
              out,
              one.step seeds ∙ e,
              λ x m. old x (one.grows x m),
              done,
              λ x m entry. elim (Bool-cases (seed ≟ x)) [
                | inl same ↦ rw (sym ((eq_iff seed x).0 same)) (old seed one.has)
                | inr other ↦ all x (rw other at m) entry
              ],
            )
      ]
