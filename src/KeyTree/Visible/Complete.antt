-- ===== src/KeyTree/Visible/Complete.antt =====
-- Following links to a fixed point ends (src/key_tree.rs).
use key_quorom.Prelude.{
  some-injective, ℕ, zero, suc, String, ◌+◌, ◌≤◌, ◌≡◌, refl, sym, ◌∙◌, Bool, true, false, Option,
  none, some, List, [], ◌∷◌, if◌then◌else◌, Bool-cases, inl, inr, arith, length,
}
use key_quorom.Prelude.Equality.{string_eq, contains, ◌∈◌}
use key_quorom.KeyTree.Visible.{
  flatten, remember, is_entry, walk_ancestors, follow_links, grow, visible_from_maps,
}
use key_quorom.KeyTree.Visible.Walk.{missing, missing_le, walk_ends}
use key_quorom.KeyTree.Visible.Closed.{LinksKnown, LinkClosed, Maps, Closed, but_none}
use key_quorom.KeyTree.Visible.Seeds.{seeds_end}

shrink_more : (grew : Bool) (a b c : ℕ) → a + (if grew then 1 else 0) ≤ b → b + 1 ≤ c → a + 1 ≤ c
shrink_more true a b c u v = omega arith
shrink_more false a b c u v = omega arith

module _ (known : List String) (parent_of : String → Option (Option String))
    (children : String → List String) (maps : Maps known parent_of children)
    (links : List (String × String)) where
  -- What a pass leaves; one that grows nothing has found the links closed.
  record Followed (visible : List String) (ls : List (String × String))
      (pass : Option (List String × Bool)) : Type 0 where
    out : List String
    grew : Bool
    returns : pass ≡ some (out, grew)
    grows : (x : String) → x ∈ visible → x ∈ out
    closed : Closed known parent_of children maps links out
    shrinks : missing known out + (if grew then 1 else 0) ≤ missing known visible
    still : grew ≡ false → (out ≡ visible) × LinkClosed visible ls

  -- The walk from an end that is not visible, and the rest of the pass.
  walk_and_follow :
      (fuel : ℕ) (l a b : String) (visible : List String) (ls : List (String × String))
      → l ∈ known
      → contains visible l ≡ false
      → Closed known parent_of children maps links visible
      → length known + 1 ≤ fuel
      → ((visible' : List String)
          → Closed known parent_of children maps links visible'
          → Followed visible' ls (follow_links parent_of children links fuel ls visible'))
      → Followed visible
          ((a, b) ∷ ls)
          (elim (walk_ancestors parent_of children links fuel (some l) [] visible) [
            | none ↦ none
            | some (visible', grew) ↦
                remember grew (follow_links parent_of children links fuel ls visible')
          ])
  walk_and_follow fuel l a b visible ls m out closed enough follow =
      let small = missing_le known [] in
      let walk =
        walk_ends known parent_of maps.parents children links fuel (some l) [] visible
          (λ x e. rw (sym (some-injective e)) m) (λ x m. absurd (cc m))
          (λ x p m e. inl (closed x p m e)) (omega (arith, small)) in
      let new = walk.fresh l refl out in
      let rest =
        follow walk.out (but_none known parent_of children maps links walk.out walk.closed) in
      let less : missing known walk.out + 1 ≤ missing known visible = rw new at walk.shrinks in
      record {
        out = rest.out;
        grew = true;
        returns = rw (walk.returns, new, rest.returns) refl;
        grows = λ x m. rest.grows x (walk.grows x m);
        closed = rest.closed;
        shrinks = shrink_more rest.grew _ _ _ rest.shrinks less;
        still = λ e. absurd (cc e);
      }

  same_still :
      (a b : String) (visible : List String) (ls : List (String × String))
      {pass : Option (List String × Bool)}
      → contains visible a ≡ contains visible b
      → Followed visible ls pass
      → Followed visible ((a, b) ∷ ls) pass
  same_still a b visible ls same rest = record {
    out = rest.out;
    grew = rest.grew;
    returns = rest.returns;
    grows = rest.grows;
    closed = rest.closed;
    shrinks = rest.shrinks;
    still = λ e. ((rest.still e).0, (same, (rest.still e).1));
  }

  follow_lem :
      (fuel : ℕ) (ls : List (String × String)) (visible : List String)
      → LinksKnown known ls
      → Closed known parent_of children maps links visible
      → length known + 1 ≤ fuel
      → Followed visible ls (follow_links parent_of children links fuel ls visible)
  unfolding follow_links
  follow_lem fuel [] visible in_known closed enough = record {
    out = visible;
    grew = false;
    returns = refl;
    grows = λ x m. m;
    closed = closed;
    shrinks = omega arith;
    still = λ e. (refl, tt);
  }
  follow_lem fuel ((a, b) ∷ ls) visible (a_known, b_known, rest_known) closed enough =
      let rest = follow_lem fuel ls visible rest_known closed enough in
      let go : (visible' : List String)
          → Closed known parent_of children maps links visible'
          → Followed visible' ls (follow_links parent_of children links fuel ls visible') =
        λ visible' c. follow_lem fuel ls visible' rest_known c enough in
      elim (Bool-cases (contains visible a)) [
        | inl y ↦ elim (Bool-cases (contains visible b)) [
          | inl z ↦ rw (y, z) (same_still a b visible ls (y ∙ sym z) rest)
          | inr n ↦ rw (y, n) (walk_and_follow fuel b a b visible ls b_known n closed enough go)
        ]
        | inr y ↦ elim (Bool-cases (contains visible b)) [
          | inl z ↦ rw (y, z) (walk_and_follow fuel a a b visible ls a_known y closed enough go)
          | inr n ↦ rw (y, n) (same_still a b visible ls (y ∙ sym n) rest)
        ]
      ]

  grow_ends :
      (rounds fuel : ℕ) (visible : List String)
      → LinksKnown known links
      → Closed known parent_of children maps links visible
      → length known + 1 ≤ fuel
      → missing known visible + 1 ≤ rounds
      → (out : List String) × (grow parent_of children links rounds fuel visible ≡ some out)
        × ((x : String) → x ∈ visible → x ∈ out)
        × Closed known parent_of children maps links out
        × LinkClosed out links
  unfolding grow
  grow_ends zero fuel visible in_known closed enough rounds = absurd (omega arith)
  grow_ends (suc n) fuel visible in_known closed enough rounds =
      let pass = follow_lem fuel links visible in_known closed enough in
      elim (Bool-cases pass.grew) [
        | inl y ↦
            let less : missing known pass.out + 1 ≤ missing known visible = rw y at pass.shrinks in
            let (out, e, old, up, linked) =
              grow_ends n fuel pass.out in_known pass.closed enough (omega (arith, less)) in
            (out, rw (pass.returns, y, grow) e, λ x m. old x (pass.grows x m), up, linked)
        | inr stop ↦
            let (same, linked) = pass.still stop in
            (
              pass.out,
              rw (pass.returns, stop, grow) refl,
              pass.grows,
              pass.closed,
              rw (sym same) at linked,
            )
      ]

  -- Let `known` hold every label of the maps and the links, and each listed child have its parent
  -- in the map of parents. With fuel for one label more than `known` has, the computation of the
  -- visible labels ends; and the result holds every seed that the maps know, with each label the
  -- parent of that label, and of each link both ends or neither.
  pub visible_from_maps_lem :
      (fuel : ℕ) (seeds : List String)
      → LinksKnown known links
      → length known + 1 ≤ fuel
      → (visible : List String) × (visible_from_maps parent_of children links fuel seeds
          ≡ some visible)
        × ((x : String) → x ∈ seeds → is_entry (parent_of x) ≡ true → x ∈ visible)
        × ((x p : String) → x ∈ visible → flatten (parent_of x) ≡ some p → p ∈ visible)
        × LinkClosed visible links
  unfolding visible_from_maps
  visible_from_maps_lem fuel seeds in_known enough =
      let (first, e, old, up, held) =
        seeds_end known parent_of children maps links fuel seeds [] (λ x p m. absurd (cc m))
          enough in
      let room = missing_le known first in
      let (out, e', older, up', linked) =
        grow_ends fuel fuel first in_known up enough (omega (arith, room)) in
      (out, rw (e, e', visible_from_maps) refl, λ x m entry. older x (held x m entry), up', linked)
