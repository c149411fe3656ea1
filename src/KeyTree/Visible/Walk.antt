-- ===== src/KeyTree/Visible/Walk.antt =====
-- The walk to the root ends, and what it leaves visible (src/key_tree.rs).
use key_quorom.Prelude.{
  some-injective, ℕ, zero, suc, String, ◌+◌, ◌≤◌, ◌≡◌, ◌⊎◌, refl, sym, Bool, true, false, not, ◌||◌,
  Option, none, some, List, [], ◌∷◌, if◌then◌else◌, Bool-cases, inl, inr, arith, length,
}
use key_quorom.Prelude.Equality.{◌≟◌, string_eq, contains, insert, contains-insert, ◌∈◌}
use key_quorom.Prelude.Sql.{count_where}
use text.Mathlib.TextEquality.{eq_iff}
use key_quorom.KeyTree.Visible.{flatten, walk_ancestors}

-- How many of the known labels are not in a set.
unfoldable pub missing : List String → List String → ℕ
unfolding count_where
missing known visible = count_where (λ l. not (contains visible l)) known

pub missing_le : (known visible : List String) → missing known visible ≤ length known
unfolding missing count_where
missing_le [] visible = omega arith
missing_le (k ∷ ks) visible = ground (arith, missing_le ks visible)

missing_more :
    (known : List String) (l : String) (visible : List String)
    → missing known (l ∷ visible) ≤ missing known visible
unfolding missing count_where
missing_more [] l visible = omega arith
missing_more (k ∷ ks) l visible = ground (arith, missing_more ks l visible)

pub missing_less :
    (known : List String) (l : String) (visible : List String)
    → l ∈ known
    → contains visible l ≡ false
    → suc (missing known (l ∷ visible)) ≤ missing known visible
unfolding missing count_where
missing_less [] l visible m out = cc
missing_less (k ∷ ks) l visible m out =
    ground (arith, missing_more ks l visible, missing_less ks l visible, eq_iff k l, eq_iff l k)

old_one :
    (l x : String) (visible : List String) → x ∈ insert l visible → (l ≟ x) ≡ false → x ∈ visible
old_one l x visible m other = ground (arith, contains-insert l x visible)

pub grown : (l x : String) (visible : List String) → x ∈ visible → x ∈ insert l visible
grown l x visible m = rw (contains-insert l x visible, m) (ground arith)

pub itself : (l : String) (visible : List String) → l ∈ insert l visible
itself l visible = rw (contains-insert l l visible, (eq_iff l l).1 refl) refl

-- A step of the walk leaves fewer labels that it has not seen, and no more that are not visible.
missing-insert :
    (known : List String) (l : String) (visible : List String)
    → l ∈ known
    → missing known (insert l visible) + (if not (contains visible l) then 1 else 0)
      ≤ missing known visible
missing-insert known l visible m = elim (Bool-cases (contains visible l)) [
  | inl y ↦ rw y (omega arith)
  | inr n ↦ rw n (omega (arith, missing_less known l visible m n))
]

counted_or :
    (was grew : Bool) (a b c : ℕ)
    → a + (if grew then 1 else 0) ≤ b
    → b + (if not was then 1 else 0) ≤ c
    → a + (if not was || grew then 1 else 0) ≤ c
counted_or true true a b c u v = omega arith
counted_or true false a b c u v = omega arith
counted_or false true a b c u v = omega arith
counted_or false false a b c u v = omega arith

old_all :
    (l : String) (seen visible : List String)
    → ((x : String) → x ∈ seen → x ∈ visible)
    → (x : String) → x ∈ l ∷ seen
    → x ∈ insert l visible
old_all l seen visible old x m = elim (Bool-cases (l ≟ x)) [
  | inl same ↦ rw (sym ((eq_iff l x).0 same)) (itself l visible)
  | inr other ↦ grown l x visible (old x (rw other at m))
]

module _ (known : List String) (parent_of : String → Option (Option String))
    (in_known : (l p : String) → flatten (parent_of l) ≡ some p → p ∈ known) where
  -- Each visible label's parent is visible, but for `cur`.
  abbrev pub ClosedBut : Option String → List String → Type 0
  ClosedBut cur visible =
      (x p : String) → x ∈ visible → flatten (parent_of x) ≡ some p → (p ∈ visible) ⊎ (cur ≡ some p)

  pub record Walked (cur : Option String) (visible : List String)
      (walk : Option (List String × Bool)) : Type 0 where
    pub out : List String
    pub grew : Bool
    pub returns : walk ≡ some (out, grew)
    pub grows : (x : String) → x ∈ visible → x ∈ out
    pub closed : ClosedBut none out
    pub start : (l : String) → cur ≡ some l → l ∈ out
    pub fresh : (l : String) → cur ≡ some l → contains visible l ≡ false → grew ≡ true
    pub shrinks : missing known out + (if grew then 1 else 0) ≤ missing known visible

  step_closed :
      (l : String) (visible : List String)
      → ClosedBut (some l) visible
      → ClosedBut (flatten (parent_of l)) (insert l visible)
  step_closed l visible closed x p m e = elim (Bool-cases (l ≟ x)) [
    | inl same ↦ inr (rw (sym ((eq_iff l x).0 same)) at e)
    | inr other ↦
        let m' : x ∈ visible = old_one l x visible m other in
        elim (closed x p m' e) [
          | inl v ↦ inl (grown l p visible v)
          | inr is ↦ inl (rw (sym (some-injective is)) (itself l visible))
        ]
  ]

  module _ (children : String → List String) (links : List (String × String)) where
    pub walk_ends :
        (fuel : ℕ) (cur : Option String) (seen visible : List String)
        → ((l : String) → cur ≡ some l → l ∈ known)
        → ((x : String) → x ∈ seen → x ∈ visible)
        → ClosedBut cur visible
        → missing known seen + 1 ≤ fuel
        → Walked cur visible (walk_ancestors parent_of children links fuel cur seen visible)
    unfolding walk_ancestors
    walk_ends fuel none seen visible at old closed enough = record {
      out = visible;
      grew = false;
      returns = refl;
      grows = λ x m. m;
      closed = closed;
      start = λ l e. cc;
      fresh = λ l e. cc;
      shrinks = omega arith;
    }
    walk_ends zero (some l) seen visible at old closed enough = absurd (omega arith)
    walk_ends (suc fuel) (some l) seen visible at old closed enough =
        elim (Bool-cases (contains seen l)) [
          | inl again ↦ record {
            out = visible;
            grew = false;
            returns = rw again refl;
            grows = λ x m. m;
            closed = λ x p m e. elim (closed x p m e) [
              | inl v ↦ inl v
              | inr is ↦ inl (rw (sym (some-injective is)) (old l again))
            ];
            start = λ x is. rw (sym (some-injective is)) (old l again);
            fresh = λ x is out. absurd (cc (old l again, is, out));
            shrinks = omega arith;
          }
          | inr new ↦
              let less = missing_less known l seen (at l refl) new in
              let rest =
                walk_ends fuel (flatten (parent_of l)) (l ∷ seen) (insert l visible)
                  (λ p e. in_known l p e) (old_all l seen visible old)
                  (step_closed l visible closed) (omega arith) in
              let counted = missing-insert known l visible (at l refl) in
              record {
                out = rest.out;
                grew = not (contains visible l) || rest.grew;
                returns = rw (new, rest.returns) refl;
                grows = λ x m. rest.grows x (grown l x visible m);
                closed = rest.closed;
                start = λ x is. rw (sym (some-injective is)) (rest.grows l (itself l visible));
                fresh = λ x is out. rw (some-injective is, out) refl;
                shrinks =
                    counted_or (contains visible l) rest.grew (missing known rest.out) _ _
                      rest.shrinks counted;
              }
        ]
