-- ===== src/KeyTree/Visible/Closed.antt =====
-- What a set of seeds makes visible is complete (src/key_tree.rs).
use key_quorom.Prelude.{
  some-injective, ℕ, zero, suc, String, ◌+◌, ◌≤◌, ◌≡◌, refl, sym, true, Option, none, some, List,
  [], ◌∷◌, Bool-cases, Option-cases, inl, inr, arith, length,
}
use key_quorom.Prelude.Equality.{◌≟◌, string_eq, contains, ◌∈◌, ∈-here, ∈-there, ∈-both}
use text.Mathlib.TextEquality.{eq_iff}
use key_quorom.KeyTree.Visible.{
  flatten, is_entry, push_children, add_descendants, insert_all, siblings,
}
use key_quorom.KeyTree.Visible.Walk.{missing, missing_less, ClosedBut}

-- A finite set of labels that holds every label the maps and links mention, and parents and
-- children that agree.
abbrev pub LinksKnown : List String → List (String × String) → Type 0
LinksKnown known [] = Unit
LinksKnown known ((a, b) ∷ rest) = (a ∈ known) × (b ∈ known) × LinksKnown known rest

-- Each link joins two visible labels or two others.
abbrev pub LinkClosed : List String → List (String × String) → Type 0
LinkClosed visible [] = Unit
LinkClosed visible ((a, b) ∷ rest) =
    (contains visible a ≡ contains visible b) × LinkClosed visible rest

pub record Maps (known : List String) (parent_of : String → Option (Option String))
    (children : String → List String) : Type 0 where
  pub parents : (l p : String) → flatten (parent_of l) ≡ some p → p ∈ known
  pub entries : (l : String) → is_entry (parent_of l) ≡ true → l ∈ known
  pub below : (l c : String) → c ∈ children l → (c ∈ known) × (flatten (parent_of c) ≡ some l)

module _ (known : List String) (parent_of : String → Option (Option String))
    (children : String → List String) (maps : Maps known parent_of children)
    (links : List (String × String)) where
  -- Each visible label's parent is visible.
  abbrev pub Closed : List String → Type 0
  Closed visible = (x p : String) → x ∈ visible → flatten (parent_of x) ≡ some p → p ∈ visible

  pub but_none :
      (visible : List String) → ClosedBut known parent_of maps.parents none visible → Closed visible
  but_none visible closed x p m e = elim (closed x p m e) [ inl v ↦ v | inr is ↦ absurd (cc is) ]

  -- A child of a visible label may be added.
  child-Closed :
      (l c : String) (visible : List String)
      → flatten (parent_of c) ≡ some l
      → l ∈ visible
      → Closed visible
      → Closed (c ∷ visible)
  child-Closed l c visible parent above closed x p m e = elim (Bool-cases (c ≟ x)) [
    | inl same ↦
        let same' = (eq_iff c x).0 same in
        let is : some l ≡ some p = cc (same', parent, e) in
        ∈-there p c visible (rw (sym (some-injective is)) above)
    | inr other ↦
        let m' : x ∈ visible = rw other at m in let v = closed x p m' e in ∈-there p c visible v
  ]

  record Pushed (visible stack : List String) (result : List String × List String) : Type 0 where
    grows : (x : String) → x ∈ visible → x ∈ result.0
    stacked : (x : String) → x ∈ result.1 → x ∈ result.0
    closed : Closed result.0
    counted : missing known result.0 + length result.1 ≤ missing known visible + length stack

  push_lem :
      (l : String) (cs visible stack : List String)
      → ((c : String) → c ∈ cs → (c ∈ known) × (flatten (parent_of c) ≡ some l))
      → l ∈ visible
      → ((x : String) → x ∈ stack → x ∈ visible)
      → Closed visible
      → Pushed visible stack (push_children cs visible stack)
  unfolding push_children
  push_lem l [] visible stack are above on closed = record {
    grows = λ x m. m;
    stacked = on;
    closed = closed;
    counted = omega arith;
  }
  push_lem l (c ∷ cs) visible stack are above on closed =
      let (c_known, parent) = are c (∈-here c cs) in
      let are' : (d : String) → d ∈ cs → (d ∈ known) × (flatten (parent_of d) ≡ some l) =
        λ d m. are d (∈-there d c cs m) in
      elim (Bool-cases (contains visible c)) [
        | inl y ↦ rw y (push_lem l cs visible stack are' above on closed)
        | inr n ↦
            let less = missing_less known c visible c_known n in
            let rest =
              push_lem l cs (c ∷ visible) (c ∷ stack) are' (∈-there l c visible above)
                (∈-both c stack visible on) (child-Closed l c visible parent above closed) in
            rw n (record {
              grows = λ x m. rest.grows x (∈-there x c visible m);
              stacked = rest.stacked;
              closed = rest.closed;
              counted = omega (arith, less, rest.counted);
            })
      ]

  pub record Below (visible : List String) (result : Option (List String)) : Type 0 where
    pub out : List String
    pub returns : result ≡ some out
    pub grows : (x : String) → x ∈ visible → x ∈ out
    pub closed : Closed out

  pub descend :
      (fuel : ℕ) (stack visible : List String)
      → ((x : String) → x ∈ stack → x ∈ visible)
      → Closed visible
      → missing known visible + length stack ≤ fuel
      → Below visible (add_descendants parent_of children links fuel stack visible)
  unfolding add_descendants
  descend fuel [] visible on closed enough = record {
    out = visible;
    returns = refl;
    grows = λ x m. m;
    closed = closed;
  }
  descend zero (l ∷ stack) visible on closed enough = absurd (omega arith)
  descend (suc fuel) (l ∷ stack) visible on closed enough =
      let pushed =
        push_lem l (children l) visible stack (maps.below l) (on l (∈-here l stack))
          (λ x m. on x (∈-there x l stack m)) closed in
      let rest =
        descend fuel (push_children (children l) visible stack).1
          (push_children (children l) visible stack).0 pushed.stacked pushed.closed
          (omega (arith, pushed.counted)) in
      record {
        out = rest.out;
        returns = rest.returns;
        grows = λ x m. rest.grows x (pushed.grows x m);
        closed = rest.closed;
      }

  insert_siblings :
      (p : String) (cs visible : List String)
      → ((c : String) → c ∈ cs → (c ∈ known) × (flatten (parent_of c) ≡ some p))
      → p ∈ visible
      → Closed visible
      → Below visible (some (insert_all parent_of children links cs visible))
  insert_siblings p [] visible are above closed = record {
    out = visible;
    returns = refl;
    grows = λ x m. m;
    closed = closed;
  }
  insert_siblings p (c ∷ cs) visible are above closed =
      let (c_known, parent) = are c (∈-here c cs) in
      let are' : (d : String) → d ∈ cs → (d ∈ known) × (flatten (parent_of d) ≡ some p) =
        λ d m. are d (∈-there d c cs m) in
      elim (Bool-cases (contains visible c)) [
        | inl y ↦ rw y (insert_siblings p cs visible are' above closed)
        | inr n ↦
            let less = missing_less known c visible c_known n in
            let rest =
              insert_siblings p cs (c ∷ visible) are' (∈-there p c visible above)
                (child-Closed p c visible parent above closed) in
            rw n (record {
              out = rest.out;
              returns = rest.returns;
              grows = λ x m. rest.grows x (∈-there x c visible m);
              closed = rest.closed;
            })
      ]

  pub siblings_end :
      (seed : String) (visible : List String)
      → seed ∈ visible
      → Closed visible
      → Below visible (
          some (
            insert_all parent_of children links
              (siblings parent_of children links (flatten (parent_of seed)))
              visible))
  siblings_end seed visible m closed = elim (Option-cases (flatten (parent_of seed))) [
    | inl none_above ↦
        rw none_above (record { out = visible; returns = refl; grows = λ x m. m; closed = closed })
    | inr (p, above) ↦
        rw above
          (insert_siblings p (children p) visible (maps.below p) (closed seed p m above) closed)
  ]
