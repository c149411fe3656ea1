-- ===== src/KeyTree/Spec/Labels.antt =====
-- The checks of labels and bridges in `validate` (src/key_tree.rs), one label after the other.
use mathlib.Core.Path.{fun_ext}
use text.Mathlib.TextEquality.{eq_iff}
use key_quorom.Prelude.{
  String, ◌≡◌, ◌≢◌, ◌↔◌, refl, sym, ap, ◌∙◌, Bool, false, ◌||◌, List, [], ◌∷◌, ◌++◌, arith,
}
use key_quorom.Prelude.Equality.{◌≟◌, string_eq, contains}
use key_quorom.Error.{Result, ok, err, ok-injective, bind_ok, ◌>>=◌, ◌>>◌, >>=-elim}
use key_quorom.KeyTree.Spec.{
  NodeSpec, NodeSpecs, leaf, split, nil, cons, see, collect_labels, collect_all_labels, check_peers,
  validate_bridges, validate_all_bridges,
}
use key_quorom.KeyTree.Spec.Valid.{
  labels, all_labels, Distinct, AllNonempty, PeersKnown, Bridged, AllBridged,
}

-- `collect_labels` sees the labels one after the other.
see_all : List String → List String → Result (List String)
see_all [] seen = ok seen
see_all (l ∷ ls) seen = see l seen >>= see_all ls

see_all-append :
    (ls ms seen : List String) → see_all (ls ++ ms) seen ≡ (see_all ls seen >>= see_all ms)
unfolding see_all
see_all-append [] ms seen = refl
see_all-append (l ∷ ls) ms seen = go (see_all-append ls ms) (see l seen)
  where
    go :
        ((s : List String) → see_all (ls ++ ms) s ≡ (see_all ls s >>= see_all ms))
        → (r : Result (List String))
        → (r >>= see_all (ls ++ ms)) ≡ ((r >>= see_all ls) >>= see_all ms)
    go ih (ok s) = ih s
    go ih (err e) = refl

mutual
  unfolding collect_labels see_all

  collect-see_all :
      (s : NodeSpec) (seen : List String) → collect_labels s seen ≡ see_all (labels s) seen
  collect-see_all (leaf l k bs) seen = sym (bind_ok (see l seen))
  collect-see_all (split l t cs bs) seen =
      ap (λ f. see l seen >>= f) (fun_ext (collect_all-see_all cs))

  collect_all-see_all :
      (cs : NodeSpecs) (seen : List String)
      → collect_all_labels cs seen ≡ see_all (all_labels cs) seen
  collect_all-see_all nil seen = refl
  collect_all-see_all (cons c cs) seen =
      rw (see_all-append (labels c) (all_labels cs) seen, collect-see_all c seen)
        (ap (λ f. see_all (labels c) seen >>= f) (fun_ext (collect_all-see_all cs)))

-- None of the labels was seen before.
abbrev Unseen : List String → List String → Type 0
Unseen seen [] = Unit
Unseen seen (l ∷ ls) = (contains seen l ≡ false) × Unseen seen ls

see-eq-ok :
    (l : String) (seen s : List String)
    → see l seen ≡ ok s
    → (l ≢ "") × (contains seen l ≡ false) × (s ≡ l ∷ seen)
unfolding see
see-eq-ok l seen s h = ground (arith, eq_iff l "")

Unseen-cons :
    (l : String) (seen ls : List String)
    → Unseen (l ∷ seen) ls
    → Unseen seen ls × (contains ls l ≡ false)
Unseen-cons l seen [] h = (tt, refl)
Unseen-cons l seen (m ∷ ls) h = ground (arith, Unseen-cons l seen ls h.1, eq_iff l m, eq_iff m l)

Unseen-cons_of :
    (l : String) (seen ls : List String)
    → Unseen seen ls
    → contains ls l ≡ false
    → Unseen (l ∷ seen) ls
Unseen-cons_of l seen [] h n = tt
Unseen-cons_of l seen (m ∷ ls) h n =
    let n' : contains ls l ≡ false = ground arith in
    (ground (arith, eq_iff l m, eq_iff m l), Unseen-cons_of l seen ls h.1 n')

or_swap : (a b c : Bool) → (a || (b || c)) ≡ ((b || a) || c)
or_swap a b c = ground arith

see_all_sound :
    (ls seen s : List String)
    → see_all ls seen ≡ ok s
    → AllNonempty ls
      × Distinct ls
      × Unseen seen ls
      × ((x : String) → contains s x ≡ (contains ls x || contains seen x))
unfolding see_all
see_all_sound [] seen s h = (tt, tt, tt, λ x. ap (λ y. contains y x) (sym (ok-injective h)))
see_all_sound (l ∷ ls) seen s h = >>=-elim (see l seen) _ h λ t e r.
    let (nonempty, new, same) = see-eq-ok l seen t e in
    let (a, b, c, d) = see_all_sound ls t s r in
    let (old, other) = Unseen-cons l seen ls (rw same at c) in
    (
      (nonempty, a),
      (other, b),
      (new, old),
      λ x.
          d x
          ∙ ap (λ y. contains ls x || contains y x) same
          ∙ or_swap (contains ls x) (l ≟ x) (contains seen x),
    )

see_all_complete :
    (ls seen : List String)
    → AllNonempty ls
    → Distinct ls
    → Unseen seen ls
    → (s : List String) × (see_all ls seen ≡ ok s)
unfolding see_all see
see_all_complete [] seen a b c = (seen, refl)
see_all_complete (l ∷ ls) seen a b c =
    let fine : (l ≟ "" || contains seen l) ≡ false = ground (arith, eq_iff l "") in
    let (s, e) = see_all_complete ls (l ∷ seen) a.1 b.1 (Unseen-cons_of l seen ls c.1 b.0) in
    (s, rw fine e)

Unseen-none : (ls : List String) → Unseen [] ls
Unseen-none [] = tt
Unseen-none (l ∷ ls) = (refl, Unseen-none ls)

-- The labels are collected exactly if none is empty and none stands twice; the set then holds the
-- labels of the specification.
pub collect_labels_sound :
    (spec : NodeSpec) (s : List String)
    → collect_labels spec [] ≡ ok s
    → AllNonempty (labels spec)
      × Distinct (labels spec)
      × ((x : String) → contains s x ≡ contains (labels spec) x)
collect_labels_sound spec s h =
    let (a, b, c, d) = see_all_sound (labels spec) [] s (rw (collect-see_all spec []) at h) in
    (a, b, λ x. d x ∙ or_false (contains (labels spec) x))
  where
    or_false : (b : Bool) → (b || false) ≡ b
    or_false b = ground arith

pub collect_labels_complete :
    (spec : NodeSpec)
    → AllNonempty (labels spec)
    → Distinct (labels spec)
    → (s : List String) × (collect_labels spec [] ≡ ok s)
collect_labels_complete spec a b =
    rw (collect-see_all spec []) (see_all_complete (labels spec) [] a b (Unseen-none _))

check_peers_iff :
    (l : String) (ls ps : List String)
    → (check_peers l ls ps ≡ ok tt) ↔ PeersKnown (contains ls) l ps
unfolding check_peers
check_peers_iff l ls [] = (λ _. tt, λ _. refl)
check_peers_iff l ls (p ∷ ps) = ground (arith, check_peers_iff l ls ps, eq_iff p l)

seq_iff {κ ν} :
    {P : Type κ} {Q : Type ν} (m k : Result (Unit {0}))
    → (m ≡ ok tt) ↔ P
    → (k ≡ ok tt) ↔ Q
    → ((m >> k) ≡ ok tt) ↔ (P × Q)
seq_iff (ok tt) k p q = (λ h. (p.0 refl, q.0 h), λ h. q.1 h.1)
seq_iff (err e) k p q = (λ h. absurd (cc h), λ h. absurd (cc (p.1 h.0)))

mutual
  unfolding validate_bridges

  pub validate_bridges_iff :
      (ls : List String) (s : NodeSpec) → (validate_bridges ls s ≡ ok tt) ↔ Bridged (contains ls) s
  validate_bridges_iff ls (leaf l k bs) = check_peers_iff l ls bs
  validate_bridges_iff ls (split l t cs bs) =
      seq_iff (check_peers l ls bs) (validate_all_bridges ls cs) (check_peers_iff l ls bs)
        (validate_all_bridges_iff ls cs)

  pub validate_all_bridges_iff :
      (ls : List String) (cs : NodeSpecs)
      → (validate_all_bridges ls cs ≡ ok tt) ↔ AllBridged (contains ls) cs
  validate_all_bridges_iff ls nil = (λ _. tt, λ _. refl)
  validate_all_bridges_iff ls (cons c cs) =
      seq_iff (validate_bridges ls c) (validate_all_bridges ls cs) (validate_bridges_iff ls c)
        (validate_all_bridges_iff ls cs)
