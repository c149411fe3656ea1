-- ===== src/Prelude/Equality.antt =====
-- Equality tests as an interface, and membership in a list by such a test. A `HashSet` of the
-- source is a list under `contains` and `insert`.
use Prim.Native.Nat.{ℕ}
use Prim.Native.String.{String}
use mathlib.Core.Path.{◌≡◌, refl}
use mathlib.Core.Logic.{◌↔◌, inl, inr}
use mathlib.Core.Bool.{Bool, true, false, ◌||◌}
use mathlib.Core.Option.{Option, none, some}
use mathlib.Core.List.{List, [], ◌∷◌, ◌++◌}
use native.Mathlib.Omega.{arith}
use text.Mathlib.Text.{◌==◌ as str_eq}
use text.Mathlib.TextEquality.{eq_iff}
use key_quorom.Prelude.Tests.{◌==◌ as nat_beq, ==_iff, if◌then◌else◌, Bool-cases}

pub record Eq {ℓ} (A : Type ℓ) : Type ℓ where
  pub beq : A → A → Bool
  pub beq_iff : (a b : A) → (beq a b ≡ true) ↔ (a ≡ b)

infix 50 ◌≟◌
abbrev pub ◌≟◌ {ℓ} : {A : Type ℓ} ⦃e : Eq A⦄ → A → A → Bool
◌≟◌ ⦃e⦄ = e.beq

instance abbrev pub string_eq : Eq String
string_eq = record { beq = str_eq; beq_iff = eq_iff }

instance abbrev pub nat_eq : Eq ℕ
nat_eq = record { beq = nat_beq; beq_iff = ==_iff }

module _ {ℓ} {A : Type ℓ} ⦃e : Eq A⦄ where
  abbrev pub list_beq : List A → List A → Bool
  list_beq [] [] = true
  list_beq [] (y ∷ ys) = false
  list_beq (x ∷ xs) [] = false
  list_beq (x ∷ xs) (y ∷ ys) = elim (e.beq x y) [ true ↦ list_beq xs ys | false ↦ false ]

  pub list_beq_iff : (xs ys : List A) → (list_beq xs ys ≡ true) ↔ (xs ≡ ys)
  list_beq_iff [] [] = ground arith
  list_beq_iff [] (y ∷ ys) = ground arith
  list_beq_iff (x ∷ xs) [] = ground arith
  list_beq_iff (x ∷ xs) (y ∷ ys) = ground (arith, e.beq_iff x y, list_beq_iff xs ys)

  abbrev pub option_beq : Option A → Option A → Bool
  option_beq none none = true
  option_beq none (some y) = false
  option_beq (some x) none = false
  option_beq (some x) (some y) = e.beq x y

  pub option_beq_iff : (x y : Option A) → (option_beq x y ≡ true) ↔ (x ≡ y)
  option_beq_iff none none = ground arith
  option_beq_iff none (some y) = ground arith
  option_beq_iff (some x) none = ground arith
  option_beq_iff (some x) (some y) = ground (arith, e.beq_iff x y)

  pub beq_refl : (a : A) → (a ≟ a) ≡ true
  beq_refl a = (e.beq_iff a a).1 refl

  abbrev pub contains : List A → A → Bool
  contains [] a = false
  contains (x ∷ xs) a = x ≟ a || contains xs a

  -- `HashSet::insert`; whether the set grew is `not (contains xs a)`.
  abbrev pub insert : A → List A → List A
  insert a xs = if contains xs a then xs else a ∷ xs

-- `a` is one of `xs`.
infix 50 ◌∈◌
abbrev pub ◌∈◌ {ℓ} : {A : Type ℓ} ⦃e : Eq A⦄ → A → List A → Type 0
◌∈◌ ⦃e⦄ a xs = contains xs a ≡ true

instance abbrev pub list_eq {ℓ} : {A : Type ℓ} ⦃e : Eq A⦄ → Eq (List A)
list_eq = record { beq = list_beq; beq_iff = list_beq_iff }

instance abbrev pub option_eq {ℓ} : {A : Type ℓ} ⦃e : Eq A⦄ → Eq (Option A)
option_eq = record { beq = option_beq; beq_iff = option_beq_iff }

module _ {ℓ} {A : Type ℓ} ⦃e : Eq A⦄ where
  pub contains-insert :
      (a b : A) (xs : List A) → contains (insert a xs) b ≡ (a ≟ b || contains xs b)
  contains-insert a b xs = elim (Bool-cases (contains xs a)) [
    | inl old ↦ rw old (ground (arith, e.beq_iff a b))
    | inr new ↦ rw new
  ]

  pub contains-append :
      (a : A) (xs ys : List A) → contains (xs ++ ys) a ≡ (contains xs a || contains ys a)
  contains-append a [] ys = refl
  contains-append a (x ∷ xs) ys = ground (arith, contains-append a xs ys)

module _ {ℓ} {A : Type ℓ} ⦃e : Eq A⦄ where
  pub ∈-here : (a : A) (xs : List A) → a ∈ a ∷ xs
  ∈-here a xs = rw (beq_refl a) refl

  pub ∈-there : (a b : A) (xs : List A) → a ∈ xs → a ∈ b ∷ xs
  ∈-there a b xs m = rw m (ground arith)

  pub ∈-both :
      (b : A) (xs ys : List A) → ((a : A) → a ∈ xs → a ∈ ys) → (a : A) → a ∈ b ∷ xs → a ∈ b ∷ ys
  ∈-both b xs ys within a m = elim (Bool-cases (b ≟ a)) [
    | inl y ↦ rw y refl
    | inr n ↦ rw n (within a (rw n at m))
  ]

-- The same for byte strings, for a tactic's list.
pub bytes_iff : (a b : List ℕ) → (list_beq a b ≡ true) ↔ (a ≡ b)
bytes_iff a b = list_beq_iff a b
