-- ===== src/PrivateBridge/SortedMap.antt =====
-- The `BTreeMap<String, V>` and `BTreeSet<String>` of src/private_bridge.rs: lists whose keys ascend
-- in the order of their bytes, which is the order of Rust's `String`.
use Prim.Native.Nat.{compare, Ordering}
use key_quorom.Prelude.{
  Bytes, ◌≡◌, ◌↔◌, ◌⊎◌, inl, inr, refl, Option, none, some, List, [], ◌∷◌, arith, Bool, true, false,
  ap, ◌++◌, ◌||◌,
}
use key_quorom.Prelude.Equality.{nat_eq, list_eq, ◌≟◌, contains, bytes_iff}

abbrev pub bytes_order : Bytes → Bytes → Ordering
bytes_order [] [] = Ordering.eq
bytes_order [] (y ∷ ys) = Ordering.lt
bytes_order (x ∷ xs) [] = Ordering.gt
bytes_order (x ∷ xs) (y ∷ ys) = elim (compare x y) [
  | Ordering.lt ↦ Ordering.lt
  | Ordering.gt ↦ Ordering.gt
  | Ordering.eq ↦ bytes_order xs ys
]

pub bytes_order_iff : (a b : Bytes) → (bytes_order a b ≡ Ordering.eq) ↔ (a ≡ b)
bytes_order_iff [] [] = ground arith
bytes_order_iff [] (y ∷ ys) = ground arith
bytes_order_iff (x ∷ xs) [] = ground arith
bytes_order_iff (x ∷ xs) (y ∷ ys) = ground (arith, bytes_order_iff xs ys)

bytes_order_swap : (a b : Bytes) → (bytes_order a b ≡ Ordering.gt) → bytes_order b a ≡ Ordering.lt
bytes_order_swap [] [] h = ground arith
bytes_order_swap [] (y ∷ ys) h = ground arith
bytes_order_swap (x ∷ xs) [] h = ground arith
bytes_order_swap (x ∷ xs) (y ∷ ys) h = ground (arith, bytes_order_swap xs ys)

bytes_order_above : (a b : Bytes) → (bytes_order a b ≡ Ordering.lt) → bytes_order b a ≡ Ordering.gt
bytes_order_above [] [] h = ground arith
bytes_order_above [] (y ∷ ys) h = ground arith
bytes_order_above (x ∷ xs) [] h = ground arith
bytes_order_above (x ∷ xs) (y ∷ ys) h = ground (arith, bytes_order_above xs ys)

bytes_order_trans :
    (a b c : Bytes)
    → bytes_order a b ≡ Ordering.lt
    → bytes_order b c ≡ Ordering.lt
    → bytes_order a c ≡ Ordering.lt
bytes_order_trans [] [] c h k = absurd (cc h)
bytes_order_trans [] (y ∷ ys) [] h k = absurd (cc k)
bytes_order_trans [] (y ∷ ys) (z ∷ zs) h k = refl
bytes_order_trans (x ∷ xs) [] c h k = absurd (cc h)
bytes_order_trans (x ∷ xs) (y ∷ ys) [] h k = absurd (cc k)
bytes_order_trans (x ∷ xs) (y ∷ ys) (z ∷ zs) h k = ground (arith, bytes_order_trans xs ys zs)

ordering_cases : (o : Ordering) → (o ≡ Ordering.lt) ⊎ (o ≡ Ordering.eq) ⊎ (o ≡ Ordering.gt)
ordering_cases Ordering.lt = inl refl
ordering_cases Ordering.eq = inr (inl refl)
ordering_cases Ordering.gt = inr (inr refl)

order_cases :
    (a b : Bytes)
    → (bytes_order a b ≡ Ordering.lt)
      ⊎ (bytes_order a b ≡ Ordering.eq)
      ⊎ (bytes_order a b ≡ Ordering.gt)
order_cases a b = ordering_cases (bytes_order a b)

abbrev pub Map {ℓ} : Type ℓ → Type ℓ
Map V = List (Bytes × V)

module _ {ℓ} {V : Type ℓ} where
  -- `BTreeMap::get`
  abbrev pub lookup : Bytes → Map V → Option V
  lookup k [] = none
  lookup k ((a, v) ∷ rest) = elim (bytes_order k a) [ Ordering.eq ↦ some v | _ ↦ lookup k rest ]

  abbrev pub contains_key : Bytes → Map V → Bool
  contains_key k [] = false
  contains_key k ((a, v) ∷ rest) = elim (bytes_order k a) [
    | Ordering.eq ↦ true
    | _ ↦ contains_key k rest
  ]

  -- `BTreeMap::insert`
  unfoldable pub put : Bytes → V → Map V → Map V
  put k v [] = (k, v) ∷ []
  put k v ((a, w) ∷ rest) = elim (bytes_order k a) [
    | Ordering.lt ↦ (k, v) ∷ (a, w) ∷ rest
    | Ordering.eq ↦ (k, v) ∷ rest
    | Ordering.gt ↦ (a, w) ∷ put k v rest
  ]

  unfoldable pub keys : Map V → List Bytes
  keys [] = []
  keys ((a, v) ∷ rest) = a ∷ keys rest

  -- The first key of the rest, if any, is above `k`.
  abbrev pub IsAbove : Bytes → Map V → Type 0
  IsAbove k [] = Unit
  IsAbove k ((a, v) ∷ rest) = bytes_order k a ≡ Ordering.lt

  abbrev pub IsSorted : Map V → Type 0
  IsSorted [] = Unit
  IsSorted ((a, v) ∷ rest) = IsAbove a rest × IsSorted rest

  put-IsAbove :
      (k a : Bytes) (v : V) (m : Map V)
      → bytes_order a k ≡ Ordering.lt
      → IsAbove a m
      → IsAbove a (put k v m)
  unfolding put
  put-IsAbove k a v [] h p = h
  put-IsAbove k a v ((b, w) ∷ rest) h p = ground (arith, bytes_order_iff k b)

  pub put-IsSorted : (k : Bytes) (v : V) (m : Map V) → IsSorted m → IsSorted (put k v m)
  unfolding put
  put-IsSorted k v [] s = (tt, tt)
  put-IsSorted k v ((a, w) ∷ rest) s = elim (order_cases k a) [
    | inl lt ↦ rw (lt, put) ((lt, s))
    | inr (inl eq) ↦ rw (eq, put) (rw ((bytes_order_iff k a).0 eq) s)
    | inr (inr gt) ↦
        rw (gt, put)
          (put-IsAbove k a v rest (bytes_order_swap k a gt) s.0, put-IsSorted k v rest s.1)
  ]

  pub contains-keys-put :
      (k a : Bytes) (v : V) (m : Map V)
      → contains (keys (put k v m)) a ≡ (k ≟ a || contains (keys m) a)
  unfolding put keys
  contains-keys-put k a v [] = refl
  contains-keys-put k a v ((b, w) ∷ rest) =
      ground
        (arith, contains-keys-put k a v rest, bytes_order_iff k b, bytes_iff b a, bytes_iff k a)

  -- The keys before `k` in a sorted list are below it.
  sorted_below :
      (a : Bytes) (w : V) (m : Map V) (k : Bytes) (v : V) (rest : Map V)
      → IsSorted (((a, w) ∷ m) ++ ((k, v) ∷ rest))
      → bytes_order a k ≡ Ordering.lt
  sorted_below a w [] k v rest s = s.0
  sorted_below a w ((b, u) ∷ m) k v rest s =
      bytes_order_trans a b k s.0 (sorted_below b u m k v rest s.1)

  pub put_last :
      (m : Map V) (k : Bytes) (v : V) (rest : Map V)
      → IsSorted (m ++ ((k, v) ∷ rest))
      → put k v m ≡ m ++ ((k, v) ∷ [])
  unfolding put
  put_last [] k v rest s = refl
  put_last ((a, w) ∷ m) k v rest s =
      rw (bytes_order_above a k (sorted_below a w m k v rest s), put)
        (ap (λ t. (a, w) ∷ t) (put_last m k v rest s.1))
