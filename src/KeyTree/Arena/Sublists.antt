-- ===== src/KeyTree/Arena/Sublists.antt =====
-- Part of a list in its order: the shares that a reconstruction collects (src/key_tree.rs).
use key_quorom.Prelude.{List, [], ◌∷◌, ◌++◌}

-- `xs` with some elements left out is `ys`.
pub data Sublist {A : Type 0} : List A → List A → Type 0 where
  done : Sublist [] []
  skip : {y : A} {xs ys : List A} → Sublist xs ys → Sublist xs (y ∷ ys)
  keep : {y : A} {xs ys : List A} → Sublist xs ys → Sublist (y ∷ xs) (y ∷ ys)

module _ {A : Type 0} where
  pub Sublist_skip_all : (ys : List A) → Sublist [] ys
  Sublist_skip_all [] = done
  Sublist_skip_all (y ∷ ys) = skip (Sublist_skip_all ys)

  pub Sublist-append_skip : {xs ys : List A} (zs : List A) → Sublist xs ys → Sublist xs (ys ++ zs)
  Sublist-append_skip zs done = Sublist_skip_all zs
  Sublist-append_skip zs (skip s) = skip (Sublist-append_skip zs s)
  Sublist-append_skip zs (keep s) = keep (Sublist-append_skip zs s)

  pub Sublist-append_keep :
      {xs ys : List A} (y : A) → Sublist xs ys → Sublist (xs ++ y ∷ []) (ys ++ y ∷ [])
  Sublist-append_keep y done = keep done
  Sublist-append_keep y (skip s) = skip (Sublist-append_keep y s)
  Sublist-append_keep y (keep s) = keep (Sublist-append_keep y s)
