-- ===== src/KeyTree/Visible.antt =====
-- Which labels the holders of some leaves may see (src/key_tree.rs). A `HashSet` is a list under
-- `contains` and `insert`; the maps are functions, an absent entry of `children_of` being the empty
-- list. Each loop has fuel, and `none` is a loop that has not ended.
pub mod Walk
pub mod Closed
pub mod Seeds
pub mod Complete
use key_quorom.Prelude.{
  ℕ, zero, suc, String, ◌≡◌, Bool, true, false, not, ◌&&◌, ◌||◌, Option, none, some, List, [], ◌∷◌,
  ◌++◌, map, if◌then◌else◌,
}
use key_quorom.Prelude.Equality.{◌≟◌, Eq, string_eq, option_eq, contains, insert}
use key_quorom.Prelude.Sql.{select_all}
use key_quorom.KeyTree.Public.{PublicNode, PublicEdge, PublicTree}

-- The `HashMap` of parents: `none` for an absent key, and the last of several entries counts.
unfoldable pub parent_entry : List PublicNode → String → Option (Option String)
parent_entry [] l = none
parent_entry (n ∷ ns) l = elim (parent_entry ns l) [
  | some p ↦ some p
  | none ↦ if n.label ≟ l then some n.parent_label else none
]

-- `parent_of.get(l).cloned().flatten()`
abbrev pub flatten : Option (Option String) → Option String
flatten none = none
flatten (some p) = p

abbrev pub is_entry : Option (Option String) → Bool
is_entry none = false
is_entry (some p) = true

unfoldable pub children_of : List PublicNode → String → List String
children_of ns l = map (λ (n : PublicNode). n.label) (select_all (λ n. n.parent_label ≟ some l) ns)

abbrev pub remember : Bool → Option (List String × Bool) → Option (List String × Bool)
remember new none = none
remember new (some (visible, grew)) = some (visible, new || grew)

-- The inner `for`: the children that are new are pushed on the stack.
unfoldable pub push_children : List String → List String → List String → List String × List String
push_children [] visible stack = (visible, stack)
push_children (c ∷ cs) visible stack =
    if contains visible c
    then push_children cs visible stack
    else push_children cs (c ∷ visible) (c ∷ stack)

module _ (parent_of : String → Option (Option String)) (children : String → List String)
    (links : List (String × String)) where
  -- The arguments are the fuel, `cur`, `seen` and `visible`; the flag is `grew`.
  unfoldable pub walk_ancestors :
      ℕ → Option String → List String → List String → Option (List String × Bool)
  walk_ancestors fuel none seen visible = some (visible, false)
  walk_ancestors zero (some l) seen visible = none
  walk_ancestors (suc fuel) (some l) seen visible =
      let rest = walk_ancestors fuel (flatten (parent_of l)) (l ∷ seen) (insert l visible) in
      if contains seen l then some (visible, false) else remember (not (contains visible l)) rest

  unfoldable pub add_descendants : ℕ → List String → List String → Option (List String)
  add_descendants fuel [] visible = some visible
  add_descendants zero (l ∷ stack) visible = none
  add_descendants (suc fuel) (l ∷ stack) visible =
      let (visible', stack') = push_children (children l) visible stack in
      add_descendants fuel stack' visible'

  abbrev pub insert_all : List String → List String → List String
  insert_all [] visible = visible
  insert_all (l ∷ ls) visible = insert_all ls (insert l visible)

  abbrev pub siblings : Option String → List String
  siblings none = []
  siblings (some p) = children p

  -- The first loop, over the seeds.
  unfoldable pub add_seeds : ℕ → List String → List String → Option (List String)
  add_seeds fuel [] visible = some visible
  add_seeds fuel (seed ∷ seeds) visible =
      let skip = add_seeds fuel seeds visible in
      if not (is_entry (parent_of seed))
      then skip
      else elim (walk_ancestors fuel (some seed) [] visible) [
        | none ↦ none
        | some (above, grew) ↦ elim (add_descendants fuel (seed ∷ []) above) [
          | none ↦ none
          | some below ↦
              add_seeds fuel seeds (insert_all (siblings (flatten (parent_of seed))) below)
        ]
      ]

  -- One pass over the links.
  unfoldable pub follow_links :
      ℕ → List (String × String) → List String → Option (List String × Bool)
  follow_links fuel [] visible = some (visible, false)
  follow_links fuel ((a, b) ∷ rest) visible =
      let same = follow_links fuel rest visible in
      let incoming = if contains visible a then b else a in
      if contains visible a && contains visible b || not (contains visible a || contains visible b)
      then same
      else elim (walk_ancestors fuel (some incoming) [] visible) [
        | none ↦ none
        | some (visible', grew) ↦ remember grew (follow_links fuel rest visible')
      ]

  -- `while grew`; `rounds` bounds the passes.
  unfoldable pub grow : ℕ → ℕ → List String → Option (List String)
  grow zero fuel visible = none
  grow (suc rounds) fuel visible = elim (follow_links fuel links visible) [
    | none ↦ none
    | some (visible', grew) ↦ if grew then grow rounds fuel visible' else some visible'
  ]

  unfoldable pub visible_from_maps : ℕ → List String → Option (List String)
  visible_from_maps fuel seeds = elim (add_seeds fuel seeds []) [
    | none ↦ none
    | some visible ↦ grow fuel fuel visible
  ]

abbrev pub edge_pair : PublicEdge → String × String
edge_pair e = (e.from, e.to)

unfoldable pub visible_labels_in_public_tree : ℕ → PublicTree → List String → Option (List String)
visible_labels_in_public_tree fuel full seeds =
    visible_from_maps (parent_entry full.nodes) (children_of full.nodes) (map edge_pair full.links)
      fuel seeds
