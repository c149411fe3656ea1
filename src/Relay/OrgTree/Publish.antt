-- ===== src/Relay/OrgTree/Publish.antt =====
-- What publishing a tree leaves in the relay's store (src/relay/org_tree.rs).
use key_quorom.Prelude.{
  ℕ, Bytes, String, ◌≡◌, ◌≢◌, ◌⊎◌, inl, inr, Option-cases, refl, ◌∙◌, true, false, Option, none,
  some, List, [], ◌∷◌, ◌++◌, arith,
}
use text.Mathlib.TextEquality.{eq_iff}
use key_quorom.Prelude.Equality.{◌≟◌, string_eq}
use key_quorom.Prelude.Sql.{select, update, select-append_right}
use key_quorom.Error.{Result, ok, err, invalid_tree_spec}
use key_quorom.KeyTree.Public.{PublicTree}
use key_quorom.Relay.OrgTree.{
  Document, TreeJson, parse_document, stored_tree, has_label, next_generation, store_row,
  persist_public_tree, get_public_tree, validate_public_tree, put_public_tree,
}

replaced :
    (l : String) (row : Document) (docs : List Document) {d : Document}
    → has_label l row ≡ true
    → select (has_label l) docs ≡ some d
    → select (has_label l) (update (has_label l) (λ x. row) docs) ≡ some row
unfolding select update
replaced l row [] mine h = cc
replaced l row (x ∷ docs) {d} mine h = ground (arith, replaced l row docs {d = d} mine)

untouched :
    (l k : String) (row : Document) (docs : List Document)
    → has_label l row ≡ true
    → has_label k row ≡ false
    → select (has_label k) (update (has_label l) (λ x. row) docs) ≡ select (has_label k) docs
unfolding select update
untouched l k row [] mine other = refl
untouched l k row (x ∷ docs) mine other = ground (
  arith,
  untouched l k row docs mine other,
  eq_iff x.label l,
  eq_iff x.label k,
  eq_iff row.label l,
  eq_iff row.label k,
)

appended :
    (k : String) (row : Document) (docs : List Document)
    → has_label k row ≡ false
    → select (has_label k) (docs ++ row ∷ []) ≡ select (has_label k) docs
unfolding select
appended k row [] other = rw other refl
appended k row (x ∷ docs) other = ground (arith, appended k row docs other)

store_row_lem :
    (found : Option Document) (row : Document) (docs : List Document) (k : String)
    → select (has_label row.label) docs ≡ found
    → has_label row.label row ≡ true
    → has_label k row ≡ false
    → (select (has_label row.label) (store_row found row docs) ≡ some row)
      × (select (has_label k) (store_row found row docs) ≡ select (has_label k) docs)
unfolding store_row select
store_row_lem none row docs k e mine other = (
  select-append_right (has_label row.label) docs (row ∷ []) e ∙ rw mine refl,
  appended k row docs other,
)
store_row_lem (some d) row docs k e mine other =
    (replaced row.label row docs mine e, untouched row.label k row docs mine other)

module _ (json : TreeJson) where
  -- What a call of `put_public_tree` with the snapshot that was written gives and leaves: the tree
  -- is returned and read back, and the other label reads as before.
  abbrev pub IsPublished :
      PublicTree → String → List Document → Result PublicTree × List Document → Type 0
  IsPublished stored k docs out =
      (out.0 ≡ ok stored)
      × (get_public_tree json stored.label out.1 ≡ ok stored)
      × (get_public_tree json k out.1 ≡ get_public_tree json k docs)

  persist-none :
      (snapshot : PublicTree) (docs : List Document)
      → json.to_string (stored_tree snapshot docs) ≡ none
      → persist_public_tree json snapshot docs ≡ (err invalid_tree_spec, docs)
  unfolding persist_public_tree
  persist-none snapshot docs e = rw (e, persist_public_tree) refl

  persist-some :
      (snapshot : PublicTree) (docs : List Document) (document k : String)
      → json.to_string (stored_tree snapshot docs) ≡ some document
      → k ≢ snapshot.label
      → IsPublished (stored_tree snapshot docs) k docs (persist_public_tree json snapshot docs)
  unfolding persist_public_tree get_public_tree parse_document
  persist-some snapshot docs document k e apart =
      let l = snapshot.label in
      let mine : (l ≟ l) ≡ true = (eq_iff l l).1 refl in
      let other : (l ≟ k) ≡ false = ground (arith, eq_iff l k) in
      let row : Document = record {
        label = l;
        generation = next_generation (select (has_label l) docs);
        document = document;
      } in
      let (back, rest) = store_row_lem (select (has_label l) docs) row docs k refl mine other in
      let parses = json.from_str-to_string (stored_tree snapshot docs) document e in
      rw (e, persist_public_tree)
        (
          refl,
          rw (back, parses, get_public_tree, parse_document) refl,
          rw (rest, get_public_tree) refl,
        )

module _ (json : TreeJson) (hex_decode : String → Option Bytes) where
  -- Publishing a tree that validates changes nothing of it but its generation. If the JSON of that
  -- cannot be written, the call fails with `InvalidTreeSpec` and stores nothing; otherwise the call
  -- returns the tree, reading its label returns the same, and every other label reads as before. Of
  -- the JSON it is assumed that what is written reads back.
  pub put_public_tree_lem :
      (fuel : ℕ) (snapshot : PublicTree) (docs : List Document) (k : String)
      → validate_public_tree hex_decode fuel snapshot ≡ some (ok tt)
      → k ≢ snapshot.label
      → (stored : PublicTree) × (out : Result PublicTree × List Document) × (put_public_tree json
            hex_decode fuel snapshot docs
          ≡ some out)
        × (stored ≡ record snapshot { generation = stored.generation })
        × (((json.to_string stored ≡ none) × (out ≡ (err invalid_tree_spec, docs)))
            ⊎ IsPublished json stored k docs out)
  unfolding put_public_tree
  put_public_tree_lem fuel snapshot docs k valid apart = (
    stored_tree snapshot docs,
    persist_public_tree json snapshot docs,
    rw (valid, put_public_tree) refl,
    refl,
    elim (Option-cases (json.to_string (stored_tree snapshot docs))) [
      | inl e ↦ inl (e, persist-none json snapshot docs e)
      | inr (document, e) ↦ inr (persist-some json snapshot docs document k e apart)
    ],
  )
