-- ===== src/KeyTree/Public.antt =====
-- The public view of a split tree, which holds no shares, and its restriction to a set of labels
-- (src/key_tree.rs).
use key_quorom.Prelude.{ℕ, String, Bool, ◌&&◌, Option, List}
use key_quorom.Prelude.Equality.{string_eq, contains}
use key_quorom.Prelude.Sql.{select_all}

pub record PublicNode : Type 0 where
  pub label : String
  pub parent_label : Option String
  pub threshold : Option ℕ
  pub is_active : Bool
  pub encryption_fingerprint : Option String
  pub encryption_public_key : Option String

pub record PublicEdge : Type 0 where
  pub from : String
  pub to : String

pub record PublicTree : Type 0 where
  pub label : String
  pub generation : ℕ
  pub nodes : List PublicNode
  pub whitelist : List PublicEdge
  pub links : List PublicEdge

-- `filter` is the selection of rows.
unfoldable pub filter_public_tree : PublicTree → List String → PublicTree
filter_public_tree full visible =
    let both : PublicEdge → Bool = λ e. contains visible e.from && contains visible e.to in
    record {
      label = full.label;
      generation = full.generation;
      nodes = select_all (λ (n : PublicNode). contains visible n.label) full.nodes;
      whitelist = select_all both full.whitelist;
      links = select_all both full.links;
    }
