-- ===== src/Model/Raw.antt =====
-- The raw XML tree (libparsex/include/parsex/raw/raw_node.hpp and raw_span.hpp).
use parse_x.Base.{ℕ, List, [], ◌∷◌}
use parse_x.Base.Text.{Text}

pub record RawSpan : Type 0 where
  pub start_offset : ℕ
  pub end_offset : ℕ
  pub line_number : ℕ

-- Tag, attributes, character data, place in the file, children.
mutual
  pub data RawNode : Type 0 where
    node : Text → List (Text × Text) → Text → RawSpan → RawNodes → RawNode

  pub data RawNodes : Type 0 where
    nil : RawNodes
    cons : RawNode → RawNodes → RawNodes

abbrev pub tag_name : RawNode → Text
tag_name (node t a x s c) = t

abbrev pub attributes : RawNode → List (Text × Text)
attributes (node t a x s c) = a

abbrev pub text : RawNode → Text
text (node t a x s c) = x

abbrev pub span : RawNode → RawSpan
span (node t a x s c) = s

abbrev pub child_nodes : RawNodes → List RawNode
child_nodes nil = []
child_nodes (cons n rest) = n ∷ child_nodes rest

abbrev pub children : RawNode → List RawNode
children (node t a x s c) = child_nodes c
