-- ===== src/Validator/Tree.antt =====
-- Names in the raw tree, as validator_references.cpp and validator_uniqueness.cpp both read them.
use parse_x.Base.{
  ℕ, Bool, Option, none, some, List, [], ◌∷◌, ◌++◌, ◌||◌, ◌==◌, if◌then◌else◌, is_empty,
}
use parse_x.Base.Text.{Text, codes, text_eq, drop_while, drop_while_end}
use parse_x.Model.Raw.{RawNode, tag_name, text, children}

-- The characters of " \t\r\n".
abbrev pub is_blank : ℕ → Bool
is_blank c = c == 32 || c == 9 || c == 13 || c == 10

unfoldable pub trim_text : Text → Text
unfolding drop_while drop_while_end
trim_text text = drop_while_end is_blank (drop_while is_blank text)

abbrev pub is_short_name : RawNode → Bool
is_short_name n = text_eq (tag_name n) (codes "SHORT-NAME")

abbrev pub first_short_name : List RawNode → Option RawNode
first_short_name [] = none
first_short_name (child ∷ rest) = if is_short_name child then some child else first_short_name rest

unfoldable pub find_short_name_child : RawNode → Option RawNode
find_short_name_child n = first_short_name (children n)

-- The trimmed short name, if there is one that is not empty.
unfoldable pub name_of : RawNode → Option Text
unfolding find_short_name_child trim_text
name_of n = elim (find_short_name_child n) [
  | none ↦ none
  | some short_name ↦
      let name = trim_text (text short_name) in if is_empty name then none else some name
]

-- The path of a node, below the path of its parent.
unfoldable pub node_path : Text → RawNode → Text
unfolding name_of
node_path base_path n = elim (name_of n) [
  | none ↦ base_path
  | some name ↦ base_path ++ (codes "/" ++ name)
]
