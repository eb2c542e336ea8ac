-- ===== src/Validator/Uniqueness.antt =====
-- Short names are unique among siblings (validator_uniqueness.cpp).
pub mod Silent
use parse_x.Base.{
  ℕ, Bool, true, false, Option, none, some, List, [], ◌∷◌, ◌++◌, ltb, if◌then◌else◌, is_empty,
  length, get_elem?,
}
use parse_x.Base.Text.{Text, codes}
use parse_x.Base.Map.{Map, upsert}
use parse_x.Model.{ParsedFile, ParsedProject}
use parse_x.Model.Raw.{RawNode, RawNodes, node, nil, cons, span, child_nodes}
use parse_x.Validator.{ValidationError, ValidationResult, error}
use parse_x.Validator.Tree.{is_short_name, name_of, node_path}

-- The name under which a child counts, if it does.
unfoldable pub counted_name : RawNode → Option Text
counted_name child = if is_short_name child then none else name_of child

-- The groups of children by name, each in document order.
unfoldable pub by_name : List RawNode → Map (List RawNode) → Map (List RawNode)
unfolding upsert
by_name [] groups = groups
by_name (child ∷ rest) groups = by_name rest (elim (counted_name child) [
  | none ↦ groups
  | some name ↦ upsert name [] (λ members. members ++ child ∷ []) groups
])

abbrev pub shown_path : Text → Text
shown_path path = if is_empty path then codes "/" else path

abbrev pub duplicate : Text → Text → Option RawNode → ValidationError
duplicate path name second = record {
  severity = error;
  code = codes "shortname.duplicate";
  message =
      codes "duplicate SHORT-NAME '"
      ++ (name ++ (codes "' under '" ++ (shown_path path ++ codes "'")));
  location = elim second [ none ↦ none | some n ↦ some (span n) ];
  path = some (shown_path path);
  expected_type = none;
  actual_type = none;
}

-- A finding for each group of two members or more. `at(1)` does not throw there.
unfoldable pub duplicates : Text → Map (List RawNode) → List ValidationError
duplicates path [] = []
duplicates path ((name, members) ∷ groups) =
    (if ltb 1 (length members) then duplicate path name (get_elem? members 1) ∷ [] else [])
    ++ duplicates path groups

unfoldable mutual
  unfolding duplicates by_name

  pub check_node : RawNode → Text → List ValidationError
  check_node (node t a x s c) base_path =
      let path = node_path base_path (node t a x s c) in
      duplicates path (by_name (child_nodes c) []) ++ check_children c path

  pub check_children : RawNodes → Text → List ValidationError
  check_children nil path = []
  check_children (cons child rest) path =
      let inner = check_node child path in
      (if is_short_name child then [] else inner) ++ check_children rest path

abbrev pub check_document : ParsedFile → List ValidationError
check_document file = elim file.raw_document [ none ↦ [] | some root ↦ check_node root [] ]

unfoldable pub check_documents : List ParsedFile → List ValidationError
check_documents [] = []
check_documents (file ∷ files) = check_document file ++ check_documents files

unfoldable pub validate_uniqueness : ParsedProject → ValidationResult
unfolding check_documents
validate_uniqueness project = record { errors = check_documents project.files }
