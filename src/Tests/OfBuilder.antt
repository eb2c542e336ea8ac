-- ===== src/Tests/OfBuilder.antt =====
-- The builders on a small document with one frame.
use parse_x.Base.{none, some, [], ◌∷◌, ◌++◌, ◌≡◌, refl, ◌↔◌, ◌⊎◌, In, arith}
use parse_x.Base.Text.{Text, codes}
use parse_x.Base.Decimal.{to_string}
use parse_x.Model.{ParsedFile}
use parse_x.Model.Raw.{RawNode, node, nil, cons}
use parse_x.Validator.Tree.{trim_text}
use parse_x.Builder.{build_subtree, family_of}
use parse_x.Builder.Numbers.{DoubleReader, parse_uint32}
use parse_x.Builder.Numbers.RoundTrip.{parse_uint32-to_string}
use parse_x.Builder.Nodes.{short_name_of_ref}
use parse_x.Builder.Nodes.Names.{NoSlash, IsAfterSlash, short_name_of_ref-IsAfterSlash}
use parse_x.Builder.Order.{nodes_of}
use parse_x.Builder.Families.{HasFamilies, build_subtree-HasFamilies}
use parse_x.Builder.Silent.{IsComplete, build_subtree-IsComplete}
use parse_x.Tests.{span_1, file_of}

abbrev leaf : Text → Text → RawNode
leaf tag text = node tag [] text span_1 nil

abbrev frame_node : RawNode
frame_node = node (codes "FRAME") [] [] span_1 (
    cons (leaf (codes "SHORT-NAME") (codes " Brake "))
      (cons (leaf (codes "LENGTH") (codes "0x8")) nil))

abbrev document : RawNode
document = node (codes "AUTOSAR") [] [] span_1 (cons frame_node nil)

abbrev empty_file : ParsedFile
empty_file = file_of [] [] [] none

-- A reader that knows no floating point.
abbrev pub no_doubles : DoubleReader
no_doubles = record { stod = λ t. none; of_int64 = λ z. 0 }

parse_uint32-to_string_example : parse_uint32 ((32 ∷ []) ++ (to_string 42 ++ (10 ∷ []))) ≡ some 42
parse_uint32-to_string_example =
    parse_uint32-to_string (32 ∷ []) (10 ∷ []) 42 (refl, tt) (refl, tt) (omega arith)

short_name_of_ref-IsAfterSlash_example :
    NoSlash (short_name_of_ref (codes "/A/Brake "))
    × ((short_name_of_ref (codes "/A/Brake ") ≡ trim_text (codes "/A/Brake "))
        ⊎ IsAfterSlash (trim_text (codes "/A/Brake ")) (short_name_of_ref (codes "/A/Brake ")))
short_name_of_ref-IsAfterSlash_example = short_name_of_ref-IsAfterSlash (codes "/A/Brake ")

build_subtree-HasFamilies_example :
    HasFamilies no_doubles
      (nodes_of document)
      empty_file
      (build_subtree no_doubles document empty_file)
build_subtree-HasFamilies_example = build_subtree-HasFamilies no_doubles document empty_file

build_subtree-IsComplete_example :
    ((build_subtree no_doubles document empty_file).warnings ≡ empty_file.warnings)
    ↔ ((m : RawNode) → In m (nodes_of document) → IsComplete (family_of m) m)
build_subtree-IsComplete_example = build_subtree-IsComplete no_doubles document empty_file
