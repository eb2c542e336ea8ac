-- ===== src/Tests/OfLoader.antt =====
-- The loader on a small document, with libxml2 as the function that reports its four events.
use parse_x.Base.{true, none, some, [], ◌∷◌, ◌≡◌, ◌≢◌, refl}
use parse_x.Base.Text.{Text, codes}
use parse_x.Model.Raw.{RawNode, node, nil, cons}
use parse_x.Loader.Encoding.{
  single_byte, detect_encoding_class, bom_encoding_class, starts_with, declaration_encoding_class,
  find_text,
}
use parse_x.Loader.{
  SaxParse, start_element, end_element, loaded, out_of_fuel, load_raw_document_from_memory,
  line_number_at, count_breaks, qualified_name, attributes_of, add_child, leave, on_start_element,
  on_end_element, on_event, on_events, tree_of,
}
use parse_x.Loader.Scanner.{
  and_then_scan, skipped, skip_special_unit, seek_tag, has_non_ascii, seek_tag_end, start_tag_at,
  scan_start_tag, skip_spaces, end_tag_at, scan_end_tag,
}
use parse_x.Loader.Scanner.Units.{unit_ascii, unit_is, unit_is_space, match_literal}
use parse_x.Loader.Scanner.Ensures.{Ensures}
use parse_x.Loader.Spans.{IsSpanned}
use parse_x.Loader.State.{depth_after}
use parse_x.Loader.Run.{
  load_raw_document_from_memory-total, load_raw_document_from_memory-IsSpanned,
}

abbrev file_bytes : Text
file_bytes = codes "<A><B/></A>"

abbrev libxml : Text → SaxParse
libxml bytes = record {
  events =
      start_element none (codes "A") [] []
      ∷ start_element none (codes "B") [] []
      ∷ end_element
      ∷ end_element
      ∷ [];
  errors = [];
  well_formed = true;
}

abbrev tree : RawNode
tree =
    node (codes "A") [] [] (record { start_offset = 0; end_offset = 11; line_number = 1 })
      (cons
        (node (codes "B") [] [] (record { start_offset = 3; end_offset = 7; line_number = 1 }) nil)
        nil)

encoding_of_file : detect_encoding_class file_bytes ≡ some single_byte
unfolding detect_encoding_class bom_encoding_class starts_with declaration_encoding_class find_text
encoding_of_file = refl

balanced : depth_after (libxml file_bytes).events 0 ≡ 0
unfolding depth_after
balanced = refl

loads : load_raw_document_from_memory libxml file_bytes ≡ loaded tree
unfolding load_raw_document_from_memory detect_encoding_class bom_encoding_class starts_with
    declaration_encoding_class find_text line_number_at count_breaks qualified_name attributes_of
    add_child leave on_start_element on_end_element on_event on_events tree_of and_then_scan skipped
    skip_special_unit seek_tag has_non_ascii seek_tag_end start_tag_at scan_start_tag skip_spaces
    end_tag_at scan_end_tag unit_ascii unit_is unit_is_space match_literal
loads = refl

load_raw_document_from_memory-total_example :
    load_raw_document_from_memory libxml file_bytes ≢ out_of_fuel
load_raw_document_from_memory-total_example = load_raw_document_from_memory-total libxml file_bytes

load_raw_document_from_memory-IsSpanned_example : IsSpanned file_bytes single_byte tree
load_raw_document_from_memory-IsSpanned_example =
    load_raw_document_from_memory-IsSpanned libxml file_bytes single_byte tree encoding_of_file
      balanced loads
