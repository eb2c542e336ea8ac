-- ===== src/Tests/OfParser.antt =====
-- A document of one element with its schema location, parsed from memory.
use parse_x.Base.{none, some, true, [], ◌∷◌, ◌≡◌, refl}
use parse_x.Base.Text.{Text, codes, text_eq, drop_while}
use parse_x.Base.Map.{find}
use parse_x.Model.{ParsedFile}
use parse_x.Model.Raw.{RawNode, node, nil}
use parse_x.Loader.{
  SaxParse, start_element, end_element, load_raw_document_from_memory, line_number_at, count_breaks,
  qualified_name, attributes_of, leave, on_start_element, on_end_element, on_event, on_events,
  tree_of,
}
use parse_x.Loader.Encoding.{
  single_byte, detect_encoding_class, bom_encoding_class, starts_with, declaration_encoding_class,
  find_text,
}
use parse_x.Loader.Scanner.{
  and_then_scan, skip_special_unit, seek_tag, has_non_ascii, seek_tag_end, start_tag_at,
  scan_start_tag, skip_quoted, skip_to_quote,
}
use parse_x.Loader.Scanner.Units.{unit_ascii, unit_is, unit_is_space, match_literal}
use parse_x.Loader.Spans.{IsSpanned}
use parse_x.Loader.State.{depth_after}
use parse_x.Parser.{
  parsed_file, token, after_token, attribute_value, second_token, detect_schema_filename,
  schema_filename_table, resolve_release, build_file, parse_document, parse_bytes,
}
use parse_x.Parser.Document.{IsFileOf, parse_bytes-IsFileOf}
use parse_x.Tests.OfBuilder.{no_doubles}

abbrev file_bytes : Text
file_bytes = codes "<A xsi:schemaLocation=\"u AUTOSAR_00046.xsd\"/>"

abbrev libxml : Text → SaxParse
libxml bytes = record {
  events =
      start_element none (codes "A") [] (
        record {
          prefix = some (codes "xsi");
          local_name = codes "schemaLocation";
          value = codes "u AUTOSAR_00046.xsd";
        }
        ∷ [])
      ∷ end_element
      ∷ [];
  errors = [];
  well_formed = true;
}

abbrev root : RawNode
root =
    node (codes "A") ((codes "xsi:schemaLocation", codes "u AUTOSAR_00046.xsd") ∷ []) []
      (record { start_offset = 0; end_offset = 45; line_number = 1 }) nil

abbrev file : ParsedFile
file = build_file libxml no_doubles (codes "<buffer>") root (codes "4.4.0")

encoding_of_file : detect_encoding_class file_bytes ≡ some single_byte
unfolding detect_encoding_class bom_encoding_class starts_with declaration_encoding_class find_text
encoding_of_file = refl

balanced : depth_after (libxml file_bytes).events 0 ≡ 0
unfolding depth_after
balanced = refl

parses : parse_bytes libxml no_doubles file_bytes ≡ parsed_file file
unfolding parse_bytes parse_document load_raw_document_from_memory detect_encoding_class
    bom_encoding_class starts_with declaration_encoding_class find_text line_number_at count_breaks
    qualified_name attributes_of leave on_start_element on_end_element on_event on_events tree_of
    and_then_scan skip_special_unit seek_tag has_non_ascii seek_tag_end start_tag_at scan_start_tag
    skip_quoted skip_to_quote unit_ascii unit_is unit_is_space match_literal token after_token
    attribute_value second_token detect_schema_filename schema_filename_table resolve_release find
    text_eq drop_while
parses = refl

parse_bytes-IsFileOf_example :
    (r : RawNode) × IsSpanned file_bytes single_byte r
    × IsFileOf no_doubles (codes "<buffer>") r file
parse_bytes-IsFileOf_example =
    parse_bytes-IsFileOf libxml no_doubles file_bytes single_byte file encoding_of_file balanced
      parses
