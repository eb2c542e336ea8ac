-- ===== src/Parser.antt =====
-- The parser's entry (`parseFile`, `parseBytes`, `parseProject` of libparsex/src/parser.cpp) and the
-- release of a document (libparsex/src/release_detector.cpp). Reading a file, libxml2 and the listing
-- of directories are parameters.
pub mod Release
pub mod Document
use parse_x.Base.{
  ℕ, Bool, true, false, Option, none, some, List, [], ◌∷◌, ◌++◌, not, is_empty, if◌then◌else◌,
}
use parse_x.Base.Text.{Text, codes, text_eq, drop_while}
use parse_x.Base.Map.{Map, find}
use parse_x.Model.{ParsedFile, ParsedProject}
use parse_x.Model.Raw.{RawNode, attributes}
use parse_x.Validator.Tree.{is_blank}
use parse_x.Loader.{SaxParse, LoadResult, loaded, load_raw_document_from_memory}
use parse_x.Builder.{build_subtree}
use parse_x.Builder.Numbers.{DoubleReader}
use parse_x.Resolve.{Names, Outcome, resolve_cross_file_references}
use parse_x.Discovery.{parse_project_lazy}

-- The text up to the first blank.
unfoldable pub token : Text → Text
token [] = []
token (c ∷ s) = let rest = token s in if is_blank c then [] else c ∷ rest

unfoldable pub after_token : Text → Text
after_token [] = []
after_token (c ∷ s) = if is_blank c then c ∷ s else after_token s

-- The value of the first attribute of that name.
unfoldable pub attribute_value : Text → List (Text × Text) → Option Text
attribute_value name [] = none
attribute_value name ((key, value) ∷ rest) =
    if text_eq key name then some value else attribute_value name rest

-- The second token of the location.
unfoldable pub second_token : Text → Option Text
second_token location =
    let second = drop_while is_blank (after_token (drop_while is_blank location)) in
    if is_empty second then none else some (token second)

unfoldable pub detect_schema_filename : RawNode → Option Text
detect_schema_filename root =
    elim (attribute_value (codes "xsi:schemaLocation") (attributes root)) [
      | none ↦ none
      | some location ↦ second_token location
    ]

unfoldable pub schema_filename_table : Map Text
schema_filename_table =
    (codes "AUTOSAR_00044.xsd", codes "4.3.1")
    ∷ (codes "AUTOSAR_00046.xsd", codes "4.4.0")
    ∷ (codes "AUTOSAR_00048.xsd", codes "R19-11")
    ∷ (codes "AUTOSAR_00049.xsd", codes "R20-11")
    ∷ (codes "AUTOSAR_00050.xsd", codes "R21-11")
    ∷ (codes "AUTOSAR_4-2-2.xsd", codes "4.2.2")
    ∷ (codes "AUTOSAR_4-3-0.xsd", codes "4.3.0")
    ∷ []

-- `none` is the UnsupportedReleaseError.
unfoldable pub resolve_release : Text → Option Text
resolve_release schema_filename = find schema_filename schema_filename_table

pub data ParseResult : Type 0 where
  parsed_file : ParsedFile → ParseResult
  io_error no_schema_location : ParseResult
  load_failed : LoadResult → ParseResult
  unsupported_release : Text → ParseResult

abbrev pub empty_file : Text → Text → ParsedFile
empty_file release path = record {
  autosar_release = release;
  source_path = path;
  clusters = [];
  ecu_instances = [];
  frames = [];
  pdus = [];
  signals = [];
  signal_groups = [];
  warnings = [];
  raw_document = none;
}

module _ (libxml : Text → SaxParse) (reader : DoubleReader) where
  abbrev pub build_file : Text → RawNode → Text → ParsedFile
  build_file path root release = record (build_subtree reader root (empty_file release path)) {
    raw_document = some root;
  }

  abbrev pub with_release : Text → RawNode → Text → Option Text → ParseResult
  with_release path root filename none = unsupported_release filename
  with_release path root filename (some release) = parsed_file (build_file path root release)

  abbrev pub with_filename : Text → RawNode → Option Text → ParseResult
  with_filename path root none = no_schema_location
  with_filename path root (some filename) =
      with_release path root filename (resolve_release filename)

  -- From the loaded document on, which `parseFile` and `parseBytes` have in common.
  unfoldable pub parse_document : Text → LoadResult → ParseResult
  parse_document path (loaded root) = with_filename path root (detect_schema_filename root)
  parse_document path failure = load_failed failure

  unfoldable pub parse_bytes : Text → ParseResult
  parse_bytes bytes = parse_document (codes "<buffer>") (load_raw_document_from_memory libxml bytes)

  unfoldable pub parse_file : (Text → Option Text) → Text → ParseResult
  parse_file read_file_bytes path = elim (read_file_bytes path) [
    | none ↦ io_error
    | some bytes ↦ parse_document path (load_raw_document_from_memory libxml bytes)
  ]

pub data FileDiscoveryMode : Type 0 where
  explicit_list directory_scan lazy_on_reference : FileDiscoveryMode

-- The files of the paths in order, unless one does not parse.
unfoldable pub parse_all : (Text → Option ParsedFile) → List Text → Option (List ParsedFile)
parse_all parse [] = some []
parse_all parse (path ∷ paths) = elim (parse path) [
  | none ↦ none
  | some file ↦ elim (parse_all parse paths) [ none ↦ none | some files ↦ some (file ∷ files) ]
]

abbrev resolved_project : (Text → Text) → Option (List ParsedFile) → Option Outcome
resolved_project parent_path none = none
resolved_project parent_path (some files) =
    some (resolve_cross_file_references parent_path (record { files = files; resolved_refs = [] }))

-- What the parser takes from the file system. `discover` lists the files of a directory scan.
pub record FileSystem : Type 0 where
  pub parent_path : Text → Text
  pub normalize_path : Text → Text
  pub read_file_bytes_or_empty : Text → Text
  pub discover : List Text → List Text
  pub enumerate_candidates : List Text → Names → List Text

-- `none` where the parse of a file throws.
unfoldable pub parse_project :
    FileSystem → (Text → Option ParsedFile) → List Text → FileDiscoveryMode → Option Outcome
parse_project fs parse entry_points lazy_on_reference =
    parse_project_lazy fs.read_file_bytes_or_empty parse fs.parent_path fs.normalize_path
      fs.enumerate_candidates entry_points
parse_project fs parse entry_points explicit_list =
    resolved_project fs.parent_path (parse_all parse entry_points)
parse_project fs parse entry_points directory_scan =
    resolved_project fs.parent_path (parse_all parse (fs.discover entry_points))
