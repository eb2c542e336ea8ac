-- ===== src/Lib.antt =====
-- ParseX: verification of the loader, the model builder, the parser, the diff engine, the validator
-- and the export writers.
--
-- ParseX reads AUTOSAR XML files into a raw tree (libparsex/include/parsex/raw) and a common domain
-- model (libparsex/include/parsex/model). The diff engine compares two projects of that model
-- element by element; the validator checks one project, on the raw tree and on the model. Before them,
-- the parser loads each file into a raw tree with the place of each node in the file, builds the
-- model from it, and ends with a resolution of the references between its files. The parts share the
-- model and no state.
--
-- Files:
--   Base: texts, sorted maps, sorting, decimal numbers, lists, tests. `std::map` is a list in the
--     order of its keys; `std::string` is its list of bytes.
--   Model: the records of libparsex/include/parsex/model and of libparsex/include/parsex/raw.
--   Builder: libparsex/src/model_builder.cpp, in Builder/Numbers (parseInteger, parseUint32,
--     parseDouble), Builder/Nodes (findChild, findDescendants, shortNameOfRef) and Builder/Elements
--     (populateCommonFields, buildFrame and its kin); buildSubtree of libparsex/src/parser.cpp.
--   Loader: libparsex/src/loader.cpp, in Loader/Encoding (detectEncodingClass), Loader/Scanner
--     (scanStartTag, scanEndTag and what they skip) and Loader (the SAX callbacks as steps of
--     LoaderState, loadRawDocumentFromMemory). Loader/Markup says what a tag is, and Loader/Lines what
--     the line of a place is, in terms of the bytes alone.
--   Diff/Report: libparsex/include/parsex/diff/diff_report.hpp and libparsex/src/diff/diff_report.cpp.
--   Diff/Fields, Diff/Nested: diff_fields.hpp and diff_nested.hpp beside it (diffStruct,
--     diffNestedCollectionWith, diffFrameElements and its kin).
--   Diff/Match: diff_match.hpp and diff_match.cpp (indexByPath, matchByPath, matchParsedProjects).
--   Diff/Moves: diff_moves.hpp and diff_moves.cpp (secondaryKey, detectMovesForType).
--   Diff/Populate, Diff/Engine: diff_populate.cpp and diff_engine.cpp (DiffEngine::diff).
--   Diff/Render: toText of diff_render.cpp, toDebugString of diff_report.cpp.
--   Validator, Validator/Facade: validation_result.cpp and validator_facade.cpp of
--     libparsex/src/validator (validateAll, overallPassed).
--   Validator/Can: validator_can.cpp (payload lengths, bit layouts, bit occupancy).
--   Validator/Tree, Validator/References: validator_references.cpp (path index, reference sites).
--   Validator/Uniqueness: validator_uniqueness.cpp.
--   Resolve: libparsex/src/parser.cpp, the references between files by short name
--     (collectKnownRefs, collectWantedRefs, resolveCrossFileReferences).
--   Discovery: the lazy discovery of libparsex/src/parser.cpp (rawDefinesShortName,
--     expandProjectOnce, parseProjectLazy).
--   Parser: parseBytes, parseFile and parseProject of libparsex/src/parser.cpp, and
--     libparsex/src/release_detector.cpp (detectSchemaFilename, resolveRelease). Parser/Release says
--     what the second word of a text is, and lists the schema files that AUTOSAR distributes.
--   Export: libparsex/include/parsex/export/can_db.hpp, with Export/Csv for csv_writer.cpp (toCsv)
--     and Export/Dbc for dbc_writer.cpp (toDbc) of libparsex/src/export. Export/Csv/Reader is a
--     reader of the format that the program does not have.
--   Tests: concrete projects, and the theorems applied to them.
--
-- Conventions. A function that appends to a report or a result returns what it appends, or the new
-- report. Pointers into a project are the elements themselves, since nothing modelled here changes
-- them. An `int` and a `std::uint32_t` are numbers below 2 ^ 32; a cast between them keeps the
-- number, and a number from 2 ^ 31 on is a negative `int`. Bit loops wrap around at 2 ^ 32. A
-- `double` is its 64-bit pattern, and how a stream prints it is a parameter (`double_value`). Tree
-- recursion is structural. `to_string` recurses on a fuel of n + 1 for the number n, which exceeds
-- the count of its digits. `std::ranges::sort` is an insertion sort, which keeps the order of tied
-- elements, an order that C++ leaves open.
--
-- The loader's loops recurse on a fuel of one more than the length of the file, which their theorems
-- show to be enough. libxml2 is a parameter, the function from the bytes of a file to the events and
-- errors it reports. The nodes that are open are a stack, where the source has pointers into the
-- tree; a node is put into its parent when it is closed. An exception of the scanner is a value.
-- `std::stod` is a parameter; `std::stoll` and `std::stoull` are modelled, and negating the least
-- `std::int64_t`, which C++ leaves open, wraps around.
--
-- The rounds of the lazy discovery are the 50 of the source. The file system is a parameter: the bytes
-- of a path, the parse of a file, the listing of candidates. What a double is printed as is a
-- parameter of the writers.
--
-- Not modelled: reading files and listing directories, buildExportDatabase,
-- schema validation (a parameter of `validate_all`), JSON rendering, the write engine,
-- telemetry, the command line and the MCP server.
pub mod Base
pub mod Model
pub mod Diff
pub mod Validator
pub mod Builder
pub mod Discovery
pub mod Export
pub mod Loader
pub mod Parser
pub mod Resolve
pub mod Tests
