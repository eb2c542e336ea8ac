-- ===== src/Validator/References.antt =====
-- References between elements (validator_references.cpp): the index of paths, the reference sites,
-- and the check of each site.
pub mod Index
pub mod Sites
pub mod Exact
use parse_x.Base.{
  ℕ, Bool, true, false, Option, none, some, List, [], ◌∷◌, ◌++◌, ◌&&◌, ltb, if◌then◌else◌, is_empty,
  any, is_some, length,
}
use parse_x.Base.Text.{Text, codes, text_eq}
use parse_x.Base.Map.{Map, find, contains, try_emplace}
use parse_x.Model.{ParsedFile, ParsedProject}
use parse_x.Model.Raw.{RawNode, RawNodes, node, nil, cons, tag_name, attributes, text, span}
use parse_x.Validator.{ValidationError, ValidationResult, error, warning}
use parse_x.Validator.Tree.{trim_text, is_short_name, name_of, node_path}

-- The entry of a node itself. The first of two nodes with one path stays.
abbrev pub index_self : RawNode → Text → Map RawNode → Map RawNode
index_self n base_path out = elim (name_of n) [
  | none ↦ out
  | some name ↦ try_emplace (node_path base_path n) n out
]

unfoldable mutual
  pub index_node : RawNode → Text → Map RawNode → Map RawNode
  index_node (node t a x s c) base_path out =
      let n = node t a x s c in
      index_children c (node_path base_path n) (index_self n base_path out)

  pub index_children : RawNodes → Text → Map RawNode → Map RawNode
  index_children nil path out = out
  index_children (cons child rest) path out =
      let inner = index_node child path out in
      index_children rest path (if is_short_name child then out else inner)

-- Does the tag end in "-REF" after one character at least?
abbrev pub ends_with_ref : Text → Bool
ends_with_ref [] = false
ends_with_ref (c ∷ cs) = if text_eq (c ∷ cs) (codes "-REF") then true else ends_with_ref cs

unfoldable pub is_ref_tag : Text → Bool
is_ref_tag tag = ltb 4 (length tag) && ends_with_ref tag

abbrev pub dest_of : List (Text × Text) → Option Text
dest_of [] = none
dest_of ((key, value) ∷ rest) = if text_eq key (codes "DEST") then some value else dest_of rest

unfoldable pub dest_attr : RawNode → Option Text
dest_attr n = dest_of (attributes n)

pub record RefSite : Type 0 where
  pub site_node : RawNode
  pub dest : Text

abbrev pub ref_site : RawNode → List RefSite
ref_site n =
    if is_ref_tag (tag_name n)
    then elim (dest_attr n) [ none ↦ [] | some d ↦ record { site_node = n; dest = d } ∷ [] ]
    else []

unfoldable mutual
  pub collect_refs : RawNode → List RefSite
  collect_refs (node t a x s c) = ref_site (node t a x s c) ++ collect_child_refs c

  pub collect_child_refs : RawNodes → List RefSite
  collect_child_refs nil = []
  collect_child_refs (cons child rest) = collect_refs child ++ collect_child_refs rest

abbrev pub dest_to_tags : Map (List Text)
dest_to_tags =
    (codes "ECU-INSTANCE", codes "ECU-INSTANCE" ∷ [])
    ∷ (codes "FRAME", codes "FRAME" ∷ codes "CAN-FRAME" ∷ [])
    ∷ (codes "I-SIGNAL", codes "I-SIGNAL" ∷ [])
    ∷ (codes "I-SIGNAL-GROUP", codes "I-SIGNAL-GROUP" ∷ codes "SIGNAL-GROUP" ∷ [])
    ∷ (codes "PDU", codes "PDU" ∷ codes "I-SIGNAL-I-PDU" ∷ [])
    ∷ (codes "PDU-TRIGGERING", codes "PDU-TRIGGERING" ∷ [])
    ∷ (codes "PHYSICAL-CHANNEL", codes "PHYSICAL-CHANNEL" ∷ codes "CAN-PHYSICAL-CHANNEL" ∷ [])
    ∷ (codes "SIGNAL-GROUP", codes "SIGNAL-GROUP" ∷ codes "I-SIGNAL-GROUP" ∷ [])
    ∷ (codes "SYSTEM-SIGNAL", codes "SYSTEM-SIGNAL" ∷ [])
    ∷ []

unfoldable pub tag_matches_dest : Text → Text → Bool
unfolding find any
tag_matches_dest actual_tag dest = elim (find dest dest_to_tags) [
  | none ↦ true
  | some tags ↦ any (λ t. text_eq t actual_tag) tags
]

abbrev pub index_file : ParsedFile → Map RawNode → Map RawNode
index_file file out = elim file.raw_document [ none ↦ out | some root ↦ index_node root [] out ]

unfoldable pub index_files : List ParsedFile → Map RawNode → Map RawNode
index_files [] out = out
index_files (file ∷ files) out = index_files files (index_file file out)

unfoldable pub build_reference_path_index : ParsedProject → Map RawNode
unfolding index_files
build_reference_path_index project = index_files project.files []

abbrev pub dangling : RawNode → Text → ValidationError
dangling ref path = record {
  severity = error;
  code = codes "ref.dangling";
  message = codes "dangling reference to '" ++ (path ++ codes "'");
  location = some (span ref);
  path = some path;
  expected_type = none;
  actual_type = none;
}

abbrev pub dest_unrecognized : RawNode → Text → Text → ValidationError
dest_unrecognized ref path dest = record {
  severity = warning;
  code = codes "ref.dest_unrecognized";
  message = codes "unrecognized DEST '" ++ (dest ++ (codes "' for '" ++ (path ++ codes "'")));
  location = some (span ref);
  path = some path;
  expected_type = some dest;
  actual_type = none;
}

abbrev pub type_mismatch : RawNode → Text → Text → Text → ValidationError
type_mismatch ref path dest actual_tag = record {
  severity = error;
  code = codes "ref.type_mismatch";
  message =
      codes "reference to '"
      ++ (path
          ++ (codes "' expects DEST '"
              ++ (dest ++ (codes "' but resolves to <" ++ (actual_tag ++ codes ">")))));
  location = some (span ref);
  path = some path;
  expected_type = some dest;
  actual_type = some actual_tag;
}

-- The body of the loop over the sites.
unfoldable pub check_site : Map RawNode → RefSite → List ValidationError
unfolding find tag_matches_dest trim_text
check_site index site =
    let ref = site.site_node in
    let path = trim_text (text ref) in
    if is_empty path then [] else elim (find path index) [
      | none ↦ dangling ref path ∷ []
      | some target ↦
          if contains site.dest dest_to_tags
          then if tag_matches_dest (tag_name target) site.dest
            then []
            else type_mismatch ref path site.dest (tag_name target) ∷ []
          else dest_unrecognized ref path site.dest ∷ []
    ]

unfoldable pub check_sites : Map RawNode → List RefSite → List ValidationError
unfolding check_site
check_sites index [] = []
check_sites index (site ∷ sites) = check_site index site ++ check_sites index sites

abbrev pub file_sites : ParsedFile → List RefSite
file_sites file = elim file.raw_document [ none ↦ [] | some root ↦ collect_refs root ]

unfoldable pub check_reference_files : Map RawNode → List ParsedFile → List ValidationError
unfolding check_sites
check_reference_files index [] = []
check_reference_files index (file ∷ files) =
    check_sites index (file_sites file) ++ check_reference_files index files

unfoldable pub validate_references : ParsedProject → ValidationResult
unfolding build_reference_path_index check_reference_files
validate_references project = record {
  errors = check_reference_files (build_reference_path_index project) project.files;
}
