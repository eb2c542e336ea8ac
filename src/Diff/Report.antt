-- ===== src/Diff/Report.antt =====
-- The report of a diff and its deterministic order (diff_report.hpp, diff_report.cpp).
pub mod Order
use parse_x.Base.{Bool, List, [], ◌++◌, is_empty, ◌&&◌, not, if◌then◌else◌}
use parse_x.Base.Text.{Text, codes, text_eq, text_lt}
use parse_x.Base.Sort.{sort_by}

pub data DiffKind : Type 0 where
  added removed moved modified : DiffKind

pub record FieldDiff : Type 0 where
  pub field_name : Text
  pub old_value : Text
  pub new_value : Text

-- `old_path` is set for all kinds but added, `new_path` for all but removed.
pub record DiffEntry : Type 0 where
  pub kind : DiffKind
  pub element_type : Text
  pub old_path : Text
  pub new_path : Text
  pub field_diffs : List FieldDiff

pub record DiffDiagnostic : Type 0 where
  pub message : Text
  pub element_type : Text

pub record DiffReport : Type 0 where
  pub entries : List DiffEntry
  pub diagnostics : List DiffDiagnostic

abbrev pub no_differences : DiffReport
no_differences = record { entries = []; diagnostics = [] }

-- `DiffReport::empty` and `hasEntries`.
abbrev pub is_empty_report : DiffReport → Bool
is_empty_report r = is_empty r.entries && is_empty r.diagnostics

abbrev pub has_entries : DiffReport → Bool
has_entries r = not (is_empty r.entries)

unfoldable pub merge : DiffReport → DiffReport → DiffReport
merge r other = record {
  entries = r.entries ++ other.entries;
  diagnostics = r.diagnostics ++ other.diagnostics;
}

-- `sortKeyFor`
unfoldable pub sort_key_for : DiffEntry → Text
sort_key_for e = elim e.kind [
  | added ↦ e.new_path
  | modified ↦ e.new_path
  | moved ↦ e.new_path
  | removed ↦ e.old_path
]

-- The two comparators of `sortDeterministically`.
unfoldable pub entry_lt : DiffEntry → DiffEntry → Bool
unfolding sort_key_for
entry_lt first second =
    if not (text_eq (sort_key_for first) (sort_key_for second))
    then text_lt (sort_key_for first) (sort_key_for second)
    else text_lt first.element_type second.element_type

unfoldable pub diagnostic_lt : DiffDiagnostic → DiffDiagnostic → Bool
diagnostic_lt first second =
    if not (text_eq first.message second.message)
    then text_lt first.message second.message
    else text_lt first.element_type second.element_type

unfoldable pub sort_deterministically : DiffReport → DiffReport
sort_deterministically r = record {
  entries = sort_by entry_lt r.entries;
  diagnostics = sort_by diagnostic_lt r.diagnostics;
}
