-- ===== src/Diff/Render.antt =====
-- The report as text (diff_render.cpp: `toText`; diff_report.cpp: `toDebugString`).
pub mod Empty
use parse_x.Base.{
  Bool, true, false, List, [], ◌∷◌, ◌++◌, ◌&&◌, ◌||◌, not, ◌≡◌, ◌≢◌, ◌⊎◌, ◌↔◌, refl, sym, ap, ◌∙◌,
  arith, if◌then◌else◌, any, is_empty, length, Bool-cases, inl, inr,
}
use parse_x.Base.Text.{Text, codes}
use parse_x.Base.Decimal.{to_string}
use parse_x.Diff.Report.{
  DiffKind, added, removed, moved, modified, FieldDiff, DiffEntry, DiffDiagnostic, DiffReport,
  is_empty_report,
}

abbrev newline : Text
newline = 10 ∷ []

unfoldable pub render_field_lines : List FieldDiff → Text
render_field_lines [] = []
render_field_lines (f ∷ fs) =
    codes "    "
    ++ (f.field_name
        ++ (codes ": "
            ++ (f.old_value
                ++ (codes " -> " ++ (f.new_value ++ (newline ++ render_field_lines fs))))))

unfoldable pub render_entry_lines : DiffEntry → Text
unfolding render_field_lines
render_entry_lines e =
    let head = codes "  " ++ (e.element_type ++ codes " ") in
    elim e.kind [
      | added ↦ head ++ (e.new_path ++ newline)
      | removed ↦ head ++ (e.old_path ++ newline)
      | moved ↦
          head
          ++ (e.old_path
              ++ (codes " -> " ++ (e.new_path ++ (newline ++ render_field_lines e.field_diffs))))
      | modified ↦ head ++ (e.new_path ++ (newline ++ render_field_lines e.field_diffs))
    ]

abbrev pub is_of_kind : DiffKind → DiffKind → Bool
is_of_kind added added = true
is_of_kind removed removed = true
is_of_kind moved moved = true
is_of_kind modified modified = true
is_of_kind _ _ = false

unfoldable pub has_kind : List DiffEntry → DiffKind → Bool
unfolding any
has_kind entries kind = any (λ e. is_of_kind e.kind kind) entries

unfoldable pub section_lines : List DiffEntry → DiffKind → Text
unfolding render_entry_lines
section_lines [] kind = []
section_lines (e ∷ es) kind =
    (if is_of_kind e.kind kind then render_entry_lines e else []) ++ section_lines es kind

-- The stream so far, and whether no section is written yet.
abbrev pub Stream : Type 0
Stream = Text × Bool

unfoldable pub emit_section : List DiffEntry → Text → DiffKind → Stream → Stream
unfolding has_kind section_lines
emit_section entries title kind (text, first_section) =
    if has_kind entries kind
    then (
      text
          ++ ((if first_section then [] else newline)
              ++ (title ++ (codes ":" ++ (newline ++ section_lines entries kind)))),
      false,
    )
    else (text, first_section)

unfoldable pub diagnostic_lines : List DiffDiagnostic → Text
diagnostic_lines [] = []
diagnostic_lines (d ∷ ds) =
    codes "  ["
    ++ (d.element_type ++ (codes "] " ++ (d.message ++ (newline ++ diagnostic_lines ds))))

abbrev pub no_differences_text : Text
no_differences_text = codes "No differences." ++ newline

abbrev pub sections : List DiffEntry → Stream
sections entries = emit_section entries (codes "Modified") modified (
    emit_section entries (codes "Moved") moved (
      emit_section entries (codes "Removed") removed
        (emit_section entries (codes "Added") added ([], true))))

unfoldable pub to_text : DiffReport → Text
unfolding emit_section diagnostic_lines
to_text r =
    let (text, first_section) = sections r.entries in
    if is_empty_report r
    then no_differences_text
    else if is_empty r.diagnostics
    then text
    else text
      ++ ((if first_section then [] else newline)
          ++ (codes "Diagnostics:" ++ (newline ++ diagnostic_lines r.diagnostics)))

abbrev pub kind_text : DiffKind → Text
kind_text added = codes "Added"
kind_text removed = codes "Removed"
kind_text moved = codes "Moved"
kind_text modified = codes "Modified"

abbrev quoted : Text → Text
quoted t = codes "\"" ++ (t ++ codes "\"")

unfoldable pub entry_debug : DiffEntry → Text
entry_debug e =
    codes "["
    ++ (kind_text e.kind
        ++ (codes "] "
            ++ (e.element_type
                ++ ((elim e.kind [
                  | added ↦ codes " new=" ++ quoted e.new_path
                  | removed ↦ codes " old=" ++ quoted e.old_path
                  | moved ↦
                      codes " old=" ++ (quoted e.old_path ++ (codes " new=" ++ quoted e.new_path))
                  | modified ↦ codes " path=" ++ quoted e.new_path
                ])
                    ++ (codes " fields=" ++ to_string (length e.field_diffs))))))

unfoldable pub entries_debug : List DiffEntry → Text
unfolding entry_debug
entries_debug [] = []
entries_debug (e ∷ es) = newline ++ (codes "  " ++ (entry_debug e ++ entries_debug es))

unfoldable pub diagnostics_debug : List DiffDiagnostic → Text
diagnostics_debug [] = []
diagnostics_debug (d ∷ ds) =
    newline
    ++ (codes "  [Diagnostic] "
        ++ (d.element_type ++ (codes ": " ++ (d.message ++ diagnostics_debug ds))))

unfoldable pub to_debug_string : DiffReport → Text
unfolding entries_debug diagnostics_debug
to_debug_string r =
    codes "DiffReport("
    ++ (to_string (length r.entries)
        ++ (codes " entries, "
            ++ (to_string (length r.diagnostics)
                ++ (codes " diagnostics)"
                    ++ (entries_debug r.entries ++ diagnostics_debug r.diagnostics)))))
