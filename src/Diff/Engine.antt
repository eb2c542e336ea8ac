-- ===== src/Diff/Engine.antt =====
-- `DiffEngine::diff` (diff_engine.cpp): matching, move detection, field differences, ordering. The
-- telemetry spans around the passes do not touch the report and are left out.
pub mod Same
pub mod Reordered
pub mod Complete
use parse_x.Base.{◌≡◌, refl}
use parse_x.Base.Text.{Text}
use parse_x.Model.{Double, ParsedProject}
use parse_x.Diff.Report.{DiffReport, sort_deterministically}
use parse_x.Diff.Match.{Indexes, build_indexes, match_indexes, match_parsed_projects}
use parse_x.Diff.Moves.{detect_moves, apply_move_detection}
use parse_x.Diff.Populate.{populate_report, populate_field_diffs}

-- The passes over the indexes that each of them builds anew from the two projects.
unfoldable pub diff_indexes : (Double → Text) → Indexes → Indexes → DiffReport
unfolding match_indexes detect_moves populate_report sort_deterministically
diff_indexes double_value old new =
    sort_deterministically
      (populate_report double_value old new (detect_moves old new (match_indexes old new)))

unfoldable pub diff : (Double → Text) → ParsedProject → ParsedProject → DiffReport
unfolding match_parsed_projects apply_move_detection populate_field_diffs sort_deterministically
diff double_value old_project new_project =
    let matched = match_parsed_projects old_project new_project in
    let moved = apply_move_detection old_project new_project matched in
    let populated = populate_field_diffs double_value old_project new_project moved in
    sort_deterministically populated

pub diff-diff_indexes :
    (double_value : Double → Text) (old_project new_project : ParsedProject)
    → diff double_value old_project new_project
      ≡ diff_indexes double_value (build_indexes old_project) (build_indexes new_project)
unfolding diff diff_indexes
diff-diff_indexes double_value old_project new_project = refl
