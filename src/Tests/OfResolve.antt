-- ===== src/Tests/OfResolve.antt =====
-- The final resolution of a concrete project, whose frames name transmitters that no file defines.
use parse_x.Base.{true, none, [], ◌∷◌, ◌≡◌, ◌↔◌}
use parse_x.Base.Text.{Text, codes}
use parse_x.Model.{ParsedProject}
use parse_x.Resolve.{wanted_is_empty, collect_wanted_refs, completed, resolve_cross_file_references}
use parse_x.Resolve.Targets.{HasTargets, completed-HasTargets}
use parse_x.Resolve.Complete.{collect_wanted_refs-completed}
use parse_x.Tests.{frame_of, file_of, project_of}

abbrev project : ParsedProject
project = project_of (file_of (frame_of (codes "Brake") (codes "A" ∷ []) [] ∷ []) [] [] none ∷ [])

-- The directory of each file is the one it is looked for in.
abbrev here_directory : Text → Text
here_directory path = []

collect_wanted_refs-completed_example :
    (wanted_is_empty (collect_wanted_refs project) ≡ true)
    ↔ ((p : ParsedProject) × (resolve_cross_file_references here_directory project ≡ completed p))
collect_wanted_refs-completed_example = collect_wanted_refs-completed here_directory project

completed-HasTargets_example :
    ((p : ParsedProject) × (resolve_cross_file_references here_directory project ≡ completed p))
    ↔ HasTargets project
completed-HasTargets_example = completed-HasTargets here_directory project
