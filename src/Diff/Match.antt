-- ===== src/Diff/Match.antt =====
-- Matching by path (diff_match.hpp, diff_match.cpp).
pub mod Index
pub mod Exact
use parse_x.Base.{List, [], ◌∷◌, ◌++◌, not, if◌then◌else◌, is_empty}
use parse_x.Base.Text.{Text, codes}
use parse_x.Base.Map.{Map, contains, try_emplace}
use parse_x.Model.{
  CommonFields, Cluster, EcuInstance, Frame, Pdu, Signal, SignalGroup, ParsedFile, ParsedProject,
}
use parse_x.Diff.Report.{added, removed, modified, DiffEntry, DiffReport, no_differences, merge}

unfoldable pub diff_path_for_short_name : Text → Text
diff_path_for_short_name [] = []
diff_path_for_short_name (c ∷ cs) = codes "/" ++ (c ∷ cs)

module _ {ℓ} {T : Type ℓ} where
  -- `indexByPath` from an index on; `common` is the member access of the element type.
  unfoldable pub index_onto : (T → CommonFields) → Map T → List T → Map T
  unfolding try_emplace diff_path_for_short_name
  index_onto common index [] = index
  index_onto common index (element ∷ elements) =
      let path = diff_path_for_short_name (common element).short_name in
      index_onto common (if is_empty path then index else try_emplace path element index) elements

  unfoldable pub index_by_path : (T → CommonFields) → List T → Map T
  unfolding index_onto
  index_by_path common elements = index_onto common [] elements

  -- The three loops of `matchByPath`.
  unfoldable pub removed_entries : Text → Map T → Map T → List DiffEntry
  removed_entries type new [] = []
  removed_entries type new ((path, item) ∷ old) =
      let rest = removed_entries type new old in
      if not (contains path new)
      then record {
        kind = removed;
        element_type = type;
        old_path = path;
        new_path = [];
        field_diffs = [];
      }
        ∷ rest
      else rest

  unfoldable pub added_entries : Text → Map T → Map T → List DiffEntry
  added_entries type old [] = []
  added_entries type old ((path, item) ∷ new) =
      let rest = added_entries type old new in
      if not (contains path old)
      then record {
        kind = added;
        element_type = type;
        old_path = [];
        new_path = path;
        field_diffs = [];
      }
        ∷ rest
      else rest

  unfoldable pub modified_entries : Text → Map T → Map T → List DiffEntry
  modified_entries type new [] = []
  modified_entries type new ((path, item) ∷ old) =
      let rest = modified_entries type new old in
      if contains path new
      then record {
        kind = modified;
        element_type = type;
        old_path = path;
        new_path = path;
        field_diffs = [];
      }
        ∷ rest
      else rest

  unfoldable pub match_by_path : Map T → Map T → Text → DiffReport
  unfolding removed_entries added_entries modified_entries
  match_by_path old_index new_index type = record {
    entries =
        removed_entries type new_index old_index
        ++ (added_entries type old_index new_index ++ modified_entries type new_index old_index);
    diagnostics = [];
  }

  -- `collectAll`: the elements of one type in all files, in order.
  unfoldable pub collect_from : (ParsedFile → List T) → List ParsedFile → List T
  collect_from member [] = []
  collect_from member (file ∷ files) = member file ++ collect_from member files

  abbrev pub collect_all : (ParsedFile → List T) → ParsedProject → List T
  collect_all member project = collect_from member project.files

-- The index of each element type over a whole project, as the passes build them.
pub record Indexes : Type 0 where
  pub clusters : Map Cluster
  pub ecu_instances : Map EcuInstance
  pub frames : Map Frame
  pub pdus : Map Pdu
  pub signals : Map Signal
  pub signal_groups : Map SignalGroup

unfoldable pub build_indexes : ParsedProject → Indexes
unfolding index_by_path collect_from
build_indexes project = record {
  clusters = index_by_path (λ e. e.common) (collect_all (λ f. f.clusters) project);
  ecu_instances = index_by_path (λ e. e.common) (collect_all (λ f. f.ecu_instances) project);
  frames = index_by_path (λ e. e.common) (collect_all (λ f. f.frames) project);
  pdus = index_by_path (λ e. e.common) (collect_all (λ f. f.pdus) project);
  signals = index_by_path (λ e. e.common) (collect_all (λ f. f.signals) project);
  signal_groups = index_by_path (λ e. e.common) (collect_all (λ f. f.signal_groups) project);
}

-- The six matching passes of `matchParsedProjects`, each merged into the report.
unfoldable pub match_indexes : Indexes → Indexes → DiffReport
match_indexes old new =
    let r1 = merge no_differences (match_by_path old.clusters new.clusters (codes "Cluster")) in
    let r2 = merge r1 (match_by_path old.ecu_instances new.ecu_instances (codes "EcuInstance")) in
    let r3 = merge r2 (match_by_path old.frames new.frames (codes "Frame")) in
    let r4 = merge r3 (match_by_path old.pdus new.pdus (codes "Pdu")) in
    let r5 = merge r4 (match_by_path old.signals new.signals (codes "Signal")) in
    merge r5 (match_by_path old.signal_groups new.signal_groups (codes "SignalGroup"))

unfoldable pub match_parsed_projects : ParsedProject → ParsedProject → DiffReport
unfolding build_indexes match_indexes
match_parsed_projects old_project new_project =
    match_indexes (build_indexes old_project) (build_indexes new_project)
