-- ===== src/Diff/Populate.antt =====
-- Field differences of the matched pairs (diff_populate.cpp).
use parse_x.Base.{Option, some, List, [], ◌∷◌, ◌++◌, if◌then◌else◌, is_empty}
use parse_x.Base.Text.{Text, codes, text_eq}
use parse_x.Base.Map.{Map, find}
use parse_x.Model.{Double, ParsedProject}
use parse_x.Diff.Report.{added, removed, moved, modified, FieldDiff, DiffEntry, DiffReport}
use parse_x.Diff.Fields.{diff_struct, cluster_fields, ecu_instance_fields}
use parse_x.Diff.Nested.{
  diff_frame_elements, diff_pdu_elements, diff_signal_elements, diff_signal_group_elements,
}
use parse_x.Diff.Match.{Indexes, build_indexes}

module _ {ℓ} {T : Type ℓ} where
  abbrev pub if_both : (T → T → List FieldDiff) → Option T → Option T → List FieldDiff
  if_both item_diff (some old) (some new) = item_diff old new
  if_both item_diff _ _ = []

  -- One branch of `diffPair`: both paths are looked up.
  unfoldable pub diff_at : (T → T → List FieldDiff) → Map T → Map T → Text → Text → List FieldDiff
  unfolding find
  diff_at item_diff old_index new_index old_path new_path =
      if_both item_diff (find old_path old_index) (find new_path new_index)

module _ (double_value : Double → Text) where
  unfoldable pub diff_pair : Text → Text → Text → Indexes → Indexes → List FieldDiff
  unfolding diff_at diff_struct cluster_fields ecu_instance_fields diff_frame_elements
      diff_pdu_elements diff_signal_elements diff_signal_group_elements
  diff_pair type old_path new_path old new =
      if text_eq type (codes "Cluster")
      then diff_at (diff_struct cluster_fields) old.clusters new.clusters old_path new_path
      else if text_eq type (codes "EcuInstance")
      then diff_at (diff_struct ecu_instance_fields) old.ecu_instances new.ecu_instances old_path
          new_path
      else if text_eq type (codes "Frame")
      then diff_at diff_frame_elements old.frames new.frames old_path new_path
      else if text_eq type (codes "Pdu")
      then diff_at diff_pdu_elements old.pdus new.pdus old_path new_path
      else if text_eq type (codes "Signal")
      then diff_at (diff_signal_elements double_value) old.signals new.signals old_path new_path
      else if text_eq type (codes "SignalGroup")
      then diff_at diff_signal_group_elements old.signal_groups new.signal_groups old_path new_path
      else []

  -- The body of the loop: the entries that it appends to `kept`.
  unfoldable pub populate_entry : Indexes → Indexes → DiffEntry → List DiffEntry
  unfolding diff_pair
  populate_entry old new entry =
      let filled = record entry {
        field_diffs = diff_pair entry.element_type entry.old_path entry.new_path old new;
      } in
      elim entry.kind [
        | added ↦ entry ∷ []
        | removed ↦ entry ∷ []
        | moved ↦ filled ∷ []
        | modified ↦ if is_empty filled.field_diffs then [] else filled ∷ []
      ]

  unfoldable pub populate_entries : Indexes → Indexes → List DiffEntry → List DiffEntry
  unfolding populate_entry
  populate_entries old new [] = []
  populate_entries old new (e ∷ es) = populate_entry old new e ++ populate_entries old new es

  unfoldable pub populate_report : Indexes → Indexes → DiffReport → DiffReport
  unfolding populate_entries
  populate_report old new report = record report {
    entries = populate_entries old new report.entries;
  }

  unfoldable pub populate_field_diffs : ParsedProject → ParsedProject → DiffReport → DiffReport
  unfolding build_indexes populate_report
  populate_field_diffs old_project new_project report =
      populate_report (build_indexes old_project) (build_indexes new_project) report
