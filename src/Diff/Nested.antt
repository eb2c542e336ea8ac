-- ===== src/Diff/Nested.antt =====
-- Nested collections compared by key (diff_nested.hpp), and the element comparisons made of them.
pub mod Elements
pub mod Reorder
use parse_x.Base.{
  Bool, true, false, Option, none, some, List, [], ◌∷◌, ◌++◌, not, ◌&&◌, ◌||◌, if◌then◌else◌, keep,
  is_empty, is_some, value_or,
}
use parse_x.Base.Text.{Text, codes, text_eq}
use parse_x.Base.Map.{Map, find, contains, emplace_all}
use parse_x.Base.Int.{int_to_string}
use parse_x.Model.{
  FramePduMapping, Frame, PduSignalMapping, Pdu, ValueTableEntry, Signal, SignalGroup, Double,
}
use parse_x.Diff.Report.{FieldDiff}
use parse_x.Diff.Fields.{
  Described, diff_struct, text_value, frame_pdu_mapping_value, pdu_signal_mapping_value,
  value_table_entry_value, frame_pdu_mapping_fields, frame_fields, pdu_signal_mapping_fields,
  pdu_fields, value_table_entry_fields, signal_fields, signal_group_fields,
}

-- `fieldName + "[" + key + "]"`
abbrev pub item_label : Text → Text → Text
item_label field key = field ++ (codes "[" ++ (key ++ codes "]"))

abbrev pub absent : Text
absent = codes "absent"

-- The differences of one matched item, under its label.
unfoldable pub labelled : Text → Text → List FieldDiff → List FieldDiff
labelled field key [] = []
labelled field key (sub ∷ subs) =
    record sub { field_name = item_label field key ++ (codes "." ++ sub.field_name) }
    ∷ labelled field key subs

module _ {ℓ} {T : Type ℓ} where
  -- The loop over `oldByKey` that reports what `newByKey` lacks.
  unfoldable pub removed_items : (T → Text) → Text → Map T → Map T → List FieldDiff
  removed_items value field new [] = []
  removed_items value field new ((key, item) ∷ old) =
      let rest = removed_items value field new old in
      if not (contains key new)
      then record { field_name = item_label field key; old_value = value item; new_value = absent }
        ∷ rest
      else rest

  -- The loop over `newByKey` that reports what `oldByKey` lacks.
  unfoldable pub added_items : (T → Text) → Text → Map T → Map T → List FieldDiff
  added_items value field old [] = []
  added_items value field old ((key, item) ∷ new) =
      let rest = added_items value field old new in
      if not (contains key old)
      then record { field_name = item_label field key; old_value = absent; new_value = value item }
        ∷ rest
      else rest

  unfoldable pub matched_item :
      (T → T → List FieldDiff) → Text → Text → T → Option T → List FieldDiff
  unfolding labelled
  matched_item item_diff field key item none = []
  matched_item item_diff field key item (some other) = labelled field key (item_diff item other)

  -- The loop over `oldByKey` that compares what both have.
  unfoldable pub matched_items : (T → T → List FieldDiff) → Text → Map T → Map T → List FieldDiff
  unfolding matched_item
  matched_items item_diff field new [] = []
  matched_items item_diff field new ((key, item) ∷ old) =
      matched_item item_diff field key item (find key new) ++ matched_items item_diff field new old

  -- `diffNestedCollectionWith`; `value` is the overload of `diffValueToString` for the items.
  unfoldable pub diff_nested_collection_with :
      (T → Text) → (T → Text) → (T → T → List FieldDiff) → Text → List T → List T → List FieldDiff
  unfolding removed_items added_items matched_items emplace_all
  diff_nested_collection_with value key_of item_diff field old_items new_items =
      let old_by_key = emplace_all key_of (λ x. x) [] old_items in
      let new_by_key = emplace_all key_of (λ x. x) [] new_items in
      removed_items value field new_by_key old_by_key
      ++ (added_items value field old_by_key new_by_key
          ++ matched_items item_diff field new_by_key old_by_key)

  -- `diffNestedCollection` for the structs: matched items are compared field by field.
  unfoldable pub diff_nested_structs :
      Described T → (T → Text) → (T → Text) → Text → List T → List T → List FieldDiff
  unfolding diff_nested_collection_with diff_struct
  diff_nested_structs d value key_of = diff_nested_collection_with value key_of (diff_struct d)

-- `diffNestedCollection` for strings, each its own key (`signalGroupMemberKey`).
unfoldable pub diff_nested_texts : Text → List Text → List Text → List FieldDiff
unfolding diff_nested_collection_with
diff_nested_texts = diff_nested_collection_with text_value (λ member. member) (λ o n. [])

abbrev pub frame_pdu_mapping_key : FramePduMapping → Text
frame_pdu_mapping_key m = m.pdu_short_name_ref

abbrev pub pdu_signal_mapping_key : PduSignalMapping → Text
pdu_signal_mapping_key m = m.signal_short_name_ref

abbrev pub value_table_entry_key : ValueTableEntry → Text
value_table_entry_key e = int_to_string e.value

-- The opaque difference of a collection field, taken out by `std::remove_if`.
unfoldable pub without_field : Text → List FieldDiff → List FieldDiff
unfolding keep
without_field name = keep (λ d. not (text_eq d.field_name name))

unfoldable pub diff_signal_group_elements : SignalGroup → SignalGroup → List FieldDiff
unfolding without_field
diff_signal_group_elements old new =
    without_field (codes "members") (diff_struct signal_group_fields old new)
    ++ diff_nested_texts (codes "members") old.members new.members

-- The fold of the transmitters, made only where their opaque difference is there.
unfoldable pub fold_transmitters : Bool → Frame → Frame → List FieldDiff → List FieldDiff
unfolding without_field
fold_transmitters false old new diffs =
    without_field (codes "transmitters") diffs
    ++ diff_nested_texts (codes "transmitters") old.transmitters new.transmitters
fold_transmitters true old new diffs = diffs

unfoldable pub diff_frame_elements : Frame → Frame → List FieldDiff
unfolding without_field fold_transmitters keep
diff_frame_elements old new =
    let diffs =
      without_field (codes "pdus") (diff_struct frame_fields old new)
      ++ diff_nested_structs frame_pdu_mapping_fields frame_pdu_mapping_value frame_pdu_mapping_key
          (codes "pdus") old.pdus new.pdus in
    let tx_opaque =
      keep (λ d. text_eq d.field_name (codes "transmitters")) (diff_struct frame_fields old new) in
    fold_transmitters (is_empty tx_opaque) old new diffs

unfoldable pub diff_pdu_elements : Pdu → Pdu → List FieldDiff
unfolding without_field
diff_pdu_elements old new =
    without_field (codes "signalMappings") (diff_struct pdu_fields old new)
    ++ diff_nested_structs pdu_signal_mapping_fields pdu_signal_mapping_value pdu_signal_mapping_key
        (codes "signalMappings") old.signal_mappings new.signal_mappings

abbrev pub same_presence : Bool → Bool → Bool
same_presence true b = b
same_presence false b = not b

unfoldable pub diff_signal_value_table :
    Option (List ValueTableEntry) → Option (List ValueTableEntry) → List FieldDiff
diff_signal_value_table old_table new_table =
    let old_items = value_or old_table [] in
    let new_items = value_or new_table [] in
    if (is_empty old_items && is_empty new_items)
      && same_presence (is_some old_table) (is_some new_table)
    then []
    else diff_nested_structs value_table_entry_fields value_table_entry_value value_table_entry_key
        (codes "valueTable") old_items new_items

unfoldable pub diff_signal_elements : (Double → Text) → Signal → Signal → List FieldDiff
unfolding keep diff_signal_value_table
diff_signal_elements double_value old new =
    keep
      (λ d.
        not (text_eq d.field_name (codes "valueTable") || text_eq d.field_name (codes "receivers")))
      (diff_struct (signal_fields double_value) old new)
    ++ (diff_signal_value_table old.value_table new.value_table
        ++ diff_nested_texts (codes "receivers") old.receivers new.receivers)
