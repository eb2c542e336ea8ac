-- ===== src/Diff/Moves.antt =====
-- Move detection (diff_moves.hpp, diff_moves.cpp).
pub mod Groups
pub mod Marks
pub mod Sound
pub mod Kept
use parse_x.Base.{
  ℕ, suc, ◌+◌, Bool, true, false, Option, none, some, List, [], ◌∷◌, ◌++◌, map, not, ◌&&◌, ◌==◌,
  ltb, if◌then◌else◌, is_empty, length, get_elem?, set,
}
use parse_x.Base.Text.{Text, codes, text_eq, text_lt}
use parse_x.Base.Decimal.{to_string}
use parse_x.Base.Sort.{sort_by}
use parse_x.Base.Map.{Map, find, upsert}
use parse_x.Model.{
  Cluster, EcuInstance, FramePduMapping, Frame, PduSignalMapping, Pdu, Signal, SignalGroup,
  ParsedProject,
}
use parse_x.Diff.Report.{DiffKind, added, removed, moved, modified, DiffEntry, DiffReport}
use parse_x.Diff.Fields.{order_letter}
use parse_x.Diff.Match.{Indexes, build_indexes}

-- The items with a separator between two of them.
unfoldable pub join_with : Text → List Text → Text
join_with sep [] = []
join_with sep (x ∷ []) = x
join_with sep (x ∷ y ∷ ys) = x ++ (sep ++ join_with sep (y ∷ ys))

unfoldable pub join_sorted : List Text → Text
unfolding join_with sort_by text_lt
join_sorted items = join_with (codes ",") (sort_by text_lt items)

-- The overloads of `secondaryKey`.
abbrev pub baudrate_text : Option ℕ → Text
baudrate_text none = codes "-"
baudrate_text (some b) = to_string b

unfoldable pub cluster_key : Cluster → Option Text
unfolding join_sorted
cluster_key c = some (
    codes "baud:"
    ++ (baudrate_text c.baudrate ++ (codes "|ch:" ++ join_sorted c.physical_channels)))

unfoldable pub ecu_instance_key : EcuInstance → Option Text
unfolding join_sorted
ecu_instance_key e = some (
    codes "ch:"
    ++ (join_sorted e.connected_channels ++ (codes "|ctrl:" ++ join_sorted e.controllers)))

abbrev pub frame_mapping_text : FramePduMapping → Text
frame_mapping_text m = m.pdu_short_name_ref ++ (codes "@" ++ to_string m.start_position)

unfoldable pub frame_key : Frame → Option Text
unfolding join_sorted
frame_key f = some (
    codes "len:"
    ++ (to_string f.length
        ++ (codes "|tx:"
            ++ (join_sorted f.transmitters
                ++ (codes "|pdu:" ++ join_sorted (map frame_mapping_text f.pdus))))))

abbrev pub pdu_mapping_text : PduSignalMapping → Text
pdu_mapping_text m = m.signal_short_name_ref ++ (codes "@" ++ to_string m.start_position)

unfoldable pub pdu_key : Pdu → Option Text
unfolding join_sorted
pdu_key p = some (
    codes "len:"
    ++ (to_string p.length
        ++ (codes "|sig:" ++ join_sorted (map pdu_mapping_text p.signal_mappings))))

unfoldable pub signal_key : Signal → Option Text
unfolding join_sorted
signal_key s = some (
    codes "start:"
    ++ (to_string s.start_bit
        ++ (codes "|len:"
            ++ (to_string s.bit_length
                ++ (codes "|order:"
                    ++ (order_letter s.byte_order ++ (codes "|rx:" ++ join_sorted s.receivers)))))))

unfoldable pub signal_group_key : SignalGroup → Option Text
unfolding join_sorted
signal_group_key g = some (codes "m:" ++ join_sorted g.members)

-- The entries of one secondary key, by their places in the report.
pub record Group : Type 0 where
  pub removed_idx : List ℕ
  pub added_idx : List ℕ

abbrev pub empty_group : Group
empty_group = record { removed_idx = []; added_idx = [] }

abbrev pub push_removed : ℕ → Group → Group
push_removed i g = record g { removed_idx = g.removed_idx ++ i ∷ [] }

abbrev pub push_added : ℕ → Group → Group
push_added i g = record g { added_idx = g.added_idx ++ i ∷ [] }

unfoldable pub put_in_group : Option Text → (Group → Group) → Map Group → Map Group
unfolding upsert
put_in_group none change groups = groups
put_in_group (some key) change groups = upsert key empty_group change groups

module _ {ℓ} {T : Type ℓ} (secondary_key : T → Option Text) where
  -- The key of the element at a path; a path that is not in the index has none.
  unfoldable pub key_at : Map T → Text → Option Text
  unfolding find
  key_at index path = elim (find path index) [ none ↦ none | some item ↦ secondary_key item ]

  -- What the first loop does with the entry at place `i`.
  unfoldable pub group_entry : Map T → Map T → Text → ℕ → DiffEntry → Map Group → Map Group
  unfolding key_at put_in_group
  group_entry old_index new_index type i entry groups =
      if not (text_eq entry.element_type type) then groups else elim entry.kind [
        | removed ↦ put_in_group (key_at old_index entry.old_path) (push_removed i) groups
        | added ↦ put_in_group (key_at new_index entry.new_path) (push_added i) groups
        | moved ↦ groups
        | modified ↦ groups
      ]

  unfoldable pub collect_groups : Map T → Map T → Text → ℕ → List DiffEntry → Map Group → Map Group
  unfolding group_entry
  collect_groups old_index new_index type i [] groups = groups
  collect_groups old_index new_index type i (entry ∷ entries) groups =
      collect_groups old_index new_index type (suc i) entries
        (group_entry old_index new_index type i entry groups)

-- The loop variables of the second loop.
pub record Pairing : Type 0 where
  pub report : DiffReport
  pub added_to_erase : List ℕ

abbrev pub as_moved : DiffEntry → DiffEntry → DiffEntry
as_moved was now = record was { kind = moved; new_path = now.new_path }

-- `report.entries[r]` becomes a move to the path of `report.entries[a]`.
unfoldable pub mark_moved : ℕ → ℕ → List DiffEntry → List DiffEntry
mark_moved r a entries = elim (get_elem? entries r) [
  | none ↦ entries
  | some was ↦ elim (get_elem? entries a) [
    | none ↦ entries
    | some now ↦ set entries r (as_moved was now)
  ]
]

abbrev pub removed_candidate : List DiffEntry → ℕ → Text
removed_candidate entries i = elim (get_elem? entries i) [
  | none ↦ codes "removed:"
  | some e ↦ codes "removed:" ++ e.old_path
]

abbrev pub added_candidate : List DiffEntry → ℕ → Text
added_candidate entries i = elim (get_elem? entries i) [
  | none ↦ codes "added:"
  | some e ↦ codes "added:" ++ e.new_path
]

unfoldable pub ambiguity_message : Text → Text → Group → List DiffEntry → Text
unfolding join_with
ambiguity_message type key group entries =
    to_string (length group.removed_idx + length group.added_idx)
    ++ (codes " candidates shared secondary key "
        ++ (key
            ++ (codes " for type "
                ++ (type
                    ++ (codes ", no move inferred ("
                        ++ (join_with (codes ", ") (
                              map (removed_candidate entries) group.removed_idx
                              ++ map (added_candidate entries) group.added_idx)
                            ++ codes ")"))))))

-- The body of the second loop: a clean pair is a move, two sides without one are ambiguous.
unfoldable pub pair_group : Text → Text → List ℕ → List ℕ → Pairing → Pairing
unfolding mark_moved ambiguity_message
pair_group type key (r ∷ []) (a ∷ []) p = record {
  report = record p.report { entries = mark_moved r a p.report.entries };
  added_to_erase = p.added_to_erase ++ a ∷ [];
}
pair_group type key [] added_idx p = p
pair_group type key removed_idx [] p = p
pair_group type key removed_idx added_idx p = record p {
  report = record p.report {
    diagnostics =
        p.report.diagnostics
        ++ (record {
          message =
              ambiguity_message type key
                (record { removed_idx = removed_idx; added_idx = added_idx }) p.report.entries;
          element_type = type;
        })
          ∷ [];
  };
}

unfoldable pub pair_groups : Text → Map Group → Pairing → Pairing
unfolding pair_group
pair_groups type [] p = p
pair_groups type ((key, group) ∷ groups) p =
    pair_groups type groups (pair_group type key group.removed_idx group.added_idx p)

-- Does the place `i` stand at the front of the sorted places to erase?
abbrev pub is_next : ℕ → List ℕ → Bool
is_next i [] = false
is_next i (p ∷ ps) = p == i

abbrev pub rest_of : List ℕ → List ℕ
rest_of [] = []
rest_of (p ∷ ps) = ps

-- The last loop; the places behind `erasePos` are the list `erase`.
unfoldable pub drop_erased : ℕ → List ℕ → List DiffEntry → List DiffEntry
drop_erased i erase [] = []
drop_erased i erase (e ∷ es) =
    let kept = drop_erased (suc i) (if is_next i erase then rest_of erase else erase) es in
    if is_next i erase then kept else e ∷ kept

unfoldable pub erase_added : Pairing → DiffReport
unfolding drop_erased sort_by
erase_added p =
    if is_empty p.added_to_erase
    then p.report
    else record p.report { entries = drop_erased 0 (sort_by ltb p.added_to_erase) p.report.entries }

unfoldable pub detect_moves_for_type {ℓ} :
    {T : Type ℓ} → (T → Option Text) → Map T → Map T → Text → DiffReport → DiffReport
unfolding collect_groups pair_groups erase_added
detect_moves_for_type secondary_key old_index new_index type report =
    let groups = collect_groups secondary_key old_index new_index type 0 report.entries [] in
    erase_added (pair_groups type groups (record { report = report; added_to_erase = [] }))

-- The six passes of `applyMoveDetection`.
unfoldable pub detect_moves : Indexes → Indexes → DiffReport → DiffReport
detect_moves old new matched =
    let r1 =
      detect_moves_for_type cluster_key old.clusters new.clusters (codes "Cluster") matched in
    let r2 =
      detect_moves_for_type ecu_instance_key old.ecu_instances new.ecu_instances
        (codes "EcuInstance") r1 in
    let r3 = detect_moves_for_type frame_key old.frames new.frames (codes "Frame") r2 in
    let r4 = detect_moves_for_type pdu_key old.pdus new.pdus (codes "Pdu") r3 in
    let r5 = detect_moves_for_type signal_key old.signals new.signals (codes "Signal") r4 in
    detect_moves_for_type signal_group_key old.signal_groups new.signal_groups (codes "SignalGroup")
      r5

unfoldable pub apply_move_detection : ParsedProject → ParsedProject → DiffReport → DiffReport
unfolding build_indexes detect_moves
apply_move_detection old_project new_project matched =
    detect_moves (build_indexes old_project) (build_indexes new_project) matched
