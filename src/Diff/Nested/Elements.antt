-- ===== src/Diff/Nested/Elements.antt =====
-- The comparisons of whole elements on equal and on reordered elements.
use parse_x.Base.{
  Option, none, some, List, [], ◌∷◌, ◌++◌, ◌≡◌, refl, Bool-cases, inl, inr, if◌then◌else◌, keep,
  is_empty,
}
use parse_x.Base.Text.{Text, codes, text_eq, text_eq_refl}
use parse_x.Base.Decimal.{to_string}
use parse_x.Base.Map.Emplace.{SameKeyed}
use parse_x.Model.{Frame, Pdu, Signal, SignalGroup, Double, ValueTableEntry}
use parse_x.Diff.Report.{FieldDiff}
use parse_x.Diff.Fields.{
  diff_struct, diff_struct_impl, list_value, text_value, frame_fields, pdu_fields, signal_fields,
  signal_group_fields, frame_pdu_mapping_value, common_value, frame_pdu_mapping_fields,
  pdu_signal_mapping_fields, pdu_signal_mapping_value, value_table_entry_fields,
  value_table_entry_value,
}
use parse_x.Diff.Fields.Laws.{diff_struct_self}
use parse_x.Diff.Nested.{
  without_field, fold_transmitters, diff_frame_elements, diff_pdu_elements, diff_signal_elements,
  diff_signal_value_table, diff_signal_group_elements, frame_pdu_mapping_key,
  pdu_signal_mapping_key, value_table_entry_key,
}
use parse_x.Diff.Nested.Reorder.{
  diff_nested_texts_self, diff_nested_structs_self, diff_nested_texts-SameKeyed,
  diff_nested_structs-SameKeyed,
}

pub diff_signal_group_elements_self : (g : SignalGroup) → diff_signal_group_elements g g ≡ []
unfolding diff_signal_group_elements without_field
diff_signal_group_elements_self g =
    rw (diff_struct_self signal_group_fields g) (diff_nested_texts_self _ g.members)

pub diff_frame_elements_self : (f : Frame) → diff_frame_elements f f ≡ []
unfolding diff_frame_elements fold_transmitters without_field keep
diff_frame_elements_self f = rw (diff_struct_self frame_fields f) (
    diff_nested_structs_self frame_pdu_mapping_fields frame_pdu_mapping_value frame_pdu_mapping_key
      _ f.pdus)

pub diff_pdu_elements_self : (p : Pdu) → diff_pdu_elements p p ≡ []
unfolding diff_pdu_elements without_field
diff_pdu_elements_self p = rw (diff_struct_self pdu_fields p) (
    diff_nested_structs_self pdu_signal_mapping_fields pdu_signal_mapping_value
      pdu_signal_mapping_key _ p.signal_mappings)

diff_signal_value_table_self :
    (t : Option (List ValueTableEntry)) → diff_signal_value_table t t ≡ []
unfolding diff_signal_value_table
diff_signal_value_table_self none = refl
diff_signal_value_table_self (some []) = refl
diff_signal_value_table_self (some (e ∷ es)) =
    diff_nested_structs_self value_table_entry_fields value_table_entry_value value_table_entry_key
      _ (e ∷ es)

pub diff_signal_elements_self :
    (double_value : Double → Text) (s : Signal) → diff_signal_elements double_value s s ≡ []
unfolding diff_signal_elements keep
diff_signal_elements_self double_value s =
    rw (diff_struct_self (signal_fields double_value) s, diff_signal_value_table_self s.value_table)
      (diff_nested_texts_self _ s.receivers)

-- Frames that differ in place, and in the order of their transmitters and PDU mappings, only.
pub record SameFrame (a b : Frame) : Type 0 where
  pub category : a.common.category ≡ b.common.category
  pub length : a.length ≡ b.length
  pub transmitters : SameKeyed (λ t. t) a.transmitters b.transmitters
  pub pdus : SameKeyed frame_pdu_mapping_key a.pdus b.pdus

abbrev transmitters_change : Text → Text → List FieldDiff
transmitters_change t u =
    if text_eq t u
    then []
    else record { field_name = codes "transmitters"; old_value = t; new_value = u } ∷ []

abbrev frame_change : Text → Text → Text → Text → Text → Text → List FieldDiff
frame_change c l t u p q =
    diff_struct_impl (codes "common" ∷ codes "length" ∷ codes "transmitters" ∷ codes "pdus" ∷ [])
      (c ∷ l ∷ t ∷ p ∷ []) (c ∷ l ∷ u ∷ q ∷ [])

without_pdus :
    (c l t u p q : Text)
    → without_field (codes "pdus") (frame_change c l t u p q) ≡ transmitters_change t u
unfolding without_field diff_struct_impl keep text_eq
without_pdus c l t u p q =
    rw (text_eq_refl c, text_eq_refl l)
      (elim (Bool-cases (text_eq t u)) [
        | inl et ↦ rw et (elim (Bool-cases (text_eq p q)) [ inl ep ↦ rw ep | inr np ↦ rw np ])
        | inr nt ↦ rw nt (elim (Bool-cases (text_eq p q)) [ inl ep ↦ rw ep | inr np ↦ rw np ])
      ])

only_transmitters :
    (c l t u p q : Text)
    → keep (λ d. text_eq d.field_name (codes "transmitters")) (frame_change c l t u p q)
      ≡ transmitters_change t u
unfolding diff_struct_impl keep text_eq
only_transmitters c l t u p q =
    rw (text_eq_refl c, text_eq_refl l)
      (elim (Bool-cases (text_eq t u)) [
        | inl et ↦ rw et (elim (Bool-cases (text_eq p q)) [ inl ep ↦ rw ep | inr np ↦ rw np ])
        | inr nt ↦ rw nt (elim (Bool-cases (text_eq p q)) [ inl ep ↦ rw ep | inr np ↦ rw np ])
      ])

fold_transmitters_change :
    (t u : Text) (a b : Frame)
    → SameKeyed (λ x. x) a.transmitters b.transmitters
    → fold_transmitters (is_empty (transmitters_change t u)) a b (transmitters_change t u ++ [])
      ≡ []
unfolding fold_transmitters without_field keep text_eq
fold_transmitters_change t u a b s = elim (Bool-cases (text_eq t u)) [
  | inl e ↦ rw e
  | inr n ↦
      rw n (diff_nested_texts-SameKeyed (codes "transmitters") a.transmitters b.transmitters s)
]

diff_struct-SameFrame :
    (a b : Frame)
    → SameFrame a b
    → diff_struct frame_fields a b
      ≡ frame_change
          (common_value b.common)
          (to_string b.length)
          (list_value text_value a.transmitters)
          (list_value text_value b.transmitters)
          (list_value frame_pdu_mapping_value a.pdus)
          (list_value frame_pdu_mapping_value b.pdus)
unfolding diff_struct frame_fields common_value
diff_struct-SameFrame a b s = rw (s.category, s.length)

-- Two frames of one category and length whose transmitters and PDU mappings are the same in some
-- order, with one mapping for each PDU name, have no difference.
pub diff_frame_elements-SameFrame : (a b : Frame) → SameFrame a b → diff_frame_elements a b ≡ []
unfolding diff_frame_elements
diff_frame_elements-SameFrame a b s =
    rw
      (
        diff_struct-SameFrame a b s,
        without_pdus,
        only_transmitters,
        diff_nested_structs-SameKeyed frame_pdu_mapping_fields frame_pdu_mapping_value
            frame_pdu_mapping_key (codes "pdus") a.pdus b.pdus s.pdus,
      )
      (fold_transmitters_change _ _ a b s.transmitters)
