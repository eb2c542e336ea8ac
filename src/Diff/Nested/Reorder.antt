-- ===== src/Diff/Nested/Reorder.antt =====
-- A nested collection that is only reordered has no differences.
use parse_x.Base.{some, List, [], ◌∷◌, ◌≡◌, refl, sym, In, here, there}
use parse_x.Base.Text.{Text}
use parse_x.Base.Map.{Map, find, emplace_all}
use parse_x.Base.Map.Laws.{find-of_In}
use parse_x.Base.Map.Emplace.{SameKeyed, emplace_all-SameKeyed, emplace_all-IsAscending}
use parse_x.Diff.Report.{FieldDiff}
use parse_x.Diff.Fields.{Described, diff_struct, text_value}
use parse_x.Diff.Fields.Laws.{diff_struct_self}
use parse_x.Diff.Nested.{
  removed_items, added_items, matched_items, diff_nested_collection_with, diff_nested_structs,
  diff_nested_texts,
}

module _ {ℓ} {T : Type ℓ} where
  removed_items-covered :
      (value : T → Text) (field : Text) (new old : Map T)
      → ((k : Text) (v : T) → In (k, v) old → find k new ≡ some v)
      → removed_items value field new old ≡ []
  unfolding removed_items
  removed_items-covered value field new [] h = refl
  removed_items-covered value field new ((k, v) ∷ old) h =
      rw (h k v (here refl)) (removed_items-covered value field new old (λ j w i. h j w (there i)))

  added_items-covered :
      (value : T → Text) (field : Text) (old new : Map T)
      → ((k : Text) (v : T) → In (k, v) new → find k old ≡ some v)
      → added_items value field old new ≡ []
  unfolding added_items
  added_items-covered value field old [] h = refl
  added_items-covered value field old ((k, v) ∷ new) h =
      rw (h k v (here refl)) (added_items-covered value field old new (λ j w i. h j w (there i)))

  matched_items-covered :
      (item_diff : T → T → List FieldDiff) (field : Text) (new old : Map T)
      → ((x : T) → item_diff x x ≡ [])
      → ((k : Text) (v : T) → In (k, v) old → find k new ≡ some v)
      → matched_items item_diff field new old ≡ []
  unfolding matched_items
  matched_items-covered item_diff field new [] s h = refl
  matched_items-covered item_diff field new ((k, v) ∷ old) s h =
      rw (h k v (here refl))
        (rw (s v) (matched_items-covered item_diff field new old s (λ j w i. h j w (there i))))

  diff_nested-same_map :
      (value key_of : T → Text) (item_diff : T → T → List FieldDiff) (field : Text)
      (old_items new_items : List T)
      → ((x : T) → item_diff x x ≡ [])
      → emplace_all key_of (λ x. x) [] old_items ≡ emplace_all key_of (λ x. x) [] new_items
      → diff_nested_collection_with value key_of item_diff field old_items new_items ≡ []
  unfolding diff_nested_collection_with
  diff_nested-same_map value key_of item_diff field old_items new_items s same = rw (sym same) (
      let m = emplace_all key_of (λ x. x) [] old_items in
      let covered : (k : Text) (v : T) → In (k, v) m → find k m ≡ some v =
        λ k v i. find-of_In m (emplace_all-IsAscending key_of [] old_items tt) i in
      rw (removed_items-covered value field m m covered) (
        rw (added_items-covered value field m m covered)
          (matched_items-covered item_diff field m m s covered)))

  -- Collections with the same members, each told by its key, have no differences.
  pub diff_nested-SameKeyed :
      (value key_of : T → Text) (item_diff : T → T → List FieldDiff) (field : Text)
      (old_items new_items : List T)
      → ((x : T) → item_diff x x ≡ [])
      → SameKeyed key_of old_items new_items
      → diff_nested_collection_with value key_of item_diff field old_items new_items ≡ []
  diff_nested-SameKeyed value key_of item_diff field old_items new_items s same =
      diff_nested-same_map value key_of item_diff field old_items new_items s
        (emplace_all-SameKeyed key_of old_items new_items same)

  pub diff_nested_structs_self :
      (d : Described T) (value key_of : T → Text) (field : Text) (items : List T)
      → diff_nested_structs d value key_of field items items ≡ []
  unfolding diff_nested_structs
  diff_nested_structs_self d value key_of field items =
      diff_nested-same_map value key_of (diff_struct d) field items items (diff_struct_self d) refl

  pub diff_nested_structs-SameKeyed :
      (d : Described T) (value key_of : T → Text) (field : Text) (old_items new_items : List T)
      → SameKeyed key_of old_items new_items
      → diff_nested_structs d value key_of field old_items new_items ≡ []
  unfolding diff_nested_structs
  diff_nested_structs-SameKeyed d value key_of field old_items new_items =
      diff_nested-SameKeyed value key_of (diff_struct d) field old_items new_items
        (diff_struct_self d)

pub diff_nested_texts_self :
    (field : Text) (items : List Text) → diff_nested_texts field items items ≡ []
unfolding diff_nested_texts
diff_nested_texts_self field items =
    diff_nested-same_map text_value (λ m. m) (λ o n. []) field items items (λ x. refl) refl

pub diff_nested_texts-SameKeyed :
    (field : Text) (old_items new_items : List Text)
    → SameKeyed (λ m. m) old_items new_items
    → diff_nested_texts field old_items new_items ≡ []
unfolding diff_nested_texts
diff_nested_texts-SameKeyed field old_items new_items =
    diff_nested-SameKeyed text_value (λ m. m) (λ o n. []) field old_items new_items (λ x. refl)
