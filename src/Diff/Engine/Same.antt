-- ===== src/Diff/Engine/Same.antt =====
-- The diff of projects that agree on their indexes is empty.
use parse_x.Base.{
  ℕ, suc, Bool, true, false, Option, List, [], ◌∷◌, ◌++◌, ◌≡◌, refl, ◌∙◌, arith, In, here, there,
  All, Option-cases, Bool-cases, inl, inr, if◌then◌else◌,
}
use parse_x.Base.Text.{Text}
use parse_x.Base.Sort.{sort_by}
use parse_x.Base.Map.{Map, find, contains}
use parse_x.Base.Map.Laws.{contains-of_In}
use parse_x.Model.{Double, ParsedProject}
use parse_x.Diff.Report.{
  modified, FieldDiff, DiffEntry, DiffReport, no_differences, merge, sort_deterministically,
}
use parse_x.Diff.Fields.{cluster_fields, ecu_instance_fields}
use parse_x.Diff.Fields.Laws.{diff_struct_self}
use parse_x.Diff.Nested.Elements.{
  diff_frame_elements_self, diff_pdu_elements_self, diff_signal_elements_self,
  diff_signal_group_elements_self,
}
use parse_x.Diff.Match.{
  Indexes, build_indexes, removed_entries, added_entries, modified_entries, match_by_path,
  match_indexes,
}
use parse_x.Diff.Moves.{
  Group, collect_groups, group_entry, pair_groups, erase_added, detect_moves_for_type, detect_moves,
  cluster_key, ecu_instance_key, frame_key, pdu_key, signal_key, signal_group_key,
}
use parse_x.Diff.Populate.{diff_at, diff_pair, populate_entry, populate_entries, populate_report}
use parse_x.Diff.Engine.{diff_indexes, diff, diff-diff_indexes}

-- An entry that matching made of one path.
abbrev IsPlain : DiffEntry → Type 0
IsPlain e = (e.kind ≡ modified) × (e.old_path ≡ e.new_path)

module _ {ℓ} {T : Type ℓ} where
  removed_entries-covered :
      (type : Text) (new old : Map T)
      → ((k : Text) (v : T) → In (k, v) old → contains k new ≡ true)
      → removed_entries type new old ≡ []
  unfolding removed_entries
  removed_entries-covered type new [] h = refl
  removed_entries-covered type new ((k, v) ∷ old) h =
      rw (h k v (here refl)) (removed_entries-covered type new old (λ j w i. h j w (there i)))

  added_entries-covered :
      (type : Text) (old new : Map T)
      → ((k : Text) (v : T) → In (k, v) new → contains k old ≡ true)
      → added_entries type old new ≡ []
  unfolding added_entries
  added_entries-covered type old [] h = refl
  added_entries-covered type old ((k, v) ∷ new) h =
      rw (h k v (here refl)) (added_entries-covered type old new (λ j w i. h j w (there i)))

  modified_entries-IsPlain :
      (type : Text) (new old : Map T) → All IsPlain (modified_entries type new old)
  unfolding modified_entries
  modified_entries-IsPlain type new [] = tt
  modified_entries-IsPlain type new ((k, v) ∷ old) = elim (Bool-cases (contains k new)) [
    | inl t ↦ rw t ((refl, refl), modified_entries-IsPlain type new old)
    | inr f ↦ rw f (modified_entries-IsPlain type new old)
  ]

  match_by_path_self :
      (m : Map T) (type : Text)
      → match_by_path m m type ≡ (record { entries = modified_entries type m m; diagnostics = [] })
  unfolding match_by_path
  match_by_path_self m type = rw (
    removed_entries-covered type m m (λ k v. contains-of_In m),
    added_entries-covered type m m (λ k v. contains-of_In m),
  )

  -- Modified entries take no part in a move.
  collect_groups-IsPlain :
      (key : T → Option Text) (old new : Map T) (type : Text) (i : ℕ) (es : List DiffEntry)
      (g : Map Group)
      → All IsPlain es
      → collect_groups key old new type i es g ≡ g
  unfolding collect_groups group_entry
  collect_groups-IsPlain key old new type i [] g h = refl
  collect_groups-IsPlain key old new type i (e ∷ es) g h =
      ground (arith, collect_groups-IsPlain key old new type (suc i) es g h.1)

  detect_moves-IsPlain :
      (key : T → Option Text) (old new : Map T) (type : Text) (r : DiffReport)
      → All IsPlain r.entries
      → detect_moves_for_type key old new type r ≡ r
  unfolding detect_moves_for_type pair_groups erase_added
  detect_moves-IsPlain key old new type r h =
      rw (collect_groups-IsPlain key old new type 0 r.entries [] h)

All-append : (xs ys : List DiffEntry) → All IsPlain xs → All IsPlain ys → All IsPlain (xs ++ ys)
All-append [] ys h k = k
All-append (x ∷ xs) ys h k = (h.0, All-append xs ys h.1 k)

-- What matching makes of two projects with the same indexes.
record IsPlainReport (r : DiffReport) : Type 0 where
  plain : All IsPlain r.entries
  silent : r.diagnostics ≡ []

merge-IsPlainReport :
    (r s : DiffReport) → IsPlainReport r → IsPlainReport s → IsPlainReport (merge r s)
unfolding merge
merge-IsPlainReport r s h k = record {
  plain = All-append r.entries s.entries h.plain k.plain;
  silent = rw (h.silent, k.silent);
}

match_by_path-IsPlainReport {ℓ} :
    {T : Type ℓ} (m : Map T) (type : Text) → IsPlainReport (match_by_path m m type)
match_by_path-IsPlainReport m type =
    rw (match_by_path_self m type)
      (record { plain = modified_entries-IsPlain type m m; silent = refl })

no_differences-IsPlainReport : IsPlainReport no_differences
no_differences-IsPlainReport = record { plain = tt; silent = refl }

module _ (m : Indexes) where
  match_indexes-IsPlainReport : IsPlainReport (match_indexes m m)
  unfolding match_indexes
  match_indexes-IsPlainReport =
      search (merge-IsPlainReport, match_by_path-IsPlainReport, no_differences-IsPlainReport) depth
        9

  detect_moves-IsPlainReport : (r : DiffReport) → IsPlainReport r → detect_moves m m r ≡ r
  unfolding detect_moves
  detect_moves-IsPlainReport r h = rw (
    detect_moves-IsPlain cluster_key m.clusters m.clusters _ r h.plain,
    detect_moves-IsPlain ecu_instance_key m.ecu_instances m.ecu_instances _ r h.plain,
    detect_moves-IsPlain frame_key m.frames m.frames _ r h.plain,
    detect_moves-IsPlain pdu_key m.pdus m.pdus _ r h.plain,
    detect_moves-IsPlain signal_key m.signals m.signals _ r h.plain,
    detect_moves-IsPlain signal_group_key m.signal_groups m.signal_groups _ r h.plain,
  )

module _ {ℓ} {T : Type ℓ} where
  diff_at_self :
      (f : T → T → List FieldDiff) (m : Map T) (path : Text)
      → ((x : T) → f x x ≡ [])
      → diff_at f m m path path ≡ []
  unfolding diff_at
  diff_at_self f m path h = elim (Option-cases (find path m)) [
    | inl n ↦ rw n
    | inr (x, e) ↦ rw e (h x)
  ]

  if_both_nil : (b : Bool) (xs ys : List T) → xs ≡ [] → ys ≡ [] → (if b then xs else ys) ≡ []
  if_both_nil true xs ys h k = h
  if_both_nil false xs ys h k = k

module _ (double_value : Double → Text) (m : Indexes) where
  diff_pair_self : (type path : Text) → diff_pair double_value type path path m m ≡ []
  unfolding diff_pair
  diff_pair_self type path =
      if_both_nil _ _ _ (diff_at_self _ m.clusters path (diff_struct_self cluster_fields)) (
        if_both_nil _ _ _
          (diff_at_self _ m.ecu_instances path (diff_struct_self ecu_instance_fields))
          (if_both_nil _ _ _ (diff_at_self _ m.frames path diff_frame_elements_self) (
            if_both_nil _ _ _ (diff_at_self _ m.pdus path diff_pdu_elements_self) (
              if_both_nil _ _ _
                (diff_at_self _ m.signals path (diff_signal_elements_self double_value))
                (if_both_nil _ _ _
                  (diff_at_self _ m.signal_groups path diff_signal_group_elements_self) refl)))))

  populate_entries-IsPlain :
      (es : List DiffEntry) → All IsPlain es → populate_entries double_value m m es ≡ []
  unfolding populate_entries populate_entry
  populate_entries-IsPlain [] h = refl
  populate_entries-IsPlain (e ∷ es) h =
      rw (h.0.0, h.0.1, diff_pair_self e.element_type e.new_path) (populate_entries-IsPlain es h.1)

  pub diff_indexes_self : diff_indexes double_value m m ≡ no_differences
  unfolding diff_indexes populate_report sort_deterministically sort_by
  diff_indexes_self =
      let h = match_indexes-IsPlainReport m in
      rw (
        detect_moves-IsPlainReport m (match_indexes m m) h,
        populate_entries-IsPlain _ h.plain,
        h.silent,
      )

-- A project has no difference from itself.
pub diff_self :
    (double_value : Double → Text) (p : ParsedProject) → diff double_value p p ≡ no_differences
diff_self double_value p =
    diff-diff_indexes double_value p p ∙ diff_indexes_self double_value (build_indexes p)
