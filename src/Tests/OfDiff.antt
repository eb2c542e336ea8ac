-- ===== src/Tests/OfDiff.antt =====
-- The theorems of the diff engine at concrete projects and reports.
use parse_x.Base.{
  true, false, none, [], ◌∷◌, ◌≡◌, ◌≢◌, ◌⊎◌, ◌↔◌, refl, sym, ap, ◌∙◌, subst, In, here, there, keep,
}
use parse_x.Base.Text.{Text, codes, text_eq, text_lt, text_eq_iff}
use parse_x.Base.Map.{Map, find, insert_new, try_emplace, adjust, upsert}
use parse_x.Base.Map.Emplace.{SameKeyed, first_with}
use parse_x.Base.Decimal.{to_string}
use parse_x.Base.Sort.{sort_by, insert_by}
use mathlib.Core.List.{Perm}
use parse_x.Model.{Frame, ParsedProject}
use parse_x.Diff.Report.{
  added, removed, moved, DiffEntry, DiffReport, no_differences, is_empty_report,
  sort_deterministically,
}
use parse_x.Diff.Fields.{diff_struct_impl}
use parse_x.Diff.Fields.Laws.{values-eq_of_diff_struct_impl}
use parse_x.Diff.Nested.{diff_frame_elements}
use parse_x.Diff.Nested.Elements.{diff_frame_elements-SameFrame}
use parse_x.Diff.Match.{
  index_by_path, match_by_path, build_indexes, collect_from, diff_path_for_short_name,
}
use parse_x.Diff.Match.Index.{path_of, is_named, find-index_by_path}
use parse_x.Diff.Match.Exact.{Says, removal, addition, match_by_path-exact}
use parse_x.Diff.Moves.{frame_key, detect_moves_for_type, collect_groups, pair_groups, erase_added}
use parse_x.Diff.Moves.Marks.{IsMove}
use parse_x.Diff.Moves.Sound.{old_sides, old_sides-detect_moves, detect_moves_sound}
use parse_x.Diff.Moves.Kept.{SameNew, new_paths-detect_moves}
use parse_x.Diff.Engine.{diff}
use parse_x.Diff.Engine.Same.{diff_self}
use parse_x.Diff.Engine.Reordered.{SameProject, diff-SameProject}
use parse_x.Diff.Engine.Complete.{frame, type_name, diff_new_side, diff_old_side}
use parse_x.Diff.Report.Order.{
  EntryNotAfter, DiagnosticNotAfter, Ordered, sort_deterministically-Ordered,
}
use parse_x.Diff.Render.{no_differences_text, to_text}
use parse_x.Diff.Render.Empty.{to_text-no_differences}
use parse_x.Tests.{frame_of, file_of, project_of}

abbrev brake : Frame
brake = frame_of (codes "Brake") (codes "A" ∷ codes "B" ∷ []) []

abbrev speed : Frame
speed = frame_of (codes "Speed") (codes "A" ∷ []) []

abbrev empty_project : ParsedProject
empty_project = project_of []

abbrev brake_project : ParsedProject
brake_project = project_of (file_of (brake ∷ []) [] [] none ∷ [])

-- Two files in either order.
abbrev both : ParsedProject
both = project_of (file_of (brake ∷ []) [] [] none ∷ file_of (speed ∷ []) [] [] none ∷ [])

abbrev both_turned : ParsedProject
both_turned = project_of (file_of (speed ∷ []) [] [] none ∷ file_of (brake ∷ []) [] [] none ∷ [])

diff_new_side_example :
    (d : DiffEntry) × In d (diff to_string empty_project brake_project).entries
    × (d.element_type ≡ type_name frame)
    × (d.new_path ≡ codes "/Brake")
    × ((d.kind ≡ added) ⊎ (d.kind ≡ moved))
unfolding build_indexes find text_eq
diff_new_side_example =
    diff_new_side to_string empty_project brake_project frame (codes "/Brake") refl refl

diff_old_side_example :
    (d : DiffEntry) × In d (diff to_string brake_project empty_project).entries
    × (d.element_type ≡ type_name frame)
    × (d.old_path ≡ codes "/Brake")
    × ((d.kind ≡ removed) ⊎ (d.kind ≡ moved))
unfolding build_indexes find text_eq
diff_old_side_example =
    diff_old_side to_string brake_project empty_project frame (codes "/Brake") refl refl

diff_self_example : diff to_string both both ≡ no_differences
diff_self_example = diff_self to_string both

ne_of_text_eq : (a b : Text) → text_eq a b ≡ false → a ≢ b
ne_of_text_eq a b h e = let t = (text_eq_iff a b).1 e in absurd (cc)

In-turned {ℓ} : {A : Type ℓ} {x y z : A} → In z (x ∷ y ∷ []) → In z (y ∷ x ∷ [])
In-turned (here e) = there (here e)
In-turned (there (here e)) = here e
In-turned (there (there i)) = elim i [ ]

by_key-turned {ℓ} :
    {A : Type ℓ} {x y : A} (key : A → Text)
    → key x ≢ key y
    → (a b : A) → In a (x ∷ y ∷ [])
    → In b (x ∷ y ∷ [])
    → key a ≡ key b
    → a ≡ b
by_key-turned key n a b (here e) (here f) k = e ∙ sym f
by_key-turned key n a b (here e) (there (here f)) k = absurd (n (ap key (sym e) ∙ (k ∙ ap key f)))
by_key-turned key n a b (there (here e)) (here f) k =
    absurd (n (ap key (sym f) ∙ (sym k ∙ ap key e)))
by_key-turned key n a b (there (here e)) (there (here f)) k = e ∙ sym f
by_key-turned key n a b (there (there i)) j k = elim i [ ]
by_key-turned key n a b (here e) (there (there i)) k = elim i [ ]
by_key-turned key n a b (there (here e)) (there (there i)) k = elim i [ ]

-- Two items in either order.
SameKeyed-turned {ℓ} :
    {A : Type ℓ} (key : A → Text) (x y : A)
    → key x ≢ key y
    → SameKeyed key (x ∷ y ∷ []) (y ∷ x ∷ [])
SameKeyed-turned key x y n = record {
  to_right = λ z i. In-turned i;
  to_left = λ z i. In-turned i;
  by_key = by_key-turned key n;
}

SameKeyed-nil {ℓ} : {A : Type ℓ} (key : A → Text) → SameKeyed key [] []
SameKeyed-nil key = record { to_right = λ x i. i; to_left = λ x i. i; by_key = λ x y i. elim i [ ] }

both-SameProject : SameProject both both_turned
unfolding keep collect_from diff_path_for_short_name text_eq
both-SameProject = record {
  clusters = SameKeyed-nil _;
  ecu_instances = SameKeyed-nil _;
  frames = SameKeyed-turned _ brake speed (ne_of_text_eq (codes "/Brake") (codes "/Speed") refl);
  pdus = SameKeyed-nil _;
  signals = SameKeyed-nil _;
  signal_groups = SameKeyed-nil _;
}

diff-SameProject_example : diff to_string both both_turned ≡ no_differences
diff-SameProject_example = diff-SameProject to_string both both_turned both-SameProject

-- A frame that has moved, before move detection.
abbrev old_frames : Map Frame
old_frames = (codes "/Brake", brake) ∷ []

abbrev new_frames : Map Frame
new_frames = (codes "/Stop", brake) ∷ []

abbrev matched : DiffReport
matched = record {
  entries =
      removal (codes "Frame") (codes "/Brake") ∷ addition (codes "Frame") (codes "/Stop") ∷ [];
  diagnostics = [];
}

abbrev detected : DiffReport
detected = detect_moves_for_type frame_key old_frames new_frames (codes "Frame") matched

abbrev move : DiffEntry
move = record {
  kind = moved;
  element_type = codes "Frame";
  old_path = codes "/Brake";
  new_path = codes "/Stop";
  field_diffs = [];
}

detected_entries : detected.entries ≡ move ∷ []
unfolding detect_moves_for_type frame_key collect_groups pair_groups erase_added find text_eq
    text_lt insert_new try_emplace adjust upsert sort_by insert_by to_string
detected_entries = refl

detect_moves_sound_example :
    In move matched.entries
    ⊎ ((was : DiffEntry) × In was matched.entries
        × IsMove frame_key old_frames new_frames (codes "Frame") matched.entries was move)
detect_moves_sound_example =
    detect_moves_sound frame_key old_frames new_frames (codes "Frame") matched
      (subst (In move) (sym detected_entries) (here refl))

old_sides-detect_moves_example : old_sides detected.entries ≡ old_sides matched.entries
old_sides-detect_moves_example =
    old_sides-detect_moves frame_key old_frames new_frames (codes "Frame") matched

new_paths-detect_moves_example :
    (c : DiffEntry) × In c detected.entries × SameNew (addition (codes "Frame") (codes "/Stop")) c
new_paths-detect_moves_example =
    new_paths-detect_moves frame_key old_frames new_frames (codes "Frame") matched
      (there (here refl)) (λ e. absurd (cc))

match_by_path-exact_example :
    In
      (removal (codes "Frame") (codes "/Brake"))
      (match_by_path old_frames new_frames (codes "Frame")).entries
    ↔ ((path : Text) × Says old_frames new_frames
          (codes "Frame")
          (removal (codes "Frame") (codes "/Brake"))
          path)
match_by_path-exact_example =
    match_by_path-exact old_frames new_frames (codes "Frame")
      (removal (codes "Frame") (codes "/Brake"))

find-index_by_path_example :
    find (codes "/Brake") (index_by_path (λ f. f.common) (brake ∷ speed ∷ []))
    ≡ first_with
        (path_of (λ f. f.common))
        (codes "/Brake")
        (keep (is_named (λ f. f.common)) (brake ∷ speed ∷ []))
find-index_by_path_example =
    find-index_by_path (λ f. f.common) (codes "/Brake") (brake ∷ speed ∷ [])

-- The same transmitters in another order.
abbrev brake_turned : Frame
brake_turned = frame_of (codes "Brake") (codes "B" ∷ codes "A" ∷ []) []

diff_frame_elements-SameFrame_example : diff_frame_elements brake brake_turned ≡ []
unfolding text_eq
diff_frame_elements-SameFrame_example = diff_frame_elements-SameFrame brake brake_turned (record {
  category = refl;
  length = refl;
  transmitters =
      SameKeyed-turned (λ t. t) (codes "A") (codes "B")
        (ne_of_text_eq (codes "A") (codes "B") refl);
  pdus = SameKeyed-nil _;
})

sort_deterministically-Ordered_example :
    Ordered EntryNotAfter (sort_deterministically matched).entries
    × Perm (sort_deterministically matched).entries matched.entries
    × Ordered DiagnosticNotAfter (sort_deterministically matched).diagnostics
    × Perm (sort_deterministically matched).diagnostics matched.diagnostics
sort_deterministically-Ordered_example = sort_deterministically-Ordered matched

to_text-no_differences_example :
    (to_text matched ≡ no_differences_text) ↔ (is_empty_report matched ≡ true)
to_text-no_differences_example = to_text-no_differences matched

values-eq_of_diff_struct_impl_example : codes "8" ∷ [] ≡ codes "8" ∷ []
unfolding diff_struct_impl text_eq
values-eq_of_diff_struct_impl_example =
    values-eq_of_diff_struct_impl (codes "length" ∷ []) (codes "8" ∷ []) (codes "8" ∷ []) refl refl
      refl
