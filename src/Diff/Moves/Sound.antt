-- ===== src/Diff/Moves/Sound.antt =====
-- Move detection over one element type: every move it reports is a pair of the two sides, and the
-- old side of the report is kept.
use parse_x.Base.{
  ℕ, suc, ◌+◌, Bool, true, false, Option, some, List, [], ◌∷◌, ◌≡◌, ◌⊎◌, refl, sym, ap, ◌∙◌, subst,
  arith, map, keep, is_empty, In, here, there, Bool-cases, inl, inr, ltb, get_elem?, if◌then◌else◌,
}
use parse_x.Base.Text.{Text}
use parse_x.Base.Sort.{sort_by, In-of_In-sort_by}
use parse_x.Base.Map.{Map, find}
use parse_x.Base.Map.Laws.{find-of_In}
use parse_x.Diff.Report.{added, removed, moved, modified, DiffEntry, DiffReport}
use parse_x.Diff.Moves.{
  Pairing, collect_groups, pair_groups, is_next, rest_of, drop_erased, erase_added,
  detect_moves_for_type,
}
use parse_x.Diff.Moves.Groups.{collect_groups-AreGroups, collect_groups-IsAscending}
use parse_x.Diff.Moves.Marks.{
  IsMove, Marked, nil, same, move, Marked-refl, Marked-get_added, IsPairing, pair_groups-IsPairing,
  some_inj,
}

abbrev pub has_old : DiffEntry → Bool
has_old e = elim e.kind [ added ↦ false | removed ↦ true | moved ↦ true | modified ↦ true ]

abbrev pub is_modified : DiffEntry → Bool
is_modified e = elim e.kind [ added ↦ false | removed ↦ false | moved ↦ false | modified ↦ true ]

-- What an entry says of the old project: a type, a path, and whether the path stayed.
pub record OldSide : Type 0 where
  pub type : Text
  pub path : Text
  pub stayed : Bool

abbrev pub old_side : DiffEntry → OldSide
old_side e = record { type = e.element_type; path = e.old_path; stayed = is_modified e }

-- The old sides that a report tells of, in order.
unfoldable pub old_sides : List DiffEntry → List OldSide
unfolding keep
old_sides es = map old_side (keep has_old es)

pub In-of_In-rest :
    {x : ℕ} (i : ℕ) (er : List ℕ) → In x (if is_next i er then rest_of er else er) → In x er
In-of_In-rest i [] j = j
In-of_In-rest {x} i (p ∷ ps) j = by (is_next i (p ∷ ps)) j
  where
    by : (b : Bool) → In x (if b then ps else p ∷ ps) → In x (p ∷ ps)
    by true k = there k
    by false k = k

In-of_is_next : (i : ℕ) (er : List ℕ) → is_next i er ≡ true → In i er
In-of_is_next i [] h = absurd (cc)
In-of_is_next i (p ∷ ps) h = here (ground arith)

-- Nothing new comes in when entries are erased.
In-of_In-drop_erased :
    (i : ℕ) (er : List ℕ) {c : DiffEntry} (es : List DiffEntry)
    → In c (drop_erased i er es)
    → In c es
unfolding drop_erased
In-of_In-drop_erased i er [] j = j
In-of_In-drop_erased i er {c} (e ∷ es) j = by (is_next i er) (In-of_In-drop_erased (suc i) _ es) j
  where
    by :
        (b : Bool) {kept : List DiffEntry}
        → (In c kept → In c es)
        → In c (if b then kept else e ∷ kept)
        → In c (e ∷ es)
    by true ih k = there (ih k)
    by false ih (here q) = here q
    by false ih (there k) = there (ih k)

-- Erasing only added entries keeps the old sides.
old_sides-drop_erased :
    (i : ℕ) (er : List ℕ) (es : List DiffEntry)
    → ((j : ℕ) (c : DiffEntry) → In (i + j) er → get_elem? es j ≡ some c → c.kind ≡ added)
    → old_sides (drop_erased i er es) ≡ old_sides es
unfolding old_sides drop_erased
old_sides-drop_erased i er [] h = refl
old_sides-drop_erased i er (e ∷ es) h =
    let ih =
      old_sides-drop_erased (suc i) (if is_next i er then rest_of er else er) es
        (λ j c k at. h (suc j) c (subst_in (omega arith) (In-of_In-rest i er k)) at) in
    elim (Bool-cases (is_next i er)) [
      | inl t ↦
          let k : e.kind ≡ added = h 0 e (subst_in (omega arith) (In-of_is_next i er t)) refl in
          ground (arith, ih)
      | inr f ↦ ground (arith, ih)
    ]
  where
    subst_in : {x y : ℕ} → x ≡ y → In x er → In y er
    subst_in p k = rw (← p) k

drop_erased-nil : (i : ℕ) (es : List DiffEntry) → drop_erased i [] es ≡ es
unfolding drop_erased
drop_erased-nil i [] = refl
drop_erased-nil i (e ∷ es) = ap (◌∷◌ e) (drop_erased-nil (suc i) es)

pub entries-erase_added :
    (p : Pairing)
    → (erase_added p).entries ≡ drop_erased 0 (sort_by ltb p.added_to_erase) p.report.entries
unfolding erase_added sort_by
entries-erase_added p = by p.added_to_erase
  where
    by :
        (er : List ℕ)
        → (if is_empty er then p.report else record p.report {
          entries = drop_erased 0 (sort_by ltb er) p.report.entries;
        }).entries
          ≡ drop_erased 0 (sort_by ltb er) p.report.entries
    by [] = sym (drop_erased-nil 0 p.report.entries)
    by (x ∷ er) = refl

module _ {ℓ} {T : Type ℓ} (secondary_key : T → Option Text) (old new : Map T) (type : Text) where
  abbrev pub pairing_of : DiffReport → Pairing
  pairing_of r =
      pair_groups type (collect_groups secondary_key old new type 0 r.entries [])
        (record { report = r; added_to_erase = [] })

  pub pairing_of-IsPairing :
      (r : DiffReport) → IsPairing secondary_key old new type r.entries (pairing_of r)
  pairing_of-IsPairing r =
      let groups = collect_groups secondary_key old new type 0 r.entries [] in
      pair_groups-IsPairing secondary_key old new type r.entries groups _
        (λ k g i.
          collect_groups-AreGroups secondary_key old new type r.entries 0 r.entries []
            (λ j. ap (get_elem? r.entries) (omega arith)) (λ k g h. absurd (unfold find in cc h)) k
            g
            (find-of_In groups
              (collect_groups-IsAscending secondary_key old new type r.entries 0 r.entries [] tt)
              i))
        (record {
          marked = Marked-refl secondary_key old new type r.entries r.entries;
          erased_are_added = λ i j. elim j [ ];
        })

  old_sides-Marked :
      (es : List DiffEntry) {xs ys : List DiffEntry}
      → Marked secondary_key old new type es xs ys
      → old_sides ys ≡ old_sides xs
  unfolding old_sides
  old_sides-Marked es nil = refl
  old_sides-Marked es (same m) = ground (arith, old_sides-Marked es m)
  old_sides-Marked es (move v m) =
      ground (arith, old_sides-Marked es m, v.is_move, v.pair.is_removed)

  -- The move detection of a type keeps what the entries tell of the old project, which is the type
  -- and the old path of each entry that is not added and whether it is modified, in the same order.
  pub old_sides-detect_moves :
      (r : DiffReport)
      → old_sides (detect_moves_for_type secondary_key old new type r).entries ≡ old_sides r.entries
  unfolding detect_moves_for_type
  old_sides-detect_moves r =
      let p = pairing_of r in
      let v = pairing_of-IsPairing r in
      ap old_sides (entries-erase_added p)
      ∙ (old_sides-drop_erased 0 (sort_by ltb p.added_to_erase) p.report.entries (λ j c k at.
            let w =
              v.erased_are_added j
                (In-of_In-sort_by ltb p.added_to_erase (subst_in (omega arith) k)) in
            ap (λ (d : DiffEntry). d.kind)
              (some_inj
                (sym at ∙ Marked-get_added secondary_key old new type r.entries j v.marked w.1 w.2))
            ∙ w.2)
          ∙ old_sides-Marked r.entries v.marked)
    where
      subst_in : {x y : ℕ} {er : List ℕ} → x ≡ y → In x er → In y er
      subst_in p k = rw (← p) k

  abbrev FromMarks : List DiffEntry → List DiffEntry → DiffEntry → Type 0
  FromMarks es xs c =
      In c xs ⊎ ((was : DiffEntry) × In was xs × IsMove secondary_key old new type es was c)

  FromMarks-there :
      (es xs : List DiffEntry) (x c : DiffEntry) → FromMarks es xs c → FromMarks es (x ∷ xs) c
  FromMarks-there es xs x c (inl k) = inl (there k)
  FromMarks-there es xs x c (inr (w, k, v)) = inr (w, there k, v)

  In-of_Marked :
      (es : List DiffEntry) {xs ys : List DiffEntry} {c : DiffEntry}
      → Marked secondary_key old new type es xs ys
      → In c ys
      → FromMarks es xs c
  In-of_Marked es nil i = elim i [ ]
  In-of_Marked es (same m) (here q) = inl (here q)
  In-of_Marked es (move {was} v m) (here q) = inr (was, here refl, rw q v)
  In-of_Marked es (same m) (there i) = FromMarks-there es _ _ _ (In-of_Marked es m i)
  In-of_Marked es (move v m) (there i) = FromMarks-there es _ _ _ (In-of_Marked es m i)

  -- An entry after the move detection of a type was there before, or it is a removed entry of the
  -- type marked as moved to the new path of an added entry of the type, where the elements of the
  -- two have one secondary key.
  pub detect_moves_sound :
      (r : DiffReport) {c : DiffEntry}
      → In c (detect_moves_for_type secondary_key old new type r).entries
      → In c r.entries
        ⊎ ((was : DiffEntry) × In was r.entries × IsMove secondary_key old new type r.entries was c)
  unfolding detect_moves_for_type
  detect_moves_sound r {c} i =
      let p = pairing_of r in
      In-of_Marked r.entries (pairing_of-IsPairing r).marked (
        In-of_In-drop_erased 0 (sort_by ltb p.added_to_erase) p.report.entries
          (subst (In c) (entries-erase_added p) i))
