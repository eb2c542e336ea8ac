-- ===== src/Diff/Engine/Complete.antt =====
-- The diff is complete: an element on one side only is always reported.
use parse_x.Base.{
  Bool, true, false, Option, List, ◌≡◌, ◌≢◌, ◌⊎◌, refl, sym, ap, ◌∙◌, subst, arith, In, here, there,
  In-append_left, In-append_right, In-keep, In-of_In-keep, In-map, In-of_In-map, inl, inr,
}
use parse_x.Base.Text.{Text, codes}
use parse_x.Base.Sort.{In-sort_by}
use parse_x.Base.Map.{Map, contains}
use parse_x.Model.{Double, ParsedProject}
use parse_x.Diff.Report.{
  DiffKind, added, removed, moved, modified, DiffEntry, DiffReport, merge, entry_lt,
  sort_deterministically,
}
use parse_x.Diff.Match.{Indexes, build_indexes, match_by_path, match_indexes}
use parse_x.Diff.Match.Exact.{removal, addition, match_by_path-exact}
use parse_x.Diff.Moves.{
  cluster_key, ecu_instance_key, frame_key, pdu_key, signal_key, signal_group_key,
  detect_moves_for_type, detect_moves,
}
use parse_x.Diff.Moves.Sound.{
  OldSide, old_side, old_sides, has_old, is_modified, old_sides-detect_moves,
}
use parse_x.Diff.Moves.Kept.{SameNew, new_paths-detect_moves}
use parse_x.Diff.Populate.{diff_pair, populate_entry, populate_entries, populate_report}
use parse_x.Diff.Engine.{diff_indexes, diff, diff-diff_indexes}

-- The six element types of a project.
pub data ElementType : Type 0 where
  cluster ecu_instance frame pdu signal signal_group : ElementType

abbrev pub type_name : ElementType → Text
type_name cluster = codes "Cluster"
type_name ecu_instance = codes "EcuInstance"
type_name frame = codes "Frame"
type_name pdu = codes "Pdu"
type_name signal = codes "Signal"
type_name signal_group = codes "SignalGroup"

-- Is there a named element of the type at the path?
abbrev pub has_path : Indexes → ElementType → Text → Bool
has_path m cluster path = contains path m.clusters
has_path m ecu_instance path = contains path m.ecu_instances
has_path m frame path = contains path m.frames
has_path m pdu path = contains path m.pdus
has_path m signal path = contains path m.signals
has_path m signal_group path = contains path m.signal_groups

In-merge_left : (r s : DiffReport) {x : DiffEntry} → In x r.entries → In x (merge r s).entries
unfolding merge
In-merge_left r s i = In-append_left s.entries i

In-merge_right : (r s : DiffReport) {x : DiffEntry} → In x s.entries → In x (merge r s).entries
unfolding merge
In-merge_right r s i = In-append_right r.entries i

module _ (old new : Indexes) where
  -- What one of the six passes makes is in the merged report.
  abbrev pass_of : ElementType → DiffReport
  pass_of cluster = match_by_path old.clusters new.clusters (codes "Cluster")
  pass_of ecu_instance = match_by_path old.ecu_instances new.ecu_instances (codes "EcuInstance")
  pass_of frame = match_by_path old.frames new.frames (codes "Frame")
  pass_of pdu = match_by_path old.pdus new.pdus (codes "Pdu")
  pass_of signal = match_by_path old.signals new.signals (codes "Signal")
  pass_of signal_group = match_by_path old.signal_groups new.signal_groups (codes "SignalGroup")

  In-match_indexes :
      (t : ElementType) {x : DiffEntry}
      → In x (pass_of t).entries
      → In x (match_indexes old new).entries
  unfolding match_indexes
  In-match_indexes cluster i = In-merge_left _ _ (
      In-merge_left _ _
        (In-merge_left _ _ (In-merge_left _ _ (In-merge_left _ _ (In-merge_right _ _ i)))))
  In-match_indexes ecu_instance i =
      In-merge_left _ _
        (In-merge_left _ _ (In-merge_left _ _ (In-merge_left _ _ (In-merge_right _ _ i))))
  In-match_indexes frame i =
      In-merge_left _ _ (In-merge_left _ _ (In-merge_left _ _ (In-merge_right _ _ i)))
  In-match_indexes pdu i = In-merge_left _ _ (In-merge_left _ _ (In-merge_right _ _ i))
  In-match_indexes signal i = In-merge_left _ _ (In-merge_right _ _ i)
  In-match_indexes signal_group i = In-merge_right _ _ i

  In-pass_of_new :
      (t : ElementType) (path : Text)
      → has_path new t path ≡ true
      → has_path old t path ≡ false
      → In (addition (type_name t) path) (pass_of t).entries
  In-pass_of_new cluster path h k = (match_by_path-exact _ _ _ _).1 (path, inr (inl (h, k, refl)))
  In-pass_of_new _ path h k = (match_by_path-exact _ _ _ _).1 (path, inr (inl (h, k, refl)))

  In-pass_of_old :
      (t : ElementType) (path : Text)
      → has_path old t path ≡ true
      → has_path new t path ≡ false
      → In (removal (type_name t) path) (pass_of t).entries
  In-pass_of_old cluster path h k = (match_by_path-exact _ _ _ _).1 (path, inl (h, k, refl))
  In-pass_of_old _ path h k = (match_by_path-exact _ _ _ _).1 (path, inl (h, k, refl))

-- A report tells of an added element, as added or as the target of a move.
abbrev Tells : DiffReport → DiffEntry → Type 0
Tells r e = (c : DiffEntry) × In c r.entries × SameNew e c

Tells-pass {ℓ} :
    {T : Type ℓ} (key : T → Option Text) (old new : Map T) (type : Text) (r : DiffReport)
    (e : DiffEntry)
    → e.kind ≡ added
    → Tells r e
    → Tells (detect_moves_for_type key old new type r) e
Tells-pass key old new type r e kd (c, i, s) =
    let (d, j, u) = new_paths-detect_moves key old new type r i (not_removed s.same_kind) in
    (
      d,
      j,
      record {
        same_kind = by d u.same_kind s.same_kind;
        same_type = u.same_type ∙ s.same_type;
        same_path = u.same_path ∙ s.same_path;
      },
    )
  where
    not_removed : (c.kind ≡ e.kind) ⊎ (c.kind ≡ moved) → c.kind ≢ removed
    not_removed (inl p) q = cc (p, q, kd)
    not_removed (inr p) q = cc (p, q)

    by :
        (d : DiffEntry)
        → (d.kind ≡ c.kind) ⊎ (d.kind ≡ moved)
        → (c.kind ≡ e.kind) ⊎ (c.kind ≡ moved)
        → (d.kind ≡ e.kind) ⊎ (d.kind ≡ moved)
    by d (inl p) (inl q) = inl (p ∙ q)
    by d (inl p) (inr q) = inr (p ∙ q)
    by d (inr p) s = inr p

Tells-detect_moves :
    (old new : Indexes) (r : DiffReport) (e : DiffEntry)
    → e.kind ≡ added
    → Tells r e
    → Tells (detect_moves old new r) e
unfolding detect_moves
Tells-detect_moves old new r e kd t = Tells-pass signal_group_key _ _ _ _ e kd (
    Tells-pass signal_key _ _ _ _ e kd (
      Tells-pass pdu_key _ _ _ _ e kd (
        Tells-pass frame_key _ _ _ _ e kd
          (Tells-pass ecu_instance_key _ _ _ _ e kd (Tells-pass cluster_key _ _ _ _ e kd t)))))

old_sides-detect_all :
    (old new : Indexes) (r : DiffReport)
    → old_sides (detect_moves old new r).entries ≡ old_sides r.entries
unfolding detect_moves
old_sides-detect_all old new r = simp old_sides-detect_moves

module _ (double_value : Double → Text) (old new : Indexes) where
  -- What is kept of an entry when its field differences are filled in.
  record Filled (c d : DiffEntry) : Type 0 where
    same_kind : d.kind ≡ c.kind
    same_type : d.element_type ≡ c.element_type
    same_old : d.old_path ≡ c.old_path
    same_new : d.new_path ≡ c.new_path

  Filled-refl : (c : DiffEntry) → Filled c c
  Filled-refl c = record { same_kind = refl; same_type = refl; same_old = refl; same_new = refl }

  In-populate_entry :
      (k : DiffKind) (y : DiffEntry)
      → y.kind ≡ k
      → k ≢ modified
      → (d : DiffEntry) × In d (populate_entry double_value old new y) × Filled y d
  unfolding populate_entry
  In-populate_entry added y e n =
      (y, rw (e, populate_entry) (here (ap (λ k. record y { kind = k }) (sym e))), Filled-refl y)
  In-populate_entry removed y e n =
      (y, rw (e, populate_entry) (here (ap (λ k. record y { kind = k }) (sym e))), Filled-refl y)
  In-populate_entry moved y e n =
      let filled : DiffEntry = record y {
        field_diffs = diff_pair double_value y.element_type y.old_path y.new_path old new;
      } in
      (
        filled,
        rw (e, populate_entry) (here (ap (λ k. record filled { kind = k }) (sym e))),
        record { same_kind = refl; same_type = refl; same_old = refl; same_new = refl },
      )
  In-populate_entry modified y e n = absurd (n refl)

  -- An entry that is no modification stays in the report, with its kind, type and paths.
  In-populate_entries :
      {c : DiffEntry} {es : List DiffEntry}
      → In c es
      → c.kind ≢ modified
      → (d : DiffEntry) × In d (populate_entries double_value old new es) × Filled c d
  unfolding populate_entries
  In-populate_entries {c} (here {y} {ys} q) nm =
      let (d, i, f) = In-populate_entry y.kind y refl (subst (λ e. e.kind ≢ modified) q nm) in
      (
        d,
        In-append_left (populate_entries double_value old new ys) i,
        subst (λ e. Filled e d) (sym q) f,
      )
  In-populate_entries {c} (there {y} i) nm =
      let (d, j, f) = In-populate_entries i nm in
      (d, In-append_right (populate_entry double_value old new y) j, f)

  In-diff_indexes :
      {c : DiffEntry}
      → In c (detect_moves old new (match_indexes old new)).entries
      → c.kind ≢ modified
      → (d : DiffEntry) × In d (diff_indexes double_value old new).entries × Filled c d
  unfolding diff_indexes populate_report sort_deterministically
  In-diff_indexes i nm = let (d, j, f) = In-populate_entries i nm in (d, In-sort_by entry_lt _ j, f)

  new_side-diff_indexes :
      (t : ElementType) (path : Text)
      → has_path new t path ≡ true
      → has_path old t path ≡ false
      → (d : DiffEntry) × In d (diff_indexes double_value old new).entries
        × (d.element_type ≡ type_name t)
        × (d.new_path ≡ path)
        × ((d.kind ≡ added) ⊎ (d.kind ≡ moved))
  new_side-diff_indexes t path h k =
      let e = addition (type_name t) path in
      let told : Tells (match_indexes old new) e = (
        e,
        In-match_indexes old new t (In-pass_of_new old new t path h k),
        record { same_kind = inl refl; same_type = refl; same_path = refl },
      ) in
      let (c, i, s) = Tells-detect_moves old new (match_indexes old new) e refl told in
      let (d, j, f) = In-diff_indexes i (not_modified s.same_kind) in
      (d, j, f.same_type ∙ s.same_type, f.same_new ∙ s.same_path, kind_of f.same_kind s.same_kind)
    where
      not_modified : {k : DiffKind} → (k ≡ added) ⊎ (k ≡ moved) → k ≢ modified
      not_modified (inl p) q = cc (p, q)
      not_modified (inr p) q = cc (p, q)

      kind_of : {k l : DiffKind} → l ≡ k → (k ≡ added) ⊎ (k ≡ moved) → (l ≡ added) ⊎ (l ≡ moved)
      kind_of q (inl p) = inl (q ∙ p)
      kind_of q (inr p) = inr (q ∙ p)

  gone_kind :
      (c : DiffEntry)
      → has_old c ≡ true
      → is_modified c ≡ false
      → (c.kind ≡ removed) ⊎ (c.kind ≡ moved)
  gone_kind c h n = ground arith

  old_side-diff_indexes :
      (t : ElementType) (path : Text)
      → has_path old t path ≡ true
      → has_path new t path ≡ false
      → (d : DiffEntry) × In d (diff_indexes double_value old new).entries
        × (d.element_type ≡ type_name t)
        × (d.old_path ≡ path)
        × ((d.kind ≡ removed) ⊎ (d.kind ≡ moved))
  unfolding old_sides
  old_side-diff_indexes t path h k =
      let e = removal (type_name t) path in
      let first : In (old_side e) (old_sides (match_indexes old new).entries) =
        In-map old_side
          (In-keep has_old (In-match_indexes old new t (In-pass_of_old old new t path h k)) refl) in
      let after =
        subst (In (old_side e)) (sym (old_sides-detect_all old new (match_indexes old new)))
          first in
      let (c, i, q) = In-of_In-map old_side _ after in
      let (i', o) = In-of_In-keep has_old _ i in
      let kind = gone_kind c o (sym (ap (λ (s : OldSide). s.stayed) q)) in
      let (d, j, f) = In-diff_indexes i' (not_modified kind) in
      (
        d,
        j,
        f.same_type ∙ sym (ap (λ (s : OldSide). s.type) q),
        f.same_old ∙ sym (ap (λ (s : OldSide). s.path) q),
        kind_of f.same_kind kind,
      )
    where
      not_modified : {k : DiffKind} → (k ≡ removed) ⊎ (k ≡ moved) → k ≢ modified
      not_modified (inl p) q = cc (p, q)
      not_modified (inr p) q = cc (p, q)

      kind_of : {k l : DiffKind} → l ≡ k → (k ≡ removed) ⊎ (k ≡ moved) → (l ≡ removed) ⊎ (l ≡ moved)
      kind_of q (inl p) = inl (q ∙ p)
      kind_of q (inr p) = inr (q ∙ p)

module _ (double_value : Double → Text) (p q : ParsedProject) (t : ElementType) (path : Text) where
  -- A path at which the new project has a named element of a type, and the old one has none, is
  -- reported for that type, as added or as where something moved to.
  pub diff_new_side :
      has_path (build_indexes q) t path ≡ true
      → has_path (build_indexes p) t path ≡ false
      → (d : DiffEntry) × In d (diff double_value p q).entries
        × (d.element_type ≡ type_name t)
        × (d.new_path ≡ path)
        × ((d.kind ≡ added) ⊎ (d.kind ≡ moved))
  diff_new_side h k =
      rw (diff-diff_indexes double_value p q)
        (new_side-diff_indexes double_value (build_indexes p) (build_indexes q) t path h k)

  -- A path at which the old project has a named element of a type, and the new one has none, is
  -- reported for that type, as removed or as where something moved from.
  pub diff_old_side :
      has_path (build_indexes p) t path ≡ true
      → has_path (build_indexes q) t path ≡ false
      → (d : DiffEntry) × In d (diff double_value p q).entries
        × (d.element_type ≡ type_name t)
        × (d.old_path ≡ path)
        × ((d.kind ≡ removed) ⊎ (d.kind ≡ moved))
  diff_old_side h k =
      rw (diff-diff_indexes double_value p q)
        (old_side-diff_indexes double_value (build_indexes p) (build_indexes q) t path h k)
