-- ===== src/Diff/Moves/Groups.antt =====
-- What the first loop of move detection puts in its groups.
use parse_x.Base.{
  ℕ, suc, ◌+◌, Option, none, some, List, [], ◌∷◌, ◌++◌, ◌≡◌, refl, ap, ◌∙◌, arith, All, Bool-cases,
  Option-cases, inl, inr, get_elem?, value_or,
}
use parse_x.Base.Text.{Text, text_eq, text_eq_iff}
use parse_x.Base.Map.{Map, find, upsert, IsAscending}
use parse_x.Base.Map.Laws.{find-upsert, upsert-IsAscending}
use parse_x.Diff.Report.{DiffKind, added, removed, moved, modified, DiffEntry}
use parse_x.Diff.Moves.{
  Group, empty_group, push_removed, push_added, put_in_group, key_at, group_entry, collect_groups,
}

pub All-concat {ℓ κ} :
    {A : Type ℓ} (P : A → Type κ) (xs : List A) (x : A) → All P xs → P x → All P (xs ++ x ∷ [])
All-concat P [] x h p = (p, tt)
All-concat P (y ∷ xs) x h p = (h.0, All-concat P xs x h.1 p)

module _ {ℓ} {T : Type ℓ} (secondary_key : T → Option Text) (old new : Map T) (type : Text)
    (es : List DiffEntry) where
  -- The place `i` holds a removed entry of the type whose element has the key.
  pub record RemovedAt (key : Text) (i : ℕ) : Type 0 where
    pub entry : DiffEntry
    pub at : get_elem? es i ≡ some entry
    pub is_removed : entry.kind ≡ removed
    pub has_type : entry.element_type ≡ type
    pub has_key : key_at secondary_key old entry.old_path ≡ some key

  pub record AddedAt (key : Text) (i : ℕ) : Type 0 where
    pub entry : DiffEntry
    pub at : get_elem? es i ≡ some entry
    pub is_added : entry.kind ≡ added
    pub has_type : entry.element_type ≡ type
    pub has_key : key_at secondary_key new entry.new_path ≡ some key

  pub record IsGroupOf (key : Text) (g : Group) : Type 0 where
    pub removals : All (RemovedAt key) g.removed_idx
    pub additions : All (AddedAt key) g.added_idx

  abbrev pub AreGroups : Map Group → Type 0
  AreGroups groups = (k : Text) (g : Group) → find k groups ≡ some g → IsGroupOf k g

  -- The group found at a key, or the empty one, is a group of that key.
  IsGroupOf-value_or :
      (groups : Map Group) (key : Text)
      → AreGroups groups
      → IsGroupOf key (value_or (find key groups) empty_group)
  IsGroupOf-value_or groups key h = elim (Option-cases (find key groups)) [
    | inl n ↦ rw n (record { removals = tt; additions = tt })
    | inr (g, e) ↦ rw e (h key g e)
  ]

  upsert-AreGroups :
      (groups : Map Group) (key : Text) (change : Group → Group)
      → AreGroups groups
      → ((g : Group) → IsGroupOf key g → IsGroupOf key (change g))
      → AreGroups (upsert key empty_group change groups)
  upsert-AreGroups groups key change h keeps k g e = elim (Bool-cases (text_eq key k)) [
    | inl t ↦
        let changed = keeps _ (IsGroupOf-value_or groups key h) in
        let same : change (value_or (find key groups) empty_group) ≡ g =
          ground (arith, find-upsert key k empty_group change groups) in
        rw (← same, ← (text_eq_iff key k).0 t) changed
    | inr f ↦ h k g (ground (arith, find-upsert key k empty_group change groups))
  ]

  put_in_group-AreGroups :
      (groups : Map Group) (key : Option Text) (change : Group → Group)
      → AreGroups groups
      → ((k : Text) → key ≡ some k → (g : Group) → IsGroupOf k g → IsGroupOf k (change g))
      → AreGroups (put_in_group key change groups)
  unfolding put_in_group
  put_in_group-AreGroups groups none change h keeps = h
  put_in_group-AreGroups groups (some k) change h keeps =
      upsert-AreGroups groups k change h (keeps k refl)

  push_removed-IsGroupOf :
      (k : Text) (i : ℕ) (g : Group)
      → RemovedAt k i
      → IsGroupOf k g
      → IsGroupOf k (push_removed i g)
  push_removed-IsGroupOf k i g r h = record {
    removals = All-concat (RemovedAt k) g.removed_idx i h.removals r;
    additions = h.additions;
  }

  push_added-IsGroupOf :
      (k : Text) (i : ℕ) (g : Group) → AddedAt k i → IsGroupOf k g → IsGroupOf k (push_added i g)
  push_added-IsGroupOf k i g r h = record {
    removals = h.removals;
    additions = All-concat (AddedAt k) g.added_idx i h.additions r;
  }

  group_kind-AreGroups :
      (i : ℕ) (e : DiffEntry) (kind : DiffKind) (groups : Map Group)
      → get_elem? es i ≡ some e
      → e.element_type ≡ type
      → e.kind ≡ kind
      → AreGroups groups
      → AreGroups (elim kind [
        | removed ↦ put_in_group (key_at secondary_key old e.old_path) (push_removed i) groups
        | added ↦ put_in_group (key_at secondary_key new e.new_path) (push_added i) groups
        | moved ↦ groups
        | modified ↦ groups
      ])
  group_kind-AreGroups i e removed groups at ty kd h =
      put_in_group-AreGroups groups _ (push_removed i) h λ k key g gg.
        push_removed-IsGroupOf k i g
          (record { entry = e; at = at; is_removed = kd; has_type = ty; has_key = key }) gg
  group_kind-AreGroups i e added groups at ty kd h =
      put_in_group-AreGroups groups _ (push_added i) h λ k key g gg.
        push_added-IsGroupOf k i g
          (record { entry = e; at = at; is_added = kd; has_type = ty; has_key = key }) gg
  group_kind-AreGroups i e moved groups at ty kd h = h
  group_kind-AreGroups i e modified groups at ty kd h = h

  group_entry-AreGroups :
      (i : ℕ) (e : DiffEntry) (groups : Map Group)
      → get_elem? es i ≡ some e
      → AreGroups groups
      → AreGroups (group_entry secondary_key old new type i e groups)
  unfolding group_entry
  group_entry-AreGroups i e groups at h = elim (Bool-cases (text_eq e.element_type type)) [
    | inl t ↦
        rw t
          (group_kind-AreGroups i e e.kind groups at ((text_eq_iff e.element_type type).0 t) refl h)
    | inr f ↦ rw f h
  ]

  -- Each group holds places of entries with its key; `rest` stands in the report from place `i` on.
  pub collect_groups-AreGroups :
      (i : ℕ) (rest : List DiffEntry) (groups : Map Group)
      → ((j : ℕ) → get_elem? es (i + j) ≡ get_elem? rest j)
      → AreGroups groups
      → AreGroups (collect_groups secondary_key old new type i rest groups)
  unfolding collect_groups
  collect_groups-AreGroups i [] groups at h = h
  collect_groups-AreGroups i (e ∷ rest) groups at h =
      collect_groups-AreGroups (suc i) rest _ (λ j. ap (get_elem? es) (omega arith) ∙ at (suc j))
        (group_entry-AreGroups i e groups (ap (get_elem? es) (omega arith) ∙ at 0) h)

  put_in_group-IsAscending :
      (key : Option Text) (change : Group → Group) (groups : Map Group)
      → IsAscending groups
      → IsAscending (put_in_group key change groups)
  unfolding put_in_group
  put_in_group-IsAscending none change groups a = a
  put_in_group-IsAscending (some k) change groups a =
      upsert-IsAscending k empty_group change groups a

  group_entry-IsAscending :
      (i : ℕ) (e : DiffEntry) (groups : Map Group)
      → IsAscending groups
      → IsAscending (group_entry secondary_key old new type i e groups)
  unfolding group_entry
  group_entry-IsAscending i e groups a = elim (Bool-cases (text_eq e.element_type type)) [
    | inl t ↦ rw t (by_kind e.kind)
    | inr f ↦ rw f a
  ]
    where
      by_kind :
          (kind : DiffKind)
          → IsAscending (elim kind [
            | removed ↦ put_in_group (key_at secondary_key old e.old_path) (push_removed i) groups
            | added ↦ put_in_group (key_at secondary_key new e.new_path) (push_added i) groups
            | moved ↦ groups
            | modified ↦ groups
          ])
      by_kind removed = put_in_group-IsAscending _ _ groups a
      by_kind added = put_in_group-IsAscending _ _ groups a
      by_kind moved = a
      by_kind modified = a

  pub collect_groups-IsAscending :
      (i : ℕ) (rest : List DiffEntry) (groups : Map Group)
      → IsAscending groups
      → IsAscending (collect_groups secondary_key old new type i rest groups)
  unfolding collect_groups
  collect_groups-IsAscending i [] groups a = a
  collect_groups-IsAscending i (e ∷ rest) groups a =
      collect_groups-IsAscending (suc i) rest _ (group_entry-IsAscending i e groups a)
