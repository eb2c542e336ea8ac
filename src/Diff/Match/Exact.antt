-- ===== src/Diff/Match/Exact.antt =====
-- Which entries matching makes of two indexes.
use parse_x.Base.{
  Bool, true, false, Option, none, some, List, [], ◌∷◌, ◌++◌, ◌≡◌, ◌⊎◌, ◌↔◌, refl, sym, ap, ◌∙◌,
  arith, not, In, here, there, In-append_left, In-append_right, In-append_cases, Bool-cases,
  Option-cases, inl, inr, if◌then◌else◌,
}
use parse_x.Base.Text.{Text}
use parse_x.Base.Map.{Map, find, contains}
use parse_x.Base.Map.Laws.{In-of_find, contains-of_In}
use parse_x.Diff.Report.{added, removed, modified, DiffEntry}
use parse_x.Diff.Match.{removed_entries, added_entries, modified_entries, match_by_path}

abbrev pub removal : Text → Text → DiffEntry
removal type path = record {
  kind = removed;
  element_type = type;
  old_path = path;
  new_path = [];
  field_diffs = [];
}

abbrev pub addition : Text → Text → DiffEntry
addition type path = record {
  kind = added;
  element_type = type;
  old_path = [];
  new_path = path;
  field_diffs = [];
}

abbrev pub modification : Text → Text → DiffEntry
modification type path = record {
  kind = modified;
  element_type = type;
  old_path = path;
  new_path = path;
  field_diffs = [];
}

-- A loop over a map that makes one entry for each key that passes a test.
abbrev entry_if : Bool → DiffEntry → List DiffEntry → List DiffEntry
entry_if b e rest = if b then e ∷ rest else rest

In-entry_if :
    (b : Bool) (e : DiffEntry) (rest : List DiffEntry) {x : DiffEntry}
    → In x (entry_if b e rest)
    → ((b ≡ true) × (x ≡ e)) ⊎ In x rest
In-entry_if true e rest (here q) = inl (refl, q)
In-entry_if true e rest (there i) = inr i
In-entry_if false e rest i = inr i

In-entry_if_rest :
    (b : Bool) (e : DiffEntry) (rest : List DiffEntry) {x : DiffEntry}
    → In x rest
    → In x (entry_if b e rest)
In-entry_if_rest true e rest i = there i
In-entry_if_rest false e rest i = i

module _ {ℓ} {T : Type ℓ} where
  -- The entry `x` is made by `make` for a key of `m` on which `other` answers `found`.
  abbrev Made : (Text → DiffEntry) → Bool → Map T → Map T → DiffEntry → Type 0
  Made make found other m x =
      (path : Text) × (contains path m ≡ true) × (contains path other ≡ found) × (x ≡ make path)

  contains_cons :
      (path k : Text) (v : T) (m : Map T)
      → contains path m ≡ true
      → contains path ((k, v) ∷ m) ≡ true
  unfolding find
  contains_cons path k v m h = ground arith

  contains_head : (k : Text) (v : T) (m : Map T) → contains k ((k, v) ∷ m) ≡ true
  contains_head k v m = contains-of_In ((k, v) ∷ m) (here refl)

  Made-cons :
      (make : Text → DiffEntry) (found : Bool) (other : Map T) (k : Text) (v : T) (m : Map T)
      (x : DiffEntry)
      → Made make found other m x
      → Made make found other ((k, v) ∷ m) x
  Made-cons make found other k v m x (p, c, o, e) = (p, contains_cons p k v m c, o, e)

  Made-of_In-removed :
      (type : Text) (new old : Map T) {x : DiffEntry}
      → In x (removed_entries type new old)
      → Made (removal type) false new old x
  unfolding removed_entries
  Made-of_In-removed type new [] i = elim i [ ]
  Made-of_In-removed type new ((k, v) ∷ old) {x} i =
      elim (In-entry_if (not (contains k new)) _ _ i) [
        | inl (n, e) ↦ (k, contains_head k v old, ground arith, e)
        | inr j ↦ Made-cons _ _ new k v old x (Made-of_In-removed type new old j)
      ]

  Made-of_In-added :
      (type : Text) (old new : Map T) {x : DiffEntry}
      → In x (added_entries type old new)
      → Made (addition type) false old new x
  unfolding added_entries
  Made-of_In-added type old [] i = elim i [ ]
  Made-of_In-added type old ((k, v) ∷ new) {x} i = elim (In-entry_if (not (contains k old)) _ _ i) [
    | inl (n, e) ↦ (k, contains_head k v new, ground arith, e)
    | inr j ↦ Made-cons _ _ old k v new x (Made-of_In-added type old new j)
  ]

  Made-of_In-modified :
      (type : Text) (new old : Map T) {x : DiffEntry}
      → In x (modified_entries type new old)
      → Made (modification type) true new old x
  unfolding modified_entries
  Made-of_In-modified type new [] i = elim i [ ]
  Made-of_In-modified type new ((k, v) ∷ old) {x} i = elim (In-entry_if (contains k new) _ _ i) [
    | inl (n, e) ↦ (k, contains_head k v old, n, e)
    | inr j ↦ Made-cons _ _ new k v old x (Made-of_In-modified type new old j)
  ]

  In-removed_entries :
      (type : Text) (new old : Map T) {k : Text} {v : T}
      → In (k, v) old
      → contains k new ≡ false
      → In (removal type k) (removed_entries type new old)
  unfolding removed_entries
  In-removed_entries type new [] i h = elim i [ ]
  In-removed_entries type new ((j, w) ∷ old) (here e) h =
      let q = ap (λ (p : Text × T). p.0) e in rw (← q, h) (here refl)
  In-removed_entries type new ((j, w) ∷ old) (there i) h =
      In-entry_if_rest (not (contains j new)) _ _ (In-removed_entries type new old i h)

  In-added_entries :
      (type : Text) (old new : Map T) {k : Text} {v : T}
      → In (k, v) new
      → contains k old ≡ false
      → In (addition type k) (added_entries type old new)
  unfolding added_entries
  In-added_entries type old [] i h = elim i [ ]
  In-added_entries type old ((j, w) ∷ new) (here e) h =
      let q = ap (λ (p : Text × T). p.0) e in rw (← q, h) (here refl)
  In-added_entries type old ((j, w) ∷ new) (there i) h =
      In-entry_if_rest (not (contains j old)) _ _ (In-added_entries type old new i h)

  In-modified_entries :
      (type : Text) (new old : Map T) {k : Text} {v : T}
      → In (k, v) old
      → contains k new ≡ true
      → In (modification type k) (modified_entries type new old)
  unfolding modified_entries
  In-modified_entries type new [] i h = elim i [ ]
  In-modified_entries type new ((j, w) ∷ old) (here e) h =
      let q = ap (λ (p : Text × T). p.0) e in rw (← q, h) (here refl)
  In-modified_entries type new ((j, w) ∷ old) (there i) h =
      In-entry_if_rest (contains j new) _ _ (In-modified_entries type new old i h)

  In-of_contains : (k : Text) (m : Map T) → contains k m ≡ true → (v : T) × In (k, v) m
  In-of_contains k m h = elim (Option-cases (find k m)) [
    | inl n ↦ absurd (cc (ap (λ (o : Option T). parse_x.Base.is_some o) n, h))
    | inr (v, e) ↦ (v, In-of_find k m e)
  ]

  -- What matching says of a path: only old, only new, or both.
  abbrev pub Says : Map T → Map T → Text → DiffEntry → Text → Type 0
  Says old new type x path =
      ((contains path old ≡ true) × (contains path new ≡ false) × (x ≡ removal type path))
      ⊎ (((contains path new ≡ true) × (contains path old ≡ false) × (x ≡ addition type path))
          ⊎ ((contains path old ≡ true)
              × (contains path new ≡ true)
              × (x ≡ modification type path)))

  -- Matching makes exactly these entries: a removal for a path of the old index alone, an addition
  -- for a path of the new index alone, and a modification for a path of both.
  pub match_by_path-exact :
      (old new : Map T) (type : Text) (x : DiffEntry)
      → In x (match_by_path old new type).entries ↔ ((path : Text) × Says old new type x path)
  unfolding match_by_path
  match_by_path-exact old new type x = (sound, complete)
    where
      sound :
          In x (
            removed_entries type new old
            ++ (added_entries type old new ++ modified_entries type new old))
          → (path : Text) × Says old new type x path
      sound i = elim (In-append_cases (removed_entries type new old) i) [
        | inl j ↦ let (p, c, o, e) = Made-of_In-removed type new old j in (p, inl (c, o, e))
        | inr j ↦ elim (In-append_cases (added_entries type old new) j) [
          | inl k ↦ let (p, c, o, e) = Made-of_In-added type old new k in (p, inr (inl (c, o, e)))
          | inr k ↦
              let (p, c, o, e) = Made-of_In-modified type new old k in (p, inr (inr (c, o, e)))
        ]
      ]

      complete :
          ((path : Text) × Says old new type x path)
          → In x (
              removed_entries type new old
              ++ (added_entries type old new ++ modified_entries type new old))
      complete (p, inl (c, o, e)) =
          rw e (In-append_left _ (In-removed_entries type new old (In-of_contains p old c).1 o))
      complete (p, inr (inl (c, o, e))) = rw e (
          In-append_right (removed_entries type new old)
            (In-append_left _ (In-added_entries type old new (In-of_contains p new c).1 o)))
      complete (p, inr (inr (c, o, e))) = rw e (
          In-append_right (removed_entries type new old) (
            In-append_right (added_entries type old new)
              (In-modified_entries type new old (In-of_contains p old c).1 o)))
