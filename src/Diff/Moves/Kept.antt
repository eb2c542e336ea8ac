-- ===== src/Diff/Moves/Kept.antt =====
-- Move detection over one element type keeps the new side of the report: what is erased stands on
-- as the target of a move.
use parse_x.Base.{
  ℕ, zero, suc, ◌+◌, Bool, true, false, Option, some, List, [], ◌∷◌, ◌≡◌, ◌≢◌, ◌⊎◌, refl, sym, ap,
  ◌∙◌, subst, arith, In, here, there, In-append_cases, All, Bool-cases, inl, inr, ltb, ◌==◌,
  get_elem?, set, if◌then◌else◌,
}
use parse_x.Base.Text.{Text, text_lt, text_lt_irrefl}
use parse_x.Base.Sort.{sort_by, In-of_In-sort_by}
use parse_x.Base.Map.{Map, find, IsAscending}
use parse_x.Base.Map.Laws.{find-of_In}
use parse_x.Diff.Report.{removed, moved, DiffEntry, DiffReport}
use parse_x.Diff.Moves.{
  Group, Pairing, as_moved, key_at, mark_moved, pair_group, pair_groups, is_next, rest_of,
  drop_erased, collect_groups, detect_moves_for_type,
}
use parse_x.Diff.Moves.Groups.{
  RemovedAt, AddedAt, IsGroupOf, collect_groups-AreGroups, collect_groups-IsAscending,
}
use parse_x.Diff.Moves.Marks.{
  Marked, Marked-refl, Marked-get, Marked-get_added, IsPairing, pair_group-IsPairing, some_inj,
}
use parse_x.Diff.Moves.Sound.{pairing_of, pairing_of-IsPairing, entries-erase_added, In-of_In-rest}

get_elem?-set_self :
    (xs : List DiffEntry) (i : ℕ) {c : DiffEntry} (v : DiffEntry)
    → get_elem? xs i ≡ some c
    → get_elem? (set xs i v) i ≡ some v
get_elem?-set_self [] i v h = absurd (cc)
get_elem?-set_self (x ∷ xs) zero v h = refl
get_elem?-set_self (x ∷ xs) (suc i) v h = get_elem?-set_self xs i v h

get_elem?-set_ne :
    (xs : List DiffEntry) (i j : ℕ) (v : DiffEntry)
    → i ≢ j
    → get_elem? (set xs i v) j ≡ get_elem? xs j
get_elem?-set_ne [] i j v h = refl
get_elem?-set_ne (x ∷ xs) zero zero v h = absurd (h refl)
get_elem?-set_ne (x ∷ xs) zero (suc j) v h = refl
get_elem?-set_ne (x ∷ xs) (suc i) zero v h = refl
get_elem?-set_ne (x ∷ xs) (suc i) (suc j) v h = get_elem?-set_ne xs i j v (λ e. h (ap suc e))

-- An entry whose place is not listed is not erased.
In-drop_erased :
    (i : ℕ) (er : List ℕ) (es : List DiffEntry) (j : ℕ) {c : DiffEntry}
    → get_elem? es j ≡ some c
    → ¬ In (i + j) er
    → In c (drop_erased i er es)
unfolding drop_erased
In-drop_erased i er [] j at h = absurd (cc)
In-drop_erased i er (e ∷ es) zero at h = elim (Bool-cases (is_next i er)) [
  | inl t ↦ absurd (h (in_next i er t))
  | inr f ↦ rw f (here (some_inj (sym at)))
]
  where
    in_next : (i : ℕ) (er : List ℕ) → is_next i er ≡ true → In (i + 0) er
    in_next i [] h = absurd (cc)
    in_next i (p ∷ ps) h = here (ground arith)
In-drop_erased i er (e ∷ es) (suc j) {c} at h =
    let ih =
      In-drop_erased (suc i) (if is_next i er then rest_of er else er) es j at
        (λ k. h (subst (λ n. In n er) (omega arith) (In-of_In-rest i er k))) in
    by (is_next i er) ih
  where
    by : (b : Bool) {kept : List DiffEntry} → In c kept → In c (if b then kept else e ∷ kept)
    by true k = k
    by false k = there k

In-or_not : (i : ℕ) (xs : List ℕ) → In i xs ⊎ (¬ In i xs)
In-or_not i [] = inr (λ h. elim h [ ])
In-or_not i (x ∷ xs) = elim (Bool-cases (i == x)) [
  | inl t ↦ inl (here (ground arith))
  | inr f ↦ elim (In-or_not i xs) [
    | inl k ↦ inl (there k)
    | inr n ↦ inr (λ h. not_in n (ground arith) h)
  ]
]
  where
    not_in : ¬ In i xs → ¬ (i ≡ x) → In i (x ∷ xs) → ⊥
    not_in n q (here e) = q e
    not_in n q (there k) = n k

module _ {ℓ} {T : Type ℓ} (secondary_key : T → Option Text) (old new : Map T) (type : Text)
    (es : List DiffEntry) where
  -- The removed entry at place `r` has become the move to the added entry `e`.
  record MovedTo (groups : Map Group) (cur : List DiffEntry) (e : DiffEntry) : Type 0 where
    place : ℕ
    key : Text
    removal : RemovedAt secondary_key old new type es key place
    entry : DiffEntry
    at : get_elem? cur place ≡ some entry
    is_moved : entry.kind ≡ moved
    has_type : entry.element_type ≡ e.element_type
    has_path : entry.new_path ≡ e.new_path
    key_below : All (λ (g : Text × Group). text_lt key g.0 ≡ true) groups

  -- What is to be erased has its move, which the groups still to come do not touch.
  abbrev HaveMoves : Map Group → Pairing → Type 0
  HaveMoves groups p =
      (i : ℕ) (e : DiffEntry)
      → In i p.added_to_erase
      → get_elem? es i ≡ some e
      → MovedTo groups p.report.entries e

  RemovedAt-key :
      (k l : Text) (i : ℕ)
      → RemovedAt secondary_key old new type es k i
      → RemovedAt secondary_key old new type es l i
      → k ≡ l
  RemovedAt-key k l i a b =
      let same : a.entry ≡ b.entry = some_inj (sym a.at ∙ b.at) in
      some_inj (
        sym a.has_key
        ∙ (ap (λ (d : DiffEntry). key_at secondary_key old d.old_path) same ∙ b.has_key))

  MovedTo-tail :
      (g : Text × Group) (groups : Map Group) (cur : List DiffEntry) (e : DiffEntry)
      → MovedTo (g ∷ groups) cur e
      → MovedTo groups cur e
  MovedTo-tail g groups cur e w = record {
    place = w.place;
    key = w.key;
    removal = w.removal;
    entry = w.entry;
    at = w.at;
    is_moved = w.is_moved;
    has_type = w.has_type;
    has_path = w.has_path;
    key_below = w.key_below.1;
  }

  -- The marked entry at a removed place keeps the type.
  removed_now :
      (k : Text) (r : ℕ) {cur : List DiffEntry}
      → RemovedAt secondary_key old new type es k r
      → Marked secondary_key old new type es es cur
      → (c : DiffEntry) × (get_elem? cur r ≡ some c) × (c.element_type ≡ type)
  removed_now k r hr m = elim (Marked-get secondary_key old new type es r m hr.at) [
    | inl at ↦ (hr.entry, at, hr.has_type)
    | inr (c, at, v) ↦ (c, at, ap (λ (d : DiffEntry). d.element_type) v.is_move ∙ hr.has_type)
  ]

  module _ (k : Text) (g : Group) (groups : Map Group) (r a : ℕ) (cur : List DiffEntry)
      (hr : RemovedAt secondary_key old new type es k r)
      (ha : AddedAt secondary_key old new type es k a)
      (m : Marked secondary_key old new type es es cur)
      (below : All (λ (g : Text × Group). text_lt k g.0 ≡ true) groups) where
    marked_cur : mark_moved r a cur ≡ set cur r (as_moved (removed_now k r hr m).0 ha.entry)
    unfolding mark_moved
    marked_cur =
        let c = removed_now k r hr m in
        ground (arith, c.1, Marked-get_added secondary_key old new type es a m ha.at ha.is_added)

    MovedTo-mark_moved :
        (e : DiffEntry) → MovedTo ((k, g) ∷ groups) cur e → MovedTo groups (mark_moved r a cur) e
    MovedTo-mark_moved e w =
        let elsewhere : r ≢ w.place = λ q. cc (
          RemovedAt-key w.key k w.place w.removal
              (subst (RemovedAt secondary_key old new type es k) q hr),
          w.key_below.0,
          text_lt_irrefl k,
        ) in
        record {
          place = w.place;
          key = w.key;
          removal = w.removal;
          entry = w.entry;
          at =
              ap (λ c. get_elem? c w.place) marked_cur
              ∙ (get_elem?-set_ne cur r w.place _ elsewhere ∙ w.at);
          is_moved = w.is_moved;
          has_type = w.has_type;
          has_path = w.has_path;
          key_below = w.key_below.1;
        }

    MovedTo-new : (e : DiffEntry) → get_elem? es a ≡ some e → MovedTo groups (mark_moved r a cur) e
    MovedTo-new e at =
        let c = removed_now k r hr m in
        let same : ha.entry ≡ e = some_inj (sym ha.at ∙ at) in
        record {
          place = r;
          key = k;
          removal = hr;
          entry = as_moved c.0 ha.entry;
          at = ap (λ x. get_elem? x r) marked_cur ∙ get_elem?-set_self cur r _ c.1;
          is_moved = refl;
          has_type = c.2 ∙ (sym ha.has_type ∙ ap (λ (d : DiffEntry). d.element_type) same);
          has_path = ap (λ (d : DiffEntry). d.new_path) same;
          key_below = below;
        }

  pair_group-HaveMoves :
      (k : Text) (rs as_idx : List ℕ) (groups : Map Group) (p : Pairing)
      → IsGroupOf secondary_key old new type es k (record { removed_idx = rs; added_idx = as_idx })
      → All (λ (g : Text × Group). text_lt k g.0 ≡ true) groups
      → IsPairing secondary_key old new type es p
      → HaveMoves ((k, record { removed_idx = rs; added_idx = as_idx }) ∷ groups) p
      → HaveMoves groups (pair_group type k rs as_idx p)
  unfolding pair_group
  pair_group-HaveMoves k (r ∷ []) (a ∷ []) groups p g below v h i e j at =
      elim (In-append_cases p.added_to_erase j) [
        | inl l ↦
            MovedTo-mark_moved k _ groups r a p.report.entries g.removals.0 g.additions.0 v.marked
              below e (h i e l at)
        | inr q ↦
            MovedTo-new k (record { removed_idx = []; added_idx = [] }) groups r a p.report.entries
              g.removals.0 g.additions.0 v.marked below e
              (subst (λ n. get_elem? es n ≡ some e) (the_one q) at)
      ]
    where
      the_one : In i (a ∷ []) → i ≡ a
      the_one (here q) = q
      the_one (there q) = elim q [ ]
  pair_group-HaveMoves k [] as_idx groups p g below v h i e j at =
      MovedTo-tail _ groups _ e (h i e j at)
  pair_group-HaveMoves k (r ∷ []) [] groups p g below v h i e j at =
      MovedTo-tail _ groups _ e (h i e j at)
  pair_group-HaveMoves k (r ∷ q ∷ rs) [] groups p g below v h i e j at =
      MovedTo-tail _ groups _ e (h i e j at)
  pair_group-HaveMoves k (r ∷ []) (a ∷ b ∷ as_idx) groups p g below v h i e j at =
      MovedTo-tail _ groups _ e (h i e j at)
  pair_group-HaveMoves k (r ∷ q ∷ rs) (a ∷ as_idx) groups p g below v h i e j at =
      MovedTo-tail _ groups _ e (h i e j at)

  pair_groups-HaveMoves :
      (groups : Map Group) (p : Pairing)
      → IsAscending groups
      → ((k : Text) (g : Group) → In (k, g) groups → IsGroupOf secondary_key old new type es k g)
      → IsPairing secondary_key old new type es p
      → HaveMoves groups p
      → HaveMoves [] (pair_groups type groups p)
  unfolding pair_groups
  pair_groups-HaveMoves [] p asc gs v h = h
  pair_groups-HaveMoves ((k, g) ∷ groups) p asc gs v h =
      pair_groups-HaveMoves groups _ asc.1 (λ j f i. gs j f (there i))
        (pair_group-IsPairing secondary_key old new type es k g.removed_idx g.added_idx p
          (gs k g (here refl)) v)
        (pair_group-HaveMoves k g.removed_idx g.added_idx groups p (gs k g (here refl)) asc.0 v h)

-- An entry of the same element type that tells of the same new path, alike or as a move.
pub record SameNew (e c : DiffEntry) : Type 0 where
  pub same_kind : (c.kind ≡ e.kind) ⊎ (c.kind ≡ moved)
  pub same_type : c.element_type ≡ e.element_type
  pub same_path : c.new_path ≡ e.new_path

pub get_elem?-of_In :
    {x : DiffEntry} {xs : List DiffEntry} → In x xs → (i : ℕ) × (get_elem? xs i ≡ some x)
get_elem?-of_In (here e) = (0, ap some (sym e))
get_elem?-of_In (there j) = let r = get_elem?-of_In j in (suc r.0, r.1)

module _ {ℓ} {T : Type ℓ} (secondary_key : T → Option Text) (old new : Map T) (type : Text)
    (r : DiffReport) where
  pairing_of-HaveMoves :
      HaveMoves secondary_key old new type r.entries [] (pairing_of secondary_key old new type r)
  pairing_of-HaveMoves =
      let groups = collect_groups secondary_key old new type 0 r.entries [] in
      let asc = collect_groups-IsAscending secondary_key old new type r.entries 0 r.entries [] tt in
      pair_groups-HaveMoves secondary_key old new type r.entries groups _ asc
        (λ k g i.
          collect_groups-AreGroups secondary_key old new type r.entries 0 r.entries []
            (λ j. ap (get_elem? r.entries) (omega arith)) (λ k g h. absurd (unfold find in cc h)) k
            g (find-of_In groups asc i))
        (record {
          marked = Marked-refl secondary_key old new type r.entries r.entries;
          erased_are_added = λ i j. elim j [ ];
        })
        (λ i e j at. elim j [ ])

  pairing : Pairing
  pairing = pairing_of secondary_key old new type r

  In-result :
      {c : DiffEntry} (j : ℕ)
      → get_elem? pairing.report.entries j ≡ some c
      → ¬ In j pairing.added_to_erase
      → In c (detect_moves_for_type secondary_key old new type r).entries
  unfolding detect_moves_for_type pairing
  In-result {c} j at h =
      let p = pairing_of secondary_key old new type r in
      subst (In c) (sym (entries-erase_added p)) (
        In-drop_erased 0 (sort_by ltb p.added_to_erase) p.report.entries j at (λ k. h (
          In-of_In-sort_by ltb p.added_to_erase
            (subst (λ n. In n (sort_by ltb p.added_to_erase)) (omega arith) k))))

  -- For each entry that is not removed there is, after the move detection of a type, an entry of
  -- the same element type and new path that is of the same kind or moved.
  pub new_paths-detect_moves :
      {e : DiffEntry}
      → In e r.entries
      → e.kind ≢ removed
      → (c : DiffEntry) × In c (detect_moves_for_type secondary_key old new type r).entries
        × SameNew e c
  unfolding pairing
  new_paths-detect_moves {e} i nr =
      let (j, at) = get_elem?-of_In i in
      let v = pairing_of-IsPairing secondary_key old new type r in
      elim (In-or_not j (pairing_of secondary_key old new type r).added_to_erase) [
        | inl k ↦
            let w = pairing_of-HaveMoves j e k at in
            (
              w.entry,
              In-result w.place w.at (λ q.
                  let x = v.erased_are_added w.place q in
                  cc (some_inj (sym x.1 ∙ w.removal.at), x.2, w.removal.is_removed)),
              record { same_kind = inr w.is_moved; same_type = w.has_type; same_path = w.has_path },
            )
        | inr n ↦ elim (Marked-get secondary_key old new type r.entries j v.marked at) [
          | inl at' ↦ (
            e,
            In-result j at' n,
            record { same_kind = inl refl; same_type = refl; same_path = refl },
          )
          | inr (c, at', m) ↦ absurd (nr m.pair.is_removed)
        ]
      ]
