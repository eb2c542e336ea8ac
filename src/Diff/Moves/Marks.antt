-- ===== src/Diff/Moves/Marks.antt =====
-- What the second loop of move detection does to the entries, and what it leaves to erase.
use parse_x.Base.{
  ℕ, zero, suc, Option, some, List, [], ◌∷◌, ◌≡◌, ◌⊎◌, refl, sym, ap, ◌∙◌, subst, In, here, there,
  In-append_cases, Option-cases, inl, inr, get_elem?, set,
}
use parse_x.Base.Text.{Text}
use parse_x.Base.Map.{Map}
use parse_x.Diff.Report.{added, removed, DiffEntry}
use parse_x.Diff.Moves.{Group, Pairing, as_moved, key_at, mark_moved, pair_group, pair_groups}
use parse_x.Diff.Moves.Groups.{RemovedAt, AddedAt, IsGroupOf}

pub In-of_get_elem? {ℓ} :
    {A : Type ℓ} {x : A} (xs : List A) (i : ℕ) → get_elem? xs i ≡ some x → In x xs
In-of_get_elem? [] i h = absurd (cc)
In-of_get_elem? (y ∷ ys) zero h = here (cc)
In-of_get_elem? (y ∷ ys) (suc i) h = there (In-of_get_elem? ys i h)

pub some_inj {ℓ} : {A : Type ℓ} {x y : A} → some x ≡ some y → x ≡ y
some_inj e = cc

module _ {ℓ} {T : Type ℓ} (secondary_key : T → Option Text) (old new : Map T) (type : Text) where
  -- A removed and an added entry of the type whose elements have one secondary key.
  pub record IsPair (was now : DiffEntry) : Type 0 where
    pub is_removed : was.kind ≡ removed
    pub is_added : now.kind ≡ added
    pub old_type : was.element_type ≡ type
    pub new_type : now.element_type ≡ type
    pub key : Text
    pub old_key : key_at secondary_key old was.old_path ≡ some key
    pub new_key : key_at secondary_key new now.new_path ≡ some key

  module _ (es : List DiffEntry) where
    -- `now` is an entry of the report, and `e` became the move of `was` to it.
    pub record IsMove (was e : DiffEntry) : Type 0 where
      pub now : DiffEntry
      pub from_report : In now es
      pub pair : IsPair was now
      pub is_move : e ≡ as_moved was now

    -- The entries, each as it was or made a move.
    pub data Marked : List DiffEntry → List DiffEntry → Type 0 where
      nil : Marked [] []
      same :
          {was : DiffEntry} {xs ys : List DiffEntry} → Marked xs ys → Marked (was ∷ xs) (was ∷ ys)
      move :
          {was e : DiffEntry} {xs ys : List DiffEntry}
          → IsMove was e
          → Marked xs ys
          → Marked (was ∷ xs) (e ∷ ys)

    pub Marked-refl : (xs : List DiffEntry) → Marked xs xs
    Marked-refl [] = nil
    Marked-refl (x ∷ xs) = same (Marked-refl xs)

    -- An entry that is not removed is as it was.
    pub Marked-get :
        {xs ys : List DiffEntry} (i : ℕ) {was : DiffEntry}
        → Marked xs ys
        → get_elem? xs i ≡ some was
        → (get_elem? ys i ≡ some was) ⊎ ((e : DiffEntry) × (get_elem? ys i ≡ some e) × IsMove was e)
    Marked-get i nil h = absurd (cc)
    Marked-get zero (same m) h = inl h
    Marked-get zero (move {e} v m) h = inr (e, refl, subst_was (cc) v)
      where
        subst_was : {a b : DiffEntry} → a ≡ b → IsMove a e → IsMove b e
        subst_was p k = rw (← p) k
    Marked-get (suc i) (same m) h = Marked-get i m h
    Marked-get (suc i) (move v m) h = Marked-get i m h

    pub Marked-get_added :
        {xs ys : List DiffEntry} (i : ℕ) {e : DiffEntry}
        → Marked xs ys
        → get_elem? xs i ≡ some e
        → e.kind ≡ added
        → get_elem? ys i ≡ some e
    Marked-get_added i {e} m at kd = elim (Marked-get i m at) [
      | inl k ↦ k
      | inr (f, k, v) ↦ cc (kd, v.pair.is_removed)
    ]

    -- Marking a removed entry once more, or first, with its pair.
    Marked-set :
        {xs ys : List DiffEntry} (i : ℕ) {was cur now : DiffEntry}
        → Marked xs ys
        → get_elem? xs i ≡ some was
        → get_elem? ys i ≡ some cur
        → In now es
        → IsPair was now
        → Marked xs (set ys i (as_moved cur now))
    Marked-set i nil at cur_at i_now p = nil
    Marked-set zero {was} {cur} {now} (same {was = w} m) at cur_at i_now p =
        move
          (record {
            now = now;
            from_report = i_now;
            pair = subst (λ d. IsPair d now) (some_inj (sym at)) p;
            is_move = ap (λ d. as_moved d now) (some_inj (sym cur_at));
          })
          m
    Marked-set zero {was} {cur} {now} (move {was = w} v m) at cur_at i_now p =
        move
          (record {
            now = now;
            from_report = i_now;
            pair = subst (λ d. IsPair d now) (some_inj (sym at)) p;
            is_move = ap (λ d. as_moved d now) (some_inj (sym cur_at) ∙ v.is_move);
          })
          m
    Marked-set (suc i) (same m) at cur_at i_now p = same (Marked-set i m at cur_at i_now p)
    Marked-set (suc i) (move v m) at cur_at i_now p = move v (Marked-set i m at cur_at i_now p)

    -- The loop variables of the second loop: marked entries, and places of added ones to erase.
    pub record IsPairing (p : Pairing) : Type 0 where
      pub marked : Marked es p.report.entries
      pub erased_are_added :
          (i : ℕ)
          → In i p.added_to_erase
          → (e : DiffEntry) × (get_elem? es i ≡ some e) × (e.kind ≡ added)

    mark_moved-Marked :
        (r a : ℕ) (k : Text) {cur : List DiffEntry}
        → RemovedAt secondary_key old new type es k r
        → AddedAt secondary_key old new type es k a
        → Marked es cur
        → Marked es (mark_moved r a cur)
    unfolding mark_moved
    mark_moved-Marked r a k {cur} hr ha m = elim (Option-cases (get_elem? cur r)) [
      | inl n ↦ rw (n, mark_moved) m
      | inr (c, e) ↦
          rw (e, Marked-get_added a m ha.at ha.is_added, mark_moved)
            (Marked-set r m hr.at e (In-of_get_elem? es a ha.at) (record {
              is_removed = hr.is_removed;
              is_added = ha.is_added;
              old_type = hr.has_type;
              new_type = ha.has_type;
              key = k;
              old_key = hr.has_key;
              new_key = ha.has_key;
            }))
    ]

    pub pair_group-IsPairing :
        (k : Text) (rs as_idx : List ℕ) (p : Pairing)
        → IsGroupOf secondary_key old new type es k
            (record { removed_idx = rs; added_idx = as_idx })
        → IsPairing p
        → IsPairing (pair_group type k rs as_idx p)
    unfolding pair_group
    pair_group-IsPairing k (r ∷ []) (a ∷ []) p g h = record {
      marked = mark_moved-Marked r a k g.removals.0 g.additions.0 h.marked;
      erased_are_added = λ i j. elim (In-append_cases p.added_to_erase j) [
        | inl l ↦ h.erased_are_added i l
        | inr q ↦ one i q
      ];
    }
      where
        one :
            (i : ℕ) → In i (a ∷ []) → (e : DiffEntry) × (get_elem? es i ≡ some e) × (e.kind ≡ added)
        one i (here q) = let ha = g.additions.0 in (ha.entry, rw q ha.at, ha.is_added)
        one i (there q) = elim q [ ]
    pair_group-IsPairing k [] as_idx p g h = h
    pair_group-IsPairing k (r ∷ []) [] p g h = h
    pair_group-IsPairing k (r ∷ q ∷ rs) [] p g h = h
    pair_group-IsPairing k (r ∷ []) (a ∷ b ∷ as_idx) p g h = record {
      marked = h.marked;
      erased_are_added = h.erased_are_added;
    }
    pair_group-IsPairing k (r ∷ q ∷ rs) (a ∷ as_idx) p g h = record {
      marked = h.marked;
      erased_are_added = h.erased_are_added;
    }

    -- The second loop keeps the invariant over the groups of the report.
    pub pair_groups-IsPairing :
        (groups : Map Group) (p : Pairing)
        → ((k : Text) (g : Group) → In (k, g) groups → IsGroupOf secondary_key old new type es k g)
        → IsPairing p
        → IsPairing (pair_groups type groups p)
    unfolding pair_groups
    pair_groups-IsPairing [] p gs h = h
    pair_groups-IsPairing ((k, g) ∷ groups) p gs h =
        pair_groups-IsPairing groups _ (λ j f i. gs j f (there i))
          (pair_group-IsPairing k g.removed_idx g.added_idx p (gs k g (here refl)) h)
