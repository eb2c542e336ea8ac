-- ===== src/Base/Map/Laws.antt =====
-- What a look-up finds after each change of a map, and that the keys stay in order.
use parse_x.Base.Lists.{All, In, here, there, In-All}
use mathlib.Core.Path.{◌≡◌, refl, sym, ap, ap₂}
use mathlib.Core.Bool.{true, false}
use mathlib.Core.Logic.{inl, inr}
use mathlib.Core.Option.{Option, none, some}
use mathlib.Core.List.{[], ◌∷◌}
use native.Mathlib.Omega.{arith}
use parse_x.Base.Tests.{if◌then◌else◌, Bool-cases, value_or}
use parse_x.Base.Text.{
  Text, text_eq, text_lt, text_eq_iff, text_eq_refl, text_lt_irrefl, text_lt_trans,
  text_lt_antisymm,
}
use parse_x.Base.Map.{Map, find, contains, insert_new, try_emplace, adjust, upsert, IsAscending}

above-ne : (k j : Text) → text_lt k j ≡ true → text_eq k j ≡ false
above-ne k j h = ground (arith, text_eq_iff k j, text_lt_irrefl k)

module _ {ℓ} {V : Type ℓ} where
  find-insert_new :
      (k j : Text) (v : V) (m : Map V)
      → contains k m ≡ false
      → find j (insert_new k v m) ≡ (if text_eq k j then some v else find j m)
  unfolding find insert_new
  find-insert_new k j v [] h = refl
  find-insert_new k j v ((i, w) ∷ m) h =
      ground (arith, text_eq_iff k j, text_eq_iff i k, text_eq_iff i j, find-insert_new k j v m)

  pub find-try_emplace :
      (k j : Text) (v : V) (m : Map V)
      → find j (try_emplace k v m)
        ≡ (if text_eq k j then some (value_or (find k m) v) else find j m)
  unfolding try_emplace
  find-try_emplace k j v m = ground (arith, text_eq_iff k j, find-insert_new k j v m)

  pub find-adjust :
      (k j : Text) (f : V → V) (m : Map V)
      → find j (adjust k f m)
        ≡ (if text_eq k j then mathlib.Core.Option.map f (find k m) else find j m)
  unfolding find adjust
  find-adjust k j f [] = ground arith
  find-adjust k j f ((i, w) ∷ m) =
      ground (arith, text_eq_iff k j, text_eq_iff i k, text_eq_iff i j, find-adjust k j f m)

  pub find-upsert :
      (k j : Text) (d : V) (f : V → V) (m : Map V)
      → find j (upsert k d f m)
        ≡ (if text_eq k j then some (f (value_or (find k m) d)) else find j m)
  unfolding upsert
  find-upsert k j d f m = ground (
    arith,
    find-adjust k j f (try_emplace k d m),
    find-try_emplace k j d m,
    find-try_emplace k k d m,
    text_eq_refl k,
    text_eq_iff k j,
  )

  -- What a look-up finds is an entry.
  pub In-of_find : (k : Text) {v : V} (m : Map V) → find k m ≡ some v → In (k, v) m
  unfolding find
  In-of_find k {v} [] h = absurd (cc)
  In-of_find k {v} ((j, w) ∷ m) h = elim (Bool-cases (text_eq j k)) [
    | inl t ↦ here (ap₂ (λ a b. (a, b)) (sym ((text_eq_iff j k).0 t)) (ground arith))
    | inr f ↦ there (In-of_find k m (ground arith))
  ]

  -- In an ascending map each entry is what a look-up of its key finds.
  pub find-of_In : {k : Text} {v : V} (m : Map V) → IsAscending m → In (k, v) m → find k m ≡ some v
  unfolding find
  find-of_In [] a h = elim h [ ]
  find-of_In {k} {v} ((j, w) ∷ m) a (here e) =
      ground (arith, text_eq_iff j k, ap (λ (p : Text × V). p.0) e, ap (λ (p : Text × V). p.1) e)
  find-of_In {k} {v} ((j, w) ∷ m) a (there h) = ground (
    arith,
    above-ne j k (In-All (λ (e : Text × V). text_lt j e.0 ≡ true) m a.0 h),
    find-of_In m a.1 h,
  )

  abbrev Above : Text → Map V → Type 0
  Above k m = All (λ (e : Text × V). text_lt k e.0 ≡ true) m

  Above-trans : (k j : Text) (m : Map V) → text_lt k j ≡ true → Above j m → Above k m
  Above-trans k j [] h a = tt
  Above-trans k j ((i, w) ∷ m) h a = (text_lt_trans k j i h a.0, Above-trans k j m h a.1)

  Above-insert_new :
      (j k : Text) (v : V) (m : Map V) → text_lt j k ≡ true → Above j m → Above j (insert_new k v m)
  unfolding insert_new
  Above-insert_new j k v [] h a = (h, tt)
  Above-insert_new j k v ((i, w) ∷ m) h a = ground (arith, Above-insert_new j k v m)

  insert_new-IsAscending :
      (k : Text) (v : V) (m : Map V)
      → contains k m ≡ false
      → IsAscending m
      → IsAscending (insert_new k v m)
  unfolding find insert_new
  insert_new-IsAscending k v [] h a = (tt, tt)
  insert_new-IsAscending k v ((i, w) ∷ m) h a = elim (Bool-cases (text_lt k i)) [
    | inl t ↦ rw t ((t, Above-trans k i m t a.0), a)
    | inr f ↦ rw f (
      Above-insert_new i k v m (ground (arith, text_lt_antisymm k i, text_eq_iff i k)) a.0,
      insert_new-IsAscending k v m (ground arith) a.1,
    )
  ]

  pub try_emplace-IsAscending :
      (k : Text) (v : V) (m : Map V) → IsAscending m → IsAscending (try_emplace k v m)
  unfolding try_emplace
  try_emplace-IsAscending k v m a = elim (Bool-cases (contains k m)) [
    | inl t ↦ rw t a
    | inr f ↦ rw f (insert_new-IsAscending k v m f a)
  ]

  Above-adjust : (j k : Text) (f : V → V) (m : Map V) → Above j m → Above j (adjust k f m)
  unfolding adjust
  Above-adjust j k f [] a = tt
  Above-adjust j k f ((i, w) ∷ m) a = ground (arith, Above-adjust j k f m)

  adjust-IsAscending :
      (k : Text) (f : V → V) (m : Map V) → IsAscending m → IsAscending (adjust k f m)
  unfolding adjust
  adjust-IsAscending k f [] a = tt
  adjust-IsAscending k f ((i, w) ∷ m) a =
      ground (arith, Above-adjust i k f m, adjust-IsAscending k f m)

  pub upsert-IsAscending :
      (k : Text) (d : V) (f : V → V) (m : Map V) → IsAscending m → IsAscending (upsert k d f m)
  unfolding upsert
  upsert-IsAscending k d f m a =
      adjust-IsAscending k f (try_emplace k d m) (try_emplace-IsAscending k d m a)

  find-eq-none_of_Above : (k : Text) (m : Map V) → Above k m → find k m ≡ none
  unfolding find
  find-eq-none_of_Above k [] a = refl
  find-eq-none_of_Above k ((i, w) ∷ m) a =
      ground (arith, text_eq_iff i k, text_lt_irrefl k, find-eq-none_of_Above k m)

  find-below_head :
      (k i : Text) (w : V) (m : Map V) → text_lt k i ≡ true → Above i m → find k ((i, w) ∷ m) ≡ none
  find-below_head k i w m h a = find-eq-none_of_Above k ((i, w) ∷ m) (h, Above-trans k i m h a)

  find_self : (k : Text) (v : V) (m : Map V) → find k ((k, v) ∷ m) ≡ some v
  unfolding find
  find_self k v m = rw text_eq_refl

  heads-eq :
      (i j : Text) (v w : V) (m n : Map V)
      → IsAscending ((i, v) ∷ m)
      → IsAscending ((j, w) ∷ n)
      → ((k : Text) → find k ((i, v) ∷ m) ≡ find k ((j, w) ∷ n))
      → (i ≡ j) × (v ≡ w)
  heads-eq i j v w m n a b h =
      let same : i ≡ j =
        text_lt_antisymm i j (ground (arith, h i, find_self i v m, find-below_head i j w n))
          (ground (arith, h j, find_self j w n, find-below_head j i v m)) in
      (same, cc (h i, find_self i v m, find_self j w n))

  find_tail :
      (k i : Text) (v : V) (m : Map V)
      → Above i m
      → find k m ≡ (if text_eq i k then none else find k ((i, v) ∷ m))
  unfolding find
  find_tail k i v m a = ground (arith, text_eq_iff i k, find-eq-none_of_Above k m)

  -- Ascending maps that answer every look-up alike are the same, entry for entry.
  pub eq_of_find :
      (m n : Map V) → IsAscending m → IsAscending n → ((k : Text) → find k m ≡ find k n) → m ≡ n
  eq_of_find [] [] a b h = refl
  eq_of_find [] ((j, w) ∷ n) a b h = absurd (unfold find in cc (h j, find_self j w n))
  eq_of_find ((i, v) ∷ m) [] a b h = absurd (unfold find in cc (h i, find_self i v m))
  eq_of_find ((i, v) ∷ m) ((j, w) ∷ n) a b h =
      let (ei, ev) = heads-eq i j v w m n a b h in
      ap₂ (λ (e : Text × V) l. e ∷ l) (ap₂ (λ a b. (a, b)) ei ev)
        (eq_of_find m n a.1 b.1 (λ k. cc (find_tail k i v m a.0, find_tail k j w n b.0, h k, ei)))

  pub contains-of_In : {k : Text} {v : V} (m : Map V) → In (k, v) m → contains k m ≡ true
  unfolding find
  contains-of_In {k} ((j, w) ∷ m) (here e) =
      ground (arith, text_eq_refl j, text_eq_iff j k, ap (λ (p : Text × V). p.0) e)
  contains-of_In {k} ((j, w) ∷ m) (there i) = ground (arith, contains-of_In m i)
  contains-of_In [] i = elim i [ ]
