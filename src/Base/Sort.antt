-- ===== src/Base/Sort.antt =====
-- `std::ranges::sort` by a comparator, as an insertion sort. Where two elements are tied the
-- standard leaves their order open; here the earlier one stays first.
use mathlib.Core.Path.{◌≡◌}
use mathlib.Core.Bool.{Bool, true, false}
use mathlib.Core.Logic.{inl, inr}
use mathlib.Core.List.{List, [], ◌∷◌, Perm}
use mathlib.Core.List.Perm
use parse_x.Base.Tests.{if◌then◌else◌, Bool-cases}
use parse_x.Base.Lists.{All, In, here, there}

module _ {ℓ} {A : Type ℓ} where
  unfoldable pub insert_by : (A → A → Bool) → A → List A → List A
  insert_by lt x [] = x ∷ []
  insert_by lt x (y ∷ ys) = if lt y x then y ∷ insert_by lt x ys else x ∷ y ∷ ys

  unfoldable pub sort_by : (A → A → Bool) → List A → List A
  unfolding insert_by
  sort_by lt [] = []
  sort_by lt (x ∷ xs) = insert_by lt x (sort_by lt xs)

  -- No element is below one that stands before it.
  abbrev pub IsSorted : (A → A → Bool) → List A → Type ℓ
  IsSorted lt [] = Unit
  IsSorted lt (x ∷ xs) = All (λ y. lt y x ≡ false) xs × IsSorted lt xs

  insert_by-perm : (lt : A → A → Bool) (x : A) (ys : List A) → Perm (insert_by lt x ys) (x ∷ ys)
  unfolding insert_by
  insert_by-perm lt x [] = Perm.refl _
  insert_by-perm lt x (y ∷ ys) = elim (Bool-cases (lt y x)) [
    | inl t ↦ rw t (Perm.trans (Perm.cons y (insert_by-perm lt x ys)) (Perm.swap x y ys))
    | inr f ↦ rw f (Perm.refl _)
  ]

  -- Sorting loses and invents nothing.
  pub sort_by-perm : (lt : A → A → Bool) (xs : List A) → Perm (sort_by lt xs) xs
  unfolding sort_by
  sort_by-perm lt [] = Perm.refl _
  sort_by-perm lt (x ∷ xs) =
      Perm.trans (insert_by-perm lt x (sort_by lt xs)) (Perm.cons x (sort_by-perm lt xs))

  In-of_In-insert_by :
      (lt : A → A → Bool) {z : A} (x : A) (ys : List A) → In z (insert_by lt x ys) → In z (x ∷ ys)
  unfolding insert_by
  In-of_In-insert_by lt x [] i = i
  In-of_In-insert_by lt {z} x (y ∷ ys) i = elim (Bool-cases (lt y x)) [
    | inl t ↦ later (In-of_In-insert_by lt x ys) (rw t at i)
    | inr f ↦ rw f at i
  ]
    where
      later :
          (In z (insert_by lt x ys) → In z (x ∷ ys))
          → In z (y ∷ insert_by lt x ys)
          → In z (x ∷ y ∷ ys)
      later ih (here e) = there (here e)
      later ih (there j) = swap (ih j)
        where
          swap : In z (x ∷ ys) → In z (x ∷ y ∷ ys)
          swap (here e) = here e
          swap (there k) = there (there k)

  pub In-of_In-sort_by : (lt : A → A → Bool) {z : A} (xs : List A) → In z (sort_by lt xs) → In z xs
  unfolding sort_by
  In-of_In-sort_by lt [] i = i
  In-of_In-sort_by lt {z} (x ∷ xs) i =
      cons (In-of_In-insert_by lt x (sort_by lt xs) i) (In-of_In-sort_by lt xs)
    where
      cons : In z (x ∷ sort_by lt xs) → (In z (sort_by lt xs) → In z xs) → In z (x ∷ xs)
      cons (here e) ih = here e
      cons (there j) ih = there (ih j)

  In-insert_by :
      (lt : A → A → Bool) {z : A} (x : A) (ys : List A) → In z (x ∷ ys) → In z (insert_by lt x ys)
  unfolding insert_by
  In-insert_by lt x [] i = i
  In-insert_by lt {z} x (y ∷ ys) i = elim (Bool-cases (lt y x)) [
    | inl t ↦ rw t (later (In-insert_by lt x ys) i)
    | inr f ↦ rw f i
  ]
    where
      later :
          (In z (x ∷ ys) → In z (insert_by lt x ys))
          → In z (x ∷ y ∷ ys)
          → In z (y ∷ insert_by lt x ys)
      later ih (here e) = there (ih (here e))
      later ih (there (here e)) = here e
      later ih (there (there j)) = there (ih (there j))

  pub In-sort_by : (lt : A → A → Bool) {z : A} (xs : List A) → In z xs → In z (sort_by lt xs)
  unfolding sort_by
  In-sort_by lt (x ∷ xs) (here e) = In-insert_by lt x (sort_by lt xs) (here e)
  In-sort_by lt (x ∷ xs) (there j) = In-insert_by lt x (sort_by lt xs) (there (In-sort_by lt xs j))
  In-sort_by lt [] i = i

module _ {ℓ} {A : Type ℓ} (lt : A → A → Bool) where
  All-insert_by :
      (P : A → Type 0) (x : A) (ys : List A) → P x → All P ys → All P (insert_by lt x ys)
  unfolding insert_by
  All-insert_by P x [] p a = (p, tt)
  All-insert_by P x (y ∷ ys) p a = elim (Bool-cases (lt y x)) [
    | inl t ↦ rw t (a.0, All-insert_by P x ys p a.1)
    | inr f ↦ rw f (p, a)
  ]

  All-weaken : {P Q : A → Type 0} (ys : List A) → ((y : A) → P y → Q y) → All P ys → All Q ys
  All-weaken [] h a = tt
  All-weaken (y ∷ ys) h a = (h y a.0, All-weaken ys h a.1)

  -- Sorting by an order whose "not below" is transitive.
  module _ (asymm : (x y : A) → lt x y ≡ true → lt y x ≡ false)
      (trans : (x y z : A) → lt y x ≡ false → lt z y ≡ false → lt z x ≡ false) where
    insert_by-IsSorted : (x : A) (ys : List A) → IsSorted lt ys → IsSorted lt (insert_by lt x ys)
    unfolding insert_by
    insert_by-IsSorted x [] s = (tt, tt)
    insert_by-IsSorted x (y ∷ ys) s = elim (Bool-cases (lt y x)) [
      | inl t ↦
          rw t (
            All-insert_by (λ z. lt z y ≡ false) x ys (asymm y x t) s.0,
            insert_by-IsSorted x ys s.1,
          )
      | inr f ↦ rw f ((f, All-weaken ys (λ z h. trans x y z f h) s.0), s)
    ]

    pub sort_by-IsSorted : (xs : List A) → IsSorted lt (sort_by lt xs)
    unfolding sort_by
    sort_by-IsSorted [] = tt
    sort_by-IsSorted (x ∷ xs) = insert_by-IsSorted x (sort_by lt xs) (sort_by-IsSorted xs)
