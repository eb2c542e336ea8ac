-- ===== src/Base/Map/Emplace.antt =====
-- A map filled from a list holds the first item of each key.
use parse_x.Base.Lists.{In, here, there}
use mathlib.Core.Path.{◌≡◌, sym, ap, ◌∙◌}
use mathlib.Core.Logic.{inl, inr}
use mathlib.Core.Option.{Option, none, some}
use mathlib.Core.List.{List, [], ◌∷◌}
use native.Mathlib.Omega.{arith}
use parse_x.Base.Tests.{if◌then◌else◌, Bool-cases, Option-cases}
use parse_x.Base.Text.{Text, text_eq, text_eq_iff}
use parse_x.Base.Map.{Map, find, try_emplace, emplace_all, IsAscending}
use parse_x.Base.Map.Laws.{find-try_emplace, try_emplace-IsAscending, eq_of_find}

module _ {ℓ} {A : Type ℓ} where
  -- The first item with a key.
  unfoldable pub first_with : (A → Text) → Text → List A → Option A
  first_with key k [] = none
  first_with key k (x ∷ xs) = if text_eq (key x) k then some x else first_with key k xs

  abbrev pub or_else : Option A → Option A → Option A
  or_else none d = d
  or_else (some a) d = some a

  pub first_with_sound :
      (key : A → Text) (k : Text) (xs : List A) {x : A}
      → first_with key k xs ≡ some x
      → In x xs × (key x ≡ k)
  unfolding first_with
  first_with_sound key k [] h = absurd (cc)
  first_with_sound key k (y ∷ ys) {x} h = elim (Bool-cases (text_eq (key y) k)) [
    | inl t ↦
        let same : x ≡ y = ground arith in (here same, ap key same ∙ (text_eq_iff (key y) k).0 t)
    | inr f ↦ let r = first_with_sound key k ys (ground arith) in (there r.0, r.1)
  ]

  pub first_with-ne-none :
      (key : A → Text) {x : A} {xs : List A} → In x xs → first_with key (key x) xs ≡ none → ⊥
  unfolding first_with
  first_with-ne-none key {x} (here {y} e) h = ground (arith, text_eq_iff (key y) (key x), ap key e)
  first_with-ne-none key {x} (there {y} {ys} i) h = ground (arith, first_with-ne-none key i)

  pub find-emplace_all :
      (key : A → Text) (k : Text) (m : Map A) (xs : List A)
      → find k (emplace_all key (λ x. x) m xs) ≡ or_else (find k m) (first_with key k xs)
  unfolding emplace_all first_with
  find-emplace_all key k m [] = ground arith
  find-emplace_all key k m (x ∷ xs) = ground (
    arith,
    find-emplace_all key k (try_emplace (key x) x m) xs,
    find-try_emplace (key x) k x m,
    text_eq_iff (key x) k,
  )

  pub emplace_all-IsAscending :
      (key : A → Text) (m : Map A) (xs : List A)
      → IsAscending m
      → IsAscending (emplace_all key (λ x. x) m xs)
  unfolding emplace_all
  emplace_all-IsAscending key m [] a = a
  emplace_all-IsAscending key m (x ∷ xs) a =
      emplace_all-IsAscending key (try_emplace (key x) x m) xs
        (try_emplace-IsAscending (key x) x m a)

  -- Two lists with the same members, in any order, each member determined by its key.
  pub record SameKeyed (key : A → Text) (xs ys : List A) : Type ℓ where
    pub to_right : (x : A) → In x xs → In x ys
    pub to_left : (x : A) → In x ys → In x xs
    pub by_key : (x y : A) → In x xs → In y xs → key x ≡ key y → x ≡ y

  pub SameKeyed-refl :
      (key : A → Text) (xs : List A)
      → ((x y : A) → In x xs → In y xs → key x ≡ key y → x ≡ y)
      → SameKeyed key xs xs
  SameKeyed-refl key xs h = record { to_right = λ x i. i; to_left = λ x i. i; by_key = h }

  first_with-SameKeyed :
      (key : A → Text) (xs ys : List A)
      → SameKeyed key xs ys
      → (k : Text) → first_with key k xs ≡ first_with key k ys
  first_with-SameKeyed key xs ys s k = elim (Option-cases (first_with key k xs)) [
    | inl nx ↦ elim (Option-cases (first_with key k ys)) [
      | inl ny ↦ nx ∙ sym ny
      | inr (y, fy) ↦
          let r = first_with_sound key k ys fy in
          absurd (first_with-ne-none key (s.to_left y r.0) (ap (λ j. first_with key j xs) r.1 ∙ nx))
    ]
    | inr (x, fx) ↦ elim (Option-cases (first_with key k ys)) [
      | inl ny ↦
          let r = first_with_sound key k xs fx in
          absurd
            (first_with-ne-none key (s.to_right x r.0) (ap (λ j. first_with key j ys) r.1 ∙ ny))
      | inr (y, fy) ↦
          let rx = first_with_sound key k xs fx in
          let ry = first_with_sound key k ys fy in
          fx ∙ (ap some (s.by_key x y rx.0 (s.to_left y ry.0) (rx.1 ∙ sym ry.1)) ∙ sym fy)
    ]
  ]

  -- Such lists fill the same map.
  pub emplace_all-SameKeyed :
      (key : A → Text) (xs ys : List A)
      → SameKeyed key xs ys
      → emplace_all key (λ x. x) [] xs ≡ emplace_all key (λ x. x) [] ys
  unfolding find
  emplace_all-SameKeyed key xs ys s =
      eq_of_find _ _ (emplace_all-IsAscending key [] xs tt) (emplace_all-IsAscending key [] ys tt)
        λ k.
          find-emplace_all key k [] xs
          ∙ (first_with-SameKeyed key xs ys s k ∙ sym (find-emplace_all key k [] ys))
