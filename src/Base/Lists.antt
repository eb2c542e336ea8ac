-- ===== src/Base/Lists.antt =====
-- Lists measured and indexed by native numbers, membership and predicates by recursion.
use Prim.Native.Nat.{ℕ, zero, suc, ◌+◌}
use mathlib.Core.Path.{◌≡◌, refl, ap, sym, ◌∙◌}
use mathlib.Core.Logic.{◌⊎◌, inl, inr}
use mathlib.Core.Bool.{Bool, true, false, ◌||◌}
use mathlib.Core.List.{List, [], ◌∷◌, ◌++◌, map}
use mathlib.Core.Option.{Option, none, some}
use native.Mathlib.Omega.{arith}
use parse_x.Base.Tests.{if◌then◌else◌, Bool-cases}

module _ {ℓ} {A : Type ℓ} where
  abbrev pub length : List A → ℕ
  length [] = 0
  length (x ∷ xs) = suc (length xs)

  abbrev pub get_elem? : List A → ℕ → Option A
  get_elem? [] i = none
  get_elem? (x ∷ xs) zero = some x
  get_elem? (x ∷ xs) (suc i) = get_elem? xs i

  -- A write out of bounds changes nothing.
  abbrev pub set : List A → ℕ → A → List A
  set [] i v = []
  set (x ∷ xs) zero v = v ∷ xs
  set (x ∷ xs) (suc i) v = x ∷ set xs i v

  abbrev pub replicate : ℕ → A → List A
  replicate zero a = []
  replicate (suc n) a = a ∷ replicate n a

  -- The elements that pass a Boolean test, and whether one does.
  unfoldable pub keep : (A → Bool) → List A → List A
  keep p [] = []
  keep p (x ∷ xs) = if p x then x ∷ keep p xs else keep p xs

  unfoldable pub any : (A → Bool) → List A → Bool
  any p [] = false
  any p (x ∷ xs) = p x || any p xs

  abbrev pub is_empty : List A → Bool
  is_empty [] = true
  is_empty (x ∷ xs) = false

  abbrev pub All {κ} : (A → Type κ) → List A → Type κ
  All P [] = Unit
  All P (x ∷ xs) = P x × All P xs

-- A place of `x` in a list.
pub data In {ℓ} {A : Type ℓ} (x : A) : List A → Type ℓ where
  here : {y : A} {ys : List A} → x ≡ y → In x (y ∷ ys)
  there : {y : A} {ys : List A} → In x ys → In x (y ∷ ys)

module _ {ℓ} {A : Type ℓ} where
  pub length-append : (xs ys : List A) → length (xs ++ ys) ≡ length xs + length ys
  length-append [] ys = omega arith
  length-append (x ∷ xs) ys = omega (arith, length-append xs ys)

  pub length-set : (xs : List A) (i : ℕ) (v : A) → length (set xs i v) ≡ length xs
  length-set [] i v = refl
  length-set (x ∷ xs) zero v = refl
  length-set (x ∷ xs) (suc i) v = ap suc (length-set xs i v)

  pub length-replicate : (n : ℕ) (a : A) → length (replicate n a) ≡ n
  length-replicate zero a = refl
  length-replicate (suc n) a = ap suc (length-replicate n a)

  pub In-append_left : {x : A} {xs : List A} (ys : List A) → In x xs → In x (xs ++ ys)
  In-append_left ys (here e) = here e
  In-append_left ys (there h) = there (In-append_left ys h)

  pub In-append_right : {x : A} (xs : List A) {ys : List A} → In x ys → In x (xs ++ ys)
  In-append_right [] h = h
  In-append_right (y ∷ xs) h = there (In-append_right xs h)

  pub In-append_cases : {x : A} (xs : List A) {ys : List A} → In x (xs ++ ys) → In x xs ⊎ In x ys
  In-append_cases [] h = inr h
  In-append_cases (y ∷ xs) (here e) = inl (here e)
  In-append_cases (y ∷ xs) (there h) = elim (In-append_cases xs h) [
    | inl l ↦ inl (there l)
    | inr r ↦ inr r
  ]

  pub In-keep : (p : A → Bool) {x : A} {xs : List A} → In x xs → p x ≡ true → In x (keep p xs)
  unfolding keep
  In-keep p (here {y} q) e = rw (sym (ap p q) ∙ e) (here q)
  In-keep p (there {y} h) e = elim (Bool-cases (p y)) [
    | inl t ↦ rw t (there (In-keep p h e))
    | inr f ↦ rw f (In-keep p h e)
  ]

  In-keep_head :
      (p : A → Bool) {x : A} (y : A) (xs : List A)
      → p y ≡ true
      → (In x (keep p xs) → In x xs × (p x ≡ true))
      → In x (y ∷ keep p xs)
      → In x (y ∷ xs) × (p x ≡ true)
  In-keep_head p y xs t rest (here e) = (here e, ap p e ∙ t)
  In-keep_head p y xs t rest (there k) = let r = rest k in (there r.0, r.1)

  pub In-of_In-keep :
      (p : A → Bool) {x : A} (xs : List A) → In x (keep p xs) → In x xs × (p x ≡ true)
  unfolding keep
  In-of_In-keep p [] h = elim h [ ]
  In-of_In-keep p (y ∷ xs) h = elim (Bool-cases (p y)) [
    | inl t ↦ In-keep_head p y xs t (In-of_In-keep p xs) (rw t at h)
    | inr f ↦ let r = In-of_In-keep p xs (rw f at h) in (there r.0, r.1)
  ]

  pub All-of_In {κ} : (P : A → Type κ) (xs : List A) → ((x : A) → In x xs → P x) → All P xs
  All-of_In P [] h = tt
  All-of_In P (x ∷ xs) h = (h x (here refl), All-of_In P xs (λ y k. h y (there k)))

  pub In-All {κ} : (P : A → Type κ) {x : A} (xs : List A) → All P xs → In x xs → P x
  In-All P [] a h = elim h [ ]
  In-All P (y ∷ xs) a (here e) = rw e a.0
  In-All P (y ∷ xs) a (there h) = In-All P xs a.1 h

  pub eq-nil_of_no_In : (xs : List A) → ((x : A) → ¬ In x xs) → xs ≡ []
  eq-nil_of_no_In [] h = refl
  eq-nil_of_no_In (x ∷ xs) h = absurd (h x (here refl))

module _ {ℓ κ} {A : Type ℓ} {B : Type κ} where
  pub In-map : (f : A → B) {x : A} {xs : List A} → In x xs → In (f x) (map f xs)
  In-map f (here e) = here (ap f e)
  In-map f (there h) = there (In-map f h)

  pub In-of_In-map :
      (f : A → B) {y : B} (xs : List A) → In y (map f xs) → (x : A) × In x xs × (y ≡ f x)
  In-of_In-map f [] h = elim h [ ]
  In-of_In-map f (x ∷ xs) (here e) = (x, here refl, e)
  In-of_In-map f (x ∷ xs) (there h) = let r = In-of_In-map f xs h in (r.0, there r.1, r.2)

module _ {ℓ} {A : Type ℓ} where
  -- A list of two parts is empty if and only if both are.
  pub nil_of_append : (xs ys : List A) → xs ++ ys ≡ [] → (xs ≡ []) × (ys ≡ [])
  nil_of_append [] ys h = (refl, h)
  nil_of_append (x ∷ xs) ys h = absurd (cc)

  pub append-nils : {xs ys : List A} → xs ≡ [] → ys ≡ [] → xs ++ ys ≡ []
  append-nils h k = rw (h, k) refl
