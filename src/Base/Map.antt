-- ===== src/Base/Map.antt =====
-- `std::map<std::string, V>`: the entries in the order of their keys.
pub mod Laws
pub mod Emplace
use mathlib.Core.Path.{◌≡◌, refl, sym, ap, ap₂, ◌∙◌}
use mathlib.Core.Bool.{Bool, true, false, ◌||◌}
use mathlib.Core.Logic.{◌⊎◌, inl, inr}
use mathlib.Core.Option.{Option, none, some}
use mathlib.Core.List.{List, [], ◌∷◌}
use native.Mathlib.Omega.{arith}
use parse_x.Base.Tests.{if◌then◌else◌, Bool-cases, is_some, value_or}
use parse_x.Base.Lists.{All, In, here, there, All-of_In, In-All}
use parse_x.Base.Text.{
  Text, text_eq, text_lt, text_eq_iff, text_eq_refl, text_lt_irrefl, text_lt_trans, text_lt_asymm,
  text_lt_antisymm,
}

abbrev pub Map {ℓ} : Type ℓ → Type ℓ
Map V = List (Text × V)

module _ {ℓ} {V : Type ℓ} where
  unfoldable pub find : Text → Map V → Option V
  find k [] = none
  find k ((j, v) ∷ m) = if text_eq j k then some v else find k m

  abbrev pub contains : Text → Map V → Bool
  contains k m = is_some (find k m)

  -- A new key, put before the first greater one.
  unfoldable pub insert_new : Text → V → Map V → Map V
  insert_new k v [] = (k, v) ∷ []
  insert_new k v ((j, w) ∷ m) =
      if text_lt k j then (k, v) ∷ (j, w) ∷ m else (j, w) ∷ insert_new k v m

  -- `try_emplace`: the entry that is there stays.
  unfoldable pub try_emplace : Text → V → Map V → Map V
  unfolding find insert_new
  try_emplace k v m = if contains k m then m else insert_new k v m

  -- Change the value at a key that is there.
  unfoldable pub adjust : Text → (V → V) → Map V → Map V
  adjust k f [] = []
  adjust k f ((j, v) ∷ m) = if text_eq j k then (j, f v) ∷ m else (j, v) ∷ adjust k f m

  -- `m[k]`, which makes a default entry first, changed by `f`.
  unfoldable pub upsert : Text → V → (V → V) → Map V → Map V
  unfolding try_emplace adjust
  upsert k d f m = adjust k f (try_emplace k d m)

  -- The keys stand in strictly ascending order.
  abbrev pub IsAscending : Map V → Type 0
  IsAscending [] = Unit
  IsAscending ((k, v) ∷ m) = All (λ (j, w). text_lt k j ≡ true) m × IsAscending m

  -- A range of items emplaced in order, each under its key.
  unfoldable pub emplace_all {κ} : {A : Type κ} → (A → Text) → (A → V) → Map V → List A → Map V
  unfolding try_emplace
  emplace_all key value m [] = m
  emplace_all key value m (x ∷ xs) = emplace_all key value (try_emplace (key x) (value x) m) xs
