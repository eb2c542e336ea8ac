-- ===== src/Diff/Match/Index.antt =====
-- The index of a list of elements: the first named element of each path.
use parse_x.Base.{
  Bool, List, [], ◌∷◌, ◌≡◌, refl, sym, ◌∙◌, not, keep, is_empty, Bool-cases, inl, inr,
}
use parse_x.Base.Text.{Text}
use parse_x.Base.Map.{Map, find, emplace_all, try_emplace, IsAscending}
use parse_x.Base.Map.Emplace.{
  first_with, find-emplace_all, emplace_all-IsAscending, SameKeyed, emplace_all-SameKeyed,
}
use parse_x.Model.{CommonFields}
use parse_x.Diff.Match.{diff_path_for_short_name, index_onto, index_by_path}

module _ {ℓ} {T : Type ℓ} (common : T → CommonFields) where
  abbrev pub path_of : T → Text
  path_of e = diff_path_for_short_name (common e).short_name

  abbrev pub is_named : T → Bool
  is_named e = not (is_empty (path_of e))

  index_onto-emplace_all :
      (m : Map T) (xs : List T)
      → index_onto common m xs ≡ emplace_all path_of (λ x. x) m (keep is_named xs)
  unfolding index_onto keep emplace_all
  index_onto-emplace_all m [] = refl
  index_onto-emplace_all m (x ∷ xs) = elim (Bool-cases (is_empty (path_of x))) [
    | inl t ↦ rw t (index_onto-emplace_all m xs)
    | inr f ↦ rw f (index_onto-emplace_all (try_emplace (path_of x) x m) xs)
  ]

  -- What a path finds in the index is the first element of that path that has a name.
  pub find-index_by_path :
      (path : Text) (xs : List T)
      → find path (index_by_path common xs) ≡ first_with path_of path (keep is_named xs)
  unfolding index_by_path find
  find-index_by_path path xs =
      rw (index_onto-emplace_all [] xs) (find-emplace_all path_of path [] (keep is_named xs))

  pub index_by_path-IsAscending : (xs : List T) → IsAscending (index_by_path common xs)
  unfolding index_by_path
  index_by_path-IsAscending xs =
      rw (index_onto-emplace_all [] xs) (emplace_all-IsAscending path_of [] (keep is_named xs) tt)

  -- The same named elements in any order, each told by its path.
  abbrev pub SameElements : List T → List T → Type ℓ
  SameElements xs ys = SameKeyed path_of (keep is_named xs) (keep is_named ys)

  pub index_by_path-SameElements :
      (xs ys : List T) → SameElements xs ys → index_by_path common xs ≡ index_by_path common ys
  unfolding index_by_path
  index_by_path-SameElements xs ys s =
      index_onto-emplace_all [] xs
      ∙ (emplace_all-SameKeyed path_of _ _ s ∙ sym (index_onto-emplace_all [] ys))
