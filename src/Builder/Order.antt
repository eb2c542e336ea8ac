-- ===== src/Builder/Order.antt =====
-- Document order of the raw tree, and the descendants that libparsex/src/model_builder.cpp finds.
use parse_x.Base.{
  List, [], ◌∷◌, ◌++◌, Bool, ◌≡◌, refl, ap, sym, ◌∙◌, inl, inr, if◌then◌else◌, keep, Bool-cases,
}
use mathlib.Core.List.{append_assoc}
use parse_x.Base.Text.{Text, text_eq}
use parse_x.Model.Raw.{RawNode, RawNodes, node, nil, cons}
use parse_x.Builder.Nodes.{has_tag, collect_descendants, collect_children}

-- The nodes of a tree in document order.
unfoldable mutual
  pub nodes_of : RawNode → List RawNode
  nodes_of (node t a x s c) = node t a x s c ∷ nodes_below c

  pub nodes_below : RawNodes → List RawNode
  nodes_below nil = []
  nodes_below (cons child rest) = nodes_of child ++ nodes_below rest

abbrev pub below : RawNode → List RawNode
below (node t a x s c) = nodes_below c

keep-append {ℓ} :
    {A : Type ℓ} (p : A → Bool) (xs ys : List A) → keep p (xs ++ ys) ≡ keep p xs ++ keep p ys
unfolding keep
keep-append p [] ys = refl
keep-append p (x ∷ xs) ys = elim (Bool-cases (p x)) [
  | inl t ↦ rw (keep, t) (ap (λ z. x ∷ z) (keep-append p xs ys))
  | inr f ↦ rw (keep, f) (keep-append p xs ys)
]

-- A node and the nodes below it, of which those with the tag are kept.
keep-head :
    (tag : Text) (n : RawNode)
    → keep (has_tag tag) (nodes_of n)
      ≡ (if has_tag tag n then n ∷ [] else []) ++ keep (has_tag tag) (below n)
unfolding keep nodes_of
keep-head tag (node t a x s c) = elim (Bool-cases (text_eq t tag)) [
  | inl e ↦ rw e refl
  | inr e ↦ rw e refl
]

mutual
  unfolding collect_descendants nodes_of nodes_below keep

  pub collect_descendants-keep :
      (tag : Text) (n : RawNode) → collect_descendants tag n ≡ keep (has_tag tag) (below n)
  collect_descendants-keep tag (node t a x s c) = collect_children-keep tag c

  collect_children-keep :
      (tag : Text) (c : RawNodes) → collect_children tag c ≡ keep (has_tag tag) (nodes_below c)
  collect_children-keep tag nil = refl
  collect_children-keep tag (cons child rest) =
      ap (λ z. (if has_tag tag child then child ∷ [] else []) ++ z)
        (ap (λ z. z ++ collect_children tag rest) (collect_descendants-keep tag child)
          ∙ ap (λ z. keep (has_tag tag) (below child) ++ z) (collect_children-keep tag rest))
      ∙ sym (append_assoc (if has_tag tag child then child ∷ [] else []) _ _)
      ∙ ap (λ z. z ++ keep (has_tag tag) (nodes_below rest)) (sym (keep-head tag child))
      ∙ sym (keep-append (has_tag tag) (nodes_of child) (nodes_below rest))
