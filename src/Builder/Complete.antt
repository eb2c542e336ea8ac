-- ===== src/Builder/Complete.antt =====
-- What each test of a builder (libparsex/src/model_builder.cpp) asks a raw node for.
use parse_x.Base.{
  List, [], ◌∷◌, true, false, Option, none, some, ◌≡◌, refl, ap, sym, ◌∙◌, ◌↔◌, ◌⊎◌, inl, inr,
  if◌then◌else◌, In, here, there, map, In-keep, In-of_In-keep, is_empty, is_some, value_or,
  Bool-cases, In-append_left, In-append_right, In-append_cases,
}
use parse_x.Base.Text.{Text, codes, text_eq_iff}
use parse_x.Model.Raw.{RawNode, RawNodes, node, nil, cons, tag_name, text, children, child_nodes}
use parse_x.Validator.Tree.{trim_text, name_of, find_short_name_child, first_short_name}
use parse_x.Builder.Nodes.{
  find_descendant, front, named_only, has_tag, find_child, first_tagged, find_descendants,
  extract_short_name, child_text, trimmed_text, two_tags,
}
use parse_x.Builder.Order.{nodes_of, nodes_below, below, collect_descendants-keep}
use parse_x.Builder.Elements.{has_child, is_none, or_else, found_baudrate}

-- Some child, or some node below, has the tag.
abbrev pub HasChild : Text → RawNode → Type 0
HasChild tag n = (m : RawNode) × In m (children n) × (tag_name m ≡ tag)

abbrev pub HasBelow : Text → RawNode → Type 0
HasBelow tag n = (m : RawNode) × In m (below n) × (tag_name m ≡ tag)

-- Some child is there with the tag, and so on: what each test of a builder asks for.
is_empty-In {ℓ} : {A : Type ℓ} (xs : List A) → (is_empty xs ≡ false) ↔ ((x : A) × In x xs)
is_empty-In [] = (λ h. absurd (cc), λ h. elim h.1 [ ])
is_empty-In (x ∷ xs) = (λ h. (x, here refl), λ h. refl)

pub true-ne_false : ¬ (true ≡ false)
true-ne_false h = absurd (cc)

first_tagged-In :
    (tag : Text) (ns : List RawNode)
    → (is_some (first_tagged tag ns) ≡ true) ↔ ((m : RawNode) × In m ns × (tag_name m ≡ tag))
first_tagged-In tag [] = (λ h. absurd (cc), λ h. elim h.1 [ ])
first_tagged-In tag (n ∷ ns) = elim (Bool-cases (has_tag tag n)) [
  | inl t ↦ rw t (λ h. (n, here refl, (text_eq_iff (tag_name n) tag).0 t), λ h. refl)
  | inr f ↦ rw f (
    λ h. let r = (first_tagged-In tag ns).0 h in (r.0, there r.1, r.2),
    λ h. (first_tagged-In tag ns).1 (later f h),
  )
]
  where
    later :
        {n : RawNode} {ns : List RawNode}
        → has_tag tag n ≡ false
        → (m : RawNode) × In m (n ∷ ns) × (tag_name m ≡ tag)
        → (m : RawNode) × In m ns × (tag_name m ≡ tag)
    later f (m, here e, k) =
        absurd (true-ne_false (sym ((text_eq_iff _ _).1 (ap tag_name (sym e) ∙ k)) ∙ f))
    later f (m, there h, k) = (m, h, k)

pub has_child-HasChild : (n : RawNode) (tag : Text) → (has_child n tag ≡ true) ↔ HasChild tag n
unfolding find_child
has_child-HasChild n tag = first_tagged-In tag (children n)

pub In-find_descendants :
    (n : RawNode) (tag : Text) (m : RawNode)
    → In m (find_descendants n tag) ↔ (In m (below n) × (tag_name m ≡ tag))
unfolding find_descendants
In-find_descendants n tag m = rw (collect_descendants-keep tag n) (
  λ h.
      let r = In-of_In-keep (has_tag tag) (below n) h in
      (r.0, (text_eq_iff (tag_name m) tag).0 r.1),
  λ h. In-keep (has_tag tag) h.0 ((text_eq_iff (tag_name m) tag).1 h.1),
)

pub is_empty-map {ℓ κ} :
    {A : Type ℓ} {B : Type κ} (f : A → B) (xs : List A) → is_empty (map f xs) ≡ is_empty xs
is_empty-map f [] = refl
is_empty-map f (x ∷ xs) = refl

pub In-two_tags :
    (n : RawNode) (a b : Text) (m : RawNode)
    → In m (two_tags n a b)
      ↔ ((In m (below n) × (tag_name m ≡ a)) ⊎ (In m (below n) × (tag_name m ≡ b)))
In-two_tags n a b m = (
  λ h. elim (In-append_cases (find_descendants n a) h) [
    | inl l ↦ inl ((In-find_descendants n a m).0 l)
    | inr r ↦ inr ((In-find_descendants n b m).0 r)
  ],
  λ h. elim h [
    | inl l ↦ In-append_left (find_descendants n b) ((In-find_descendants n a m).1 l)
    | inr r ↦ In-append_right (find_descendants n a) ((In-find_descendants n b m).1 r)
  ],
)

pub two_tags-HasBelow :
    (n : RawNode) (a b : Text) → (is_empty (two_tags n a b) ≡ false) ↔ (HasBelow a n ⊎ HasBelow b n)
two_tags-HasBelow n a b = (
  λ h. found ((is_empty-In (two_tags n a b)).0 h),
  λ h. (is_empty-In (two_tags n a b)).1 (kept h),
)
  where
    found : (m : RawNode) × In m (two_tags n a b) → HasBelow a n ⊎ HasBelow b n
    found (m, h) = elim ((In-two_tags n a b m).0 h) [
      | inl l ↦ inl (m, l.0, l.1)
      | inr r ↦ inr (m, r.0, r.1)
    ]

    kept : HasBelow a n ⊎ HasBelow b n → (m : RawNode) × In m (two_tags n a b)
    kept (inl (m, i, e)) = (m, (In-two_tags n a b m).1 (inl (i, e)))
    kept (inr (m, i, e)) = (m, (In-two_tags n a b m).1 (inr (i, e)))

-- A name that the reference check finds too (libparsex/src/validator/validator_references.cpp).
abbrev pub HasName : RawNode → Type 0
HasName n = (name : Text) × (name_of n ≡ some name)

first_short_name-first_tagged :
    (ns : List RawNode) → first_short_name ns ≡ first_tagged (codes "SHORT-NAME") ns
first_short_name-first_tagged [] = refl
first_short_name-first_tagged (n ∷ ns) =
    ap (λ z. if has_tag (codes "SHORT-NAME") n then some n else z)
      (first_short_name-first_tagged ns)

abbrev name_from : Option RawNode → Option Text
name_from none = none
name_from (some n) = let name = trim_text (text n) in if is_empty name then none else some name

name_of-name_from : (n : RawNode) → name_of n ≡ name_from (find_child n (codes "SHORT-NAME"))
unfolding name_of find_short_name_child find_child
name_of-name_from n = ap name_from (first_short_name-first_tagged (children n))

name_from_iff :
    (o : Option RawNode)
    → (is_empty (value_or (trimmed_text o) []) ≡ false)
      ↔ ((name : Text) × (name_from o ≡ some name))
name_from_iff none = (λ h. absurd (cc), λ h. let e = h.1 in absurd (cc))
name_from_iff (some n) = elim (Bool-cases (is_empty (trim_text (text n)))) [
  | inl t ↦ rw t (λ h. absurd (cc), λ h. let e = h.1 in absurd (cc))
  | inr f ↦ rw f (λ h. (trim_text (text n), refl), λ h. refl)
]

pub extract_short_name-HasName :
    (n : RawNode) → (is_empty (extract_short_name n) ≡ false) ↔ HasName n
unfolding extract_short_name child_text
extract_short_name-HasName n =
    rw (name_of-name_from n) (name_from_iff (find_child n (codes "SHORT-NAME")))

pub named_only_iff {ℓ} :
    {A : Type ℓ} (f : A → Text) (xs : List A)
    → (is_empty (named_only (map f xs)) ≡ false) ↔ ((x : A) × In x xs × (is_empty (f x) ≡ false))
unfolding named_only
named_only_iff f [] = (λ h. absurd (cc), λ h. elim h.1 [ ])
named_only_iff f (x ∷ xs) = elim (Bool-cases (is_empty (f x))) [
  | inl t ↦
      rw (named_only, t)
        (
          λ h. let r = (named_only_iff f xs).0 h in (r.0, there r.1, r.2),
          λ h. (named_only_iff f xs).1 (later f t h),
        )
  | inr e ↦ rw (named_only, e) (λ h. (x, here refl, e), λ h. refl)
]
  where
    later :
        {A : Type ℓ} (f : A → Text) {x : A} {xs : List A}
        → is_empty (f x) ≡ true
        → (y : A) × In y (x ∷ xs) × (is_empty (f y) ≡ false)
        → (y : A) × In y xs × (is_empty (f y) ≡ false)
    later f t (y, here e, k) = absurd (true-ne_false (sym t ∙ ap (λ z. is_empty (f z)) (sym e) ∙ k))
    later f t (y, there h, k) = (y, h, k)

In-children-below : (c : RawNodes) {m : RawNode} → In m (child_nodes c) → In m (nodes_below c)
unfolding nodes_below nodes_of
In-children-below nil h = h
In-children-below (cons (node t a x s c) rest) (here e) = here e
In-children-below (cons child rest) (there h) =
    In-append_right (nodes_of child) (In-children-below rest h)

baudrate_cases :
    (a : Option RawNode) (xs : List RawNode)
    → (is_none (or_else (trimmed_text a) (trimmed_text (front xs))) ≡ false)
      ↔ ((is_some a ≡ true) ⊎ (is_empty xs ≡ false))
baudrate_cases (some n) xs = (λ h. inl refl, λ h. refl)
baudrate_cases none [] =
    (λ h. absurd (cc), λ h. elim h [ inl e ↦ absurd (cc) | inr e ↦ absurd (cc) ])
baudrate_cases none (x ∷ xs) = (λ h. inr refl, λ h. refl)

child_below : (n : RawNode) {m : RawNode} → In m (children n) → In m (below n)
child_below (node t a x s c) h = In-children-below c h

find_descendants-HasBelow :
    (n : RawNode) (tag : Text) → (is_empty (find_descendants n tag) ≡ false) ↔ HasBelow tag n
find_descendants-HasBelow n tag = (
  λ h.
      let r = (is_empty-In (find_descendants n tag)).0 h in
      let k = (In-find_descendants n tag r.0).0 r.1 in (r.0, k.0, k.1),
  λ h. (is_empty-In (find_descendants n tag)).1 (h.0, (In-find_descendants n tag h.0).1 (h.1, h.2)),
)

pub found_baudrate-HasBelow :
    (n : RawNode) → (is_none (found_baudrate n) ≡ false) ↔ HasBelow (codes "BAUDRATE") n
unfolding found_baudrate child_text find_descendant
found_baudrate-HasBelow n = (
  λ h.
      elim ((baudrate_cases (find_child n (codes "BAUDRATE"))
          (find_descendants n (codes "BAUDRATE"))).0
        h) [
          | inl e ↦
              let r = (has_child-HasChild n (codes "BAUDRATE")).0 e in (r.0, child_below n r.1, r.2)
          | inr e ↦ (find_descendants-HasBelow n (codes "BAUDRATE")).0 e
        ],
  λ h.
      (baudrate_cases (find_child n (codes "BAUDRATE")) (find_descendants n (codes "BAUDRATE"))).1
        (inr ((find_descendants-HasBelow n (codes "BAUDRATE")).1 h)),
)
