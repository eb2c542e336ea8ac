-- ===== src/Validator/Uniqueness/Silent.antt =====
-- The uniqueness check is silent exactly where no two counted siblings have one name.
use parse_x.Base.{
  nil_of_append, append-nils, ◌≤◌, Bool, true, false, Option, none, some, List, [], ◌∷◌, ◌++◌, ◌≡◌,
  ◌↔◌, refl, sym, ap, ◌∙◌, arith, if◌then◌else◌, Bool-cases, inl, inr, Option-cases, In, here,
  there, length, keep, value_or,
}
use mathlib.Core.List.{append-nil, append_assoc}
use parse_x.Base.Text.{Text, text_eq, text_eq_iff}
use parse_x.Base.Map.{Map, find, upsert, IsAscending}
use parse_x.Base.Map.Laws.{find-upsert, upsert-IsAscending, In-of_find, find-of_In}
use parse_x.Model.{ParsedFile, ParsedProject}
use parse_x.Model.Raw.{RawNode, RawNodes, node, nil, cons, children, child_nodes}
use parse_x.Validator.Tree.{is_short_name, node_path}
use parse_x.Validator.Uniqueness.{
  counted_name, by_name, duplicates, check_node, check_children, check_document, check_documents,
  validate_uniqueness,
}

abbrev pub carries : Text → RawNode → Bool
carries name child = elim (counted_name child) [ none ↦ false | some n ↦ text_eq n name ]

-- At most one of the children counts under each name.
abbrev pub HasUniqueNames : RawNode → Type 0
HasUniqueNames n = (name : Text) → length (keep (carries name) (children n)) ≤ 1

-- The node is the root or stands below it, and no node on the way to it is a SHORT-NAME.
pub data Counted (n : RawNode) : RawNode → Type 0 where
  self : Counted n n
  below : {m c : RawNode} → In c (children m) → is_short_name c ≡ false → Counted n c → Counted n m

find-step :
    (k : Text) (child : RawNode) (groups : Map (List RawNode)) (named : Option Text)
    → value_or
        (find k (elim named [
          | none ↦ groups
          | some name ↦ upsert name [] (λ members. members ++ child ∷ []) groups
        ]))
        []
      ≡ value_or (find k groups) []
        ++ (if elim named [ none ↦ false | some n ↦ text_eq n k ] then child ∷ [] else [])
find-step k child groups none = sym (append-nil _)
find-step k child groups (some name) = elim (Bool-cases (text_eq name k)) [
  | inl t ↦
      ground
        (arith, find-upsert name k [] (λ members. members ++ child ∷ []) groups, text_eq_iff name k)
  | inr f ↦ ground (
    arith,
    find-upsert name k [] (λ members. members ++ child ∷ []) groups,
    append-nil (value_or (find k groups) []),
  )
]

append-keep :
    (k : Text) (g : List RawNode) (child : RawNode) (rest : List RawNode) (b : Bool)
    → (g ++ (if b then child ∷ [] else [])) ++ rest ≡ g ++ (if b then child ∷ rest else rest)
append-keep k g child rest true = append_assoc g (child ∷ []) rest
append-keep k g child rest false = ap (λ l. l ++ rest) (append-nil g)

find-by_name :
    (k : Text) (cs : List RawNode) (groups : Map (List RawNode))
    → value_or (find k (by_name cs groups)) [] ≡ value_or (find k groups) [] ++ keep (carries k) cs
unfolding by_name keep
find-by_name k [] groups = sym (append-nil _)
find-by_name k (child ∷ rest) groups =
    find-by_name k rest _
    ∙ (ap (λ l. l ++ keep (carries k) rest) (find-step k child groups (counted_name child))
        ∙ append-keep k _ child (keep (carries k) rest) (carries k child))

by_name-IsAscending :
    (cs : List RawNode) (groups : Map (List RawNode))
    → IsAscending groups
    → IsAscending (by_name cs groups)
unfolding by_name
by_name-IsAscending [] groups a = a
by_name-IsAscending (child ∷ rest) groups a =
    elim (counted_name child)
      as (λ o. IsAscending (
        by_name rest (elim o [
          | none ↦ groups
          | some name ↦ upsert name [] (λ members. members ++ child ∷ []) groups
        ]))) [
          | none ↦ by_name-IsAscending rest groups a
          | some name ↦
              by_name-IsAscending rest _
                (upsert-IsAscending name [] (λ members. members ++ child ∷ []) groups a)
        ]

duplicates-nil :
    (path : Text) (groups : Map (List RawNode))
    → (duplicates path groups ≡ [])
      ↔ ((name : Text) (members : List RawNode) → In (name, members) groups → length members ≤ 1)
unfolding duplicates
duplicates-nil path [] = (λ h n ms i. elim i [ ], λ h. refl)
duplicates-nil path ((name, members) ∷ groups) = (
  λ h n ms i. elim i [
    | here e ↦ ground (arith, h, ap (λ (p : Text × List RawNode). length p.1) e)
    | there j ↦ (duplicates-nil path groups).0 (ground (arith, h)) n ms j
  ],
  λ h. ground (
    arith,
    h name members (here refl),
    (duplicates-nil path groups).1 (λ n ms i. h n ms (there i)),
  ),
)

own-silent :
    (path : Text) (n : RawNode)
    → (duplicates path (by_name (children n) []) ≡ []) ↔ HasUniqueNames n
unfolding find
own-silent path n =
    let groups = by_name (children n) [] in
    let group_of = λ (k : Text). find-by_name k (children n) [] in
    (
      λ h k. elim (Option-cases (find k groups)) [
        | inl e ↦ omega (arith, ap length (sym (group_of k) ∙ ap (λ o. value_or o []) e))
        | inr (ms, e) ↦
            let small = (duplicates-nil path groups).0 h k ms (In-of_find k groups e) in
            omega (arith, small, ap length (sym (group_of k) ∙ ap (λ o. value_or o []) e))
      ],
      λ u. (duplicates-nil path groups).1 λ k ms i.
          let e = find-of_In groups (by_name-IsAscending (children n) [] tt) i in
          omega (arith, u k, ap length (sym (group_of k) ∙ ap (λ o. value_or o []) e)),
    )

child-silent :
    (cs : RawNodes) (path : Text) (c : RawNode)
    → check_children cs path ≡ []
    → In c (child_nodes cs)
    → is_short_name c ≡ false
    → check_node c path ≡ []
unfolding check_node
child-silent nil path c h i s = elim i [ ]
child-silent (cons child rest) path c h (here e) s =
    let skipped = ap is_short_name (sym e) ∙ s in
    ap (λ n. check_node n path) e
    ∙ (sym (rw skipped refl)
        ∙ (nil_of_append (if is_short_name child then [] else check_node child path) _ h).0)
child-silent (cons child rest) path c h (there i) s =
    child-silent rest path c
      (nil_of_append (if is_short_name child then [] else check_node child path) _ h).1 i s

unique-of_silent :
    (n root : RawNode) (base : Text) → check_node root base ≡ [] → Counted n root → HasUniqueNames n
unfolding check_node
unique-of_silent (node t a x s cs) _ base h self =
    let n = node t a x s cs in
    (own-silent (node_path base n) n).0 (nil_of_append _ (check_children cs (node_path base n)) h).0
unique-of_silent n (node t a x s cs) base h (below {c = c} i named w) =
    let path = node_path base (node t a x s cs) in
    unique-of_silent n c path
      (child-silent cs path c (nil_of_append (duplicates path (by_name (child_nodes cs) [])) _ h).1
        i named)
      w

mutual
  unfolding check_node

  silent-of_unique :
      (root : RawNode) (base : Text)
      → ((n : RawNode) → Counted n root → HasUniqueNames n)
      → check_node root base ≡ []
  silent-of_unique (node t a x s cs) base u =
      let n = node t a x s cs in
      append-nils ((own-silent (node_path base n) n).1 (u n self))
        (children-silent cs (node_path base n) λ c i named m w. u m (below i named w))

  children-silent :
      (cs : RawNodes) (path : Text)
      → ((c : RawNode)
          → In c (child_nodes cs)
          → is_short_name c ≡ false
          → (n : RawNode) → Counted n c
          → HasUniqueNames n)
      → check_children cs path ≡ []
  children-silent nil path u = refl
  children-silent (cons child rest) path u =
      append-nils
        (elim (Bool-cases (is_short_name child)) [
          | inl t ↦ rw t refl
          | inr f ↦ rw f (silent-of_unique child path (u child (here refl) f))
        ])
        (children-silent rest path λ c i. u c (there i))

check_documents-silent :
    (files : List ParsedFile)
    → (check_documents files ≡ []) ↔ (
        (file : ParsedFile) (root n : RawNode)
        → In file files
        → file.raw_document ≡ some root
        → Counted n root
        → HasUniqueNames n)
unfolding check_documents
check_documents-silent [] = (λ h f r n i. elim i [ ], λ h. refl)
check_documents-silent (file ∷ files) = (
  λ h f r n i e w. elim i [
    | here q ↦
        unique-of_silent n r []
          (sym (rw (ap (λ (g : ParsedFile). g.raw_document) (sym q) ∙ e) refl)
            ∙ (nil_of_append (check_document file) _ h).0)
          w
    | there j ↦
        (check_documents-silent files).0 (nil_of_append (check_document file) _ h).1 f r n j e w
  ],
  λ u.
      append-nils
        (elim (Option-cases file.raw_document) [
          | inl e ↦ rw e refl
          | inr (root, e) ↦ rw e (silent-of_unique root [] λ n w. u file root n (here refl) e w)
        ])
        ((check_documents-silent files).1 λ f r n i. u f r n (there i)),
)

-- The check reports nothing exactly if, at each node of each document that is reached without going
-- through a SHORT-NAME element, at most one child (SHORT-NAME elements left out) carries each name.
pub validate_uniqueness-silent :
    (project : ParsedProject)
    → ((validate_uniqueness project).errors ≡ []) ↔ (
        (file : ParsedFile) (root n : RawNode)
        → In file project.files
        → file.raw_document ≡ some root
        → Counted n root
        → HasUniqueNames n)
unfolding validate_uniqueness
validate_uniqueness-silent project = check_documents-silent project.files
