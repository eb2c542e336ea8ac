-- ===== src/Validator/References/Index.antt =====
-- The index of paths holds the first node, in the order of the files and documents, that defines
-- each path.
use parse_x.Base.{
  Option, none, some, List, [], ◌∷◌, ◌++◌, ◌≡◌, refl, sym, ap, ◌∙◌, arith, if◌then◌else◌,
  Bool-cases, inl, inr, Option-cases,
}
use parse_x.Base.Text.{Text, text_eq_iff}
use parse_x.Base.Map.{Map, find, try_emplace}
use parse_x.Base.Map.Laws.{find-try_emplace}
use parse_x.Base.Map.Emplace.{or_else}
use parse_x.Model.{ParsedFile, ParsedProject}
use parse_x.Model.Raw.{RawNode, RawNodes, node, nil, cons}
use parse_x.Validator.Tree.{is_short_name, name_of, node_path}
use parse_x.Validator.References.{
  index_self, index_node, index_children, index_file, index_files, build_reference_path_index,
}

-- A path, and the node that defines it.
abbrev pub Definition : Type 0
Definition = Text × RawNode

abbrev own_definition : Text → RawNode → List Definition
own_definition base n = elim (name_of n) [ none ↦ [] | some name ↦ (node_path base n, n) ∷ [] ]

-- The definitions below a node in document order.
unfoldable mutual
  pub definitions : Text → RawNode → List Definition
  definitions base (node t a x s c) =
      let n = node t a x s c in own_definition base n ++ child_definitions (node_path base n) c

  pub child_definitions : Text → RawNodes → List Definition
  child_definitions path nil = []
  child_definitions path (cons child rest) =
      let inner = definitions path child in
      (if is_short_name child then [] else inner) ++ child_definitions path rest

abbrev pub file_definitions : ParsedFile → List Definition
file_definitions file = elim file.raw_document [ none ↦ [] | some root ↦ definitions [] root ]

unfoldable pub all_definitions : List ParsedFile → List Definition
all_definitions [] = []
all_definitions (file ∷ files) = file_definitions file ++ all_definitions files

find-append : (k : Text) (m r : Map RawNode) → find k (m ++ r) ≡ or_else (find k m) (find k r)
unfolding find
find-append k [] r = refl
find-append k ((j, v) ∷ m) r = ground (arith, find-append k m r)

or_else_assoc : (x y z : Option RawNode) → or_else (or_else x y) z ≡ or_else x (or_else y z)
or_else_assoc none y z = refl
or_else_assoc (some a) y z = refl

or_else-none : (x : Option RawNode) → or_else x none ≡ x
or_else-none none = refl
or_else-none (some a) = refl

-- At a node that has a name or none.
find-try_emplace_named :
    (k path : Text) (n : RawNode) (out : Map RawNode) (named : Option Text)
    → find k (elim named [ none ↦ out | some name ↦ try_emplace path n out ])
      ≡ or_else (find k out) (find k (elim named [ none ↦ [] | some name ↦ (path, n) ∷ [] ]))
unfolding find
find-try_emplace_named k path n out none = sym (or_else-none (find k out))
find-try_emplace_named k path n out (some name) =
    ground (arith, find-try_emplace path k n out, text_eq_iff path k)

find-index_self :
    (k : Text) (n : RawNode) (base : Text) (out : Map RawNode)
    → find k (index_self n base out) ≡ or_else (find k out) (find k (own_definition base n))
find-index_self k n base out = find-try_emplace_named k (node_path base n) n out (name_of n)

mutual
  unfolding index_node definitions find

  find-index_node :
      (k : Text) (n : RawNode) (base : Text) (out : Map RawNode)
      → find k (index_node n base out) ≡ or_else (find k out) (find k (definitions base n))
  find-index_node k (node t a x s c) base out =
      let n = node t a x s c in
      find-index_children k c (node_path base n) (index_self n base out)
      ∙ (ap (λ o. or_else o (find k (child_definitions (node_path base n) c)))
            (find-index_self k n base out)
          ∙ (or_else_assoc (find k out) _ _
              ∙ sym (
                  ap (or_else (find k out)) (
                    find-append k (own_definition base n)
                      (child_definitions (node_path base n) c)))))

  find-index_children :
      (k : Text) (c : RawNodes) (path : Text) (out : Map RawNode)
      → find k (index_children c path out)
        ≡ or_else (find k out) (find k (child_definitions path c))
  find-index_children k nil path out = sym (or_else-none (find k out))
  find-index_children k (cons child rest) path out = elim (Bool-cases (is_short_name child)) [
    | inl t ↦ rw t (find-index_children k rest path out)
    | inr f ↦ rw f (
        find-index_children k rest path (index_node child path out)
        ∙ (ap (λ o. or_else o (find k (child_definitions path rest)))
              (find-index_node k child path out)
            ∙ (or_else_assoc (find k out) _ _
                ∙ sym (
                    ap (or_else (find k out))
                      (find-append k (definitions path child) (child_definitions path rest))))))
  ]

find-index_file :
    (k : Text) (file : ParsedFile) (out : Map RawNode)
    → find k (index_file file out) ≡ or_else (find k out) (find k (file_definitions file))
unfolding find
find-index_file k file out = elim (Option-cases file.raw_document) [
  | inl e ↦ rw e (sym (or_else-none (find k out)))
  | inr (root, e) ↦ rw e (find-index_node k root [] out)
]

find-index_files :
    (k : Text) (files : List ParsedFile) (out : Map RawNode)
    → find k (index_files files out) ≡ or_else (find k out) (find k (all_definitions files))
unfolding index_files all_definitions find
find-index_files k [] out = sym (or_else-none (find k out))
find-index_files k (file ∷ files) out =
    find-index_files k files (index_file file out)
    ∙ (ap (λ o. or_else o (find k (all_definitions files))) (find-index_file k file out)
        ∙ (or_else_assoc (find k out) _ _
            ∙ sym (
                ap (or_else (find k out))
                  (find-append k (file_definitions file) (all_definitions files)))))

-- A path leads to the first node that defines it, in the order of the files and, in a file, of the
-- document; a path that no node defines leads nowhere.
pub find-build_reference_path_index :
    (path : Text) (project : ParsedProject)
    → find path (build_reference_path_index project) ≡ find path (all_definitions project.files)
unfolding build_reference_path_index find
find-build_reference_path_index path project = find-index_files path project.files []
