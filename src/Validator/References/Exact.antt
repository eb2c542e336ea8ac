-- ===== src/Validator/References/Exact.antt =====
-- Which findings the reference check makes: one for each reference below a root whose target is
-- missing, of another kind, or of a kind the table does not know.
use parse_x.Base.{
  true, false, Option, none, some, List, [], ◌∷◌, ◌≡◌, ◌≢◌, ◌↔◌, refl, sym, ap, ◌∙◌, subst, arith,
  if◌then◌else◌, Bool-cases, inl, inr, is_some, is_empty, Option-cases, any, In, here, there,
  In-append_left, In-append_right, In-append_cases,
}
use parse_x.Base.Text.{Text, text_eq, text_eq_iff}
use parse_x.Base.Map.{Map, find}
use parse_x.Base.Map.Laws.{In-of_find}
use parse_x.Model.{ParsedFile, ParsedProject}
use parse_x.Model.Raw.{RawNode, tag_name, text}
use parse_x.Validator.{ValidationError}
use parse_x.Validator.Tree.{trim_text}
use parse_x.Validator.References.{
  RefSite, dest_to_tags, build_reference_path_index, dangling, dest_unrecognized, type_mismatch,
  check_site, check_sites, file_sites, check_reference_files, validate_references,
}
use parse_x.Validator.References.Sites.{IsSite, IsSite-of_collected, collected-Within}
use parse_x.Validator.References.Index.{
  Definition, all_definitions, find-build_reference_path_index,
}

-- The node of a reference, in one of the files.
pub record IsReference (files : List ParsedFile) (site : RefSite) : Type 0 where
  pub file : ParsedFile
  pub root : RawNode
  pub listed : In file files
  pub loaded : file.raw_document ≡ some root
  pub is_site : IsSite root site

abbrev pub target_path : RefSite → Text
target_path site = trim_text (text site.site_node)

-- What may be wrong with a reference whose target path is not empty, and the finding for it.
pub data Fault (defined : List Definition) (site : RefSite) (e : ValidationError) : Type 0 where
  undefined_path :
      ((target : RawNode) → ¬ In (target_path site, target) defined)
      → e ≡ dangling site.site_node (target_path site)
      → Fault defined site e
  unknown_kind :
      {target : RawNode}
      → find (target_path site) defined ≡ some target
      → find site.dest dest_to_tags ≡ none
      → e ≡ dest_unrecognized site.site_node (target_path site) site.dest
      → Fault defined site e
  other_kind :
      {target : RawNode} {tags : List Text}
      → find (target_path site) defined ≡ some target
      → find site.dest dest_to_tags ≡ some tags
      → ¬ In (tag_name target) tags
      → e ≡ type_mismatch site.site_node (target_path site) site.dest (tag_name target)
      → Fault defined site e

find-none-no-In : (k : Text) (m : Map RawNode) → find k m ≡ none → (n : RawNode) → ¬ In (k, n) m
unfolding find
find-none-no-In k [] h n i = elim i [ ]
find-none-no-In k ((j, v) ∷ m) h n (here e) =
    ground (arith, text_eq_iff j k, ap (λ (p : Definition). p.0) e)
find-none-no-In k ((j, v) ∷ m) h n (there i) = find-none-no-In k m (ground (arith, h)) n i

find-none-of_no-In :
    (k : Text) (m : Map RawNode) → ((n : RawNode) → ¬ In (k, n) m) → find k m ≡ none
find-none-of_no-In k m h = elim (Option-cases (find k m)) [
  | inl e ↦ e
  | inr (n, e) ↦ absurd (h n (In-of_find k m e))
]

any_text : (t : Text) (ts : List Text) → (any (λ u. text_eq u t) ts ≡ true) ↔ In t ts
unfolding any
any_text t [] = (λ h. absurd (cc), λ i. elim i [ ])
any_text t (u ∷ us) = (
  λ h. elim (Bool-cases (text_eq u t)) [
    | inl e ↦ here (sym ((text_eq_iff u t).0 e))
    | inr f ↦ there ((any_text t us).0 (ground (arith, h, f)))
  ],
  λ i. elim i [
    | here e ↦ ground (arith, (text_eq_iff u t).1 (sym e))
    | there j ↦ ground (arith, (any_text t us).1 j)
  ],
)

-- The check of a site, by what the two maps answer.
verdict : RefSite → Option RawNode → Option (List Text) → List ValidationError
verdict site found known =
    let ref = site.site_node in
    let path = trim_text (text ref) in
    if is_empty path then [] else elim found [
      | none ↦ dangling ref path ∷ []
      | some target ↦
          if is_some known
          then if elim known [
            | none ↦ true
            | some tags ↦ any (λ t. text_eq t (tag_name target)) tags
          ]
            then []
            else type_mismatch ref path site.dest (tag_name target) ∷ []
          else dest_unrecognized ref path site.dest ∷ []
    ]

check_site-verdict :
    (index : Map RawNode) (site : RefSite)
    → check_site index site
      ≡ verdict site (find (target_path site) index) (find site.dest dest_to_tags)
unfolding check_site verdict
check_site-verdict index site = refl

single : {e f : ValidationError} → In e (f ∷ []) → e ≡ f
single (here h) = h
single (there i) = elim i [ ]

module _ (defined : List Definition) (site : RefSite) where
  verdict-ne-nil :
      (found : Option RawNode) (known : Option (List Text)) (e : ValidationError)
      → In e (verdict site found known)
      → target_path site ≢ []
  unfolding verdict
  verdict-ne-nil found known e i h = elim (rw h at i) [ ]

  verdict-Fault :
      (found : Option RawNode) (known : Option (List Text)) (e : ValidationError)
      → find (target_path site) defined ≡ found
      → find site.dest dest_to_tags ≡ known
      → In e (verdict site found known)
      → Fault defined site e
  unfolding verdict
  verdict-Fault none known e f k i =
      undefined_path (find-none-no-In _ defined f)
        (elim (Bool-cases (is_empty (target_path site))) [
          | inl t ↦ elim (rw t at i) [ ]
          | inr t ↦ single (rw t at i)
        ])
  verdict-Fault (some target) none e f k i =
      unknown_kind f k (elim (Bool-cases (is_empty (target_path site))) [
        | inl t ↦ elim (rw t at i) [ ]
        | inr t ↦ single (rw t at i)
      ])
  verdict-Fault (some target) (some tags) e f k i =
      elim (Bool-cases (is_empty (target_path site))) [
        | inl t ↦ elim (rw t at i) [ ]
        | inr t ↦ elim (Bool-cases (any (λ u. text_eq u (tag_name target)) tags)) [
          | inl m ↦ elim (rw (t, m) at i) [ ]
          | inr m ↦
              other_kind f k (λ j. let a = (any_text (tag_name target) tags).1 j in absurd (cc))
                (single (rw (t, m) at i))
        ]
      ]

  is_empty-false : (t : Text) → t ≢ [] → is_empty t ≡ false
  is_empty-false [] h = absurd (h refl)
  is_empty-false (c ∷ cs) h = refl

  Fault-verdict :
      (found : Option RawNode) (known : Option (List Text)) (e : ValidationError)
      → find (target_path site) defined ≡ found
      → find site.dest dest_to_tags ≡ known
      → target_path site ≢ []
      → Fault defined site e
      → In e (verdict site found known)
  unfolding verdict
  Fault-verdict found known e f k p (undefined_path none_there h) =
      rw (is_empty-false _ p, sym f ∙ find-none-of_no-In _ defined none_there) (here h)
  Fault-verdict found known e f k p (unknown_kind g u h) =
      rw (is_empty-false _ p, sym f ∙ g, sym k ∙ u) (here h)
  Fault-verdict found known e f k p (other_kind {target} {tags} g u n h) =
      rw (is_empty-false _ p, sym f ∙ g, sym k ∙ u)
        (elim (Bool-cases (any (λ t. text_eq t (tag_name target)) tags)) [
          | inl m ↦ absurd (n ((any_text (tag_name target) tags).0 m))
          | inr m ↦ rw m (here h)
        ])

In-check_sites :
    (index : Map RawNode) (sites : List RefSite) {e : ValidationError} {site : RefSite}
    → In site sites
    → In e (check_site index site)
    → In e (check_sites index sites)
unfolding check_sites
In-check_sites index [] i j = elim i [ ]
In-check_sites index (s ∷ sites) {e} (here q) j =
    In-append_left _ (subst (λ r. In e (check_site index r)) q j)
In-check_sites index (s ∷ sites) (there i) j =
    In-append_right (check_site index s) (In-check_sites index sites i j)

In-of_In-check_sites :
    (index : Map RawNode) (sites : List RefSite) {e : ValidationError}
    → In e (check_sites index sites)
    → (site : RefSite) × In site sites × In e (check_site index site)
unfolding check_sites
In-of_In-check_sites index [] i = elim i [ ]
In-of_In-check_sites index (s ∷ sites) i = elim (In-append_cases (check_site index s) i) [
  | inl j ↦ (s, here refl, j)
  | inr j ↦ let r = In-of_In-check_sites index sites j in (r.0, there r.1, r.2)
]

In-check_reference_files :
    (index : Map RawNode) (files : List ParsedFile) {e : ValidationError} {file : ParsedFile}
    → In file files
    → In e (check_sites index (file_sites file))
    → In e (check_reference_files index files)
unfolding check_reference_files
In-check_reference_files index [] i j = elim i [ ]
In-check_reference_files index (f ∷ files) {e} (here q) j =
    In-append_left _ (subst (λ r. In e (check_sites index (file_sites r))) q j)
In-check_reference_files index (f ∷ files) (there i) j =
    In-append_right (check_sites index (file_sites f)) (In-check_reference_files index files i j)

In-of_In-check_reference_files :
    (index : Map RawNode) (files : List ParsedFile) {e : ValidationError}
    → In e (check_reference_files index files)
    → (file : ParsedFile) × In file files × In e (check_sites index (file_sites file))
unfolding check_reference_files
In-of_In-check_reference_files index [] i = elim i [ ]
In-of_In-check_reference_files index (f ∷ files) i =
    elim (In-append_cases (check_sites index (file_sites f)) i) [
      | inl j ↦ (f, here refl, j)
      | inr j ↦ let r = In-of_In-check_reference_files index files j in (r.0, there r.1, r.2)
    ]

In-file_sites :
    (file : ParsedFile) (root : RawNode) (site : RefSite)
    → file.raw_document ≡ some root
    → IsSite root site
    → In site (file_sites file)
In-file_sites file root site e s =
    rw e (collected-Within site.site_node root site.dest s.tagged s.kind s.within)

file_sites-IsReference :
    (files : List ParsedFile) (file : ParsedFile) (site : RefSite)
    → In file files
    → In site (file_sites file)
    → IsReference files site
file_sites-IsReference files file site i j = elim (Option-cases file.raw_document) [
  | inl e ↦ elim (rw e at j) [ ]
  | inr (root, e) ↦ record {
    file = file;
    root = root;
    listed = i;
    loaded = e;
    is_site = IsSite-of_collected root site (rw e at j);
  }
]

-- A finding is made exactly if some reference in the files, whose target path is not empty, has the
-- fault that the finding is for: its path is defined nowhere in the project, its DEST is not in the
-- table, or the first node that defines its path has none of the tags of its DEST.
pub validate_references-exact :
    (project : ParsedProject) (e : ValidationError)
    → In e (validate_references project).errors
      ↔ (site : RefSite) × IsReference project.files site
        × (target_path site ≢ [])
        × Fault (all_definitions project.files) site e
unfolding validate_references
validate_references-exact project e =
    let index = build_reference_path_index project in
    let defined = all_definitions project.files in
    let looks_up = λ (k : Text). find-build_reference_path_index k project in
    (
      λ i.
          let f = In-of_In-check_reference_files index project.files i in
          let s = In-of_In-check_sites index (file_sites f.0) f.2 in
          let v = subst (In e) (check_site-verdict index s.0) s.2 in
          (
            s.0,
            file_sites-IsReference project.files f.0 s.0 f.1 s.1,
            verdict-ne-nil defined s.0 _ _ e v,
            verdict-Fault defined s.0 _ _ e (sym (looks_up (target_path s.0))) refl v,
          ),
      λ h.
          let v = Fault-verdict defined h.0 _ _ e (sym (looks_up (target_path h.0))) refl h.2 h.3 in
          In-check_reference_files index project.files h.1.listed (
            In-check_sites index _ (In-file_sites h.1.file h.1.root h.0 h.1.loaded h.1.is_site)
              (subst (In e) (sym (check_site-verdict index h.0)) v)),
    )
