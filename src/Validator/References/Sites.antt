-- ===== src/Validator/References/Sites.antt =====
-- The reference sites that are collected below a root: each of them, and nothing else.
use parse_x.Base.{
  Bool, true, false, Option, none, some, [], ◌∷◌, ◌≡◌, refl, sym, ap, ◌∙◌, subst, if◌then◌else◌,
  inl, inr, In, here, there, In-append_left, In-append_right, In-append_cases,
}
use parse_x.Base.Text.{Text}
use parse_x.Model.Raw.{RawNode, RawNodes, node, nil, cons, tag_name, children, child_nodes}
use parse_x.Validator.References.{
  is_ref_tag, dest_attr, RefSite, ref_site, collect_refs, collect_child_refs,
}

-- The node is the root or stands below it.
pub data Within (n : RawNode) : RawNode → Type 0 where
  self : Within n n
  below : {m c : RawNode} → In c (children m) → Within n c → Within n m

-- The node is an element with a reference tag that says the kind of its target.
pub record IsSite (root : RawNode) (site : RefSite) : Type 0 where
  pub within : Within site.site_node root
  pub tagged : is_ref_tag (tag_name site.site_node) ≡ true
  pub kind : dest_attr site.site_node ≡ some site.dest

In-of_site_cases :
    (n : RawNode) (site : RefSite) (t : Bool) (d : Option Text)
    → In site
        (if t then elim d [ none ↦ [] | some k ↦ record { site_node = n; dest = k } ∷ [] ] else [])
    → (site.site_node ≡ n) × (t ≡ true) × (d ≡ some site.dest)
In-of_site_cases n site false d i = elim i [ ]
In-of_site_cases n site true none i = elim i [ ]
In-of_site_cases n site true (some k) (here e) =
    (ap (λ (s : RefSite). s.site_node) e, refl, ap some (sym (ap (λ (s : RefSite). s.dest) e)))
In-of_site_cases n site true (some k) (there i) = elim i [ ]

IsSite-of_In-ref_site : (n : RawNode) (site : RefSite) → In site (ref_site n) → IsSite n site
IsSite-of_In-ref_site n site i =
    let r = In-of_site_cases n site (is_ref_tag (tag_name n)) (dest_attr n) i in
    record {
      within = subst (λ m. Within m n) (sym r.0) self;
      tagged = ap (λ m. is_ref_tag (tag_name m)) r.0 ∙ r.1;
      kind = ap dest_attr r.0 ∙ r.2;
    }

In-ref_site :
    (n : RawNode) (d : Text)
    → is_ref_tag (tag_name n) ≡ true
    → dest_attr n ≡ some d
    → In (record { site_node = n; dest = d }) (ref_site n)
In-ref_site n d t e = rw t (rw e (here refl))

-- Every site is collected, and nothing else.
mutual
  unfolding collect_refs

  pub IsSite-of_collected :
      (n : RawNode) (site : RefSite) → In site (collect_refs n) → IsSite n site
  IsSite-of_collected (node t a x s c) site i =
      elim (In-append_cases (ref_site (node t a x s c)) i) [
        | inl j ↦ IsSite-of_In-ref_site (node t a x s c) site j
        | inr j ↦
            let r = child-of_collected c site j in
            record { within = below r.1 r.2.within; tagged = r.2.tagged; kind = r.2.kind }
      ]

  child-of_collected :
      (c : RawNodes) (site : RefSite)
      → In site (collect_child_refs c)
      → (n : RawNode) × In n (child_nodes c) × IsSite n site
  child-of_collected nil site i = elim i [ ]
  child-of_collected (cons child rest) site i = elim (In-append_cases (collect_refs child) i) [
    | inl j ↦ (child, here refl, IsSite-of_collected child site j)
    | inr j ↦ let r = child-of_collected rest site j in (r.0, there r.1, r.2)
  ]

collected-child :
    (c : RawNodes) (n : RawNode) (site : RefSite)
    → In n (child_nodes c)
    → In site (collect_refs n)
    → In site (collect_child_refs c)
unfolding collect_refs
collected-child nil n site i j = elim i [ ]
collected-child (cons child rest) n site (here e) j =
    In-append_left _ (subst (λ m. In site (collect_refs m)) e j)
collected-child (cons child rest) n site (there i) j =
    In-append_right (collect_refs child) (collected-child rest n site i j)

pub collected-Within :
    (n m : RawNode) (d : Text)
    → is_ref_tag (tag_name n) ≡ true
    → dest_attr n ≡ some d
    → Within n m
    → In (record { site_node = n; dest = d }) (collect_refs m)
unfolding collect_refs
collected-Within (node t a x s c) m d tag kind self =
    In-append_left _ (In-ref_site (node t a x s c) d tag kind)
collected-Within n (node t a x s cs) d tag kind (below {c = c} i w) =
    In-append_right (ref_site (node t a x s cs))
      (collected-child cs c _ i (collected-Within n c d tag kind w))
