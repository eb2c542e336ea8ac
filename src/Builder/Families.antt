-- ===== src/Builder/Families.antt =====
-- What `buildSubtree` (libparsex/src/parser.cpp) puts into the six families of a file: the elements of
-- the tree's nodes in document order, chosen by their tags.
use parse_x.Base.{
  Bool, true, false, List, [], ◌∷◌, ◌++◌, ◌≡◌, refl, ap, sym, ◌∙◌, subst, map, if◌then◌else◌,
  Bool-cases, inl, inr,
}
use parse_x.Base.Text.{Text, codes, text_eq, text_eq_iff}
use parse_x.Model.{ParsedFile}
use parse_x.Model.Raw.{RawSpan, RawNode, RawNodes, node}
use parse_x.Builder.{family_of, build_subtree}
use parse_x.Builder.Order.{nodes_of}
use parse_x.Builder.Numbers.{DoubleReader}
use parse_x.Builder.Nodes.{has_tag}
use parse_x.Builder.Elements.{
  build_cluster, build_ecu_instance, build_frame, build_pdu, build_signal, build_signal_group,
}
use parse_x.Builder.Gather.{
  gather, build_subtree-gather, clusters_in, ecu_instances_in, frames_in, pdus_in, signals_in,
  signal_groups_in, push_element-clusters, push_element-ecu_instances, push_element-frames,
  push_element-pdus, push_element-signals, push_element-signal_groups,
}

-- The nodes that have one of the tags, in order.
abbrev pub has_one_of : List Text → RawNode → Bool
has_one_of [] n = false
has_one_of (tag ∷ tags) n = if has_tag tag n then true else has_one_of tags n

unfoldable pub with_tags : List Text → List RawNode → List RawNode
with_tags tags [] = []
with_tags tags (n ∷ ns) =
    let rest = with_tags tags ns in if has_one_of tags n then n ∷ rest else rest

-- The elements of the nodes `ns`, after those of `file`, are those of `out`: each family has the nodes
-- of its two tags, or of its one.
pub record HasFamilies (reader : DoubleReader) (ns : List RawNode) (file out : ParsedFile)
    : Type 0 where
  pub clusters_eq :
      out.clusters
      ≡ file.clusters
        ++ map
            (λ n. (build_cluster n []).0)
            (with_tags (codes "CLUSTER" ∷ codes "CAN-CLUSTER" ∷ []) ns)
  pub ecu_instances_eq :
      out.ecu_instances
      ≡ file.ecu_instances
        ++ map (λ n. (build_ecu_instance n []).0) (with_tags (codes "ECU-INSTANCE" ∷ []) ns)
  pub frames_eq :
      out.frames
      ≡ file.frames
        ++ map (λ n. (build_frame n []).0) (with_tags (codes "FRAME" ∷ codes "CAN-FRAME" ∷ []) ns)
  pub pdus_eq :
      out.pdus
      ≡ file.pdus
        ++ map (λ n. (build_pdu n []).0) (with_tags (codes "PDU" ∷ codes "I-SIGNAL-I-PDU" ∷ []) ns)
  pub signals_eq :
      out.signals
      ≡ file.signals
        ++ map
            (λ n. (build_signal reader n []).0)
            (with_tags (codes "SYSTEM-SIGNAL" ∷ codes "I-SIGNAL" ∷ []) ns)
  pub signal_groups_eq :
      out.signal_groups
      ≡ file.signal_groups
        ++ map
            (λ n. (build_signal_group n []).0)
            (with_tags (codes "SIGNAL-GROUP" ∷ codes "I-SIGNAL-GROUP" ∷ []) ns)

-- A node's part is what is built from it, where it has one of the tags.
gather-with_tags {ℓ} :
    {B : Type ℓ} (part : RawNode → List B) (build : RawNode → B) (tags : List Text)
    → ((n : RawNode) → part n ≡ (if has_one_of tags n then build n ∷ [] else []))
    → (ns : List RawNode) → gather part ns ≡ map build (with_tags tags ns)
unfolding gather with_tags
gather-with_tags part build tags h [] = refl
gather-with_tags part build tags h (n ∷ ns) = elim (Bool-cases (has_one_of tags n)) [
  | inl t ↦
      let e : part n ≡ build n ∷ [] = rw h (rw t refl) in
      rw (e, t) (ap (build n ∷◌) (gather-with_tags part build tags h ns))
  | inr f ↦
      let e : part n ≡ [] = rw h (rw f refl) in rw (e, f) (gather-with_tags part build tags h ns)
]

-- What the six families get from one node, by its tag.
abbrev Parts : DoubleReader → RawNode → Type 0
Parts reader n =
    (clusters_in (family_of n) n ≡ (
      if has_one_of (codes "CLUSTER" ∷ codes "CAN-CLUSTER" ∷ []) n
      then (build_cluster n []).0 ∷ []
      else []))
    × (ecu_instances_in (family_of n) n ≡ (
        if has_one_of (codes "ECU-INSTANCE" ∷ []) n then (build_ecu_instance n []).0 ∷ [] else []))
    × (frames_in (family_of n) n ≡ (
        if has_one_of (codes "FRAME" ∷ codes "CAN-FRAME" ∷ []) n
        then (build_frame n []).0 ∷ []
        else []))
    × (pdus_in (family_of n) n ≡ (
        if has_one_of (codes "PDU" ∷ codes "I-SIGNAL-I-PDU" ∷ []) n
        then (build_pdu n []).0 ∷ []
        else []))
    × (signals_in reader (family_of n) n ≡ (
        if has_one_of (codes "SYSTEM-SIGNAL" ∷ codes "I-SIGNAL" ∷ []) n
        then (build_signal reader n []).0 ∷ []
        else []))
    × (signal_groups_in (family_of n) n ≡ (
        if has_one_of (codes "SIGNAL-GROUP" ∷ codes "I-SIGNAL-GROUP" ∷ []) n
        then (build_signal_group n []).0 ∷ []
        else []))

module _ (reader : DoubleReader) (a : List (Text × Text)) (x : Text) (s : RawSpan)
    (c : RawNodes) where
  abbrev PartsAt : Text → Type 0
  PartsAt t = Parts reader (node t a x s c)

  -- Either the tag is the literal, or it is another one.
  at_literal :
      (t literal : Text) → PartsAt literal → (text_eq t literal ≡ false → PartsAt t) → PartsAt t
  at_literal t literal p q = elim (Bool-cases (text_eq t literal)) [
    | inl e ↦ subst PartsAt (sym ((text_eq_iff t literal).0 e)) p
    | inr f ↦ q f
  ]

  parts_at : (t : Text) → PartsAt t
  unfolding family_of clusters_in ecu_instances_in frames_in pdus_in signals_in signal_groups_in
      text_eq
  parts_at t =
      at_literal t (codes "CLUSTER") (refl, refl, refl, refl, refl, refl)
        (λ f1.
          at_literal t (codes "CAN-CLUSTER") (refl, refl, refl, refl, refl, refl)
            (λ f2.
              at_literal t (codes "ECU-INSTANCE") (refl, refl, refl, refl, refl, refl)
                (λ f3.
                  at_literal t (codes "FRAME") (refl, refl, refl, refl, refl, refl)
                    (λ f4.
                      at_literal t (codes "CAN-FRAME") (refl, refl, refl, refl, refl, refl)
                        (λ f5.
                          at_literal t (codes "PDU") (refl, refl, refl, refl, refl, refl)
                            (λ f6.
                              at_literal t (codes "I-SIGNAL-I-PDU")
                                (refl, refl, refl, refl, refl, refl)
                                (λ f7.
                                  at_literal t (codes "SYSTEM-SIGNAL")
                                    (refl, refl, refl, refl, refl, refl)
                                    (λ f8.
                                      at_literal t (codes "I-SIGNAL")
                                        (refl, refl, refl, refl, refl, refl)
                                        (λ f9.
                                          at_literal t (codes "SIGNAL-GROUP")
                                            (refl, refl, refl, refl, refl, refl)
                                            (λ f10.
                                              at_literal t (codes "I-SIGNAL-GROUP")
                                                (refl, refl, refl, refl, refl, refl)
                                                (λ f11.
                                                  rw (f1, f2, f3, f4, f5, f6, f7, f8, f9, f10, f11)
                                                    (refl, refl, refl, refl, refl, refl))))))))))))

family_of-Parts : (reader : DoubleReader) (n : RawNode) → Parts reader n
family_of-Parts reader (node t a x s c) = parts_at reader a x s c t

-- The walk over a tree adds to each of the six families, in document order, what its builder makes of
-- the tree's nodes with the family's tags: CLUSTER and CAN-CLUSTER, ECU-INSTANCE, FRAME and CAN-FRAME,
-- PDU and I-SIGNAL-I-PDU, SYSTEM-SIGNAL and I-SIGNAL, SIGNAL-GROUP and I-SIGNAL-GROUP.
pub build_subtree-HasFamilies :
    (reader : DoubleReader) (n : RawNode) (file : ParsedFile)
    → HasFamilies reader (nodes_of n) file (build_subtree reader n file)
build_subtree-HasFamilies reader n file = record {
  clusters_eq =
      build_subtree-gather reader (λ f. f.clusters) (λ n. clusters_in (family_of n) n)
        (λ n. push_element-clusters reader (family_of n) n) n file
      ∙ ap (λ z. file.clusters ++ z)
          (gather-with_tags (λ n. clusters_in (family_of n) n) (λ n. (build_cluster n []).0)
            (codes "CLUSTER" ∷ codes "CAN-CLUSTER" ∷ []) (λ n. (family_of-Parts reader n).0)
            (nodes_of n));
  ecu_instances_eq =
      build_subtree-gather reader (λ f. f.ecu_instances) (λ n. ecu_instances_in (family_of n) n)
        (λ n. push_element-ecu_instances reader (family_of n) n) n file
      ∙ ap (λ z. file.ecu_instances ++ z)
          (gather-with_tags (λ n. ecu_instances_in (family_of n) n)
            (λ n. (build_ecu_instance n []).0) (codes "ECU-INSTANCE" ∷ [])
            (λ n. (family_of-Parts reader n).1) (nodes_of n));
  frames_eq =
      build_subtree-gather reader (λ f. f.frames) (λ n. frames_in (family_of n) n)
        (λ n. push_element-frames reader (family_of n) n) n file
      ∙ ap (λ z. file.frames ++ z)
          (gather-with_tags (λ n. frames_in (family_of n) n) (λ n. (build_frame n []).0)
            (codes "FRAME" ∷ codes "CAN-FRAME" ∷ []) (λ n. (family_of-Parts reader n).2)
            (nodes_of n));
  pdus_eq =
      build_subtree-gather reader (λ f. f.pdus) (λ n. pdus_in (family_of n) n)
        (λ n. push_element-pdus reader (family_of n) n) n file
      ∙ ap (λ z. file.pdus ++ z)
          (gather-with_tags (λ n. pdus_in (family_of n) n) (λ n. (build_pdu n []).0)
            (codes "PDU" ∷ codes "I-SIGNAL-I-PDU" ∷ []) (λ n. (family_of-Parts reader n).3)
            (nodes_of n));
  signals_eq =
      build_subtree-gather reader (λ f. f.signals) (λ n. signals_in reader (family_of n) n)
        (λ n. push_element-signals reader (family_of n) n) n file
      ∙ ap (λ z. file.signals ++ z)
          (gather-with_tags (λ n. signals_in reader (family_of n) n)
            (λ n. (build_signal reader n []).0) (codes "SYSTEM-SIGNAL" ∷ codes "I-SIGNAL" ∷ [])
            (λ n. (family_of-Parts reader n).4) (nodes_of n));
  signal_groups_eq =
      build_subtree-gather reader (λ f. f.signal_groups) (λ n. signal_groups_in (family_of n) n)
        (λ n. push_element-signal_groups reader (family_of n) n) n file
      ∙ ap (λ z. file.signal_groups ++ z)
          (gather-with_tags (λ n. signal_groups_in (family_of n) n)
            (λ n. (build_signal_group n []).0) (codes "SIGNAL-GROUP" ∷ codes "I-SIGNAL-GROUP" ∷ [])
            (λ n. (family_of-Parts reader n).5) (nodes_of n));
}
