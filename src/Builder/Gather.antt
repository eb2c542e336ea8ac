-- ===== src/Builder/Gather.antt =====
-- A part of the file that the walk of `buildSubtree` (libparsex/src/parser.cpp) extends at each node,
-- and what one node gives each of the six families.
use parse_x.Base.{List, [], ◌∷◌, ◌++◌, ◌≡◌, refl, ap, sym, ◌∙◌}
use mathlib.Core.List.{append_assoc, append-nil}
use parse_x.Model.{Cluster, EcuInstance, Frame, Pdu, Signal, SignalGroup, ParsedFile}
use parse_x.Model.Raw.{RawNode, RawNodes, node, nil, cons}
use parse_x.Builder.{
  Family, cluster, ecu_instance, frame, pdu, signal, signal_group, family_of, push_element,
  build_subtree, build_subtrees,
}
use parse_x.Builder.Order.{nodes_of, nodes_below}
use parse_x.Builder.Numbers.{DoubleReader}
use parse_x.Builder.Elements.{
  populate_common_fields, build_cluster, build_ecu_instance, build_frame, build_pdu, build_signal,
  build_signal_group,
}

-- A list of lists in a row.
unfoldable pub gather {ℓ κ} : {A : Type ℓ} {B : Type κ} → (A → List B) → List A → List B
gather f [] = []
gather f (x ∷ xs) = f x ++ gather f xs

gather-append {ℓ κ} :
    {A : Type ℓ} {B : Type κ} (f : A → List B) (xs ys : List A)
    → gather f (xs ++ ys) ≡ gather f xs ++ gather f ys
unfolding gather
gather-append f [] ys = refl
gather-append f (x ∷ xs) ys =
    ap (λ z. f x ++ z) (gather-append f xs ys) ∙ sym (append_assoc (f x) _ _)

-- A part of the file that each node adds to at its end.
module _ {ℓ} {B : Type ℓ} (reader : DoubleReader) (pick : ParsedFile → List B)
    (part : RawNode → List B)
    (push : (n : RawNode) (file : ParsedFile)
      → pick (push_element reader (family_of n) n file) ≡ pick file ++ part n) where
  mutual
    unfolding build_subtree build_subtrees nodes_of nodes_below gather

    pub build_subtree-gather :
        (n : RawNode) (file : ParsedFile)
        → pick (build_subtree reader n file) ≡ pick file ++ gather part (nodes_of n)
    build_subtree-gather (node t a x s c) file =
        build_subtrees-gather c
          (push_element reader (family_of (node t a x s c)) (node t a x s c) file)
        ∙ ap (λ z. z ++ gather part (nodes_below c)) (push (node t a x s c) file)
        ∙ append_assoc (pick file) (part (node t a x s c)) _

    build_subtrees-gather :
        (c : RawNodes) (file : ParsedFile)
        → pick (build_subtrees reader c file) ≡ pick file ++ gather part (nodes_below c)
    build_subtrees-gather nil file = sym (append-nil (pick file))
    build_subtrees-gather (cons child rest) file =
        build_subtrees-gather rest (build_subtree reader child file)
        ∙ ap (λ z. z ++ gather part (nodes_below rest)) (build_subtree-gather child file)
        ∙ append_assoc (pick file) _ _
        ∙ ap (λ z. pick file ++ z) (sym (gather-append part (nodes_of child) (nodes_below rest)))

-- What one node gives each family.
unfoldable pub clusters_in : Family → RawNode → List Cluster
clusters_in cluster n = (build_cluster n []).0 ∷ []
clusters_in _ n = []

pub push_element-clusters :
    (reader : DoubleReader) (f : Family) (n : RawNode) (file : ParsedFile)
    → (push_element reader f n file).clusters ≡ file.clusters ++ clusters_in f n
unfolding push_element clusters_in build_cluster populate_common_fields
push_element-clusters reader cluster n file = refl
push_element-clusters reader _ n file = sym (append-nil file.clusters)

unfoldable pub ecu_instances_in : Family → RawNode → List EcuInstance
ecu_instances_in ecu_instance n = (build_ecu_instance n []).0 ∷ []
ecu_instances_in _ n = []

pub push_element-ecu_instances :
    (reader : DoubleReader) (f : Family) (n : RawNode) (file : ParsedFile)
    → (push_element reader f n file).ecu_instances ≡ file.ecu_instances ++ ecu_instances_in f n
unfolding push_element ecu_instances_in build_ecu_instance populate_common_fields
push_element-ecu_instances reader ecu_instance n file = refl
push_element-ecu_instances reader _ n file = sym (append-nil file.ecu_instances)

unfoldable pub frames_in : Family → RawNode → List Frame
frames_in frame n = (build_frame n []).0 ∷ []
frames_in _ n = []

pub push_element-frames :
    (reader : DoubleReader) (f : Family) (n : RawNode) (file : ParsedFile)
    → (push_element reader f n file).frames ≡ file.frames ++ frames_in f n
unfolding push_element frames_in build_frame populate_common_fields
push_element-frames reader frame n file = refl
push_element-frames reader _ n file = sym (append-nil file.frames)

unfoldable pub pdus_in : Family → RawNode → List Pdu
pdus_in pdu n = (build_pdu n []).0 ∷ []
pdus_in _ n = []

pub push_element-pdus :
    (reader : DoubleReader) (f : Family) (n : RawNode) (file : ParsedFile)
    → (push_element reader f n file).pdus ≡ file.pdus ++ pdus_in f n
unfolding push_element pdus_in build_pdu populate_common_fields
push_element-pdus reader pdu n file = refl
push_element-pdus reader _ n file = sym (append-nil file.pdus)

unfoldable pub signals_in : DoubleReader → Family → RawNode → List Signal
signals_in reader signal n = (build_signal reader n []).0 ∷ []
signals_in reader _ n = []

pub push_element-signals :
    (reader : DoubleReader) (f : Family) (n : RawNode) (file : ParsedFile)
    → (push_element reader f n file).signals ≡ file.signals ++ signals_in reader f n
unfolding push_element signals_in build_signal populate_common_fields
push_element-signals reader signal n file = refl
push_element-signals reader _ n file = sym (append-nil file.signals)

unfoldable pub signal_groups_in : Family → RawNode → List SignalGroup
signal_groups_in signal_group n = (build_signal_group n []).0 ∷ []
signal_groups_in _ n = []

pub push_element-signal_groups :
    (reader : DoubleReader) (f : Family) (n : RawNode) (file : ParsedFile)
    → (push_element reader f n file).signal_groups ≡ file.signal_groups ++ signal_groups_in f n
unfolding push_element signal_groups_in build_signal_group populate_common_fields
push_element-signal_groups reader signal_group n file = refl
push_element-signal_groups reader _ n file = sym (append-nil file.signal_groups)
