-- ===== src/Builder.antt =====
-- The domain model of a raw tree (libparsex/src/model_builder.cpp) and the walk that fills a file
-- with it (`buildSubtree` of libparsex/src/parser.cpp).
pub mod Numbers
pub mod Nodes
pub mod Elements
pub mod Order
pub mod Gather
pub mod Families
pub mod Warnings
pub mod Complete
pub mod Silent
use parse_x.Base.{List, [], ◌∷◌, ◌++◌, Bool, true, false, ◌||◌, if◌then◌else◌}
use parse_x.Base.Text.{codes, text_eq}
use parse_x.Model.{ParsedFile}
use parse_x.Model.Raw.{RawNode, RawNodes, node, nil, cons}
use Numbers.{DoubleReader}
use Nodes.{has_tag}
use Elements.{
  build_cluster, build_ecu_instance, build_frame, build_pdu, build_signal, build_signal_group,
}

-- The family of a node, by its tag.
pub data Family : Type 0 where
  cluster ecu_instance frame pdu signal signal_group other : Family

unfoldable pub family_of : RawNode → Family
family_of n =
    if has_tag (codes "CLUSTER") n || has_tag (codes "CAN-CLUSTER") n
    then cluster
    else (if has_tag (codes "ECU-INSTANCE") n
        then ecu_instance
        else (if has_tag (codes "FRAME") n || has_tag (codes "CAN-FRAME") n
            then frame
            else (if has_tag (codes "PDU") n || has_tag (codes "I-SIGNAL-I-PDU") n
                then pdu
                else (if has_tag (codes "SYSTEM-SIGNAL") n || has_tag (codes "I-SIGNAL") n
                    then signal
                    else (if has_tag (codes "SIGNAL-GROUP") n || has_tag (codes "I-SIGNAL-GROUP") n
                        then signal_group
                        else other)))))

-- What `push_back` of the built element makes of the file.
unfoldable pub push_element : DoubleReader → Family → RawNode → ParsedFile → ParsedFile
push_element reader cluster n file =
    let (built, warnings) = build_cluster n file.warnings in
    record file { clusters = file.clusters ++ built ∷ []; warnings = warnings }
push_element reader ecu_instance n file =
    let (built, warnings) = build_ecu_instance n file.warnings in
    record file { ecu_instances = file.ecu_instances ++ built ∷ []; warnings = warnings }
push_element reader frame n file =
    let (built, warnings) = build_frame n file.warnings in
    record file { frames = file.frames ++ built ∷ []; warnings = warnings }
push_element reader pdu n file =
    let (built, warnings) = build_pdu n file.warnings in
    record file { pdus = file.pdus ++ built ∷ []; warnings = warnings }
push_element reader signal n file =
    let (built, warnings) = build_signal reader n file.warnings in
    record file { signals = file.signals ++ built ∷ []; warnings = warnings }
push_element reader signal_group n file =
    let (built, warnings) = build_signal_group n file.warnings in
    record file { signal_groups = file.signal_groups ++ built ∷ []; warnings = warnings }
push_element reader other n file = file

unfoldable mutual
  pub build_subtree : DoubleReader → RawNode → ParsedFile → ParsedFile
  build_subtree reader (node t a x s c) file =
      let n = node t a x s c in build_subtrees reader c (push_element reader (family_of n) n file)

  pub build_subtrees : DoubleReader → RawNodes → ParsedFile → ParsedFile
  build_subtrees reader nil file = file
  build_subtrees reader (cons child rest) file =
      build_subtrees reader rest (build_subtree reader child file)
