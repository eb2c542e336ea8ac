-- ===== src/Builder/Warnings.antt =====
-- What the builders (libparsex/src/model_builder.cpp) add to the warnings, which no warning
-- before it changes.
use parse_x.Base.{[], ◌∷◌, ◌++◌, Bool, true, false, ◌≡◌, refl, ap, sym, ◌∙◌, ◌↔◌}
use mathlib.Core.List.{append_assoc, append-nil}
use parse_x.Base.Text.{Text}
use parse_x.Model.{ParsedFile}
use parse_x.Model.Raw.{RawSpan, RawNode}
use parse_x.Builder.{
  Family, cluster, ecu_instance, frame, pdu, signal, signal_group, other, family_of, push_element,
  build_subtree,
}
use parse_x.Builder.Order.{nodes_of}
use parse_x.Builder.Numbers.{DoubleReader}
use parse_x.Builder.Gather.{gather, build_subtree-gather}
use parse_x.Builder.Elements.{
  Warnings, warn_missing, warn_if, populate_common_fields, build_cluster, build_ecu_instance,
  build_frame, build_pdu, build_signal, build_signal_group,
}

-- A function that adds at the end and does not look at what stands before.
record IsShift (f : Warnings → Warnings) : Type 0 where
  shift : (ws own : Warnings) → f (ws ++ own) ≡ ws ++ f own

IsShift-warn_if : (b : Bool) (m : Text) (s : RawSpan) → IsShift (λ ws. warn_if b ws m s)
unfolding warn_missing
IsShift-warn_if true m s = record { shift = λ ws own. append_assoc ws own _ }
IsShift-warn_if false m s = record { shift = λ ws own. refl }

IsShift-then : {f g : Warnings → Warnings} → IsShift f → IsShift g → IsShift (λ ws. g (f ws))
IsShift-then {f} {g} p q = record { shift = λ ws own. ap g (p.shift ws own) ∙ q.shift ws (f own) }

IsShift-populate : (n : RawNode) → IsShift (λ ws. (populate_common_fields n ws).1)
unfolding populate_common_fields
IsShift-populate n = IsShift-warn_if _ _ _

-- The warnings of one node.
unfoldable pub warnings_in : DoubleReader → Family → RawNode → Warnings
warnings_in reader cluster n = (build_cluster n []).1
warnings_in reader ecu_instance n = (build_ecu_instance n []).1
warnings_in reader frame n = (build_frame n []).1
warnings_in reader pdu n = (build_pdu n []).1
warnings_in reader signal n = (build_signal reader n []).1
warnings_in reader signal_group n = (build_signal_group n []).1
warnings_in reader other n = []

own : {f : Warnings → Warnings} → IsShift f → (ws : Warnings) → f ws ≡ ws ++ f []
own {f} p ws = ap f (sym (append-nil ws)) ∙ p.shift ws []

push_element-warnings :
    (reader : DoubleReader) (f : Family) (n : RawNode) (file : ParsedFile)
    → (push_element reader f n file).warnings ≡ file.warnings ++ warnings_in reader f n
unfolding push_element warnings_in build_cluster build_ecu_instance build_frame build_pdu
    build_signal build_signal_group populate_common_fields
push_element-warnings reader cluster n file =
    own (IsShift-then (IsShift-populate n) (IsShift-warn_if _ _ _)) file.warnings
push_element-warnings reader ecu_instance n file =
    own (IsShift-then (IsShift-populate n) (IsShift-warn_if _ _ _)) file.warnings
push_element-warnings reader frame n file =
    own
      (IsShift-then (IsShift-then (IsShift-populate n) (IsShift-warn_if _ _ _))
        (IsShift-warn_if _ _ _))
      file.warnings
push_element-warnings reader pdu n file =
    own
      (IsShift-then (IsShift-then (IsShift-populate n) (IsShift-warn_if _ _ _))
        (IsShift-warn_if _ _ _))
      file.warnings
push_element-warnings reader signal n file =
    own (IsShift-then (IsShift-populate n) (IsShift-warn_if _ _ _)) file.warnings
push_element-warnings reader signal_group n file =
    own (IsShift-then (IsShift-populate n) (IsShift-warn_if _ _ _)) file.warnings
push_element-warnings reader other n file = sym (append-nil file.warnings)

pub build_subtree-warnings :
    (reader : DoubleReader) (n : RawNode) (file : ParsedFile)
    → (build_subtree reader n file).warnings
      ≡ file.warnings ++ gather (λ m. warnings_in reader (family_of m) m) (nodes_of n)
build_subtree-warnings reader n file =
    build_subtree-gather reader (λ f. f.warnings) (λ m. warnings_in reader (family_of m) m)
      (λ m. push_element-warnings reader (family_of m) m) n file

pub warn_if-nil :
    (b : Bool) (ws : Warnings) (m : Text) (s : RawSpan)
    → (warn_if b ws m s ≡ []) ↔ ((ws ≡ []) × (b ≡ false))
unfolding warn_missing
warn_if-nil true [] m s = (λ h. absurd (cc), λ h. absurd (cc))
warn_if-nil true (w ∷ ws) m s = (λ h. absurd (cc), λ h. absurd (cc))
warn_if-nil false ws m s = (λ h. (h, refl), λ h. h.0)
