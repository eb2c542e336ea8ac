-- ===== src/Tests/OfValidator.antt =====
-- The theorems of the validator at concrete projects.
use parse_x.Base.{
  ℕ, ◌+◌, ◌≤◌, ◌<◌, true, Option, none, some, ap, [], ◌∷◌, ◌≡◌, ◌≢◌, ◌↔◌, subst, arith, In, here,
  there,
}
use parse_x.Base.Text.{codes, text_eq}
use parse_x.Base.Map.{find}
use parse_x.Base.Map.Emplace.{first_with}
use parse_x.Model.{
  least_significant_byte_first, most_significant_byte_first, Signal, PduSignalMapping, Pdu,
  ParsedFile, ParsedProject,
}
use parse_x.Model.Raw.{RawNode, nil, cons}
use parse_x.Validator.{warning, ValidationError, ValidationResult, lenient, strict, overall_passed}
use parse_x.Validator.Can.{physical_bits_for_signal, validate_can_semantics}
use parse_x.Validator.Can.Bits.{flip_in_byte, place, In-physical_bits_for_signal_iff}
use parse_x.Validator.Can.Taken.{IsLow}
use parse_x.Validator.Can.Silent.{
  signal_named, IsLowPdu, IsSoundFile, validate_can_semantics-silent,
}
use parse_x.Validator.References.{
  RefSite, dangling, build_reference_path_index, validate_references,
}
use parse_x.Validator.References.Index.{all_definitions, find-build_reference_path_index}
use parse_x.Validator.References.Exact.{IsReference, target_path, Fault, validate_references-exact}
use parse_x.Validator.Uniqueness.{validate_uniqueness}
use parse_x.Validator.Uniqueness.Silent.{Counted, HasUniqueNames, validate_uniqueness-silent}
use parse_x.Validator.Facade.{validate_all, Finds, overall_passed-validate_all}
use parse_x.Tests.{common_of, signal_of, mapping_of, file_of, project_of, named, reference}

-- A PDU of two bytes with an Intel signal and a Motorola signal that overlap.
abbrev pdu : Pdu
pdu = record {
  common = common_of (codes "P");
  length = 2;
  signal_mappings =
      mapping_of (codes "S") 0 least_significant_byte_first
      ∷ mapping_of (codes "T") 7 most_significant_byte_first
      ∷ [];
}

-- A package with two PDUs of one name and a reference to nothing.
abbrev root : RawNode
root = named (codes "AR-PACKAGE") (codes "Pkg") (
    cons (named (codes "PDU") (codes "P") nil) (
      cons (named (codes "PDU") (codes "P") nil)
        (cons (reference (codes "/Pkg/Q") (codes "PDU")) nil)))

abbrev project : ParsedProject
project = project_of (
    file_of [] (pdu ∷ []) (signal_of (codes "S") 8 ∷ signal_of (codes "T") 4 ∷ []) (some root) ∷ [])

only_pdu : (file : ParsedFile) (p : Pdu) → In file project.files → In p file.pdus → p ≡ pdu
only_pdu file p (here e) i = elim (subst (λ (f : ParsedFile). In p f.pdus) e i) [
  | here q ↦ q
  | there j ↦ elim j [ ]
]
only_pdu file p (there i) j = elim i [ ]

low_pdu : IsLowPdu (signal_of (codes "S") 8 ∷ signal_of (codes "T") 4 ∷ []) pdu
unfolding first_with text_eq flip_in_byte
low_pdu = record { payload = omega arith; mappings = low }
  where
    bits_inj : {s t : Signal} → some s ≡ some t → s.bit_length ≡ t.bit_length
    bits_inj e = ap bits_of_some e
      where
        bits_of_some : Option Signal → ℕ
        bits_of_some none = 0
        bits_of_some (some s) = s.bit_length

    low :
        (m : PduSignalMapping)
        → In m pdu.signal_mappings
        → IsLow (signal_named (signal_of (codes "S") 8 ∷ signal_of (codes "T") 4 ∷ [])) m
    low m (here e) = rw e (λ s h. omega (arith, bits_inj h))
    low m (there (here e)) = rw e (λ s h. omega (arith, bits_inj h))
    low m (there (there i)) = elim i [ ]

low_pdus :
    (file : ParsedFile) (p : Pdu) → In file project.files → In p file.pdus → IsLowPdu file.signals p
low_pdus file p (here e) i = rw e (rw (only_pdu file p (here e) i) low_pdu)
low_pdus file p (there i) j = elim i [ ]

validate_can_semantics-silent_example :
    ((validate_can_semantics project).errors ≡ [])
    ↔ ((file : ParsedFile) → In file project.files → IsSoundFile file)
validate_can_semantics-silent_example = validate_can_semantics-silent project low_pdus

In-physical_bits_for_IsSignal-iff_example :
    In 14 (physical_bits_for_signal most_significant_byte_first 1 4) ↔ (
      (place most_significant_byte_first 1 ≤ place most_significant_byte_first 14)
      × (place most_significant_byte_first 14 < place most_significant_byte_first 1 + 4))
unfolding flip_in_byte
In-physical_bits_for_IsSignal-iff_example =
    In-physical_bits_for_signal_iff most_significant_byte_first 1 4 14 (omega arith) (omega arith)

abbrev finding : ValidationError
finding = dangling (reference (codes "/Pkg/Q") (codes "PDU")) (codes "/Pkg/Q")

validate_references-exact_example :
    In finding (validate_references project).errors
    ↔ (site : RefSite) × IsReference project.files site
      × (target_path site ≢ [])
      × Fault (all_definitions project.files) site finding
validate_references-exact_example = validate_references-exact project finding

find-build_reference_path_index_example :
    find (codes "/Pkg/P") (build_reference_path_index project)
    ≡ find (codes "/Pkg/P") (all_definitions project.files)
find-build_reference_path_index_example = find-build_reference_path_index (codes "/Pkg/P") project

validate_uniqueness-silent_example : ((validate_uniqueness project).errors ≡ []) ↔ (
    (file : ParsedFile) (top n : RawNode)
    → In file project.files
    → file.raw_document ≡ some top
    → Counted n top
    → HasUniqueNames n)
validate_uniqueness-silent_example = validate_uniqueness-silent project

-- A schema check that accepts every file.
abbrev accept : ParsedFile → ValidationResult
accept file = record { errors = [] }

overall_passed-validate_all_example :
    (overall_passed (validate_all accept project) strict ≡ true)
    ↔ ((e : ValidationError) → Finds accept project e → (strict ≡ lenient) × (e.severity ≡ warning))
overall_passed-validate_all_example = overall_passed-validate_all accept project strict
