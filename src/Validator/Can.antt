-- ===== src/Validator/Can.antt =====
-- CAN semantics (validator_can.cpp): payload lengths, and the bits that the signals of a PDU take.
-- An `int` is its 32-bit pattern, negative from 2 ^ 31 on: the casts from `std::uint32_t` keep the
-- pattern. Where the C++ sum of two `int`s would overflow, the pattern wraps around here.
pub mod Bits
pub mod Length
pub mod Occupied
pub mod Layout
pub mod Taken
pub mod Silent
use parse_x.Base.{
  ℕ, zero, suc, ◌+◌, ◌-◌, ◌*◌, ◌%◌, ◌^◌, Bool, true, false, Option, none, some, List, [], ◌∷◌, ◌++◌,
  not, ◌&&◌, ◌||◌, ◌==◌, ltb, leb, if◌then◌else◌, is_empty, get_elem?, set, replicate, any,
}
use parse_x.Base.Text.{Text, codes, text_eq}
use parse_x.Base.Decimal.{to_string}
use parse_x.Base.Map.{Map, find, emplace_all}
use parse_x.Model.{
  ByteOrder, most_significant_byte_first, least_significant_byte_first, Frame, PduSignalMapping,
  Pdu, Signal, ParsedFile, ParsedProject,
}
use parse_x.Model.Raw.{RawSpan}
use parse_x.Validator.{ValidationError, ValidationResult, error}

abbrev pub int_mod : ℕ
int_mod = 2 ^ 32

abbrev pub is_negative : ℕ → Bool
is_negative n = leb (2 ^ 31) n

abbrev pub dlc_table : List ℕ
dlc_table = 0 ∷ 1 ∷ 2 ∷ 3 ∷ 4 ∷ 5 ∷ 6 ∷ 7 ∷ 8 ∷ 12 ∷ 16 ∷ 20 ∷ 24 ∷ 32 ∷ 48 ∷ 64 ∷ []

unfoldable pub can_fd_bytes_for_dlc : ℕ → Option ℕ
can_fd_bytes_for_dlc dlc = if is_negative dlc || ltb 15 dlc then none else get_elem? dlc_table dlc

unfoldable pub is_valid_classic_can_length : ℕ → Bool
is_valid_classic_can_length length = leb length 8

-- The cases of the `switch`.
unfoldable pub is_valid_can_fd_length : ℕ → Bool
is_valid_can_fd_length length =
    length == 0
    || length == 1
    || length == 2
    || length == 3
    || length == 4
    || length == 5
    || length == 6
    || length == 7
    || length == 8
    || length == 12
    || length == 16
    || length == 20
    || length == 24
    || length == 32
    || length == 48
    || length == 64

-- Do the two guards of the bit functions give an empty list?
abbrev pub no_bits : ℕ → ℕ → Bool
no_bits start_bit bit_length = is_negative start_bit || (bit_length == 0 || is_negative bit_length)

-- The loop from `idx` on, with `rounds` rounds to go.
unfoldable pub intel_bits : ℕ → ℕ → ℕ → List ℕ
intel_bits start_bit idx zero = []
intel_bits start_bit idx (suc rounds) =
    ((start_bit + idx) % int_mod) ∷ intel_bits start_bit (idx + 1) rounds

unfoldable pub physical_bits_for_intel_signal : ℕ → ℕ → List ℕ
unfolding intel_bits
physical_bits_for_intel_signal start_bit bit_length =
    if no_bits start_bit bit_length then [] else intel_bits start_bit 0 bit_length

-- From the lowest bit of a byte to the highest of the next, else one bit down.
unfoldable pub next_motorola_bit : ℕ → ℕ
next_motorola_bit pos = if pos % 8 == 0 then (pos + 15) % int_mod else (pos + int_mod - 1) % int_mod

unfoldable pub motorola_bits : ℕ → ℕ → List ℕ
unfolding next_motorola_bit
motorola_bits pos zero = []
motorola_bits pos (suc rounds) = pos ∷ motorola_bits (next_motorola_bit pos) rounds

unfoldable pub physical_bits_for_motorola_signal : ℕ → ℕ → List ℕ
unfolding motorola_bits
physical_bits_for_motorola_signal start_bit bit_length =
    if no_bits start_bit bit_length then [] else motorola_bits start_bit bit_length

unfoldable pub physical_bits_for_signal : ByteOrder → ℕ → ℕ → List ℕ
unfolding physical_bits_for_intel_signal physical_bits_for_motorola_signal
physical_bits_for_signal least_significant_byte_first start_bit bit_length =
    physical_bits_for_intel_signal start_bit bit_length
physical_bits_for_signal most_significant_byte_first start_bit bit_length =
    physical_bits_for_motorola_signal start_bit bit_length

abbrev pub dlc_mismatch : Text → Text → ℕ → RawSpan → ValidationError
dlc_mismatch kind name length span = record {
  severity = error;
  code = codes "can.dlc_mismatch";
  message =
      kind
      ++ (codes " '"
          ++ (name
              ++ (codes "' declares payload length "
                  ++ (to_string length
                      ++ codes
                          " bytes, which is neither valid classic CAN (0..8) nor valid CAN FD (0..8, 12, 16, 20, 24, 32, 48, 64)"))));
  location = some span;
  path = none;
  expected_type = none;
  actual_type = none;
}

-- The findings that the check appends.
unfoldable pub check_payload_length : Text → Text → ℕ → RawSpan → List ValidationError
unfolding is_valid_classic_can_length is_valid_can_fd_length
check_payload_length kind name length span =
    if is_valid_classic_can_length length || is_valid_can_fd_length length
    then []
    else dlc_mismatch kind name length span ∷ []

-- `std::to_string` of an `int`.
abbrev pub int_text : ℕ → Text
int_text n = if is_negative n then b'-' ∷ to_string (int_mod - n) else to_string n

abbrev pub out_of_range : Pdu → PduSignalMapping → ℕ → ValidationError
out_of_range pdu mapping bit = record {
  severity = error;
  code = codes "can.signal_out_of_range";
  message =
      codes "signal '"
      ++ (mapping.signal_short_name_ref
          ++ (codes "' bit "
              ++ (int_text bit
                  ++ (codes " exceeds PDU '"
                      ++ (pdu.common.short_name
                          ++ (codes "' payload ("
                              ++ (to_string pdu.length ++ codes " bytes)")))))));
  location = some pdu.common.raw_span_ref;
  path = some mapping.signal_short_name_ref;
  expected_type = none;
  actual_type = none;
}

abbrev pub overlap : Pdu → PduSignalMapping → Text → ℕ → ValidationError
overlap pdu mapping owner bit = record {
  severity = error;
  code = codes "can.signal_overlap";
  message =
      codes "signals '"
      ++ (owner
          ++ (codes "' and '"
              ++ (mapping.signal_short_name_ref
                  ++ (codes "' overlap in PDU '"
                      ++ (pdu.common.short_name ++ (codes "' at bit " ++ int_text bit))))));
  location = some pdu.common.raw_span_ref;
  path = some pdu.common.short_name;
  expected_type = none;
  actual_type = some mapping.signal_short_name_ref;
}

abbrev pub Occupancy : Type 0
Occupancy = List (Option Text)

-- The owner of the bit, if it is another signal than the one named.
abbrev pub other_owner : Text → Option Text → Option Text
other_owner name none = none
other_owner name (some owner) = if text_eq owner name then none else some owner

-- The inner loop: the bits of one mapping are claimed up to the first that is out of range or taken.
-- `at` cannot throw, since the bit is in range then.
unfoldable pub claim_bits :
    Pdu → PduSignalMapping → ℕ → List ℕ → Occupancy → Occupancy × List ValidationError
claim_bits pdu mapping pdu_bits [] occupancy = (occupancy, [])
claim_bits pdu mapping pdu_bits (bit ∷ bits) occupancy =
    let name = mapping.signal_short_name_ref in
    let rest = claim_bits pdu mapping pdu_bits bits (set occupancy bit (some name)) in
    if is_negative bit || leb pdu_bits bit
    then (occupancy, out_of_range pdu mapping bit ∷ [])
    else elim (get_elem? occupancy bit) [
      | none ↦ (occupancy, [])
      | some owner ↦ elim (other_owner name owner) [
        | some taken ↦ (occupancy, overlap pdu mapping taken bit ∷ [])
        | none ↦ rest
      ]
    ]

-- The bits of a mapping; without a signal, or with one of no length, the loop goes on.
unfoldable pub mapping_bits : Map Signal → PduSignalMapping → List ℕ
unfolding find physical_bits_for_signal
mapping_bits signals mapping = elim (find mapping.signal_short_name_ref signals) [
  | none ↦ []
  | some signal ↦
      if signal.bit_length == 0
      then []
      else physical_bits_for_signal mapping.byte_order mapping.start_position signal.bit_length
]

unfoldable pub check_mappings :
    Pdu → Map Signal → ℕ → List PduSignalMapping → Occupancy → List ValidationError
unfolding mapping_bits claim_bits
check_mappings pdu signals pdu_bits [] occupancy = []
check_mappings pdu signals pdu_bits (mapping ∷ mappings) occupancy =
    let claimed = claim_bits pdu mapping pdu_bits (mapping_bits signals mapping) occupancy in
    claimed.1 ++ check_mappings pdu signals pdu_bits mappings claimed.0

unfoldable pub check_signal_overlap : Pdu → Map Signal → List ValidationError
unfolding check_mappings
check_signal_overlap pdu signals =
    let pdu_bits = pdu.length * 8 in
    if pdu_bits == 0 || is_empty pdu.signal_mappings
    then []
    else check_mappings pdu signals pdu_bits pdu.signal_mappings (replicate pdu_bits none)

unfoldable pub check_frames : List Frame → List ValidationError
unfolding check_payload_length
check_frames [] = []
check_frames (frame ∷ frames) =
    check_payload_length (codes "Frame") frame.common.short_name frame.length
      frame.common.raw_span_ref
    ++ check_frames frames

unfoldable pub check_pdus : Map Signal → List Pdu → List ValidationError
unfolding check_payload_length check_signal_overlap
check_pdus signals [] = []
check_pdus signals (pdu ∷ pdus) =
    check_payload_length (codes "Pdu") pdu.common.short_name pdu.length pdu.common.raw_span_ref
    ++ (check_signal_overlap pdu signals ++ check_pdus signals pdus)

abbrev pub signals_by_name : ParsedFile → Map Signal
signals_by_name file = emplace_all (λ s. s.common.short_name) (λ s. s) [] file.signals

unfoldable pub check_files : List ParsedFile → List ValidationError
unfolding check_frames check_pdus emplace_all
check_files [] = []
check_files (file ∷ files) =
    check_frames file.frames ++ (check_pdus (signals_by_name file) file.pdus ++ check_files files)

unfoldable pub validate_can_semantics : ParsedProject → ValidationResult
unfolding check_files
validate_can_semantics project = record { errors = check_files project.files }
