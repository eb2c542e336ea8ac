-- ===== src/Builder/Elements.antt =====
-- The builders of the six families in libparsex/src/model_builder.cpp. Each takes the warnings
-- so far and gives them back with its own at the end.
use parse_x.Base.{
  ℕ, Bool, true, false, Option, none, some, List, [], ◌∷◌, ◌++◌, not, ◌&&◌, ◌||◌, if◌then◌else◌,
  is_empty, is_some, value_or, map, keep,
}
use parse_x.Base.Text.{Text, codes}
use parse_x.Base.Int.{ℤ, pos}
use parse_x.Model.{
  Double, CommonFields, ByteOrder, most_significant_byte_first, Cluster, EcuInstance,
  FramePduMapping, Frame, PduSignalMapping, Pdu, ValueTableEntry, Signal, SignalGroup, Warning,
}
use parse_x.Model.Raw.{RawSpan, RawNode, tag_name, text, span, children}
use parse_x.Builder.Numbers.{DoubleReader, parse_integer, parse_uint32, parse_double}
use parse_x.Builder.Nodes.{
  has_tag, find_child, find_descendant, child_text, trimmed_text, short_name_of_ref,
  parse_byte_order, is_signed_base_type, extract_short_name, ref_short_names, two_tags,
  channel_short_names, controller_short_names,
}

abbrev pub Warnings : Type 0
Warnings = List Warning

unfoldable pub warn_missing : Warnings → Text → RawSpan → Warnings
warn_missing warnings message span =
    warnings ++ record { message = message; location = some span } ∷ []

abbrev pub warn_if : Bool → Warnings → Text → RawSpan → Warnings
warn_if missing warnings message span =
    if missing then warn_missing warnings message span else warnings

unfoldable pub populate_common_fields : RawNode → Warnings → CommonFields × Warnings
populate_common_fields n warnings =
    let name = extract_short_name n in
    (
      record {
        short_name = name;
        category = child_text n (codes "CATEGORY");
        raw_span_ref = span n;
      },
      warn_if (is_empty name) warnings
          (codes "<" ++ (tag_name n ++ codes "> element has no SHORT-NAME")) (span n),
    )

-- "Frame 'name' has no length" and the like.
abbrev pub about : Text → Text → Text → Text
about kind name problem = kind ++ (codes " '" ++ (name ++ (codes "' " ++ problem)))

abbrev pub uint32_text : Option Text → ℕ → ℕ
uint32_text none fallback = fallback
uint32_text (some text) fallback = value_or (parse_uint32 text) fallback

unfoldable pub child_uint32 : RawNode → Text → ℕ → ℕ
child_uint32 n tag fallback = uint32_text (child_text n tag) fallback

abbrev pub or_else {ℓ} : {A : Type ℓ} → Option A → Option A → Option A
or_else none b = b
or_else (some a) b = some a

abbrev pub is_none {ℓ} : {A : Type ℓ} → Option A → Bool
is_none none = true
is_none (some a) = false

abbrev pub and_then {ℓ κ} : {A : Type ℓ} {B : Type κ} → Option A → (A → Option B) → Option B
and_then none f = none
and_then (some a) f = f a

-- A flat BAUDRATE, or the first below.
unfoldable pub found_baudrate : RawNode → Option Text
found_baudrate n =
    or_else (child_text n (codes "BAUDRATE")) (trimmed_text (find_descendant n (codes "BAUDRATE")))

unfoldable pub build_cluster : RawNode → Warnings → Cluster × Warnings
build_cluster n warnings =
    let (common, warnings_1) = populate_common_fields n warnings in
    (
      record {
        common = common;
        baudrate = and_then (found_baudrate n) parse_uint32;
        physical_channels = channel_short_names n;
      },
      warn_if (is_none (found_baudrate n)) warnings_1
          (about (codes "Cluster") common.short_name (codes "has no baudrate")) (span n),
    )

unfoldable pub build_ecu_instance : RawNode → Warnings → EcuInstance × Warnings
build_ecu_instance n warnings =
    let (common, warnings_1) = populate_common_fields n warnings in
    let channels = ref_short_names n (codes "CHANNEL-REF") in
    let controllers = controller_short_names n in
    (
      record { common = common; connected_channels = channels; controllers = controllers },
      warn_if (is_empty controllers && is_empty channels) warnings_1
          (about (codes "EcuInstance") common.short_name
            (codes "has no controllers and no connected channels"))
          (span n),
    )

abbrev pub ref_name : Option Text → Text
ref_name none = []
ref_name (some ref) = short_name_of_ref ref

unfoldable pub frame_pdu_mapping : RawNode → FramePduMapping
frame_pdu_mapping mapping = record {
  pdu_short_name_ref = ref_name (child_text mapping (codes "PDU-REF"));
  start_position = child_uint32 mapping (codes "START-POSITION") 0;
}

abbrev pub has_child : RawNode → Text → Bool
has_child n tag = is_some (find_child n tag)

unfoldable pub build_frame : RawNode → Warnings → Frame × Warnings
build_frame n warnings =
    let (common, warnings_1) = populate_common_fields n warnings in
    let has_length = has_child n (codes "LENGTH") || has_child n (codes "FRAME-LENGTH") in
    let warnings_2 =
      warn_if (not has_length) warnings_1
        (about (codes "Frame") common.short_name (codes "has no length")) (span n) in
    let pdus =
      map frame_pdu_mapping (two_tags n (codes "FRAME-PDU") (codes "PDU-TO-FRAME-MAPPING")) in
    (
      record {
        common = common;
        length = child_uint32 n (codes "LENGTH") (child_uint32 n (codes "FRAME-LENGTH") 0);
        transmitters = ref_short_names n (codes "TRANSMITTER-REF");
        pdus = pdus;
      },
      warn_if (is_empty pdus) warnings_2
          (about (codes "Frame") common.short_name (codes "has no PDU mappings")) (span n),
    )

-- The domain's default, or the byte order that a text gives.
abbrev pub byte_order_of : Option Text → ByteOrder
byte_order_of none = most_significant_byte_first
byte_order_of (some order) = parse_byte_order order

unfoldable pub pdu_signal_mapping : RawNode → PduSignalMapping
pdu_signal_mapping mapping = record {
  signal_short_name_ref = ref_name (
      or_else (child_text mapping (codes "SIGNAL-REF"))
        (child_text mapping (codes "I-SIGNAL-REF")));
  start_position = child_uint32 mapping (codes "START-POSITION") 0;
  byte_order = byte_order_of (
      or_else (child_text mapping (codes "BYTE-ORDER"))
        (child_text mapping (codes "PACKING-BYTE-ORDER")));
}

unfoldable pub build_pdu : RawNode → Warnings → Pdu × Warnings
build_pdu n warnings =
    let (common, warnings_1) = populate_common_fields n warnings in
    let warnings_2 =
      warn_if (not (has_child n (codes "LENGTH"))) warnings_1
        (about (codes "Pdu") common.short_name (codes "has no length")) (span n) in
    let mappings =
      map pdu_signal_mapping
        (two_tags n (codes "PDU-SIGNAL-MAPPING") (codes "I-SIGNAL-TO-I-PDU-MAPPING")) in
    (
      record {
        common = common;
        length = child_uint32 n (codes "LENGTH") 0;
        signal_mappings = mappings;
      },
      warn_if (is_empty mappings) warnings_2
          (about (codes "Pdu") common.short_name (codes "maps no signals")) (span n),
    )

abbrev integer_or_0 : Option Text → ℤ
integer_or_0 none = pos 0
integer_or_0 (some text) = value_or (parse_integer text) (pos 0)

unfoldable pub value_table_entry : RawNode → ValueTableEntry
value_table_entry child = record {
  value = integer_or_0 (child_text child (codes "VALUE"));
  label = value_or (child_text child (codes "LABEL")) [];
}

abbrev pub value_table_of : Option RawNode → Option (List ValueTableEntry)
value_table_of none = none
value_table_of (some table) =
    some (map value_table_entry (keep (has_tag (codes "VALUE-TABLE-ENTRY")) (children table)))

abbrev signed_of : Option RawNode → Bool
signed_of none = false
signed_of (some base_type_ref) = is_signed_base_type (text base_type_ref)

unfoldable pub init_value_of : DoubleReader → RawNode → Option Double
init_value_of reader n =
    and_then (find_child n (codes "INIT-VALUE"))
      (λ init. and_then (find_descendant init (codes "VALUE")) (λ v. parse_double reader (text v)))

-- The bit pattern of 1.0, a signal's factor unless it is set.
abbrev pub one : Double
one = 0x3ff0_0000_0000_0000

unfoldable pub build_signal : DoubleReader → RawNode → Warnings → Signal × Warnings
build_signal reader n warnings =
    let (common, warnings_1) = populate_common_fields n warnings in
    (
      record {
        common = common;
        start_bit = child_uint32 n (codes "START-BIT") 0;
        bit_length = child_uint32 n (codes "BIT-LENGTH") (child_uint32 n (codes "LENGTH") 0);
        byte_order = byte_order_of (child_text n (codes "BYTE-ORDER"));
        is_signed = signed_of (find_descendant n (codes "BASE-TYPE-REF"));
        factor = one;
        offset = 0;
        min = none;
        max = none;
        unit = none;
        init_value = init_value_of reader n;
        receivers = ref_short_names n (codes "RECEIVER-REF");
        value_table = value_table_of (find_child n (codes "VALUE-TABLE"));
      },
      warn_if (has_tag (codes "I-SIGNAL") n && not (has_child n (codes "LENGTH"))) warnings_1
          (about (codes "Signal") common.short_name (codes "has no bit length")) (span n),
    )

unfoldable pub build_signal_group : RawNode → Warnings → SignalGroup × Warnings
build_signal_group n warnings =
    let (common, warnings_1) = populate_common_fields n warnings in
    let members =
      ref_short_names n (codes "I-SIGNAL-REF") ++ ref_short_names n (codes "SYSTEM-SIGNAL-REF") in
    (
      record { common = common; members = members },
      warn_if (is_empty members) warnings_1
          (about (codes "SignalGroup") common.short_name (codes "has no members")) (span n),
    )
