-- ===== src/Diff/Fields.antt =====
-- Field by field comparison of two structs (diff_fields.hpp). `boost::pfr` gives the fields of an
-- aggregate in the order of their declaration: a struct is described by the names of its fields
-- and by a function that prints each.
pub mod Laws
use parse_x.Base.{
  ℕ, Bool, true, false, Option, none, some, List, [], ◌∷◌, ◌++◌, map, not, if◌then◌else◌,
}
use parse_x.Base.Text.{Text, codes, text_eq}
use parse_x.Base.Decimal.{to_string}
use parse_x.Base.Int.{int_to_string}
use parse_x.Model.{
  CommonFields, ByteOrder, most_significant_byte_first, least_significant_byte_first, Cluster,
  EcuInstance, FramePduMapping, Frame, PduSignalMapping, Pdu, ValueTableEntry, Signal, SignalGroup,
  Double,
}
use parse_x.Diff.Report.{FieldDiff}

-- The overloads of `diffValueToString`.
unfoldable pub bool_value : Bool → Text
bool_value true = codes "true"
bool_value false = codes "false"

unfoldable pub byte_order_value : ByteOrder → Text
byte_order_value most_significant_byte_first = codes "MostSignificantByteFirst"
byte_order_value least_significant_byte_first = codes "LeastSignificantByteFirst"

abbrev pub category_text : Option Text → Text
category_text none = codes "nullopt"
category_text (some c) = c

unfoldable pub common_value : CommonFields → Text
common_value c = codes "category=" ++ category_text c.category

unfoldable pub frame_pdu_mapping_value : FramePduMapping → Text
frame_pdu_mapping_value m = m.pdu_short_name_ref ++ (codes "@" ++ to_string m.start_position)

abbrev pub order_letter : ByteOrder → Text
order_letter most_significant_byte_first = codes "M"
order_letter least_significant_byte_first = codes "L"

unfoldable pub pdu_signal_mapping_value : PduSignalMapping → Text
pdu_signal_mapping_value m =
    m.signal_short_name_ref
    ++ (codes "@" ++ (to_string m.start_position ++ order_letter m.byte_order))

unfoldable pub value_table_entry_value : ValueTableEntry → Text
value_table_entry_value e = int_to_string e.value ++ (codes ":" ++ e.label)

module _ {ℓ} {A : Type ℓ} where
  unfoldable pub option_value : (A → Text) → Option A → Text
  option_value f none = codes "nullopt"
  option_value f (some a) = f a

  -- The items behind the first, each after ", ".
  unfoldable pub more_values : (A → Text) → List A → Text
  more_values f [] = codes "]"
  more_values f (x ∷ xs) = codes ", " ++ (f x ++ more_values f xs)

  unfoldable pub list_value : (A → Text) → List A → Text
  unfolding more_values
  list_value f [] = codes "[]"
  list_value f (x ∷ xs) = codes "[" ++ (f x ++ more_values f xs)

abbrev pub text_value : Text → Text
text_value v = v

-- `diffFieldNames` and the printed fields of a struct.
pub record Described {ℓ} (T : Type ℓ) : Type ℓ where
  pub names : List Text
  pub values : T → List Text

unfoldable pub cluster_fields : Described Cluster
unfolding common_value option_value list_value
cluster_fields = record {
  names = codes "common" ∷ codes "baudrate" ∷ codes "physicalChannels" ∷ [];
  values = λ c.
      common_value c.common
      ∷ option_value to_string c.baudrate
      ∷ list_value text_value c.physical_channels
      ∷ [];
}

unfoldable pub ecu_instance_fields : Described EcuInstance
unfolding common_value list_value
ecu_instance_fields = record {
  names = codes "common" ∷ codes "connectedChannels" ∷ codes "controllers" ∷ [];
  values = λ e.
      common_value e.common
      ∷ list_value text_value e.connected_channels
      ∷ list_value text_value e.controllers
      ∷ [];
}

unfoldable pub frame_pdu_mapping_fields : Described FramePduMapping
frame_pdu_mapping_fields = record {
  names = codes "pduShortNameRef" ∷ codes "startPosition" ∷ [];
  values = λ m. m.pdu_short_name_ref ∷ to_string m.start_position ∷ [];
}

unfoldable pub frame_fields : Described Frame
unfolding common_value list_value frame_pdu_mapping_value
frame_fields = record {
  names = codes "common" ∷ codes "length" ∷ codes "transmitters" ∷ codes "pdus" ∷ [];
  values = λ f.
      common_value f.common
      ∷ to_string f.length
      ∷ list_value text_value f.transmitters
      ∷ list_value frame_pdu_mapping_value f.pdus
      ∷ [];
}

unfoldable pub pdu_signal_mapping_fields : Described PduSignalMapping
unfolding byte_order_value
pdu_signal_mapping_fields = record {
  names = codes "signalShortNameRef" ∷ codes "startPosition" ∷ codes "byteOrder" ∷ [];
  values = λ m.
      m.signal_short_name_ref ∷ to_string m.start_position ∷ byte_order_value m.byte_order ∷ [];
}

unfoldable pub pdu_fields : Described Pdu
unfolding common_value list_value pdu_signal_mapping_value
pdu_fields = record {
  names = codes "common" ∷ codes "length" ∷ codes "signalMappings" ∷ [];
  values = λ p.
      common_value p.common
      ∷ to_string p.length
      ∷ list_value pdu_signal_mapping_value p.signal_mappings
      ∷ [];
}

unfoldable pub value_table_entry_fields : Described ValueTableEntry
value_table_entry_fields = record {
  names = codes "value" ∷ codes "label" ∷ [];
  values = λ e. int_to_string e.value ∷ e.label ∷ [];
}

unfoldable pub signal_names : List Text
signal_names =
    codes "common"
    ∷ codes "startBit"
    ∷ codes "bitLength"
    ∷ codes "byteOrder"
    ∷ codes "isSigned"
    ∷ codes "factor"
    ∷ codes "offset"
    ∷ codes "min"
    ∷ codes "max"
    ∷ codes "unit"
    ∷ codes "initValue"
    ∷ codes "receivers"
    ∷ codes "valueTable"
    ∷ []

-- `double_value` prints a floating-point number with 17 digits, as a stream does.
unfoldable pub signal_fields : (Double → Text) → Described Signal
unfolding signal_names common_value byte_order_value bool_value option_value list_value
    value_table_entry_value
signal_fields double_value = record {
  names = signal_names;
  values = λ s.
      common_value s.common
      ∷ to_string s.start_bit
      ∷ to_string s.bit_length
      ∷ byte_order_value s.byte_order
      ∷ bool_value s.is_signed
      ∷ double_value s.factor
      ∷ double_value s.offset
      ∷ option_value double_value s.min
      ∷ option_value double_value s.max
      ∷ option_value text_value s.unit
      ∷ option_value double_value s.init_value
      ∷ list_value text_value s.receivers
      ∷ option_value (list_value value_table_entry_value) s.value_table
      ∷ [];
}

unfoldable pub signal_group_fields : Described SignalGroup
unfolding common_value list_value
signal_group_fields = record {
  names = codes "common" ∷ codes "members" ∷ [];
  values = λ g. common_value g.common ∷ list_value text_value g.members ∷ [];
}

-- `diffStructImpl`: one entry for each field whose two texts differ.
unfoldable pub diff_struct_impl : List Text → List Text → List Text → List FieldDiff
diff_struct_impl (name ∷ names) (old ∷ olds) (new ∷ news) =
    let rest = diff_struct_impl names olds news in
    if not (text_eq old new)
    then record { field_name = name; old_value = old; new_value = new } ∷ rest
    else rest
diff_struct_impl _ _ _ = []

unfoldable pub diff_struct {ℓ} : {T : Type ℓ} → Described T → T → T → List FieldDiff
unfolding diff_struct_impl
diff_struct d old new = diff_struct_impl d.names (d.values old) (d.values new)
