-- ===== src/Model.antt =====
-- The common domain model (libparsex/include/parsex/model/*.hpp) and the raw tree behind it
-- (libparsex/include/parsex/raw/*.hpp). A `double` is kept as its 64-bit pattern, an `int` or a
-- `std::uint32_t` as a number below 2 ^ 32. A raw node's non-owning pointer to its parent is left
-- out: no modelled code follows it.
pub mod Raw
use parse_x.Base.{ℕ, Bool, Option, List}
use parse_x.Base.Text.{Text}
use parse_x.Base.Int.{ℤ}
use Raw.{RawSpan, RawNode}

abbrev pub Double : Type 0
Double = ℕ

pub record CommonFields : Type 0 where
  pub short_name : Text
  pub category : Option Text
  pub raw_span_ref : RawSpan

pub data ByteOrder : Type 0 where
  most_significant_byte_first least_significant_byte_first : ByteOrder

pub record Cluster : Type 0 where
  pub common : CommonFields
  pub baudrate : Option ℕ
  pub physical_channels : List Text

pub record EcuInstance : Type 0 where
  pub common : CommonFields
  pub connected_channels : List Text
  pub controllers : List Text

pub record FramePduMapping : Type 0 where
  pub pdu_short_name_ref : Text
  pub start_position : ℕ

pub record Frame : Type 0 where
  pub common : CommonFields
  pub length : ℕ
  pub transmitters : List Text
  pub pdus : List FramePduMapping

pub record PduSignalMapping : Type 0 where
  pub signal_short_name_ref : Text
  pub start_position : ℕ
  pub byte_order : ByteOrder

pub record Pdu : Type 0 where
  pub common : CommonFields
  pub length : ℕ
  pub signal_mappings : List PduSignalMapping

pub record ValueTableEntry : Type 0 where
  pub value : ℤ
  pub label : Text

pub record Signal : Type 0 where
  pub common : CommonFields
  pub start_bit : ℕ
  pub bit_length : ℕ
  pub byte_order : ByteOrder
  pub is_signed : Bool
  pub factor : Double
  pub offset : Double
  pub min : Option Double
  pub max : Option Double
  pub unit : Option Text
  pub init_value : Option Double
  pub receivers : List Text
  pub value_table : Option (List ValueTableEntry)

pub record SignalGroup : Type 0 where
  pub common : CommonFields
  pub members : List Text

pub record Warning : Type 0 where
  pub message : Text
  pub location : Option RawSpan

-- `raw_document` is the root of the document, where there is one.
pub record ParsedFile : Type 0 where
  pub autosar_release : Text
  pub source_path : Text
  pub clusters : List Cluster
  pub ecu_instances : List EcuInstance
  pub frames : List Frame
  pub pdus : List Pdu
  pub signals : List Signal
  pub signal_groups : List SignalGroup
  pub warnings : List Warning
  pub raw_document : Option RawNode

pub record ResolvedReference : Type 0 where
  pub target_short_name_path : Text

-- `resolved_refs` is a map from reference paths.
pub record ParsedProject : Type 0 where
  pub files : List ParsedFile
  pub resolved_refs : List (Text × ResolvedReference)
