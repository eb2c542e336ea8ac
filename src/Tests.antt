-- ===== src/Tests.antt =====
-- Small projects on which the theorems are applied: one module for the diff, one for the validator.
pub mod OfDiff
pub mod OfValidator
pub mod OfResolve
pub mod OfBuilder
pub mod OfLoader
pub mod OfExport
pub mod OfDiscovery
pub mod OfParser
use parse_x.Base.{ℕ, Bool, false, Option, none, some, List, [], ◌∷◌}
use parse_x.Base.Text.{Text, codes}
use parse_x.Model.{
  CommonFields, ByteOrder, least_significant_byte_first, most_significant_byte_first,
  FramePduMapping, Frame, PduSignalMapping, Pdu, Signal, ParsedFile, ParsedProject,
}
use parse_x.Model.Raw.{RawSpan, RawNode, RawNodes, node, nil, cons}

abbrev pub span_1 : RawSpan
span_1 = record { start_offset = 0; end_offset = 9; line_number = 1 }

abbrev pub common_of : Text → CommonFields
common_of name = record { short_name = name; category = none; raw_span_ref = span_1 }

abbrev pub frame_of : Text → List Text → List FramePduMapping → Frame
frame_of name transmitters pdus = record {
  common = common_of name;
  length = 8;
  transmitters = transmitters;
  pdus = pdus;
}

abbrev pub signal_of : Text → ℕ → Signal
signal_of name bit_length = record {
  common = common_of name;
  start_bit = 0;
  bit_length = bit_length;
  byte_order = least_significant_byte_first;
  is_signed = false;
  factor = 0;
  offset = 0;
  min = none;
  max = none;
  unit = none;
  init_value = none;
  receivers = [];
  value_table = none;
}

abbrev pub mapping_of : Text → ℕ → ByteOrder → PduSignalMapping
mapping_of name start order = record {
  signal_short_name_ref = name;
  start_position = start;
  byte_order = order;
}

abbrev pub file_of : List Frame → List Pdu → List Signal → Option RawNode → ParsedFile
file_of frames pdus signals document = record {
  autosar_release = codes "4.3";
  source_path = codes "a.arxml";
  clusters = [];
  ecu_instances = [];
  frames = frames;
  pdus = pdus;
  signals = signals;
  signal_groups = [];
  warnings = [];
  raw_document = document;
}

abbrev pub project_of : List ParsedFile → ParsedProject
project_of files = record { files = files; resolved_refs = [] }

-- An element with a short name, and an element with a reference.
abbrev pub named : Text → Text → RawNodes → RawNode
named tag name rest =
    node tag [] [] span_1 (cons (node (codes "SHORT-NAME") [] name span_1 nil) rest)

abbrev pub reference : Text → Text → RawNode
reference path dest = node (codes "PDU-REF") ((codes "DEST", dest) ∷ []) path span_1 nil
