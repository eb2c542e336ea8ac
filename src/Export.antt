-- ===== src/Export.antt =====
-- The export view of one file's network (libparsex/include/parsex/export/can_db.hpp). Its writers
-- are the child modules.
pub mod Csv
pub mod Dbc
use parse_x.Base.{ℕ, Bool, Option, List}
use parse_x.Base.Text.{Text}
use parse_x.Model.{Double, ByteOrder, ValueTableEntry, Warning}

pub record ExportSignal : Type 0 where
  pub name : Text
  pub start_bit : ℕ
  pub bit_length : ℕ
  pub byte_order : ByteOrder
  pub is_signed : Bool
  pub factor : Double
  pub offset : Double
  pub min : Option Double
  pub max : Option Double
  pub unit : Text
  pub init_value : Option Double
  pub receivers : List Text
  pub value_table : List ValueTableEntry

pub record ExportFrame : Type 0 where
  pub name : Text
  pub id : ℕ
  pub extended : Bool
  pub can_fd : Bool
  pub length : ℕ
  pub transmitters : List Text
  pub signals : List ExportSignal

pub record ExportDatabase : Type 0 where
  pub bus_name : Text
  pub baudrate : Option ℕ
  pub nodes : List Text
  pub frames : List ExportFrame
  pub warnings : List Warning
