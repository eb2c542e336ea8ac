-- ===== src/Tests/OfExport.antt =====
-- The writers on a database with one frame, whose texts have to be quoted.
use parse_x.Base.{ℕ, ◌^◌, ◌<◌, ◌≤◌, true, false, none, some, List, [], ◌∷◌, ◌++◌, ◌≡◌, ◌↔◌, arith}
use parse_x.Base.Text.{Text, codes}
use parse_x.Model.{Double, least_significant_byte_first}
use parse_x.Export.{ExportSignal, ExportFrame, ExportDatabase}
use parse_x.Export.Csv.{header_cells, frames_rows, to_csv}
use parse_x.Export.Csv.Reader.{read_csv}
use parse_x.Export.Csv.RoundTrip.{read_csv-to_csv}
use parse_x.Export.Dbc.{ident, quoted, dbc_id}
use parse_x.Export.Dbc.Names.{IsIdentifier, ident-IsIdentifier}
use parse_x.Export.Dbc.Quoting.{read_quoted, read_quoted-quoted}
use parse_x.Export.Dbc.Ids.{dbc_id-injective}

abbrev speed : ExportSignal
speed = record {
  name = codes "Speed, \"wheel\"";
  start_bit = 0;
  bit_length = 16;
  byte_order = least_significant_byte_first;
  is_signed = false;
  factor = 1;
  offset = 0;
  min = none;
  max = none;
  unit = codes "km/h";
  init_value = none;
  receivers = codes "A" ∷ codes "B" ∷ [];
  value_table = [];
}

abbrev frame_with : ℕ → List ExportSignal → ExportFrame
frame_with id signals = record {
  name = codes "2 Brake";
  id = id;
  extended = true;
  can_fd = false;
  length = 8;
  transmitters = [];
  signals = signals;
}

abbrev database : ExportDatabase
database = record {
  bus_name = [];
  baudrate = none;
  nodes = [];
  frames = frame_with 291 (speed ∷ []) ∷ frame_with 5 [] ∷ [];
  warnings = [];
}

abbrev print_one : Double → Text
print_one d = codes "1"

read_csv-to_csv_example :
    read_csv (to_csv print_one database)
    ≡ some (header_cells ∷ frames_rows print_one database.frames)
read_csv-to_csv_example = read_csv-to_csv print_one database

ident-IsIdentifier_example :
    IsIdentifier (ident (codes "2 Brake"))
    × ((ident (codes "2 Brake") ≡ codes "2 Brake") ↔ IsIdentifier (codes "2 Brake"))
ident-IsIdentifier_example = ident-IsIdentifier (codes "2 Brake")

read_quoted-quoted_example :
    read_quoted (quoted (codes "a\"b") ++ codes " rest") ≡ some (codes "a\"b", codes " rest")
read_quoted-quoted_example = read_quoted-quoted (codes "a\"b") (codes " rest")

dbc_id-injective_example :
    ((dbc_id (frame_with 291 []) < 2 ^ 32)
      × ((2 ^ 31 ≤ dbc_id (frame_with 291 [])) ↔ ((frame_with 291 []).extended ≡ true)))
    × (dbc_id (frame_with 291 []) ≡ dbc_id (frame_with 5 [])
        → ((frame_with 291 []).extended ≡ (frame_with 5 []).extended)
          × ((frame_with 291 []).id ≡ (frame_with 5 []).id))
dbc_id-injective_example =
    dbc_id-injective (frame_with 291 []) (frame_with 5 []) (omega arith) (omega arith)
