-- ===== src/Export/Csv.antt =====
-- The CSV writer (libparsex/src/export/csv_writer.cpp). A function that appends to the output returns
-- what it appends. How `std::to_chars` prints a double is a parameter (`format_number`).
pub mod Reader
pub mod Fields
pub mod RoundTrip
use parse_x.Base.{
  ℕ, zero, suc, ◌+◌, ◌-◌, ◌/◌, ◌%◌, Bool, true, false, Option, none, some, List, [], ◌∷◌, ◌++◌,
  ◌==◌, ◌||◌, not, ltb, if◌then◌else◌, is_empty, any, map, replicate,
}
use parse_x.Base.Text.{Text, codes}
use parse_x.Base.Decimal.{to_string}
use parse_x.Base.Int.{int_to_string}
use parse_x.Model.{
  Double, ByteOrder, most_significant_byte_first, least_significant_byte_first, ValueTableEntry,
}
use parse_x.Export.{ExportSignal, ExportFrame, ExportDatabase}

abbrev pub is_special : ℕ → Bool
is_special c = c == b',' || (c == b'"' || (c == 13 || c == 10))

-- The letters of a quoted field.
unfoldable pub doubled : Text → Text
doubled [] = []
doubled (letter ∷ rest) =
    if letter == b'"' then b'"' ∷ letter ∷ doubled rest else letter ∷ doubled rest

unfoldable pub append_field : Text → Text
append_field field =
    if not (any is_special field) then field else b'"' ∷ (doubled field ++ b'"' ∷ [])

abbrev crlf : Text
crlf = 13 ∷ 10 ∷ []

-- The cells after the first, each behind its comma.
unfoldable pub append_cells : List Text → Text
append_cells [] = []
append_cells (cell ∷ cells) = b',' ∷ (append_field cell ++ append_cells cells)

unfoldable pub append_row : List Text → Text
append_row [] = crlf
append_row (cell ∷ cells) = append_field cell ++ (append_cells cells ++ crlf)

-- `joinSemicolon`, and the loop that it shares with `formatValueTable`: the separator is left out as
-- long as nothing is written.
unfoldable pub join_onto : Text → List Text → Text
join_onto out [] = out
join_onto out (item ∷ items) =
    join_onto ((if is_empty out then out else out ++ b';' ∷ []) ++ item) items

unfoldable pub join_semicolon : List Text → Text
join_semicolon items = join_onto [] items

abbrev entry_text : ValueTableEntry → Text
entry_text entry = int_to_string entry.value ++ (b'=' ∷ entry.label)

unfoldable pub format_value_table : List ValueTableEntry → Text
format_value_table table = join_onto [] (map entry_text table)

abbrev upper_hex_digit : ℕ → ℕ
upper_hex_digit d = if ltb d 10 then b'0' + d else 55 + d

-- `{:X}`: with `n < fuel` the division reaches one digit before the fuel is spent.
unfoldable pub hex_fuel : ℕ → ℕ → Text
hex_fuel zero n = []
hex_fuel (suc f) n =
    let rest = hex_fuel f (n / 16) in
    if ltb n 16 then upper_hex_digit n ∷ [] else rest ++ upper_hex_digit (n % 16) ∷ []

unfoldable pub format_hex : ℕ → Text
format_hex n = codes "0x" ++ hex_fuel (suc n) n

abbrev bool_text : Bool → Text
bool_text true = codes "true"
bool_text false = codes "false"

abbrev order_text : ByteOrder → Text
order_text most_significant_byte_first = codes "big_endian"
order_text least_significant_byte_first = codes "little_endian"

-- The columns of the header.
abbrev pub header_cells : List Text
header_cells =
    codes "frame"
    ∷ codes "frame_id"
    ∷ codes "extended"
    ∷ codes "can_fd"
    ∷ codes "length"
    ∷ codes "transmitters"
    ∷ codes "signal"
    ∷ codes "start_bit"
    ∷ codes "bit_length"
    ∷ codes "byte_order"
    ∷ codes "signed"
    ∷ codes "factor"
    ∷ codes "offset"
    ∷ codes "min"
    ∷ codes "max"
    ∷ codes "unit"
    ∷ codes "init_value"
    ∷ codes "receivers"
    ∷ codes "value_table"
    ∷ []

unfoldable pub k_header : Text
k_header =
    codes
      "frame,frame_id,extended,can_fd,length,transmitters,signal,start_bit,bit_length,byte_order,signed,factor,offset,min,max,unit,init_value,receivers,value_table"

-- The rows that the loop of `toCsv` appends.
unfoldable pub append_rows : List (List Text) → Text
append_rows [] = []
append_rows (row ∷ rows) = append_row row ++ append_rows rows

abbrev k_signal_columns : ℕ
k_signal_columns = 13

module _ (format_number : Double → Text) where
  abbrev format_optional : Option Double → Text
  format_optional none = []
  format_optional (some value) = format_number value

  unfoldable pub frame_cells : ExportFrame → List Text
  frame_cells frame =
      frame.name
      ∷ format_hex frame.id
      ∷ bool_text frame.extended
      ∷ bool_text frame.can_fd
      ∷ to_string frame.length
      ∷ join_semicolon frame.transmitters
      ∷ []

  unfoldable pub signal_cells : ExportSignal → List Text
  signal_cells signal =
      signal.name
      ∷ to_string signal.start_bit
      ∷ to_string signal.bit_length
      ∷ order_text signal.byte_order
      ∷ bool_text signal.is_signed
      ∷ format_number signal.factor
      ∷ format_number signal.offset
      ∷ format_optional signal.min
      ∷ format_optional signal.max
      ∷ signal.unit
      ∷ format_optional signal.init_value
      ∷ join_semicolon signal.receivers
      ∷ format_value_table signal.value_table
      ∷ []

  -- The rows of one frame: one of each signal, or one with blanks.
  abbrev pub rows_of_signals : List Text → List ExportSignal → List (List Text)
  rows_of_signals row [] = (row ++ replicate k_signal_columns []) ∷ []
  rows_of_signals row (signal ∷ signals) = map (λ s. row ++ signal_cells s) (signal ∷ signals)

  unfoldable pub frame_rows : ExportFrame → List (List Text)
  frame_rows frame = rows_of_signals (frame_cells frame) frame.signals

  unfoldable pub frames_rows : List ExportFrame → List (List Text)
  frames_rows [] = []
  frames_rows (frame ∷ frames) = frame_rows frame ++ frames_rows frames

  unfoldable pub to_csv : ExportDatabase → Text
  to_csv database = k_header ++ (crlf ++ append_rows (frames_rows database.frames))
