-- ===== src/Export/Dbc.antt =====
-- The DBC writer (libparsex/src/export/dbc_writer.cpp). A function that appends to the output returns
-- what it appends. How `std::to_chars` prints a double is a parameter (`num`).
pub mod Names
pub mod Quoting
pub mod Ids
use parse_x.Base.{
  ℕ, zero, suc, ◌+◌, Bool, true, false, Option, none, some, List, [], ◌∷◌, ◌++◌, ◌==◌, ◌||◌, ◌&&◌,
  ltb, leb, if◌then◌else◌, is_empty, any, map, value_or,
}
use parse_x.Base.Text.{Text, codes}
use parse_x.Base.Decimal.{to_string}
use parse_x.Base.Int.{int_to_string}
use parse_x.Model.{
  Double, ByteOrder, most_significant_byte_first, least_significant_byte_first, ValueTableEntry,
}
use parse_x.Export.{ExportSignal, ExportFrame, ExportDatabase}

abbrev pub k_extended_flag : ℕ
k_extended_flag = 0x8000_0000

abbrev k_no_node : Text
k_no_node = codes "Vector__XXX"

abbrev k_new_symbols : List Text
k_new_symbols =
    codes "NS_DESC_"
    ∷ codes "CM_"
    ∷ codes "BA_DEF_"
    ∷ codes "BA_"
    ∷ codes "VAL_"
    ∷ codes "CAT_DEF_"
    ∷ codes "CAT_"
    ∷ codes "FILTER"
    ∷ codes "BA_DEF_DEF_"
    ∷ codes "EV_DATA_"
    ∷ codes "ENVVAR_DATA_"
    ∷ codes "SGTYPE_"
    ∷ codes "SGTYPE_VAL_"
    ∷ codes "BA_DEF_SGTYPE_"
    ∷ codes "BA_SGTYPE_"
    ∷ codes "SIG_TYPE_REF_"
    ∷ codes "VAL_TABLE_"
    ∷ codes "SIG_GROUP_"
    ∷ codes "SIG_VALTYPE_"
    ∷ codes "SIGTYPE_VALTYPE_"
    ∷ codes "BO_TX_BU_"
    ∷ codes "BA_DEF_REL_"
    ∷ codes "BA_REL_"
    ∷ codes "BA_DEF_DEF_REL_"
    ∷ codes "BU_SG_REL_"
    ∷ codes "BU_EV_REL_"
    ∷ codes "BU_BO_REL_"
    ∷ codes "SG_MUL_VAL_"
    ∷ []

abbrev pub is_decimal : ℕ → Bool
is_decimal c = leb b'0' c && leb c b'9'

-- The letters that a name may have.
abbrev pub is_valid : ℕ → Bool
is_valid c =
    (leb b'a' c && leb c b'z') || ((leb b'A' c && leb c b'Z') || (is_decimal c || c == b'_'))

abbrev pub valid_letter : ℕ → ℕ
valid_letter c = if is_valid c then c else b'_'

-- A name that is empty or begins with a digit gets a '_' in front.
abbrev pub with_front : Text → Text
with_front [] = b'_' ∷ []
with_front (c ∷ out) = if is_decimal c then b'_' ∷ c ∷ out else c ∷ out

unfoldable pub ident : Text → Text
ident name = with_front (map valid_letter name)

-- The letters between the quotes.
unfoldable pub escaped : Text → Text
escaped [] = []
escaped (letter ∷ rest) =
    if letter == b'"' || letter == 92 then 92 ∷ letter ∷ escaped rest else letter ∷ escaped rest

unfoldable pub quoted : Text → Text
quoted text = b'"' ∷ (escaped text ++ b'"' ∷ [])

unfoldable pub idents_onto : Text → ℕ → List Text → Text
idents_onto out separator [] = out
idents_onto out separator (name ∷ names) =
    idents_onto ((if is_empty out then out else out ++ separator ∷ []) ++ ident name) separator
      names

unfoldable pub join_idents : List Text → ℕ → Text
join_idents names separator =
    let out = idents_onto [] separator names in if is_empty out then k_no_node else out

-- Bit 31 of a `std::uint32_t`, set.
abbrev pub or_flag : ℕ → ℕ
or_flag id = if ltb id k_extended_flag then id + k_extended_flag else id

unfoldable pub dbc_id : ExportFrame → ℕ
dbc_id frame = if frame.extended then or_flag frame.id else frame.id

unfoldable pub frame_format : ExportFrame → ℕ
frame_format frame =
    if frame.can_fd then (if frame.extended then 15 else 14) else (if frame.extended then 1 else 0)

abbrev line_end : Text
line_end = 10 ∷ []

-- Texts in a row.
abbrev row : List Text → Text
row [] = []
row (part ∷ parts) = part ++ row parts

-- What a loop over the elements appends.
unfoldable pub for_each {ℓ} : {A : Type ℓ} → (A → Text) → List A → Text
for_each line [] = []
for_each line (x ∷ xs) = line x ++ for_each line xs

abbrev order_digit : ByteOrder → Text
order_digit least_significant_byte_first = b'1' ∷ []
order_digit most_significant_byte_first = b'0' ∷ []

module _ (num : Double → Text) where
  unfoldable pub append_signal : ExportSignal → Text
  append_signal signal = row (
      codes " SG_ "
      ∷ ident signal.name
      ∷ codes " : "
      ∷ to_string signal.start_bit
      ∷ codes "|"
      ∷ to_string signal.bit_length
      ∷ codes "@"
      ∷ order_digit signal.byte_order
      ∷ (if signal.is_signed then codes "-" else codes "+")
      ∷ codes " ("
      ∷ num signal.factor
      ∷ codes ","
      ∷ num signal.offset
      ∷ codes ") ["
      ∷ num (value_or signal.min 0)
      ∷ codes "|"
      ∷ num (value_or signal.max 0)
      ∷ codes "] "
      ∷ quoted signal.unit
      ∷ codes " "
      ∷ join_idents signal.receivers b','
      ∷ line_end
      ∷ [])

abbrev format_line : ExportFrame → Text
format_line frame =
    if frame_format frame == 0
    then []
    else row (
        codes "BA_ \"VFrameFormat\" BO_ "
        ∷ to_string (dbc_id frame)
        ∷ codes " "
        ∷ to_string (frame_format frame)
        ∷ codes ";"
        ∷ line_end
        ∷ [])

abbrev reserved : ℕ → Text
reserved zero = []
reserved (suc n) = codes ",\"reserved\"" ++ reserved n

unfoldable pub append_fd_attributes : ExportDatabase → Text
append_fd_attributes database = row (
    codes "BA_DEF_ BO_ \"VFrameFormat\" ENUM \"StandardCAN\",\"ExtendedCAN\""
    ∷ reserved 12
    ∷ codes ",\"StandardCAN_FD\",\"ExtendedCAN_FD\";"
    ∷ line_end
    ∷ codes "BA_DEF_ \"BusType\" STRING ;"
    ∷ line_end
    ∷ codes "BA_DEF_DEF_ \"VFrameFormat\" \"StandardCAN\";"
    ∷ line_end
    ∷ codes "BA_DEF_DEF_ \"BusType\" \"CAN\";"
    ∷ line_end
    ∷ codes "BA_ \"BusType\" \"CAN FD\";"
    ∷ line_end
    ∷ for_each format_line database.frames
    ∷ line_end
    ∷ [])

abbrev front_ident : List Text → Text
front_ident [] = k_no_node
front_ident (name ∷ names) = ident name

unfoldable pub message : (Double → Text) → ExportFrame → Text
message num frame = row (
    codes "BO_ "
    ∷ to_string (dbc_id frame)
    ∷ codes " "
    ∷ ident frame.name
    ∷ codes ": "
    ∷ to_string frame.length
    ∷ codes " "
    ∷ front_ident frame.transmitters
    ∷ line_end
    ∷ for_each (append_signal num) frame.signals
    ∷ line_end
    ∷ [])

-- More than one transmitter.
abbrev has_many : ExportFrame → Bool
has_many frame = several frame.transmitters
  where
    several : List Text → Bool
    several (a ∷ b ∷ rest) = true
    several _ = false

unfoldable pub transmitter_line : ExportFrame → Text
transmitter_line frame =
    if has_many frame
    then row (
        codes "BO_TX_BU_ "
        ∷ to_string (dbc_id frame)
        ∷ codes " : "
        ∷ join_idents frame.transmitters b','
        ∷ codes ";"
        ∷ line_end
        ∷ [])
    else []

abbrev value_text : ValueTableEntry → Text
value_text entry = row (codes " " ∷ int_to_string entry.value ∷ codes " " ∷ quoted entry.label ∷ [])

unfoldable pub value_line : ExportFrame → ExportSignal → Text
value_line frame signal =
    if is_empty signal.value_table
    then []
    else row (
        codes "VAL_ "
        ∷ to_string (dbc_id frame)
        ∷ codes " "
        ∷ ident signal.name
        ∷ for_each value_text signal.value_table
        ∷ codes " ;"
        ∷ line_end
        ∷ [])

unfoldable pub to_dbc : (Double → Text) → ExportDatabase → Text
to_dbc num database = row (
    codes "VERSION \"\""
    ∷ line_end
    ∷ line_end
    ∷ codes "NS_ :"
    ∷ line_end
    ∷ for_each (λ keyword. 9 ∷ (keyword ++ line_end)) k_new_symbols
    ∷ line_end
    ∷ codes "BS_:"
    ∷ line_end
    ∷ line_end
    ∷ codes "BU_:"
    ∷ for_each (λ name. 32 ∷ ident name) database.nodes
    ∷ line_end
    ∷ line_end
    ∷ for_each (message num) database.frames
    ∷ for_each transmitter_line database.frames
    ∷ (if any has_many database.frames then line_end else [])
    ∷ (if any (λ f. f.can_fd) database.frames then append_fd_attributes database else [])
    ∷ for_each (λ frame. for_each (value_line frame) frame.signals) database.frames
    ∷ [])
