-- ===== src/Export/Csv/Reader.antt =====
-- A reader of RFC 4180 text, as a machine that takes one character at a time. It describes the
-- format independently of the writer.
use parse_x.Base.{ℕ, Option, none, some, List, [], ◌∷◌, ◌++◌, ◌==◌, if◌then◌else◌}
use parse_x.Base.Text.{Text}

pub data Mode : Type 0 where
  start plain quoted after_quote after_return failed : Mode

-- The cells of the row and the letters of the field that are being read, after the rows before.
pub record ReadState : Type 0 where
  pub mode : Mode
  pub rows : List (List Text)
  pub cells : List Text
  pub field : Text

abbrev pub at : Mode → List (List Text) → List Text → Text → ReadState
at mode rows cells field = record { mode = mode; rows = rows; cells = cells; field = field }

-- A field ends at a comma or a carriage return; another character is read on, or not allowed.
abbrev pub field_end : Mode → ℕ → List (List Text) → List Text → Text → ReadState
field_end otherwise c rows cells field =
    if c == b','
    then at start rows (cells ++ field ∷ []) []
    else (if c == 13
        then at after_return rows cells field
        else (if c == 10
            then at failed rows cells field
            else at otherwise rows cells (field ++ c ∷ [])))

unfoldable pub read_mode : Mode → ℕ → List (List Text) → List Text → Text → ReadState
read_mode start c rows cells field =
    if c == b'"' then at quoted rows cells field else field_end plain c rows cells field
read_mode plain c rows cells field =
    if c == b'"' then at failed rows cells field else field_end plain c rows cells field
read_mode quoted c rows cells field =
    if c == b'"' then at after_quote rows cells field else at quoted rows cells (field ++ c ∷ [])
read_mode after_quote c rows cells field =
    if c == b'"'
    then at quoted rows cells (field ++ c ∷ [])
    else field_end failed c rows cells field
read_mode after_return c rows cells field =
    if c == 10
    then at start (rows ++ (cells ++ field ∷ []) ∷ []) [] []
    else at failed rows cells field
read_mode failed c rows cells field = at failed rows cells field

unfoldable pub read_char : ReadState → ℕ → ReadState
read_char s c = read_mode s.mode c s.rows s.cells s.field

unfoldable pub read_text : ReadState → Text → ReadState
read_text s [] = s
read_text s (c ∷ text) = read_text (read_char s c) text

-- The rows, if the text ends with the end of a row.
abbrev pub complete_rows : Mode → List (List Text) → List Text → Text → Option (List (List Text))
complete_rows start rows [] [] = some rows
complete_rows _ rows cells field = none

unfoldable pub read_csv : Text → Option (List (List Text))
read_csv text =
    let s = read_text (at start [] [] []) text in complete_rows s.mode s.rows s.cells s.field
