-- ===== src/Export/Csv/RoundTrip.antt =====
-- Reading back what the CSV writer (libparsex/src/export/csv_writer.cpp) writes.
use parse_x.Base.{some, List, [], ◌∷◌, ◌++◌, ◌≡◌, ◌≢◌, refl, sym, ap, ◌∙◌, any, All, map}
use mathlib.Core.List.{append_assoc, append-nil}
use parse_x.Base.Text.{Text}
use parse_x.Model.{Double}
use parse_x.Export.{ExportSignal, ExportFrame, ExportDatabase}
use parse_x.Export.Csv.{
  append_field, append_cells, append_row, append_rows, crlf, header_cells, k_header, frame_cells,
  signal_cells, frame_rows, frames_rows, rows_of_signals, to_csv,
}
use parse_x.Export.Csv.Reader.{
  start, after_return, ReadState, at, read_mode, read_char, read_text, complete_rows, read_csv,
}
use parse_x.Export.Csv.Fields.{
  read_text-append, read_char-comma, read_char-return, HasRead, append_field-HasRead,
}

after_comma :
    {rows : List (List Text)} {cells : List Text} {f : Text} (s : ReadState)
    → HasRead rows cells f s
    → read_char s b',' ≡ at start rows (cells ++ f ∷ []) []
after_comma s h =
    read_char-comma s.mode s.rows s.cells s.field h.ready
    ∙ (rw (h.rows_eq, h.cells_eq, h.field_eq) refl)

after_end :
    {rows : List (List Text)} {cells : List Text} {f : Text} (s : ReadState)
    → HasRead rows cells f s
    → read_text s crlf ≡ at start (rows ++ (cells ++ f ∷ []) ∷ []) [] []
unfolding read_text
after_end s h =
    ap (λ t. read_char t 10)
      (read_char-return s.mode s.rows s.cells s.field h.ready
        ∙ (rw (h.rows_eq, h.cells_eq, h.field_eq) refl))
    ∙ end_row _ _ _
  where
    end_row :
        (rows : List (List Text)) (cells : List Text) (f : Text)
        → read_char (at after_return rows cells f) 10
          ≡ at start (rows ++ (cells ++ f ∷ []) ∷ []) [] []
    end_row rows cells f = unfold read_char read_mode in refl

-- The cells of a row from the second on, and the end of the row.
read_text-cells :
    (rest : List Text) (rows : List (List Text)) (cells : List Text) (f : Text)
    → read_text (at start rows cells []) (append_field f ++ (append_cells rest ++ crlf))
      ≡ at start (rows ++ (cells ++ f ∷ rest) ∷ []) [] []
unfolding append_cells
read_text-cells [] rows cells f =
    read_text-append (at start rows cells []) (append_field f) crlf
    ∙ after_end (read_text (at start rows cells []) (append_field f))
        (append_field-HasRead f rows cells)
read_text-cells (g ∷ rest) rows cells f =
    read_text-append (at start rows cells []) (append_field f) _
    ∙ next (append_field g ++ append_cells rest)
    ∙ ap (read_text (at start rows (cells ++ f ∷ []) []))
        (append_assoc (append_field g) (append_cells rest) crlf)
    ∙ read_text-cells rest rows (cells ++ f ∷ []) g
    ∙ ap (λ z. at start (rows ++ z ∷ []) [] []) (append_assoc cells (f ∷ []) (g ∷ rest))
  where
    next :
        (t : Text)
        → read_text (read_text (at start rows cells []) (append_field f)) (b',' ∷ (t ++ crlf))
          ≡ read_text (at start rows (cells ++ f ∷ []) []) (t ++ crlf)
    next t =
        unfold read_text in
        ap (λ s. read_text s (t ++ crlf)) (after_comma _ (append_field-HasRead f rows cells))

abbrev IsRow : List Text → Type 0
IsRow row = row ≢ []

read_text-row :
    (row : List Text) (rows : List (List Text))
    → IsRow row
    → read_text (at start rows [] []) (append_row row) ≡ at start (rows ++ row ∷ []) [] []
unfolding append_row
read_text-row [] rows h = absurd (h refl)
read_text-row (cell ∷ cells) rows h = read_text-cells cells rows [] cell

read_text-rows :
    (rs rows : List (List Text))
    → All IsRow rs
    → read_text (at start rows [] []) (append_rows rs) ≡ at start (rows ++ rs) [] []
unfolding append_rows read_text
read_text-rows [] rows h = ap (λ z. at start z [] []) (sym (append-nil rows))
read_text-rows (row ∷ rs) rows h =
    read_text-append (at start rows [] []) (append_row row) (append_rows rs)
    ∙ ap (λ s. read_text s (append_rows rs)) (read_text-row row rows h.0)
    ∙ read_text-rows rs (rows ++ row ∷ []) h.1
    ∙ ap (λ z. at start z [] []) (append_assoc rows (row ∷ []) rs)

All-append {ℓ κ} :
    {A : Type ℓ} (P : A → Type κ) (xs ys : List A) → All P xs → All P ys → All P (xs ++ ys)
All-append P [] ys h k = k
All-append P (x ∷ xs) ys h k = (h.0, All-append P xs ys h.1 k)

cons-ne_nil {ℓ} : {A : Type ℓ} (x : A) (xs : List A) → (x ∷ xs) ≢ []
cons-ne_nil x xs e = absurd (cc)

module _ (format_number : Double → Text) where
  All-signals :
      (frame : ExportFrame) (signals : List ExportSignal)
      → All IsRow
          (map (λ s. frame_cells format_number frame ++ signal_cells format_number s) signals)
  unfolding frame_cells
  All-signals frame [] = tt
  All-signals frame (s ∷ signals) = (cons-ne_nil _ _, All-signals frame signals)

  frame_rows-All :
      (frame : ExportFrame) (signals : List ExportSignal)
      → All IsRow (rows_of_signals format_number (frame_cells format_number frame) signals)
  unfolding frame_cells
  frame_rows-All frame [] = (cons-ne_nil _ _, tt)
  frame_rows-All frame (s ∷ signals) = All-signals frame (s ∷ signals)

  frames_rows-All : (frames : List ExportFrame) → All IsRow (frames_rows format_number frames)
  unfolding frames_rows frame_rows
  frames_rows-All [] = tt
  frames_rows-All (frame ∷ frames) =
      All-append IsRow (frame_rows format_number frame) (frames_rows format_number frames)
        (frame_rows-All frame frame.signals) (frames_rows-All frames)

  header : (rest : Text) → k_header ++ (crlf ++ rest) ≡ append_row header_cells ++ rest
  unfolding k_header append_row append_cells append_field any
  header rest = refl

  header-IsRow : IsRow header_cells
  header-IsRow = cons-ne_nil _ _

  -- Whatever the texts of the database are, reading the CSV file as RFC 4180 has it gives the header
  -- and the rows back, cell by cell, as they were before quoting.
  pub read_csv-to_csv :
      (database : ExportDatabase)
      → read_csv (to_csv format_number database)
        ≡ some (header_cells ∷ frames_rows format_number database.frames)
  unfolding read_csv to_csv append_rows
  read_csv-to_csv database =
      ap (λ s. complete_rows s.mode s.rows s.cells s.field)
        (ap (read_text (at start [] [] []))
            (header (append_rows (frames_rows format_number database.frames)))
          ∙ read_text-rows (header_cells ∷ frames_rows format_number database.frames) []
              (header-IsRow, frames_rows-All database.frames))
