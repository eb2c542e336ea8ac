-- ===== src/Export/Csv/Fields.antt =====
-- Reading back one field that `appendField` of libparsex/src/export/csv_writer.cpp has written.
use parse_x.Base.{
  ℕ, Bool, true, false, List, [], ◌∷◌, ◌++◌, ◌≡◌, refl, sym, ap, subst, ◌∙◌, inl, inr, arith, ◌==◌,
  ◌||◌, any, Bool-cases,
}
use mathlib.Core.List.{append_assoc, append-nil}
use parse_x.Base.Text.{Text}
use parse_x.Export.Csv.{is_special, doubled, append_field}
use parse_x.Export.Csv.Reader.{
  Mode, start, plain, quoted, after_quote, after_return, ReadState, at, read_mode, read_char,
  read_text,
}

pub read_text-append :
    (s : ReadState) (a b : Text) → read_text s (a ++ b) ≡ read_text (read_text s a) b
unfolding read_text
read_text-append s [] b = refl
read_text-append s (c ∷ a) b = read_text-append (read_char s c) a b

-- The modes in which a comma or the end of the row ends the field.
pub data IsReady : Mode → Type 0 where
  at_start : IsReady start
  in_plain : IsReady plain
  past_quote : IsReady after_quote

-- A field has been read, and what comes next ends it.
pub record HasRead (rows : List (List Text)) (cells : List Text) (field : Text) (s : ReadState)
    : Type 0 where
  pub rows_eq : s.rows ≡ rows
  pub cells_eq : s.cells ≡ cells
  pub field_eq : s.field ≡ field
  pub ready : IsReady s.mode

pub read_char-comma :
    (m : Mode) (rows : List (List Text)) (cells : List Text) (field : Text)
    → IsReady m
    → read_char (at m rows cells field) b',' ≡ at start rows (cells ++ field ∷ []) []
unfolding read_char read_mode
read_char-comma _ rows cells field at_start = refl
read_char-comma _ rows cells field in_plain = refl
read_char-comma _ rows cells field past_quote = refl

pub read_char-return :
    (m : Mode) (rows : List (List Text)) (cells : List Text) (field : Text)
    → IsReady m
    → read_char (at m rows cells field) 13 ≡ at after_return rows cells field
unfolding read_char read_mode
read_char-return _ rows cells field at_start = refl
read_char-return _ rows cells field in_plain = refl
read_char-return _ rows cells field past_quote = refl

-- The modes in which a letter that is not special is read on.
data IsOpenMode : Mode → Type 0 where
  open_start : IsOpenMode start
  open_plain : IsOpenMode plain

or-false : (a b : Bool) → (a || b) ≡ false → (a ≡ false) × (b ≡ false)
or-false a b h = ground arith

read_char-plain :
    (m : Mode) (rows : List (List Text)) (cells : List Text) (field : Text) (c : ℕ)
    → IsOpenMode m
    → is_special c ≡ false
    → read_char (at m rows cells field) c ≡ at plain rows cells (field ++ c ∷ [])
unfolding read_char read_mode
read_char-plain _ rows cells field c open_start h =
    let r = or-false (c == b',') _ h in
    let q = or-false (c == b'"') _ r.1 in
    let p = or-false (c == 13) (c == 10) q.1 in rw (q.0, r.0, p.0, p.1) refl
read_char-plain _ rows cells field c open_plain h =
    let r = or-false (c == b',') _ h in
    let q = or-false (c == b'"') _ r.1 in
    let p = or-false (c == 13) (c == 10) q.1 in rw (q.0, r.0, p.0, p.1) refl

snoc-append : (a : Text) (c : ℕ) (b : Text) → (a ++ c ∷ []) ++ b ≡ a ++ c ∷ b
snoc-append a c b = append_assoc a (c ∷ []) b

read_text-plain :
    (f : Text) (rows : List (List Text)) (cells : List Text) (a : Text)
    → any is_special f ≡ false
    → read_text (at plain rows cells a) f ≡ at plain rows cells (a ++ f)
unfolding read_text any
read_text-plain [] rows cells a h = ap (at plain rows cells) (sym (append-nil a))
read_text-plain (c ∷ f) rows cells a h =
    let r = or-false (is_special c) (any is_special f) h in
    ap (λ s. read_text s f) (read_char-plain plain rows cells a c open_plain r.0)
    ∙ read_text-plain f rows cells (a ++ c ∷ []) r.1
    ∙ ap (at plain rows cells) (snoc-append a c f)

read_char-letter :
    (c : ℕ)
    → (c == b'"') ≡ false
    → (rows : List (List Text)) (cells : List Text) (a : Text)
    → read_char (at quoted rows cells a) c ≡ at quoted rows cells (a ++ c ∷ [])
unfolding read_char read_mode
read_char-letter c e rows cells a = rw e refl

quote_twice :
    (c : ℕ)
    → (c == b'"') ≡ true
    → (rows : List (List Text)) (cells : List Text) (a : Text)
    → read_char (read_char (at quoted rows cells a) b'"') c ≡ at quoted rows cells (a ++ c ∷ [])
unfolding read_char read_mode
quote_twice c e rows cells a = rw e refl

read_text-doubled :
    (f : Text) (rows : List (List Text)) (cells : List Text) (a : Text)
    → read_text (at quoted rows cells a) (doubled f) ≡ at quoted rows cells (a ++ f)
unfolding read_text doubled
read_text-doubled [] rows cells a = ap (at quoted rows cells) (sym (append-nil a))
read_text-doubled (c ∷ f) rows cells a = elim (Bool-cases (c == b'"')) [
  | inl t ↦
      rw (doubled, t)
        (ap (λ s. read_text s (doubled f)) (quote_twice c t rows cells a)
          ∙ read_text-doubled f rows cells (a ++ c ∷ [])
          ∙ ap (at quoted rows cells) (snoc-append a c f))
  | inr e ↦
      rw (doubled, e)
        (ap (λ s. read_text s (doubled f)) (read_char-letter c e rows cells a)
          ∙ read_text-doubled f rows cells (a ++ c ∷ [])
          ∙ ap (at quoted rows cells) (snoc-append a c f))
]

HasRead-plain :
    (f : Text) (rows : List (List Text)) (cells : List Text)
    → any is_special f ≡ false
    → HasRead rows cells f (read_text (at start rows cells []) f)
unfolding read_text any
HasRead-plain [] rows cells h = record {
  rows_eq = refl;
  cells_eq = refl;
  field_eq = refl;
  ready = at_start;
}
HasRead-plain (c ∷ f) rows cells h =
    let r = or-false (is_special c) (any is_special f) h in
    subst (HasRead rows cells (c ∷ f))
      (sym (
        ap (λ s. read_text s f) (read_char-plain start rows cells [] c open_start r.0)
        ∙ read_text-plain f rows cells (c ∷ []) r.1))
      (record { rows_eq = refl; cells_eq = refl; field_eq = refl; ready = in_plain })

quotes :
    (f : Text) (rows : List (List Text)) (cells : List Text)
    → read_text (at start rows cells []) (b'"' ∷ (doubled f ++ b'"' ∷ []))
      ≡ at after_quote rows cells f
unfolding read_text read_char read_mode
quotes f rows cells =
    read_text-append (at quoted rows cells []) (doubled f) (b'"' ∷ [])
    ∙ ap (λ s. read_text s (b'"' ∷ [])) (read_text-doubled f rows cells [])

-- A written field is read as it was.
pub append_field-HasRead :
    (f : Text) (rows : List (List Text)) (cells : List Text)
    → HasRead rows cells f (read_text (at start rows cells []) (append_field f))
unfolding append_field
append_field-HasRead f rows cells = elim (Bool-cases (any is_special f)) [
  | inl t ↦
      rw (append_field, t)
        (subst (HasRead rows cells f) (sym (quotes f rows cells))
          (record { rows_eq = refl; cells_eq = refl; field_eq = refl; ready = past_quote }))
  | inr e ↦ rw (append_field, e) (HasRead-plain f rows cells e)
]
