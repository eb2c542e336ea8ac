-- ===== src/Loader/Scanner/Units.antt =====
-- Units of raw markup: one byte, or two in UTF-16 (libparsex/src/loader.cpp).
use parse_x.Base.{
  ℕ, suc, ◌+◌, Bool, true, false, Option, none, some, [], ◌∷◌, ◌==◌, ◌||◌, ltb, if◌then◌else◌,
  get_elem?,
}
use parse_x.Base.Text.{Text}
use parse_x.Loader.Encoding.{RawEncodingClass, single_byte, utf16_le, utf16_be, unit_width}

abbrev pub ascii_byte : Option ℕ → Option ℕ
ascii_byte none = none
ascii_byte (some b) = if ltb b 128 then some b else none

-- The low byte, where the high one is 0.
abbrev pub low_byte : Option ℕ → Option ℕ → Option ℕ
low_byte (some low) (some high) = if high == 0 then some low else none
low_byte _ _ = none

-- `none` stands for -1: past the end, or no ASCII.
unfoldable pub unit_ascii : Text → RawEncodingClass → ℕ → Option ℕ
unit_ascii bytes single_byte scan_pos = ascii_byte (get_elem? bytes scan_pos)
unit_ascii bytes utf16_le scan_pos =
    low_byte (get_elem? bytes scan_pos) (get_elem? bytes (suc scan_pos))
unit_ascii bytes utf16_be scan_pos =
    low_byte (get_elem? bytes (suc scan_pos)) (get_elem? bytes scan_pos)

abbrev pub is_unit : Option ℕ → Option ℕ → Bool
is_unit none none = true
is_unit (some a) (some b) = a == b
is_unit _ _ = false

unfoldable pub unit_is : Text → RawEncodingClass → ℕ → ℕ → Bool
unit_is bytes encoding scan_pos expected =
    is_unit (unit_ascii bytes encoding scan_pos) (some expected)

unfoldable pub unit_is_space : Text → RawEncodingClass → ℕ → Bool
unit_is_space bytes encoding scan_pos =
    let code = unit_ascii bytes encoding scan_pos in
    is_unit code (some 32)
    || (is_unit code (some 9) || (is_unit code (some 13) || is_unit code (some 10)))

-- The units from `scan_pos` on are those of the literal.
unfoldable pub match_literal : Text → RawEncodingClass → ℕ → Text → Bool
match_literal bytes encoding scan_pos [] = true
match_literal bytes encoding scan_pos (c ∷ literal) =
    if unit_is bytes encoding scan_pos c
    then match_literal bytes encoding (scan_pos + unit_width encoding) literal
    else false
