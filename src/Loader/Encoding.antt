-- ===== src/Loader/Encoding.antt =====
-- The class of a file's encoding, from its raw bytes (libparsex/src/loader.cpp).
use parse_x.Base.{
  ℕ, zero, suc, Bool, true, false, Option, none, some, [], ◌∷◌, ◌==◌, ◌||◌, not, if◌then◌else◌,
}
use parse_x.Base.Text.{Text, codes, drop_while}
use parse_x.Builder.Nodes.{ascii_upper_copy}

pub data RawEncodingClass : Type 0 where
  single_byte utf16_le utf16_be : RawEncodingClass

abbrev pub unit_width : RawEncodingClass → ℕ
unit_width single_byte = 1
unit_width utf16_le = 2
unit_width utf16_be = 2

-- Does the text begin with the prefix?
unfoldable pub starts_with : Text → Text → Bool
starts_with bytes [] = true
starts_with [] (p ∷ prefix) = false
starts_with (b ∷ bytes) (p ∷ prefix) = if b == p then starts_with bytes prefix else false

-- The BOM of UTF-32 is refused, with an exception.
pub data Sniffed : Type 0 where
  refused : Sniffed
  sniffed : RawEncodingClass → Sniffed
  unknown : Sniffed

unfoldable pub bom_encoding_class : Text → Sniffed
bom_encoding_class bytes =
    if starts_with bytes (0xff ∷ 0xfe ∷ 0 ∷ 0 ∷ []) || starts_with bytes (0 ∷ 0 ∷ 0xfe ∷ 0xff ∷ [])
    then refused
    else (if starts_with bytes (0xff ∷ 0xfe ∷ [])
        then sniffed utf16_le
        else (if starts_with bytes (0xfe ∷ 0xff ∷ []) then sniffed utf16_be else unknown))

abbrev is_xml_space : ℕ → Bool
is_xml_space c = c == 32 || (c == 9 || (c == 13 || c == 10))

unfoldable pub sniff_less_than_endianness : Text → RawEncodingClass
sniff_less_than_endianness bytes =
    let rest = drop_while is_xml_space bytes in
    if starts_with rest (0x3c ∷ 0 ∷ [])
    then utf16_le
    else (if starts_with rest (0 ∷ 0x3c ∷ []) then utf16_be else single_byte)

abbrev pub take : ℕ → Text → Text
take zero s = []
take (suc n) [] = []
take (suc n) (c ∷ s) = c ∷ take n s

-- `std::string::find`, as the text from the match on.
unfoldable pub find_text : Text → Text → Option Text
find_text needle [] = if starts_with [] needle then some [] else none
find_text needle (c ∷ s) =
    let rest = find_text needle s in if starts_with (c ∷ s) needle then some (c ∷ s) else rest

abbrev contains_text : Text → Text → Bool
contains_text s needle = elim (find_text needle s) [ none ↦ false | some r ↦ true ]

abbrev take_until : ℕ → Text → Text
take_until q [] = []
take_until q (c ∷ s) = if c == q then [] else c ∷ take_until q s

unfoldable pub declared_class : Text → Text → RawEncodingClass
declared_class bytes declared =
    if not (contains_text declared (codes "UTF-16"))
    then single_byte
    else (if contains_text declared (codes "LE")
        then utf16_le
        else (if contains_text declared (codes "BE")
            then utf16_be
            else sniff_less_than_endianness bytes))

abbrev quoted_class : Text → Text → RawEncodingClass
quoted_class bytes [] = single_byte
quoted_class bytes (q ∷ []) = single_byte
quoted_class bytes (q ∷ c ∷ rest) =
    declared_class bytes (ascii_upper_copy (take_until q (c ∷ rest)))

unfoldable pub declaration_encoding_class : Text → RawEncodingClass
declaration_encoding_class bytes = elim (find_text (codes "encoding") (take 300 bytes)) [
  | none ↦ single_byte
  | some from_key ↦ quoted_class bytes (drop_while (λ c. not (c == b'"' || c == 39)) from_key)
]

-- `none` where the exception is thrown.
unfoldable pub detect_encoding_class : Text → Option RawEncodingClass
detect_encoding_class bytes = elim (bom_encoding_class bytes) [
  | refused ↦ none
  | sniffed encoding ↦ some encoding
  | unknown ↦ some (declaration_encoding_class bytes)
]
