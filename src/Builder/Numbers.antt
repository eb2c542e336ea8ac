-- ===== src/Builder/Numbers.antt =====
-- The readers of numbers in libparsex/src/model_builder.cpp, with the `std::stoull` and `std::stoll`
-- they call: both skip white space, take a sign and a prefix of digits, and throw (here `none`) on
-- no digit or a value out of range. Negating the least `std::int64_t`, which C++ leaves open, wraps.
pub mod Digits
pub mod RoundTrip
use parse_x.Base.{
  ℕ, zero, suc, ◌+◌, ◌*◌, ◌-◌, ◌%◌, ◌^◌, Bool, true, false, Option, none, some, List, [], ◌∷◌, ◌==◌,
  ◌&&◌, ◌||◌, ltb, leb, if◌then◌else◌, is_empty, length,
}
use parse_x.Base.Text.{Text, drop_while}
use parse_x.Base.Int.{ℤ, pos, negsuc}
use parse_x.Model.{Double}
use parse_x.Validator.Tree.{trim_text}

abbrev pub is_sign : ℕ → Bool
is_sign c = c == b'+' || c == b'-'

-- `isspace` of the C locale.
abbrev pub is_space : ℕ → Bool
is_space c = c == 32 || (leb 9 c && leb c 13)

abbrev pub starts_0x : Text → Bool
starts_0x (z ∷ x ∷ rest) = z == b'0' && (x == b'x' || x == b'X')
starts_0x _ = false

-- On an empty text `at(0)` throws; the callers pass none.
unfoldable pub is_hex_prefixed : Text → Bool
is_hex_prefixed [] = false
is_hex_prefixed (c ∷ cs) = if is_sign c then starts_0x cs else starts_0x (c ∷ cs)

unfoldable pub decimal_digit : ℕ → Option ℕ
decimal_digit c = if leb b'0' c && leb c b'9' then some (c - b'0') else none

unfoldable pub hex_digit : ℕ → Option ℕ
hex_digit c =
    if leb b'a' c && leb c b'f'
    then some (c - 87)
    else (if leb b'A' c && leb c b'F' then some (c - 55) else decimal_digit c)

-- The longest row of digits at the front, after the number `acc`.
unfoldable pub read_digits : (ℕ → Option ℕ) → ℕ → ℕ → Text → ℕ
read_digits digit base acc [] = acc
read_digits digit base acc (c ∷ cs) = elim (digit c) [
  | none ↦ acc
  | some d ↦ read_digits digit base (acc * base + d) cs
]

unfoldable pub read_number : (ℕ → Option ℕ) → ℕ → Text → Option ℕ
read_number digit base [] = none
read_number digit base (c ∷ cs) = elim (digit c) [
  | none ↦ none
  | some d ↦ some (read_digits digit base d cs)
]

-- Is there a minus sign at the front, and the text after a sign.
abbrev pub take_sign : Text → Bool × Text
take_sign [] = (false, [])
take_sign (c ∷ cs) = if is_sign c then (c == b'-', cs) else (false, c ∷ cs)

abbrev pub drop_2 : Text → Text
drop_2 (a ∷ b ∷ rest) = rest
drop_2 _ = []

abbrev starts_hex_digit : Text → Bool
starts_hex_digit [] = false
starts_hex_digit (c ∷ cs) = elim (hex_digit c) [ none ↦ false | some d ↦ true ]

-- A prefix 0x is skipped where a digit follows it.
abbrev skip_0x : Text → Text
skip_0x s = if starts_0x s && starts_hex_digit (drop_2 s) then drop_2 s else s

abbrev stoull_range : Bool → ℕ → Option ℕ
stoull_range negative m =
    if leb (2 ^ 64) m then none else some (if negative then (2 ^ 64 - m) % 2 ^ 64 else m)

abbrev stoull_signed : Bool × Text → Option ℕ
stoull_signed (negative, body) = elim (read_number hex_digit 16 (skip_0x body)) [
  | none ↦ none
  | some m ↦ stoull_range negative m
]

-- `std::stoull(text, nullptr, 16)`.
unfoldable pub stoull_16 : Text → Option ℕ
stoull_16 text = stoull_signed (take_sign (drop_while is_space text))

abbrev pub stoll_range : Bool → ℕ → Option ℤ
stoll_range true zero = some (pos zero)
stoll_range true (suc m) = if leb (2 ^ 63) m then none else some (negsuc m)
stoll_range false m = if leb (2 ^ 63) m then none else some (pos m)

unfoldable pub stoll_signed : Bool × Text → Option ℤ
stoll_signed (negative, body) = elim (read_number decimal_digit 10 body) [
  | none ↦ none
  | some m ↦ stoll_range negative m
]

-- `std::stoll(text)`.
unfoldable pub stoll : Text → Option ℤ
stoll text = stoll_signed (take_sign (drop_while is_space text))

abbrev pub to_int64 : ℕ → ℤ
to_int64 m = if ltb m (2 ^ 63) then pos m else negsuc (2 ^ 64 - m - 1)

abbrev pub to_uint64 : ℤ → ℕ
to_uint64 (pos n) = n
to_uint64 (negsuc n) = 2 ^ 64 - n - 1

abbrev pub negate : ℤ → ℤ
negate (pos zero) = pos zero
negate (pos (suc n)) = negsuc n
negate (negsuc n) = if n == 2 ^ 63 - 1 then negsuc n else pos (suc n)

-- The end of `parseInteger`, from a magnitude on.
abbrev pub signed_magnitude : Bool → ℕ → Option ℤ
signed_magnitude negative magnitude =
    if negative
    then some (negate (to_int64 magnitude))
    else (if leb (2 ^ 63) magnitude then none else some (to_int64 magnitude))

abbrev pub signed_value : Bool → ℤ → Option ℤ
signed_value negative value =
    if negative then some (negate value) else signed_magnitude false (to_uint64 value)

unfoldable pub hex_integer : Bool × Text → Option ℤ
hex_integer (negative, digits) = elim (stoull_16 (drop_2 digits)) [
  | none ↦ none
  | some magnitude ↦ signed_magnitude negative magnitude
]

unfoldable pub decimal_integer : Bool × Text → Option ℤ
decimal_integer (negative, digits) = elim (stoll digits) [
  | none ↦ none
  | some value ↦ signed_value negative value
]

unfoldable pub parse_integer : Text → Option ℤ
parse_integer raw =
    let text = trim_text raw in
    if is_empty text
    then none
    else (if is_hex_prefixed text
        then hex_integer (take_sign text)
        else decimal_integer (take_sign text))

abbrev pub uint32_of : Option ℤ → Option ℕ
uint32_of none = none
uint32_of (some (pos n)) = if ltb (2 ^ 32 - 1) n then none else some n
uint32_of (some (negsuc n)) = none

unfoldable pub parse_uint32 : Text → Option ℕ
parse_uint32 raw = uint32_of (parse_integer raw)

-- What the program takes from the machine's floating point: `std::stod`, with the number of
-- characters it used, and the conversion of an integer.
pub record DoubleReader : Type 0 where
  pub stod : Text → Option (Double × ℕ)
  pub of_int64 : ℤ → Double

unfoldable pub parse_double : DoubleReader → Text → Option Double
parse_double reader raw =
    let text = trim_text raw in
    if is_empty text
    then none
    else (if is_hex_prefixed text
        then elim (parse_integer text) [ none ↦ none | some as_int ↦ some (reader.of_int64 as_int) ]
        else elim (reader.stod text) [
          | none ↦ none
          | some r ↦ if r.1 == length text then some r.0 else none
        ])
