-- ===== src/Builder/Numbers/RoundTrip.antt =====
-- Reading back a printed number (`parseInteger`, `parseUint32` of libparsex/src/model_builder.cpp).
use parse_x.Base.{
  ℕ, ◌^◌, ◌<◌, false, none, some, [], ◌∷◌, ◌++◌, ◌≡◌, refl, ◌≢◌, ap, ◌∙◌, arith, ltb, if◌then◌else◌,
  All, is_empty,
}
use parse_x.Base.Text.{Text, drop_while}
use parse_x.Base.Decimal.{to_string, decimal, decimal-to_string}
use parse_x.Base.Int.{pos}
use parse_x.Validator.Tree.{trim_text}
use parse_x.Builder.Numbers.{
  is_space, is_sign, take_sign, stoll, stoll_signed, decimal_integer, stoll_range, signed_value,
  parse_integer, parse_uint32, uint32_of,
}
use parse_x.Builder.Numbers.Digits.{
  IsDigit, IsBlank, All-to_string, to_string-ne_nil, read_number-decimal, is_hex_prefixed-digits,
  trim_text-digits,
}

take_sign-digits : (t : Text) → All IsDigit t → take_sign t ≡ (false, t)
take_sign-digits [] h = refl
take_sign-digits (c ∷ t) h = rw (not_sign c h.0) refl
  where
    not_sign : (c : ℕ) → IsDigit c → is_sign c ≡ false
    not_sign c h = ground arith

drop_while-space : (t : Text) → All IsDigit t → drop_while is_space t ≡ t
unfolding drop_while
drop_while-space [] h = refl
drop_while-space (c ∷ t) h = rw (not_space c h.0) refl
  where
    not_space : (c : ℕ) → IsDigit c → is_space c ≡ false
    not_space c h = ground arith

stoll_range-small : (n : ℕ) → n < 2 ^ 63 → stoll_range false n ≡ some (pos n)
stoll_range-small n h = ground arith

stoll_signed-digits :
    (t : Text)
    → t ≢ []
    → All IsDigit t
    → decimal 0 t < 2 ^ 63
    → stoll_signed (false, t) ≡ some (pos (decimal 0 t))
unfolding stoll_signed
stoll_signed-digits t ne h small =
    rw (stoll_signed, read_number-decimal t ne h) (stoll_range-small (decimal 0 t) small)

stoll-digits :
    (t : Text) → t ≢ [] → All IsDigit t → decimal 0 t < 2 ^ 63 → stoll t ≡ some (pos (decimal 0 t))
unfolding stoll
stoll-digits t ne h small =
    ap stoll_signed (ap take_sign (drop_while-space t h) ∙ take_sign-digits t h)
    ∙ stoll_signed-digits t ne h small

signed_value-small : (n : ℕ) → n < 2 ^ 63 → signed_value false (pos n) ≡ some (pos n)
signed_value-small n h = ground arith

is_empty-ne_nil : (t : Text) → t ≢ [] → is_empty t ≡ false
is_empty-ne_nil [] ne = absurd (ne refl)
is_empty-ne_nil (c ∷ t) ne = refl

decimal_integer-digits :
    (t : Text)
    → t ≢ []
    → All IsDigit t
    → decimal 0 t < 2 ^ 63
    → decimal_integer (false, t) ≡ some (pos (decimal 0 t))
unfolding decimal_integer
decimal_integer-digits t ne h small =
    rw (decimal_integer, stoll-digits t ne h small) (signed_value-small (decimal 0 t) small)

parse_integer-digits :
    (raw t : Text)
    → trim_text raw ≡ t
    → t ≢ []
    → All IsDigit t
    → decimal 0 t < 2 ^ 63
    → parse_integer raw ≡ some (pos (decimal 0 t))
unfolding parse_integer
parse_integer-digits raw t e ne h small = rw e (
    rw (is_empty-ne_nil t ne, is_hex_prefixed-digits t h)
      (ap decimal_integer (take_sign-digits t h) ∙ decimal_integer-digits t ne h small))

-- A number below 2 ^ 63, printed with blanks before and after it, is read back as it is.
pub parse_integer-to_string :
    (l r : Text) (n : ℕ)
    → All IsBlank l
    → All IsBlank r
    → n < 2 ^ 63
    → parse_integer (l ++ (to_string n ++ r)) ≡ some (pos n)
parse_integer-to_string l r n hl hr h =
    parse_integer-digits (l ++ (to_string n ++ r)) (to_string n)
      (trim_text-digits l (to_string n) r hl (to_string-ne_nil n) (All-to_string n) hr)
      (to_string-ne_nil n) (All-to_string n) (rw (decimal-to_string n) h)
    ∙ ap (λ m. some (pos m)) (decimal-to_string n)

uint32_of-small : (n : ℕ) → n < 2 ^ 32 → uint32_of (some (pos n)) ≡ some n
uint32_of-small n h = ground arith

-- With blanks on both sides, a printed number is read back by `parseUint32` if it is below 2 ^ 32,
-- and refused if it is between 2 ^ 32 and 2 ^ 63.
pub parse_uint32-to_string :
    (l r : Text) (n : ℕ)
    → All IsBlank l
    → All IsBlank r
    → n < 2 ^ 63
    → parse_uint32 (l ++ (to_string n ++ r)) ≡ (if ltb n (2 ^ 32) then some n else none)
unfolding parse_uint32
parse_uint32-to_string l r n hl hr h = rw (parse_integer-to_string l r n hl hr h) (ground arith)
