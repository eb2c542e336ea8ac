-- ===== src/Builder/Numbers/Digits.antt =====
-- Printed numbers as rows of decimal digits, and blanks around them
-- (libparsex/src/model_builder.cpp).
use parse_x.Base.{
  ℕ, zero, suc, ◌+◌, ◌*◌, ◌-◌, ◌/◌, ◌%◌, ◌≤◌, true, false, some, [], ◌∷◌, ◌++◌, ◌≡◌, refl, ◌≢◌, ap,
  ◌∙◌, inl, inr, arith, ltb, Bool-cases, All,
}
use parse_x.Base.Text.{Text, drop_while, drop_while_end}
use parse_x.Base.Decimal.{to_string_fuel, to_string, decimal}
use parse_x.Validator.Tree.{is_blank, trim_text}
use parse_x.Builder.Numbers.{decimal_digit, read_digits, read_number, is_hex_prefixed}

abbrev pub IsDigit : ℕ → Type 0
IsDigit c = (b'0' ≤ c) × (c ≤ b'9')

abbrev pub IsBlank : ℕ → Type 0
IsBlank c = is_blank c ≡ true

All-snoc : (a : Text) (c : ℕ) → All IsDigit a → IsDigit c → All IsDigit (a ++ c ∷ [])
All-snoc [] c h k = (k, tt)
All-snoc (x ∷ a) c h k = (h.0, All-snoc a c h.1 k)

All-to_string_fuel : (f n : ℕ) → All IsDigit (to_string_fuel f n)
unfolding to_string_fuel
All-to_string_fuel zero n = tt
All-to_string_fuel (suc f) n = elim (Bool-cases (ltb n 10)) [
  | inl t ↦ rw t ((omega arith, ground arith), tt)
  | inr e ↦ rw e (
      All-snoc (to_string_fuel f (n / 10)) (b'0' + n % 10) (All-to_string_fuel f (n / 10))
        (omega arith, omega arith))
]

pub All-to_string : (n : ℕ) → All IsDigit (to_string n)
unfolding to_string
All-to_string n = All-to_string_fuel (suc n) n

snoc-ne_nil : (a : Text) (c : ℕ) → a ++ c ∷ [] ≢ []
snoc-ne_nil [] c e = absurd (cc)
snoc-ne_nil (x ∷ a) c e = absurd (cc)

pub to_string-ne_nil : (n : ℕ) → to_string n ≢ []
unfolding to_string to_string_fuel
to_string-ne_nil n h = elim (Bool-cases (ltb n 10)) [
  | inl t ↦ absurd (cc)
  | inr e ↦ snoc-ne_nil (to_string_fuel n (n / 10)) (b'0' + n % 10) (rw e at h)
]

pub decimal_digit-IsDigit : (c : ℕ) → IsDigit c → decimal_digit c ≡ some (c - b'0')
unfolding decimal_digit
decimal_digit-IsDigit c h = ground arith

read_digits-decimal :
    (acc : ℕ) (t : Text) → All IsDigit t → read_digits decimal_digit 10 acc t ≡ decimal acc t
unfolding read_digits decimal
read_digits-decimal acc [] h = refl
read_digits-decimal acc (c ∷ t) h =
    rw (read_digits, decimal_digit-IsDigit c h.0)
      (read_digits-decimal (acc * 10 + (c - b'0')) t h.1)

pub read_number-decimal :
    (t : Text) → t ≢ [] → All IsDigit t → read_number decimal_digit 10 t ≡ some (decimal 0 t)
unfolding read_number decimal
read_number-decimal [] ne h = absurd (ne refl)
read_number-decimal (c ∷ t) ne h =
    rw (read_number, decimal_digit-IsDigit c h.0)
      (ap some (read_digits-decimal (c - b'0') t h.1 ∙ ap (λ a. decimal a t) (omega arith)))

pub is_hex_prefixed-digits : (t : Text) → All IsDigit t → is_hex_prefixed t ≡ false
unfolding is_hex_prefixed
is_hex_prefixed-digits [] h = refl
is_hex_prefixed-digits (c ∷ []) h = ground arith
is_hex_prefixed-digits (c ∷ d ∷ t) h = ground arith

drop_while-blanks :
    (l t : Text) → All IsBlank l → drop_while is_blank (l ++ t) ≡ drop_while is_blank t
unfolding drop_while
drop_while-blanks [] t h = refl
drop_while-blanks (c ∷ l) t h = rw h.0 (drop_while-blanks l t h.1)

drop_while_end-blanks : (r : Text) → All IsBlank r → drop_while_end is_blank r ≡ []
unfolding drop_while_end
drop_while_end-blanks [] h = refl
drop_while_end-blanks (c ∷ r) h = rw (drop_while_end-blanks r h.1) (rw h.0 refl)

is_blank-digit : (c : ℕ) → IsDigit c → is_blank c ≡ false
is_blank-digit c h = ground arith

drop_while_end-digits :
    (t r : Text) → All IsDigit t → All IsBlank r → drop_while_end is_blank (t ++ r) ≡ t
unfolding drop_while_end
drop_while_end-digits [] r h k = drop_while_end-blanks r k
drop_while_end-digits (c ∷ t) r h k =
    rw (drop_while_end-digits t r h.1 k) (ground (arith, is_blank-digit c h.0))

drop_while-digit : (t r : Text) → t ≢ [] → All IsDigit t → drop_while is_blank (t ++ r) ≡ t ++ r
unfolding drop_while
drop_while-digit [] r ne h = absurd (ne refl)
drop_while-digit (c ∷ t) r ne h = rw (is_blank-digit c h.0) refl

-- Trimming takes the blanks around a row of digits away.
pub trim_text-digits :
    (l t r : Text)
    → All IsBlank l
    → t ≢ []
    → All IsDigit t
    → All IsBlank r
    → trim_text (l ++ (t ++ r)) ≡ t
unfolding trim_text
trim_text-digits l t r hl ne ht hr =
    rw (drop_while-blanks l (t ++ r) hl)
      (rw (drop_while-digit t r ne ht) (drop_while_end-digits t r ht hr))
