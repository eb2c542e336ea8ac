-- ===== src/Base/Decimal.antt =====
-- `std::to_string` and stream output of an unsigned integer.
use Prim.Native.Nat.{ℕ, zero, suc, ◌+◌, ◌*◌, ◌/◌, ◌%◌, ◌<◌, ◌-◌}
use mathlib.Core.Path.{◌≡◌, refl, sym, ap, ◌∙◌}
use mathlib.Core.Logic.{inl, inr}
use mathlib.Core.List.{[], ◌∷◌, ◌++◌}
use native.Mathlib.Omega.{arith}
use parse_x.Base.Tests.{ltb, if◌then◌else◌, Bool-cases}
use parse_x.Base.Text.{Text}

-- With `n < fuel` the division reaches one digit before the fuel is spent.
unfoldable pub to_string_fuel : ℕ → ℕ → Text
to_string_fuel zero n = []
to_string_fuel (suc f) n =
    let rest = to_string_fuel f (n / 10) in
    if ltb n 10 then (b'0' + n) ∷ [] else rest ++ (b'0' + n % 10) ∷ []

unfoldable pub to_string : ℕ → Text
unfolding to_string_fuel
to_string n = to_string_fuel (suc n) n

-- The number that a row of digits stands for, after the number `acc`.
unfoldable pub decimal : ℕ → Text → ℕ
decimal acc [] = acc
decimal acc (c ∷ cs) = decimal (acc * 10 + (c - b'0')) cs

decimal-append : (acc : ℕ) (a b : Text) → decimal acc (a ++ b) ≡ decimal (decimal acc a) b
unfolding decimal
decimal-append acc [] b = refl
decimal-append acc (c ∷ a) b = decimal-append (acc * 10 + (c - b'0')) a b

decimal-to_string_fuel : (f n : ℕ) → n < f → decimal 0 (to_string_fuel f n) ≡ n
unfolding to_string_fuel
decimal-to_string_fuel zero n h = elim h [ ]
decimal-to_string_fuel (suc f) n h = elim (Bool-cases (ltb n 10)) [
  | inl t ↦ rw t (unfold decimal in omega arith)
  | inr e ↦ rw e (
      rw decimal-append
        (rw (decimal-to_string_fuel f (n / 10) (ground arith)) (unfold decimal in omega arith)))
]

-- Printing loses nothing: the digits read back as the number.
pub decimal-to_string : (n : ℕ) → decimal 0 (to_string n) ≡ n
unfolding to_string
decimal-to_string n = decimal-to_string_fuel (suc n) n (omega arith)

pub to_string_inj : (m n : ℕ) → to_string m ≡ to_string n → m ≡ n
to_string_inj m n e = sym (decimal-to_string m) ∙ ap (decimal 0) e ∙ decimal-to_string n
