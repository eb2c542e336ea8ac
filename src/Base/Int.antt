-- ===== src/Base/Int.antt =====
-- Signed integers over the native numbers, as far as the program prints and compares them.
use mathlib.Core.List.{◌∷◌}
use Prim.Native.Nat.{ℕ, suc}
use parse_x.Base.Text.{Text}
use parse_x.Base.Decimal.{to_string}

-- `negsuc n` is -(n + 1).
pub data ℤ : Type 0 where
  pos : ℕ → ℤ
  negsuc : ℕ → ℤ

-- `std::to_string` of a signed integer.
unfoldable pub int_to_string : ℤ → Text
int_to_string (pos n) = to_string n
int_to_string (negsuc n) = b'-' ∷ to_string (suc n)
