-- ===== src/Base/Text.antt =====
-- `std::string` as its list of bytes, with the equality and the order of its operators.
use Prim.Native.Char.{code}
use Prim.Native.Nat.{ℕ}
use Prim.Native.String.{String}
use mathlib.Core.Path.{◌≡◌, refl}
use mathlib.Core.Logic.{◌↔◌}
use mathlib.Core.Bool.{Bool, true, false, ◌&&◌, ◌||◌}
use mathlib.Core.List.{List, [], ◌∷◌}
use native.Mathlib.Decide.{ℕ_discrete}
use native.Mathlib.Omega.{arith}
use parse_x.Base.Tests.{ltb, ◌==◌, if◌then◌else◌}
use parse_x.Base.Lists.{is_empty}

abbrev pub Text : Type 0
Text = List ℕ

pub Text-discrete : Discrete Text
Text-discrete = hlevel ℕ_discrete

pub Text-set : IsSet Text
Text-set = hlevel ℕ_discrete

-- The bytes of an ASCII literal. `String` has its own `[]` and `∷`.
abbrev pub codes : String → Text
codes String.[] = []
codes (String.◌∷◌ c s) = code c ∷ codes s

unfoldable pub text_eq : Text → Text → Bool
text_eq [] [] = true
text_eq (x ∷ a) (y ∷ b) = x == y && text_eq a b
text_eq _ _ = false

-- `operator<` on `std::string`: byte by byte, a proper prefix first.
unfoldable pub text_lt : Text → Text → Bool
text_lt [] [] = false
text_lt [] (y ∷ b) = true
text_lt (x ∷ a) [] = false
text_lt (x ∷ a) (y ∷ b) = ltb x y || (x == y && text_lt a b)

pub text_eq_iff : (a b : Text) → (text_eq a b ≡ true) ↔ (a ≡ b)
unfolding text_eq
text_eq_iff (x ∷ a) (y ∷ b) = ground (arith, text_eq_iff a b)
text_eq_iff _ _ = ground arith

pub text_eq_refl : (a : Text) → text_eq a a ≡ true
text_eq_refl a = (text_eq_iff a a).1 refl

pub text_lt_irrefl : (a : Text) → text_lt a a ≡ false
unfolding text_lt
text_lt_irrefl [] = refl
text_lt_irrefl (x ∷ a) = ground (arith, text_lt_irrefl a)

pub text_lt_trans : (a b c : Text) → text_lt a b ≡ true → text_lt b c ≡ true → text_lt a c ≡ true
unfolding text_lt
text_lt_trans (x ∷ a) (y ∷ b) (z ∷ c) h k = ground (arith, text_lt_trans a b c)
text_lt_trans _ _ _ h k = ground arith

pub text_lt_asymm : (a b : Text) → text_lt a b ≡ true → text_lt b a ≡ false
unfolding text_lt
text_lt_asymm (x ∷ a) (y ∷ b) h = ground (arith, text_lt_asymm a b)
text_lt_asymm _ _ h = ground arith

-- Two texts neither of which is below the other are the same.
pub text_lt_antisymm : (a b : Text) → text_lt a b ≡ false → text_lt b a ≡ false → a ≡ b
unfolding text_lt
text_lt_antisymm (x ∷ a) (y ∷ b) h k = ground (arith, text_lt_antisymm a b)
text_lt_antisymm _ _ h k = ground arith

-- `std::string::find_first_not_of`, as the text from there on.
unfoldable pub drop_while : (ℕ → Bool) → Text → Text
drop_while p [] = []
drop_while p (c ∷ cs) = if p c then drop_while p cs else c ∷ cs

-- `std::string::find_last_not_of`, as the text up to there.
unfoldable pub drop_while_end : (ℕ → Bool) → Text → Text
drop_while_end p [] = []
drop_while_end p (c ∷ cs) =
    let rest = drop_while_end p cs in if is_empty rest && p c then [] else c ∷ rest

-- "Not above" is transitive.
pub text_lt_trans_not :
    (a b c : Text) → text_lt b a ≡ false → text_lt c b ≡ false → text_lt c a ≡ false
unfolding text_lt
text_lt_trans_not (x ∷ a) (y ∷ b) (z ∷ c) h k = ground (arith, text_lt_trans_not a b c)
text_lt_trans_not [] [] c h k = k
text_lt_trans_not [] (y ∷ b) [] h k = refl
text_lt_trans_not [] (y ∷ b) (z ∷ c) h k = refl
text_lt_trans_not (x ∷ a) [] c h k = absurd (cc)
text_lt_trans_not (x ∷ a) (y ∷ b) [] h k = absurd (cc)
