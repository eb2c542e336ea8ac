-- ===== src/Export/Dbc/Quoting.antt =====
-- The quoted strings of a DBC file (`quoted` of libparsex/src/export/dbc_writer.cpp).
use parse_x.Base.{
  ℕ, Bool, false, Option, none, some, [], ◌∷◌, ◌++◌, ◌≡◌, refl, sym, ap, ◌∙◌, inl, inr, arith, ◌==◌,
  ◌||◌, if◌then◌else◌, Bool-cases,
}
use mathlib.Core.List.{append_assoc, append-nil}
use parse_x.Base.Text.{Text}
use parse_x.Export.Dbc.{escaped, quoted}

-- A reader of the format: up to the first quote that no backslash stands before. It gives the text
-- and what follows it.
mutual
  read_letters : Text → Text → Option (Text × Text)
  read_letters acc [] = none
  read_letters acc (c ∷ s) =
      let rest = read_letters (acc ++ c ∷ []) s in
      let protected = read_protected acc s in
      if c == b'"' then some (acc, s) else (if c == 92 then protected else rest)

  read_protected : Text → Text → Option (Text × Text)
  read_protected acc [] = none
  read_protected acc (c ∷ s) = read_letters (acc ++ c ∷ []) s

pub read_quoted : Text → Option (Text × Text)
read_quoted [] = none
read_quoted (c ∷ s) = if c == b'"' then read_letters [] s else none

read_letters-plain :
    (acc : Text) (c : ℕ) (s : Text)
    → (c == b'"' || c == 92) ≡ false
    → read_letters acc (c ∷ s) ≡ read_letters (acc ++ c ∷ []) s
unfolding read_letters
read_letters-plain acc c s h =
    rw (read_letters, or_first (c == b'"') (c == 92) h, or_second (c == b'"') (c == 92) h) refl
  where
    or_first : (a b : Bool) → (a || b) ≡ false → a ≡ false
    or_first a b h = ground arith

    or_second : (a b : Bool) → (a || b) ≡ false → b ≡ false
    or_second a b h = ground arith

read_letters-protected :
    (acc : Text) (c : ℕ) (s : Text) → read_letters acc (92 ∷ c ∷ s) ≡ read_letters (acc ++ c ∷ []) s
unfolding read_letters
read_letters-protected acc c s = refl

read_letters-escaped :
    (t acc rest : Text) → read_letters acc (escaped t ++ b'"' ∷ rest) ≡ some (acc ++ t, rest)
unfolding escaped
read_letters-escaped [] acc rest =
    unfold read_letters in ap (λ a. some (a, rest)) (sym (append-nil acc))
read_letters-escaped (c ∷ t) acc rest = elim (Bool-cases (c == b'"' || c == 92)) [
  | inl h ↦
      rw (escaped, h)
        (read_letters-protected acc c _
          ∙ read_letters-escaped t (acc ++ c ∷ []) rest
          ∙ ap (λ a. some (a, rest)) (append_assoc acc (c ∷ []) t))
  | inr e ↦
      rw (escaped, e)
        (read_letters-plain acc c _ e
          ∙ read_letters-escaped t (acc ++ c ∷ []) rest
          ∙ ap (λ a. some (a, rest)) (append_assoc acc (c ∷ []) t))
]

-- Any text, written as a quoted string with more after it, is read back with what comes after it.
pub read_quoted-quoted : (text rest : Text) → read_quoted (quoted text ++ rest) ≡ some (text, rest)
unfolding read_quoted quoted
read_quoted-quoted text rest =
    ap (read_letters []) (append_assoc (escaped text) (b'"' ∷ []) rest)
    ∙ read_letters-escaped text [] rest
