-- ===== src/Loader/Scanner/Reads.antt =====
-- What the scanner's tests of a unit (`unitIs`, `unitIsSpace`, `matchLiteral` of
-- libparsex/src/loader.cpp) say of the bytes.
use parse_x.Base.{
  ℕ, suc, ◌+◌, ◌<◌, Bool, true, false, Option, none, some, List, [], ◌∷◌, ◌||◌, ◌&&◌, not, ◌≡◌,
  refl, ◌∙◌, sym, arith, get_elem?, ==_iff, In, here, there, Bool-cases, inl, inr,
}
use parse_x.Base.Text.{Text}
use parse_x.Loader.Encoding.{RawEncodingClass, single_byte, utf16_le, utf16_be, unit_width}
use parse_x.Loader.Scanner.{is_quote}
use parse_x.Loader.Scanner.Units.{
  unit_ascii, ascii_byte, low_byte, is_unit, unit_is, unit_is_space, match_literal,
}
use parse_x.Loader.Scanner.Ensures.{is_unit-some, if-true}
use parse_x.Loader.Markup.{Reads, Spells, ReadsOneOf, blanks, after_name}

ascii_byte-eq : (o : Option ℕ) (c : ℕ) → ascii_byte o ≡ some c → o ≡ some c
ascii_byte-eq none c h = absurd (cc)
ascii_byte-eq (some b) c h = ground arith

ascii_byte-of : (o : Option ℕ) (c : ℕ) → c < 128 → o ≡ some c → ascii_byte o ≡ some c
ascii_byte-of none c k h = absurd (cc)
ascii_byte-of (some b) c k h = ground arith

low_byte-eq : (o p : Option ℕ) (c : ℕ) → low_byte o p ≡ some c → (o ≡ some c) × (p ≡ some 0)
low_byte-eq none p c h = absurd (cc)
low_byte-eq (some a) none c h = absurd (cc)
low_byte-eq (some a) (some b) c h = ground arith

low_byte-of : (o p : Option ℕ) (c : ℕ) → o ≡ some c → p ≡ some 0 → low_byte o p ≡ some c
low_byte-of none p c h k = absurd (cc)
low_byte-of (some a) none c h k = absurd (cc)
low_byte-of (some a) (some b) c h k = ground arith

pub unit_ascii-Reads :
    (bytes : Text) (encoding : RawEncodingClass) (p c : ℕ)
    → unit_ascii bytes encoding p ≡ some c
    → Reads bytes encoding p c
unfolding unit_ascii Reads
unit_ascii-Reads bytes single_byte p c h = ascii_byte-eq (get_elem? bytes p) c h
unit_ascii-Reads bytes utf16_le p c h = low_byte-eq _ (get_elem? bytes (suc p)) c h
unit_ascii-Reads bytes utf16_be p c h =
    let r = low_byte-eq (get_elem? bytes (suc p)) (get_elem? bytes p) c h in (r.1, r.0)

Reads-unit_ascii :
    (bytes : Text) (encoding : RawEncodingClass) (p c : ℕ)
    → c < 128
    → Reads bytes encoding p c
    → unit_ascii bytes encoding p ≡ some c
unfolding unit_ascii Reads
Reads-unit_ascii bytes single_byte p c k h = ascii_byte-of (get_elem? bytes p) c k h
Reads-unit_ascii bytes utf16_le p c k h = low_byte-of _ (get_elem? bytes (suc p)) c h.0 h.1
Reads-unit_ascii bytes utf16_be p c k h =
    low_byte-of (get_elem? bytes (suc p)) (get_elem? bytes p) c h.1 h.0

is_unit_refl : (c : ℕ) → is_unit (some c) (some c) ≡ true
is_unit_refl c = (==_iff c c).1 refl

module _ (bytes : Text) (encoding : RawEncodingClass) where
  pub unit_is-Reads : (p c : ℕ) → unit_is bytes encoding p c ≡ true → Reads bytes encoding p c
  unfolding unit_is
  unit_is-Reads p c h =
      unit_ascii-Reads bytes encoding p c (is_unit-some (unit_ascii bytes encoding p) c h)

  pub Reads-unit_is :
      (p c : ℕ) → c < 128 → Reads bytes encoding p c → unit_is bytes encoding p c ≡ true
  unfolding unit_is
  Reads-unit_is p c k h = rw (Reads-unit_ascii bytes encoding p c k h) (is_unit_refl c)

  pub not-Reads :
      (p c : ℕ) → c < 128 → unit_is bytes encoding p c ≡ false → ¬ Reads bytes encoding p c
  not-Reads p c k h r = false-ne_true (sym h ∙ Reads-unit_is p c k r)
    where
      false-ne_true : ¬ (false ≡ true)
      false-ne_true e = absurd (cc)

  pub match_literal-Spells :
      (p : ℕ) (name : Text)
      → match_literal bytes encoding p name ≡ true
      → Spells bytes encoding p name
  unfolding match_literal
  match_literal-Spells p [] h = tt
  match_literal-Spells p (c ∷ cs) h =
      let r = if-true (unit_is bytes encoding p c) _ h in
      (unit_is-Reads p c r.0, match_literal-Spells (p + unit_width encoding) cs r.1)

  or-cases : (b c : Bool) → (b || c) ≡ true → b ≡ false → c ≡ true
  or-cases b c h k = ground arith

  unit_is_space-or :
      (p : ℕ)
      → unit_is_space bytes encoding p ≡ (
          unit_is bytes encoding p 32
          || (unit_is bytes encoding p 9
              || (unit_is bytes encoding p 13 || unit_is bytes encoding p 10)))
  unfolding unit_is_space unit_is
  unit_is_space-or p = refl

  -- The first of the letters whose test succeeds.
  reads_any : List ℕ → ℕ → Bool
  reads_any [] p = false
  reads_any (c ∷ cs) p = unit_is bytes encoding p c || reads_any cs p

  reads_any-ReadsOneOf :
      (cs : List ℕ) (p : ℕ) → reads_any cs p ≡ true → ReadsOneOf bytes encoding cs p
  unfolding reads_any
  reads_any-ReadsOneOf [] p h = absurd (cc)
  reads_any-ReadsOneOf (c ∷ cs) p h = elim (Bool-cases (unit_is bytes encoding p c)) [
    | inl t ↦ (c, here refl, unit_is-Reads p c t)
    | inr f ↦ let r = reads_any-ReadsOneOf cs p (or-cases _ _ h f) in (r.0, there r.1, r.2)
  ]

  pub unit_is_space-Reads :
      (p : ℕ) → unit_is_space bytes encoding p ≡ true → ReadsOneOf bytes encoding blanks p
  unfolding reads_any
  unit_is_space-Reads p h = reads_any-ReadsOneOf blanks p (ground (arith, unit_is_space-or p, h))

  -- The test that a start tag's name ends.
  pub name_ends-Reads :
      (p : ℕ)
      → (not (unit_is_space bytes encoding p)
          && (not (unit_is bytes encoding p b'/') && not (unit_is bytes encoding p b'>')))
        ≡ false
      → ReadsOneOf bytes encoding after_name p
  unfolding reads_any
  name_ends-Reads p h = reads_any-ReadsOneOf after_name p (ground (arith, unit_is_space-or p, h))

  -- A quote is one of the two.
  pub is_quote-Reads :
      (p : ℕ)
      → is_quote bytes encoding (unit_ascii bytes encoding p) ≡ true
      → (c : ℕ) × In c (b'"' ∷ 39 ∷ []) × (unit_ascii bytes encoding p ≡ some c)
  is_quote-Reads p h = elim (Bool-cases (is_unit (unit_ascii bytes encoding p) (some b'"'))) [
    | inl t ↦ (b'"', here refl, is_unit-some (unit_ascii bytes encoding p) b'"' t)
    | inr f ↦
        (39, there (here refl), is_unit-some (unit_ascii bytes encoding p) 39 (or-cases _ _ h f))
  ]

  -- No quote and no '>'.
  pub plain-not_Reads :
      (p : ℕ)
      → is_quote bytes encoding (unit_ascii bytes encoding p) ≡ false
      → is_unit (unit_ascii bytes encoding p) (some b'>') ≡ false
      → ¬ ReadsOneOf bytes encoding (b'"' ∷ 39 ∷ b'>' ∷ []) p
  plain-not_Reads p h k (c, i, r) = false-of c i (Reads-unit_ascii bytes encoding p c (small c i) r)
    where
      small : (c : ℕ) → In c (b'"' ∷ 39 ∷ b'>' ∷ []) → c < 128
      small c (here e) = omega arith
      small c (there (here e)) = omega arith
      small c (there (there (here e))) = omega arith
      small c (there (there (there i))) = elim i [ ]

      false-of : (c : ℕ) → In c (b'"' ∷ 39 ∷ b'>' ∷ []) → unit_ascii bytes encoding p ≡ some c → ⊥
      false-of c (here e) u = absurd (ground (arith, h, k, e, u))
      false-of c (there (here e)) u = absurd (ground (arith, h, k, e, u))
      false-of c (there (there (here e))) u = absurd (ground (arith, h, k, e, u))
      false-of c (there (there (there i))) u = elim i [ ]
