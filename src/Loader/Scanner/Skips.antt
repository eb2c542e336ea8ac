-- ===== src/Loader/Scanner/Skips.antt =====
-- Every loop that skips markup (`skipDelimited`, `skipQuoted`, `skipDeclaration`, `skipSpecialUnit`
-- of libparsex/src/loader.cpp) ends, and ends past its start and inside the file.
use parse_x.Base.{
  ℕ, zero, suc, ◌+◌, ◌≤◌, ◌<◌, Bool, true, Option, none, some, ◌≡◌, refl, arith, length, ltb,
  ltb→lt, ◌&&◌, not,
}
use parse_x.Base.Text.{Text, codes}
use parse_x.Base.Int.{ℤ, pos}
use parse_x.Loader.Encoding.{RawEncodingClass, unit_width}
use parse_x.Loader.Scanner.{
  Scan, skipped, skip_to, skip_delimited, skip_to_quote, skip_quoted, is_quote, is_zero,
  bracket_depth, skip_to_close, skip_declaration, skip_special_unit,
}
use parse_x.Loader.Scanner.Units.{unit_ascii, is_unit, unit_is, match_literal}
use parse_x.Loader.Scanner.Ensures.{
  Ensures, gives, raises, if_Ensures, then-Ensures, weaken, unit_ascii-le, is_unit-some,
  unit_width-pos, match_literal-le,
}

-- The fuel left reaches the end of the file.
abbrev pub Enough : ℕ → ℕ → ℕ → Type 0
Enough size f p = (1 ≤ f) × (size < f + p)

pub Enough-step :
    (size f p w : ℕ) → 1 ≤ w → p < size → Enough size (suc f) p → Enough size f (p + w)
Enough-step size f p w hw hp h = omega arith

pub Enough-jump : (size f p q : ℕ) → p < q → p < size → Enough size (suc f) p → Enough size f q
Enough-jump size f p q hq hp h = omega arith

pub Enough-start : (size p : ℕ) → Enough size (suc size) p
Enough-start size p = omega arith

pub is_quote-some :
    (bytes : Text) (encoding : RawEncodingClass) (u : Option ℕ)
    → is_quote bytes encoding u ≡ true
    → (q : ℕ) × (u ≡ some q)
is_quote-some bytes encoding none h = absurd (cc)
is_quote-some bytes encoding (some q) h = (q, refl)

pub and-true : (a b : Bool) → (a && b) ≡ true → (a ≡ true) × (b ≡ true)
and-true a b h = ground arith

module _ (bytes : Text) (encoding : RawEncodingClass) where
  abbrev pub Past : ℕ → ℕ → Type 0
  Past p r = (p < r) × (r ≤ length bytes)

  abbrev w : ℕ
  w = unit_width encoding

  further : {p q : ℕ} {m : Scan ℕ} → p ≤ q → Ensures (Past q) m → Ensures (Past p) m
  further {p} {q} h e = weaken e (λ r k. omega arith)

  skip_to-Past :
      (f : ℕ) (terminator : Text) (p : ℕ)
      → 1 ≤ length terminator
      → Enough (length bytes) f p
      → Ensures (Past p) (skip_to bytes encoding f terminator p)
  unfolding skip_to
  skip_to-Past zero t p ht h = absurd (omega arith)
  skip_to-Past (suc f) t p ht h =
      if_Ensures (ltb p (length bytes))
        (λ inside.
          let hp = ltb→lt p (length bytes) inside in
          if_Ensures (match_literal bytes encoding p t)
            (λ found.
              let end = match_literal-le bytes encoding p t (omega arith) found in
              let hw = unit_width-pos encoding in gives (grind arith, end))
            (λ _. further (omega arith) (
              skip_to-Past f t (p + w) ht
                (Enough-step (length bytes) f p w (unit_width-pos encoding) hp h))))
        (λ _. raises)

  skip_delimited-Past :
      (p : ℕ) (terminator : Text)
      → 1 ≤ length terminator
      → Ensures (Past p) (skip_delimited bytes encoding p terminator)
  unfolding skip_delimited
  skip_delimited-Past p t ht =
      skip_to-Past (suc (length bytes)) t p ht (Enough-start (length bytes) p)

  skip_to_quote-Past :
      (f q p : ℕ)
      → Enough (length bytes) f p
      → Ensures (Past p) (skip_to_quote bytes encoding f (some q) p)
  unfolding skip_to_quote
  skip_to_quote-Past zero q p h = absurd (omega arith)
  skip_to_quote-Past (suc f) q p h =
      if_Ensures (ltb p (length bytes))
        (λ inside.
          let hp = ltb→lt p (length bytes) inside in
          let hw = unit_width-pos encoding in
          if_Ensures (is_unit (unit_ascii bytes encoding p) (some q))
            (λ found.
              let end =
                unit_ascii-le bytes encoding p q
                  (is_unit-some (unit_ascii bytes encoding p) q found) in
              gives (omega arith))
            (λ _.
              further (omega arith)
                (skip_to_quote-Past f q (p + w) (Enough-step (length bytes) f p w hw hp h))))
        (λ _. raises)

  pub skip_quoted-Past :
      (p : ℕ)
      → is_quote bytes encoding (unit_ascii bytes encoding p) ≡ true
      → Ensures (Past p) (skip_quoted bytes encoding p)
  unfolding skip_quoted
  skip_quoted-Past p h =
      let r = is_quote-some bytes encoding (unit_ascii bytes encoding p) h in
      let hw = unit_width-pos encoding in
      rw r.1 (
        further (omega arith) (
          skip_to_quote-Past (suc (length bytes)) r.0 (p + w)
            (Enough-start (length bytes) (p + w))))

  skip_to_close-Past :
      (f : ℕ) (depth : ℤ) (p : ℕ)
      → Enough (length bytes) f p
      → Ensures (Past p) (skip_to_close bytes encoding f depth p)
  unfolding skip_to_close
  skip_to_close-Past zero depth p h = absurd (omega arith)
  skip_to_close-Past (suc f) depth p h =
      if_Ensures (ltb p (length bytes))
        (λ inside.
          let hp = ltb→lt p (length bytes) inside in
          let hw = unit_width-pos encoding in
          if_Ensures (is_quote bytes encoding (unit_ascii bytes encoding p))
            (λ quote. then-Ensures (skip_quoted-Past p quote) (λ q k.
              further (omega arith)
                (skip_to_close-Past f depth q (Enough-jump (length bytes) f p q k.0 hp h))))
            (λ _.
              if_Ensures
                (is_unit (unit_ascii bytes encoding p) (some b'>') && is_zero bytes encoding depth)
                (λ close. gives (closed p (is_zero bytes encoding depth) close))
                (λ _. further (omega arith) (
                  skip_to_close-Past f
                    (bracket_depth bytes encoding (unit_ascii bytes encoding p) depth) (p + w)
                    (Enough-step (length bytes) f p w hw hp h)))))
        (λ _. raises)
    where
      closed :
          (p : ℕ) (b : Bool)
          → (is_unit (unit_ascii bytes encoding p) (some b'>') && b) ≡ true
          → Past p (p + w)
      closed p b h =
          let end =
            unit_ascii-le bytes encoding p b'>'
              (is_unit-some (unit_ascii bytes encoding p) b'>' (and-true _ b h).0) in
          let hw = unit_width-pos encoding in omega arith

  -- What `skipSpecialUnit` gives: nothing, or a place past the unit.
  abbrev pub PastSome : ℕ → Option ℕ → Type 0
  PastSome p none = Unit
  PastSome p (some r) = Past p r

  skipped-PastSome : {p : ℕ} {m : Scan ℕ} → Ensures (Past p) m → Ensures (PastSome p) (skipped m)
  unfolding skipped
  skipped-PastSome e = then-Ensures e (λ r h. gives h)

  skip_declaration-Past : (p : ℕ) → Ensures (Past p) (skip_declaration bytes encoding p)
  unfolding skip_declaration
  skip_declaration-Past p = further (omega arith) (
      skip_to_close-Past (suc (length bytes)) (pos 0) (p + w) (Enough-start (length bytes) (p + w)))

  pub skip_special_unit-PastSome :
      (p : ℕ) → Ensures (PastSome p) (skip_special_unit bytes encoding p)
  unfolding skip_special_unit
  skip_special_unit-PastSome p =
      if_Ensures (unit_is bytes encoding (p + w) b'?')
        (λ _. skipped-PastSome (skip_delimited-Past p (codes "?>") (omega arith)))
        (λ _.
          if_Ensures (not (unit_is bytes encoding (p + w) b'!')) (λ _. gives tt)
            (λ _.
              if_Ensures (match_literal bytes encoding p (codes "<!--"))
                (λ _. skipped-PastSome (skip_delimited-Past p (codes "-->") (omega arith)))
                (λ _.
                  if_Ensures (match_literal bytes encoding p (codes "<![CDATA["))
                    (λ _. skipped-PastSome (skip_delimited-Past p (codes "]]>") (omega arith)))
                    (λ _. skipped-PastSome (skip_declaration-Past p)))))
