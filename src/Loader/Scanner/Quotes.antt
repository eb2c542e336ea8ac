-- ===== src/Loader/Scanner/Quotes.antt =====
-- Where a quoted value ends (`skipQuoted` of libparsex/src/loader.cpp): at the first quote of its kind.
use parse_x.Base.{
  ℕ, zero, suc, ◌+◌, ◌≤◌, ◌<◌, true, false, some, [], ◌∷◌, ◌≡◌, refl, arith, length, ltb, ltb→lt,
  In,
}
use parse_x.Base.Text.{Text}
use parse_x.Loader.Encoding.{RawEncodingClass, unit_width}
use parse_x.Loader.Scanner.{skip_to_quote, skip_quoted, is_quote}
use parse_x.Loader.Scanner.Units.{unit_ascii, is_unit, unit_is}
use parse_x.Loader.Scanner.Ensures.{
  Ensures, gives, raises, both, if_Ensures, weaken, unit_width-pos,
}
use parse_x.Loader.Scanner.Skips.{Enough, Enough-step, Enough-start, skip_quoted-Past}
use parse_x.Loader.Scanner.Reads.{unit_is-Reads, not-Reads, unit_ascii-Reads, is_quote-Reads}
use parse_x.Loader.Markup.{Reads, FirstAt, here, later}

module _ (bytes : Text) (encoding : RawEncodingClass) where
  abbrev w : ℕ
  w = unit_width encoding

  -- Past the first such quote from `p` on.
  abbrev pub PastFirst : ℕ → ℕ → ℕ → Type 0
  PastFirst c p r = (s : ℕ) × (r ≡ s + w) × FirstAt bytes encoding c s p

  skip_to_quote-PastFirst :
      (f c p : ℕ)
      → c < 128
      → Enough (length bytes) f p
      → Ensures (PastFirst c p) (skip_to_quote bytes encoding f (some c) p)
  unfolding skip_to_quote unit_is
  skip_to_quote-PastFirst zero c p k h = absurd (omega arith)
  skip_to_quote-PastFirst (suc f) c p k h =
      if_Ensures (ltb p (length bytes))
        (λ inside.
          let hp = ltb→lt p (length bytes) inside in
          let hw = unit_width-pos encoding in
          if_Ensures (is_unit (unit_ascii bytes encoding p) (some c))
            (λ found.
              gives (p, refl, here refl (unit_is-Reads bytes encoding p c (is_found p found))))
            (λ other.
              weaken
                (skip_to_quote-PastFirst f c (p + w) k (Enough-step (length bytes) f p w hw hp h))
                (λ r q. (q.0, q.1, later (not-Reads bytes encoding p c k (is_other p other)) q.2))))
        (λ _. raises)
    where
      is_found :
          (p : ℕ)
          → is_unit (unit_ascii bytes encoding p) (some c) ≡ true
          → unit_is bytes encoding p c ≡ true
      is_found p e = e

      is_other :
          (p : ℕ)
          → is_unit (unit_ascii bytes encoding p) (some c) ≡ false
          → unit_is bytes encoding p c ≡ false
      is_other p e = e

  -- The value that opens at `p`, and the place past it.
  pub record IsQuoted (p r : ℕ) : Type 0 where
    pub quote : ℕ
    pub is_quote_mark : In quote (b'"' ∷ 39 ∷ [])
    pub opens : Reads bytes encoding p quote
    pub closes : PastFirst quote (p + w) r
    pub past : p < r
    pub inside : r ≤ length bytes

  quote-small : (c : ℕ) → In c (b'"' ∷ 39 ∷ []) → c < 128
  quote-small c (In.here e) = omega arith
  quote-small c (In.there (In.here e)) = omega arith
  quote-small c (In.there (In.there i)) = elim i [ ]

  pub skip_quoted-IsQuoted :
      (p : ℕ)
      → is_quote bytes encoding (unit_ascii bytes encoding p) ≡ true
      → Ensures (IsQuoted p) (skip_quoted bytes encoding p)
  unfolding skip_quoted
  skip_quoted-IsQuoted p h =
      let (c, i, u) = is_quote-Reads bytes encoding p h in
      let first : Ensures (PastFirst c (p + w)) (skip_quoted bytes encoding p) = rw u (
        skip_to_quote-PastFirst (suc (length bytes)) c (p + w) (quote-small c i)
          (Enough-start (length bytes) (p + w))) in
      weaken (both (skip_quoted-Past bytes encoding p h) first) (λ r k. record {
        quote = c;
        is_quote_mark = i;
        opens = unit_ascii-Reads bytes encoding p c u;
        closes = k.1;
        past = k.0.0;
        inside = k.0.1;
      })
