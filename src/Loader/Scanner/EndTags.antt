-- ===== src/Loader/Scanner/EndTags.antt =====
-- The end tags that the scanner finds (`scanEndTag` of libparsex/src/loader.cpp).
use parse_x.Base.{ℕ, zero, suc, ◌+◌, ◌*◌, ◌≤◌, true, ◌≡◌, refl, arith, length, ltb, ltb→lt, ◌&&◌}
use parse_x.Base.Text.{Text}
use parse_x.Loader.Encoding.{RawEncodingClass, unit_width}
use parse_x.Loader.Scanner.{has_non_ascii, skip_spaces, end_tag_at, scan_end_tag}
use parse_x.Loader.Scanner.Units.{unit_is, unit_is_space, match_literal}
use parse_x.Loader.Markup.{BlankRest, ends, blank, IsEndTag}
use parse_x.Loader.Scanner.Reads.{unit_is-Reads, match_literal-Spells, unit_is_space-Reads}
use parse_x.Loader.Scanner.Ensures.{
  Ensures, gives, raises, if_Ensures, then-Ensures, weaken, unit_is-le, unit_width-pos,
}
use parse_x.Loader.Scanner.Skips.{Enough, Enough-step, Enough-start, and-true}
use parse_x.Loader.Scanner.Tags.{seek_tag-Ensures}

module _ (bytes : Text) (encoding : RawEncodingClass) (name : Text) where
  abbrev v : ℕ
  v = unit_width encoding

  -- The place `r` is past blanks only: a tag that ends after it ends so from `p` on.
  record IsPastBlanks (p r : ℕ) : Type 0 where
    from : p ≤ r
    blanks_only : (end : ℕ) → BlankRest bytes encoding end r → BlankRest bytes encoding end p

  skip_spaces-IsPastBlanks :
      (f p : ℕ)
      → Enough (length bytes) f p
      → Ensures (IsPastBlanks p) (skip_spaces bytes encoding name f p)
  unfolding skip_spaces
  skip_spaces-IsPastBlanks zero p h = absurd (omega arith)
  skip_spaces-IsPastBlanks (suc f) p h =
      if_Ensures (ltb p (length bytes) && unit_is_space bytes encoding p)
        (λ both.
          let r = and-true _ _ both in
          let hp = ltb→lt p (length bytes) r.0 in
          let hw = unit_width-pos encoding in
          weaken (skip_spaces-IsPastBlanks f (p + v) (Enough-step (length bytes) f p v hw hp h))
            (λ r' k. record {
              from = omega (arith, k.from);
              blanks_only =
                  λ end e. blank (unit_is_space-Reads bytes encoding p r.1) (k.blanks_only end e);
            }))
        (λ _. gives (record { from = omega arith; blanks_only = λ end e. e }))

module _ (bytes : Text) (encoding : RawEncodingClass) (name : Text) where
  abbrev u : ℕ
  u = unit_width encoding

  end_tag_at-IsEndTag :
      (cursor o : ℕ)
      → cursor ≤ o
      → unit_is bytes encoding o b'<' ≡ true
      → Ensures (IsEndTag bytes encoding name cursor) (end_tag_at bytes encoding name o)
  unfolding end_tag_at
  end_tag_at-IsEndTag cursor o hc lt =
      if_Ensures
        (unit_is bytes encoding (o + u) b'/' && match_literal bytes encoding (o + u + u) name)
        (λ both.
          then-Ensures
            (skip_spaces-IsPastBlanks bytes encoding name (suc (length bytes))
              (o + u + u + length name * u)
              (Enough-start (length bytes) (o + u + u + length name * u)))
            (λ p k.
              if_Ensures (unit_is bytes encoding p b'>')
                (λ close. gives (found p k (and-true _ _ both) close)) (λ _. raises)))
        (λ _. raises)
    where
      found :
          (p : ℕ)
          → IsPastBlanks bytes encoding name (o + u + u + length name * u) p
          → (unit_is bytes encoding (o + u) b'/' ≡ true)
            × (match_literal bytes encoding (o + u + u) name ≡ true)
          → unit_is bytes encoding p b'>' ≡ true
          → IsEndTag bytes encoding name cursor (p + u)
      found p k both close = record {
        open_pos = o;
        from_cursor = hc;
        opens = unit_is-Reads bytes encoding o b'<' lt;
        slash = unit_is-Reads bytes encoding (o + u) b'/' both.0;
        named = match_literal-Spells bytes encoding (o + u + u) name both.1;
        rest = k.blanks_only (p + u) (ends (unit_is-Reads bytes encoding p b'>' close) refl);
        past_name = grind (arith, k.from, unit_width-pos encoding);
        inside = unit_is-le bytes encoding p b'>' close;
      }

  pub scan_end_tag-IsEndTag :
      (cursor : ℕ)
      → Ensures (IsEndTag bytes encoding name cursor) (scan_end_tag bytes encoding name cursor)
  unfolding scan_end_tag
  scan_end_tag-IsEndTag cursor =
      if_Ensures (has_non_ascii name) (λ _. raises)
        (λ _.
          seek_tag-Ensures bytes encoding (end_tag_at bytes encoding name) (suc (length bytes))
            cursor (Enough-start (length bytes) cursor)
            (λ o k lt. end_tag_at-IsEndTag cursor o k lt))
