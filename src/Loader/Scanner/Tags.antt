-- ===== src/Loader/Scanner/Tags.antt =====
-- The tags that the scanner finds (`scanStartTag`, `scanEndTag` of libparsex/src/loader.cpp).
use parse_x.Base.{
  ℕ, zero, suc, ◌+◌, ◌*◌, ◌≤◌, ◌<◌, Bool, true, false, Option, none, some, ◌≡◌, refl, arith, length,
  ltb, ltb→lt, ◌&&◌, not, subst,
}
use parse_x.Base.Text.{Text}
use parse_x.Loader.Encoding.{RawEncodingClass, unit_width}
use parse_x.Loader.Scanner.{
  Scan, StartTagBounds, is_quote, seek_tag, has_non_ascii, seek_tag_end, start_tag_at,
  scan_start_tag,
}
use parse_x.Loader.Scanner.Units.{unit_ascii, is_unit, unit_is, unit_is_space, match_literal}
use parse_x.Loader.Markup.{
  Reads, ReadsOneOf, after_name, TagRest, ends, ends_closed, quotes, plain, IsStartTag,
}
use parse_x.Loader.Scanner.Reads.{
  unit_is-Reads, Reads-unit_is, match_literal-Spells, name_ends-Reads, plain-not_Reads,
}
use parse_x.Loader.Scanner.Quotes.{IsQuoted, skip_quoted-IsQuoted}
use parse_x.Loader.Scanner.Ensures.{
  Ensures, gives, raises, if_Ensures, then-Ensures, weaken, unit_is-le, unit_width-pos,
}
use parse_x.Loader.Scanner.Skips.{
  Enough, Enough-step, Enough-jump, Enough-start, and-true, PastSome, skip_special_unit-PastSome,
}

module _ (bytes : Text) (encoding : RawEncodingClass) where
  abbrev w : ℕ
  w = unit_width encoding

  -- What `tag_at` ensures at each '<' from `p` on, the outer loop ensures.
  pub seek_tag-Ensures :
      {A : Type 0} {P : A → Type 0} (tag_at : ℕ → Scan A) (f p : ℕ)
      → Enough (length bytes) f p
      → ((q : ℕ) → p ≤ q → unit_is bytes encoding q b'<' ≡ true → Ensures P (tag_at q))
      → Ensures P (seek_tag bytes encoding tag_at f p)
  unfolding seek_tag
  seek_tag-Ensures tag_at zero p h at = absurd (omega arith)
  seek_tag-Ensures {A} {P} tag_at (suc f) p h at =
      if_Ensures (ltb p (length bytes))
        (λ inside.
          let hp = ltb→lt p (length bytes) inside in
          let hw = unit_width-pos encoding in
          if_Ensures (not (unit_is bytes encoding p b'<'))
            (λ _.
              seek_tag-Ensures tag_at f (p + w) (Enough-step (length bytes) f p w hw hp h)
                (λ q k e. at q (omega arith) e))
            (λ lt. then-Ensures (skip_special_unit-PastSome bytes encoding p) (λ o k.
              next (not-false _ lt)
                (λ q g.
                  seek_tag-Ensures tag_at f q (Enough-jump (length bytes) f p q g hp h)
                    (λ r k e. at r (omega arith) e))
                o k)))
        (λ _. raises)
    where
      next :
          unit_is bytes encoding p b'<' ≡ true
          → ((q : ℕ) → p < q → Ensures P (seek_tag bytes encoding tag_at f q))
          → (o : Option ℕ) → PastSome bytes encoding p o
          → Ensures P (elim o [
            | none ↦ tag_at p
            | some skipped_pos ↦ seek_tag bytes encoding tag_at f skipped_pos
          ])
      next lt again none k = at p (omega arith) lt
      next lt again (some q) k = again q k.0

      not-false : (b : Bool) → not b ≡ false → b ≡ true
      not-false b e = ground arith

module _ (bytes : Text) (encoding : RawEncodingClass) (name : Text) where
  abbrev v : ℕ
  v = unit_width encoding

  -- The end of a tag opened at `o`, searched for from `p`.
  record EndsTag (o p : ℕ) (b : StartTagBounds) : Type 0 where
    opened : b.open_pos ≡ o
    past : p < b.tag_end_pos
    fits : b.tag_end_pos ≤ length bytes
    rest : TagRest bytes encoding b.tag_end_pos b.self_closed p

  -- The rest from a later place on is one from here on.
  further :
      {o p q : ℕ} {m : Scan StartTagBounds}
      → p ≤ q
      → ((end : ℕ) (closed : Bool)
          → TagRest bytes encoding end closed q
          → TagRest bytes encoding end closed p)
      → Ensures (EndsTag o q) m
      → Ensures (EndsTag o p) m
  further {o} {p} {q} h grow e = weaken e (λ b k. record {
    opened = k.opened;
    past = earlier k.past;
    fits = k.fits;
    rest = grow b.tag_end_pos b.self_closed k.rest;
  })
    where
      earlier : {n : ℕ} → q < n → p < n
      earlier k = omega arith

  quoted_rest :
      (p q : ℕ) (k : IsQuoted bytes encoding p q) (end : ℕ) (closed : Bool)
      → TagRest bytes encoding end closed q
      → TagRest bytes encoding end closed p
  quoted_rest p q k end closed r =
      quotes k.quote k.closes.0 k.is_quote_mark k.opens k.closes.2
        (subst (TagRest bytes encoding end closed) k.closes.1 r)

  not-both :
      (p : ℕ)
      → (unit_is bytes encoding p b'/' && unit_is bytes encoding (p + v) b'>') ≡ false
      → ¬ (Reads bytes encoding p b'/' × Reads bytes encoding (p + v) b'>')
  not-both p f r =
      let slash = Reads-unit_is bytes encoding p b'/' (omega arith) r.0 in
      let close = Reads-unit_is bytes encoding (p + v) b'>' (omega arith) r.1 in
      absurd (ground (arith, f, slash, close))

  seek_tag_end-EndsTag :
      (o f p : ℕ)
      → Enough (length bytes) f p
      → Ensures (EndsTag o p) (seek_tag_end bytes encoding name o f p)
  unfolding seek_tag_end unit_is
  seek_tag_end-EndsTag o zero p h = absurd (omega arith)
  seek_tag_end-EndsTag o (suc f) p h =
      if_Ensures (ltb p (length bytes))
        (λ inside.
          let hp = ltb→lt p (length bytes) inside in
          let hw = unit_width-pos encoding in
          if_Ensures (is_quote bytes encoding (unit_ascii bytes encoding p))
            (λ quote. then-Ensures (skip_quoted-IsQuoted bytes encoding p quote) (λ q k.
              further (omega (arith, k.past)) (quoted_rest p q k)
                (seek_tag_end-EndsTag o f q (Enough-jump (length bytes) f p q k.past hp h))))
            (λ no_quote.
              if_Ensures (is_unit (unit_ascii bytes encoding p) (some b'>'))
                (λ close. gives (record {
                  opened = refl;
                  past = omega arith;
                  fits = unit_is-le bytes encoding p b'>' close;
                  rest = ends (unit_is-Reads bytes encoding p b'>' close) refl refl;
                }))
                (λ no_close.
                  if_Ensures
                    (is_unit (unit_ascii bytes encoding p) (some b'/')
                      && unit_is bytes encoding (p + v) b'>')
                    (λ slash_close.
                      let r = and-true _ _ slash_close in
                      gives (record {
                        opened = refl;
                        past = omega arith;
                        fits = ending (unit_is-le bytes encoding (p + v) b'>' r.1);
                        rest =
                            ends_closed (unit_is-Reads bytes encoding p b'/' r.0)
                              (unit_is-Reads bytes encoding (p + v) b'>' r.1) refl refl;
                      }))
                    (λ no_end.
                      further (omega arith)
                        (λ end closed.
                          plain (plain-not_Reads bytes encoding p no_quote no_close)
                            (not-both p no_end))
                        (seek_tag_end-EndsTag o f (p + v)
                          (Enough-step (length bytes) f p v hw hp h))))))
        (λ _. raises)
    where
      ending : p + v + v ≤ length bytes → p + 2 * v ≤ length bytes
      ending k = omega arith

  start_tag_at-IsStartTag :
      (cursor o : ℕ)
      → cursor ≤ o
      → unit_is bytes encoding o b'<' ≡ true
      → Ensures (IsStartTag bytes encoding name cursor) (start_tag_at bytes encoding name o)
  unfolding start_tag_at
  start_tag_at-IsStartTag cursor o hc lt =
      if_Ensures (unit_is bytes encoding (o + v) b'/') (λ _. raises)
        (λ _.
          if_Ensures (not (match_literal bytes encoding (o + v) name)) (λ _. raises)
            (λ m.
              if_Ensures
                (not (unit_is_space bytes encoding (o + v + length name * v))
                  && (not (unit_is bytes encoding (o + v + length name * v) b'/')
                      && not (unit_is bytes encoding (o + v + length name * v) b'>')))
                (λ _. raises)
                (λ bound.
                  weaken
                    (seek_tag_end-EndsTag o (suc (length bytes)) (o + v + length name * v)
                      (Enough-start (length bytes) (o + v + length name * v)))
                    (λ b k.
                      found b k (not-false _ m)
                        (name_ends-Reads bytes encoding (o + v + length name * v) bound)))))
    where
      not-false : (b : Bool) → not b ≡ false → b ≡ true
      not-false b e = ground arith

      found :
          (b : StartTagBounds)
          → EndsTag o (o + v + length name * v) b
          → match_literal bytes encoding (o + v) name ≡ true
          → ReadsOneOf bytes encoding after_name (o + v + length name * v)
          → IsStartTag bytes encoding name cursor b
      found b k m bound = record {
        from_cursor = rw k.opened hc;
        opens = rw k.opened (unit_is-Reads bytes encoding o b'<' lt);
        named = rw k.opened (match_literal-Spells bytes encoding (o + v) name m);
        name_ends = rw k.opened bound;
        rest = rw k.opened k.rest;
        past_name = rw k.opened (grind (arith, k.past));
        inside = k.fits;
      }

  pub scan_start_tag-IsStartTag :
      (cursor : ℕ)
      → Ensures (IsStartTag bytes encoding name cursor) (scan_start_tag bytes encoding name cursor)
  unfolding scan_start_tag
  scan_start_tag-IsStartTag cursor =
      if_Ensures (has_non_ascii name) (λ _. raises)
        (λ _.
          seek_tag-Ensures bytes encoding (start_tag_at bytes encoding name) (suc (length bytes))
            cursor (Enough-start (length bytes) cursor)
            (λ o k lt. start_tag_at-IsStartTag cursor o k lt))
