-- ===== src/Loader/Scanner.antt =====
-- The scanner of raw markup in libparsex/src/loader.cpp. A position is a byte offset; a loop runs
-- on fuel, of which Tags and EndTags show that the length of the file and one more is enough.
pub mod Units
pub mod Ensures
pub mod Skips
pub mod Reads
pub mod Quotes
pub mod Tags
pub mod EndTags
use parse_x.Base.{
  ℕ, zero, suc, ◌+◌, ◌*◌, Bool, true, false, Option, none, some, List, [], ◌∷◌, ◌==◌, ◌||◌, ◌&&◌,
  not, ltb, leb, if◌then◌else◌, length,
}
use parse_x.Base.Text.{Text, codes}
use parse_x.Base.Int.{ℤ, pos, negsuc}
use parse_x.Loader.Encoding.{RawEncodingClass, unit_width}
use Units.{unit_ascii, unit_is, unit_is_space, match_literal, is_unit}

-- The exceptions of the scanner, by what they say.
pub data ScanError : Type 0 where
  unterminated_markup unterminated_value unterminated_declaration non_ascii_name : ScanError
  unexpected_end_tag unexpected_markup unterminated_start_tag end_of_input : ScanError

-- A loop's result; `exhausted` is a loop that has used up its fuel.
pub data Scan {ℓ} (A : Type ℓ) : Type ℓ where
  ok : A → Scan A
  raised : ScanError → Scan A
  exhausted : Scan A

unfoldable pub and_then_scan {ℓ κ} : {A : Type ℓ} {B : Type κ} → Scan A → (A → Scan B) → Scan B
and_then_scan (ok a) f = f a
and_then_scan (raised e) f = raised e
and_then_scan exhausted f = exhausted

unfoldable pub skipped : Scan ℕ → Scan (Option ℕ)
skipped m = and_then_scan m (λ p. ok (some p))

module _ (bytes : Text) (encoding : RawEncodingClass) where
  abbrev width : ℕ
  width = unit_width encoding

  -- The loop of `skipDelimited`.
  unfoldable pub skip_to : ℕ → Text → ℕ → Scan ℕ
  skip_to zero terminator scan_pos = exhausted
  skip_to (suc f) terminator scan_pos =
      let rest = skip_to f terminator (scan_pos + width) in
      if ltb scan_pos (length bytes)
      then (if match_literal bytes encoding scan_pos terminator
          then ok (scan_pos + length terminator * width)
          else rest)
      else raised unterminated_markup

  unfoldable pub skip_delimited : ℕ → Text → Scan ℕ
  skip_delimited open_pos terminator = skip_to (suc (length bytes)) terminator open_pos

  -- The loop of `skipQuoted`.
  unfoldable pub skip_to_quote : ℕ → Option ℕ → ℕ → Scan ℕ
  skip_to_quote zero quote scan_pos = exhausted
  skip_to_quote (suc f) quote scan_pos =
      let rest = skip_to_quote f quote (scan_pos + width) in
      if ltb scan_pos (length bytes)
      then (if is_unit (unit_ascii bytes encoding scan_pos) quote
          then ok (scan_pos + width)
          else rest)
      else raised unterminated_value

  unfoldable pub skip_quoted : ℕ → Scan ℕ
  skip_quoted quote_pos =
      skip_to_quote (suc (length bytes)) (unit_ascii bytes encoding quote_pos) (quote_pos + width)

  abbrev pub is_quote : Option ℕ → Bool
  is_quote code = is_unit code (some b'"') || is_unit code (some 39)

  abbrev up : ℤ → ℤ
  up (pos n) = pos (suc n)
  up (negsuc zero) = pos zero
  up (negsuc (suc n)) = negsuc n

  abbrev down : ℤ → ℤ
  down (pos zero) = negsuc zero
  down (pos (suc n)) = pos n
  down (negsuc n) = negsuc (suc n)

  abbrev pub is_zero : ℤ → Bool
  is_zero (pos zero) = true
  is_zero _ = false

  -- The depth after a unit.
  abbrev pub bracket_depth : Option ℕ → ℤ → ℤ
  bracket_depth code depth =
      if is_unit code (some b'[')
      then up depth
      else (if is_unit code (some b']') then down depth else depth)

  -- The loop of `skipDeclaration`.
  unfoldable pub skip_to_close : ℕ → ℤ → ℕ → Scan ℕ
  skip_to_close zero depth scan_pos = exhausted
  skip_to_close (suc f) depth scan_pos =
      let code = unit_ascii bytes encoding scan_pos in
      let quoted = and_then_scan (skip_quoted scan_pos) (skip_to_close f depth) in
      let rest = skip_to_close f (bracket_depth code depth) (scan_pos + width) in
      if ltb scan_pos (length bytes)
      then (if is_quote code
          then quoted
          else (if is_unit code (some b'>') && is_zero depth then ok (scan_pos + width) else rest))
      else raised unterminated_declaration

  unfoldable pub skip_declaration : ℕ → Scan ℕ
  skip_declaration open_pos = skip_to_close (suc (length bytes)) (pos zero) (open_pos + width)

  -- `none` where the unit is an element's tag.
  unfoldable pub skip_special_unit : ℕ → Scan (Option ℕ)
  skip_special_unit open_pos =
      if unit_is bytes encoding (open_pos + width) b'?'
      then skipped (skip_delimited open_pos (codes "?>"))
      else (if not (unit_is bytes encoding (open_pos + width) b'!')
          then ok none
          else (if match_literal bytes encoding open_pos (codes "<!--")
              then skipped (skip_delimited open_pos (codes "-->"))
              else (if match_literal bytes encoding open_pos (codes "<![CDATA[")
                  then skipped (skip_delimited open_pos (codes "]]>"))
                  else skipped (skip_declaration open_pos))))

  -- The outer loop that `scanStartTag` and `scanEndTag` share: over text and special units to the
  -- next tag, which is read by `tag_at`.
  unfoldable pub seek_tag {ℓ} : {A : Type ℓ} → (ℕ → Scan A) → ℕ → ℕ → Scan A
  seek_tag tag_at zero scan_pos = exhausted
  seek_tag tag_at (suc f) scan_pos =
      let rest = seek_tag tag_at f (scan_pos + width) in
      let special = and_then_scan (skip_special_unit scan_pos) (λ o. elim o [
        | none ↦ tag_at scan_pos
        | some skipped_pos ↦ seek_tag tag_at f skipped_pos
      ]) in
      if ltb scan_pos (length bytes)
      then (if not (unit_is bytes encoding scan_pos b'<') then rest else special)
      else raised end_of_input

pub record StartTagBounds : Type 0 where
  pub open_pos : ℕ
  pub tag_end_pos : ℕ
  pub self_closed : Bool

unfoldable pub has_non_ascii : Text → Bool
has_non_ascii [] = false
has_non_ascii (c ∷ cs) = leb 128 c || has_non_ascii cs

module _ (bytes : Text) (encoding : RawEncodingClass) (tag_name : Text) where
  abbrev width' : ℕ
  width' = unit_width encoding

  abbrev bounds : ℕ → ℕ → Bool → StartTagBounds
  bounds open_at end closed = record { open_pos = open_at; tag_end_pos = end; self_closed = closed }

  -- The inner loop of `scanStartTag`: to the first '>' outside quotes.
  unfoldable pub seek_tag_end : ℕ → ℕ → ℕ → Scan StartTagBounds
  seek_tag_end open_at zero tag_pos = exhausted
  seek_tag_end open_at (suc f) tag_pos =
      let code = unit_ascii bytes encoding tag_pos in
      let quoted = and_then_scan (skip_quoted bytes encoding tag_pos) (seek_tag_end open_at f) in
      let rest = seek_tag_end open_at f (tag_pos + width') in
      if ltb tag_pos (length bytes)
      then (if is_quote bytes encoding code
          then quoted
          else (if is_unit code (some b'>')
              then ok (bounds open_at (tag_pos + width') false)
              else (if is_unit code (some b'/') && unit_is bytes encoding (tag_pos + width') b'>'
                  then ok (bounds open_at (tag_pos + 2 * width') true)
                  else rest)))
      else raised unterminated_start_tag

  -- A start tag opened at `open_at`.
  unfoldable pub start_tag_at : ℕ → Scan StartTagBounds
  start_tag_at open_at =
      let name_pos = open_at + width' in
      let after_name = name_pos + length tag_name * width' in
      if unit_is bytes encoding name_pos b'/'
      then raised unexpected_end_tag
      else (if not (match_literal bytes encoding name_pos tag_name)
          then raised unexpected_markup
          else (if not (unit_is_space bytes encoding after_name)
                && (not (unit_is bytes encoding after_name b'/')
                    && not (unit_is bytes encoding after_name b'>'))
              then raised unexpected_markup
              else seek_tag_end open_at (suc (length bytes)) after_name))

  unfoldable pub scan_start_tag : ℕ → Scan StartTagBounds
  scan_start_tag cursor =
      if has_non_ascii tag_name
      then raised non_ascii_name
      else seek_tag bytes encoding start_tag_at (suc (length bytes)) cursor

  -- The inner loop of `scanEndTag`, which skips white space.
  unfoldable pub skip_spaces : ℕ → ℕ → Scan ℕ
  skip_spaces zero tag_pos = exhausted
  skip_spaces (suc f) tag_pos =
      let rest = skip_spaces f (tag_pos + width') in
      if ltb tag_pos (length bytes) && unit_is_space bytes encoding tag_pos
      then rest
      else ok tag_pos

  -- An end tag opened at `open_at`.
  unfoldable pub end_tag_at : ℕ → Scan ℕ
  end_tag_at open_at =
      let name_pos = open_at + width' in
      let after_slash = name_pos + width' in
      if unit_is bytes encoding name_pos b'/' && match_literal bytes encoding after_slash tag_name
      then and_then_scan (skip_spaces (suc (length bytes)) (after_slash + length tag_name * width'))
          (λ tag_pos.
            if unit_is bytes encoding tag_pos b'>'
            then ok (tag_pos + width')
            else raised unexpected_markup)
      else raised unexpected_markup

  unfoldable pub scan_end_tag : ℕ → Scan ℕ
  scan_end_tag cursor =
      if has_non_ascii tag_name
      then raised non_ascii_name
      else seek_tag bytes encoding end_tag_at (suc (length bytes)) cursor
