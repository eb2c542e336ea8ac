-- ===== src/Loader/Markup.antt =====
-- What markup is, apart from any scanner: units at a place of the file, names, blanks, and the rest
-- of a start tag and of an end tag (for libparsex/src/loader.cpp).
use parse_x.Base.{
  ℕ, suc, ◌+◌, ◌*◌, ◌≤◌, ◌<◌, Bool, true, false, some, List, [], ◌∷◌, ◌≡◌, In, length, get_elem?,
}
use parse_x.Base.Text.{Text}
use parse_x.Loader.Encoding.{RawEncodingClass, single_byte, utf16_le, utf16_be, unit_width}
use parse_x.Loader.Scanner.{StartTagBounds}

-- The unit at the place is the ASCII letter `c`.
unfoldable pub Reads : Text → RawEncodingClass → ℕ → ℕ → Type 0
Reads bytes single_byte p c = (get_elem? bytes p ≡ some c)
Reads bytes utf16_le p c = (get_elem? bytes p ≡ some c) × (get_elem? bytes (suc p) ≡ some 0)
Reads bytes utf16_be p c = (get_elem? bytes p ≡ some 0) × (get_elem? bytes (suc p) ≡ some c)

abbrev pub blanks : List ℕ
blanks = 32 ∷ 9 ∷ 13 ∷ 10 ∷ []

abbrev pub after_name : List ℕ
after_name = 32 ∷ 9 ∷ 13 ∷ 10 ∷ b'/' ∷ b'>' ∷ []

module _ (bytes : Text) (encoding : RawEncodingClass) where
  abbrev w : ℕ
  w = unit_width encoding

  -- The letters stand one after the other from the place on.
  abbrev pub Spells : ℕ → Text → Type 0
  Spells p [] = Unit
  Spells p (c ∷ cs) = Reads bytes encoding p c × Spells (p + w) cs

  -- The unit is one of the letters.
  abbrev pub ReadsOneOf : List ℕ → ℕ → Type 0
  ReadsOneOf cs p = (c : ℕ) × In c cs × Reads bytes encoding p c

  -- The first `c` from `p` on is at `q`.
  pub data FirstAt (c q : ℕ) : ℕ → Type 0 where
    here : {p : ℕ} → p ≡ q → Reads bytes encoding p c → FirstAt c q p
    later : {p : ℕ} → ¬ Reads bytes encoding p c → FirstAt c q (p + w) → FirstAt c q p

  -- The rest of a start tag from `p` on ends at `end`, with '>', or with '/' and '>' where it is
  -- closed: what comes before is quoted, or is neither a quote, nor '>', nor '/' before '>'.
  pub data TagRest (end : ℕ) (closed : Bool) : ℕ → Type 0 where
    ends :
        {p : ℕ} → Reads bytes encoding p b'>' → end ≡ p + w → closed ≡ false → TagRest end closed p
    ends_closed :
        {p : ℕ}
        → Reads bytes encoding p b'/'
        → Reads bytes encoding (p + w) b'>'
        → end ≡ p + 2 * w
        → closed ≡ true
        → TagRest end closed p
    quotes :
        {p : ℕ} (quote r : ℕ)
        → In quote (b'"' ∷ 39 ∷ [])
        → Reads bytes encoding p quote
        → FirstAt quote r (p + w)
        → TagRest end closed (r + w)
        → TagRest end closed p
    plain :
        {p : ℕ}
        → ¬ ReadsOneOf (b'"' ∷ 39 ∷ b'>' ∷ []) p
        → ¬ (Reads bytes encoding p b'/' × Reads bytes encoding (p + w) b'>')
        → TagRest end closed (p + w)
        → TagRest end closed p

  -- Only blanks from `p` up to a '>', after which `end` is.
  pub data BlankRest (end : ℕ) : ℕ → Type 0 where
    ends : {p : ℕ} → Reads bytes encoding p b'>' → end ≡ p + w → BlankRest end p
    blank : {p : ℕ} → ReadsOneOf blanks p → BlankRest end (p + w) → BlankRest end p

-- A start tag with the name from `cursor` on: '<', the name, then a blank, '/' or '>', and the rest
-- of a tag up to its end within the file.
pub record IsStartTag (bytes : Text) (encoding : RawEncodingClass) (name : Text) (cursor : ℕ)
    (b : StartTagBounds) : Type 0 where
  pub from_cursor : cursor ≤ b.open_pos
  pub opens : Reads bytes encoding b.open_pos b'<'
  pub named : Spells bytes encoding (b.open_pos + unit_width encoding) name
  pub name_ends :
      ReadsOneOf bytes encoding after_name
        (b.open_pos + unit_width encoding + length name * unit_width encoding)
  pub rest :
      TagRest bytes encoding b.tag_end_pos b.self_closed
        (b.open_pos + unit_width encoding + length name * unit_width encoding)
  pub past_name : b.open_pos + (1 + length name) * unit_width encoding < b.tag_end_pos
  pub inside : b.tag_end_pos ≤ length bytes

-- An end tag with the name from `cursor` on: '<', '/', the name, blanks, and '>' as the last unit.
pub record IsEndTag (bytes : Text) (encoding : RawEncodingClass) (name : Text) (cursor end : ℕ)
    : Type 0 where
  pub open_pos : ℕ
  pub from_cursor : cursor ≤ open_pos
  pub opens : Reads bytes encoding open_pos b'<'
  pub slash : Reads bytes encoding (open_pos + unit_width encoding) b'/'
  pub named : Spells bytes encoding (open_pos + unit_width encoding + unit_width encoding) name
  pub rest :
      BlankRest bytes encoding end
        (open_pos + unit_width encoding + unit_width encoding + length name * unit_width encoding)
  pub past_name : open_pos + (2 + length name) * unit_width encoding < end
  pub inside : end ≤ length bytes
