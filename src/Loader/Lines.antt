-- ===== src/Loader/Lines.antt =====
-- The line of a place in the file (`lineNumberAt` of libparsex/src/loader.cpp), by the line feeds
-- among the units before it.
use parse_x.Base.{
  ℕ, zero, suc, ◌*◌, ◌/◌, ◌%◌, ◌≤◌, ◌<◌, Bool, true, false, Option, none, some, [], ◌∷◌, ◌==◌, ◌&&◌,
  ◌≡◌, refl, ap, ◌∙◌, sym, arith, get_elem?, if◌then◌else◌, Bool-cases, inl, inr, ◌⊎◌,
}
use parse_x.Base.Text.{Text}
use parse_x.Loader.Encoding.{RawEncodingClass, single_byte, utf16_le, utf16_be, unit_width, take}
use parse_x.Loader.{count_breaks, line_number_at}
use parse_x.Loader.Markup.{Reads}

-- Among the first `k` units of the file are `n` line feeds.
pub data Breaks (bytes : Text) (encoding : RawEncodingClass) : ℕ → ℕ → Type 0 where
  start : Breaks bytes encoding 0 0
  break :
      {k n : ℕ}
      → Reads bytes encoding (k * unit_width encoding) 10
      → Breaks bytes encoding k n
      → Breaks bytes encoding (suc k) (suc n)
  no_break :
      {k n : ℕ}
      → ¬ Reads bytes encoding (k * unit_width encoding) 10
      → Breaks bytes encoding k n
      → Breaks bytes encoding (suc k) n

-- The line of an offset is one more than the line feeds among the whole units before it.
pub record IsLineOf (bytes : Text) (encoding : RawEncodingClass) (offset line : ℕ) : Type 0 where
  pub units : ℕ
  pub breaks : ℕ
  pub before : units * unit_width encoding ≤ offset
  pub last : offset < suc units * unit_width encoding
  pub counted : Breaks bytes encoding units breaks
  pub line_eq : line ≡ suc breaks

-- The test of one unit.
abbrev is_break : Option ℕ → Option ℕ → Bool
is_break (some a) (some b) = a == 10 && b == 0
is_break _ _ = false

abbrev breaks_at : Text → RawEncodingClass → ℕ → Bool
breaks_at bytes single_byte p = is_break (get_elem? bytes p) (some 0)
breaks_at bytes utf16_le p = is_break (get_elem? bytes p) (get_elem? bytes (suc p))
breaks_at bytes utf16_be p = is_break (get_elem? bytes (suc p)) (get_elem? bytes p)

is_break_iff-true : (o p : Option ℕ) → is_break o p ≡ true → (o ≡ some 10) × (p ≡ some 0)
is_break_iff-true none p h = absurd (cc)
is_break_iff-true (some a) none h = absurd (cc)
is_break_iff-true (some a) (some b) h = ground arith

is_break-false : (o p : Option ℕ) → is_break o p ≡ false → o ≡ some 10 → p ≡ some 0 → ⊥
is_break-false none p h e f = absurd (cc)
is_break-false (some a) none h e f = absurd (cc)
is_break-false (some a) (some b) h e f = absurd (ground (arith, h, e, f))

breaks_at-Reads :
    (bytes : Text) (encoding : RawEncodingClass) (p : ℕ)
    → breaks_at bytes encoding p ≡ true
    → Reads bytes encoding p 10
unfolding Reads
breaks_at-Reads bytes single_byte p h = (is_break_iff-true (get_elem? bytes p) (some 0) h).0
breaks_at-Reads bytes utf16_le p h =
    is_break_iff-true (get_elem? bytes p) (get_elem? bytes (suc p)) h
breaks_at-Reads bytes utf16_be p h =
    let r = is_break_iff-true (get_elem? bytes (suc p)) (get_elem? bytes p) h in (r.1, r.0)

not_breaks_at-Reads :
    (bytes : Text) (encoding : RawEncodingClass) (p : ℕ)
    → breaks_at bytes encoding p ≡ false
    → ¬ Reads bytes encoding p 10
unfolding Reads
not_breaks_at-Reads bytes single_byte p h r = is_break-false (get_elem? bytes p) (some 0) h r refl
not_breaks_at-Reads bytes utf16_le p h r =
    is_break-false (get_elem? bytes p) (get_elem? bytes (suc p)) h r.0 r.1
not_breaks_at-Reads bytes utf16_be p h r =
    is_break-false (get_elem? bytes (suc p)) (get_elem? bytes p) h r.1 r.0

-- One unit more.
abbrev plus : Bool → ℕ → ℕ
plus b n = if b then suc n else n

plus-plus : (a b : Bool) (n : ℕ) → plus a (plus b n) ≡ plus b (plus a n)
plus-plus a b n = ground arith

take-nil : (k : ℕ) → take k [] ≡ []
take-nil zero = refl
take-nil (suc k) = refl

count_breaks-single :
    (k : ℕ) (bytes : Text)
    → count_breaks single_byte (take (suc k) bytes)
      ≡ plus (breaks_at bytes single_byte k) (count_breaks single_byte (take k bytes))
unfolding count_breaks
count_breaks-single k [] = ground (arith, take-nil k)
count_breaks-single zero (c ∷ bytes) = ground arith
count_breaks-single (suc k) (c ∷ bytes) =
    ap (plus (c == 10)) (count_breaks-single k bytes)
    ∙ plus-plus (c == 10) (breaks_at bytes single_byte k) _

-- Two bytes for each unit.
abbrev twice : ℕ → ℕ
twice zero = zero
twice (suc k) = suc (suc (twice k))

twice-eq : (k : ℕ) → twice k ≡ k * 2
twice-eq zero = refl
twice-eq (suc k) = omega (arith, twice-eq k)

count_breaks-le :
    (k : ℕ) (bytes : Text)
    → count_breaks utf16_le (take (suc (suc (twice k))) bytes)
      ≡ plus (breaks_at bytes utf16_le (twice k)) (count_breaks utf16_le (take (twice k) bytes))
unfolding count_breaks
count_breaks-le k [] = ground (arith, take-nil (twice k))
count_breaks-le zero (a ∷ []) = refl
count_breaks-le (suc k) (a ∷ []) = ground (arith, take-nil (twice k))
count_breaks-le zero (a ∷ b ∷ bytes) = ground arith
count_breaks-le (suc k) (a ∷ b ∷ bytes) =
    ap (plus (a == 10 && b == 0)) (count_breaks-le k bytes)
    ∙ plus-plus (a == 10 && b == 0) (breaks_at bytes utf16_le (twice k)) _

count_breaks-be :
    (k : ℕ) (bytes : Text)
    → count_breaks utf16_be (take (suc (suc (twice k))) bytes)
      ≡ plus (breaks_at bytes utf16_be (twice k)) (count_breaks utf16_be (take (twice k) bytes))
unfolding count_breaks
count_breaks-be k [] = ground (arith, take-nil (twice k))
count_breaks-be zero (a ∷ []) = ground arith
count_breaks-be (suc k) (a ∷ []) = ground (arith, take-nil (twice k))
count_breaks-be zero (a ∷ b ∷ bytes) = ground arith
count_breaks-be (suc k) (a ∷ b ∷ bytes) =
    ap (plus (a == 0 && b == 10)) (count_breaks-be k bytes)
    ∙ plus-plus (a == 0 && b == 10) (breaks_at bytes utf16_be (twice k)) _

-- A half unit at the end counts for nothing.
count_breaks-half_le :
    (k : ℕ) (bytes : Text)
    → count_breaks utf16_le (take (suc (twice k)) bytes)
      ≡ count_breaks utf16_le (take (twice k) bytes)
unfolding count_breaks
count_breaks-half_le zero [] = refl
count_breaks-half_le zero (a ∷ bytes) = refl
count_breaks-half_le (suc k) [] = refl
count_breaks-half_le (suc k) (a ∷ []) = refl
count_breaks-half_le (suc k) (a ∷ b ∷ bytes) =
    ap (plus (a == 10 && b == 0)) (count_breaks-half_le k bytes)

count_breaks-half_be :
    (k : ℕ) (bytes : Text)
    → count_breaks utf16_be (take (suc (twice k)) bytes)
      ≡ count_breaks utf16_be (take (twice k) bytes)
unfolding count_breaks
count_breaks-half_be zero [] = refl
count_breaks-half_be zero (a ∷ bytes) = refl
count_breaks-half_be (suc k) [] = refl
count_breaks-half_be (suc k) (a ∷ []) = refl
count_breaks-half_be (suc k) (a ∷ b ∷ bytes) =
    ap (plus (a == 0 && b == 10)) (count_breaks-half_be k bytes)

count_breaks-step :
    (bytes : Text) (encoding : RawEncodingClass) (k : ℕ)
    → count_breaks encoding (take (suc k * unit_width encoding) bytes)
      ≡ plus
          (breaks_at bytes encoding (k * unit_width encoding))
          (count_breaks encoding (take (k * unit_width encoding) bytes))
count_breaks-step bytes single_byte k =
    let e : suc k * 1 ≡ suc k = omega arith in
    let f : k * 1 ≡ k = omega arith in rw (e, f) (count_breaks-single k bytes)
count_breaks-step bytes utf16_le k =
    rw (sym (twice-eq (suc k)), sym (twice-eq k)) (count_breaks-le k bytes)
count_breaks-step bytes utf16_be k =
    rw (sym (twice-eq (suc k)), sym (twice-eq k)) (count_breaks-be k bytes)

module _ (bytes : Text) (encoding : RawEncodingClass) where
  abbrev w : ℕ
  w = unit_width encoding

  count_breaks-Breaks :
      (k : ℕ) → Breaks bytes encoding k (count_breaks encoding (take (k * w) bytes))
  unfolding count_breaks
  count_breaks-Breaks zero = let e : 0 * w ≡ 0 = omega arith in rw e (nothing encoding)
    where
      nothing : (e : RawEncodingClass) → Breaks bytes encoding 0 (count_breaks e [])
      nothing single_byte = start
      nothing utf16_le = start
      nothing utf16_be = start
  count_breaks-Breaks (suc k) =
      let ih = count_breaks-Breaks k in
      rw (count_breaks-step bytes encoding k)
        (elim (Bool-cases (breaks_at bytes encoding (k * w))) [
          | inl t ↦ rw t (break (breaks_at-Reads bytes encoding (k * w) t) ih)
          | inr f ↦ rw f (no_break (not_breaks_at-Reads bytes encoding (k * w) f) ih)
        ])

  line_at-units :
      (k offset : ℕ)
      → k * w ≤ offset
      → offset < suc k * w
      → count_breaks encoding (take offset bytes) ≡ count_breaks encoding (take (k * w) bytes)
      → IsLineOf bytes encoding offset (line_number_at bytes encoding offset)
  unfolding line_number_at
  line_at-units k offset lo hi e = record {
    units = k;
    breaks = count_breaks encoding (take (k * w) bytes);
    before = lo;
    last = hi;
    counted = count_breaks-Breaks k;
    line_eq = rw e (omega arith);
  }

half-cases : (n : ℕ) → (n ≡ twice (n / 2)) ⊎ (n ≡ suc (twice (n / 2)))
half-cases n = elim (Bool-cases (n % 2 == 0)) [
  | inl t ↦ inl (ground (arith, t, twice-eq (n / 2)))
  | inr f ↦ inr (ground (arith, f, twice-eq (n / 2)))
]

pub line_number_at-IsLineOf :
    (bytes : Text) (encoding : RawEncodingClass) (offset : ℕ)
    → IsLineOf bytes encoding offset (line_number_at bytes encoding offset)
line_number_at-IsLineOf bytes single_byte offset =
    let e : offset * 1 ≡ offset = omega arith in
    line_at-units bytes single_byte offset offset (omega arith) (omega arith) (rw e refl)
line_number_at-IsLineOf bytes utf16_le offset =
    line_at-units bytes utf16_le (offset / 2) offset (omega arith) (omega arith) (
      rw (sym (twice-eq (offset / 2))) (elim (half-cases offset) [
        | inl e ↦ ap (λ n. count_breaks utf16_le (take n bytes)) e
        | inr e ↦
            ap (λ n. count_breaks utf16_le (take n bytes)) e
            ∙ count_breaks-half_le (offset / 2) bytes
      ]))
line_number_at-IsLineOf bytes utf16_be offset =
    line_at-units bytes utf16_be (offset / 2) offset (omega arith) (omega arith) (
      rw (sym (twice-eq (offset / 2))) (elim (half-cases offset) [
        | inl e ↦ ap (λ n. count_breaks utf16_be (take n bytes)) e
        | inr e ↦
            ap (λ n. count_breaks utf16_be (take n bytes)) e
            ∙ count_breaks-half_be (offset / 2) bytes
      ]))
