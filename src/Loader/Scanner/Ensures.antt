-- ===== src/Loader/Scanner/Ensures.antt =====
-- A result that is not exhausted, and of which something holds where it is there; and what a unit
-- that is read says of its place (the loops of libparsex/src/loader.cpp).
use parse_x.Base.{
  ℕ, zero, suc, ◌+◌, ◌*◌, ◌≤◌, ◌<◌, Bool, true, false, Option, none, some, [], ◌∷◌, ◌≡◌, refl, ap,
  arith, if◌then◌else◌, length, get_elem?, ==_iff,
}
use parse_x.Base.Text.{Text}
use parse_x.Loader.Encoding.{RawEncodingClass, single_byte, utf16_le, utf16_be, unit_width}
use parse_x.Loader.Scanner.{Scan, ok, raised, ScanError, and_then_scan}
use parse_x.Loader.Scanner.Units.{unit_ascii, ascii_byte, low_byte, is_unit, unit_is, match_literal}

pub data Ensures {ℓ κ} {A : Type ℓ} (P : A → Type κ) : Scan A → Type (ℓ ⊔ κ) where
  gives : {a : A} → P a → Ensures P (ok a)
  raises : {e : ScanError} → Ensures P (raised e)

pub if_Ensures {ℓ κ} :
    {A : Type ℓ} {P : A → Type κ} (b : Bool) {x y : Scan A}
    → (b ≡ true → Ensures P x)
    → (b ≡ false → Ensures P y)
    → Ensures P (if b then x else y)
if_Ensures true p q = p refl
if_Ensures false p q = q refl

pub then-Ensures {ℓ κ λ' μ} :
    {A : Type ℓ} {B : Type κ} {Q : A → Type λ'} {P : B → Type μ} {m : Scan A} {f : A → Scan B}
    → Ensures Q m
    → ((a : A) → Q a → Ensures P (f a))
    → Ensures P (and_then_scan m f)
unfolding and_then_scan
then-Ensures (gives {a} q) h = h a q
then-Ensures raises h = raises

pub both {ℓ κ μ} :
    {A : Type ℓ} {P : A → Type κ} {Q : A → Type μ} {m : Scan A}
    → Ensures P m
    → Ensures Q m
    → Ensures (λ a. P a × Q a) m
both (gives p) (gives q) = gives (p, q)
both raises raises = raises

pub weaken {ℓ κ μ} :
    {A : Type ℓ} {P : A → Type κ} {Q : A → Type μ} {m : Scan A}
    → Ensures P m
    → ((a : A) → P a → Q a)
    → Ensures Q m
weaken (gives {a} p) h = gives (h a p)
weaken raises h = raises

get_elem?-lt : (bytes : Text) (i b : ℕ) → get_elem? bytes i ≡ some b → i < length bytes
get_elem?-lt [] i b h = absurd (cc)
get_elem?-lt (x ∷ bytes) zero b h = omega arith
get_elem?-lt (x ∷ bytes) (suc i) b h = omega (arith, get_elem?-lt bytes i b h)

ascii_byte-some : (o : Option ℕ) (c : ℕ) → ascii_byte o ≡ some c → (b : ℕ) × (o ≡ some b)
ascii_byte-some none c h = absurd (cc)
ascii_byte-some (some b) c h = (b, refl)

low_byte-some :
    (o p : Option ℕ) (c : ℕ)
    → low_byte o p ≡ some c
    → ((b : ℕ) × (o ≡ some b)) × ((b : ℕ) × (p ≡ some b))
low_byte-some none p c h = absurd (cc)
low_byte-some (some a) none c h = absurd (cc)
low_byte-some (some a) (some b) c h = ((a, refl), (b, refl))

-- An ASCII unit stands in the file with all its bytes.
pub unit_ascii-le :
    (bytes : Text) (encoding : RawEncodingClass) (p c : ℕ)
    → unit_ascii bytes encoding p ≡ some c
    → p + unit_width encoding ≤ length bytes
unfolding unit_ascii
unit_ascii-le bytes single_byte p c h =
    let r = ascii_byte-some (get_elem? bytes p) c h in omega (arith, get_elem?-lt bytes p r.0 r.1)
unit_ascii-le bytes utf16_le p c h =
    let r = low_byte-some (get_elem? bytes p) (get_elem? bytes (suc p)) c h in
    omega (arith, get_elem?-lt bytes (suc p) r.1.0 r.1.1)
unit_ascii-le bytes utf16_be p c h =
    let r = low_byte-some (get_elem? bytes (suc p)) (get_elem? bytes p) c h in
    omega (arith, get_elem?-lt bytes (suc p) r.0.0 r.0.1)

pub is_unit-some : (u : Option ℕ) (c : ℕ) → is_unit u (some c) ≡ true → u ≡ some c
is_unit-some none c h = absurd (cc)
is_unit-some (some a) c h = ap some ((==_iff a c).0 h)

pub unit_is-le :
    (bytes : Text) (encoding : RawEncodingClass) (p c : ℕ)
    → unit_is bytes encoding p c ≡ true
    → p + unit_width encoding ≤ length bytes
unfolding unit_is
unit_is-le bytes encoding p c h =
    unit_ascii-le bytes encoding p c (is_unit-some (unit_ascii bytes encoding p) c h)

pub unit_width-pos : (encoding : RawEncodingClass) → 1 ≤ unit_width encoding
unit_width-pos single_byte = omega arith
unit_width-pos utf16_le = omega arith
unit_width-pos utf16_be = omega arith

pub if-true : (b c : Bool) → (if b then c else false) ≡ true → (b ≡ true) × (c ≡ true)
if-true b c h = ground arith

-- A literal that matches stands in the file with all its bytes.
pub match_literal-le :
    (bytes : Text) (encoding : RawEncodingClass) (p : ℕ) (literal : Text)
    → p ≤ length bytes
    → match_literal bytes encoding p literal ≡ true
    → p + length literal * unit_width encoding ≤ length bytes
unfolding match_literal
match_literal-le bytes encoding p [] hp h = omega arith
match_literal-le bytes encoding p (c ∷ literal) hp h =
    let r = if-true (unit_is bytes encoding p c) _ h in
    let inside = unit_is-le bytes encoding p c r.0 in
    let rest = match_literal-le bytes encoding (p + unit_width encoding) literal inside r.1 in
    grind arith
