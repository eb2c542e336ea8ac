-- ===== src/Export/Dbc/Names.antt =====
-- The names in a DBC file (`ident` of libparsex/src/export/dbc_writer.cpp).
use parse_x.Base.{
  ℕ, ◌≤◌, true, false, List, [], ◌∷◌, ◌≡◌, ◌⊎◌, arith, refl, ap, ◌∙◌, ◌↔◌, inl, inr, All, map,
  Bool-cases, subst, ap,
}
use parse_x.Base.Text.{Text}
use parse_x.Export.Dbc.{is_decimal, is_valid, valid_letter, with_front, ident}

abbrev pub IsDigit : ℕ → Type 0
IsDigit c = (48 ≤ c) × (c ≤ 57)

-- 'A' to 'Z', 'a' to 'z', or '_'.
abbrev pub IsWordStart : ℕ → Type 0
IsWordStart c = ((65 ≤ c) × (c ≤ 90)) ⊎ ((97 ≤ c) × (c ≤ 122)) ⊎ (c ≡ 95)

-- A C identifier: letters, digits and '_', and no digit in front.
pub IsIdentifier : Text → Type 0
IsIdentifier [] = ⊥
IsIdentifier (c ∷ rest) = IsWordStart c × All (λ d. IsWordStart d ⊎ IsDigit d) rest

is_valid_iff : (c : ℕ) → (is_valid c ≡ true) ↔ (IsWordStart c ⊎ IsDigit c)
is_valid_iff c = (λ h. ground (arith, h), λ h. ground (arith, h))

IsWordStart-iff : (c : ℕ) → ((is_valid c ≡ true) × (is_decimal c ≡ false)) ↔ IsWordStart c
IsWordStart-iff c = (λ h. ground (arith, h), λ h. ground (arith, h))

All-iff {ℓ κ μ} :
    {A : Type ℓ} {P : A → Type κ} {Q : A → Type μ} (xs : List A)
    → ((a : A) → P a → Q a)
    → All P xs
    → All Q xs
All-iff [] h k = tt
All-iff (x ∷ xs) h k = (h x k.0, All-iff xs h k.1)

valid_letter-valid : (c : ℕ) → is_valid (valid_letter c) ≡ true
valid_letter-valid c = elim (Bool-cases (is_valid c)) [ inl t ↦ rw t t | inr e ↦ rw e refl ]

All-valid : (s : Text) → All (λ d. is_valid d ≡ true) (map valid_letter s)
All-valid [] = tt
All-valid (c ∷ s) = (valid_letter-valid c, All-valid s)

with_front-IsIdentifier : (s : Text) → All (λ d. is_valid d ≡ true) s → IsIdentifier (with_front s)
unfolding IsIdentifier
with_front-IsIdentifier [] h = (inr (inr refl), tt)
with_front-IsIdentifier (c ∷ s) h = elim (Bool-cases (is_decimal c)) [
  | inl t ↦ rw t (inr (inr refl), All-iff (c ∷ s) (λ d. (is_valid_iff d).0) h)
  | inr e ↦ rw e ((IsWordStart-iff c).0 (h.0, e), All-iff s (λ d. (is_valid_iff d).0) h.1)
]

map-valid : (s : Text) → All (λ d. is_valid d ≡ true) s → map valid_letter s ≡ s
map-valid [] h = refl
map-valid (c ∷ s) h = rw h.0 (ap (λ t. c ∷ t) (map-valid s h.1))

ident-fixed : (s : Text) → IsIdentifier s → ident s ≡ s
unfolding IsIdentifier ident
ident-fixed [] h = elim h [ ]
ident-fixed (c ∷ s) h =
    let first = (IsWordStart-iff c).1 h.0 in
    let rest = All-iff s (λ d. (is_valid_iff d).1) h.1 in
    ap with_front (map-valid (c ∷ s) (first.0, rest)) ∙ (rw first.1 refl)

ident_sound : (s : Text) → IsIdentifier (ident s)
unfolding ident
ident_sound s = with_front-IsIdentifier (map valid_letter s) (All-valid s)

-- Whatever the name is, `ident` makes an identifier of it: a letter from 'A' to 'Z' or 'a' to 'z' or
-- '_', and then such letters and the digits '0' to '9'. It leaves a name as it is if and only if that
-- is such an identifier.
pub ident-IsIdentifier :
    (name : Text) → IsIdentifier (ident name) × ((ident name ≡ name) ↔ IsIdentifier name)
ident-IsIdentifier name =
    (ident_sound name, (λ e. subst IsIdentifier e (ident_sound name), λ h. ident-fixed name h))
