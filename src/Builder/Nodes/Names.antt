-- ===== src/Builder/Nodes/Names.antt =====
-- The short name of a reference (`shortNameOfRef` of libparsex/src/model_builder.cpp).
use parse_x.Base.{
  ℕ, false, [], ◌∷◌, ◌++◌, ◌≡◌, refl, ap, sym, ◌∙◌, ◌⊎◌, inl, inr, ◌==◌, arith, Bool-cases, In,
  here, there, ==_iff, subst,
}
use parse_x.Base.Text.{Text}
use parse_x.Validator.Tree.{trim_text}
use parse_x.Builder.Nodes.{after_slash, short_name_of_ref}

abbrev pub NoSlash : Text → Type 0
NoSlash s = ¬ In b'/' s

-- `name` is what stands after the last '/' of `whole`.
abbrev pub IsAfterSlash : Text → Text → Type 0
IsAfterSlash whole name = (dir : Text) × (whole ≡ dir ++ b'/' ∷ name) × NoSlash name

abbrev AfterSlash : Text → Text → Text → Type 0
AfterSlash acc s name = ((name ≡ acc) × NoSlash s) ⊎ IsAfterSlash s name

NoSlash-cons : (c : ℕ) (s : Text) → (c == b'/') ≡ false → NoSlash s → NoSlash (c ∷ s)
NoSlash-cons c s h free (here e) = ground arith
NoSlash-cons c s h free (there k) = free k

NoSlash-nil : NoSlash []
NoSlash-nil h = elim h [ ]

at_slash : (c : ℕ) (s name : Text) → c ≡ b'/' → AfterSlash s s name → IsAfterSlash (c ∷ s) name
at_slash c s name h (inl (e, free)) =
    ([], ap (λ d. d ∷ s) h ∙ ap (λ t. b'/' ∷ t) (sym e), subst NoSlash (sym e) free)
at_slash c s name h (inr (dir, e, free)) = (c ∷ dir, ap (λ t. c ∷ t) e, free)

past_other :
    (acc : Text) (c : ℕ) (s name : Text)
    → (c == b'/') ≡ false
    → AfterSlash acc s name
    → AfterSlash acc (c ∷ s) name
past_other acc c s name h (inl (e, free)) = inl (e, NoSlash-cons c s h free)
past_other acc c s name h (inr (dir, e, free)) = inr (c ∷ dir, ap (λ t. c ∷ t) e, free)

after_slash-AfterSlash : (acc s : Text) → AfterSlash acc s (after_slash acc s)
unfolding after_slash
after_slash-AfterSlash acc [] = inl (refl, NoSlash-nil)
after_slash-AfterSlash acc (c ∷ s) = elim (Bool-cases (c == b'/')) [
  | inl t ↦
      rw t (inr (at_slash c s (after_slash s s) ((==_iff c b'/').0 t) (after_slash-AfterSlash s s)))
  | inr f ↦ rw f (past_other acc c s (after_slash acc s) f (after_slash-AfterSlash acc s))
]

-- The short name of a reference has no '/' in it, and is the trimmed text itself or what stands
-- after its last '/'.
pub short_name_of_ref-IsAfterSlash :
    (ref : Text)
    → NoSlash (short_name_of_ref ref)
      × ((short_name_of_ref ref ≡ trim_text ref)
          ⊎ IsAfterSlash (trim_text ref) (short_name_of_ref ref))
unfolding short_name_of_ref
short_name_of_ref-IsAfterSlash ref = either (after_slash-AfterSlash (trim_text ref) (trim_text ref))
  where
    either :
        {whole name : Text}
        → AfterSlash whole whole name
        → NoSlash name × ((name ≡ whole) ⊎ IsAfterSlash whole name)
    either (inl (e, free)) = (subst NoSlash (sym e) free, inl e)
    either (inr (dir, e, free)) = (free, inr (dir, e, free))
