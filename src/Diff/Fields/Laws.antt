-- ===== src/Diff/Fields/Laws.antt =====
-- What the field by field comparison reports.
use parse_x.Base.{
  false, List, [], ◌∷◌, ◌≡◌, refl, arith, In, here, there, length, Bool-cases, inl, inr,
}
use parse_x.Base.Text.{Text, text_eq, text_eq_iff, text_eq_refl}
use parse_x.Diff.Report.{FieldDiff}
use parse_x.Diff.Fields.{Described, diff_struct_impl, diff_struct}

diff_struct_impl_self : (names vs : List Text) → diff_struct_impl names vs vs ≡ []
unfolding diff_struct_impl
diff_struct_impl_self (n ∷ ns) (v ∷ vs) = rw text_eq_refl (diff_struct_impl_self ns vs)
diff_struct_impl_self (n ∷ ns) [] = refl
diff_struct_impl_self [] vs = refl

-- A struct has no difference from itself.
pub diff_struct_self {ℓ} : {T : Type ℓ} (d : Described T) (x : T) → diff_struct d x x ≡ []
unfolding diff_struct
diff_struct_self d x = diff_struct_impl_self d.names (d.values x)

-- No difference is reported only if all fields print alike, given a name for each field.
pub values-eq_of_diff_struct_impl :
    (names olds news : List Text)
    → length olds ≡ length names
    → length news ≡ length names
    → diff_struct_impl names olds news ≡ []
    → olds ≡ news
unfolding diff_struct_impl
values-eq_of_diff_struct_impl [] [] [] h k e = refl
values-eq_of_diff_struct_impl [] [] (y ∷ ys) h k e = absurd (omega arith)
values-eq_of_diff_struct_impl [] (x ∷ xs) news h k e = absurd (omega arith)
values-eq_of_diff_struct_impl (n ∷ ns) [] news h k e = absurd (omega arith)
values-eq_of_diff_struct_impl (n ∷ ns) (x ∷ xs) [] h k e = absurd (omega arith)
values-eq_of_diff_struct_impl (n ∷ ns) (x ∷ xs) (y ∷ ys) h k e =
    ground
      (arith, text_eq_iff x y, values-eq_of_diff_struct_impl ns xs ys (omega arith) (omega arith))

-- The two texts of a reported field differ.
pub diff_struct_impl_differ :
    (names olds news : List Text) {f : FieldDiff}
    → In f (diff_struct_impl names olds news)
    → text_eq f.old_value f.new_value ≡ false
unfolding diff_struct_impl
diff_struct_impl_differ [] olds news i = elim i [ ]
diff_struct_impl_differ (n ∷ ns) [] news i = elim i [ ]
diff_struct_impl_differ (n ∷ ns) (x ∷ xs) [] i = elim i [ ]
diff_struct_impl_differ (n ∷ ns) (x ∷ xs) (y ∷ ys) i = elim (Bool-cases (text_eq x y)) [
  | inl t ↦ diff_struct_impl_differ ns xs ys (rw t at i)
  | inr e ↦ head_differs (diff_struct_impl_differ ns xs ys) e (rw e at i)
]
  where
    head_differs :
        {f : FieldDiff}
        → (In f (diff_struct_impl ns xs ys) → text_eq f.old_value f.new_value ≡ false)
        → text_eq x y ≡ false
        → In f (record { field_name = n; old_value = x; new_value = y } ∷ diff_struct_impl ns xs ys)
        → text_eq f.old_value f.new_value ≡ false
    head_differs rest e (here p) = rw p e
    head_differs rest e (there j) = rest j
