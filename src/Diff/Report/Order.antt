-- ===== src/Diff/Report/Order.antt =====
-- The order of a report: by sort key and element type, and by message and element type.
use parse_x.Base.{
  Bool, true, false, List, [], ◌∷◌, All, ◌≡◌, ◌⊎◌, inl, inr, refl, arith, not, if◌then◌else◌,
}
use parse_x.Base.Text.{
  Text, text_eq, text_lt, text_eq_iff, text_lt_irrefl, text_lt_asymm, text_lt_antisymm,
  text_lt_trans_not,
}
use parse_x.Base.Sort.{IsSorted, sort_by-IsSorted, sort_by-perm}
use mathlib.Core.List.{Perm}
use parse_x.Diff.Report.{
  DiffKind, added, modified, moved, removed, DiffEntry, DiffDiagnostic, DiffReport, sort_key_for,
  entry_lt, diagnostic_lt, sort_deterministically,
}

-- The lexicographic order of two texts.
abbrev pair_lt : Text → Text → Text → Text → Bool
pair_lt a b c d = if not (text_eq a c) then text_lt a c else text_lt b d

pair_lt-asymm : (a b c d : Text) → pair_lt a b c d ≡ true → pair_lt c d a b ≡ false
pair_lt-asymm a b c d h =
    ground (arith, text_eq_iff a c, text_eq_iff c a, text_lt_asymm a c, text_lt_asymm b d)

pair_lt-trans_not :
    (a b c d e f : Text)
    → pair_lt c d a b ≡ false
    → pair_lt e f c d ≡ false
    → pair_lt e f a b ≡ false
pair_lt-trans_not a b c d e f h k = ground (
  arith,
  text_lt_trans_not a c e,
  text_lt_trans_not b d f,
  text_lt_antisymm a c,
  text_lt_antisymm c e,
  text_eq_iff a c,
  text_eq_iff c a,
  text_eq_iff c e,
  text_eq_iff e c,
  text_eq_iff e a,
  text_lt_antisymm a e,
)

-- The path under which an entry stands: the old one where the element is gone, else the new one.
pub data StandsAt (e : DiffEntry) (path : Text) : Type 0 where
  gone : e.kind ≡ removed → path ≡ e.old_path → StandsAt e path
  there : ¬ (e.kind ≡ removed) → path ≡ e.new_path → StandsAt e path

-- The first pair of texts is not after the second, in the order of the first texts and, where these
-- are equal, of the second ones.
abbrev pub NotAfter : Text → Text → Text → Text → Type 0
NotAfter a b c d = (text_lt c a ≡ false) × (a ≡ c → text_lt d b ≡ false)

abbrev pub EntryNotAfter : DiffEntry → DiffEntry → Type 0
EntryNotAfter e f =
    (p q : Text) → StandsAt e p → StandsAt f q → NotAfter p e.element_type q f.element_type

abbrev pub DiagnosticNotAfter : DiffDiagnostic → DiffDiagnostic → Type 0
DiagnosticNotAfter e f = NotAfter e.message e.element_type f.message f.element_type

-- Each element of the list stands so to each later one.
abbrev pub Ordered {ℓ κ} : {A : Type ℓ} → (A → A → Type κ) → List A → Type κ
Ordered R [] = Unit
Ordered R (x ∷ xs) = All (R x) xs × Ordered R xs

IsSorted-Ordered {ℓ κ} :
    {A : Type ℓ} (lt : A → A → Bool) (R : A → A → Type κ)
    → ((x y : A) → lt y x ≡ false → R x y)
    → (xs : List A) → IsSorted lt xs
    → Ordered R xs
IsSorted-Ordered {A = A} lt R h [] s = tt
IsSorted-Ordered {A = A} lt R h (x ∷ xs) s = (first x xs s.0, IsSorted-Ordered lt R h xs s.1)
  where
    first : (x : A) (ys : List A) → All (λ y. lt y x ≡ false) ys → All (R x) ys
    first x [] k = tt
    first x (y ∷ ys) k = (h x y k.0, first x ys k.1)

pair_lt-NotAfter : (a b c d : Text) → pair_lt c d a b ≡ false → NotAfter a b c d
pair_lt-NotAfter a b c d h = (
  ground (arith, h, text_eq_iff c a, text_lt_irrefl a),
  λ e. ground (arith, h, e, text_eq_iff c a),
)

removed-ne : (k : DiffKind) → ¬ (k ≡ removed) → (k ≡ added) ⊎ (k ≡ modified) ⊎ (k ≡ moved)
removed-ne added h = inl refl
removed-ne modified h = inr (inl refl)
removed-ne moved h = inr (inr refl)
removed-ne removed h = absurd (h refl)

StandsAt-sort_key_for : (e : DiffEntry) (p : Text) → StandsAt e p → p ≡ sort_key_for e
unfolding sort_key_for
StandsAt-sort_key_for e p (gone k q) = rw k q
StandsAt-sort_key_for e p (there k q) = elim (removed-ne e.kind k) [
  | inl r ↦ rw r q
  | inr (inl r) ↦ rw r q
  | inr (inr r) ↦ rw r q
]

entry_lt-EntryNotAfter : (e f : DiffEntry) → entry_lt f e ≡ false → EntryNotAfter e f
unfolding entry_lt
entry_lt-EntryNotAfter e f h p q s t =
    rw (StandsAt-sort_key_for e p s, StandsAt-sort_key_for f q t)
      (pair_lt-NotAfter (sort_key_for e) e.element_type (sort_key_for f) f.element_type h)

diagnostic_lt-DiagnosticNotAfter :
    (e f : DiffDiagnostic) → diagnostic_lt f e ≡ false → DiagnosticNotAfter e f
unfolding diagnostic_lt
diagnostic_lt-DiagnosticNotAfter e f h =
    pair_lt-NotAfter e.message e.element_type f.message f.element_type h

sort_deterministically-IsSorted :
    (r : DiffReport)
    → IsSorted entry_lt (sort_deterministically r).entries
      × IsSorted diagnostic_lt (sort_deterministically r).diagnostics
unfolding sort_deterministically entry_lt diagnostic_lt
sort_deterministically-IsSorted r = (
  sort_by-IsSorted entry_lt
      (λ e f. pair_lt-asymm (sort_key_for e) e.element_type (sort_key_for f) f.element_type)
      (λ e f g.
        pair_lt-trans_not (sort_key_for e) e.element_type (sort_key_for f) f.element_type
          (sort_key_for g) g.element_type)
      r.entries,
  sort_by-IsSorted diagnostic_lt
      (λ e f. pair_lt-asymm e.message e.element_type f.message f.element_type)
      (λ e f g.
        pair_lt-trans_not e.message e.element_type f.message f.element_type g.message
          g.element_type)
      r.diagnostics,
)

-- Sorting puts the entries in the order of their paths and, under one path, of their element types:
-- the old path of a Removed entry, the new path of an Added, Modified or Moved one. It puts the
-- diagnostics in the order of their messages and, under one message, of their element types. It
-- neither loses nor invents an entry or a diagnostic.
pub sort_deterministically-Ordered :
    (r : DiffReport)
    → Ordered EntryNotAfter (sort_deterministically r).entries
      × Perm (sort_deterministically r).entries r.entries
      × Ordered DiagnosticNotAfter (sort_deterministically r).diagnostics
      × Perm (sort_deterministically r).diagnostics r.diagnostics
unfolding sort_deterministically
sort_deterministically-Ordered r =
    let sorted = sort_deterministically-IsSorted r in
    (
      IsSorted-Ordered entry_lt EntryNotAfter entry_lt-EntryNotAfter _ sorted.0,
      sort_by-perm entry_lt r.entries,
      IsSorted-Ordered diagnostic_lt DiagnosticNotAfter diagnostic_lt-DiagnosticNotAfter _ sorted.1,
      sort_by-perm diagnostic_lt r.diagnostics,
    )
