-- ===== src/Discovery/Rounds.antt =====
-- What one round of the lazy discovery (`expandProjectOnce` of libparsex/src/parser.cpp) changes.
use parse_x.Base.{
  ℕ, ◌≤◌, ◌<◌, Bool, true, false, not, Option, none, some, List, [], ◌∷◌, ◌≡◌, refl, sym, ap, ◌∙◌,
  inl, inr, arith, Bool-cases, In, here, there, keep, length,
}
use parse_x.Base.Text.{Text, text_eq_refl}
use parse_x.Base.Map.{contains}
use parse_x.Base.Map.Laws.{find-try_emplace}
use parse_x.Model.{ParsedFile}
use parse_x.Resolve.{Names, each, WantedRefs, insert_name}
use parse_x.Discovery.{Expansion, defines_wanted_name, candidate_defines_any, take_file, probe}

-- The candidates that are not parsed yet.
unfoldable pub unparsed : Names → List Text → ℕ
unparsed parsed candidates = length (keep (λ c. not (contains c parsed)) candidates)

contains-insert :
    (c d : Text) (parsed : Names)
    → contains d parsed ≡ true
    → contains d (insert_name c parsed) ≡ true
contains-insert c d parsed h = rw (find-try_emplace c d tt parsed) (ground (arith, h))

contains-inserted : (c : Text) (parsed : Names) → contains c (insert_name c parsed) ≡ true
contains-inserted c parsed = rw (find-try_emplace c c tt parsed, text_eq_refl c) refl

keep-le {ℓ} :
    {A : Type ℓ} (p q : A → Bool) (xs : List A)
    → ((x : A) → q x ≡ true → p x ≡ true)
    → length (keep q xs) ≤ length (keep p xs)
unfolding keep
keep-le p q [] h = omega arith
keep-le p q (x ∷ xs) h = ground (arith, keep-le p q xs h, h x)

keep-lt {ℓ} :
    {A : Type ℓ} (p q : A → Bool) (xs : List A)
    → ((x : A) → q x ≡ true → p x ≡ true)
    → (x : A) → In x xs
    → p x ≡ true
    → q x ≡ false
    → length (keep q xs) < length (keep p xs)
unfolding keep
keep-lt p q [] h x i px qx = elim i [ ]
keep-lt p q (y ∷ xs) h x (here e) px qx =
    let py = ap p (sym e) ∙ px in
    let qy = ap q (sym e) ∙ qx in rw (keep, py, qy) (omega (arith, keep-le p q xs h))
keep-lt p q (y ∷ xs) h x (there i) px qx = ground (arith, keep-lt p q xs h x i px qx, h y)

unparsed-insert :
    (candidates : List Text) (c : Text) (parsed : Names)
    → In c candidates
    → contains c parsed ≡ false
    → unparsed (insert_name c parsed) candidates < unparsed parsed candidates
unfolding unparsed
unparsed-insert candidates c parsed i h =
    keep-lt (λ d. not (contains d parsed)) (λ d. not (contains d (insert_name c parsed))) candidates
      (λ d k. still d k) c i (rw h refl) (rw (contains-inserted c parsed) refl)
  where
    still :
        (d : Text) → not (contains d (insert_name c parsed)) ≡ true → not (contains d parsed) ≡ true
    still d k = elim (Bool-cases (contains d parsed)) [
      | inl t ↦ absurd (ground (arith, k, contains-insert c d parsed t))
      | inr f ↦ rw f refl
    ]

module _ (read_file_bytes_or_empty : Text → Text) (parse : Text → Option ParsedFile)
    (candidates : List Text) where
  -- A step either changes nothing, or adds a file and leaves fewer candidates unparsed.
  pub data Change (e : Expansion) : Expansion → Type 0 where
    nothing : Change e e
    less :
        {e' : Expansion}
        → e'.added ≡ true
        → unparsed e'.parsed candidates < unparsed e.parsed candidates
        → Change e e'

  take_file-Change :
      (wanted : WantedRefs) (c : Text) (o : Option ParsedFile) (e : Expansion)
      → In c candidates
      → contains c e.parsed ≡ false
      → Change e (take_file read_file_bytes_or_empty parse wanted c o e)
  take_file-Change wanted c none e i h = nothing
  take_file-Change wanted c (some file) e i h =
      elim (Bool-cases (defines_wanted_name file wanted)) [
        | inl t ↦ rw t (less refl (unparsed-insert candidates c e.parsed i h))
        | inr f ↦ rw f nothing
      ]

  probe-Change :
      (wanted : WantedRefs) (c : Text) (e : Expansion)
      → In c candidates
      → Change e (probe read_file_bytes_or_empty parse wanted c e)
  unfolding probe
  probe-Change wanted c e i = elim (Bool-cases (contains c e.parsed)) [
    | inl t ↦ rw (probe, t) nothing
    | inr f ↦ elim (Bool-cases (candidate_defines_any read_file_bytes_or_empty parse c wanted)) [
      | inl t ↦ rw (probe, f, t) (take_file-Change wanted c (parse c) e i f)
      | inr g ↦ rw (probe, f, g) nothing
    ]
  ]

  Change-trans : {a b c : Expansion} → Change a b → Change b c → Change a c
  Change-trans nothing k = k
  Change-trans (less x y) nothing = less x y
  Change-trans (less x y) (less z w) = less z (omega arith)

  pub each-Change :
      (wanted : WantedRefs) (cs : List Text) (e : Expansion)
      → ((c : Text) → In c cs → In c candidates)
      → Change e (each (probe read_file_bytes_or_empty parse wanted) cs e)
  unfolding each
  each-Change wanted [] e h = nothing
  each-Change wanted (c ∷ cs) e h = Change-trans (probe-Change wanted c e (h c (here refl))) (
      each-Change wanted cs (probe read_file_bytes_or_empty parse wanted c e)
        (λ d i. h d (there i)))
