-- ===== src/Discovery/Settled.antt =====
-- What is left when the lazy discovery (`parseProjectLazy` of libparsex/src/parser.cpp) stops.
use parse_x.Base.{
  ℕ, zero, suc, ◌≤◌, ◌<◌, true, false, Option, none, some, List, [], ◌∷◌, ◌≡◌, refl, sym, ap, ◌∙◌,
  subst, ◌⊎◌, inl, inr, arith, if◌then◌else◌, Bool-cases, In, here, there, keep, length,
}
use parse_x.Base.Text.{Text}
use parse_x.Base.Map.{contains}
use parse_x.Model.{ParsedFile, ParsedProject}
use parse_x.Resolve.{Names, each, WantedRefs, wanted_is_empty, collect_wanted_refs, completed}
use parse_x.Resolve.Complete.{collect_wanted_refs-completed}
use parse_x.Discovery.{
  Expansion, no_files, defines_wanted_name, candidate_defines_any, take_file, probe, ExpansionStep,
  advanced, stuck, complete, is_advanced, expand_project_once, rounds, parse_entries,
  parse_project_lazy,
}
use parse_x.Discovery.Rounds.{unparsed, Change, nothing, less, each-Change}

true-ne_false : ¬ (true ≡ false)
true-ne_false h = absurd (cc)

module _ (read_file_bytes_or_empty : Text → Text) (parse : Text → Option ParsedFile) where
  -- A candidate that is parsed, or that is read in vain for the wanted names.
  abbrev pub IsUseless : WantedRefs → Names → Text → Type 0
  IsUseless wanted parsed c =
      (contains c parsed ≡ true)
      ⊎ (candidate_defines_any read_file_bytes_or_empty parse c wanted ≡ false)
      ⊎ (parse c ≡ none)
      ⊎ ((file : ParsedFile) × (parse c ≡ some file) × (defines_wanted_name file wanted ≡ false))

  take_file-useless :
      (wanted : WantedRefs) (c : Text) (o : Option ParsedFile) (e : Expansion)
      → (take_file read_file_bytes_or_empty parse wanted c o e).added ≡ false
      → (o ≡ none)
        ⊎ ((file : ParsedFile) × (o ≡ some file) × (defines_wanted_name file wanted ≡ false))
  take_file-useless wanted c none e h = inl refl
  take_file-useless wanted c (some file) e h = elim (Bool-cases (defines_wanted_name file wanted)) [
    | inl t ↦ absurd (true-ne_false (rw t at h))
    | inr f ↦ inr (file, refl, f)
  ]

  probe-IsUseless :
      (wanted : WantedRefs) (c : Text) (e : Expansion)
      → (probe read_file_bytes_or_empty parse wanted c e).added ≡ false
      → IsUseless wanted e.parsed c
  unfolding probe
  probe-IsUseless wanted c e h = elim (Bool-cases (contains c e.parsed)) [
    | inl t ↦ inl t
    | inr f ↦ elim (Bool-cases (candidate_defines_any read_file_bytes_or_empty parse c wanted)) [
      | inr g ↦ inr (inl g)
      | inl t ↦ elim (take_file-useless wanted c (parse c) e (rw (probe, f, t) at h)) [
        | inl n ↦ inr (inr (inl n))
        | inr r ↦ inr (inr (inr r))
      ]
    ]
  ]

  module _ (candidates : List Text) where
    Change-same :
        {e e' : Expansion}
        → Change read_file_bytes_or_empty parse candidates e e'
        → e'.added ≡ false
        → e' ≡ e
    Change-same nothing h = refl
    Change-same (less a k) h = absurd (true-ne_false (sym a ∙ h))

    each-IsUseless :
        (wanted : WantedRefs) (cs : List Text) (e : Expansion)
        → ((c : Text) → In c cs → In c candidates)
        → e.added ≡ false
        → (each (probe read_file_bytes_or_empty parse wanted) cs e).added ≡ false
        → (c : Text) → In c cs
        → IsUseless wanted e.parsed c
    unfolding each
    each-IsUseless wanted [] e h a k c i = elim i [ ]
    each-IsUseless wanted (d ∷ cs) e h a k c i =
        let e1 = probe read_file_bytes_or_empty parse wanted d e in
        let later =
          Change-same
            (each-Change read_file_bytes_or_empty parse candidates wanted cs e1
              (λ x j. h x (there j)))
            k in
        let a1 = sym (ap (λ x. x.added) later) ∙ k in
        let same =
          Change-same
            (each-Change read_file_bytes_or_empty parse candidates wanted (d ∷ []) e
              (λ x j. h x (only j)))
            a1 in
        elim i [
          | here q ↦ subst (IsUseless wanted e.parsed) (sym q) (probe-IsUseless wanted d e a1)
          | there j ↦
              subst (λ x. IsUseless wanted x.parsed c) same
                (each-IsUseless wanted cs e1 (λ x j'. h x (there j')) a1 k c j)
        ]
      where
        only : {x : Text} → In x (d ∷ []) → In x (d ∷ cs)
        only (here q) = here q
        only (there j) = elim j [ ]

    abbrev start_of : Expansion → Expansion
    start_of e = record e { added = false }

    abbrev tried : Expansion → Expansion
    tried e =
        each (probe read_file_bytes_or_empty parse (collect_wanted_refs e.project)) candidates
          (start_of e)

    tried-Change :
        (e : Expansion) → Change read_file_bytes_or_empty parse candidates (start_of e) (tried e)
    tried-Change e =
        each-Change read_file_bytes_or_empty parse candidates (collect_wanted_refs e.project)
          candidates (start_of e) (λ c i. i)

    abbrev once : Expansion → ExpansionStep × Expansion
    once e = expand_project_once read_file_bytes_or_empty parse candidates e

    -- The three outcomes of a round.
    data Round (e : Expansion) : Type 0 where
      finished :
          wanted_is_empty (collect_wanted_refs e.project) ≡ true
          → once e ≡ (complete, start_of e)
          → Round e
      grown :
          unparsed (once e).1.parsed candidates < unparsed e.parsed candidates
          → (once e).0 ≡ advanced
          → Round e
      idle : (tried e).added ≡ false → once e ≡ (stuck, start_of e) → Round e

    Round-cases : (e : Expansion) → Round e
    unfolding expand_project_once
    Round-cases e = elim (Bool-cases (wanted_is_empty (collect_wanted_refs e.project))) [
      | inl t ↦ finished t (rw (expand_project_once, t) refl)
      | inr f ↦ elim (Bool-cases (tried e).added) [
        | inl t ↦
            grown (rw (expand_project_once, f) (smaller (tried-Change e) t))
              (rw (expand_project_once, f) (ap (λ b. if b then advanced else stuck) t))
        | inr g ↦ idle g (
            rw (expand_project_once, f)
              (ap (λ b. ((if b then advanced else stuck), tried e)) g
                ∙ ap (λ x. (stuck, x)) (Change-same (tried-Change e) g)))
      ]
    ]
      where
        smaller :
            {e' : Expansion}
            → Change read_file_bytes_or_empty parse candidates (start_of e) e'
            → e'.added ≡ true
            → unparsed e'.parsed candidates < unparsed e.parsed candidates
        smaller nothing t = absurd (true-ne_false (sym t))
        smaller (less a k) t = k

    -- A round on it would add nothing.
    IsSettled : Expansion → Type 0
    IsSettled e = is_advanced (once e).0 ≡ false

    once-start_of : (e : Expansion) → once (start_of e) ≡ once e
    unfolding expand_project_once
    once-start_of e = refl

    rest-IsSettled :
        (e : Expansion) (s : ExpansionStep)
        → once e ≡ (s, start_of e)
        → is_advanced s ≡ false
        → IsSettled (start_of e)
    unfolding IsSettled
    rest-IsSettled e s q r = ap (λ x. is_advanced x.0) (once-start_of e ∙ q) ∙ r

    rounds-stop :
        (n : ℕ) (e : Expansion) (s : ExpansionStep)
        → once e ≡ (s, start_of e)
        → is_advanced s ≡ false
        → rounds read_file_bytes_or_empty parse candidates (suc n) e ≡ start_of e
    unfolding rounds
    rounds-stop n e s q r = rw (rounds, q) (rw r refl)

    rounds-grow :
        (n : ℕ) (e : Expansion)
        → (once e).0 ≡ advanced
        → rounds read_file_bytes_or_empty parse candidates (suc n) e
          ≡ rounds read_file_bytes_or_empty parse candidates n (once e).1
    unfolding rounds
    rounds-grow n e q = rw (rounds, q) refl

    rounds-IsSettled :
        (n : ℕ) (e : Expansion)
        → unparsed e.parsed candidates < n
        → IsSettled (rounds read_file_bytes_or_empty parse candidates n e)
    rounds-IsSettled zero e h = absurd (omega arith)
    rounds-IsSettled (suc n) e h = elim (Round-cases e) [
      | finished t q ↦
          subst IsSettled (sym (rounds-stop n e complete q refl)) (rest-IsSettled e complete q refl)
      | grown k q ↦
          subst IsSettled (sym (rounds-grow n e q))
            (rounds-IsSettled n (once e).1 (omega (arith, k, h)))
      | idle g q ↦
          subst IsSettled (sym (rounds-stop n e stuck q refl)) (rest-IsSettled e stuck q refl)
    ]

    -- Nothing is missing, or no candidate helps.
    IsSettled-cases :
        (e : Expansion)
        → IsSettled e
        → (wanted_is_empty (collect_wanted_refs e.project) ≡ true)
          ⊎ ((c : Text) → In c candidates → IsUseless (collect_wanted_refs e.project) e.parsed c)
    unfolding IsSettled
    IsSettled-cases e h = elim (Round-cases e) [
      | finished t q ↦ inl t
      | grown k q ↦ absurd (true-ne_false (sym (ap (is_advanced) q) ∙ h))
      | idle g q ↦
          inr (
            each-IsUseless (collect_wanted_refs e.project) candidates (start_of e) (λ c i. i) refl
              g)
    ]

    unparsed-le : (parsed : Names) (cs : List Text) → unparsed parsed cs ≤ length cs
    unfolding unparsed keep
    unparsed-le parsed [] = omega arith
    unparsed-le parsed (c ∷ cs) = ground (arith, unparsed-le parsed cs)

  -- If every entry point parses and there are fewer than 50 candidates, the lazy discovery either ends
  -- with a project whose references all resolve, or with one for which each candidate is
  -- useless: it is parsed already, or its bytes do not show a wanted name, or it does not parse, or
  -- it defines no wanted name.
  pub parse_project_lazy-IsUseless :
      (parent_path normalize_path : Text → Text)
      (enumerate_candidates : List Text → Names → List Text) (entry_points : List Text)
      (e : Expansion)
      → parse_entries read_file_bytes_or_empty parse normalize_path entry_points no_files ≡ some e
      → length (enumerate_candidates entry_points e.parsed) < 50
      → let candidates = enumerate_candidates entry_points e.parsed in
        let last = rounds read_file_bytes_or_empty parse candidates 50 e in
        ((p : ParsedProject) × (parse_project_lazy read_file_bytes_or_empty parse parent_path
              normalize_path enumerate_candidates entry_points
            ≡ some (completed p)))
        ⊎ ((c : Text)
            → In c candidates
            → IsUseless (collect_wanted_refs last.project) last.parsed c)
  unfolding parse_project_lazy
  parse_project_lazy-IsUseless parent_path normalize_path enumerate_candidates entry_points e h
        small =
      let candidates = enumerate_candidates entry_points e.parsed in
      let last = rounds read_file_bytes_or_empty parse candidates 50 e in
      elim (IsSettled-cases candidates last (
        rounds-IsSettled candidates 50 e
          (omega (arith, unparsed-le candidates e.parsed candidates)))) [
            | inl t ↦
                let r = (collect_wanted_refs-completed parent_path last.project).0 t in
                inl (r.0, (rw (parse_project_lazy, h) (ap some r.1)))
            | inr u ↦ inr u
          ]
