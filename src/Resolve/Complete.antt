-- ===== src/Resolve/Complete.antt =====
-- A project that wants no name passes the final resolution, and only such a project does.
use parse_x.Base.{
  ℕ, suc, true, false, List, [], ◌∷◌, ◌++◌, ◌≡◌, ◌≢◌, ◌⊎◌, ◌↔◌, refl, sym, ◌∙◌, arith, All, inl,
  inr, Bool-cases, is_empty,
}
use parse_x.Base.Text.{Text}
use parse_x.Base.Map.{find, contains, insert_new, try_emplace}
use parse_x.Model.{Frame, ParsedFile, ParsedProject}
use parse_x.Resolve.{
  Names, each, UnresolvedSite, DanglingFileReference, WantedRefs, KnownRefs, wanted_is_empty,
  is_missing, want_name, collect_known_refs, pdu_refs, signal_refs, want_frame_refs, want_file_refs,
  collect_wanted_refs, Resolution, resolve, resolve_field, resolve_frame, resolve_file_refs,
  resolve_files, completed, dangling_reference, resolve_cross_file_references,
}

-- One step of a loop, and one loop after another.
pub each_iff {ℓ κ μ ν} :
    {A : Type ℓ} {S : Type κ} (P : S → Type μ) (Q : A → Type ν) (step : A → S → S)
    → ((x : A) (s : S) → P (step x s) ↔ (P s × Q x))
    → (xs : List A) (s : S) → P (each step xs s) ↔ (P s × All Q xs)
unfolding each
each_iff P Q step h [] s = (λ p. (p, tt), λ p. p.0)
each_iff P Q step h (x ∷ xs) s =
    let rest = each_iff P Q step h xs (step x s) in
    (
      λ p. let r = rest.0 p in let a = (h x s).0 r.0 in (a.0, (a.1, r.1)),
      λ p. rest.1 ((h x s).1 (p.0, p.1.0), p.1.1),
    )

then_iff {ℓ κ μ ν} :
    {P0 : Type ℓ} {P1 : Type κ} {P2 : Type μ} {Q1 Q2 : Type ν}
    → (P1 ↔ (P0 × Q1))
    → (P2 ↔ (P1 × Q2))
    → P2 ↔ (P0 × (Q1 × Q2))
then_iff f g =
    (λ p. let r = g.0 p in let a = f.0 r.0 in (a.0, (a.1, r.1)), λ p. g.1 (f.1 (p.0, p.1.0), p.1.1))

-- No name of the list is missing.
abbrev pub Fine : Names → List Text → Type 0
Fine known names = All (λ n. is_missing known n ≡ false) names

insert_new-ne-nil : (k : Text) (m : Names) → insert_new k tt m ≢ []
unfolding insert_new
insert_new-ne-nil k [] h = cc
insert_new-ne-nil k ((j, w) ∷ m) h = ground (arith, h)

occupied-ne-nil : (k : Text) (m : Names) → contains k m ≡ true → m ≢ []
unfolding find
occupied-ne-nil k [] h e = absurd (cc)
occupied-ne-nil k (x ∷ m) h e = absurd (cc)

true-ne-false : true ≢ false
true-ne-false h = cc

want_fine :
    (known : Names) (n : Text) (w : Names) → is_missing known n ≡ false → want_name known n w ≡ w
unfolding want_name
want_fine known n w f = ground (arith, f)

append-ne-nil {ℓ} : {A : Type ℓ} (xs : List A) (x : A) → xs ++ x ∷ [] ≢ []
append-ne-nil [] x h = absurd (cc)
append-ne-nil (y ∷ xs) x h = absurd (cc)

want_missing-ne-nil :
    (known : Names) (n : Text) (w : Names) → is_missing known n ≡ true → want_name known n w ≢ []
unfolding want_name try_emplace
want_missing-ne-nil known n w t h = elim (Bool-cases (contains n w)) [
  | inl c ↦ occupied-ne-nil n w c (ground (arith, h, t, c))
  | inr c ↦ insert_new-ne-nil n w (ground (arith, h, t, c))
]

want_name_iff :
    (known : Names) (n : Text) (w : Names)
    → (want_name known n w ≡ []) ↔ ((w ≡ []) × (is_missing known n ≡ false))
want_name_iff known n w = elim (Bool-cases (is_missing known n)) [
  | inl t ↦
      (λ h. absurd (want_missing-ne-nil known n w t h), λ h. absurd (true-ne-false (sym t ∙ h.1)))
  | inr f ↦ (λ h. (sym (want_fine known n w f) ∙ h, f), λ h. want_fine known n w f ∙ h.0)
]

want_names_iff :
    (known : Names) (names : List Text) (w : Names)
    → (each (want_name known) names w ≡ []) ↔ ((w ≡ []) × Fine known names)
want_names_iff known names w =
    each_iff (λ v. v ≡ []) (λ n. is_missing known n ≡ false) (want_name known) (want_name_iff known)
      names w

-- Nothing is wanted.
pub record WantsNothing (w : WantedRefs) : Type 0 where
  pub pdus : w.pdus ≡ []
  pub signals : w.signals ≡ []
  pub ecus : w.ecus ≡ []

resolve_iff :
    (known : Names) (key n : Text) (r : Resolution)
    → ((resolve known key n r).unresolved ≡ [])
      ↔ ((r.unresolved ≡ []) × (is_missing known n ≡ false))
unfolding resolve
resolve_iff known key n r = elim (Bool-cases (is_empty n)) [
  | inl t ↦ (λ h. (ground (arith, h, t), ground (arith, t)), λ h. ground (arith, h.0, t))
  | inr f ↦ elim (Bool-cases (contains n known)) [
    | inl c ↦ (λ h. (ground (arith, h, f, c), ground (arith, f, c)), λ h. ground (arith, h.0, f, c))
    | inr c ↦ (
      λ h.
          absurd (
            append-ne-nil r.unresolved (record { key = key; wanted = n })
              (ground (arith, h, f, c))),
      λ h. absurd (true-ne-false (ground (arith, h.1, f, c))),
    )
  ]
]

resolve_field_iff :
    (known : Names) (owner field : Text) (idx : ℕ) (names : List Text) (r : Resolution)
    → ((resolve_field known owner field idx names r).unresolved ≡ [])
      ↔ ((r.unresolved ≡ []) × Fine known names)
unfolding resolve_field
resolve_field_iff known owner field idx [] r = (λ h. (h, tt), λ h. h.0)
resolve_field_iff known owner field idx (n ∷ ns) r =
    let rest = resolve_field_iff known owner field (suc idx) ns (resolve known _ n r) in
    let one = resolve_iff known _ n r in
    (
      λ h. let a = rest.0 h in let b = one.0 a.0 in (b.0, (b.1, a.1)),
      λ h. rest.1 (one.1 (h.0, h.1.0), h.1.1),
    )

-- No reference of a frame, and of a file, is missing.
abbrev pub FrameFine : KnownRefs → Frame → Type 0
FrameFine known f = Fine known.ecus f.transmitters × Fine known.pdus (pdu_refs f)

abbrev pub FileFine : KnownRefs → ParsedFile → Type 0
FileFine known file =
    ((All (FrameFine known) file.frames × All (λ p. Fine known.signals (signal_refs p)) file.pdus)
      × All (λ s. Fine known.ecus s.receivers) file.signals)
    × All (λ g. Fine known.signals g.members) file.signal_groups

module _ (known : KnownRefs) where
  want_ecus_iff :
      (names : List Text) (w : WantedRefs)
      → WantsNothing (record w { ecus = each (want_name known.ecus) names w.ecus })
        ↔ (WantsNothing w × Fine known.ecus names)
  want_ecus_iff names w =
      let e = want_names_iff known.ecus names w.ecus in
      (
        λ h. (record { pdus = h.pdus; signals = h.signals; ecus = (e.0 h.ecus).0 }, (e.0 h.ecus).1),
        λ h. record { pdus = h.0.pdus; signals = h.0.signals; ecus = e.1 (h.0.ecus, h.1) },
      )

  want_pdus_iff :
      (names : List Text) (w : WantedRefs)
      → WantsNothing (record w { pdus = each (want_name known.pdus) names w.pdus })
        ↔ (WantsNothing w × Fine known.pdus names)
  want_pdus_iff names w =
      let e = want_names_iff known.pdus names w.pdus in
      (
        λ h. (record { pdus = (e.0 h.pdus).0; signals = h.signals; ecus = h.ecus }, (e.0 h.pdus).1),
        λ h. record { pdus = e.1 (h.0.pdus, h.1); signals = h.0.signals; ecus = h.0.ecus },
      )

  want_signals_iff :
      (names : List Text) (w : WantedRefs)
      → WantsNothing (record w { signals = each (want_name known.signals) names w.signals })
        ↔ (WantsNothing w × Fine known.signals names)
  want_signals_iff names w =
      let e = want_names_iff known.signals names w.signals in
      (
        λ h. (
          record { pdus = h.pdus; signals = (e.0 h.signals).0; ecus = h.ecus },
          (e.0 h.signals).1,
        ),
        λ h. record { pdus = h.0.pdus; signals = e.1 (h.0.signals, h.1); ecus = h.0.ecus },
      )

  pub want_file_refs_iff :
      (file : ParsedFile) (w : WantedRefs)
      → WantsNothing (want_file_refs known file w) ↔ (WantsNothing w × FileFine known file)
  unfolding want_file_refs want_frame_refs
  want_file_refs_iff file w =
      then_iff
        (then_iff
          (then_iff
            (each_iff WantsNothing (FrameFine known) (want_frame_refs known)
              (λ f v. then_iff (want_ecus_iff f.transmitters v) (want_pdus_iff (pdu_refs f) _))
              file.frames w)
            (each_iff WantsNothing _ _ (λ p v. want_signals_iff (signal_refs p) v) file.pdus _))
          (each_iff WantsNothing _ _ (λ s v. want_ecus_iff s.receivers v) file.signals _))
        (each_iff WantsNothing _ _ (λ g v. want_signals_iff g.members v) file.signal_groups _)

  resolve_file_refs_iff :
      (file : ParsedFile) (r : Resolution)
      → ((resolve_file_refs known file r).unresolved ≡ [])
        ↔ ((r.unresolved ≡ []) × FileFine known file)
  unfolding resolve_file_refs resolve_frame
  resolve_file_refs_iff file r =
      then_iff
        (then_iff
          (then_iff
            (each_iff (λ (v : Resolution). v.unresolved ≡ []) (FrameFine known)
              (resolve_frame known)
              (λ f v.
                then_iff (resolve_field_iff known.ecus _ _ 0 f.transmitters v)
                  (resolve_field_iff known.pdus _ _ 0 (pdu_refs f) _))
              file.frames r)
            (each_iff (λ (v : Resolution). v.unresolved ≡ []) _ _
              (λ p v. resolve_field_iff known.signals _ _ 0 (signal_refs p) v) file.pdus _))
          (each_iff (λ (v : Resolution). v.unresolved ≡ []) _ _
            (λ s v. resolve_field_iff known.ecus _ _ 0 s.receivers v) file.signals _))
        (each_iff (λ (v : Resolution). v.unresolved ≡ []) _ _
          (λ g v. resolve_field_iff known.signals _ _ 0 g.members v) file.signal_groups _)

pub wanted_is_empty_iff : (w : WantedRefs) → (wanted_is_empty w ≡ true) ↔ WantsNothing w
wanted_is_empty_iff w = (
  λ h. record {
    pdus = is_empty-nil w.pdus (ground (arith, h));
    signals = is_empty-nil w.signals (ground (arith, h));
    ecus = is_empty-nil w.ecus (ground (arith, h));
  },
  λ h. rw (h.pdus, h.signals, h.ecus) refl,
)
  where
    is_empty-nil : (m : Names) → is_empty m ≡ true → m ≡ []
    is_empty-nil [] e = refl
    is_empty-nil (x ∷ m) e = absurd (cc)

collect_wanted_refs_iff :
    (project : ParsedProject)
    → WantsNothing (collect_wanted_refs project) ↔ ((resolve_files project).unresolved ≡ [])
unfolding collect_wanted_refs resolve_files
collect_wanted_refs_iff project =
    let known = collect_known_refs project in
    let wanted =
      each_iff WantsNothing (FileFine known) (want_file_refs known) (want_file_refs_iff known)
        project.files _ in
    let resolved =
      each_iff (λ (v : Resolution). v.unresolved ≡ []) (FileFine known) (resolve_file_refs known)
        (resolve_file_refs_iff known) project.files _ in
    (
      λ h. resolved.1 (refl, (wanted.0 h).1),
      λ h. wanted.1 (record { pdus = refl; signals = refl; ecus = refl }, (resolved.0 h).1),
    )

completed-ne-dangling :
    {p : ParsedProject} {d : DanglingFileReference} → dangling_reference d ≢ completed p
completed-ne-dangling h = cc

-- The final resolution completes a project exactly if no name is wanted in it: the search for missing
-- files and the final check agree on what is missing.
pub collect_wanted_refs-completed :
    (parent_path : Text → Text) (project : ParsedProject)
    → (wanted_is_empty (collect_wanted_refs project) ≡ true)
      ↔ ((p : ParsedProject) × (resolve_cross_file_references parent_path project ≡ completed p))
unfolding resolve_cross_file_references
collect_wanted_refs-completed parent_path project =
    let empty = wanted_is_empty_iff (collect_wanted_refs project) in
    let same = collect_wanted_refs_iff project in
    (
      λ h.
          let nil = same.0 (empty.0 h) in
          (record project { resolved_refs = (resolve_files project).resolved }, rw nil refl),
      λ h. elim (nil_or_not (resolve_files project).unresolved) [
        | inl nil ↦ empty.1 (same.1 nil)
        | inr e ↦ absurd (completed-ne-dangling (rw e at h.1))
      ],
    )
  where
    nil_or_not : (us : List UnresolvedSite) → (us ≡ []) ⊎ (is_empty us ≡ false)
    nil_or_not [] = inl refl
    nil_or_not (u ∷ us) = inr refl
