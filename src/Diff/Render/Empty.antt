-- ===== src/Diff/Render/Empty.antt =====
-- The text says that there are no differences exactly for an empty report.
use parse_x.Base.{
  Bool, true, false, List, [], ◌∷◌, ◌++◌, ◌&&◌, not, ◌≡◌, ◌≢◌, ◌⊎◌, ◌↔◌, ◌==◌, refl, sym, ap, ◌∙◌,
  if◌then◌else◌, any, is_empty, Bool-cases, inl, inr,
}
use parse_x.Base.Text.{Text, codes}
use parse_x.Diff.Report.{
  DiffKind, added, removed, moved, modified, DiffEntry, DiffDiagnostic, DiffReport, is_empty_report,
}
use parse_x.Diff.Render.{
  is_of_kind, has_kind, Stream, emit_section, no_differences_text, sections, to_text,
  diagnostic_lines,
}

-- There is a first character, and it is not the N of "No differences.".
abbrev starts_otherwise : Text → Bool
starts_otherwise [] = false
starts_otherwise (c ∷ cs) = not (c == 78)

starts_otherwise-append :
    (s t : Text) → starts_otherwise s ≡ true → starts_otherwise (s ++ t) ≡ true
starts_otherwise-append [] t h = absurd (cc)
starts_otherwise-append (c ∷ cs) t h = h

-- A stream that is still empty, or that starts otherwise.
abbrev IsStream : Stream → Type 0
IsStream s = ((s.0 ≡ []) × (s.1 ≡ true)) ⊎ (starts_otherwise s.0 ≡ true)

begin_section-starts :
    (text rest : Text) (first_section : Bool)
    → IsStream (text, first_section)
    → starts_otherwise rest ≡ true
    → starts_otherwise (text ++ ((if first_section then [] else 10 ∷ []) ++ rest)) ≡ true
begin_section-starts text rest first (inl e) t = rw (e.0, e.1) t
begin_section-starts text rest first (inr h) t = starts_otherwise-append text _ h

module _ (entries : List DiffEntry) (title : Text) (kind : DiffKind)
    (t : starts_otherwise title ≡ true) where
  emit_section-written :
      (s : Stream)
      → IsStream s
      → has_kind entries kind ≡ true
      → starts_otherwise (emit_section entries title kind s).0 ≡ true
  unfolding emit_section has_kind
  emit_section-written (text, first) h k =
      rw k (begin_section-starts text _ first h (starts_otherwise-append title _ t))

  emit_section-skipped :
      (s : Stream) → has_kind entries kind ≡ false → emit_section entries title kind s ≡ s
  unfolding emit_section has_kind
  emit_section-skipped (text, first) k = rw k refl

  emit_section-IsStream : (s : Stream) → IsStream s → IsStream (emit_section entries title kind s)
  emit_section-IsStream s h = elim (Bool-cases (has_kind entries kind)) [
    | inl k ↦ inr (emit_section-written s h k)
    | inr k ↦ rw (emit_section-skipped s k) h
  ]

  emit_section-started :
      (s : Stream)
      → starts_otherwise s.0 ≡ true
      → starts_otherwise (emit_section entries title kind s).0 ≡ true
  emit_section-started s h = elim (Bool-cases (has_kind entries kind)) [
    | inl k ↦ emit_section-written s (inr h) k
    | inr k ↦ rw (emit_section-skipped s k) h
  ]

is_of_kind_refl : (k : DiffKind) → is_of_kind k k ≡ true
is_of_kind_refl added = refl
is_of_kind_refl removed = refl
is_of_kind_refl moved = refl
is_of_kind_refl modified = refl

-- The first entry starts some section.
first-has_kind : (e : DiffEntry) (es : List DiffEntry) → has_kind (e ∷ es) e.kind ≡ true
unfolding has_kind any
first-has_kind e es = rw (is_of_kind_refl e.kind) refl

module _ (entries : List DiffEntry) where
  abbrev after_added : Stream
  after_added = emit_section entries (codes "Added") added ([], true)

  abbrev after_removed : Stream
  after_removed = emit_section entries (codes "Removed") removed after_added

  abbrev after_moved : Stream
  after_moved = emit_section entries (codes "Moved") moved after_removed

  sections-IsStream : IsStream (sections entries)
  sections-IsStream = emit_section-IsStream entries _ modified refl after_moved (
      emit_section-IsStream entries _ moved refl after_removed (
        emit_section-IsStream entries _ removed refl after_added
          (emit_section-IsStream entries _ added refl ([], true) (inl (refl, refl)))))

  sections-started :
      (k : DiffKind) → has_kind entries k ≡ true → starts_otherwise (sections entries).0 ≡ true
  sections-started added h = emit_section-started entries _ modified refl after_moved (
      emit_section-started entries _ moved refl after_removed (
        emit_section-started entries _ removed refl after_added
          (emit_section-written entries _ added refl ([], true) (inl (refl, refl)) h)))
  sections-started removed h = emit_section-started entries _ modified refl after_moved (
      emit_section-started entries _ moved refl after_removed (
        emit_section-written entries _ removed refl after_added
          (emit_section-IsStream entries _ added refl ([], true) (inl (refl, refl))) h))
  sections-started moved h = emit_section-started entries _ modified refl after_moved (
      emit_section-written entries _ moved refl after_removed
        (emit_section-IsStream entries _ removed refl after_added
          (emit_section-IsStream entries _ added refl ([], true) (inl (refl, refl))))
        h)
  sections-started modified h =
      emit_section-written entries _ modified refl after_moved
        (emit_section-IsStream entries _ moved refl after_removed (
          emit_section-IsStream entries _ removed refl after_added
            (emit_section-IsStream entries _ added refl ([], true) (inl (refl, refl)))))
        h

to_text-starts_otherwise :
    (es : List DiffEntry) (ds : List DiffDiagnostic)
    → is_empty es && is_empty ds ≡ false
    → starts_otherwise (to_text (record { entries = es; diagnostics = ds })) ≡ true
unfolding to_text
to_text-starts_otherwise [] [] h = absurd (cc)
to_text-starts_otherwise (e ∷ es) [] h = sections-started (e ∷ es) e.kind (first-has_kind e es)
to_text-starts_otherwise [] (d ∷ ds) h =
    begin_section-starts (sections []).0 (codes "Diagnostics:" ++ (10 ∷ diagnostic_lines (d ∷ ds)))
      (sections []).1 (sections-IsStream []) refl
to_text-starts_otherwise (e ∷ es) (d ∷ ds) h =
    begin_section-starts (sections (e ∷ es)).0
      (codes "Diagnostics:" ++ (10 ∷ diagnostic_lines (d ∷ ds))) (sections (e ∷ es)).1
      (sections-IsStream (e ∷ es)) refl

no_differences-otherwise : (t : Text) → t ≡ no_differences_text → starts_otherwise t ≢ true
no_differences-otherwise t e h = let k = sym h ∙ ap starts_otherwise e in absurd (cc)

-- The text of a report is the line that there are no differences exactly if the report has neither
-- entries nor diagnostics.
pub to_text-no_differences :
    (r : DiffReport) → (to_text r ≡ no_differences_text) ↔ (is_empty_report r ≡ true)
unfolding to_text
to_text-no_differences r = (
  λ h. elim (Bool-cases (is_empty_report r)) [
    | inl e ↦ e
    | inr f ↦ absurd (
        no_differences-otherwise (to_text r) h (to_text-starts_otherwise r.entries r.diagnostics f))
  ],
  λ e. rw e refl,
)
