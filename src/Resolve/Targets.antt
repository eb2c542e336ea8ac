-- ===== src/Resolve/Targets.antt =====
-- The final resolution succeeds exactly on projects whose references all have targets.
use parse_x.Base.{
  true, false, List, [], ◌∷◌, ◌≡◌, ◌≢◌, ◌⊎◌, ◌↔◌, refl, sym, ap, ◌∙◌, subst, arith, All, In, here,
  there, inl, inr, Bool-cases, if◌then◌else◌, All-of_In, In-All, In-map, In-of_In-map,
}
use parse_x.Base.Text.{Text, text_eq, text_eq_iff}
use parse_x.Base.Map.{find, contains}
use parse_x.Base.Map.Laws.{find-try_emplace}
use parse_x.Model.{
  EcuInstance, FramePduMapping, Frame, PduSignalMapping, Pdu, Signal, SignalGroup, ParsedFile,
  ParsedProject,
}
use parse_x.Resolve.{
  Names, each, KnownRefs, insert_name, is_missing, know_file, collect_known_refs,
  collect_wanted_refs, completed, resolve_cross_file_references,
}
use parse_x.Resolve.Complete.{
  each_iff, WantsNothing, FrameFine, FileFine, want_file_refs_iff, wanted_is_empty_iff,
  collect_wanted_refs-completed,
}

-- Some file has an element with the short name.
abbrev pub IsNamedIn {ℓ} :
    {A : Type ℓ} → (A → Text) → (ParsedFile → List A) → List ParsedFile → Text → Type ℓ
IsNamedIn {A} key items files name =
    (file : ParsedFile) × In file files × (x : A) × In x (items file) × (key x ≡ name)

abbrev pub IsEcu : ParsedProject → Text → Type 0
IsEcu project = IsNamedIn (λ e. e.common.short_name) (λ f. f.ecu_instances) project.files

abbrev pub IsPdu : ParsedProject → Text → Type 0
IsPdu project = IsNamedIn (λ e. e.common.short_name) (λ f. f.pdus) project.files

abbrev pub IsSignal : ParsedProject → Text → Type 0
IsSignal project = IsNamedIn (λ e. e.common.short_name) (λ f. f.signals) project.files

contains-insert_name :
    (k j : Text) (m : Names)
    → contains k (insert_name j m) ≡ (if text_eq j k then true else contains k m)
contains-insert_name k j m = ground (arith, find-try_emplace j k tt m)

module _ {ℓ} {A : Type ℓ} (key : A → Text) where
  contains-each_iff :
      (k : Text) (xs : List A) (m : Names)
      → (contains k (each (λ x. insert_name (key x)) xs m) ≡ true)
        ↔ ((contains k m ≡ true) ⊎ ((x : A) × In x xs × (key x ≡ k)))
  unfolding each
  contains-each_iff k [] m = (λ h. inl h, λ h. elim h [ inl c ↦ c | inr r ↦ elim r.1 [ ] ])
  contains-each_iff k (y ∷ ys) m =
      let rest = contains-each_iff k ys (insert_name (key y) m) in
      let head = contains-insert_name k (key y) m in
      (
        λ h. elim (rest.0 h) [
          | inl c ↦ elim (Bool-cases (text_eq (key y) k)) [
            | inl t ↦ inr (y, here refl, (text_eq_iff (key y) k).0 t)
            | inr f ↦ inl (ground (arith, head, c, f))
          ]
          | inr r ↦ inr (r.0, there r.1, r.2)
        ],
        λ h. rest.1 (elim h [
          | inl c ↦ inl (ground (arith, head, c))
          | inr r ↦ elim r.1 [
            | here e ↦ inl (ground (arith, head, (text_eq_iff (key y) k).1 (sym (ap key e) ∙ r.2)))
            | there i ↦ inr (r.0, i, r.2)
          ]
        ]),
      )

  -- The names of one kind, gathered over the files.
  module _ (pick : KnownRefs → Names) (items : ParsedFile → List A)
      (gathers : (file : ParsedFile) (s : KnownRefs)
        → pick (know_file file s) ≡ each (λ x. insert_name (key x)) (items file) (pick s)) where
    contains-known_iff :
        (k : Text) (files : List ParsedFile) (s : KnownRefs)
        → (contains k (pick (each know_file files s)) ≡ true)
          ↔ ((contains k (pick s) ≡ true) ⊎ IsNamedIn key items files k)
    unfolding each
    contains-known_iff k [] s = (λ h. inl h, λ h. elim h [ inl c ↦ c | inr r ↦ elim r.1 [ ] ])
    contains-known_iff k (f ∷ fs) s =
        let rest = contains-known_iff k fs (know_file f s) in
        let one = contains-each_iff k (items f) (pick s) in
        let same = ap (contains k) (gathers f s) in
        (
          λ h. elim (rest.0 h) [
            | inl c ↦ elim (one.0 (sym same ∙ c)) [
              | inl d ↦ inl d
              | inr r ↦ inr (f, here refl, r.0, r.1, r.2)
            ]
            | inr r ↦ inr (r.0, there r.1, r.2, r.3, r.4)
          ],
          λ h. rest.1 (elim h [
            | inl c ↦ inl (same ∙ one.1 (inl c))
            | inr r ↦ elim r.1 [
              | here e ↦ inl (same ∙ one.1 (inr (r.2, subst (λ g. In r.2 (items g)) e r.3, r.4)))
              | there i ↦ inr (r.0, i, r.2, r.3, r.4)
            ]
          ]),
        )

-- A name is not missing exactly if it is empty or known.
not_missing_iff :
    (known : Names) (n : Text) → (is_missing known n ≡ false) ↔ (n ≢ [] → contains n known ≡ true)
not_missing_iff known [] = (λ h e. absurd (e refl), λ h. ground arith)
not_missing_iff known (c ∷ cs) =
    (λ h e. ground (arith, h), λ h. let k = h (λ e. absurd (cc)) in ground (arith, k))

-- The references of a project by field; those of no text are left out.
pub record HasTargets (project : ParsedProject) : Type 0 where
  pub transmitters :
      (file : ParsedFile) (frame : Frame) (n : Text)
      → In file project.files
      → In frame file.frames
      → In n frame.transmitters
      → n ≢ []
      → IsEcu project n
  pub frame_pdus :
      (file : ParsedFile) (frame : Frame) (m : FramePduMapping)
      → In file project.files
      → In frame file.frames
      → In m frame.pdus
      → m.pdu_short_name_ref ≢ []
      → IsPdu project m.pdu_short_name_ref
  pub pdu_signals :
      (file : ParsedFile) (pdu : Pdu) (m : PduSignalMapping)
      → In file project.files
      → In pdu file.pdus
      → In m pdu.signal_mappings
      → m.signal_short_name_ref ≢ []
      → IsSignal project m.signal_short_name_ref
  pub receivers :
      (file : ParsedFile) (signal : Signal) (n : Text)
      → In file project.files
      → In signal file.signals
      → In n signal.receivers
      → n ≢ []
      → IsEcu project n
  pub members :
      (file : ParsedFile) (group : SignalGroup) (n : Text)
      → In file project.files
      → In group file.signal_groups
      → In n group.members
      → n ≢ []
      → IsSignal project n

module _ (project : ParsedProject) where
  abbrev known : KnownRefs
  known = collect_known_refs project

  IsEcu-iff : (n : Text) → (is_missing known.ecus n ≡ false) ↔ (n ≢ [] → IsEcu project n)
  unfolding collect_known_refs find
  IsEcu-iff n =
      let k =
        contains-known_iff (λ (e : EcuInstance). e.common.short_name) (λ (s : KnownRefs). s.ecus)
          (λ f. f.ecu_instances) (λ f s. refl) n project.files
          (record { pdus = []; signals = []; ecus = [] }) in
      let m = not_missing_iff known.ecus n in
      (
        λ h e. elim (k.0 (m.0 h e)) [ inl c ↦ absurd (cc) | inr r ↦ r ],
        λ h. m.1 λ e. k.1 (inr (h e)),
      )

  IsPdu-iff : (n : Text) → (is_missing known.pdus n ≡ false) ↔ (n ≢ [] → IsPdu project n)
  unfolding collect_known_refs find
  IsPdu-iff n =
      let k =
        contains-known_iff (λ (e : Pdu). e.common.short_name) (λ (s : KnownRefs). s.pdus)
          (λ f. f.pdus) (λ f s. refl) n project.files
          (record { pdus = []; signals = []; ecus = [] }) in
      let m = not_missing_iff known.pdus n in
      (
        λ h e. elim (k.0 (m.0 h e)) [ inl c ↦ absurd (cc) | inr r ↦ r ],
        λ h. m.1 λ e. k.1 (inr (h e)),
      )

  IsSignal-iff : (n : Text) → (is_missing known.signals n ≡ false) ↔ (n ≢ [] → IsSignal project n)
  unfolding collect_known_refs find
  IsSignal-iff n =
      let k =
        contains-known_iff (λ (e : Signal). e.common.short_name) (λ (s : KnownRefs). s.signals)
          (λ f. f.signals) (λ f s. refl) n project.files
          (record { pdus = []; signals = []; ecus = [] }) in
      let m = not_missing_iff known.signals n in
      (
        λ h e. elim (k.0 (m.0 h e)) [ inl c ↦ absurd (cc) | inr r ↦ r ],
        λ h. m.1 λ e. k.1 (inr (h e)),
      )

  -- What each file must have, written out.
  FileFine-HasTargets : All (FileFine known) project.files → HasTargets project
  FileFine-HasTargets a = record {
    transmitters = λ file frame n i j k.
        let f = In-All (FileFine known) project.files a i in
        (IsEcu-iff n).0
          (In-All _ frame.transmitters (In-All (FrameFine known) file.frames f.0.0.0 j).0 k);
    frame_pdus = λ file frame m i j k.
        let f = In-All (FileFine known) project.files a i in
        (IsPdu-iff m.pdu_short_name_ref).0 (
          In-All (λ n. is_missing known.pdus n ≡ false) _
            (In-All (FrameFine known) file.frames f.0.0.0 j).1
            (In-map (λ (m : FramePduMapping). m.pdu_short_name_ref) k));
    pdu_signals = λ file pdu m i j k.
        let f = In-All (FileFine known) project.files a i in
        (IsSignal-iff m.signal_short_name_ref).0 (
          In-All (λ n. is_missing known.signals n ≡ false) _ (In-All _ file.pdus f.0.0.1 j)
            (In-map (λ (m : PduSignalMapping). m.signal_short_name_ref) k));
    receivers = λ file signal n i j k.
        let f = In-All (FileFine known) project.files a i in
        (IsEcu-iff n).0 (In-All _ signal.receivers (In-All _ file.signals f.0.1 j) k);
    members = λ file group n i j k.
        let f = In-All (FileFine known) project.files a i in
        (IsSignal-iff n).0 (In-All _ group.members (In-All _ file.signal_groups f.1 j) k);
  }

  HasTargets-FileFine : HasTargets project → All (FileFine known) project.files
  HasTargets-FileFine h = All-of_In (FileFine known) project.files λ file i. (
    (
      (
        All-of_In (FrameFine known) file.frames λ frame j. (
          All-of_In _ frame.transmitters
              (λ n k. (IsEcu-iff n).1 (h.transmitters file frame n i j k)),
          All-of_In _ _ λ n k.
              let m = In-of_In-map (λ (m : FramePduMapping). m.pdu_short_name_ref) frame.pdus k in
              (IsPdu-iff n).1 λ e.
                subst (IsPdu project) (sym m.2)
                  (h.frame_pdus file frame m.0 i j m.1 (λ q. e (m.2 ∙ q))),
        ),
        All-of_In _ file.pdus λ pdu j. All-of_In _ _ λ n k.
            let m =
              In-of_In-map (λ (m : PduSignalMapping). m.signal_short_name_ref) pdu.signal_mappings
                k in
            (IsSignal-iff n).1 λ e.
              subst (IsSignal project) (sym m.2)
                (h.pdu_signals file pdu m.0 i j m.1 (λ q. e (m.2 ∙ q))),
      ),
      All-of_In _ file.signals λ signal j.
          All-of_In _ signal.receivers (λ n k. (IsEcu-iff n).1 (h.receivers file signal n i j k)),
    ),
    All-of_In _ file.signal_groups λ group j.
        All-of_In _ group.members (λ n k. (IsSignal-iff n).1 (h.members file group n i j k)),
  )

  wanted-HasTargets : WantsNothing (collect_wanted_refs project) ↔ HasTargets project
  unfolding collect_wanted_refs
  wanted-HasTargets =
      let loop =
        each_iff WantsNothing (FileFine known) _ (want_file_refs_iff known) project.files
          (record { pdus = []; signals = []; ecus = [] }) in
      (
        λ w. FileFine-HasTargets (loop.0 w).1,
        λ h. loop.1 (record { pdus = refl; signals = refl; ecus = refl }, HasTargets-FileFine h),
      )

-- The final resolution completes a project exactly if each transmitter and receiver that is not empty
-- is the short name of an ECU instance, each PDU that a frame maps that of a PDU, and each signal that
-- a PDU maps or a group lists that of a signal, in any of the files.
pub completed-HasTargets :
    (parent_path : Text → Text) (project : ParsedProject)
    → ((p : ParsedProject) × (resolve_cross_file_references parent_path project ≡ completed p))
      ↔ HasTargets project
completed-HasTargets parent_path project =
    let agree = collect_wanted_refs-completed parent_path project in
    let empty = wanted_is_empty_iff (collect_wanted_refs project) in
    let targets = wanted-HasTargets project in
    (λ h. targets.0 (empty.0 (agree.1 h)), λ h. agree.0 (empty.1 (targets.1 h)))
