-- ===== src/Validator/Can/Silent.antt =====
-- The whole CAN check is silent exactly on projects whose lengths and layouts are right.
use parse_x.Base.{
  nil_of_append, append-nils, ℕ, ◌*◌, ◌≤◌, ◌^◌, List, [], ◌∷◌, ◌++◌, Option, some, inl, inr, ◌≡◌,
  ◌⊎◌, ◌↔◌, refl, sym, subst, In, here, there,
}
use parse_x.Base.Text.{Text, codes}
use parse_x.Base.Map.{Map, find}
use parse_x.Base.Map.Emplace.{first_with, find-emplace_all}
use parse_x.Model.{Frame, PduSignalMapping, Pdu, Signal, ParsedFile, ParsedProject}
use parse_x.Validator.Can.{
  can_fd_bytes_for_dlc, check_signal_overlap, check_frames, check_pdus, signals_by_name,
  check_files, validate_can_semantics,
}
use parse_x.Validator.Can.Length.{check_payload_length-exact}
use parse_x.Validator.Can.Layout.{check_signal_overlap-exact}
use parse_x.Validator.Can.Taken.{Holds, IsLaidOut, IsLow, LaidOut-iff}

-- The length is the payload of one of the DLCs 0 to 15.
abbrev pub IsPayloadLength : ℕ → Type 0
IsPayloadLength n = (d : ℕ) × (d ≤ 15) × (can_fd_bytes_for_dlc d ≡ some n)

-- The first signal of the file with the name.
abbrev pub signal_named : List Signal → Text → Option Signal
signal_named signals name = first_with (λ s. s.common.short_name) name signals

-- The length of the PDU, and the bits that its mappings take.
pub record IsSoundPdu (signals : List Signal) (pdu : Pdu) : Type 0 where
  pub payload : IsPayloadLength pdu.length
  pub layout :
      (pdu.length ≡ 0) ⊎ IsLaidOut (signal_named signals) (pdu.length * 8) pdu.signal_mappings

pub record IsSoundFile (file : ParsedFile) : Type 0 where
  pub frames : (frame : Frame) → In frame file.frames → IsPayloadLength frame.length
  pub pdus : (pdu : Pdu) → In pdu file.pdus → IsSoundPdu file.signals pdu

-- The bits of the PDU and of its mappings are numbered below 2 ^ 31, as an `int` can.
pub record IsLowPdu (signals : List Signal) (pdu : Pdu) : Type 0 where
  pub payload : pdu.length * 8 ≤ 2 ^ 31
  pub mappings : (m : PduSignalMapping) → In m pdu.signal_mappings → IsLow (signal_named signals) m

signals_by_name-Holds :
    (file : ParsedFile) → Holds (signals_by_name file) (signal_named file.signals)
unfolding find
signals_by_name-Holds file name =
    find-emplace_all (λ (s : Signal). s.common.short_name) name [] file.signals

check_frames-silent :
    (frames : List Frame)
    → (check_frames frames ≡ [])
      ↔ ((frame : Frame) → In frame frames → IsPayloadLength frame.length)
unfolding check_frames
check_frames-silent [] = (λ h f i. elim i [ ], λ h. refl)
check_frames-silent (frame ∷ frames) = (
  λ h f i. elim i [
    | here q ↦
        subst (λ (g : Frame). IsPayloadLength g.length) (sym q)
          ((check_payload_length-exact (codes "Frame") frame.common.short_name frame.length
              frame.common.raw_span_ref).0
            (nil_of_append _ (check_frames frames) h).0)
    | there j ↦ (check_frames-silent frames).0 (nil_of_append _ (check_frames frames) h).1 f j
  ],
  λ h.
      append-nils
        ((check_payload_length-exact (codes "Frame") frame.common.short_name frame.length
            frame.common.raw_span_ref).1
          (h frame (here refl)))
        ((check_frames-silent frames).1 λ f i. h f (there i)),
)

either {ℓ κ μ} : {A : Type ℓ} {B : Type κ} {C : Type μ} → (B → C) → A ⊎ B → A ⊎ C
either f (inl a) = inl a
either f (inr b) = inr (f b)

check_pdus-silent :
    (signals : Map Signal) (named : List Signal)
    → Holds signals (signal_named named)
    → (pdus : List Pdu) → ((pdu : Pdu) → In pdu pdus → IsLowPdu named pdu)
    → (check_pdus signals pdus ≡ []) ↔ ((pdu : Pdu) → In pdu pdus → IsSoundPdu named pdu)
unfolding check_pdus
check_pdus-silent signals named holds [] small = (λ h f i. elim i [ ], λ h. refl)
check_pdus-silent signals named holds (pdu ∷ pdus) small =
    let rest = check_pdus-silent signals named holds pdus (λ p i. small p (there i)) in
    let low = small pdu (here refl) in
    let overlaps = check_signal_overlap-exact pdu signals low.payload in
    let laid_out =
      LaidOut-iff (signal_named named) signals holds (pdu.length * 8) pdu.signal_mappings
        low.mappings in
    (
      λ h p i.
          let parts =
            nil_of_append _ (check_signal_overlap pdu signals ++ check_pdus signals pdus) h in
          let more = nil_of_append (check_signal_overlap pdu signals) _ parts.1 in
          elim i [
            | here q ↦ subst (IsSoundPdu named) (sym q) (record {
              payload =
                  (check_payload_length-exact (codes "Pdu") pdu.common.short_name pdu.length
                      pdu.common.raw_span_ref).0
                    parts.0;
              layout = either laid_out.0 (overlaps.0 more.0);
            })
            | there j ↦ rest.0 more.1 p j
          ],
      λ h.
          let sound = h pdu (here refl) in
          append-nils
            ((check_payload_length-exact (codes "Pdu") pdu.common.short_name pdu.length
                pdu.common.raw_span_ref).1
              sound.payload)
            (append-nils (overlaps.1 (either laid_out.1 sound.layout))
              (rest.1 λ p i. h p (there i))),
    )

check_files-silent :
    (files : List ParsedFile)
    → ((file : ParsedFile) (pdu : Pdu)
        → In file files
        → In pdu file.pdus
        → IsLowPdu file.signals pdu)
    → (check_files files ≡ []) ↔ ((file : ParsedFile) → In file files → IsSoundFile file)
unfolding check_files
check_files-silent [] small = (λ h f i. elim i [ ], λ h. refl)
check_files-silent (file ∷ files) small =
    let rest = check_files-silent files (λ f p i. small f p (there i)) in
    let pdus =
      check_pdus-silent (signals_by_name file) file.signals (signals_by_name-Holds file) file.pdus
        (λ p i. small file p (here refl) i) in
    (
      λ h f i.
          let parts = nil_of_append (check_frames file.frames) _ h in
          let more = nil_of_append (check_pdus (signals_by_name file) file.pdus) _ parts.1 in
          elim i [
            | here q ↦ subst IsSoundFile (sym q) (record {
              frames = (check_frames-silent file.frames).0 parts.0;
              pdus = pdus.0 more.0;
            })
            | there j ↦ rest.0 more.1 f j
          ],
      λ h.
          let sound = h file (here refl) in
          append-nils ((check_frames-silent file.frames).1 sound.frames)
            (append-nils (pdus.1 sound.pdus) (rest.1 λ f i. h f (there i))),
    )

-- In a project in which the bits of each PDU number at most 2 ^ 31, and those of each mapping end
-- below 2 ^ 31, the CAN check reports nothing exactly if in each file the length of each frame and
-- PDU is the payload of a DLC from 0 to 15, and in each PDU that is not empty every bit that a mapping
-- takes lies in the payload, and no bit is taken by mappings of two different signal names. The bits
-- of a mapping are as many as the first signal of its name is long, at consecutive places from its
-- start position in its byte order.
pub validate_can_semantics-silent :
    (project : ParsedProject)
    → ((file : ParsedFile) (pdu : Pdu)
        → In file project.files
        → In pdu file.pdus
        → IsLowPdu file.signals pdu)
    → ((validate_can_semantics project).errors ≡ [])
      ↔ ((file : ParsedFile) → In file project.files → IsSoundFile file)
unfolding validate_can_semantics
validate_can_semantics-silent project small = check_files-silent project.files small
