-- ===== src/Resolve.antt =====
-- Cross-file references by short name (libparsex/src/parser.cpp): what a project defines, what it
-- still wants, and the final resolution. A `std::set` is a map to a unit value.
pub mod Complete
pub mod Targets
use parse_x.Base.{
  ℕ, suc, ◌+◌, Bool, List, [], ◌∷◌, ◌++◌, not, ◌&&◌, if◌then◌else◌, is_empty, map, any,
}
use parse_x.Base.Text.{Text, codes, text_eq}
use parse_x.Base.Decimal.{to_string}
use parse_x.Base.Map.{Map, contains, try_emplace}
use parse_x.Model.{Frame, Pdu, Signal, SignalGroup, ParsedFile, ResolvedReference, ParsedProject}

abbrev pub Names : Type 0
Names = Map Unit

-- A `for` loop over the elements, which changes a state.
unfoldable pub each {ℓ κ} : {A : Type ℓ} {S : Type κ} → (A → S → S) → List A → S → S
each step [] s = s
each step (x ∷ xs) s = each step xs (step x s)

pub record WantedRefs : Type 0 where
  pub pdus : Names
  pub signals : Names
  pub ecus : Names

pub record KnownRefs : Type 0 where
  pub pdus : Names
  pub signals : Names
  pub ecus : Names

abbrev pub wanted_is_empty : WantedRefs → Bool
wanted_is_empty w = is_empty w.pdus && (is_empty w.signals && is_empty w.ecus)

abbrev pub insert_name : Text → Names → Names
insert_name name names = try_emplace name tt names

-- Is the name one that no element has?
abbrev pub is_missing : Names → Text → Bool
is_missing known name = not (is_empty name) && not (contains name known)

unfoldable pub want_name : Names → Text → Names → Names
want_name known name wanted = if is_missing known name then insert_name name wanted else wanted

abbrev pub know_file : ParsedFile → KnownRefs → KnownRefs
know_file file known = record {
  pdus = each (λ p. insert_name p.common.short_name) file.pdus known.pdus;
  signals = each (λ s. insert_name s.common.short_name) file.signals known.signals;
  ecus = each (λ e. insert_name e.common.short_name) file.ecu_instances known.ecus;
}

unfoldable pub collect_known_refs : ParsedProject → KnownRefs
collect_known_refs project =
    each know_file project.files (record { pdus = []; signals = []; ecus = [] })

abbrev pub pdu_refs : Frame → List Text
pdu_refs frame = map (λ m. m.pdu_short_name_ref) frame.pdus

abbrev pub signal_refs : Pdu → List Text
signal_refs pdu = map (λ m. m.signal_short_name_ref) pdu.signal_mappings

abbrev pub want_ecus : KnownRefs → List Text → WantedRefs → WantedRefs
want_ecus known names wanted = record wanted {
  ecus = each (want_name known.ecus) names wanted.ecus;
}

abbrev pub want_pdus : KnownRefs → List Text → WantedRefs → WantedRefs
want_pdus known names wanted = record wanted {
  pdus = each (want_name known.pdus) names wanted.pdus;
}

abbrev pub want_signals : KnownRefs → List Text → WantedRefs → WantedRefs
want_signals known names wanted = record wanted {
  signals = each (want_name known.signals) names wanted.signals;
}

unfoldable pub want_frame_refs : KnownRefs → Frame → WantedRefs → WantedRefs
want_frame_refs known frame wanted =
    want_pdus known (pdu_refs frame) (want_ecus known frame.transmitters wanted)

unfoldable pub want_file_refs : KnownRefs → ParsedFile → WantedRefs → WantedRefs
want_file_refs known file wanted =
    let w1 = each (want_frame_refs known) file.frames wanted in
    let w2 = each (λ p. want_signals known (signal_refs p)) file.pdus w1 in
    let w3 = each (λ s. want_ecus known s.receivers) file.signals w2 in
    each (λ g. want_signals known g.members) file.signal_groups w3

unfoldable pub collect_wanted_refs : ParsedProject → WantedRefs
collect_wanted_refs project =
    each (want_file_refs (collect_known_refs project)) project.files
      (record { pdus = []; signals = []; ecus = [] })

pub record UnresolvedSite : Type 0 where
  pub key : Text
  pub wanted : Text

-- The two containers that the resolution of the files fills.
pub record Resolution : Type 0 where
  pub resolved : Map ResolvedReference
  pub unresolved : List UnresolvedSite

unfoldable pub resolve : Names → Text → Text → Resolution → Resolution
resolve known key wanted r =
    if is_empty wanted
    then r
    else if contains wanted known
    then record r {
      resolved = try_emplace key (record { target_short_name_path = wanted }) r.resolved;
    }
    else record r { unresolved = r.unresolved ++ (record { key = key; wanted = wanted }) ∷ [] }

abbrev pub site_key : Text → Text → ℕ → Text
site_key owner field idx =
    owner ++ (codes "." ++ (field ++ (codes "[" ++ (to_string idx ++ codes "]"))))

-- The references of one field from index `idx` on.
unfoldable pub resolve_field : Names → Text → Text → ℕ → List Text → Resolution → Resolution
resolve_field known owner field idx [] r = r
resolve_field known owner field idx (name ∷ names) r =
    resolve_field known owner field (suc idx) names
      (resolve known (site_key owner field idx) name r)

unfoldable pub resolve_frame : KnownRefs → Frame → Resolution → Resolution
resolve_frame known f r =
    resolve_field known.pdus f.common.short_name (codes "pdus") 0 (pdu_refs f)
      (resolve_field known.ecus f.common.short_name (codes "transmitters") 0 f.transmitters r)

abbrev pub resolve_pdu : KnownRefs → Pdu → Resolution → Resolution
resolve_pdu known p =
    resolve_field known.signals p.common.short_name (codes "signalMappings") 0 (signal_refs p)

abbrev pub resolve_signal : KnownRefs → Signal → Resolution → Resolution
resolve_signal known s =
    resolve_field known.ecus s.common.short_name (codes "receivers") 0 s.receivers

abbrev pub resolve_group : KnownRefs → SignalGroup → Resolution → Resolution
resolve_group known g =
    resolve_field known.signals g.common.short_name (codes "members") 0 g.members

unfoldable pub resolve_file_refs : KnownRefs → ParsedFile → Resolution → Resolution
resolve_file_refs known file r =
    let r1 = each (resolve_frame known) file.frames r in
    let r2 = each (resolve_pdu known) file.pdus r1 in
    let r3 = each (resolve_signal known) file.signals r2 in
    each (resolve_group known) file.signal_groups r3

-- `DanglingFileReferenceError`
pub record DanglingFileReference : Type 0 where
  pub missing : List Text
  pub searched : List Text
  pub sites : Text

pub data Outcome : Type 0 where
  completed : ParsedProject → Outcome
  dangling_reference : DanglingFileReference → Outcome

abbrev pub add_site : UnresolvedSite → Text → Text
add_site site sites =
    (if is_empty sites then [] else sites ++ codes "; ")
    ++ (site.key ++ (codes " -> " ++ site.wanted))

abbrev pub add_directory : (Text → Text) → ParsedFile → List Text → List Text
add_directory parent_path file dirs =
    let parent = parent_path file.source_path in
    let directory = if is_empty parent then codes "." else parent in
    if any (λ d. text_eq d directory) dirs then dirs else dirs ++ directory ∷ []

unfoldable pub resolve_files : ParsedProject → Resolution
resolve_files project =
    each (resolve_file_refs (collect_known_refs project)) project.files
      (record { resolved = []; unresolved = [] })

-- `parent_path` is that of `std::filesystem`.
unfoldable pub resolve_cross_file_references : (Text → Text) → ParsedProject → Outcome
resolve_cross_file_references parent_path project =
    let r = resolve_files project in
    if not (is_empty r.unresolved)
    then dangling_reference (record {
      missing = map (λ (n, u). n) (each (λ s. insert_name s.wanted) r.unresolved []);
      searched = each (add_directory parent_path) project.files [];
      sites = each add_site r.unresolved [];
    })
    else completed (record project { resolved_refs = r.resolved })
