-- ===== src/Discovery.antt =====
-- The lazy discovery of files (LazyOnReference of libparsex/src/parser.cpp): candidates are read,
-- filtered by the names that are missing, and parsed, round after round. The file system, the parse
-- of a file and the enumeration of the candidates are parameters; a path is its text.
pub mod Filter
pub mod Rounds
pub mod Settled
use parse_x.Base.{
  ℕ, zero, suc, ◌+◌, ◌-◌, Bool, true, false, Option, none, some, List, [], ◌∷◌, ◌++◌, ◌==◌, ◌||◌,
  not, if◌then◌else◌, is_empty, any, map, length,
}
use parse_x.Base.Text.{Text, codes}
use parse_x.Base.Map.{contains}
use parse_x.Model.{ParsedFile, ParsedProject}
use parse_x.Loader.Encoding.{starts_with}
use parse_x.Resolve.{
  Names, each, WantedRefs, wanted_is_empty, insert_name, collect_wanted_refs, Outcome,
  resolve_cross_file_references,
}

abbrev pub k_max_lazy_iterations : ℕ
k_max_lazy_iterations = 50

abbrev pub is_space_byte : ℕ → Bool
is_space_byte c = c == 32 || (c == 9 || (c == 13 || c == 10))

abbrev pub drop : ℕ → Text → Text
drop zero s = s
drop (suc n) [] = []
drop (suc n) (c ∷ s) = drop n s

-- How many blanks there are in front.
unfoldable pub count_spaces : Text → ℕ
count_spaces [] = 0
count_spaces (c ∷ s) = let rest = count_spaces s in if is_space_byte c then suc rest else 0

abbrev pub opener : Text
opener = codes "SHORT-NAME>"

abbrev pub opens_tag : Option ℕ → Bool
opens_tag none = false
opens_tag (some c) = c == b'<' || c == b':'

-- What the loop of `rawDefinesShortName` finds at one place: the name, or how many bytes it goes on.
pub data Place : Type 0 where
  found : Place
  go_on : ℕ → Place

abbrev pub name_at : Text → Text → Place
name_at short_name s =
    let name_pos = length opener + count_spaces (drop (length opener) s) in
    let after =
      name_pos + length short_name + count_spaces (drop (name_pos + length short_name) s) in
    if not (starts_with (drop name_pos s) short_name)
    then go_on name_pos
    else (if starts_with (drop after s) (b'<' ∷ []) then found else go_on after)

unfoldable pub place_at : Text → Option ℕ → Text → Place
place_at short_name before s =
    if not (starts_with s opener)
    then go_on 1
    else (if not (opens_tag before) then go_on 1 else name_at short_name s)

-- From the byte `before` on, past `skip` bytes.
unfoldable pub raw_defines_from : Text → Option ℕ → ℕ → Text → Bool
raw_defines_from short_name before skip [] = false
raw_defines_from short_name before (suc skip) (c ∷ s) = raw_defines_from short_name (some c) skip s
raw_defines_from short_name before zero (c ∷ s) = elim (place_at short_name before (c ∷ s)) [
  | found ↦ true
  | go_on n ↦ raw_defines_from short_name (some c) (n - 1) s
]

-- A file that starts like UTF-16 is always parsed.
unfoldable pub raw_defines_short_name : Text → Text → Bool
raw_defines_short_name bytes short_name =
    if starts_with bytes (0xff ∷ 0xfe ∷ []) || starts_with bytes (0xfe ∷ 0xff ∷ [])
    then true
    else raw_defines_from short_name none 0 bytes

unfoldable pub flatten_wanted : WantedRefs → List Text
flatten_wanted wanted =
    map (λ (n, u). n) wanted.pdus
    ++ (map (λ (n, u). n) wanted.signals ++ map (λ (n, u). n) wanted.ecus)

unfoldable pub defines_wanted_name : ParsedFile → WantedRefs → Bool
defines_wanted_name file wanted =
    any (λ p. contains p.common.short_name wanted.pdus) file.pdus
    || (any (λ s. contains s.common.short_name wanted.signals) file.signals
        || any (λ e. contains e.common.short_name wanted.ecus) file.ecu_instances)

pub data ExpansionStep : Type 0 where
  complete advanced stuck : ExpansionStep

-- What the rounds change.
pub record Expansion : Type 0 where
  pub project : ParsedProject
  pub parsed : Names
  pub added : Bool

abbrev pub add_file : Text → ParsedFile → Expansion → Expansion
add_file candidate file e = record {
  project = record e.project { files = e.project.files ++ file ∷ [] };
  parsed = insert_name candidate e.parsed;
  added = true;
}

abbrev pub no_files : Expansion
no_files = record {
  project = record { files = []; resolved_refs = [] };
  parsed = [];
  added = false;
}

abbrev pub is_advanced : ExpansionStep → Bool
is_advanced advanced = true
is_advanced _ = false

-- A file that does not parse gives `none`, as does a path that cannot be read the empty text.
module _ (read_file_bytes_or_empty : Text → Text) (parse : Text → Option ParsedFile) where
  unfoldable pub candidate_defines_any : Text → WantedRefs → Bool
  candidate_defines_any path wanted =
      let bytes = read_file_bytes_or_empty path in
      if is_empty bytes then true else any (raw_defines_short_name bytes) (flatten_wanted wanted)

  abbrev pub take_file : WantedRefs → Text → Option ParsedFile → Expansion → Expansion
  take_file wanted candidate none e = e
  take_file wanted candidate (some file) e =
      if not (defines_wanted_name file wanted) then e else add_file candidate file e

  -- The body of the loop over the candidates.
  unfoldable pub probe : WantedRefs → Text → Expansion → Expansion
  probe wanted candidate e =
      if contains candidate e.parsed
      then e
      else (if not (candidate_defines_any candidate wanted)
          then e
          else take_file wanted candidate (parse candidate) e)

  unfoldable pub expand_project_once : List Text → Expansion → ExpansionStep × Expansion
  expand_project_once candidates e =
      let wanted = collect_wanted_refs e.project in
      let tried = each (probe wanted) candidates (record e { added = false }) in
      if wanted_is_empty wanted
      then (complete, record e { added = false })
      else (if tried.added then advanced else stuck, tried)

  -- The loop of `parseProjectLazy`, for at most so many rounds.
  unfoldable pub rounds : List Text → ℕ → Expansion → Expansion
  rounds candidates zero e = e
  rounds candidates (suc n) e =
      let (step, next) = expand_project_once candidates e in
      let rest = rounds candidates n next in if is_advanced step then rest else next

  -- The files of the entry points, unless one does not parse.
  unfoldable pub parse_entries : (Text → Text) → List Text → Expansion → Option Expansion
  parse_entries normalize_path [] e = some e
  parse_entries normalize_path (entry ∷ entries) e = elim (parse entry) [
    | none ↦ none
    | some file ↦ parse_entries normalize_path entries (add_file (normalize_path entry) file e)
  ]

  unfoldable pub parse_project_lazy :
      (Text → Text) → (Text → Text) → (List Text → Names → List Text) → List Text → Option Outcome
  parse_project_lazy parent_path normalize_path enumerate_candidates entry_points =
      elim (parse_entries normalize_path entry_points no_files) [
        | none ↦ none
        | some e ↦ some (
            resolve_cross_file_references parent_path
              (rounds (enumerate_candidates entry_points e.parsed) k_max_lazy_iterations e).project)
      ]
