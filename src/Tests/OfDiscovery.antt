-- ===== src/Tests/OfDiscovery.antt =====
-- The lazy discovery from one file, whose frame names a transmitter, with one candidate that does
-- not parse.
use parse_x.Base.{
  Option, none, some, List, [], ◌∷◌, ◌≡◌, ◌++◌, true, ◌⊎◌, refl, arith, In, if◌then◌else◌,
}
use parse_x.Base.Text.{Text, codes, text_eq}
use parse_x.Model.{ParsedFile, ParsedProject}
use parse_x.Resolve.{Names, collect_wanted_refs, completed}
use parse_x.Discovery.Filter.{raw_defines_short_name-tag}
use parse_x.Discovery.{
  opener, raw_defines_short_name, Expansion, add_file, no_files, rounds, parse_entries,
  parse_project_lazy,
}
use parse_x.Discovery.Settled.{IsUseless, parse_project_lazy-IsUseless}
use parse_x.Tests.{frame_of, file_of}

abbrev entry_file : ParsedFile
entry_file = file_of (frame_of (codes "Brake") (codes "A" ∷ []) [] ∷ []) [] [] none

abbrev bytes_of : Text → Text
bytes_of path = []

abbrev parse : Text → Option ParsedFile
parse path = if text_eq path (codes "a") then some entry_file else none

abbrev same_path : Text → Text
same_path path = path

abbrev candidates_of : List Text → Names → List Text
candidates_of entries parsed = codes "b" ∷ []

abbrev after_entries : Expansion
after_entries = add_file (codes "a") entry_file no_files

abbrev last : Expansion
last = rounds bytes_of parse (codes "b" ∷ []) 50 after_entries

entries_parsed :
    parse_entries bytes_of parse same_path (codes "a" ∷ []) no_files ≡ some after_entries
unfolding parse_entries text_eq
entries_parsed = refl

parse_project_lazy-IsUseless_example :
    ((p : ParsedProject) × (parse_project_lazy bytes_of parse same_path same_path candidates_of
          (codes "a" ∷ [])
        ≡ some (completed p)))
    ⊎ ((c : Text)
        → In c (codes "b" ∷ [])
        → IsUseless bytes_of parse (collect_wanted_refs last.project) last.parsed c)
parse_project_lazy-IsUseless_example =
    parse_project_lazy-IsUseless bytes_of parse same_path same_path candidates_of (codes "a" ∷ [])
      after_entries entries_parsed (omega arith)

raw_defines_short_name-tag_example :
    raw_defines_short_name
      (codes "<P>"
        ++ b'<'
          ∷ (opener ++ ((32 ∷ []) ++ ((b'A' ∷ codes "1") ++ ([] ++ b'<' ∷ codes "/SHORT-NAME>")))))
      (b'A' ∷ codes "1")
    ≡ true
raw_defines_short_name-tag_example =
    raw_defines_short_name-tag (codes "<P>") (codes "/SHORT-NAME>") (32 ∷ []) [] b'A' (codes "1")
      (refl, tt) tt refl (refl, (refl, tt))
