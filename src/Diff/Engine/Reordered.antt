-- ===== src/Diff/Engine/Reordered.antt =====
-- The diff does not see the order of elements, nor in which file an element stands.
use parse_x.Base.{◌≡◌, ◌∙◌, ap}
use parse_x.Base.Text.{Text}
use parse_x.Model.{Double, ParsedProject}
use parse_x.Diff.Report.{no_differences}
use parse_x.Diff.Match.{build_indexes, collect_all}
use parse_x.Diff.Match.Index.{SameElements, index_by_path-SameElements}
use parse_x.Diff.Engine.{diff_indexes, diff, diff-diff_indexes}
use parse_x.Diff.Engine.Same.{diff_indexes_self}

-- The same named elements of each type over all files, in any order and distribution.
pub record SameProject (p q : ParsedProject) : Type 0 where
  pub clusters :
      SameElements
        (λ e. e.common)
        (collect_all (λ f. f.clusters) p)
        (collect_all (λ f. f.clusters) q)
  pub ecu_instances :
      SameElements
        (λ e. e.common)
        (collect_all (λ f. f.ecu_instances) p)
        (collect_all (λ f. f.ecu_instances) q)
  pub frames :
      SameElements (λ e. e.common) (collect_all (λ f. f.frames) p) (collect_all (λ f. f.frames) q)
  pub pdus :
      SameElements (λ e. e.common) (collect_all (λ f. f.pdus) p) (collect_all (λ f. f.pdus) q)
  pub signals :
      SameElements (λ e. e.common) (collect_all (λ f. f.signals) p) (collect_all (λ f. f.signals) q)
  pub signal_groups :
      SameElements
        (λ e. e.common)
        (collect_all (λ f. f.signal_groups) p)
        (collect_all (λ f. f.signal_groups) q)

build_indexes-SameProject :
    (p q : ParsedProject) → SameProject p q → build_indexes p ≡ build_indexes q
unfolding build_indexes
build_indexes-SameProject p q s = λ i. record {
  clusters = index_by_path-SameElements (λ e. e.common) _ _ s.clusters i;
  ecu_instances = index_by_path-SameElements (λ e. e.common) _ _ s.ecu_instances i;
  frames = index_by_path-SameElements (λ e. e.common) _ _ s.frames i;
  pdus = index_by_path-SameElements (λ e. e.common) _ _ s.pdus i;
  signals = index_by_path-SameElements (λ e. e.common) _ _ s.signals i;
  signal_groups = index_by_path-SameElements (λ e. e.common) _ _ s.signal_groups i;
}

-- Projects with the same named elements of each type, in whatever order and files, where two elements
-- of one type and name are the same, have no difference.
pub diff-SameProject :
    (double_value : Double → Text) (p q : ParsedProject)
    → SameProject p q
    → diff double_value p q ≡ no_differences
diff-SameProject double_value p q s =
    diff-diff_indexes double_value p q
    ∙ (ap (λ m. diff_indexes double_value m (build_indexes q)) (build_indexes-SameProject p q s)
        ∙ diff_indexes_self double_value (build_indexes q))
