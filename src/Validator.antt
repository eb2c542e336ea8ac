-- ===== src/Validator.antt =====
-- The validator (libparsex/include/parsex/validator, libparsex/src/validator): its result type and
-- verdict here, a check to each child.
pub mod Can
pub mod Tree
pub mod References
pub mod Uniqueness
pub mod Facade
use parse_x.Base.{Bool, true, false, Option, none, some, List, [], ◌++◌, ◌&&◌, any, if◌then◌else◌}
use parse_x.Base.Text.{Text}
use parse_x.Model.Raw.{RawSpan}

pub data Severity : Type 0 where
  error warning : Severity

pub record ValidationError : Type 0 where
  pub severity : Severity
  pub code : Text
  pub message : Text
  pub location : Option RawSpan
  pub path : Option Text
  pub expected_type : Option Text
  pub actual_type : Option Text

pub record ValidationResult : Type 0 where
  pub errors : List ValidationError

abbrev pub is_error : ValidationError → Bool
is_error e = elim e.severity [ error ↦ true | warning ↦ false ]

abbrev pub is_warning : ValidationError → Bool
is_warning e = elim e.severity [ error ↦ false | warning ↦ true ]

unfoldable pub has_errors : ValidationResult → Bool
unfolding any
has_errors r = any is_error r.errors

unfoldable pub has_warnings : ValidationResult → Bool
unfolding any
has_warnings r = any is_warning r.errors

unfoldable pub merge : ValidationResult → ValidationResult → ValidationResult
merge r other = record { errors = r.errors ++ other.errors }

pub data StrictMode : Type 0 where
  lenient strict : StrictMode

abbrev pub is_strict : StrictMode → Bool
is_strict lenient = false
is_strict strict = true

unfoldable pub overall_passed : ValidationResult → StrictMode → Bool
unfolding has_errors has_warnings
overall_passed result mode =
    if has_errors result
    then false
    else if is_strict mode && has_warnings result
    then false
    else true
