-- ===== src/Validator/Facade.antt =====
-- The combined entry point (validator_facade.cpp). `validateSchema`, which runs libxml2 on the file
-- named by the source path, is a parameter. The telemetry spans are left out.
use parse_x.Base.{
  Bool, true, false, List, [], ◌∷◌, ◌++◌, ◌≡◌, ◌≢◌, ◌⊎◌, ◌↔◌, ◌∙◌, refl, arith, any, In, here,
  there, In-append_left, In-append_right, In-append_cases, inl, inr, ap, subst,
}
use parse_x.Model.{ParsedFile, ParsedProject}
use parse_x.Validator.{
  Severity, error, warning, ValidationError, ValidationResult, is_error, is_warning, has_errors,
  has_warnings, merge, StrictMode, lenient, strict, overall_passed,
}
use parse_x.Validator.References.{validate_references}
use parse_x.Validator.Uniqueness.{validate_uniqueness}
use parse_x.Validator.Can.{validate_can_semantics}

unfoldable pub merge_schema :
    (ParsedFile → ValidationResult) → ValidationResult → List ParsedFile → ValidationResult
unfolding merge
merge_schema validate_schema combined [] = combined
merge_schema validate_schema combined (file ∷ files) =
    merge_schema validate_schema (merge combined (validate_schema file)) files

unfoldable pub validate_all : (ParsedFile → ValidationResult) → ParsedProject → ValidationResult
unfolding merge_schema merge
validate_all validate_schema project =
    merge
      (merge
        (merge (merge_schema validate_schema (record { errors = [] }) project.files)
          (validate_references project))
        (validate_uniqueness project))
      (validate_can_semantics project)

-- A finding of one of the four checks.
pub data Finds (validate_schema : ParsedFile → ValidationResult) (project : ParsedProject)
    (e : ValidationError) : Type 0 where
  by_schema :
      {file : ParsedFile}
      → In file project.files
      → In e (validate_schema file).errors
      → Finds validate_schema project e
  by_references : In e (validate_references project).errors → Finds validate_schema project e
  by_uniqueness : In e (validate_uniqueness project).errors → Finds validate_schema project e
  by_can : In e (validate_can_semantics project).errors → Finds validate_schema project e

module _ (validate_schema : ParsedFile → ValidationResult) where
  In-of_In-merge_schema :
      (combined : ValidationResult) (files : List ParsedFile) (e : ValidationError)
      → In e (merge_schema validate_schema combined files).errors
      → In e combined.errors
        ⊎ ((file : ParsedFile) × In file files × In e (validate_schema file).errors)
  unfolding merge_schema merge
  In-of_In-merge_schema combined [] e i = inl i
  In-of_In-merge_schema combined (f ∷ fs) e i =
      elim (In-of_In-merge_schema (merge combined (validate_schema f)) fs e i) [
        | inl j ↦ elim (In-append_cases combined.errors j) [
          | inl k ↦ inl k
          | inr k ↦ inr (f, here refl, k)
        ]
        | inr r ↦ inr (r.0, there r.1, r.2)
      ]

  In-merge_schema_kept :
      (combined : ValidationResult) (files : List ParsedFile) (e : ValidationError)
      → In e combined.errors
      → In e (merge_schema validate_schema combined files).errors
  unfolding merge_schema merge
  In-merge_schema_kept combined [] e i = i
  In-merge_schema_kept combined (f ∷ fs) e i =
      In-merge_schema_kept (merge combined (validate_schema f)) fs e (In-append_left _ i)

  In-merge_schema :
      (combined : ValidationResult) (files : List ParsedFile) (file : ParsedFile)
      (e : ValidationError)
      → In file files
      → In e (validate_schema file).errors
      → In e (merge_schema validate_schema combined files).errors
  unfolding merge_schema merge
  In-merge_schema combined [] file e i j = elim i [ ]
  In-merge_schema combined (f ∷ fs) file e (here q) j =
      In-merge_schema_kept (merge combined (validate_schema f)) fs e
        (In-append_right combined.errors (subst (λ g. In e (validate_schema g).errors) q j))
  In-merge_schema combined (f ∷ fs) file e (there i) j =
      In-merge_schema (merge combined (validate_schema f)) fs file e i j

  validate_all-Finds :
      (project : ParsedProject) (e : ValidationError)
      → In e (validate_all validate_schema project).errors ↔ Finds validate_schema project e
  unfolding validate_all merge
  validate_all-Finds project e =
      let schema = (merge_schema validate_schema (record { errors = [] }) project.files).errors in
      let references = (validate_references project).errors in
      let uniqueness = (validate_uniqueness project).errors in
      (
        λ i. elim (In-append_cases (schema ++ references ++ uniqueness) i) [
          | inr c ↦ by_can c
          | inl j ↦ elim (In-append_cases (schema ++ references) j) [
            | inr u ↦ by_uniqueness u
            | inl k ↦ elim (In-append_cases schema k) [
              | inr r ↦ by_references r
              | inl s ↦ elim (In-of_In-merge_schema _ project.files e s) [
                | inl n ↦ elim n [ ]
                | inr s ↦ by_schema s.1 s.2
              ]
            ]
          ]
        ],
        λ f. elim f [
          | by_schema i j ↦
              In-append_left _
                (In-append_left _ (In-append_left _ (In-merge_schema _ project.files _ e i j)))
          | by_references r ↦ In-append_left _ (In-append_left _ (In-append_right schema r))
          | by_uniqueness u ↦ In-append_left _ (In-append_right (schema ++ references) u)
          | by_can c ↦ In-append_right (schema ++ references ++ uniqueness) c
        ],
      )

any-false :
    (p : ValidationError → Bool) (es : List ValidationError)
    → (any p es ≡ false) ↔ ((e : ValidationError) → In e es → p e ≡ false)
unfolding any
any-false p [] = (λ h e i. elim i [ ], λ h. refl)
any-false p (e ∷ es) = (
  λ h f i. elim i [
    | here q ↦ ap p q ∙ ground (arith, h)
    | there j ↦ (any-false p es).0 (ground (arith, h)) f j
  ],
  λ h. ground (arith, h e (here refl), (any-false p es).1 (λ f j. h f (there j))),
)

severity_cases : (s : Severity) → (s ≡ error) ⊎ (s ≡ warning)
severity_cases error = inl refl
severity_cases warning = inr refl

error_is_error : (e : ValidationError) → e.severity ≡ error → is_error e ≢ false
error_is_error e q h = absurd (cc)

not_error : (e : ValidationError) → e.severity ≡ warning → is_error e ≡ false
not_error e q = rw q refl

not_warning : (e : ValidationError) → e.severity ≡ warning → is_warning e ≢ false
not_warning e q h = absurd (cc)

strict-ne-lenient : strict ≢ lenient
strict-ne-lenient h = cc

warning-of_not_error : (e : ValidationError) → is_error e ≡ false → e.severity ≡ warning
warning-of_not_error e h = elim (severity_cases e.severity) [
  | inl q ↦ absurd (error_is_error e q h)
  | inr q ↦ q
]

overall_passed_iff :
    (r : ValidationResult) (mode : StrictMode)
    → (overall_passed r mode ≡ true)
      ↔ ((e : ValidationError) → In e r.errors → (mode ≡ lenient) × (e.severity ≡ warning))
unfolding overall_passed has_errors has_warnings
overall_passed_iff r lenient = (
  λ h e i. (refl, warning-of_not_error e ((any-false is_error r.errors).0 (ground (arith, h)) e i)),
  λ h.
      let none_wrong = (any-false is_error r.errors).1 λ e i. not_error e (h e i).1 in
      ground (arith, none_wrong),
)
overall_passed_iff r strict = (
  λ h e i.
      let w = warning-of_not_error e ((any-false is_error r.errors).0 (ground (arith, h)) e i) in
      let n = (any-false is_warning r.errors).0 (ground (arith, h)) e i in
      absurd (not_warning e w n),
  λ h.
      let none_wrong = (any-false is_error r.errors).1 λ e i. not_error e (h e i).1 in
      let none_warned =
        (any-false is_warning r.errors).1 λ e i. absurd (strict-ne-lenient (h e i).0) in
      ground (arith, none_wrong, none_warned),
)

-- A project passes exactly if the schema check of its files, the reference check, the uniqueness
-- check and the CAN check make no finding but warnings, and in strict mode none at all.
pub overall_passed-validate_all :
    (validate_schema : ParsedFile → ValidationResult) (project : ParsedProject) (mode : StrictMode)
    → (overall_passed (validate_all validate_schema project) mode ≡ true) ↔ (
        (e : ValidationError)
        → Finds validate_schema project e
        → (mode ≡ lenient) × (e.severity ≡ warning))
overall_passed-validate_all validate_schema project mode =
    let passed = overall_passed_iff (validate_all validate_schema project) mode in
    let finds = validate_all-Finds validate_schema project in
    (λ h e f. passed.0 h e ((finds e).1 f), λ h. passed.1 λ e i. h e ((finds e).0 i))
