-- ===== src/Parser/Release.antt =====
-- The release of a document: the second word of its schema location, in the table of the schema files
-- that AUTOSAR distributes (libparsex/src/release_detector.cpp).
use parse_x.Base.{
  ℕ, true, false, Option, none, some, List, [], ◌∷◌, ◌++◌, ◌≡◌, ◌≢◌, ◌⊎◌, inl, inr, refl, sym, ap,
  ◌∙◌, subst, arith, All, In, here, there, Bool-cases,
}
use parse_x.Base.Text.{Text, codes, text_eq, text_eq_iff, drop_while}
use parse_x.Base.Map.Laws.{In-of_find}
use parse_x.Model.Raw.{RawNode, attributes}
use parse_x.Validator.Tree.{is_blank}
use parse_x.Parser.{
  token, after_token, attribute_value, second_token, detect_schema_filename, schema_filename_table,
  resolve_release,
}

-- A space, a tab, a carriage return or a line feed.
abbrev pub IsBlank : ℕ → Type 0
IsBlank c = (c ≡ 32) ⊎ (c ≡ 9) ⊎ (c ≡ 13) ⊎ (c ≡ 10)

abbrev pub AllBlank : Text → Type 0
AllBlank s = All IsBlank s

-- Some letters, and none of them blank.
abbrev pub IsWord : Text → Type 0
IsWord s = (s ≢ []) × All (λ c. ¬ IsBlank c) s

-- Nothing, or a blank first.
abbrev pub EndsWord : Text → Type 0
EndsWord [] = Unit
EndsWord (c ∷ s) = IsBlank c

-- The text is blanks, a word, blanks and then this word.
pub record IsSecondWord (text word : Text) : Type 0 where
  pub before : Text
  pub first : Text
  pub gap : Text
  pub after : Text
  pub parts : text ≡ before ++ (first ++ (gap ++ (word ++ after)))
  pub before_blank : AllBlank before
  pub first_word : IsWord first
  pub gap_blank : AllBlank gap
  pub gap_some : gap ≢ []
  pub second_word : IsWord word
  pub after_ends : EndsWord after

-- The value of the first attribute with the name.
pub data IsFirstValue (name value : Text) : List (Text × Text) → Type 0 where
  found : {rest : List (Text × Text)} → IsFirstValue name value ((name, value) ∷ rest)
  passed :
      {key other : Text} {rest : List (Text × Text)}
      → key ≢ name
      → IsFirstValue name value rest
      → IsFirstValue name value ((key, other) ∷ rest)

-- The schema files with their releases, from the oldest to the newest.
abbrev pub distributed : List (Text × Text)
distributed =
    (codes "AUTOSAR_4-2-2.xsd", codes "4.2.2")
    ∷ (codes "AUTOSAR_4-3-0.xsd", codes "4.3.0")
    ∷ (codes "AUTOSAR_00044.xsd", codes "4.3.1")
    ∷ (codes "AUTOSAR_00046.xsd", codes "4.4.0")
    ∷ (codes "AUTOSAR_00048.xsd", codes "R19-11")
    ∷ (codes "AUTOSAR_00049.xsd", codes "R20-11")
    ∷ (codes "AUTOSAR_00050.xsd", codes "R21-11")
    ∷ []

-- The release that the root of a document states.
pub record HasRelease (root : RawNode) (release : Text) : Type 0 where
  pub location : Text
  pub filename : Text
  pub stated : IsFirstValue (codes "xsi:schemaLocation") location (attributes root)
  pub second : IsSecondWord location filename
  pub known : In (filename, release) distributed

is_blank-true : (c : ℕ) → is_blank c ≡ true → IsBlank c
is_blank-true c h = ground (arith, h)

is_blank-false : (c : ℕ) → is_blank c ≡ false → ¬ IsBlank c
is_blank-false c h b = absurd (ground (arith, h, b))

-- What `skipSpaces` passes over.
record Skipped (s : Text) : Type 0 where
  passed_over : Text
  split : s ≡ passed_over ++ drop_while is_blank s
  blank : AllBlank passed_over

drop_while-Skipped : (s : Text) → Skipped s
unfolding drop_while
drop_while-Skipped [] = record { passed_over = []; split = refl; blank = tt }
drop_while-Skipped (c ∷ s) = elim (Bool-cases (is_blank c)) [
  | inl t ↦
      let r = drop_while-Skipped s in
      record {
        passed_over = c ∷ r.passed_over;
        split = rw t (ap (c ∷◌) r.split);
        blank = (is_blank-true c t, r.blank);
      }
  | inr f ↦ record { passed_over = []; split = rw f refl; blank = tt }
]

-- After the blanks: nothing, or a letter that is not blank.
abbrev StartsWord : Text → Type 0
StartsWord [] = Unit
StartsWord (c ∷ s) = is_blank c ≡ false

drop_while-StartsWord : (s : Text) → StartsWord (drop_while is_blank s)
unfolding drop_while
drop_while-StartsWord [] = tt
drop_while-StartsWord (c ∷ s) = elim (Bool-cases (is_blank c)) [
  | inl t ↦ rw t (drop_while-StartsWord s)
  | inr f ↦ rw f f
]

token-split : (s : Text) → s ≡ token s ++ after_token s
unfolding token after_token
token-split [] = refl
token-split (c ∷ s) = elim (Bool-cases (is_blank c)) [
  | inl t ↦ rw t refl
  | inr f ↦ rw f (ap (c ∷◌) (token-split s))
]

token-letters : (s : Text) → All (λ c. ¬ IsBlank c) (token s)
unfolding token
token-letters [] = tt
token-letters (c ∷ s) = elim (Bool-cases (is_blank c)) [
  | inl t ↦ rw t tt
  | inr f ↦ rw f (is_blank-false c f, token-letters s)
]

after_token-EndsWord : (s : Text) → EndsWord (after_token s)
unfolding after_token
after_token-EndsWord [] = tt
after_token-EndsWord (c ∷ s) = elim (Bool-cases (is_blank c)) [
  | inl t ↦ rw t (is_blank-true c t)
  | inr f ↦ rw f (after_token-EndsWord s)
]

token-IsWord : (s : Text) → StartsWord s → s ≢ [] → IsWord (token s)
unfolding token
token-IsWord [] h n = absurd (n refl)
token-IsWord (c ∷ s) h n = rw h ((λ e. absurd (cc)), (is_blank-false c h, token-letters s))

-- The whole path of the second token.
module _ (location : Text) where
  abbrev second : Text
  second = drop_while is_blank (after_token (drop_while is_blank location))

  -- What is left after a first token that is empty is nothing.
  first_some : second ≢ [] → drop_while is_blank location ≢ []
  unfolding drop_while after_token
  first_some n e = n (ap (λ s. drop_while is_blank (after_token s)) e)

  -- No gap, no second token.
  gap_of : (s : Text) (r : Skipped s) → EndsWord s → drop_while is_blank s ≢ [] → r.passed_over ≢ []
  unfolding drop_while
  gap_of [] r h n = λ e. n refl
  gap_of (c ∷ s) r h n =
      λ e. no_letter (sym (r.split ∙ ap (λ p. p ++ drop_while is_blank (c ∷ s)) e))
    where
      no_letter : drop_while is_blank (c ∷ s) ≡ c ∷ s → ⊥
      no_letter q = is_blank-false c (subst StartsWord q (drop_while-StartsWord (c ∷ s))) h

  second_token-IsSecondWord : second ≢ [] → IsSecondWord location (token second)
  second_token-IsSecondWord n =
      let lead = drop_while-Skipped location in
      let rest = drop_while is_blank location in
      let mid = drop_while-Skipped (after_token rest) in
      record {
        before = lead.passed_over;
        first = token rest;
        gap = mid.passed_over;
        after = after_token second;
        parts =
            lead.split
            ∙ ap (λ z. lead.passed_over ++ z)
                (token-split rest
                  ∙ ap (λ z. token rest ++ z)
                      (mid.split ∙ ap (λ z. mid.passed_over ++ z) (token-split second)));
        before_blank = lead.blank;
        first_word = token-IsWord rest (drop_while-StartsWord location) (first_some n);
        gap_blank = mid.blank;
        gap_some = gap_of (after_token rest) mid (after_token-EndsWord rest) n;
        second_word = token-IsWord second (drop_while-StartsWord (after_token rest)) n;
        after_ends = after_token-EndsWord second;
      }

second_token-word :
    (location filename : Text)
    → second_token location ≡ some filename
    → IsSecondWord location filename
unfolding second_token
second_token-word location filename h = word (second location) refl
  where
    word : (s : Text) → second location ≡ s → IsSecondWord location filename
    word [] e = absurd (ground (arith, h, e))
    word (c ∷ s) e =
        let some_left : second location ≢ [] = λ q. absurd (ground (arith, e, q)) in
        subst (IsSecondWord location) (ground (arith, h, e))
          (second_token-IsSecondWord location some_left)

attribute_value-IsFirstValue :
    (name value : Text) (attributes : List (Text × Text))
    → attribute_value name attributes ≡ some value
    → IsFirstValue name value attributes
unfolding attribute_value
attribute_value-IsFirstValue name value [] h = absurd (cc)
attribute_value-IsFirstValue name value ((key, other) ∷ rest) h =
    elim (Bool-cases (text_eq key name)) [
      | inl t ↦
          let same : other ≡ value = ground (arith, h, t) in
          let key_same : key ≡ name = (text_eq_iff key name).0 t in
          subst (λ k. IsFirstValue name value ((k, other) ∷ rest)) (sym key_same)
            (subst (λ v. IsFirstValue name value ((name, v) ∷ rest)) (sym same) found)
      | inr f ↦
          passed (λ e. absurd (ground (arith, f, (text_eq_iff key name).1 e)))
            (attribute_value-IsFirstValue name value rest (ground (arith, h, f)))
    ]

table-distributed : (entry : Text × Text) → In entry schema_filename_table → In entry distributed
unfolding schema_filename_table
table-distributed e (here q) = there (there (here q))
table-distributed e (there (here q)) = there (there (there (here q)))
table-distributed e (there (there (here q))) = there (there (there (there (here q))))
table-distributed e (there (there (there (here q)))) =
    there (there (there (there (there (here q)))))
table-distributed e (there (there (there (there (here q))))) =
    there (there (there (there (there (there (here q))))))
table-distributed e (there (there (there (there (there (here q)))))) = here q
table-distributed e (there (there (there (there (there (there (here q))))))) = there (here q)
table-distributed e (there (there (there (there (there (there (there i))))))) = elim i [ ]

-- The release that the code finds is the one that the document states.
pub detected-HasRelease :
    (root : RawNode) (filename release : Text)
    → detect_schema_filename root ≡ some filename
    → resolve_release filename ≡ some release
    → HasRelease root release
unfolding detect_schema_filename resolve_release
detected-HasRelease root filename release d r =
    located (attribute_value (codes "xsi:schemaLocation") (attributes root)) refl d
  where
    located :
        (o : Option Text)
        → attribute_value (codes "xsi:schemaLocation") (attributes root) ≡ o
        → (elim o [ none ↦ none | some location ↦ second_token location ]) ≡ some filename
        → HasRelease root release
    located none e h = absurd (cc)
    located (some location) e h = record {
      location = location;
      filename = filename;
      stated = attribute_value-IsFirstValue _ location (attributes root) e;
      second = second_token-word location filename h;
      known = table-distributed (filename, release) (In-of_find filename schema_filename_table r);
    }
