-- ===== src/Discovery/Filter.antt =====
-- The pre-filter of the lazy discovery (`rawDefinesShortName` of libparsex/src/parser.cpp) overlooks
-- no short name.
use parse_x.Base.{
  ℕ, zero, suc, ◌+◌, ◌-◌, Option, none, some, Bool, true, false, [], ◌∷◌, ◌++◌, ◌≡◌, refl, sym, ap,
  ◌∙◌, subst, ◌⊎◌, inl, inr, arith, ◌==◌, ==_iff, if◌then◌else◌, Bool-cases, All, length,
}
use parse_x.Base.Text.{Text}
use parse_x.Loader.Encoding.{starts_with, take}
use parse_x.Discovery.{
  drop, count_spaces, is_space_byte, opener, opens_tag, Place, found, go_on, name_at, place_at,
  raw_defines_from, raw_defines_short_name,
}

abbrev pub NoTag : Text → Type 0
NoTag s = All (λ c. (c == b'<') ≡ false) s

abbrev pub IsBlank : Text → Type 0
IsBlank s = All (λ c. is_space_byte c ≡ true) s

starts_with-append : (p r : Text) → starts_with (p ++ r) p ≡ true
unfolding starts_with
starts_with-append [] r = refl
starts_with-append (c ∷ p) r = rw ((==_iff c c).1 refl) (starts_with-append p r)

take-starts_with : (s p : Text) → starts_with s p ≡ true → take (length p) s ≡ p
unfolding starts_with
take-starts_with s [] h = refl
take-starts_with [] (c ∷ p) h = absurd (cc)
take-starts_with (b ∷ s) (c ∷ p) h = elim (Bool-cases (b == c)) [
  | inl t ↦ cons_eq b c ((==_iff b c).0 t) (take-starts_with s p (rw t at h))
  | inr f ↦ absurd (false-ne_true (rw f at h))
]
  where
    cons_eq : {a d : Text} (b c : ℕ) → b ≡ c → a ≡ d → b ∷ a ≡ c ∷ d
    cons_eq b c e q = rw (e, q) refl

    false-ne_true : ¬ (false ≡ true)
    false-ne_true e = absurd (cc)

suc_add : (a b : ℕ) → suc a + b ≡ suc (a + b)
suc_add a b = omega arith

drop_add : (a b : ℕ) (s : Text) → drop (a + b) s ≡ drop b (drop a s)
drop_add zero b s = ap (λ n. drop n s) (omega arith)
drop_add (suc a) b [] = ap (λ n. drop n []) (suc_add a b) ∙ nil b
  where
    nil : (b : ℕ) → [] ≡ drop b []
    nil zero = refl
    nil (suc b) = refl
drop_add (suc a) b (c ∷ s) = ap (λ n. drop n (c ∷ s)) (suc_add a b) ∙ drop_add a b s

drop-append : (a r : Text) → drop (length a) (a ++ r) ≡ r
drop-append [] r = refl
drop-append (c ∷ a) r = drop-append a r

NoTag-take_add :
    (a b : ℕ) (s : Text) → NoTag (take a s) → NoTag (take b (drop a s)) → NoTag (take (a + b) s)
NoTag-take_add zero b s h k = subst (λ n. NoTag (take n s)) (omega arith) k
NoTag-take_add (suc a) b [] h k = subst (λ n. NoTag (take n [])) (sym (suc_add a b)) tt
NoTag-take_add (suc a) b (c ∷ s) h k =
    subst (λ n. NoTag (take n (c ∷ s))) (sym (suc_add a b)) (h.0, NoTag-take_add a b s h.1 k)

NoTag-spaces : (s : Text) → NoTag (take (count_spaces s) s)
unfolding count_spaces
NoTag-spaces [] = tt
NoTag-spaces (c ∷ s) = elim (Bool-cases (is_space_byte c)) [
  | inl t ↦ rw (count_spaces, t) (ground (arith, t), NoTag-spaces s)
  | inr f ↦ rw (count_spaces, f) tt
]

NoTag-opener : (s : Text) → starts_with s opener ≡ true → NoTag (take (length opener) s)
NoTag-opener s h =
    subst NoTag (sym (take-starts_with s opener h))
      (refl, (refl, (refl, (refl, (refl, (refl, (refl, (refl, (refl, (refl, (refl, tt)))))))))))

true-ne_false : ¬ (true ≡ false)
true-ne_false e = absurd (cc)

go_on-inj : {m n : ℕ} → go_on m ≡ go_on n → m ≡ n
go_on-inj e = cc

-- A jump of the scan passes over no '<'.
name_at-NoTag :
    (name s : Text) (n : ℕ)
    → NoTag name
    → starts_with s opener ≡ true
    → name_at name s ≡ go_on n
    → NoTag (take n s)
name_at-NoTag name s n hn h e = elim (Bool-cases (starts_with (drop name_pos s) name)) [
  | inr f ↦ subst (λ m. NoTag (take m s)) (go_on-inj (rw f at e)) to_name
  | inl t ↦ elim (Bool-cases (starts_with (drop after s) (b'<' ∷ []))) [
    | inl u ↦ absurd (found-ne_go_on (rw (t, u) at e))
    | inr u ↦
        subst (λ m. NoTag (take m s)) (go_on-inj (rw (t, u) at e))
          (NoTag-take_add (name_pos + length name) (count_spaces (drop (name_pos + length name) s))
            s
            (NoTag-take_add name_pos (length name) s to_name
              (subst NoTag (sym (take-starts_with (drop name_pos s) name t)) hn))
            (NoTag-spaces (drop (name_pos + length name) s)))
  ]
]
  where
    name_pos : ℕ
    name_pos = length opener + count_spaces (drop (length opener) s)

    after : ℕ
    after = name_pos + length name + count_spaces (drop (name_pos + length name) s)

    to_name : NoTag (take name_pos s)
    to_name =
        NoTag-take_add (length opener) (count_spaces (drop (length opener) s)) s (NoTag-opener s h)
          (NoTag-spaces (drop (length opener) s))

    found-ne_go_on : {n : ℕ} → ¬ (found ≡ go_on n)
    found-ne_go_on e = absurd (cc)

place_at-NoTag :
    (name s : Text) (before : Option ℕ) (n : ℕ)
    → NoTag name
    → place_at name before s ≡ go_on n
    → (n ≡ 1) ⊎ NoTag (take n s)
unfolding place_at
place_at-NoTag name s before n hn e = elim (Bool-cases (starts_with s opener)) [
  | inr f ↦ inl (sym (go_on-inj (rw (place_at, f) at e)))
  | inl t ↦ elim (Bool-cases (opens_tag before)) [
    | inr g ↦ inl (sym (go_on-inj (rw (place_at, t, g) at e)))
    | inl u ↦ inr (name_at-NoTag name s n hn t (rw (place_at, t, u) at e))
  ]
]

-- What is left of a jump after its first byte.
NoTag-rest : (n c : ℕ) (s : Text) → (n ≡ 1) ⊎ NoTag (take n (c ∷ s)) → NoTag (take (n - 1) s)
NoTag-rest n c s (inl e) = subst (λ m. NoTag (take m s)) (the_zero e) tt
  where
    the_zero : {n : ℕ} → n ≡ 1 → 0 ≡ n - 1
    the_zero e = omega arith
NoTag-rest zero c s (inr h) = subst (λ m. NoTag (take m s)) minus_zero tt
  where
    minus_zero : 0 ≡ 0 - 1
    minus_zero = omega arith
NoTag-rest (suc n) c s (inr h) = subst (λ m. NoTag (take m s)) (less_one n) h.1
  where
    less_one : (n : ℕ) → n ≡ suc n - 1
    less_one n = omega arith

module _ (name : Text) (no_tag : NoTag name) (letter : ℕ) (target : Text)
    (is_found : place_at name (some b'<') (letter ∷ target) ≡ found) where
  after_place :
      (before : Option ℕ) (c : ℕ) (s : Text) (p : Place)
      → place_at name before (c ∷ s) ≡ p
      → ((skip : ℕ) → NoTag (take skip s) → raw_defines_from name (some c) skip s ≡ true)
      → (elim p [ found ↦ true | go_on n ↦ raw_defines_from name (some c) (n - 1) s ]) ≡ true
  after_place before c s found e h = refl
  after_place before c s (go_on n) e h =
      h (n - 1) (NoTag-rest n c s (place_at-NoTag name (c ∷ s) before n no_tag e))

  at_target : raw_defines_from name (some b'<') 0 (letter ∷ target) ≡ true
  unfolding raw_defines_from
  at_target = rw (raw_defines_from, is_found) refl

  raw_defines_from-found :
      (pre : Text) (before : Option ℕ) (skip : ℕ)
      → NoTag (take skip (pre ++ b'<' ∷ letter ∷ target))
      → raw_defines_from name before skip (pre ++ b'<' ∷ letter ∷ target) ≡ true
  unfolding raw_defines_from place_at starts_with
  raw_defines_from-found [] before (suc skip) h = absurd (true-ne_false h.0)
  raw_defines_from-found [] before zero h = at_target
  raw_defines_from-found (c ∷ pre) before (suc skip) h =
      raw_defines_from-found pre (some c) skip h.1
  raw_defines_from-found (c ∷ pre) before zero h =
      after_place before c (pre ++ b'<' ∷ letter ∷ target)
        (place_at name before (c ∷ (pre ++ b'<' ∷ letter ∷ target))) refl
        (λ k q. raw_defines_from-found pre (some c) k q)

count_spaces-append :
    (b : Text) (c : ℕ) (r : Text)
    → IsBlank b
    → is_space_byte c ≡ false
    → count_spaces (b ++ c ∷ r) ≡ length b
unfolding count_spaces
count_spaces-append [] c r h k = rw (count_spaces, k) refl
count_spaces-append (d ∷ b) c r h k =
    rw (count_spaces, h.0) (ap suc (count_spaces-append b c r h.1 k))

name_at-places :
    (name s : Text) (p a : ℕ)
    → length opener + count_spaces (drop (length opener) s) ≡ p
    → p + length name + count_spaces (drop (p + length name) s) ≡ a
    → starts_with (drop p s) name ≡ true
    → starts_with (drop a s) (b'<' ∷ []) ≡ true
    → name_at name s ≡ found
name_at-places name s p a e q h k = rw (e, q, h, k) refl

-- The places that the scan computes in a text with the name.
module _ (c : ℕ) (name b1 b2 post : Text) (blank_1 : IsBlank b1) (blank_2 : IsBlank b2)
    (letter : is_space_byte c ≡ false) where
  abbrev tail : Text
  tail = b2 ++ b'<' ∷ post

  abbrev whole : Text
  whole = opener ++ (b1 ++ ((c ∷ name) ++ tail))

  to_name : drop (length opener + length b1) whole ≡ (c ∷ name) ++ tail
  to_name = drop_add (length opener) (length b1) whole ∙ drop-append b1 ((c ∷ name) ++ tail)

  to_tail : drop (length opener + length b1 + length (c ∷ name)) whole ≡ tail
  to_tail =
      drop_add (length opener + length b1) (length (c ∷ name)) whole
      ∙ ap (drop (length (c ∷ name))) to_name
      ∙ drop-append (c ∷ name) tail

  to_end : drop (length opener + length b1 + length (c ∷ name) + length b2) whole ≡ b'<' ∷ post
  to_end =
      drop_add (length opener + length b1 + length (c ∷ name)) (length b2) whole
      ∙ ap (drop (length b2)) to_tail
      ∙ drop-append b2 (b'<' ∷ post)

  count_1 : count_spaces (drop (length opener) whole) ≡ length b1
  count_1 = count_spaces-append b1 c (name ++ tail) blank_1 letter

  count_2 : count_spaces (drop (length opener + length b1 + length (c ∷ name)) whole) ≡ length b2
  count_2 = ap count_spaces to_tail ∙ count_spaces-append b2 b'<' post blank_2 refl

  name_at-found : name_at (c ∷ name) whole ≡ found
  name_at-found =
      name_at-places (c ∷ name) whole (length opener + length b1)
        (length opener + length b1 + length (c ∷ name) + length b2)
        (ap (λ k. length opener + k) count_1)
        (ap (λ k. length opener + length b1 + length (c ∷ name) + k) count_2)
        (ap (λ t. starts_with t (c ∷ name)) to_name ∙ starts_with-append (c ∷ name) tail)
        (ap (λ t. starts_with t (b'<' ∷ [])) to_end ∙ starts_with-append (b'<' ∷ []) post)

  place_at-found : place_at (c ∷ name) (some b'<') whole ≡ found
  unfolding place_at
  place_at-found =
      rw (place_at, starts_with-append opener (b1 ++ ((c ∷ name) ++ tail))) name_at-found

-- Wherever a file has the tag <SHORT-NAME> with a name in it, which blanks may surround, and that
-- begins with no blank and has no '<', the pre-filter says that the file may define the name.
pub raw_defines_short_name-tag :
    (before after_tag b1 b2 : Text) (c : ℕ) (name : Text)
    → IsBlank b1
    → IsBlank b2
    → is_space_byte c ≡ false
    → NoTag (c ∷ name)
    → raw_defines_short_name
        (before ++ b'<' ∷ (opener ++ (b1 ++ ((c ∷ name) ++ (b2 ++ b'<' ∷ after_tag)))))
        (c ∷ name)
      ≡ true
unfolding raw_defines_short_name
raw_defines_short_name-tag before after_tag b1 b2 c name h1 h2 letter no_tag = either_true _ (
    raw_defines_from-found (c ∷ name) no_tag b'S' _
      (place_at-found c name b1 b2 after_tag h1 h2 letter) before none 0 tt)
  where
    either_true : (b : Bool) {x : Bool} → x ≡ true → (if b then true else x) ≡ true
    either_true true h = refl
    either_true false h = h
