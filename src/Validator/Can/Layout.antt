-- ===== src/Validator/Can/Layout.antt =====
-- The overlap check is silent exactly on PDUs whose signals are laid out apart.
use parse_x.Base.{
  nil_of_append, ℕ, zero, suc, ◌*◌, ◌≤◌, ◌<◌, ◌^◌, Option, none, some, List, [], ◌∷◌, ◌++◌, ◌≡◌,
  ◌⊎◌, ◌↔◌, refl, sym, ap, ◌∙◌, subst, arith, ◌||◌, ◌==◌, In, here, there, In-append_left,
  In-append_right, In-append_cases, In-map, get_elem?, set, replicate, inl, inr, if◌then◌else◌,
  is_empty,
}
use mathlib.Core.List.{append-nil, append_assoc}
use parse_x.Base.Text.{Text, text_eq_iff}
use parse_x.Base.Map.{Map}
use parse_x.Model.{PduSignalMapping, Pdu, Signal}
use parse_x.Validator.{ValidationError}
use parse_x.Validator.Can.Occupied.{
  Claim, claims_of, LaidOut, Occupies, Occupies-replicate, in_range-get_elem?, Occupies-set,
  Occupies-LaidOut, some_inj,
}
use parse_x.Validator.Can.{
  Occupancy, other_owner, claim_bits, mapping_bits, check_mappings, check_signal_overlap,
}

-- All bits that the mappings of a PDU take, in order.
unfoldable pub all_claims : Map Signal → List PduSignalMapping → List Claim
all_claims signals [] = []
all_claims signals (m ∷ ms) =
    claims_of m.signal_short_name_ref (mapping_bits signals m) ++ all_claims signals ms

-- A claim is refused by the bits that are out of range, or taken by another name.
module _ (pdu : Pdu) (mapping : PduSignalMapping) (pdu_bits : ℕ) (small : pdu_bits ≤ 2 ^ 31) where
  abbrev name : Text
  name = mapping.signal_short_name_ref

  -- The bits of the mapping may all be claimed after `claims`.
  record MayClaim (claims : List Claim) (bits : List ℕ) : Type 0 where
    fits : (bit : ℕ) → In bit bits → bit < pdu_bits
    free : (bit : ℕ) (other : Text) → In bit bits → In (other, bit) claims → other ≡ name

  MayClaim-tail :
      (claims : List Claim) (bit : ℕ) (bits : List ℕ)
      → MayClaim claims (bit ∷ bits)
      → MayClaim (claims ++ (name, bit) ∷ []) bits
  MayClaim-tail claims bit bits h = record {
    fits = λ b i. h.fits b (there i);
    free = λ b other i j. elim (In-append_cases claims j) [
      | inl k ↦ h.free b other (there i) k
      | inr (here q) ↦ ap (λ (c : Claim). c.0) q
      | inr (there q) ↦ elim q [ ]
    ];
  }

  -- What the head of the bits does, where nothing is reported.
  claim_bits-go :
      (bit : ℕ) (bits : List ℕ) (occupancy : Occupancy) (owner : Option Text)
      → bit < pdu_bits
      → get_elem? occupancy bit ≡ some owner
      → other_owner name owner ≡ none
      → claim_bits pdu mapping pdu_bits (bit ∷ bits) occupancy
        ≡ claim_bits pdu mapping pdu_bits bits (set occupancy bit (some name))
  unfolding claim_bits
  claim_bits-go bit bits occupancy owner lt get own = ground arith

  claim_bits-in_range :
      (bit : ℕ) (bits : List ℕ) (occupancy : Occupancy)
      → (claim_bits pdu mapping pdu_bits (bit ∷ bits) occupancy).1 ≡ []
      → bit < pdu_bits
  unfolding claim_bits
  claim_bits-in_range bit bits occupancy h = ground arith

  claim_bits-not_taken :
      (bit : ℕ) (bits : List ℕ) (occupancy : Occupancy) (owner : Option Text)
      → bit < pdu_bits
      → (claim_bits pdu mapping pdu_bits (bit ∷ bits) occupancy).1 ≡ []
      → get_elem? occupancy bit ≡ some owner
      → other_owner name owner ≡ none
  unfolding claim_bits
  claim_bits-not_taken bit bits occupancy owner lt h get = ground arith

  other_owner-of_free :
      (owner : Option Text)
      → ((other : Text) → owner ≡ some other → other ≡ name)
      → other_owner name owner ≡ none
  other_owner-of_free none h = refl
  other_owner-of_free (some o) h = ground (arith, text_eq_iff o name, h o refl)

  free-of_other_owner :
      (owner : Option Text) (other : Text)
      → other_owner name owner ≡ none
      → owner ≡ some other
      → other ≡ name
  free-of_other_owner none other h e = absurd (cc)
  free-of_other_owner (some o) other h e = ground (arith, text_eq_iff o name)

  append-claims :
      (claims : List Claim) (bit : ℕ) (bits : List ℕ)
      → (claims ++ (name, bit) ∷ []) ++ claims_of name bits ≡ claims ++ claims_of name (bit ∷ bits)
  append-claims [] bit bits = refl
  append-claims (c ∷ cs) bit bits = ap (c ∷◌) (append-claims cs bit bits)

  claim_bits-silent :
      (bits : List ℕ) (occupancy : Occupancy) (claims : List Claim)
      → Occupies pdu_bits occupancy claims
      → MayClaim claims bits
      → ((claim_bits pdu mapping pdu_bits bits occupancy).1 ≡ [])
        × Occupies pdu_bits
            (claim_bits pdu mapping pdu_bits bits occupancy).0
            (claims ++ claims_of name bits)
  unfolding claim_bits
  claim_bits-silent [] occupancy claims o h =
      (refl, subst (Occupies pdu_bits occupancy) (sym (append-nil claims)) o)
  claim_bits-silent (bit ∷ bits) occupancy claims o h =
      let found =
        in_range-get_elem? occupancy bit (omega (arith, o.size, h.fits bit (here refl))) in
      let go = claim_bits-go bit bits occupancy found.0 (h.fits bit (here refl)) found.1 (
        other_owner-of_free found.0
          (λ other e. h.free bit other (here refl) (o.owner other bit (found.1 ∙ ap some e)))) in
      let set_one =
        Occupies-set pdu_bits occupancy claims name bit o (h.fits bit (here refl))
          (λ other i. h.free bit other (here refl) i) in
      let rest =
        claim_bits-silent bits (set occupancy bit (some name)) _ set_one
          (MayClaim-tail claims bit bits h) in
      (
        ap (λ r. r.1) go ∙ rest.0,
        subst (λ r. Occupies pdu_bits r.0 (claims ++ claims_of name (bit ∷ bits))) (sym go)
            (subst (Occupies pdu_bits _) (append-claims claims bit bits) rest.1),
      )

  claim_bits-loud :
      (bits : List ℕ) (occupancy : Occupancy) (claims : List Claim)
      → Occupies pdu_bits occupancy claims
      → (claim_bits pdu mapping pdu_bits bits occupancy).1 ≡ []
      → MayClaim claims bits
  claim_bits-loud [] occupancy claims o h = record {
    fits = λ b i. elim i [ ];
    free = λ b n i. elim i [ ];
  }
  claim_bits-loud (bit ∷ bits) occupancy claims o h =
      let lt = claim_bits-in_range bit bits occupancy h in
      let found = in_range-get_elem? occupancy bit (omega (arith, o.size)) in
      let own = claim_bits-not_taken bit bits occupancy found.0 lt h found.1 in
      let free_here : (other : Text) → In (other, bit) claims → other ≡ name = λ other i.
        free-of_other_owner found.0 other own (some_inj (sym found.1 ∙ o.owned other bit i)) in
      let rest =
        claim_bits-loud bits (set occupancy bit (some name)) _
          (Occupies-set pdu_bits occupancy claims name bit o lt free_here)
          (sym (ap (λ r. r.1) (claim_bits-go bit bits occupancy found.0 lt found.1 own)) ∙ h) in
      record {
        fits = λ b i. elim i [
          | here e ↦ subst (λ x. x < pdu_bits) (sym e) lt
          | there j ↦ rest.fits b j
        ];
        free = λ b other i j. elim i [
          | here e ↦ free_here other (subst (λ x. In (other, x) claims) e j)
          | there k ↦ rest.free b other k (In-append_left _ j)
        ];
      }

module _ (pdu : Pdu) (signals : Map Signal) (pdu_bits : ℕ) (small : pdu_bits ≤ 2 ^ 31) where
  LaidOut-MayClaim :
      (mapping : PduSignalMapping) (claims rest : List Claim) (bits : List ℕ)
      → LaidOut pdu_bits (claims ++ (claims_of mapping.signal_short_name_ref bits ++ rest))
      → MayClaim pdu mapping pdu_bits small claims bits
  LaidOut-MayClaim mapping claims rest bits h = record {
    fits = λ b i. h.in_range _ b (In-append_right claims (In-append_left _ (In-map _ i)));
    free = λ b other i j.
        h.apart other _ b (In-append_left _ j)
          (In-append_right claims (In-append_left _ (In-map _ i)));
  }

  check_mappings-silent :
      (mappings : List PduSignalMapping) (occupancy : Occupancy) (claims : List Claim)
      → Occupies pdu_bits occupancy claims
      → LaidOut pdu_bits (claims ++ all_claims signals mappings)
      → check_mappings pdu signals pdu_bits mappings occupancy ≡ []
  unfolding check_mappings all_claims
  check_mappings-silent [] occupancy claims o h = refl
  check_mappings-silent (m ∷ ms) occupancy claims o h =
      let one =
        claim_bits-silent pdu m pdu_bits small (mapping_bits signals m) occupancy claims o
          (LaidOut-MayClaim m claims _ _ h) in
      let rest =
        check_mappings-silent ms _ _ one.1
          (subst (LaidOut pdu_bits) (sym (append_assoc claims _ (all_claims signals ms))) h) in
      ap
        (λ (es : List ValidationError).
          es
          ++ check_mappings pdu signals pdu_bits ms
              (claim_bits pdu m pdu_bits (mapping_bits signals m) occupancy).0)
        one.0
      ∙ rest

  check_mappings-loud :
      (mappings : List PduSignalMapping) (occupancy : Occupancy) (claims : List Claim)
      → Occupies pdu_bits occupancy claims
      → check_mappings pdu signals pdu_bits mappings occupancy ≡ []
      → LaidOut pdu_bits (claims ++ all_claims signals mappings)
  unfolding check_mappings all_claims
  check_mappings-loud [] occupancy claims o h =
      subst (LaidOut pdu_bits) (sym (append-nil claims))
        (Occupies-LaidOut pdu_bits occupancy claims o)
  check_mappings-loud (m ∷ ms) occupancy claims o h =
      let both = nil_of_append _ _ h in
      let may =
        claim_bits-loud pdu m pdu_bits small (mapping_bits signals m) occupancy claims o both.0 in
      let one =
        claim_bits-silent pdu m pdu_bits small (mapping_bits signals m) occupancy claims o may in
      subst (LaidOut pdu_bits) (append_assoc claims _ (all_claims signals ms))
        (check_mappings-loud ms _ _ one.1 both.1)

-- The check from its guard on.
module _ (pdu : Pdu) (signals : Map Signal) where
  guarded-exact :
      (n : ℕ) (mappings : List PduSignalMapping)
      → n ≤ 2 ^ 31
      → (if n == 0 || is_empty mappings
            then []
            else check_mappings pdu signals n mappings (replicate n none))
          ≡ []
        ↔ (n ≡ 0) ⊎ LaidOut n (all_claims signals mappings)
  unfolding all_claims
  guarded-exact zero mappings small = (λ h. inl refl, λ h. refl)
  guarded-exact (suc n) [] small = (
    λ h.
        inr
          (record { in_range = λ name bit i. elim i [ ]; apart = λ name other bit i. elim i [ ] }),
    λ h. ground arith,
  )
  guarded-exact (suc n) (m ∷ ms) small = (
    λ h. inr (
        check_mappings-loud pdu signals (suc n) small (m ∷ ms) _ [] (Occupies-replicate (suc n))
          (ground (arith, h))),
    λ h. elim h [
      | inl e ↦ absurd (omega arith)
      | inr l ↦
          let silent =
            check_mappings-silent pdu signals (suc n) small (m ∷ ms) _ []
              (Occupies-replicate (suc n)) l in
          ground (arith, silent)
    ],
  )

-- The overlap check of a PDU of at most 2 ^ 31 bits reports nothing exactly if the payload is empty,
-- or if every bit that a mapping takes lies in the payload and no bit is taken under two names.
pub check_signal_overlap-exact :
    (pdu : Pdu) (signals : Map Signal)
    → pdu.length * 8 ≤ 2 ^ 31
    → check_signal_overlap pdu signals ≡ []
      ↔ (pdu.length ≡ 0) ⊎ LaidOut (pdu.length * 8) (all_claims signals pdu.signal_mappings)
unfolding check_signal_overlap
check_signal_overlap-exact pdu signals small =
    let exact = guarded-exact pdu signals (pdu.length * 8) pdu.signal_mappings small in
    (
      λ h. elim (exact.0 h) [ inl e ↦ inl (omega arith) | inr l ↦ inr l ],
      λ h. exact.1 (elim h [ inl e ↦ inl (omega arith) | inr l ↦ inr l ]),
    )
