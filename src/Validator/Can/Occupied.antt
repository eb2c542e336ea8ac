-- ===== src/Validator/Can/Occupied.antt =====
-- The occupancy of a payload that holds the claims made so far.
use parse_x.Base.{
  ℕ, zero, suc, ◌<◌, Option, none, some, List, [], ◌∷◌, ◌++◌, ◌≡◌, ◌≢◌, refl, sym, ap, ◌∙◌, subst,
  arith, ◌==◌, map, In, here, there, In-append_left, In-append_right, In-append_cases, length,
  get_elem?, set, replicate, length-set, Bool-cases, inl, inr, if◌then◌else◌,
}
use parse_x.Base.Text.{Text}
use parse_x.Validator.Can.{Occupancy}

-- The signal named takes the bit.
abbrev pub Claim : Type 0
Claim = Text × ℕ

abbrev pub claims_of : Text → List ℕ → List Claim
claims_of name bits = map (λ b. (name, b)) bits

-- Every bit taken lies in the payload, and no two names take one bit.
pub record LaidOut (pdu_bits : ℕ) (claims : List Claim) : Type 0 where
  pub in_range : (name : Text) (bit : ℕ) → In (name, bit) claims → bit < pdu_bits
  pub apart :
      (name other : Text) (bit : ℕ) → In (name, bit) claims → In (other, bit) claims → name ≡ other

-- The occupancy after the claims.
pub record Occupies (pdu_bits : ℕ) (occupancy : Occupancy) (claims : List Claim) : Type 0 where
  pub size : length occupancy ≡ pdu_bits
  pub owned :
      (name : Text) (bit : ℕ) → In (name, bit) claims → get_elem? occupancy bit ≡ some (some name)
  pub owner :
      (name : Text) (bit : ℕ) → get_elem? occupancy bit ≡ some (some name) → In (name, bit) claims

get_elem?-replicate : (n i : ℕ) (name : Text) → get_elem? (replicate n none) i ≢ some (some name)
get_elem?-replicate zero i name h = cc
get_elem?-replicate (suc n) zero name h = cc
get_elem?-replicate (suc n) (suc i) name h = get_elem?-replicate n i name h

length-replicate-none : (n : ℕ) → length (replicate {A = Option Text} n none) ≡ n
length-replicate-none zero = refl
length-replicate-none (suc n) = ap suc (length-replicate-none n)

pub Occupies-replicate : (n : ℕ) → Occupies n (replicate n none) []
Occupies-replicate n = record {
  size = length-replicate-none n;
  owned = λ name bit i. elim i [ ];
  owner = λ name bit h. absurd (get_elem?-replicate n bit name h);
}

pub in_range-get_elem? :
    (occupancy : Occupancy) (i : ℕ)
    → i < length occupancy
    → (o : Option Text) × (get_elem? occupancy i ≡ some o)
in_range-get_elem? [] i h = elim h [ ]
in_range-get_elem? (o ∷ os) zero h = (o, refl)
in_range-get_elem? (o ∷ os) (suc i) h = in_range-get_elem? os i (omega arith)

get_elem?-set :
    (os : Occupancy) (i j : ℕ) (v : Option Text)
    → i < length os
    → get_elem? (set os i v) j ≡ (if i == j then some v else get_elem? os j)
get_elem?-set [] i j v h = elim h [ ]
get_elem?-set (o ∷ os) zero zero v h = refl
get_elem?-set (o ∷ os) zero (suc j) v h = ground arith
get_elem?-set (o ∷ os) (suc i) zero v h = ground arith
get_elem?-set (o ∷ os) (suc i) (suc j) v h = ground (arith, get_elem?-set os i j v)

pub some_inj : {A : Type 0} {o p : A} → some o ≡ some p → o ≡ p
some_inj h = cc

claim_eq : {n m : Text} {b c : ℕ} → n ≡ m → b ≡ c → ◌≡◌ {A = Claim} (n, b) (m, c)
claim_eq p q = λ i. (p i, q i)

-- One more bit for a name, where the bit is free or the name's own.
pub Occupies-set :
    (pdu_bits : ℕ) (occupancy : Occupancy) (claims : List Claim) (name : Text) (bit : ℕ)
    → Occupies pdu_bits occupancy claims
    → bit < pdu_bits
    → ((other : Text) → In (other, bit) claims → other ≡ name)
    → Occupies pdu_bits (set occupancy bit (some name)) (claims ++ (name, bit) ∷ [])
Occupies-set pdu_bits occupancy claims name bit h lt free =
    let fits : bit < length occupancy = omega (arith, h.size) in
    record {
      size = length-set occupancy bit (some name) ∙ h.size;
      owned = λ n b i. elim (In-append_cases claims i) [
        | inl j ↦ ground (
          arith,
          get_elem?-set occupancy bit b (some name) fits,
          h.owned n b j,
          λ (e : bit ≡ b). free n (subst (λ x. In (n, x) claims) (sym e) j),
        )
        | inr (here q) ↦ ground (
          arith,
          get_elem?-set occupancy bit b (some name) fits,
          ap (λ (c : Claim). c.0) q,
          ap (λ (c : Claim). c.1) q,
        )
        | inr (there q) ↦ elim q [ ]
      ];
      owner = λ n b g. elim (Bool-cases (bit == b)) [
        | inl t ↦ In-append_right claims (
            here (
              claim_eq (ground (arith, get_elem?-set occupancy bit b (some name) fits))
                (ground arith)))
        | inr f ↦
            In-append_left _
              (h.owner n b (ground (arith, get_elem?-set occupancy bit b (some name) fits)))
      ];
    }

in_range-of_get_elem? :
    (os : Occupancy) (i : ℕ) (o : Option Text) → get_elem? os i ≡ some o → i < length os
in_range-of_get_elem? [] i o h = absurd (cc)
in_range-of_get_elem? (p ∷ os) zero o h = omega arith
in_range-of_get_elem? (p ∷ os) (suc i) o h = omega (arith, in_range-of_get_elem? os i o h)

pub Occupies-LaidOut :
    (pdu_bits : ℕ) (occupancy : Occupancy) (claims : List Claim)
    → Occupies pdu_bits occupancy claims
    → LaidOut pdu_bits claims
Occupies-LaidOut pdu_bits occupancy claims o = record {
  in_range = λ name bit i.
      subst (λ n. bit < n) o.size (in_range-of_get_elem? occupancy bit _ (o.owned name bit i));
  apart =
      λ name other bit i j. some_inj (some_inj (sym (o.owned name bit i) ∙ o.owned other bit j));
}
