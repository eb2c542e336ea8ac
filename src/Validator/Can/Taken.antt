-- ===== src/Validator/Can/Taken.antt =====
-- The bits that a mapping takes, by the first signal of its name and its byte order
-- (`checkSignalOverlap` of libparsex/src/validator/validator_can.cpp).
use parse_x.Base.{
  ℕ, ◌+◌, ◌≤◌, ◌<◌, ◌^◌, true, Option, none, some, List, [], ◌∷◌, ◌≡◌, ◌↔◌, refl, sym, ap, ◌∙◌,
  subst, arith, ◌==◌, In, here, there, In-append_left, In-append_right, In-append_cases, In-map,
  In-of_In-map, Bool-cases, inl, inr, if◌then◌else◌,
}
use parse_x.Base.Text.{Text}
use parse_x.Base.Map.{Map, find}
use parse_x.Model.{PduSignalMapping, Signal}
use parse_x.Validator.Can.{mapping_bits, physical_bits_for_signal}
use parse_x.Validator.Can.Bits.{place, In-physical_bits_for_signal_iff}
use parse_x.Validator.Can.Occupied.{Claim, claims_of, LaidOut}
use parse_x.Validator.Can.Layout.{all_claims}

-- The bits of a mapping whose signal is known.
abbrev bits_of : PduSignalMapping → Option Signal → List ℕ
bits_of m none = []
bits_of m (some signal) =
    if signal.bit_length == 0
    then []
    else physical_bits_for_signal m.byte_order m.start_position signal.bit_length

mapping_bits-find :
    (signals : Map Signal) (m : PduSignalMapping) (o : Option Signal)
    → find m.signal_short_name_ref signals ≡ o
    → mapping_bits signals m ≡ bits_of m o
unfolding mapping_bits
mapping_bits-find signals m o e = same (find m.signal_short_name_ref signals) ∙ ap (bits_of m) e
  where
    same :
        (o : Option Signal)
        → (elim o [
          | none ↦ []
          | some signal ↦
              if signal.bit_length == 0
              then []
              else physical_bits_for_signal m.byte_order m.start_position signal.bit_length
        ])
          ≡ bits_of m o
    same none = refl
    same (some signal) = refl

-- The map that the bits are looked up in holds the first signal of each name.
abbrev pub Holds : Map Signal → (Text → Option Signal) → Type 0
Holds signals first = (name : Text) → find name signals ≡ first name

module _ (first : Text → Option Signal) where
  -- The signal of the mapping has the bit: its place follows the place of the start, in the
  -- mapping's byte order, by less than the signal's length.
  pub record TakesBit (m : PduSignalMapping) (bit : ℕ) : Type 0 where
    pub signal : Signal
    pub named : first m.signal_short_name_ref ≡ some signal
    pub from : place m.byte_order m.start_position ≤ place m.byte_order bit
    pub to : place m.byte_order bit < place m.byte_order m.start_position + signal.bit_length

  -- Every bit taken is one of the payload's, and none is taken under two names.
  pub record IsLaidOut (pdu_bits : ℕ) (mappings : List PduSignalMapping) : Type 0 where
    pub in_range :
        (m : PduSignalMapping) (bit : ℕ) → In m mappings → TakesBit m bit → bit < pdu_bits
    pub apart :
        (m other : PduSignalMapping) (bit : ℕ)
        → In m mappings
        → In other mappings
        → TakesBit m bit
        → TakesBit other bit
        → m.signal_short_name_ref ≡ other.signal_short_name_ref

  -- The places of the mapping's bits end below 2 ^ 31.
  abbrev pub IsLow : PduSignalMapping → Type 0
  IsLow m =
      (signal : Signal)
      → first m.signal_short_name_ref ≡ some signal
      → place m.byte_order m.start_position + signal.bit_length < 2 ^ 31

  module _ (signals : Map Signal) (holds : Holds signals first) where
    mapping_bits_sound :
        (m : PduSignalMapping) (o : Option Signal)
        → IsLow m
        → first m.signal_short_name_ref ≡ o
        → (bit : ℕ) → In bit (mapping_bits signals m) ↔ TakesBit m bit
    mapping_bits_sound m none low e bit =
        rw (mapping_bits-find signals m none (holds m.signal_short_name_ref ∙ e))
          (λ i. elim i [ ], λ t. absurd (none-ne_some t.signal (sym e ∙ t.named)))
      where
        none-ne_some : (s : Signal) → ¬ (none ≡ some s)
        none-ne_some s e = absurd (cc)
    mapping_bits_sound m (some signal) low e bit =
        rw (mapping_bits-find signals m (some signal) (holds m.signal_short_name_ref ∙ e))
          (elim (Bool-cases (signal.bit_length == 0)) [
            | inl t ↦ rw t (
              λ i. elim i [ ],
              λ k. absurd (
                  too_short (place m.byte_order bit) (place m.byte_order m.start_position) k.named
                    k.from k.to t),
            )
            | inr f ↦
                let exact =
                  In-physical_bits_for_signal_iff m.byte_order m.start_position signal.bit_length
                    bit (ground (arith, f)) (low signal e) in
                rw f (
                  λ i. record {
                    signal = signal;
                    named = e;
                    from = (exact.0 i).0;
                    to = (exact.0 i).1;
                  },
                  λ k. exact.1 (
                    k.from,
                    same_length (place m.byte_order bit) (place m.byte_order m.start_position)
                        k.named k.to,
                  ),
                )
          ])
      where
        same : {s : Signal} → first m.signal_short_name_ref ≡ some s → s ≡ signal
        same {s} n = some-inj (sym n ∙ e)
          where
            some-inj : {s t : Signal} → some s ≡ some t → s ≡ t
            some-inj q = cc

        same_length :
            {s : Signal} (a b : ℕ)
            → first m.signal_short_name_ref ≡ some s
            → a < b + s.bit_length
            → a < b + signal.bit_length
        same_length {s} a b n k = subst (λ (z : Signal). a < b + z.bit_length) (same n) k

        too_short :
            {s : Signal} (a b : ℕ)
            → first m.signal_short_name_ref ≡ some s
            → b ≤ a
            → a < b + s.bit_length
            → (signal.bit_length == 0) ≡ true
            → ⊥
        too_short {s} a b n le lt t =
            let k = same_length a b n lt in absurd (ground (arith, le, k, t))

    claims-In :
        (mappings : List PduSignalMapping) (name : Text) (bit : ℕ)
        → In (name, bit) (all_claims signals mappings)
        → (m : PduSignalMapping) × In m mappings
          × (name ≡ m.signal_short_name_ref)
          × In bit (mapping_bits signals m)
    unfolding all_claims
    claims-In [] name bit i = elim i [ ]
    claims-In (m ∷ ms) name bit i =
        elim (In-append_cases (claims_of m.signal_short_name_ref (mapping_bits signals m)) i) [
          | inl k ↦
              let r = In-of_In-map _ (mapping_bits signals m) k in
              (
                m,
                here refl,
                ap (λ (c : Claim). c.0) r.2,
                subst (λ b. In b (mapping_bits signals m)) (sym (ap (λ (c : Claim). c.1) r.2)) r.1,
              )
          | inr k ↦ let r = claims-In ms name bit k in (r.0, there r.1, r.2, r.3)
        ]

    In-claims :
        (mappings : List PduSignalMapping) (m : PduSignalMapping) (bit : ℕ)
        → In m mappings
        → In bit (mapping_bits signals m)
        → In (m.signal_short_name_ref, bit) (all_claims signals mappings)
    unfolding all_claims
    In-claims [] m bit i k = elim i [ ]
    In-claims (n ∷ ms) m bit (here e) k =
        subst
          (λ (z : PduSignalMapping).
            In (z.signal_short_name_ref, bit) (all_claims signals (n ∷ ms)))
          (sym e)
          (In-append_left _ (
            In-map (λ b. (n.signal_short_name_ref, b))
              (subst (λ z. In bit (mapping_bits signals z)) e k)))
    In-claims (n ∷ ms) m bit (there i) k =
        In-append_right (claims_of n.signal_short_name_ref (mapping_bits signals n))
          (In-claims ms m bit i k)

    -- The claims are laid out exactly if the bits that the mappings take are.
    pub LaidOut-iff :
        (pdu_bits : ℕ) (mappings : List PduSignalMapping)
        → ((m : PduSignalMapping) → In m mappings → IsLow m)
        → LaidOut pdu_bits (all_claims signals mappings) ↔ IsLaidOut pdu_bits mappings
    LaidOut-iff pdu_bits mappings low = (
      λ h. record {
        in_range = λ m bit i t. h.in_range _ bit (claim m bit i t);
        apart = λ m other bit i j t u. h.apart _ _ bit (claim m bit i t) (claim other bit j u);
      },
      λ h. record {
        in_range = λ name bit i.
            let r = claims-In mappings name bit i in
            h.in_range r.0 bit r.1 ((exact r.0 r.1 bit).0 r.3);
        apart = λ name other bit i j.
            let r = claims-In mappings name bit i in
            let q = claims-In mappings other bit j in
            r.2
            ∙ h.apart r.0 q.0 bit r.1 q.1 ((exact r.0 r.1 bit).0 r.3) ((exact q.0 q.1 bit).0 q.3)
            ∙ sym q.2;
      },
    )
      where
        exact :
            (m : PduSignalMapping)
            → In m mappings
            → (bit : ℕ) → In bit (mapping_bits signals m) ↔ TakesBit m bit
        exact m i = mapping_bits_sound m (first m.signal_short_name_ref) (low m i) refl

        claim :
            (m : PduSignalMapping) (bit : ℕ)
            → In m mappings
            → TakesBit m bit
            → In (m.signal_short_name_ref, bit) (all_claims signals mappings)
        claim m bit i t = In-claims mappings m bit i ((exact m i bit).1 t)
