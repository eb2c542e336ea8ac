-- ===== src/Validator/Can/Bits.antt =====
-- The two bit numberings: each is a run of consecutive bits, the Motorola one after every byte is
-- read from its highest bit down.
use parse_x.Base.{
  ℕ, zero, suc, ◌+◌, ◌-◌, ◌*◌, ◌/◌, ◌%◌, ◌^◌, ◌≤◌, ◌<◌, false, List, [], ◌∷◌, ◌≡◌, ◌↔◌, refl, ap,
  ◌∙◌, subst, arith, ◌==◌, map, In, here, there, In-map, In-of_In-map, Bool-cases, inl, inr,
}
use parse_x.Model.{ByteOrder, most_significant_byte_first, least_significant_byte_first}
use parse_x.Validator.Can.{
  int_mod, no_bits, intel_bits, next_motorola_bit, motorola_bits, physical_bits_for_signal,
}

-- The place of a bit when every byte is read from its highest bit down, and back.
unfoldable pub flip_in_byte : ℕ → ℕ
flip_in_byte bit = 8 * (bit / 8) + (7 - bit % 8)

pub flip_in_byte_twice : (bit : ℕ) → flip_in_byte (flip_in_byte bit) ≡ bit
unfolding flip_in_byte
flip_in_byte_twice bit = omega arith

-- `count` numbers from `first` on.
unfoldable pub run_from : ℕ → ℕ → List ℕ
run_from first zero = []
run_from first (suc count) = first ∷ run_from (suc first) count

flip-next_motorola_bit :
    (pos : ℕ) → pos < 2 ^ 31 → flip_in_byte (next_motorola_bit pos) ≡ suc (flip_in_byte pos)
unfolding flip_in_byte next_motorola_bit
flip-next_motorola_bit pos h = ground arith

flip_bound : (pos : ℕ) → flip_in_byte pos < 2 ^ 31 → pos < 2 ^ 31
unfolding flip_in_byte
flip_bound pos h = omega arith

-- Motorola bits are the run from the flipped start, flipped back, as long as no `int` overflows.
pub motorola_bits-run_from :
    (pos rounds : ℕ)
    → flip_in_byte pos + rounds ≤ 2 ^ 31
    → motorola_bits pos rounds ≡ map flip_in_byte (run_from (flip_in_byte pos) rounds)
unfolding motorola_bits run_from
motorola_bits-run_from pos zero h = refl
motorola_bits-run_from pos (suc rounds) h =
    let low : pos < 2 ^ 31 = flip_bound pos (omega arith) in
    let step = flip-next_motorola_bit pos low in
    rw flip_in_byte_twice (
      ap (◌∷◌ pos) (
        motorola_bits-run_from (next_motorola_bit pos) rounds (omega (arith, step))
        ∙ ap (λ n. map flip_in_byte (run_from n rounds)) step))

-- Intel bits are the run from the start.
pub intel_bits-run_from :
    (start idx rounds : ℕ)
    → start + idx + rounds ≤ 2 ^ 31
    → intel_bits start idx rounds ≡ run_from (start + idx) rounds
unfolding intel_bits run_from
intel_bits-run_from start idx zero h = refl
intel_bits-run_from start idx (suc rounds) h =
    let e : (start + idx) % int_mod ≡ start + idx = omega arith in
    rw e (
      ap (◌∷◌ (start + idx)) (
        intel_bits-run_from start (idx + 1) rounds (omega arith)
        ∙ ap (λ n. run_from n rounds) (omega arith)))

pub In-run_from_iff :
    (first count bit : ℕ) → In bit (run_from first count) ↔ ((first ≤ bit) × (bit < first + count))
unfolding run_from
In-run_from_iff first zero bit = (λ i. elim i [ ], λ h. absurd (omega arith))
In-run_from_iff first (suc count) bit =
    let ih = In-run_from_iff (suc first) count bit in (sound ih, complete ih)
  where
    sound :
        (In bit (run_from (suc first) count) ↔ ((suc first ≤ bit) × (bit < suc first + count)))
        → In bit (first ∷ run_from (suc first) count)
        → (first ≤ bit) × (bit < first + suc count)
    sound ih (here e) = omega arith
    sound ih (there i) = let (a, b) = ih.0 i in omega arith

    complete :
        (In bit (run_from (suc first) count) ↔ ((suc first ≤ bit) × (bit < suc first + count)))
        → (first ≤ bit) × (bit < first + suc count)
        → In bit (first ∷ run_from (suc first) count)
    complete ih (a, b) = elim (Bool-cases (bit == first)) [
      | inl t ↦ here (ground arith)
      | inr f ↦ there (ih.1 (ground arith, omega arith))
    ]

-- The place of a bit in the order in which a byte order counts bits.
abbrev pub place : ByteOrder → ℕ → ℕ
place least_significant_byte_first bit = bit
place most_significant_byte_first bit = flip_in_byte bit

pub place_twice : (o : ByteOrder) (bit : ℕ) → place o (place o bit) ≡ bit
place_twice least_significant_byte_first bit = refl
place_twice most_significant_byte_first bit = flip_in_byte_twice bit

place_low : (o : ByteOrder) (bit : ℕ) → place o bit < 2 ^ 31 → bit < 2 ^ 31
place_low least_significant_byte_first bit h = h
place_low most_significant_byte_first bit h = flip_bound bit h

-- A signal of one bit or more takes exactly the bits whose places follow the place of its start, as
-- many as it is long, if these places end below 2 ^ 31. The place of a bit is the bit itself in Intel
-- order and the bit flipped within its byte in Motorola order.
pub In-physical_bits_for_signal_iff :
    (o : ByteOrder) (start bits bit : ℕ)
    → 0 < bits
    → place o start + bits < 2 ^ 31
    → In bit (physical_bits_for_signal o start bits)
      ↔ ((place o start ≤ place o bit) × (place o bit < place o start + bits))
unfolding physical_bits_for_signal
In-physical_bits_for_signal_iff least_significant_byte_first start bits bit pos h =
    let nb : no_bits start bits ≡ false = ground arith in
    let e : start + 0 ≡ start = omega arith in
    rw (nb, intel_bits-run_from start 0 bits (omega arith), e) (In-run_from_iff start bits bit)
In-physical_bits_for_signal_iff most_significant_byte_first start bits bit pos h =
    let low = flip_bound start (omega arith) in
    let nb : no_bits start bits ≡ false = ground arith in
    rw (nb, motorola_bits-run_from start bits (omega arith))
      (
        (λ i.
            let r = In-of_In-map flip_in_byte _ i in
            let e : flip_in_byte bit ≡ r.0 = ap flip_in_byte r.2 ∙ flip_in_byte_twice r.0 in
            rw e ((In-run_from_iff (flip_in_byte start) bits r.0).0 r.1)),
        (λ k.
            subst (λ b. In b (map flip_in_byte (run_from (flip_in_byte start) bits)))
              (flip_in_byte_twice bit)
              (In-map flip_in_byte
                ((In-run_from_iff (flip_in_byte start) bits (flip_in_byte bit)).1 k))),
      )
