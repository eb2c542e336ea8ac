-- ===== src/Validator/Can/Length.antt =====
-- The accepted payload lengths are those that a CAN FD DLC stands for.
use parse_x.Base.{
  ℕ, ◌≤◌, Bool, true, false, some, [], ◌≡◌, ◌↔◌, arith, ◌||◌, ◌==◌, ltb, Bool-cases, ltb→lt, inl,
  inr, if◌then◌else◌,
}
use parse_x.Base.Text.{Text}
use parse_x.Model.Raw.{RawSpan}
use parse_x.Validator.Can.{
  can_fd_bytes_for_dlc, is_valid_classic_can_length, is_valid_can_fd_length, check_payload_length,
}

abbrev accepted : ℕ → Bool
accepted n = is_valid_classic_can_length n || is_valid_can_fd_length n

-- The DLC of an accepted length.
dlc_of : ℕ → ℕ
dlc_of n =
    if ltb n 9
    then n
    else if n == 12
    then 9
    else if n == 16
    then 10
    else if n == 20
    then 11
    else if n == 24
    then 12
    else if n == 32
    then 13
    else if n == 48
    then 14
    else 15

accepted-above :
    (n : ℕ)
    → accepted n ≡ true
    → ltb n 9 ≡ false
    → (d : ℕ) × (d ≤ 15) × (can_fd_bytes_for_dlc d ≡ some n)
unfolding can_fd_bytes_for_dlc is_valid_classic_can_length is_valid_can_fd_length dlc_of
accepted-above n h k = (dlc_of n, ground arith, ground arith)

small : (n : ℕ) → ltb n 9 ≡ true → can_fd_bytes_for_dlc n ≡ some n
unfolding can_fd_bytes_for_dlc
small n h = ground arith

dlc_accepted : (d n : ℕ) → can_fd_bytes_for_dlc d ≡ some n → accepted n ≡ true
unfolding can_fd_bytes_for_dlc is_valid_classic_can_length is_valid_can_fd_length
dlc_accepted d n h = ground arith

accepted-of_silent :
    (kind name : Text) (n : ℕ) (span : RawSpan)
    → check_payload_length kind name n span ≡ []
    → accepted n ≡ true
unfolding check_payload_length
accepted-of_silent kind name n span h = elim (Bool-cases (accepted n)) [
  | inl t ↦ t
  | inr f ↦ ground (arith, h, f)
]

-- A payload length passes the check exactly if it is the payload of one of the DLCs 0 to 15.
pub check_payload_length-exact :
    (kind name : Text) (n : ℕ) (span : RawSpan)
    → check_payload_length kind name n span ≡ []
      ↔ (d : ℕ) × (d ≤ 15) × (can_fd_bytes_for_dlc d ≡ some n)
unfolding check_payload_length
check_payload_length-exact kind name n span = (
  λ h.
      let ok : accepted n ≡ true = accepted-of_silent kind name n span h in
      elim (Bool-cases (ltb n 9)) [
        | inl t ↦ (n, omega (arith, ltb→lt n 9 t), small n t)
        | inr f ↦ accepted-above n ok f
      ],
  λ h. ground (arith, dlc_accepted h.0 n h.2),
)
