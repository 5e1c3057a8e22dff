-- ===== src/Core/Stats.antt =====
-- core/stats.go: how numbers are printed, and the lines and figures of one round of `RunLoop`.
use pwdtt.Prelude.{
  ℕ, zero, suc, ◌+◌, ◌-◌, ◌*◌, ◌/◌, ◌%◌, ◌≤◌, Bool, true, false, Bool-cases, [], ◌∷◌, ◌++◌, ◌==◌,
  ◌≡◌, inl, inr, refl, arith, ap, ◌∙◌, leb, if◌then◌else◌,
}
use pwdtt.Prelude.Text.{Text, codes, all_chars}

-- The loop of `itoa`: `n` rounds are enough, since each one divides by ten.
unfoldable itoa_loop : ℕ → ℕ → Text → Text
itoa_loop zero n s = s
itoa_loop (suc rounds) n s =
    let more = itoa_loop rounds (n / 10) ((48 + n % 10) ∷ s) in if n == 0 then s else more

-- For the numbers that are printed, none of them negative.
unfoldable pub itoa : ℕ → Text
unfolding itoa_loop
itoa n = if n == 0 then codes "0" else itoa_loop n n []

-- `ftoa` of a number of bytes over 1024 * 1024, which the source's floats hold exactly below 2^46.
unfoldable ftoa : ℕ → Text
unfolding itoa
ftoa bytes = itoa (bytes / 1048576) ++ codes "." ++ itoa (bytes % 1048576 * 100 / 1048576)

-- A round: the log line, and the figures for the screen.
unfoldable stats_round : ℕ → ℕ → ℕ → Text × (ℕ × ℕ × ℕ)
unfolding ftoa
stats_round active up down = (
  codes "[STATS] Активных: "
      ++ itoa active
      ++ codes ", Трафик: "
      ++ ftoa (up + down)
      ++ codes " МБ",
  (up, down, active),
)

-- The number that decimal digits stand for, behind those that are read.
unfoldable pub value_onto : ℕ → Text → ℕ
value_onto n [] = n
value_onto n (c ∷ s) = value_onto (n * 10 + (c - 48)) s

abbrev pub is_digit : ℕ → Bool
is_digit c = if leb 48 c then leb c 57 else false

itoa_loop_value :
    (rounds n : ℕ) (s : Text) → n ≤ rounds → value_onto 0 (itoa_loop rounds n s) ≡ value_onto n s
unfolding itoa_loop value_onto
itoa_loop_value zero n s h = ap (λ k. value_onto k s) (omega arith)
itoa_loop_value (suc rounds) n s h = elim (Bool-cases (n == 0)) [
  | inl zero_left ↦ rw zero_left (ap (λ k. value_onto k s) (ground arith))
  | inr more ↦ rw more (
      itoa_loop_value rounds (n / 10) ((48 + n % 10) ∷ s) (ground (arith, more))
      ∙ ap (λ k. value_onto k s) (omega arith))
]

itoa_loop_digits :
    (rounds n : ℕ) (s : Text)
    → all_chars is_digit s ≡ true
    → all_chars is_digit (itoa_loop rounds n s) ≡ true
unfolding itoa_loop all_chars
itoa_loop_digits zero n s h = h
itoa_loop_digits (suc rounds) n s h =
    ground (arith, itoa_loop_digits rounds (n / 10) ((48 + n % 10) ∷ s) (ground arith))

-- `itoa` prints digits only, which stand for the number: its loop ends with nothing left out.
pub itoa_lem : (n : ℕ) → (value_onto 0 (itoa n) ≡ n) × (all_chars is_digit (itoa n) ≡ true)
unfolding itoa value_onto all_chars
itoa_lem n = elim (Bool-cases (n == 0)) [
  | inl none ↦ ground arith
  | inr some ↦ rw (some, itoa) (itoa_loop_value n n [] (omega arith), itoa_loop_digits n n [] refl)
]
