-- ===== src/SessionLog/Lines.antt =====
-- `boundedLogLine`: a line fits, and only a long one is cut.
use pwdtt.Prelude.{
  ℕ, ◌+◌, ◌-◌, ◌≤◌, ◌<◌, Bool-cases, [], ◌∷◌, ◌++◌, ◌≡◌, ◌⊎◌, inl, inr, refl, arith, ltb, ap,
}
use pwdtt.Prelude.Text.{Text, codes, byte_len}
use pwdtt.SessionLog.{cut_line, bounded_line, line_limit}
use pwdtt.SessionLog.Ring.{byte_len-append}

cut_line_len : (size : ℕ) (s : Text) → size ≤ 4080 → size + byte_len (cut_line size s) ≤ 4092
unfolding cut_line byte_len
cut_line_len size [] h = omega arith
cut_line_len size (c ∷ s) h = elim (Bool-cases (ltb (line_limit - 16) (size + byte_len (c ∷ [])))) [
  | inl over ↦ rw over (omega arith)
  | inr fits ↦ rw fits (ground (arith, cut_line_len (size + byte_len (c ∷ [])) s (ground arith)))
]

-- What is cut keeps a front part of the line, at least 4077 bytes of it when there are more than 4080.
cut_line_front :
    (size : ℕ) (s : Text)
    → size ≤ 4080
    → 4080 < size + byte_len s
    → (kept : Text) × (rest : Text) × (s ≡ kept ++ rest)
      × (cut_line size s ≡ kept ++ codes " [truncated]")
      × (4076 < size + byte_len kept)
unfolding cut_line byte_len
cut_line_front size [] h k = absurd (omega arith)
cut_line_front size (c ∷ s) h k =
    elim (Bool-cases (ltb (line_limit - 16) (size + byte_len (c ∷ [])))) [
      | inl over ↦ ([], c ∷ s, refl, rw over refl, ground arith)
      | inr fits ↦
          let (kept, rest, e, cut, n) =
            cut_line_front (size + byte_len (c ∷ [])) s (ground arith) (ground arith) in
          (c ∷ kept, rest, ap (◌∷◌ c) e, rw fits (ap (◌∷◌ c) cut), ground arith)
    ]

-- A line in the journal has at most 4093 bytes. One of at most 4080 bytes is kept whole; a longer
-- one keeps a front part of at least 4077 bytes, with a mark behind it.
pub bounded_line_lem :
    (line : Text)
    → (byte_len (bounded_line line) ≤ 4093)
      × (((byte_len line ≤ 4080) × (bounded_line line ≡ line ++ 10 ∷ []))
          ⊎ ((kept : Text) × (rest : Text) × (line ≡ kept ++ rest)
              × (bounded_line line ≡ (kept ++ codes " [truncated]") ++ 10 ∷ [])
              × (4077 ≤ byte_len kept)))
unfolding bounded_line byte_len
bounded_line_lem line = elim (Bool-cases (ltb (line_limit - 16) (byte_len line))) [
  | inr short ↦ rw short (ground (arith, byte_len-append line (10 ∷ [])), inl (ground arith, refl))
  | inl long ↦
      let (kept, rest, e, cut, n) = cut_line_front 0 line (omega arith) (ground arith) in
      rw long (
        ground
            (arith, byte_len-append (cut_line 0 line) (10 ∷ []), cut_line_len 0 line (omega arith)),
        inr (kept, rest, e, ap (λ t. t ++ 10 ∷ []) cut, omega (arith, n)),
      )
]
