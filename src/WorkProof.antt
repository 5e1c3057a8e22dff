-- ===== src/WorkProof.antt =====
-- core/captcha_v2.go: the search of solveCaptchaPoWV2 for a proof of work.
use pwdtt.Prelude.{
  ℕ, zero, suc, ◌+◌, ◌%◌, ◌<◌, Bool, true, false, not, ◌&&◌, ◌||◌, [], ◌∷◌, ◌++◌, ◌==◌,
  if◌then◌else◌, Bool-cases, ◌≡◌, ◌⊎◌, inl, inr, refl, ap, ◌∙◌, arith,
}
use pwdtt.Prelude.Text.{Text, ◌≗◌, has_prefix}
use pwdtt.Core.Stats.{itoa}
use pwdtt.Slider.{ℤ, pos, negsuc, is_positive}

unfoldable pub max_nonce : ℕ
max_nonce = 10_000_000

abbrev pub zeros : ℕ → Text
zeros zero = []
zeros (suc n) = 48 ∷ zeros n

-- SHA-256 is given by its hexadecimal digits.
abbrev pub digest : (Text → Text) → Text → ℕ → Text
digest sha_hex input nonce = sha_hex (input ++ itoa nonce)

-- The context, which may have ended, is asked at every 4096th nonce.
abbrev pub stops : (ℕ → Bool) → ℕ → Bool
stops ended nonce = nonce % 4096 == 0 && ended nonce

module _ (sha_hex : Text → Text) (ended : ℕ → Bool) where
  unfoldable search : ℕ → ℕ → Text → Text → Text
  search zero nonce target input = []
  search (suc left) nonce target input = elim (stops ended nonce) [
    | true ↦ []
    | false ↦ elim (has_prefix target (digest sha_hex input nonce)) [
      | true ↦ digest sha_hex input nonce
      | false ↦ search left (nonce + 1) target input
    ]
  ]

  unfoldable solve_within : ℕ → Text → ℤ → Text
  unfolding search
  solve_within rounds input (negsuc n) = []
  solve_within rounds input (pos zero) = []
  solve_within rounds input (pos (suc n)) =
      if input ≗ [] then [] else search rounds 1 (zeros (suc n)) input

  unfoldable pub solve_captcha_pow : Text → ℤ → Text
  unfolding solve_within max_nonce
  solve_captcha_pow input difficulty = solve_within max_nonce input difficulty

-- None of the numbers from `n` on, as many as are left, passes the test.
abbrev none_of : (ℕ → Bool) → ℕ → ℕ → Bool
none_of test n zero = true
none_of test n (suc left) = not (test n) && none_of test (n + 1) left

-- The end of a search: the first number that solves, if no number up to it stops the search; or
-- nothing, if none solves, or none before one that stops the search.
abbrev Searched : (ℕ → Bool) → (ℕ → Bool) → (ℕ → Text) → ℕ → ℕ → Text → Type 0
Searched solves stops shown n left r =
    ((k : ℕ) × (k < left)
      × (r ≡ shown (n + k))
      × (solves (n + k) ≡ true)
      × (none_of solves n k ≡ true)
      × (none_of stops n (k + 1) ≡ true))
    ⊎ ((r ≡ []) × (none_of solves n left ≡ true))
    ⊎ ((k : ℕ) × (k < left) × (r ≡ []) × (stops (n + k) ≡ true) × (none_of solves n k ≡ true))

Searched-later :
    (solves stops : ℕ → Bool) (shown : ℕ → Text) (n left : ℕ) (r : Text)
    → solves n ≡ false
    → stops n ≡ false
    → Searched solves stops shown (n + 1) left r
    → Searched solves stops shown n (suc left) r
Searched-later solves stops shown n left r fails go (inl (k, below, same, solved, before, quiet)) =
    let there : n + 1 + k ≡ n + (k + 1) = omega arith in
    inl (
      k + 1,
      omega arith,
      same ∙ ap shown there,
      rw there at solved,
      ground (arith, fails, before),
      ground (arith, go, quiet),
    )
Searched-later solves stops shown n left r fails go (inr (inl (empty, before))) =
    inr (inl (empty, ground (arith, fails, before)))
Searched-later solves stops shown n left r fails go (inr (inr (k, below, empty, stop, before))) =
    let there : n + 1 + k ≡ n + (k + 1) = omega arith in
    inr (inr (k + 1, omega arith, empty, rw there at stop, ground (arith, fails, before)))

abbrev is_solution : (Text → Text) → Text → Text → ℕ → Bool
is_solution sha_hex target input nonce = has_prefix target (digest sha_hex input nonce)

-- Nothing for the inputs that are refused, and else what the search gives.
abbrev pub Solved : (Text → Text) → (ℕ → Bool) → ℕ → Text → ℤ → Text → Type 0
Solved sha_hex ended rounds input difficulty r =
    (((input ≗ [] || not (is_positive difficulty)) ≡ true) × (r ≡ []))
    ⊎ ((n : ℕ) × (difficulty ≡ pos n)
        × (0 < n)
        × ((input ≗ []) ≡ false)
        × Searched (is_solution sha_hex (zeros n) input) (stops ended) (digest sha_hex input) 1
            rounds r)

module _ (sha_hex : Text → Text) (ended : ℕ → Bool) where
  search-Searched :
      (left nonce : ℕ) (target input : Text)
      → Searched
          (is_solution sha_hex target input)
          (stops ended)
          (digest sha_hex input)
          nonce
          left
          (search sha_hex ended left nonce target input)
  search-Searched zero nonce target input = inr (inl (unfold search in refl, refl))
  search-Searched (suc left) nonce target input = elim (Bool-cases (stops ended nonce)) [
    | inl stop ↦
        inr (
          inr (0, omega arith, unfold search in rw (search, stop) refl, ground (arith, stop), refl))
    | inr go ↦ elim (Bool-cases (is_solution sha_hex target input nonce)) [
      | inl solved ↦
          let found : search sha_hex ended (suc left) nonce target input
              ≡ digest sha_hex input nonce =
            unfold search in rw (search, go, solved) refl in
          inl (
            0,
            omega arith,
            found ∙ ap (digest sha_hex input) (omega arith),
            ground (arith, solved),
            refl,
            ground (arith, go),
          )
      | inr fails ↦
          let rest = search-Searched left (nonce + 1) target input in
          let same : search sha_hex ended (suc left) nonce target input
              ≡ search sha_hex ended left (nonce + 1) target input =
            unfold search in rw (search, go, fails) refl in
          rw same (
            Searched-later (is_solution sha_hex target input) (stops ended) (digest sha_hex input)
              nonce left (search sha_hex ended left (nonce + 1) target input) fails go rest)
    ]
  ]

  solve_within-Searched :
      (rounds : ℕ) (input : Text) (difficulty : ℤ)
      → Solved sha_hex ended rounds input difficulty
          (solve_within sha_hex ended rounds input difficulty)
  unfolding solve_within
  solve_within-Searched rounds input (negsuc n) = inl (ground arith, refl)
  solve_within-Searched rounds input (pos zero) = inl (ground arith, refl)
  solve_within-Searched rounds input (pos (suc n)) = elim (Bool-cases (input ≗ [])) [
    | inl empty ↦ inl (rw empty refl, rw empty refl)
    | inr some_input ↦ inr (
      suc n,
      refl,
      omega arith,
      some_input,
      rw some_input (search-Searched rounds 1 (zeros (suc n)) input),
    )
  ]

  -- Without an input, or with no positive difficulty, the result is empty. Otherwise it is the digest
  -- of the first of ten million nonces whose digest begins with as many zeros as the difficulty says,
  -- if the context has not ended at a 4096th nonce up to it; and empty if no nonce is such, or none
  -- before one at which the context has ended.
  pub solve_captcha_pow_lem :
      (input : Text) (difficulty : ℤ)
      → Solved sha_hex ended max_nonce input difficulty
          (solve_captcha_pow sha_hex ended input difficulty)
  unfolding solve_captcha_pow
  solve_captcha_pow_lem input difficulty = solve_within-Searched max_nonce input difficulty
