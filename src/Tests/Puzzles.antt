-- ===== src/Tests/Puzzles.antt =====
-- Runs for core/captcha_v2_slider.go and core/captcha_v2.go.
use pwdtt.Prelude.{
  ℕ, Bool, false, ◌==◌, length, take, if◌then◌else◌, List, [], ◌∷◌, none, some, ok, err, ◌≡◌, ◌⊎◌,
  refl,
}
use pwdtt.Prelude.Text.{has_prefix, ◌≗◌, Text, codes}
use pwdtt.WorkProof.{max_nonce, solve_captcha_pow, Solved, solve_captcha_pow_lem}
use pwdtt.Slider.{
  ℤ, pos, SliderSteps, bad_tile_count, split_slider_steps, active_swaps_for_index, tile_count,
  apply_slider_swaps,
}
use pwdtt.Slider.Permutes.{IsPuzzle, IsSplit, Moved, apply_slider_swaps-split_slider_steps}
use pwdtt.Core.Stats.{itoa}

-- Nine tiles, two swaps and three attempts.
abbrev an_answer : List ℤ
an_answer = pos 3 ∷ pos 0 ∷ pos 1 ∷ pos 1 ∷ pos 8 ∷ pos 3 ∷ []

abbrev a_puzzle : SliderSteps
a_puzzle = record { size = pos 3; swaps = pos 0 ∷ pos 1 ∷ pos 1 ∷ pos 8 ∷ []; attempts = pos 3 }

a_puzzle_split : split_slider_steps an_answer ≡ ok a_puzzle
unfolding split_slider_steps
a_puzzle_split = refl

apply_slider_swaps_moves :
    apply_slider_swaps (pos 3) a_puzzle.swaps ≡ ok (1 ∷ 8 ∷ 2 ∷ 3 ∷ 4 ∷ 5 ∷ 6 ∷ 7 ∷ 0 ∷ [])
unfolding apply_slider_swaps
apply_slider_swaps_moves = refl

apply_slider_swaps-split_slider_steps_example :
    IsPuzzle a_puzzle
    × IsSplit an_answer a_puzzle
    × (((tile_count a_puzzle.size ≡ none)
          × (apply_slider_swaps a_puzzle.size (active_swaps_for_index a_puzzle.swaps 2)
              ≡ err bad_tile_count))
        ⊎ ((count : ℕ) × (tile_count a_puzzle.size ≡ some count)
            × Moved count
                (take 4 a_puzzle.swaps)
                (apply_slider_swaps a_puzzle.size (active_swaps_for_index a_puzzle.swaps 2))))
apply_slider_swaps-split_slider_steps_example =
    apply_slider_swaps-split_slider_steps an_answer a_puzzle 2 a_puzzle_split

-- A digest that begins with a zero where the text has two digits behind its letter.
abbrev a_digest : Text → Text
a_digest t = if length t == 3 then codes "0a" else codes "a0"

abbrev no_end : ℕ → Bool
no_end nonce = false

solve_captcha_pow_finds : solve_captcha_pow a_digest no_end (codes "x") (pos 1) ≡ codes "0a"
unfolding solve_captcha_pow ◌≗◌ has_prefix itoa
solve_captcha_pow_finds = refl

solve_captcha_pow_lem_example :
    Solved a_digest no_end max_nonce
      (codes "x")
      (pos 1)
      (solve_captcha_pow a_digest no_end (codes "x") (pos 1))
solve_captcha_pow_lem_example = solve_captcha_pow_lem a_digest no_end (codes "x") (pos 1)
