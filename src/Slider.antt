-- ===== src/Slider.antt =====
-- core/captcha_v2_slider.go: how the steps of an answer are split, and how swaps move the tiles.
pub mod Permutes
use pwdtt.Prelude.{
  ℕ, zero, suc, ◌+◌, ◌-◌, ◌*◌, ◌%◌, min, Bool, true, false, not, ◌||◌, List, [], ◌∷◌, Option, none,
  some, Result, ok, err, length, get_or, set, take, ltb, leb, ◌==◌, if◌then◌else◌,
}

-- Go's int, which the decoded steps are.
pub data ℤ : Type 0 where
  pos : ℕ → ℤ
  negsuc : ℕ → ℤ

pub data SliderError : Type 0 where
  too_short bad_size no_swaps bad_tile_count odd_swaps out_of_range : SliderError

pub record SliderSteps : Type 0 where
  pub size : ℤ
  pub swaps : List ℤ
  pub attempts : ℤ

abbrev pub is_positive : ℤ → Bool
is_positive (pos zero) = false
is_positive (pos (suc n)) = true
is_positive (negsuc n) = false

abbrev pub is_even : ℕ → Bool
is_even n = n % 2 == 0

-- Behind the size: the last step of an odd number is the number of attempts.
unfoldable pub split_tail : ℤ → List ℤ → Result SliderError SliderSteps
split_tail size tail =
    let whole = is_even (length tail) in
    let asked = if whole then pos 4 else get_or tail (length tail - 1) (pos 0) in
    let swaps = if whole then tail else take (length tail - 1) tail in
    let attempts = if is_positive asked then asked else pos 4 in
    if length swaps == 0 || not (is_even (length swaps))
    then err no_swaps
    else ok record { size = size; swaps = swaps; attempts = attempts }

unfoldable pub split_slider_steps : List ℤ → Result SliderError SliderSteps
unfolding split_tail
split_slider_steps [] = err too_short
split_slider_steps (size ∷ tail) =
    if ltb (length tail) 2
    then err too_short
    else if not (is_positive size)
    then err bad_size
    else split_tail size tail

-- The swaps of a candidate, whose number counts pairs from 1.
unfoldable pub active_swaps_for_index : List ℤ → ℕ → List ℤ
active_swaps_for_index swaps index =
    if index == 0
    then []
    else let end = if ltb (length swaps) (index * 2) then length swaps else index * 2 in
      take end swaps

abbrev absolute : ℤ → ℕ
absolute (pos n) = n
absolute (negsuc n) = n + 1

-- The square of the size as an int of 64 bits, if it is above 0.
unfoldable pub tile_count : ℤ → Option ℕ
tile_count size =
    let count = absolute size * absolute size % 18446744073709551616 in
    if count == 0 || leb 9223372036854775808 count then none else some count

unfoldable pub identity_mapping : ℕ → ℕ → List ℕ
identity_mapping zero i = []
identity_mapping (suc left) i = i ∷ identity_mapping left (i + 1)

-- A step as an index of the mapping.
abbrev pub tile_index : ℕ → ℤ → Option ℕ
tile_index count (pos n) = if ltb n count then some n else none
tile_index count (negsuc n) = none

unfoldable pub swap_tiles : ℕ → ℕ → List ℕ → List ℕ
swap_tiles left right mapping =
    set (set mapping left (get_or mapping right 0)) right (get_or mapping left 0)

unfoldable pub apply_swaps : ℕ → List ℤ → List ℕ → Result SliderError (List ℕ)
unfolding swap_tiles
apply_swaps count [] mapping = ok mapping
apply_swaps count (x ∷ []) mapping = err odd_swaps
apply_swaps count (x ∷ y ∷ rest) mapping = elim (tile_index count x) [
  | none ↦ err out_of_range
  | some left ↦ elim (tile_index count y) [
    | none ↦ err out_of_range
    | some right ↦ apply_swaps count rest (swap_tiles left right mapping)
  ]
]

unfoldable pub apply_slider_swaps : ℤ → List ℤ → Result SliderError (List ℕ)
unfolding tile_count apply_swaps identity_mapping
apply_slider_swaps size swaps = elim (tile_count size) [
  | none ↦ err bad_tile_count
  | some count ↦
      if not (is_even (length swaps))
      then err odd_swaps
      else apply_swaps count swaps (identity_mapping count 0)
]
