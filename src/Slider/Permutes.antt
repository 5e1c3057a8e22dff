-- ===== src/Slider/Permutes.antt =====
-- Swapping tiles permutes them, for every candidate of an accepted answer.
use pwdtt.Prelude.{
  ℕ, zero, suc, ◌+◌, ◌-◌, ◌*◌, ◌<◌, Bool, true, false, ◌&&◌, List, [], ◌∷◌, none, some, Result, ok,
  err, length, get_elem?, get_or, drop, length-drop, take-drop_append, ◌++◌, ◌-◌, ◌≤◌, set, take,
  take_all, sym, total, total-set, get_elem?-set, length-set, length-take, ltb, leb, ◌==◌,
  if◌then◌else◌, Bool-cases, Option-cases, ◌≡◌, ◌⊎◌, inl, inr, refl, ◌∙◌, arith,
}
use mathlib.Core.List.{append-nil}
use pwdtt.Slider.{
  ℤ, pos, negsuc, SliderError, SliderSteps, bad_tile_count, out_of_range, is_positive, is_even,
  split_tail, split_slider_steps, active_swaps_for_index, tile_count, identity_mapping, swap_tiles,
  apply_swaps, apply_slider_swaps,
}

abbrev one_if : ℕ → ℕ → ℕ
one_if v x = if x == v then 1 else 0

-- Each number below the count stands in the mapping once, and nothing else does.
abbrev IsPermutation : ℕ → List ℕ → Type 0
IsPermutation count m =
    (length m ≡ count) × ((v : ℕ) → total (one_if v) m ≡ (if ltb v count then 1 else 0))

identity_length : (left i : ℕ) → length (identity_mapping left i) ≡ left
unfolding identity_mapping
identity_length zero i = refl
identity_length (suc left) i = ground (arith, identity_length left (i + 1))

identity_total :
    (left i v : ℕ)
    → total (one_if v) (identity_mapping left i) ≡ (if leb i v && ltb v (i + left) then 1 else 0)
unfolding identity_mapping
identity_total zero i v = ground arith
identity_total (suc left) i v = ground (arith, identity_total left (i + 1) v)

identity_mapping-IsPermutation : (count : ℕ) → IsPermutation count (identity_mapping count 0)
identity_mapping-IsPermutation count =
    (identity_length count 0, λ v. ground (arith, identity_total count 0 v))

held : (xs : List ℕ) (i : ℕ) → i < length xs → get_elem? xs i ≡ some (get_or xs i 0)
held [] i h = absurd (ground arith)
held (x ∷ xs) zero h = refl
held (x ∷ xs) (suc i) h = held xs i (omega arith)

total-swap_tiles :
    (f : ℕ → ℕ) (l r : ℕ) (m : List ℕ)
    → l < length m
    → r < length m
    → total f (swap_tiles l r m) ≡ total f m
unfolding swap_tiles
total-swap_tiles f l r m hl hr =
    let a = get_or m l 0 in
    let b = get_or m r 0 in
    let there : get_elem? (set m l b) r ≡ some b =
      ground (arith, get_elem?-set m l r a b (held m l hl), held m r hr) in
    omega (arith, total-set f m l a b (held m l hl), total-set f (set m l b) r b a there)

swap_tiles-IsPermutation :
    (count l r : ℕ) (m : List ℕ)
    → l < count
    → r < count
    → IsPermutation count m
    → IsPermutation count (swap_tiles l r m)
swap_tiles-IsPermutation count l r m hl hr (n, once) =
    let same : length (swap_tiles l r m) ≡ length m =
      unfold swap_tiles in
      length-set (set m l (get_or m r 0)) r (get_or m l 0) ∙ length-set m l (get_or m r 0) in
    (same ∙ n, λ v. total-swap_tiles (one_if v) l r m (omega arith) (omega arith) ∙ once v)

-- Every step is a number of a tile.
abbrev pub fits : ℕ → List ℤ → Bool
fits count [] = true
fits count (pos n ∷ zs) = ltb n count && fits count zs
fits count (negsuc n ∷ zs) = false

-- The exchange of two numbers.
abbrev pub exchange : ℕ → ℕ → ℕ → ℕ
exchange l r p = if p == l then r else if p == r then l else p

-- Which tile pairs of steps bring to a place: the first pair is the last one on the way back.
abbrev pub origin : List ℤ → ℕ → ℕ
origin (pos l ∷ pos r ∷ zs) p = exchange l r (origin zs p)
origin _ p = p

-- The result of moving the tiles: if every step is a number of a tile, each place holds the tile that
-- the exchanges bring there, which is a permutation; otherwise an error.
abbrev pub Moved : ℕ → List ℤ → Result SliderError (List ℕ) → Type 0
Moved count swaps r =
    ((m : List ℕ) × (r ≡ ok m)
      × (fits count swaps ≡ true)
      × IsPermutation count m
      × ((p : ℕ) → get_elem? m p ≡ (if ltb p count then some (origin swaps p) else none)))
    ⊎ ((r ≡ err out_of_range) × (fits count swaps ≡ false))

-- The same from any mapping on.
abbrev Applied : ℕ → List ℤ → List ℕ → Result SliderError (List ℕ) → Type 0
Applied count swaps from r =
    ((m : List ℕ) × (r ≡ ok m)
      × (fits count swaps ≡ true)
      × IsPermutation count m
      × ((p : ℕ) → get_elem? m p ≡ get_elem? from (origin swaps p)))
    ⊎ ((r ≡ err out_of_range) × (fits count swaps ≡ false))

get_elem?-swap_tiles :
    (l r p : ℕ) (m : List ℕ)
    → l < length m
    → r < length m
    → get_elem? (swap_tiles l r m) p ≡ get_elem? m (exchange l r p)
unfolding swap_tiles
get_elem?-swap_tiles l r p m hl hr =
    let a = get_or m l 0 in
    let b = get_or m r 0 in
    let first = get_elem?-set m l p a b (held m l hl) in
    let there : get_elem? (set m l b) r ≡ some b =
      ground (arith, get_elem?-set m l r a b (held m l hl), held m r hr) in
    let second = get_elem?-set (set m l b) r p b a there in
    second ∙ elim (Bool-cases (p == l)) [
      | inl here ↦ elim (Bool-cases (p == r)) [
        | inl both ↦
            let same : l ≡ r = ground (arith, here, both) in
            rw (here, both) (rw same (sym (held m r hr)))
        | inr only ↦ rw (only, first) (rw here (sym (held m r hr)))
      ]
      | inr apart ↦ elim (Bool-cases (p == r)) [
        | inl there ↦ rw (apart, there) (sym (held m l hl))
        | inr neither ↦ rw (neither, first) (rw apart refl)
      ]
    ]

apply_swaps-Applied :
    (count : ℕ) (swaps : List ℤ) (m : List ℕ)
    → is_even (length swaps) ≡ true
    → IsPermutation count m
    → Applied count swaps m (apply_swaps count swaps m)
unfolding apply_swaps
apply_swaps-Applied count [] m e p = inl (m, refl, refl, p, λ k. refl)
apply_swaps-Applied count (x ∷ []) m e p = absurd (ground arith)
apply_swaps-Applied count (negsuc n ∷ y ∷ rest) m e p = inr (refl, refl)
apply_swaps-Applied count (pos l ∷ negsuc n ∷ rest) m e p = elim (Bool-cases (ltb l count)) [
  | inr out ↦ rw (apply_swaps, out) (inr (refl, ground (arith, out)))
  | inl left ↦ rw (apply_swaps, left) (inr (refl, ground (arith, left)))
]
apply_swaps-Applied count (pos l ∷ pos r ∷ rest) m e p = elim (Bool-cases (ltb l count)) [
  | inr out ↦ rw (apply_swaps, out) (inr (refl, ground (arith, out)))
  | inl left ↦ elim (Bool-cases (ltb r count)) [
    | inr out ↦ rw (apply_swaps, left, out) (inr (refl, ground (arith, left, out)))
    | inl right ↦
        let hl : l < length m = ground (arith, left, p.0) in
        let hr : r < length m = ground (arith, right, p.0) in
        let moved =
          swap_tiles-IsPermutation count l r m (ground (arith, left)) (ground (arith, right)) p in
        rw (apply_swaps, left, right)
          (elim (apply_swaps-Applied count rest (swap_tiles l r m) (ground arith) moved) [
            | inl (x, done, fit, once, at) ↦
                inl
                  (x, done, fit, once, λ k. at k ∙ get_elem?-swap_tiles l r (origin rest k) m hl hr)
            | inr (out, unfit) ↦ inr (out, unfit)
          ])
  ]
]

get_elem?-identity_mapping :
    (left i p : ℕ)
    → get_elem? (identity_mapping left i) p ≡ (if ltb p left then some (i + p) else none)
unfolding identity_mapping
get_elem?-identity_mapping zero i p = ground arith
get_elem?-identity_mapping (suc left) i zero = ground arith
get_elem?-identity_mapping (suc left) i (suc p) =
    ground (arith, get_elem?-identity_mapping left (i + 1) p)

exchange_below :
    (count l r q : ℕ)
    → ltb l count ≡ true
    → ltb r count ≡ true
    → ltb (exchange l r q) count ≡ ltb q count
exchange_below count l r q h k = ground arith

origin_below :
    (count : ℕ) (swaps : List ℤ) (p : ℕ)
    → fits count swaps ≡ true
    → ltb (origin swaps p) count ≡ ltb p count
origin_below count [] p h = refl
origin_below count (negsuc n ∷ zs) p h = absurd (ground arith)
origin_below count (pos l ∷ []) p h = refl
origin_below count (pos l ∷ negsuc n ∷ zs) p h = refl
origin_below count (pos l ∷ pos r ∷ zs) p h =
    exchange_below count l r (origin zs p) (ground arith) (ground arith)
    ∙ origin_below count zs p (ground arith)

apply_swaps-Moved :
    (count : ℕ) (swaps : List ℤ)
    → is_even (length swaps) ≡ true
    → Moved count swaps (apply_swaps count swaps (identity_mapping count 0))
apply_swaps-Moved count swaps e =
    elim (apply_swaps-Applied count swaps (identity_mapping count 0) e
      (identity_mapping-IsPermutation count)) [
        | inl (m, done, fit, once, at) ↦ inl (
          m,
          done,
          fit,
          once,
          λ p.
              at p
              ∙ get_elem?-identity_mapping count 0 (origin swaps p)
              ∙ rw (origin_below count swaps p fit) (ground arith),
        )
        | inr (out, unfit) ↦ inr (out, unfit)
      ]

-- What an accepted answer has been split into.
abbrev pub IsPuzzle : SliderSteps → Type 0
IsPuzzle s =
    (is_positive s.size ≡ true)
    × (is_even (length s.swaps) ≡ true)
    × (0 < length s.swaps)
    × (is_positive s.attempts ≡ true)

-- The steps of an answer are its size, its swaps and at most one more.
abbrev pub IsSplit : List ℤ → SliderSteps → Type 0
IsSplit steps s = (last : List ℤ) × (steps ≡ s.size ∷ (s.swaps ++ last)) × (length last ≤ 1)

split_tail-IsSplit :
    (size : ℤ) (tail : List ℤ) (s : SliderSteps)
    → split_tail size tail ≡ ok s
    → IsSplit (size ∷ tail) s
unfolding split_tail
split_tail-IsSplit size tail s h = elim (Bool-cases (is_even (length tail))) [
  | inl whole ↦
      let swaps : s.swaps ≡ tail = ground (arith, whole) in
      let same : s.size ≡ size = ground (arith, whole) in
      ([], rw (swaps, same, append-nil tail) refl, omega arith)
  | inr odd ↦
      let n = length tail - 1 in
      let swaps : s.swaps ≡ take n tail = ground (arith, odd) in
      let same : s.size ≡ size = ground (arith, odd) in
      (
        drop n tail,
        rw (swaps, same, take-drop_append n tail) refl,
        omega (arith, length-drop n tail),
      )
]

split_slider_steps-IsSplit :
    (steps : List ℤ) (s : SliderSteps) → split_slider_steps steps ≡ ok s → IsSplit steps s
unfolding split_slider_steps
split_slider_steps-IsSplit [] s h = absurd (ground arith)
split_slider_steps-IsSplit (size ∷ tail) s h = split_tail-IsSplit size tail s (ground arith)

attempts_positive : (z : ℤ) → is_positive (if is_positive z then z else pos 4) ≡ true
attempts_positive z = ground arith

split_tail-IsPuzzle :
    (size : ℤ) (tail : List ℤ) (s : SliderSteps)
    → is_positive size ≡ true
    → split_tail size tail ≡ ok s
    → IsPuzzle s
unfolding split_tail
split_tail-IsPuzzle size tail s h k =
    let whole = is_even (length tail) in
    let some_attempts =
      attempts_positive (if whole then pos 4 else get_or tail (length tail - 1) (pos 0)) in
    ground (arith, some_attempts)

split_slider_steps-IsPuzzle :
    (steps : List ℤ) (s : SliderSteps) → split_slider_steps steps ≡ ok s → IsPuzzle s
unfolding split_slider_steps
split_slider_steps-IsPuzzle [] s h = absurd (ground arith)
split_slider_steps-IsPuzzle (size ∷ tail) s h = elim (Bool-cases (is_positive size)) [
  | inl good ↦ split_tail-IsPuzzle size tail s good (ground arith)
  | inr bad ↦ absurd (ground arith)
]

active_swaps_even :
    (swaps : List ℤ) (index : ℕ)
    → is_even (length swaps) ≡ true
    → is_even (length (active_swaps_for_index swaps index)) ≡ true
unfolding active_swaps_for_index
active_swaps_even swaps index e =
    ground (arith, length-take (index * 2) swaps, length-take (length swaps) swaps)

active_swaps_take :
    (swaps : List ℤ) (index : ℕ) → active_swaps_for_index swaps index ≡ take (index * 2) swaps
unfolding active_swaps_for_index
active_swaps_take swaps index = elim (Bool-cases (index == 0)) [
  | inl first ↦ rw first (let none_yet : index ≡ 0 = ground (arith, first) in rw none_yet refl)
  | inr later ↦ elim (Bool-cases (ltb (length swaps) (index * 2))) [
    | inr fewer ↦ rw (later, fewer) refl
    | inl all ↦
        rw (later, all)
          (take_all (length swaps) swaps (omega arith)
            ∙ sym (take_all (index * 2) swaps (ground (arith, all))))
  ]
]

-- An answer that is accepted has a size and a number of attempts above 0 and an even number of
-- steps for swaps, at least two: its steps are the size, the swaps and at most one more. For each
-- of its candidates, whose steps are the first pairs, as many as its number says: unless the
-- number of tiles is no positive int, the tiles are moved exactly if each of these steps is a
-- number of a tile; then each place holds the tile that the exchanges, one pair after another,
-- bring there, and each tile is in one place.
pub apply_slider_swaps-split_slider_steps :
    (steps : List ℤ) (s : SliderSteps) (index : ℕ)
    → split_slider_steps steps ≡ ok s
    → IsPuzzle s
      × IsSplit steps s
      × (((tile_count s.size ≡ none)
            × (apply_slider_swaps s.size (active_swaps_for_index s.swaps index)
                ≡ err bad_tile_count))
          ⊎ ((count : ℕ) × (tile_count s.size ≡ some count)
              × Moved count
                  (take (index * 2) s.swaps)
                  (apply_slider_swaps s.size (active_swaps_for_index s.swaps index))))
unfolding apply_slider_swaps
apply_slider_swaps-split_slider_steps steps s index h =
    let puzzle = split_slider_steps-IsPuzzle steps s h in
    let even = active_swaps_even s.swaps index puzzle.1 in
    (
      puzzle,
      split_slider_steps-IsSplit steps s h,
      elim (Option-cases (tile_count s.size)) [
        | inl lacks ↦ inl (lacks, rw (apply_slider_swaps, lacks) refl)
        | inr (count, tiles) ↦ inr (
          count,
          tiles,
          rw (apply_slider_swaps, tiles, even, ← active_swaps_take s.swaps index)
              (apply_swaps-Moved count (active_swaps_for_index s.swaps index) even),
        )
      ],
    )
