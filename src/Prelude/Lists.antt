-- ===== src/Prelude/Lists.antt =====
-- Lists measured and indexed by native numbers, under the library's names.
use Prim.Native.Nat.{ℕ, zero, suc, ◌+◌, ◌-◌, ◌≤◌, min}
use mathlib.Core.Path.{◌≡◌, refl, ap}
use mathlib.Core.Logic.{◌⊎◌, inl, inr}
use mathlib.Core.List.{List, [], ◌∷◌, ◌++◌}
use mathlib.Core.Option.{Option, none, some}
use pwdtt.Prelude.Tests.{◌==◌, if◌then◌else◌}
use native.Mathlib.Omega.{arith}

module _ {ℓ} {A : Type ℓ} where
  abbrev pub length : List A → ℕ
  length [] = 0
  length (x ∷ xs) = suc (length xs)

  abbrev pub get_elem? : List A → ℕ → Option A
  get_elem? [] i = none
  get_elem? (x ∷ xs) zero = some x
  get_elem? (x ∷ xs) (suc i) = get_elem? xs i

  abbrev pub get_or : List A → ℕ → A → A
  get_or [] i d = d
  get_or (x ∷ xs) zero d = x
  get_or (x ∷ xs) (suc i) d = get_or xs i d

  -- A write out of bounds changes nothing.
  abbrev pub set : List A → ℕ → A → List A
  set [] i v = []
  set (x ∷ xs) zero v = v ∷ xs
  set (x ∷ xs) (suc i) v = x ∷ set xs i v

  abbrev pub take : ℕ → List A → List A
  take zero xs = []
  take (suc n) [] = []
  take (suc n) (x ∷ xs) = x ∷ take n xs

  abbrev pub drop : ℕ → List A → List A
  drop zero xs = xs
  drop (suc n) [] = []
  drop (suc n) (x ∷ xs) = drop n xs

module _ {ℓ} {A : Type ℓ} where
  pub List-cases : (xs : List A) → (xs ≡ []) ⊎ ((x : A) × (rest : List A) × (xs ≡ x ∷ rest))
  List-cases [] = inl refl
  List-cases (x ∷ rest) = inr (x, rest, refl)

  pub length-append : (xs ys : List A) → length (xs ++ ys) ≡ length xs + length ys
  length-append [] ys = omega arith
  length-append (x ∷ xs) ys = omega (arith, length-append xs ys)

  pub length-take : (n : ℕ) (xs : List A) → length (take n xs) ≡ min n (length xs)
  length-take zero xs = omega arith
  length-take (suc n) [] = omega arith
  length-take (suc n) (x ∷ xs) = omega (arith, length-take n xs)

  pub take_all : (n : ℕ) (xs : List A) → length xs ≤ n → take n xs ≡ xs
  take_all zero [] h = refl
  take_all zero (x ∷ xs) h = absurd (omega arith)
  take_all (suc n) [] h = refl
  take_all (suc n) (x ∷ xs) h = ap (◌∷◌ x) (take_all n xs (omega arith))

  pub take-drop_append : (n : ℕ) (xs : List A) → take n xs ++ drop n xs ≡ xs
  take-drop_append zero xs = refl
  take-drop_append (suc n) [] = refl
  take-drop_append (suc n) (x ∷ xs) = ap (◌∷◌ x) (take-drop_append n xs)

  pub length-drop : (n : ℕ) (xs : List A) → length (drop n xs) ≡ length xs - n
  length-drop zero xs = omega arith
  length-drop (suc n) [] = omega arith
  length-drop (suc n) (x ∷ xs) = omega (arith, length-drop n xs)

  pub length-set : (xs : List A) (i : ℕ) (v : A) → length (set xs i v) ≡ length xs
  length-set [] i v = refl
  length-set (x ∷ xs) zero v = refl
  length-set (x ∷ xs) (suc i) v = ap suc (length-set xs i v)

  -- Cutting an append exactly at the seam.
  pub take_seam : (xs ys : List A) (n : ℕ) → n ≡ length xs → take n (xs ++ ys) ≡ xs
  take_seam [] ys zero h = refl
  take_seam [] ys (suc n) h = absurd (omega arith)
  take_seam (x ∷ xs) ys zero h = absurd (omega arith)
  take_seam (x ∷ xs) ys (suc n) h = ap (◌∷◌ x) (take_seam xs ys n (omega arith))

  drop_seam : (xs ys : List A) (n : ℕ) → n ≡ length xs → drop n (xs ++ ys) ≡ ys
  drop_seam [] ys zero h = refl
  drop_seam [] ys (suc n) h = absurd (omega arith)
  drop_seam (x ∷ xs) ys zero h = absurd (omega arith)
  drop_seam (x ∷ xs) ys (suc n) h = drop_seam xs ys n (omega arith)

-- A predicate of every item, as nested pairs, which the tactics read and build.
abbrev pub All {ℓ κ} : {A : Type ℓ} → (A → Type κ) → List A → Type κ
All P [] = Unit
All P (x ∷ xs) = P x × All P xs

module _ {ℓ κ} {A : Type ℓ} where
  pub All-map : (P Q : A → Type κ) → ((u : A) → P u → Q u) → (xs : List A) → All P xs → All Q xs
  All-map P Q f [] h = tt
  All-map P Q f (x ∷ xs) (p, h) = (f x p, All-map P Q f xs h)

  pub All-set : (P : A → Type κ) (xs : List A) (i : ℕ) (v : A) → All P xs → P v → All P (set xs i v)
  All-set P [] i v h p = tt
  All-set P (x ∷ xs) zero v (q, h) p = (p, h)
  All-set P (x ∷ xs) (suc i) v (q, h) p = (q, All-set P xs i v h p)

  pub All-get :
      (P : A → Type κ) (xs : List A) (i : ℕ) (t : A) → All P xs → get_elem? xs i ≡ some t → P t
  All-get P [] i t h g = absurd (ground arith)
  All-get P (x ∷ xs) zero t (p, h) g = let same : x ≡ t = ground arith in rw same at p
  All-get P (x ∷ xs) (suc i) t (p, h) g = All-get P xs i t h g

-- The sum of a measure over a list, and what a write does to it.
abbrev pub total {ℓ} : {A : Type ℓ} → (A → ℕ) → List A → ℕ
total f [] = 0
total f (x ∷ xs) = f x + total f xs

module _ {ℓ} {A : Type ℓ} (f : A → ℕ) where
  pub total-set :
      (xs : List A) (i : ℕ) (t v : A)
      → get_elem? xs i ≡ some t
      → total f (set xs i v) + f t ≡ total f xs + f v
  total-set [] i t v h = absurd (ground arith)
  total-set (x ∷ xs) zero t v h = ground arith
  total-set (x ∷ xs) (suc i) t v h = ground (arith, total-set xs i t v h)

  pub total_part : (xs : List A) (i : ℕ) (t : A) → get_elem? xs i ≡ some t → f t ≤ total f xs
  total_part [] i t h = absurd (ground arith)
  total_part (x ∷ xs) zero t h = ground arith
  total_part (x ∷ xs) (suc i) t h = ground (arith, total_part xs i t h)

-- A predicate that holds anew of the item written, and changes for the items that measure nothing,
-- where the item written was the only one that does.
module _ {ℓ κ} {A : Type ℓ} (f : A → ℕ) (P Q : A → Type κ)
    (quiet : (u : A) → P u → f u ≡ 0 → Q u) where
  All_quiet : (xs : List A) → All P xs → total f xs ≡ 0 → All Q xs
  All_quiet [] h n = tt
  All_quiet (x ∷ xs) (p, h) n = (quiet x p (omega arith), All_quiet xs h (omega arith))

  pub All-set_only :
      (xs : List A) (i : ℕ) (t v : A)
      → get_elem? xs i ≡ some t
      → All P xs
      → total f xs ≡ f t
      → Q v
      → All Q (set xs i v)
  All-set_only [] i t v g h n q = absurd (ground arith)
  All-set_only (x ∷ xs) zero t v g (p, h) n q =
      let same : x ≡ t = ground arith in (q, All_quiet xs h (omega (arith, rw same at n)))
  All-set_only (x ∷ xs) (suc i) t v g (p, h) n q =
      let part = total_part f xs i t g in
      (quiet x p (omega arith), All-set_only xs i t v g h (omega arith) q)

module _ {ℓ} {A : Type ℓ} where
  pub get_elem?-set :
      (xs : List A) (i j : ℕ) (t v : A)
      → get_elem? xs i ≡ some t
      → get_elem? (set xs i v) j ≡ (if j == i then some v else get_elem? xs j)
  get_elem?-set [] i j t v h = absurd (ground arith)
  get_elem?-set (x ∷ xs) zero zero t v h = refl
  get_elem?-set (x ∷ xs) zero (suc j) t v h = ground arith
  get_elem?-set (x ∷ xs) (suc i) zero t v h = ground arith
  get_elem?-set (x ∷ xs) (suc i) (suc j) t v h = ground (arith, get_elem?-set xs i j t v h)

  pub get_elem?-append :
      (xs : List A) (x : A) (j : ℕ)
      → get_elem? (xs ++ x ∷ []) j ≡ (if j == length xs then some x else get_elem? xs j)
  get_elem?-append [] x zero = refl
  get_elem?-append [] x (suc j) = ground arith
  get_elem?-append (y ∷ xs) x zero = ground arith
  get_elem?-append (y ∷ xs) x (suc j) = ground (arith, get_elem?-append xs x j)

  pub All-append {κ} : (P : A → Type κ) (xs ys : List A) → All P xs → All P ys → All P (xs ++ ys)
  All-append P [] ys h k = k
  All-append P (x ∷ xs) ys (p, h) k = (p, All-append P xs ys h k)

  -- Past the end there is nothing.
  pub get_elem?-none : (xs : List A) (i : ℕ) → length xs ≤ i → get_elem? xs i ≡ none
  get_elem?-none [] i h = refl
  get_elem?-none (x ∷ xs) zero h = absurd (omega arith)
  get_elem?-none (x ∷ xs) (suc i) h = get_elem?-none xs i (omega arith)
