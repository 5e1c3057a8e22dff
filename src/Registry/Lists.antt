-- ===== src/Registry/Lists.antt =====
-- Positions in lists: finding, replacing and removing an item.
use pwdtt.Prelude.{
  ℕ, zero, suc, Bool, true, false, Bool-cases, Option-cases, List, [], ◌∷◌, map, some, ◌≡◌, refl,
  inl, inr, ap, ◌∙◌, arith, get_elem?, set,
}
use pwdtt.Prelude.Text.{Text}
use pwdtt.Prelude.TextSet.{mem_text, Distinct}
use pwdtt.Registry.{find_index, remove_at}

module _ {ℓ} {A : Type ℓ} where
  pub find_index-some :
      (p : A → Bool) (xs : List A) (i : ℕ)
      → find_index p xs ≡ some i
      → (x : A) × (get_elem? xs i ≡ some x) × (p x ≡ true)
  unfolding find_index
  find_index-some p [] i h = absurd (ground arith)
  find_index-some p (x ∷ xs) i h = elim (Bool-cases (p x)) [
    | inl here ↦ (x, ground arith, here)
    | inr not_here ↦ elim (Option-cases (find_index p xs)) [
      | inl nowhere ↦ absurd (ground arith)
      | inr (j, later) ↦
          let (y, at, good) = find_index-some p xs j later in
          let e : i ≡ suc j = ground arith in (y, rw e at, good)
    ]
  ]

  pub map-set_same {κ} :
      {B : Type κ} (f : A → B) (xs : List A) (i : ℕ) (x y : A)
      → get_elem? xs i ≡ some x
      → f y ≡ f x
      → map f (set xs i y) ≡ map f xs
  map-set_same f [] i x y h e = refl
  map-set_same f (z ∷ xs) zero x y h e = ap (λ t. t ∷ map f xs) (e ∙ ap f (ground arith))
  map-set_same f (z ∷ xs) (suc i) x y h e = ap (◌∷◌ (f z)) (map-set_same f xs i x y h e)

  mem_text-remove_at :
      (f : A → Text) (t : Text) (xs : List A) (i : ℕ)
      → mem_text t (map f xs) ≡ false
      → mem_text t (map f (remove_at xs i)) ≡ false
  unfolding mem_text remove_at
  mem_text-remove_at f t [] i h = refl
  mem_text-remove_at f t (x ∷ xs) zero h = ground arith
  mem_text-remove_at f t (x ∷ xs) (suc i) h = ground (arith, mem_text-remove_at f t xs i)

  pub Distinct-remove_at :
      (f : A → Text) (xs : List A) (i : ℕ) → Distinct (map f xs) → Distinct (map f (remove_at xs i))
  unfolding remove_at
  Distinct-remove_at f [] i d = d
  Distinct-remove_at f (x ∷ xs) zero d = d.1
  Distinct-remove_at f (x ∷ xs) (suc i) d =
      (mem_text-remove_at f (f x) xs i d.0, Distinct-remove_at f xs i d.1)
