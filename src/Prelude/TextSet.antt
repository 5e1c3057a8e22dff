-- ===== src/Prelude/TextSet.antt =====
-- A `map[string]struct{}` is a list of its keys; lists of texts without duplicates.
use mathlib.Core.Path.{◌≡◌, refl, sym, ◌∙◌}
use mathlib.Core.Logic.{inl, inr}
use mathlib.Core.Bool.{Bool, true, false, ◌||◌}
use mathlib.Core.List.{List, [], ◌∷◌, ◌++◌, append_assoc, append-nil}
use native.Mathlib.Omega.{arith}
use pwdtt.Prelude.Tests.{if◌then◌else◌, Bool-cases}
use pwdtt.Prelude.Lists.{All}
use pwdtt.Prelude.Text.{Text, ◌≗◌, ≗_iff, ≗_refl}

unfoldable pub mem_text : Text → List Text → Bool
mem_text x [] = false
mem_text x (y ∷ ys) = x ≗ y || mem_text x ys

pub mem_text-append :
    (x : Text) (ys zs : List Text) → mem_text x (ys ++ zs) ≡ (mem_text x ys || mem_text x zs)
unfolding mem_text
mem_text-append x [] zs = refl
mem_text-append x (y ∷ ys) zs = ground (arith, mem_text-append x ys zs)

mem_text-last : (x : Text) (ys : List Text) → mem_text x (ys ++ x ∷ []) ≡ true
unfolding mem_text
mem_text-last x [] = rw (≗_refl x)
mem_text-last x (y ∷ ys) = ground (arith, mem_text-last x ys)

-- No text twice.
abbrev pub Distinct : List Text → Type 0
Distinct [] = Unit
Distinct (x ∷ xs) = (mem_text x xs ≡ false) × Distinct xs

pub Distinct-concat :
    (xs : List Text) (x : Text) → Distinct xs → mem_text x xs ≡ false → Distinct (xs ++ x ∷ [])
unfolding mem_text
Distinct-concat [] x d h = (refl, tt)
Distinct-concat (y ∷ xs) x d h = (
  ground (arith, mem_text-append y xs (x ∷ []), ≗_iff x y, ≗_iff y x),
  Distinct-concat xs x d.1 (ground arith),
)

-- Every text of the first list is in the second.
abbrev pub Within : List Text → List Text → Type 0
Within xs ys = (t : Text) → mem_text t xs ≡ true → mem_text t ys ≡ true

-- The loop of `uniqueVKHashes`: the seen map holds what `result` holds.
unfoldable pub unique_onto : List Text → List Text → List Text
unique_onto result [] = result
unique_onto result (v ∷ vs) =
    unique_onto (if mem_text v result then result else result ++ v ∷ []) vs

pub unique_onto-Distinct :
    (result vs : List Text) → Distinct result → Distinct (unique_onto result vs)
unfolding unique_onto
unique_onto-Distinct result [] d = d
unique_onto-Distinct result (v ∷ vs) d = elim (Bool-cases (mem_text v result)) [
  | inl old ↦ rw old (unique_onto-Distinct result vs d)
  | inr new ↦ rw new (unique_onto-Distinct (result ++ v ∷ []) vs (Distinct-concat result v d new))
]

-- The members are those of both lists.
pub mem_text-unique_onto :
    (t : Text) (result vs : List Text)
    → mem_text t (unique_onto result vs) ≡ (mem_text t result || mem_text t vs)
unfolding unique_onto mem_text
mem_text-unique_onto t result [] = ground arith
mem_text-unique_onto t result (v ∷ vs) = elim (Bool-cases (mem_text v result)) [
  | inl old ↦ rw old (ground (arith, mem_text-unique_onto t result vs, ≗_iff t v))
  | inr new ↦ rw new (
      ground
        (arith, mem_text-unique_onto t (result ++ v ∷ []) vs, mem_text-append t result (v ∷ [])))
]

All-concat : (P : Text → Type 0) (xs : List Text) (x : Text) → All P xs → P x → All P (xs ++ x ∷ [])
All-concat P [] x h p = (p, tt)
All-concat P (y ∷ xs) x (q, h) p = (q, All-concat P xs x h p)

pub unique_onto-All :
    (P : Text → Type 0) (result vs : List Text)
    → All P result
    → All P vs
    → All P (unique_onto result vs)
unfolding unique_onto
unique_onto-All P result [] h k = h
unique_onto-All P result (v ∷ vs) h (p, k) = elim (Bool-cases (mem_text v result)) [
  | inl old ↦ rw old (unique_onto-All P result vs h k)
  | inr new ↦ rw new (unique_onto-All P (result ++ v ∷ []) vs (All-concat P result v h p) k)
]

Distinct-middle :
    (xs : List Text) (v : Text) (vs : List Text) → Distinct (xs ++ v ∷ vs) → mem_text v xs ≡ false
unfolding mem_text
Distinct-middle [] v vs d = refl
Distinct-middle (x ∷ xs) v vs (apart, d) =
    ground
      (arith, mem_text-append x xs (v ∷ vs), apart, Distinct-middle xs v vs d, ≗_iff v x, ≗_iff x v)

-- Texts that differ from each other and from those before are all kept.
pub unique_onto_new :
    (result vs : List Text) → Distinct (result ++ vs) → unique_onto result vs ≡ result ++ vs
unfolding unique_onto
unique_onto_new result [] d = sym (append-nil result)
unique_onto_new result (v ∷ vs) d = rw (Distinct-middle result v vs d) (
    unique_onto_new (result ++ v ∷ []) vs (rw (← append_assoc result (v ∷ []) vs) at d)
    ∙ append_assoc result (v ∷ []) vs)
