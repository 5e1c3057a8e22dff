-- ===== src/Prelude/TextMap.antt =====
-- A Go map with string keys, as an association list.
use mathlib.Core.Path.{◌≡◌, refl}
use mathlib.Core.Option.{Option, none, some}
use mathlib.Core.List.{List, [], ◌∷◌}
use native.Mathlib.Omega.{arith}
use pwdtt.Prelude.Tests.{if◌then◌else◌}
use pwdtt.Prelude.Text.{Text, ◌≗◌, ≗_iff}

abbrev pub TextMap {ℓ} : Type ℓ → Type ℓ
TextMap V = List (Text × V)

module _ {ℓ} {V : Type ℓ} where
  unfoldable pub lookup : Text → TextMap V → Option V
  lookup k [] = none
  lookup k ((j, v) ∷ m) = if j ≗ k then some v else lookup k m

  unfoldable pub insert : Text → V → TextMap V → TextMap V
  insert k v [] = (k, v) ∷ []
  insert k v ((j, w) ∷ m) = if j ≗ k then (k, v) ∷ m else (j, w) ∷ insert k v m

  unfoldable pub delete : Text → TextMap V → TextMap V
  delete k [] = []
  delete k ((j, w) ∷ m) = let rest = delete k m in if j ≗ k then rest else (j, w) ∷ rest

  pub lookup-insert :
      (k j : Text) (v : V) (m : TextMap V)
      → lookup j (insert k v m) ≡ (if k ≗ j then some v else lookup j m)
  unfolding lookup insert
  lookup-insert k j v [] = refl
  lookup-insert k j v ((i, w) ∷ m) =
      ground (arith, ≗_iff k j, ≗_iff i k, ≗_iff i j, lookup-insert k j v m)

  pub lookup-delete :
      (k j : Text) (m : TextMap V) → lookup j (delete k m) ≡ (if k ≗ j then none else lookup j m)
  unfolding lookup delete
  lookup-delete k j [] = ground arith
  lookup-delete k j ((i, w) ∷ m) =
      ground (arith, ≗_iff k j, ≗_iff i k, ≗_iff i j, lookup-delete k j m)
