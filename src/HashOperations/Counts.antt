-- ===== src/HashOperations/Counts.antt =====
-- How many callers own a call for a key.
use pwdtt.Prelude.{
  ℕ, zero, suc, ◌+◌, ◌≤◌, ◌<◌, Bool-cases, List, [], ◌∷◌, some, ◌≡◌, ◌⊎◌, inl, inr, refl, arith,
  get_elem?, set, All, if◌then◌else◌,
}
use pwdtt.Prelude.Text.{Text, ◌≗◌, ≗_iff}
use pwdtt.HashOperations.{Caller, Phase, entering, waiting, leading, probing, closing, returned}

abbrev pub owned : Phase → ℕ
owned entering = 0
owned (waiting c) = 0
owned (leading c) = 1
owned (probing c) = 1
owned (closing c out) = 1
owned (returned out) = 0

unfoldable pub owns : Text → Caller → ℕ
owns key t = if t.key ≗ key then owned t.phase else 0

unfoldable pub owners : Text → List Caller → ℕ
owners key [] = 0
owners key (t ∷ ts) = owns key t + owners key ts

pub owners-set :
    (key : Text) (ts : List Caller) (i : ℕ) (t v : Caller)
    → get_elem? ts i ≡ some t
    → owners key (set ts i v) + owns key t ≡ owners key ts + owns key v
unfolding owners
owners-set key [] i t v h = absurd (ground arith)
owners-set key (x ∷ ts) zero t v h = ground arith
owners-set key (x ∷ ts) (suc i) t v h = ground (arith, owners-set key ts i t v)

owns-owners :
    (key : Text) (ts : List Caller) (i : ℕ) (t : Caller)
    → get_elem? ts i ≡ some t
    → owns key t ≤ owners key ts
unfolding owners
owns-owners key [] i t h = absurd (ground arith)
owns-owners key (x ∷ ts) zero t h = ground arith
owns-owners key (x ∷ ts) (suc i) t h = ground (arith, owns-owners key ts i t)

-- A predicate that changes for callers which do not own the key.
module _ (key : Text) (P Q : Caller → Type 0)
    (change : (u : Caller) → P u → owns key u ≡ 0 → Q u) where
  All-quiet : (ts : List Caller) → All P ts → owners key ts ≡ 0 → All Q ts
  unfolding owners
  All-quiet [] h n = tt
  All-quiet (x ∷ ts) (p, h) n = (change x p (omega arith), All-quiet ts h (omega arith))

  pub All-set_owner :
      (ts : List Caller) (i : ℕ) (t v : Caller)
      → get_elem? ts i ≡ some t
      → All P ts
      → owns key t ≡ 1
      → owners key ts ≡ 1
      → Q v
      → All Q (set ts i v)
  unfolding owners
  All-set_owner [] i t v g h o n q = absurd (ground arith)
  All-set_owner (x ∷ ts) zero t v g (p, h) o n q =
      let same : x ≡ t = ground arith in (q, All-quiet ts h (omega (arith, rw same at n, o)))
  All-set_owner (x ∷ ts) (suc i) t v g (p, h) o n q =
      let some_left = owns-owners key ts i t g in
      (change x p (omega arith), All-set_owner ts i t v g h o (omega arith) q)

owned_cases : (p : Phase) → (owned p ≡ 0) ⊎ (owned p ≡ 1)
owned_cases entering = inl refl
owned_cases (waiting c) = inl refl
owned_cases (leading c) = inr refl
owned_cases (probing c) = inr refl
owned_cases (closing c out) = inr refl
owned_cases (returned out) = inl refl

-- If someone owns the key, some caller does.
pub find_owner :
    (key : Text) (ts : List Caller)
    → 0 < owners key ts
    → (i : ℕ) × (t : Caller) × (get_elem? ts i ≡ some t) × (t.key ≡ key) × (owned t.phase ≡ 1)
unfolding owners owns
find_owner key [] h = absurd (ground arith)
find_owner key (t ∷ ts) h = elim (Bool-cases (t.key ≗ key)) [
  | inl same ↦ elim (owned_cases t.phase) [
    | inr own ↦ (0, t, refl, (≗_iff t.key key).0 same, own)
    | inl free ↦ let (i, u, at, k, own) = find_owner key ts (ground arith) in (suc i, u, at, k, own)
  ]
  | inr other ↦ let (i, u, at, k, own) = find_owner key ts (ground arith) in (suc i, u, at, k, own)
]
