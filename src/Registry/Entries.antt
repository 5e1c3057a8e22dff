-- ===== src/Registry/Entries.antt =====
-- The registry as a map from identifiers to entries, and what each operation does to that map.
use pwdtt.Prelude.{
  ℕ, suc, false, Bool-cases, Option-cases, List, [], ◌∷◌, map, Option, none, some, ◌≡◌, refl, inl,
  inr, arith, get_elem?, set, if◌then◌else◌,
}
use pwdtt.Prelude.Text.{Text, ◌≗◌, ≗_iff}
use pwdtt.Prelude.TextSet.{mem_text, Distinct}
use pwdtt.Types.{VkHashEntry}
use pwdtt.Registry.{Registry, find_index, find_vk_hash_by_id, remove_at}

abbrev pub hashes_of : Registry → List Text
hashes_of = map (λ e. e.hash)

abbrev pub ids_of : Registry → List Text
ids_of = map (λ e. e.id)

-- The entry of an identifier.
unfoldable pub entry_of : Registry → Text → Option VkHashEntry
entry_of [] id = none
entry_of (e ∷ r) id = if e.id ≗ id then some e else entry_of r id

-- No hash and no identifier twice.
pub record IsRegistry (r : Registry) : Type 0 where
  pub hashes : Distinct (hashes_of r)
  pub ids : Distinct (ids_of r)

pub find_none_mem :
    (f : VkHashEntry → Text) (r : Registry) (t : Text)
    → find_index (λ e. f e ≗ t) r ≡ none
    → mem_text t (map f r) ≡ false
unfolding find_index mem_text
find_none_mem f [] t h = refl
find_none_mem f (e ∷ r) t h = elim (Option-cases (find_index (λ e. f e ≗ t) r)) [
  | inl nowhere ↦ ground (arith, find_none_mem f r t, ≗_iff t (f e), ≗_iff (f e) t)
  | inr (i, somewhere) ↦ absurd (ground arith)
]

-- The position that is found holds the entry of the identifier.
pub find_by_id_entry :
    (r : Registry) (id : Text) (i : ℕ)
    → find_vk_hash_by_id r id ≡ some i
    → get_elem? r i ≡ entry_of r id
unfolding find_vk_hash_by_id entry_of
find_by_id_entry [] id i h = refl
find_by_id_entry (e ∷ r) id i h = elim (Bool-cases (e.id ≗ id)) [
  | inl here ↦ ground arith
  | inr other ↦ elim (Option-cases (find_index (λ e. e.id ≗ id) r)) [
    | inl nowhere ↦ absurd (ground arith)
    | inr (j, later) ↦
        let at : i ≡ suc j = ground arith in rw (at, other) (find_by_id_entry r id j later)
  ]
]

pub find_by_id_none :
    (r : Registry) (id : Text) → find_vk_hash_by_id r id ≡ none → entry_of r id ≡ none
unfolding find_vk_hash_by_id entry_of
find_by_id_none [] id h = refl
find_by_id_none (e ∷ r) id h = elim (Option-cases (find_index (λ e. e.id ≗ id) r)) [
  | inl nowhere ↦ ground (arith, find_by_id_none r id)
  | inr (j, later) ↦ absurd (ground arith)
]

pub entry_of-set :
    (r : Registry) (id j : Text) (i : ℕ) (e' : VkHashEntry)
    → find_vk_hash_by_id r id ≡ some i
    → e'.id ≡ id
    → entry_of (set r i e') j ≡ (if id ≗ j then some e' else entry_of r j)
unfolding find_vk_hash_by_id entry_of
entry_of-set [] id j i e' h same = absurd (ground arith)
entry_of-set (e ∷ r) id j i e' h same = elim (Bool-cases (e.id ≗ id)) [
  | inl here ↦
      let at : i ≡ 0 = ground arith in
      rw at (ground (arith, ≗_iff e.id id, ≗_iff e.id j, ≗_iff id j, ≗_iff e'.id j))
  | inr other ↦ elim (Option-cases (find_index (λ e. e.id ≗ id) r)) [
    | inl nowhere ↦ absurd (ground arith)
    | inr (k, later) ↦
        let at : i ≡ suc k = ground arith in
        rw (at, entry_of-set r id j k e' later same)
          (ground (arith, ≗_iff e.id id, ≗_iff e.id j, ≗_iff id j))
  ]
]

entry_of_unknown :
    (r : Registry) (id : Text) → mem_text id (ids_of r) ≡ false → entry_of r id ≡ none
unfolding entry_of mem_text
entry_of_unknown [] id h = refl
entry_of_unknown (e ∷ r) id h = ground (arith, entry_of_unknown r id, ≗_iff id e.id, ≗_iff e.id id)

pub entry_of-remove_at :
    (r : Registry) (id j : Text) (i : ℕ)
    → Distinct (ids_of r)
    → find_vk_hash_by_id r id ≡ some i
    → entry_of (remove_at r i) j ≡ (if id ≗ j then none else entry_of r j)
unfolding find_vk_hash_by_id entry_of remove_at
entry_of-remove_at [] id j i d h = absurd (ground arith)
entry_of-remove_at (e ∷ r) id j i d h = elim (Bool-cases (e.id ≗ id)) [
  | inl here ↦
      let at : i ≡ 0 = ground arith in
      rw at (ground (arith, ≗_iff e.id id, ≗_iff e.id j, ≗_iff id j, d.0, entry_of_unknown r j))
  | inr other ↦ elim (Option-cases (find_index (λ e. e.id ≗ id) r)) [
    | inl nowhere ↦ absurd (ground arith)
    | inr (k, later) ↦
        let at : i ≡ suc k = ground arith in
        rw (at, entry_of-remove_at r id j k d.1 later)
          (ground (arith, ≗_iff e.id id, ≗_iff e.id j, ≗_iff id j))
  ]
]
