-- ===== src/Registry/Removal.antt =====
-- Deleting an entry and cleaning up an orphan: what leaves the registry, and what stays.
use pwdtt.Prelude.{
  ℕ, suc, true, false, Bool-cases, Option-cases, [], ◌∷◌, Option, none, some, ◌≡◌, ◌≢◌, ◌⊎◌, refl,
  inl, inr, sym, ◌∙◌, arith, get_elem?, set, if◌then◌else◌,
}
use pwdtt.Prelude.Text.{Text, ◌≗◌, ≗_iff}
use pwdtt.Prelude.TextMap.{TextMap}
use pwdtt.Types.{VkHashEntry, ProfileData}
use pwdtt.VkHash.{Url}
use pwdtt.Registry.{
  Registry, find_index, find_vk_hash_by_id, remove_at, no_profile, profiles_using, delete_entry,
  cleanup_orphan,
}
use pwdtt.Registry.Entries.{
  entry_of, IsRegistry, find_by_id_entry, find_by_id_none, entry_of-set, entry_of-remove_at,
}
use pwdtt.Registry.Lists.{find_index-some, map-set_same, Distinct-remove_at}

pub find_by_id_some :
    (r : Registry) (id : Text) (i : ℕ)
    → find_vk_hash_by_id r id ≡ some i
    → (e : VkHashEntry) × (get_elem? r i ≡ some e) × (e.id ≡ id) × (entry_of r id ≡ some e)
unfolding find_vk_hash_by_id
find_by_id_some r id i h =
    let (e, at, same) = find_index-some (λ e. e.id ≗ id) r i h in
    (e, at, (≗_iff e.id id).0 same, sym (find_by_id_entry r id i h) ∙ at)

set-IsRegistry :
    (r : Registry) (i : ℕ) (e e' : VkHashEntry)
    → get_elem? r i ≡ some e
    → e'.id ≡ e.id
    → e'.hash ≡ e.hash
    → IsRegistry r
    → IsRegistry (set r i e')
set-IsRegistry r i e e' at same_id same_hash g = record {
  hashes = rw (map-set_same (λ x. x.hash) r i e e' at same_hash) g.hashes;
  ids = rw (map-set_same (λ x. x.id) r i e e' at same_id) g.ids;
}

remove_at-IsRegistry : (r : Registry) (i : ℕ) → IsRegistry r → IsRegistry (remove_at r i)
remove_at-IsRegistry r i g = record {
  hashes = Distinct-remove_at (λ x. x.hash) r i g.hashes;
  ids = Distinct-remove_at (λ x. x.id) r i g.ids;
}

-- The position of an identifier, after the entry there was replaced by one of the same identifier.
pub find_by_id-set :
    (r : Registry) (id : Text) (i : ℕ) (e' : VkHashEntry)
    → find_vk_hash_by_id r id ≡ some i
    → e'.id ≡ id
    → find_vk_hash_by_id (set r i e') id ≡ some i
unfolding find_vk_hash_by_id
find_by_id-set [] id i e' h same = h
find_by_id-set (e ∷ r) id i e' h same = elim (Bool-cases (e.id ≗ id)) [
  | inl here ↦ let at : i ≡ 0 = ground arith in rw at (ground (arith, ≗_iff e'.id id))
  | inr other ↦ elim (Option-cases (find_index (λ x. x.id ≗ id) r)) [
    | inl nowhere ↦ absurd (ground arith)
    | inr (k, later) ↦
        let at : i ≡ suc k = ground arith in
        rw (at, other, find_by_id-set r id k e' later same) refl
  ]
]

-- What is left of an entry that is taken out of the pool: nothing, if no profile uses it.
unfoldable pub unpooled :
    (Text → Option Url) → TextMap ProfileData → VkHashEntry → Option VkHashEntry
unpooled parse_url profiles e =
    let e' = record e { in_pool = false } in
    if no_profile (profiles_using parse_url e' profiles) then none else some e'

-- `DeleteVKHash` of an identifier that is not in the registry is refused. Otherwise the entry is
-- removed if no profile uses it outside the pool, and stays outside the pool if one does; every
-- other identifier keeps its entry, and no duplicates arise.
pub delete_entry_lem :
    (parse_url : Text → Option Url) (profiles : TextMap ProfileData) (id : Text) (r : Registry)
    → IsRegistry r
    → ((entry_of r id ≡ none) × (delete_entry parse_url profiles id r ≡ none))
      ⊎ ((e : VkHashEntry) × (r' : Registry) × (entry_of r id ≡ some e)
          × (delete_entry parse_url profiles id r ≡ some r')
          × IsRegistry r'
          × ((j : Text)
              → entry_of r' j ≡ (if id ≗ j then unpooled parse_url profiles e else entry_of r j)))
unfolding delete_entry unpooled
delete_entry_lem parse_url profiles id r g = elim (Option-cases (find_vk_hash_by_id r id)) [
  | inl nowhere ↦ inl (find_by_id_none r id nowhere, ground arith)
  | inr (i, found) ↦
      let (e, at, same, known) = find_by_id_some r id i found in
      let e' : VkHashEntry = record e { in_pool = false } in
      let kept = set-IsRegistry r i e e' at refl refl g in
      let found' = find_by_id-set r id i e' found same in
      elim (Bool-cases (no_profile (profiles_using parse_url e' profiles))) [
        | inl orphan ↦ inr (
          e,
          remove_at (set r i e') i,
          known,
          ground arith,
          remove_at-IsRegistry (set r i e') i kept,
          λ j.
              entry_of-remove_at (set r i e') id j i kept.ids found'
              ∙ ground (arith, entry_of-set r id j i e' found same),
        )
        | inr used ↦ inr (
          e,
          set r i e',
          known,
          ground arith,
          kept,
          λ j. ground (arith, entry_of-set r id j i e' found same),
        )
      ]
]

-- `cleanupOrphanVKHash` writes nothing for an entry that is unknown, in the pool, or used by a
-- profile. Otherwise it removes that entry and leaves all others, without duplicates.
pub cleanup_orphan_lem :
    (parse_url : Text → Option Url) (profiles : TextMap ProfileData) (id : Text) (r : Registry)
    → IsRegistry r
    → ((entry_of r id ≡ none) × (cleanup_orphan parse_url profiles id r ≡ none))
      ⊎ ((e : VkHashEntry) × (entry_of r id ≡ some e)
          × ((e.in_pool ≡ true) ⊎ (profiles_using parse_url e profiles ≢ []))
          × (cleanup_orphan parse_url profiles id r ≡ none))
      ⊎ ((e : VkHashEntry) × (r' : Registry) × (entry_of r id ≡ some e)
          × (e.in_pool ≡ false)
          × (profiles_using parse_url e profiles ≡ [])
          × (cleanup_orphan parse_url profiles id r ≡ some r')
          × IsRegistry r'
          × ((j : Text) → entry_of r' j ≡ (if id ≗ j then none else entry_of r j)))
unfolding cleanup_orphan
cleanup_orphan_lem parse_url profiles id r g = elim (Option-cases (find_vk_hash_by_id r id)) [
  | inl nowhere ↦ inl (find_by_id_none r id nowhere, ground arith)
  | inr (i, found) ↦
      let (e, at, same, known) = find_by_id_some r id i found in
      elim (Bool-cases e.in_pool) [
        | inl pooled ↦ inr (inl (e, known, inl pooled, ground arith))
        | inr out ↦ elim (Bool-cases (no_profile (profiles_using parse_url e profiles))) [
          | inr used ↦ inr (inl (e, known, inr (λ z. ground arith), ground arith))
          | inl orphan ↦ inr (
              inr (
                e,
                remove_at r i,
                known,
                out,
                ground arith,
                ground arith,
                remove_at-IsRegistry r i g,
                λ j. entry_of-remove_at r id j i g.ids found,
              ))
        ]
      ]
]
