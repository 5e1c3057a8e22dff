-- ===== src/Tests/Entries.antt =====
-- Runs for the registry of backend/vk_hash_manager.go.
use pwdtt.Prelude.{
  ℕ, Bool, true, false, [], ◌∷◌, Option, none, some, ok, err, ◌≡◌, ◌⊎◌, refl, if◌then◌else◌,
}
use pwdtt.Prelude.Text.{Text, codes, ◌≗◌}
use pwdtt.Prelude.TextSet.{mem_text}
use pwdtt.Types.{VkHashEntry}
use pwdtt.VkHash.{HashError, Url, normalize_vk_call_hash}
use pwdtt.Registry.{Registry, ensure_vk_hash_entry, delete_entry}
use pwdtt.Registry.Entries.{IsRegistry, entry_of}
use pwdtt.Registry.Operations.{Ensured, ensure_vk_hash_entry-Ensured}
use pwdtt.Registry.Removal.{delete_entry_lem, unpooled}

abbrev entry : ℕ → Text → Bool → VkHashEntry
entry i h pooled = record {
  id = i ∷ [];
  hash = h;
  source = codes "manual";
  in_pool = pooled;
  created_at = 1;
  checks = [];
  used_by = [];
}

abbrev first : VkHashEntry
first = entry 1 (codes "abcdefghijkl_-09") true

abbrev second : VkHashEntry
second = entry 2 (codes "ABCDEFGHIJKL_-09") false

abbrev two_entries : Registry
two_entries = first ∷ second ∷ []

two_entries-IsRegistry : IsRegistry two_entries
unfolding mem_text ◌≗◌
two_entries-IsRegistry = record { hashes = (refl, (refl, tt)); ids = (refl, (refl, tt)) }

abbrev no_url : Text → Option Url
no_url t = none

ensure_vk_hash_entry-Ensured_example :
    ((why : HashError) × (normalize_vk_call_hash no_url first.hash ≡ err why)
      × (ensure_vk_hash_entry no_url (3 ∷ []) 7 two_entries first.hash [] true ≡ err why))
    ⊎ ((hash : Text) × (e : VkHashEntry) × (created : Bool) × (r' : Registry)
        × (normalize_vk_call_hash no_url first.hash ≡ ok hash)
        × (ensure_vk_hash_entry no_url (3 ∷ []) 7 two_entries first.hash [] true
            ≡ ok (e, created, r'))
        × Ensured hash (3 ∷ []) [] 7 true two_entries e created r')
ensure_vk_hash_entry-Ensured_example =
    ensure_vk_hash_entry-Ensured no_url (3 ∷ []) 7 first.hash [] true two_entries

delete_entry_lem_example :
    ((entry_of two_entries (1 ∷ []) ≡ none) × (delete_entry no_url [] (1 ∷ []) two_entries ≡ none))
    ⊎ ((e : VkHashEntry) × (r' : Registry) × (entry_of two_entries (1 ∷ []) ≡ some e)
        × (delete_entry no_url [] (1 ∷ []) two_entries ≡ some r')
        × IsRegistry r'
        × ((j : Text)
            → entry_of r' j
              ≡ (if (1 ∷ []) ≗ j then unpooled no_url [] e else entry_of two_entries j)))
delete_entry_lem_example = delete_entry_lem no_url [] (1 ∷ []) two_entries two_entries-IsRegistry
