-- ===== src/Backend/Replace.antt =====
-- `replaceVKHashWithContext`: a new hash is generated, checked, put in the old one's places, and
-- the old entry is removed if nothing uses it any more.
use pwdtt.Prelude.{
  ℕ, Bool, true, false, not, ◌&&◌, List, [], ◌∷◌, Option, none, some, ok, err, if◌then◌else◌,
  get_elem?, set,
}
use pwdtt.Prelude.Text.{Text, codes, ◌≗◌}
use pwdtt.Prelude.TextMap.{TextMap}
use pwdtt.Types.{VkHashEntry, ProfileData}
use pwdtt.VkHash.{Url, normalize_vk_call_hash}
use pwdtt.VkHash.Generate.{VkClient, generate_vk_hashes}
use pwdtt.Registry.{
  Registry, find_vk_hash_by_id, ensure_vk_hash_entry, profiles_using, no_profile, remove_at,
  cleanup_orphan,
}
use pwdtt.Registry.Entries.{hashes_of}
use pwdtt.Backend.{
  Env, M, ◌>>=◌, ◌>>◌, pure, fail, lift_hash, load_registry, save_registry, get_profiles,
  load_profile, save_profile, sanitize_profile_name, list_vk_hashes, first_with_id, vk_hash_entry,
  bad_profile_name, canceled, not_found, vk_busy, generation_failed, not_valid, registry_changed,
  not_used,
}
use pwdtt.Backend.Checks.{ProbeResult, check_vk_hash_coordinated, status_valid, status_canceled}

-- What happens around one replacement: whether the context has ended at its three tests, whether
-- another VK operation runs, the VK client, the new identifier, and the probe of the new hash.
pub record Replacement : Type 0 where
  pub ended : ℕ → Bool
  pub busy : Bool
  pub client : VkClient
  pub new_id : Text
  pub probe : Option ProbeResult

abbrev test_context : Replacement → ℕ → M (Unit {0})
test_context x n = if x.ended n then fail canceled else pure tt

-- Errors of the clean-up are not reported.
unfoldable pub cleanup_orphan_vk_hash : Env → Text → M (Unit {0})
cleanup_orphan_vk_hash env id b =
    if not b.readable
    then (ok tt, b)
    else elim (cleanup_orphan env.parse_url b.profiles id b.registry) [
      | none ↦ (ok tt, b)
      | some r ↦ (ok tt, if b.writable then record b { registry = r } else b)
    ]

-- The steps before the new entry: the old entry, and one new hash. Identifiers are distinct, so the
-- first entry of the old one is the one that the source's loop keeps.
unfoldable generate_replacement : Env → Replacement → Text → Text → M (VkHashEntry × Text)
generate_replacement env x name id = if name ≗ [] then fail bad_profile_name else do
  test_context x 0
  entries ← list_vk_hashes env
  old ← elim (first_with_id id entries) [ none ↦ fail not_found | some e ↦ pure e ]
  (if x.busy then fail vk_busy else pure tt)
  let (generated, failed) = generate_vk_hashes x.client 1 (hashes_of entries)
  elim failed [
    | some e ↦ fail generation_failed
    | none ↦ elim generated [
      | fresh ∷ [] ↦ do test_context x 1; pure (old, fresh)
      | _ ↦ fail generation_failed
    ]
  ]

unfoldable add_generated : Env → Replacement → Text → M VkHashEntry
add_generated env x fresh = do
  r ← load_registry
  (e, created, r') ←
      lift_hash
        (ensure_vk_hash_entry env.parse_url x.new_id env.now_ms r fresh (codes "generated") false)
  save_registry r'
  pure e

-- The check of the new hash; a hash that fails it is cleaned up again.
unfoldable check_replacement : Env → Replacement → Text → VkHashEntry → M (Unit {0})
check_replacement env x name e b =
    let (checked, b') = check_vk_hash_coordinated env x.probe e.id name b in
    elim checked [
      | err why ↦ (cleanup_orphan_vk_hash env e.id >> fail why) b'
      | ok result ↦
          if not (result.status ≗ status_valid)
          then (cleanup_orphan_vk_hash env e.id
                >> fail (if result.status ≗ status_canceled then canceled else not_valid))
              b'
          else if x.ended 2
          then (cleanup_orphan_vk_hash env e.id >> fail canceled) b'
          else (ok tt, b')
    ]

-- The profile's hashes with every form of the old one replaced, and whether there was one.
unfoldable replace_hashes : (Text → Option Url) → Text → Text → List Text → List Text × Bool
replace_hashes parse_url old fresh [] = ([], false)
replace_hashes parse_url old fresh (raw ∷ rest) =
    let (others, found) = replace_hashes parse_url old fresh rest in
    elim (normalize_vk_call_hash parse_url raw) [
      | err e ↦ (raw ∷ others, found)
      | ok h ↦ if h ≗ old then (fresh ∷ others, true) else (raw ∷ others, found)
    ]

-- A profile that cannot be loaded is passed over.
unfoldable replace_locally : Env → Text → Text → Text → M Bool
unfolding replace_hashes
replace_locally env name old fresh b =
    let (loaded, b') = load_profile env name b in
    elim loaded [
      | err e ↦ (ok false, b')
      | ok p ↦
          let (hashes, found) = replace_hashes env.parse_url old fresh p.hashes in
          if found
          then (save_profile env name (record p { hashes = hashes }) >> pure true) b'
          else (ok false, b')
    ]

-- The registry with the old entry's place in the pool given to the new one.
unfoldable swap_pool : Registry → ℕ → VkHashEntry → ℕ → VkHashEntry → Registry
swap_pool r i old j new =
    if old.in_pool
    then set (set r i (record old { in_pool = false })) j (record new { in_pool = true })
    else r

-- Whether the old entry is outside the pool and used by no profile.
unfoldable is_unused : Env → TextMap ProfileData → Option VkHashEntry → Bool
is_unused env profiles none = false
is_unused env profiles (some e) =
    not e.in_pool && no_profile (profiles_using env.parse_url e profiles)

unfoldable replace_in_registry : Env → Text → Text → M Bool
unfolding swap_pool is_unused
replace_in_registry env old_id new_id = do
  r ← load_registry
  profiles ← get_profiles
  elim (find_vk_hash_by_id r old_id) [
    | none ↦ fail registry_changed
    | some i ↦ elim (find_vk_hash_by_id r new_id) [
      | none ↦ fail registry_changed
      | some j ↦ elim (get_elem? r i) [
        | none ↦ fail registry_changed
        | some old ↦ elim (get_elem? r j) [
          | none ↦ fail registry_changed
          | some new ↦
              let swapped = swap_pool r i old j new in
              let unused = is_unused env profiles (get_elem? swapped i) in
              save_registry (if unused then remove_at swapped i else swapped) >> pure old.in_pool
        ]
      ]
    ]
  ]

unfoldable pub replace_vk_hash_with_context : Env → Replacement → Text → Text → M VkHashEntry
unfolding generate_replacement add_generated check_replacement replace_locally replace_in_registry
replace_vk_hash_with_context env x id raw_name =
    let name = sanitize_profile_name env raw_name in
    do
      (old, fresh) ← generate_replacement env x name id
      e ← add_generated env x fresh
      check_replacement env x name e
      locally ← replace_locally env name old.hash e.hash
      pooled ← replace_in_registry env old.id e.id
      if not locally && not pooled then fail not_used else vk_hash_entry env e.id
