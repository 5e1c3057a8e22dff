-- ===== src/Backend/Checks.antt =====
-- Checks of hashes: freshness of a stored check, and a probe with its result stored.
pub mod Stored
use pwdtt.Prelude.{
  ℕ, ◌+◌, ◌*◌, ◌-◌, ◌≤◌, ◌<◌, Bool, true, false, not, ◌&&◌, ◌||◌, Bool-cases, Option-cases, List,
  [], ◌∷◌, Option, none, some, Result, ok, err, ltb, leb, ◌==◌, if◌then◌else◌, get_elem?, set, ◌≡◌,
  ◌≢◌, ◌⊎◌, inl, inr, refl, arith,
}
use pwdtt.Prelude.Text.{Text, codes, ◌≗◌, ≗_iff}
use pwdtt.Prelude.TextMap.{TextMap, lookup, insert, lookup-insert}
use pwdtt.Types.{VkHashCheck, VkHashEntry, VkHashCheckResult, ProfileData}
use pwdtt.Registry.{Registry, find_vk_hash_by_id}
use pwdtt.Backend.{
  Env, Backend, BackendError, M, ◌>>=◌, ◌>>◌, pure, fail, load_registry, save_registry,
  load_profile, sanitize_profile_name, unreadable, not_found, connection_active, canceled,
  bad_profile_name,
}

abbrev pub status_valid : Text
status_valid = codes "valid"

abbrev pub status_invalid : Text
status_invalid = codes "invalid"

abbrev pub status_error : Text
status_error = codes "error"

abbrev pub status_canceled : Text
status_canceled = codes "canceled"

-- `time.Duration` counts nanoseconds: 4 hours, and 5 minutes for a check that ended in an error.
abbrev check_ttl : ℕ
check_ttl = 14_400_000_000_000

abbrev error_ttl : ℕ
error_ttl = 300_000_000_000

-- `now` in nanoseconds.
unfoldable pub is_vk_hash_check_fresh : VkHashCheck → ℕ → Bool
is_vk_hash_check_fresh check now =
    let checked_at = check.checked_at * 1_000_000 in
    let ttl = if check.status ≗ status_error then error_ttl else check_ttl in
    if leb check.checked_at 0
    then false
    else if ltb now checked_at
    then false
    else ltb (now - checked_at) ttl

-- core.HashProbeResult, the clock when the probe has ended, and what other operations do to the
-- registry while it runs, between the two critical sections.
pub record ProbeResult : Type 0 where
  pub status : Text
  pub error_type : Text
  pub message : Text
  pub latency_ms : ℕ
  pub ended_ms : ℕ
  pub meanwhile : Registry → Registry

-- The state in which the probe has ended.
abbrev pub probed : ProbeResult → Backend → Backend
probed probe b = record b { registry = probe.meanwhile b.registry }

abbrev pub run_probe : ProbeResult → M (Unit {0})
run_probe probe b = (ok tt, probed probe b)

unfoldable pub store_check : Text → VkHashCheck → VkHashEntry → VkHashEntry
store_check profile_name check e = record e { checks = insert profile_name check e.checks }

abbrev is_running : M Bool
is_running b = (ok b.running, b)

unfoldable pub check_result : Text → Text → Text → ProbeResult → VkHashCheckResult
check_result id hash profile_name probe = record {
  hash_id = id;
  hash = hash;
  profile_name = profile_name;
  status = probe.status;
  checked_at = probe.ended_ms;
  error_type = probe.error_type;
  message = probe.message;
  latency_ms = probe.latency_ms;
}

-- The entry of an identifier in the registry file.
unfoldable pub loaded_entry : Text → M VkHashEntry
loaded_entry id = do
  r ← load_registry
  elim (find_vk_hash_by_id r id) [
    | none ↦ fail not_found
    | some i ↦ elim (get_elem? r i) [ none ↦ fail not_found | some e ↦ pure e ]
  ]

-- The second half of `checkVKHashProbe`: the check is stored with the entry, if that is still there.
unfoldable pub record_check : Text → Text → VkHashCheck → M (Unit {0})
unfolding store_check
record_check id profile_name check = do
  r ← load_registry
  elim (find_vk_hash_by_id r id) [
    | none ↦ pure tt
    | some i ↦ elim (get_elem? r i) [
      | none ↦ pure tt
      | some e ↦ save_registry (set r i (store_check profile_name check e))
    ]
  ]

-- The status that is stored and returned: an empty one counts as an error.
unfoldable pub settled : VkHashCheckResult → VkHashCheckResult
settled r = record r { status = if r.status ≗ [] then status_error else r.status }

unfoldable pub check_of : VkHashCheckResult → VkHashCheck
check_of r = record {
  status = r.status;
  checked_at = r.checked_at;
  error_type = r.error_type;
  message = r.message;
  latency_ms = r.latency_ms;
}

-- `checkVKHashProbe`; `probe` is what the network gives.
unfoldable pub check_vk_hash_probe : Env → ProbeResult → Text → Text → M VkHashCheckResult
unfolding settled check_of check_result
check_vk_hash_probe env probe id profile_name = do
  active ← is_running
  if active then fail connection_active else do
    e ← loaded_entry id
    p ← load_profile env profile_name
    run_probe probe
    let result = check_result id e.hash profile_name probe
    if probe.error_type ≗ codes "canceled"
        then pure (record result { status = status_canceled })
        else do record_check id profile_name (check_of (settled result)); pure (settled result)

-- `checkVKHashCoordinated` when no other check of the same hash and profile is in flight: `none`
-- stands for a context that has ended before the probe.
unfoldable pub check_vk_hash_coordinated :
    Env → Option ProbeResult → Text → Text → M VkHashCheckResult
check_vk_hash_coordinated env probe id raw_name =
    let name = sanitize_profile_name env raw_name in
    if name ≗ []
    then fail bad_profile_name
    else elim probe [ none ↦ fail canceled | some p ↦ check_vk_hash_probe env p id name ]

unfoldable pub stored_vk_hash_check : Text → Text → Backend → Option VkHashCheck
stored_vk_hash_check id profile_name b =
    if not b.readable then none else elim (find_vk_hash_by_id b.registry id) [
      | none ↦ none
      | some i ↦ elim (get_elem? b.registry i) [
        | none ↦ none
        | some e ↦ lookup profile_name e.checks
      ]
    ]
