-- ===== src/Tests/Connections.antt =====
-- Runs for the checks and the preflight of backend/vk_hash_manager.go.
use pwdtt.Prelude.{
  ℕ, Bool, true, false, List, [], ◌∷◌, ◌++◌, none, some, ok, ◌≡◌, ◌⊎◌, refl, sym, ◌∙◌, ◌≢◌, arith,
}
use Prim.Native.String.{String}
use pwdtt.Prelude.Text.{Text, codes, ◌≗◌, trim_space}
use pwdtt.Prelude.TextSet.{mem_text, Distinct}
use pwdtt.Types.{VkHashEntry, VkHashCheck, VkHashCheckResult, VkHashPolicy, ProfileData}
use pwdtt.VkHash.Generate.{VkClient}
use pwdtt.Registry.Entries.{ids_of, hashes_of}
use pwdtt.Backend.{Env, Backend, load_registry, save_registry, load_profile, sanitize_profile_name}
use pwdtt.Registry.{find_vk_hash_by_id}
use pwdtt.Prelude.TextMap.{lookup}
use pwdtt.Backend.Checks.{
  probed, ProbeResult, loaded_entry, record_check, is_vk_hash_check_fresh, check_vk_hash_probe,
  check_of, check_result, settled, stored_vk_hash_check, status_canceled,
}
use pwdtt.Backend.Checks.Stored.{check_vk_hash_probe_stored}
use pwdtt.Backend.Replace.{Replacement}
use pwdtt.Backend.Prepare.{Preflight, nothing_sorted, sort_candidates, decide_hashes}
use pwdtt.Backend.Prepare.Verdicts.{
  Verdict, verdict, verdict_of, with_verdict, is_works, is_allowed, is_unknown, is_broken,
  sort_candidates_lem,
}
use pwdtt.Backend.Prepare.Sound.{
  usable, ruled_out, Prepared, decide_hashes_cached, decide_hashes-sort_candidates,
}

abbrev check : String → ℕ → VkHashCheck
check s t = record {
  status = codes s;
  checked_at = t;
  error_type = [];
  message = [];
  latency_ms = 0;
}

abbrev name : Text
name = codes "home"

abbrev entry : ℕ → String → VkHashEntry
entry i s = record {
  id = i ∷ [];
  hash = i ∷ [];
  source = codes "manual";
  in_pool = true;
  created_at = 1;
  checks = (name, check s 1) ∷ [];
  used_by = [];
}

abbrev three_entries : List VkHashEntry
three_entries = entry 1 "invalid" ∷ entry 2 "unknown" ∷ entry 3 "invalid" ∷ []

abbrev profile : ProfileData
profile = record {
  peer_addr = [];
  password = [];
  hashes = [];
  listen = [];
  turn_host = [];
  turn_port = [];
  device_id = [];
  hash_policy = none;
}

abbrev a_backend : Backend
a_backend = record {
  registry = three_entries;
  profiles = (name, profile) ∷ [];
  readable = true;
  writable = true;
  profiles_writable = true;
  running = false;
}

abbrev an_env : Env
an_env = record {
  parse_url = λ t. none;
  is_letter_or_digit = λ c. true;
  uuid = λ n. n ∷ [];
  now_ms = 2;
}

abbrev a_probe : ProbeResult
a_probe = record {
  status = codes "valid";
  error_type = [];
  message = [];
  latency_ms = 5;
  ended_ms = 2;
  meanwhile = λ r. r;
}

abbrev a_client : VkClient
a_client = record {
  delays = true;
  wait_canceled = λ n. false;
  start_call = λ n. none;
  parse_url = λ t. none;
}

abbrev a_replacement : Replacement
a_replacement = record {
  ended = λ n. false;
  busy = false;
  client = a_client;
  new_id = 9 ∷ [];
  probe = some a_probe;
}

abbrev a_preflight : Preflight
a_preflight = record {
  preflight_ended = λ n. false;
  replace_ended = λ n. false;
  probes = λ n. some a_probe;
  replacements = λ n. a_replacement;
  parent_ended = false;
  parent_ended_after = false;
  ended_at_last = false;
}

abbrev a_policy : VkHashPolicy
a_policy = record { mode = codes "pool"; auto_check = true; auto_replace = true }

sort_candidates_lem_example :
    let s' = sort_candidates a_backend name 2_000_000 three_entries nothing_sorted in
    let those = λ (p : Verdict → Bool). with_verdict a_backend name 2_000_000 p three_entries in
    (s'.fresh_valid ≡ [] ++ hashes_of (those is_works))
    × (s'.fallback ≡ [] ++ those is_allowed)
    × (s'.stale ≡ [] ++ those is_unknown)
    × (s'.confirmed_invalid ≡ [] ++ ids_of (those is_broken))
sort_candidates_lem_example =
    sort_candidates_lem a_backend name 2_000_000 three_entries nothing_sorted

ids_Distinct : Distinct (ids_of three_entries)
unfolding mem_text ◌≗◌
ids_Distinct = (refl, (refl, (refl, tt)))

decide_hashes-sort_candidates_example :
    Prepared an_env a_preflight name three_entries true
      (usable an_env a_preflight name 2_000_000 three_entries a_backend)
      (ruled_out an_env a_preflight name 2_000_000 three_entries a_backend)
      (decide_hashes an_env a_preflight 2_000_000 a_policy name three_entries
        (sort_candidates a_backend name 2_000_000 three_entries nothing_sorted)
        a_backend)
decide_hashes-sort_candidates_example =
    decide_hashes-sort_candidates an_env a_preflight 2_000_000 a_policy name three_entries a_backend
      ids_Distinct

-- What the probe of the first entry writes and returns.
abbrev a_result : VkHashCheckResult
a_result = settled (check_result (1 ∷ []) (1 ∷ []) name a_probe)

abbrev after_probe : Backend
after_probe = (check_vk_hash_probe an_env a_probe (1 ∷ []) name a_backend).1

probe_returns :
    check_vk_hash_probe an_env a_probe (1 ∷ []) name a_backend ≡ (ok a_result, after_probe)
unfolding check_vk_hash_probe loaded_entry load_registry find_vk_hash_by_id ◌≗◌ load_profile
    sanitize_profile_name trim_space lookup record_check save_registry
probe_returns = refl

check_vk_hash_probe_stored_example :
    ((i : ℕ) × (find_vk_hash_by_id a_backend.registry (1 ∷ []) ≡ some i))
    × (((a_result.status ≡ status_canceled) × (after_probe ≡ probed a_probe a_backend))
        ⊎ ((find_vk_hash_by_id (a_probe.meanwhile a_backend.registry) (1 ∷ []) ≡ none)
            × (after_probe ≡ probed a_probe a_backend))
        ⊎ (stored_vk_hash_check (1 ∷ []) name after_probe ≡ some (check_of a_result)))
check_vk_hash_probe_stored_example =
    check_vk_hash_probe_stored an_env a_probe (1 ∷ []) name a_backend after_probe a_result
      probe_returns

abbrev valid_entry : VkHashEntry
valid_entry = entry 4 "valid"

abbrev b_backend : Backend
b_backend = record a_backend { registry = three_entries ++ valid_entry ∷ [] }

valid_works : with_verdict b_backend name 2_000_000 is_works (valid_entry ∷ []) ≡ valid_entry ∷ []
unfolding with_verdict verdict_of verdict stored_vk_hash_check find_vk_hash_by_id ◌≗◌ lookup
    is_vk_hash_check_fresh
valid_works = refl

some_works : with_verdict b_backend name 2_000_000 is_works (valid_entry ∷ []) ≢ []
some_works h = let e = sym valid_works ∙ h in absurd (ground arith)

decide_hashes_cached_example :
    (hs : List Text) × (decide_hashes an_env a_preflight 2_000_000 a_policy name
        (valid_entry ∷ [])
        (sort_candidates b_backend name 2_000_000 (valid_entry ∷ []) nothing_sorted)
        b_backend
      ≡ (ok hs, b_backend))
    × Distinct hs
    × ((t : Text)
        → mem_text t hs
          ≡ mem_text t
              (hashes_of (with_verdict b_backend name 2_000_000 is_works (valid_entry ∷ []))))
decide_hashes_cached_example =
    decide_hashes_cached an_env a_preflight 2_000_000 a_policy name (valid_entry ∷ []) b_backend
      some_works
