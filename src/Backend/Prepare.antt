-- ===== src/Backend/Prepare.antt =====
-- `prepareVKHashes`: which hashes a connection starts with. Stored checks are used first, stale ones
-- are probed while the preflight's time lasts, and invalid hashes are replaced if the policy says so.
pub mod Verdicts
pub mod Known
pub mod Pending
pub mod Answers
pub mod Sound
use pwdtt.Prelude.{
  ℕ, zero, suc, ◌+◌, ◌*◌, Bool, true, false, not, ◌&&◌, ◌||◌, List, [], ◌∷◌, ◌++◌, Option, none,
  some, Result, ok, err, ltb, leb, ◌==◌, if◌then◌else◌,
}
use pwdtt.Prelude.Text.{Text, codes, ◌≗◌, trim_space}
use pwdtt.Prelude.TextSet.{mem_text}
use pwdtt.Types.{ConnectParams, VkHashEntry, VkHashCheck, VkHashPolicy}
use pwdtt.Registry.{normalize_vk_hash_list, hash_policy_from_connect}
use pwdtt.Backend.{
  Env, Backend, BackendError, M, ◌>>=◌, ◌>>◌, pure, fail, lift_hash, sync_profile_vk_settings,
  canceled, no_candidates, parent_canceled, none_left, none_left_timeout, replacement_failed,
}
use pwdtt.Backend.Checks.{
  ProbeResult, is_vk_hash_check_fresh, stored_vk_hash_check, check_vk_hash_coordinated,
  status_valid, status_invalid, status_error,
}
use pwdtt.Backend.Candidates.{candidate_vk_hashes, hashes_from_entries, unique_vk_hashes}
use pwdtt.Backend.Replace.{Replacement, replace_vk_hash_with_context}

-- What happens around one connection attempt: whether the preflight's context has ended before its
-- n-th check and before its n-th replacement, what these find, whether the parent context has ended
-- after the checks and after the replacements, and the preflight's context at last.
pub record Preflight : Type 0 where
  pub preflight_ended : ℕ → Bool
  pub replace_ended : ℕ → Bool
  pub probes : ℕ → Option ProbeResult
  pub replacements : ℕ → Replacement
  pub parent_ended : Bool
  pub parent_ended_after : Bool
  pub ended_at_last : Bool

abbrev pub has_any {ℓ} : {A : Type ℓ} → List A → Bool
has_any [] = false
has_any (_ ∷ _) = true

-- What the stored checks say of the candidates.
pub record Sorted : Type 0 where
  pub fresh_valid : List Text
  pub fallback : List VkHashEntry
  pub stale : List VkHashEntry
  pub confirmed_invalid : List Text  -- identifiers

abbrev pub nothing_sorted : Sorted
nothing_sorted = record { fresh_valid = []; fallback = []; stale = []; confirmed_invalid = [] }

-- One turn of the first loop, on the check that is stored for the candidate.
unfoldable pub sort_one : ℕ → Option VkHashCheck → VkHashEntry → Sorted → Sorted
sort_one now none e s = record s { stale = s.stale ++ e ∷ []; fallback = s.fallback ++ e ∷ [] }
sort_one now (some check) e s =
    if not (is_vk_hash_check_fresh check now)
    then record s { stale = s.stale ++ e ∷ []; fallback = s.fallback ++ e ∷ [] }
    else if check.status ≗ status_valid
    then record s { fresh_valid = s.fresh_valid ++ e.hash ∷ []; fallback = s.fallback ++ e ∷ [] }
    else if check.status ≗ status_error
    then record s { fallback = s.fallback ++ e ∷ [] }
    else if check.status ≗ status_invalid
    then record s { confirmed_invalid = s.confirmed_invalid ++ e.id ∷ [] }
    else record s { stale = s.stale ++ e ∷ []; fallback = s.fallback ++ e ∷ [] }

unfoldable pub sort_candidates : Backend → Text → ℕ → List VkHashEntry → Sorted → Sorted
unfolding sort_one
sort_candidates b profile_name now [] s = s
sort_candidates b profile_name now (e ∷ es) s =
    sort_candidates b profile_name now es
      (sort_one now (stored_vk_hash_check e.id profile_name b) e s)

-- Whether a stored check of the candidate is a recent infrastructure error.
unfoldable pub has_recent_error : Backend → Text → ℕ → VkHashEntry → Bool
has_recent_error b profile_name now e = elim (stored_vk_hash_check e.id profile_name b) [
  | none ↦ false
  | some check ↦ is_vk_hash_check_fresh check now && check.status ≗ status_error
]

unfoldable pub any_recent_error : Backend → Text → ℕ → List VkHashEntry → Bool
unfolding has_recent_error
any_recent_error b profile_name now [] = false
any_recent_error b profile_name now (e ∷ es) =
    has_recent_error b profile_name now e || any_recent_error b profile_name now es

-- The entries whose identifier is not confirmed invalid.
unfoldable pub not_invalid : List Text → List VkHashEntry → List VkHashEntry
not_invalid invalid [] = []
not_invalid invalid (e ∷ es) =
    let rest = not_invalid invalid es in if mem_text e.id invalid then rest else e ∷ rest

-- How the loop over stale candidates ends: with hashes, with an error, or with the identifiers that
-- are confirmed invalid by then.
pub data Probed : Type 0 where
  answer : List Text → Probed
  failed : BackendError → Probed
  ended : List Text → Probed

-- After the n-th check of a stale candidate: an answer, or the loop goes on or ends (`none`).
unfoldable pub judge : List VkHashEntry → List Text → VkHashEntry → Text → Probed
judge fallback invalid e status =
    if status ≗ status_valid
    then answer (e.hash ∷ [])
    else if status ≗ status_error
    then answer (hashes_from_entries (not_invalid invalid fallback))
    else if status ≗ status_invalid
    then ended (invalid ++ e.id ∷ [])
    else ended invalid

abbrev pub is_context_error : BackendError → Bool
is_context_error canceled = true
is_context_error _ = false

unfoldable pub probe_stale :
    Env
    → Preflight
    → Text
    → List VkHashEntry
    → ℕ
    → List Text
    → List VkHashEntry
    → Backend
    → Probed × Backend
unfolding judge
probe_stale env x profile_name fallback n invalid [] b = (ended invalid, b)
probe_stale env x profile_name fallback n invalid (e ∷ es) b =
    let (checked, b') = check_vk_hash_coordinated env (x.probes n) e.id profile_name b in
    let more = λ (seen : List Text). probe_stale env x profile_name fallback (n + 1) seen es b' in
    if x.preflight_ended n then (ended invalid, b) else elim checked [
      | err why ↦ if is_context_error why then (ended invalid, b') else (failed why, b')
      | ok result ↦ elim (judge fallback invalid e result.status) [
        | ended seen ↦ more seen
        | answer hs ↦ (answer hs, b')
        | failed why ↦ (failed why, b')
      ]
    ]

abbrev max_auto_replacements : ℕ
max_auto_replacements = 2

-- The loop of automatic replacements: the new hash, or whether an attempt failed.
unfoldable pub replace_invalid :
    Env
    → Preflight
    → Text
    → List Text
    → ℕ
    → Bool
    → List VkHashEntry
    → Backend
    → (Option Text × Bool) × Backend
replace_invalid env x profile_name invalid n tried [] b = ((none, tried), b)
replace_invalid env x profile_name invalid n tried (e ∷ es) b =
    let skip = replace_invalid env x profile_name invalid n tried es b in
    let (replaced, b') = replace_vk_hash_with_context env (x.replacements n) e.id profile_name b in
    let again = replace_invalid env x profile_name invalid (n + 1) true es b' in
    if not (mem_text e.id invalid) || leb max_auto_replacements n
    then skip
    else if x.replace_ended n
    then ((none, tried), b)
    else elim replaced [ ok fresh ↦ ((some fresh.hash, tried), b') | err why ↦ again ]

-- The replacement, if there is one, or the error.
unfoldable pub after_replacement :
    Preflight → (Option Text × Bool) × Backend → Result BackendError (List Text) × Backend
after_replacement x ((some hash, tried), b) = (ok (hash ∷ []), b)
after_replacement x ((none, tried), b) =
    if x.parent_ended_after
    then (err parent_canceled, b)
    else if x.ended_at_last
    then (err none_left_timeout, b)
    else if tried
    then (err replacement_failed, b)
    else (err none_left, b)

-- What is left when no stale candidate gave an answer.
unfoldable pub after_probes :
    Env
    → Preflight
    → VkHashPolicy
    → Text
    → List VkHashEntry
    → List VkHashEntry
    → List Text
    → M (List Text)
unfolding after_replacement
after_probes env x policy profile_name candidates fallback invalid b =
    let usable = not_invalid invalid fallback in
    let attempts = replace_invalid env x profile_name invalid 0 false candidates b in
    if x.parent_ended
    then (err parent_canceled, b)
    else if has_any usable
    then (ok (hashes_from_entries usable), b)
    else after_replacement x (if policy.auto_replace then attempts else ((none, false), b))

-- From the sorted candidates on.
unfoldable pub decide_hashes :
    Env → Preflight → ℕ → VkHashPolicy → Text → List VkHashEntry → Sorted → M (List Text)
unfolding probe_stale after_probes replace_invalid any_recent_error
decide_hashes env x now policy profile_name candidates s b =
    let (probed, b') = probe_stale env x profile_name s.fallback 0 s.confirmed_invalid s.stale b in
    if has_any s.fresh_valid
    then (ok (unique_vk_hashes s.fresh_valid), b)
    else if any_recent_error b profile_name now s.fallback
    then (ok (hashes_from_entries s.fallback), b)
    else elim probed [
      | answer hs ↦ (ok hs, b')
      | failed why ↦ (err why, b')
      | ended invalid ↦ after_probes env x policy profile_name candidates s.fallback invalid b'
    ]

-- `now` is the clock in nanoseconds.
unfoldable prepare_vk_hashes : Env → Preflight → ℕ → ConnectParams → M (List Text)
prepare_vk_hashes env x now params =
    let policy = hash_policy_from_connect params in
    let named = not (trim_space params.profile_name ≗ []) in
    do
      local ← lift_hash (normalize_vk_hash_list env.parse_url params.hashes)
      (if named
          then sync_profile_vk_settings env params.profile_name params.peer_addr params.password
              local policy
          else pure tt)
      candidates ← candidate_vk_hashes env local policy.mode
      elim candidates [
        | [] ↦ fail no_candidates
        | c ∷ cs ↦
            if not policy.auto_check || not named then pure (hashes_from_entries (c ∷ cs)) else λ b.
            decide_hashes env x now policy params.profile_name (c ∷ cs)
              (sort_candidates b params.profile_name now (c ∷ cs) nothing_sorted) b
      ]
