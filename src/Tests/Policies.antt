-- ===== src/Tests/Policies.antt =====
-- Runs for core/vk_auth_policy.go.
use pwdtt.Prelude.{ℕ, ◌≤◌, [], ◌∷◌, ◌++◌, none, ok, err, length, take}
use pwdtt.VkAuth.{
  Attempt, Chain, plain, api_error, context_canceled, calls_failure, failure_decode, not_configured,
  try_vk_credential_pairs,
}
use pwdtt.VkAuth.Policy.{Walked, Last, try_vk_credential_pairs_lem}

abbrev rejected_once : Attempt ℕ
rejected_once = record { context_error = none; result = err (plain ∷ api_error 5 ∷ []) }

abbrev accepted : Attempt ℕ
accepted = record { context_error = none; result = ok 7 }

try_vk_credential_pairs_lem_example :
    (length (take 4 (rejected_once ∷ accepted ∷ [])) ≤ 4)
    × Walked
        (take 4 (rejected_once ∷ accepted ∷ []))
        (try_vk_credential_pairs (rejected_once ∷ accepted ∷ []))
        (Last not_configured (try_vk_credential_pairs (rejected_once ∷ accepted ∷ [])))
try_vk_credential_pairs_lem_example = try_vk_credential_pairs_lem rejected_once (accepted ∷ [])

abbrev given_up : Chain
given_up = (calls_failure failure_decode ∷ []) ++ context_canceled ∷ api_error 5 ∷ []
